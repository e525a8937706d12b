-- ===== src/Timers/Schedule.antt =====
-- `init` of lib.rs: the check of the parameters and the timers of timers.rs.
use ic_websocket_cdk_rs.Prelude.{
  ◌≤◌, ◌<◌, ◌≡◌, ◌≢◌, refl, ◌∙◌, subst, ◌⊎◌, inl, inr, false, Option, none, some, arith, leb,
  Bool-cases, from_millis,
}
use ic_websocket_cdk_rs.Constants.{client_keep_alive_timeout_ms}
use ic_websocket_cdk_rs.Env.{Env}
use ic_websocket_cdk_rs.Env.Program.{send_ack_every}
use ic_websocket_cdk_rs.Params.{WsInitParams, check_validity}
use ic_websocket_cdk_rs.State.{State, ok, trap}
use ic_websocket_cdk_rs.Timers.{
  clear_timer_of, cancel_timers, cancel_ack_timer, cancel_keep_alive_timer,
  schedule_send_ack_to_clients, init,
}

module _ ⦃env : Env⦄ where
  -- A cleared timer has no task, and clearing brings none back.
  clear-none :
      (i j : env.TimerId) (ts : env.Timers)
      → (j ≡ i) ⊎ (env.timer_task i ts ≡ none)
      → env.timer_task i (env.clear_timer j ts) ≡ none
  clear-none i j ts h = elim (env.timer_id_discrete j i) [
    | yes e ↦
        subst (λ k. env.timer_task k (env.clear_timer j ts) ≡ none) e (env.clear_timer_self j ts)
    | no n ↦ elim h [ inl e ↦ absurd (n e) | inr e ↦ env.clear_timer_ne j i ts n ∙ e ]
  ]

  clear_timer_of-none :
      (i : env.TimerId) (o : Option env.TimerId) (ts : env.Timers)
      → (o ≡ some i) ⊎ (env.timer_task i ts ≡ none)
      → env.timer_task i (clear_timer_of o ts) ≡ none
  clear_timer_of-none i none ts (inl e) = absurd (ground (arith, e))
  clear_timer_of-none i none ts (inr e) = e
  clear_timer_of-none i (some j) ts (inl e) = clear-none i j ts (inl (ground (arith, e)))
  clear_timer_of-none i (some j) ts (inr e) = clear-none i j ts (inr e)

  -- The timers after `init`: one that sends the acknowledgements, at the interval of the parameters;
  -- those of an earlier `init` are gone, unless the new one took their id.
  pub record IsScheduled (params : WsInitParams) (s t : State) : Type 0 where
    pub same_params : t.params ≡ params
    pub id : env.TimerId
    pub acks : t.ack_timer ≡ some id
    pub task :
        env.timer_task id t.timers ≡ some (send_ack_every (from_millis params.send_ack_interval_ms))
    pub no_keep_alive : t.keep_alive_timer ≡ none
    pub cleared :
        (i : env.TimerId)
        → (s.ack_timer ≡ some i) ⊎ (s.keep_alive_timer ≡ some i)
        → id ≢ i
        → env.timer_task i t.timers ≡ none

  -- The state that `init` leaves.
  abbrev pub scheduled : WsInitParams → State → State
  unfolding cancel_timers cancel_ack_timer cancel_keep_alive_timer schedule_send_ack_to_clients
  scheduled params s = schedule_send_ack_to_clients (cancel_timers (record s { params = params }))

  pub scheduled-IsScheduled :
      (params : WsInitParams) (s : State) → IsScheduled params s (scheduled params s)
  unfolding cancel_timers cancel_ack_timer cancel_keep_alive_timer schedule_send_ack_to_clients
      scheduled
  scheduled-IsScheduled params s =
      let one = clear_timer_of s.ack_timer s.timers in
      let two = clear_timer_of s.keep_alive_timer one in
      let t = send_ack_every (from_millis params.send_ack_interval_ms) in
      record {
        same_params = refl;
        id = (env.set_timer t two).0;
        acks = refl;
        task = env.set_timer_self t two;
        no_keep_alive = refl;
        cleared = λ i h ne. env.set_timer_ne t two i ne ∙ elim h [
          | inl e ↦
              clear_timer_of-none i s.keep_alive_timer one
                (inr (clear_timer_of-none i s.ack_timer s.timers (inl e)))
          | inr e ↦ clear_timer_of-none i s.keep_alive_timer one (inl e)
        ];
      }

  pub init_lem :
      (params : WsInitParams) (s : State)
      → leb params.send_ack_interval_ms client_keep_alive_timeout_ms ≡ false
      → init params s ≡ ok tt (scheduled params s)
  unfolding init check_validity
  init_lem params s e = rw e

  pub init-IsScheduled :
      (params : WsInitParams) (s : State)
      → ((params.send_ack_interval_ms ≤ client_keep_alive_timeout_ms) × (init params s ≡ trap))
        ⊎ ((client_keep_alive_timeout_ms < params.send_ack_interval_ms)
            × ((t : State) × (init params s ≡ ok tt t) × IsScheduled params s t))
  unfolding init check_validity
  init-IsScheduled params s =
      elim (Bool-cases (leb params.send_ack_interval_ms client_keep_alive_timeout_ms)) [
        | inl e ↦ inl (ground (arith, e), rw e)
        | inr e ↦ inr (
          ground (arith, e),
          (scheduled params s, init_lem params s e, scheduled-IsScheduled params s),
        )
      ]
