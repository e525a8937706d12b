-- ===== src/TestCanister/Wiped.antt =====
-- `init` and `wipe` of src/test_canister/src/lib.rs.
use ic_websocket_cdk_rs.Prelude.{ℕ, ◌<◌, ◌≡◌, false, some, arith, leb}
use ic_websocket_cdk_rs.Constants.{client_keep_alive_timeout_ms}
use ic_websocket_cdk_rs.Env.{Env}
use ic_websocket_cdk_rs.Params.{
  WsInitParams, check_validity, new_params, with_max_number_of_returned_messages,
  with_send_ack_interval_ms, default_params,
}
use ic_websocket_cdk_rs.State.{State, Outcome, Exec, ok, err, trap, continue}
use ic_websocket_cdk_rs.State.Removal.{reset_internal_state}
use ic_websocket_cdk_rs.State.Removal.NoErrors.{Leaves}
use ic_websocket_cdk_rs.Timers.{
  cancel_timers, cancel_ack_timer, cancel_keep_alive_timer, schedule_send_ack_to_clients,
}
use ic_websocket_cdk_rs.State.Registry.Emptied.{IsEmptied, reset_internal_state-IsEmptied}
use ic_websocket_cdk_rs.Timers.Schedule.{IsScheduled, scheduled, scheduled-IsScheduled, init_lem}
use ic_websocket_cdk_rs.TestCanister.{test_handlers, built_params, init, wipe}

module _ ⦃env : Env⦄ (on_open : env.OnOpenCallback) (on_message : env.OnMessageCallback)
    (on_close : env.OnCloseCallback) where
  abbrev params_of : ℕ → ℕ → WsInitParams
  params_of n ms = record {
    handlers = test_handlers on_open on_message on_close;
    max_number_of_returned_messages = n;
    send_ack_interval_ms = ms;
  }

  built_params_lem :
      (n ms : ℕ)
      → client_keep_alive_timeout_ms < ms
      → built_params on_open on_message on_close n ms ≡ some (params_of n ms)
  unfolding with_send_ack_interval_ms with_max_number_of_returned_messages new_params check_validity
      default_params
  built_params_lem n ms h =
      let valid : leb ms client_keep_alive_timeout_ms ≡ false = ground arith in rw valid

  -- The timers and the parameters are not among what is emptied.
  scheduled-IsEmptied :
      (params : WsInitParams) (s : State) → IsEmptied s → IsEmptied (scheduled params s)
  unfolding cancel_timers cancel_ack_timer cancel_keep_alive_timer schedule_send_ack_to_clients
  scheduled-IsEmptied params s h = record {
    no_client = h.no_client;
    no_key = h.no_key;
    no_outgoing = h.no_outgoing;
    no_incoming = h.no_incoming;
    no_waiting = h.no_waiting;
    no_gateway = h.no_gateway;
    no_gateway_to_remove = h.no_gateway_to_remove;
    no_message = h.no_message;
  }

  -- Emptied, with these parameters and their timer.
  abbrev pub IsFresh : ℕ → ℕ → State → Type 0
  IsFresh n ms t = IsEmptied t × ((s : State) × IsScheduled (params_of n ms) s t)

  init-IsFresh :
      (n ms : ℕ) (s : State)
      → client_keep_alive_timeout_ms < ms
      → IsEmptied s
      → Leaves (IsFresh n ms) (init on_open on_message on_close n ms s)
  unfolding init
  init-IsFresh n ms s h e =
      let valid : leb ms client_keep_alive_timeout_ms ≡ false = ground arith in
      rw (built_params_lem n ms h, init_lem (params_of n ms) s valid)
        (scheduled-IsEmptied (params_of n ms) s e, (s, scheduled-IsScheduled (params_of n ms) s))

  Leaves-continue :
      {P : State → Type 0} (Q : State → Type 0) (o : Outcome (Unit {0})) (f : Exec (Unit {0}))
      → Leaves P o
      → ((t : State) → P t → Leaves Q (f t))
      → Leaves Q (continue o (λ _. f))
  Leaves-continue Q (ok a t) f h k = k t h
  Leaves-continue Q (err e t) f h k = absurd h
  Leaves-continue Q trap f h k = tt

  pub wipe-IsFresh :
      (n ms : ℕ) (s : State)
      → client_keep_alive_timeout_ms < ms
      → Leaves (IsFresh n ms) (wipe on_open on_message on_close n ms s)
  unfolding wipe
  wipe-IsFresh n ms s h =
      Leaves-continue (IsFresh n ms) (reset_internal_state s) _ (reset_internal_state-IsEmptied s)
        (λ t e. init-IsFresh n ms t h e)
