-- ===== src/Canister/Silent.antt =====
-- The acknowledgement timer and the check of the keep-alives that follows it, in a state that the
-- canister reaches.
use ic_websocket_cdk_rs.Prelude.{
  ℕ, ◌<◌, ◌≡◌, refl, ap, ◌∙◌, false, Option, none, some, get, is_some, u64_mod, if◌then◌else◌,
}
use ic_websocket_cdk_rs.Types.Gateway.{RegisteredClient}
use ic_websocket_cdk_rs.Env.{Env, Key}
use ic_websocket_cdk_rs.State.{State, Outcome, Key-discrete, ok, err, trap}
use ic_websocket_cdk_rs.State.Safety.{NeverTraps, Safe}
use ic_websocket_cdk_rs.State.Removal.NoErrors.{Leaves}
use ic_websocket_cdk_rs.State.Registry.{is_registered}
use ic_websocket_cdk_rs.Timers.{ack_timer_task, check_keep_alive_timer_callback}
use ic_websocket_cdk_rs.Timers.Safety.{check_keep_alive-IsSafe}
use ic_websocket_cdk_rs.Timers.KeepAlive.{is_late, check_keep_alive-registered}
use ic_websocket_cdk_rs.Timers.Ready.{Serializes, IsReady}
use ic_websocket_cdk_rs.Timers.Acknowledged.{ack_timer_task-waits}
use ic_websocket_cdk_rs.Canister.{Call, Reachable}
use ic_websocket_cdk_rs.Canister.Invariant.{Reachable-IsLinked}
use ic_websocket_cdk_rs.Canister.Counted.{opens, Reachable-IsCounted}
use ic_websocket_cdk_rs.Canister.Safety.{Reachable-no_trap}

module _ ⦃env : Env⦄ where
  pub Reachable-IsReady : (s : State) (r : Reachable s) → NeverTraps → opens r < u64_mod → IsReady s
  Reachable-IsReady s r never small = record {
    linked = Reachable-IsLinked s r;
    aligned = (Reachable-no_trap s Call.ack_timer_fired never r tt).1;
    gateways =
        λ k c e. let (g, found, one) = (Reachable-IsCounted s r small).1 k c e in ap is_some found;
  }

  -- An outcome that is neither a trap nor an error.
  returned :
      (P : State → Type 0) (o : Outcome (Unit {0}))
      → Leaves P o
      → Safe o
      → (u : State) × (o ≡ ok tt u) × P u
  returned P (ok a u) h safe = (u, refl, h)
  returned P (err e u) h safe = absurd h
  returned P trap h safe = absurd safe

  late-registered :
      (now : ℕ) (o : Option (RegisteredClient env.Principal))
      → (if is_some o then (if is_late now o then false else is_some o) else is_some o)
        ≡ (if is_late now o then false else is_some o)
  late-registered now none = refl
  late-registered now (some c) = refl

  -- In a canister whose callbacks never trap and whose messages all have an encoding, in every
  -- state that is reached with fewer than 2^64 calls of ws_open, the timer of the acknowledgements
  -- returns, and the check of the keep-alives, when it follows at any time and no call comes
  -- between, returns too; then those clients are registered that were before the acknowledgements,
  -- without the ones whose last keep-alive is more than 60 seconds before the check.
  pub silent_clients-leave :
      (s : State) (r : Reachable s) (now : ℕ)
      → NeverTraps
      → Serializes
      → opens r < u64_mod
      → (t : State) × (ack_timer_task s ≡ ok tt t)
        × (u : State) × (check_keep_alive_timer_callback (record t { time = now }) ≡ ok tt u)
        × ((j : Key)
            → is_registered u j ≡ (
                if is_late now (get Key-discrete j s.registered_clients)
                then false
                else is_registered s j))
  silent_clients-leave s r now never all small =
      let (t, sent, clients, waiting, timer, ready) =
        ack_timer_task-waits all s (Reachable-IsReady s r never small) in
      let late : State = record t { time = now } in
      let (u, checked, left) =
        returned _ (check_keep_alive_timer_callback late) (check_keep_alive-registered late)
          ((check_keep_alive-IsSafe never).at late ready.aligned) in
      (
        t,
        sent,
        u,
        checked,
        λ j.
            left j
            ∙ ap
                (λ w.
                  if w
                  then (if is_late now (get Key-discrete j t.registered_clients)
                      then false
                      else is_registered t j)
                  else is_registered t j)
                (waiting j)
            ∙ ap
                (λ m.
                  if is_registered s j
                  then (if is_late now (get Key-discrete j m)
                      then false
                      else is_some (get Key-discrete j m))
                  else is_some (get Key-discrete j m))
                clients
            ∙ late-registered now (get Key-discrete j s.registered_clients),
      )
