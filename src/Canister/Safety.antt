-- ===== src/Canister/Safety.antt =====
-- No message and no timer traps in a canister whose callbacks do not.
use ic_websocket_cdk_rs.Prelude.{
  ◌≡◌, ◌≢◌, ◌⊎◌, refl, ap, true, arith, get, is_some, Option-cases, inl, inr, subst,
}
use ic_websocket_cdk_rs.Env.{Env}
use ic_websocket_cdk_rs.Params.{check_validity}
use ic_websocket_cdk_rs.State.{State, Outcome, ok, err, trap}
use ic_websocket_cdk_rs.State.Safety.{NeverTraps, Aligned, Safe, IsSafe}
use ic_websocket_cdk_rs.State.Safety.Sends.{send-IsSafe}
use ic_websocket_cdk_rs.State.Safety.Removals.{close-IsSafe, wipe-IsSafe}
use ic_websocket_cdk_rs.Api.Safety.{ws_open-IsSafe, ws_close-IsSafe, ws_message-IsSafe}
use ic_websocket_cdk_rs.Timers.{init}
use ic_websocket_cdk_rs.Timers.Safety.{init-IsSafe, ack_timer_task-IsSafe, check_keep_alive-IsSafe}
use ic_websocket_cdk_rs.Canister.{Call, initial_state, perform, settled, Reachable}

module _ ⦃env : Env⦄ where
  -- The parameters of `init` pass their check.
  abbrev pub IsValid : Call → Type 0
  IsValid (Call.initialized params) = is_some (check_validity params) ≡ true
  IsValid (Call.opened caller args) = Unit
  IsValid (Call.closed_by_gateway caller args) = Unit
  IsValid (Call.received caller args) = Unit
  IsValid (Call.sent p bytes) = Unit
  IsValid (Call.closed p) = Unit
  IsValid Call.wiped = Unit
  IsValid Call.ack_timer_fired = Unit
  IsValid Call.keep_alive_timer_fired = Unit

  -- `init` traps on other parameters.
  accepted_cases : (c : Call) → IsValid c ⊎ ((s : State) → perform c s ≡ trap)
  unfolding perform init
  accepted_cases (Call.initialized params) = elim (Option-cases (check_validity params)) [
    | inl e ↦ inr (λ s. rw e refl)
    | inr (u, e) ↦ inl (ap is_some e)
  ]
  accepted_cases (Call.opened caller args) = inl tt
  accepted_cases (Call.closed_by_gateway caller args) = inl tt
  accepted_cases (Call.received caller args) = inl tt
  accepted_cases (Call.sent p bytes) = inl tt
  accepted_cases (Call.closed p) = inl tt
  accepted_cases Call.wiped = inl tt
  accepted_cases Call.ack_timer_fired = inl tt
  accepted_cases Call.keep_alive_timer_fired = inl tt

  module _ (never : NeverTraps) where
    perform-IsSafe : (c : Call) → IsValid c → IsSafe (perform c)
    unfolding perform
    perform-IsSafe (Call.initialized params) valid = init-IsSafe params valid
    perform-IsSafe (Call.opened caller args) valid = ws_open-IsSafe never caller args
    perform-IsSafe (Call.closed_by_gateway caller args) valid = ws_close-IsSafe never caller args
    perform-IsSafe (Call.received caller args) valid = ws_message-IsSafe never caller args
    perform-IsSafe (Call.sent p bytes) valid = send-IsSafe p bytes
    perform-IsSafe (Call.closed p) valid = close-IsSafe never p
    perform-IsSafe Call.wiped valid = wipe-IsSafe never
    perform-IsSafe Call.ack_timer_fired valid = ack_timer_task-IsSafe never
    perform-IsSafe Call.keep_alive_timer_fired valid = check_keep_alive-IsSafe never

    settled-Aligned : (s : State) (o : Outcome (Unit {0})) → Safe o → Aligned (settled s o)
    unfolding settled
    settled-Aligned s (ok a t) h = h
    settled-Aligned s (err e t) h = h
    settled-Aligned s trap h = absurd h

    called-Aligned : (s : State) (c : Call) → Aligned s → Aligned (settled s (perform c s))
    unfolding settled
    called-Aligned s c h = elim (accepted_cases c) [
      | inl valid ↦ settled-Aligned s (perform c s) ((perform-IsSafe c valid).at s h)
      | inr refused ↦ rw (refused s) h
    ]

    Reachable-Aligned : (s : State) → Reachable s → Aligned s
    unfolding initial_state get
    Reachable-Aligned _ (Reachable.installed time timers certified_data app) =
        λ gp g e. absurd (ground (arith, e))
    Reachable-Aligned _ (Reachable.elapsed {s} time timers app r) = Reachable-Aligned s r
    Reachable-Aligned _ (Reachable.called {s} c r) = called-Aligned s c (Reachable-Aligned s r)

  no_trap : (o : Outcome (Unit {0})) → Safe o → o ≢ trap
  no_trap o h e = subst Safe e h

  pub Reachable-no_trap :
      (s : State) (c : Call)
      → NeverTraps
      → Reachable s
      → IsValid c
      → (perform c s ≢ trap) × Aligned s
  Reachable-no_trap s c never r valid =
      let h = Reachable-Aligned never s r in
      (no_trap (perform c s) ((perform-IsSafe never c valid).at s h), h)
