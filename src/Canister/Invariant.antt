-- ===== src/Canister/Invariant.antt =====
-- What is true of every state that a canister reaches, whatever the order of the messages.
use ic_websocket_cdk_rs.Prelude.{ℕ, Bytes, ◌≡◌, ◌≢◌, refl, ◌∙◌, sym, ap, true, get, arith}
use ic_websocket_cdk_rs.Types.Messages.{new_client_key}
use ic_websocket_cdk_rs.Env.{Env, Key}
use ic_websocket_cdk_rs.State.{State, Outcome, ok, err, trap}
use ic_websocket_cdk_rs.State.Relates.{Holds, Preserves-intro}
use ic_websocket_cdk_rs.State.Registry.{
  IsLinked, one_connection, is_registered, set_contains, current_key,
}
use ic_websocket_cdk_rs.State.Registry.Changes.{drop_client-IsLinked, add_client-IsLinked}
use ic_websocket_cdk_rs.State.Registry.Rules.{
  IsKept, sessions-IsKept, IsLinked-SameSessions, SameSessions-fields,
}
use ic_websocket_cdk_rs.State.Registry.Kept.{Keeps, close-Keeps}
use ic_websocket_cdk_rs.State.Registry.Wiped.{wipe-Keeps}
use ic_websocket_cdk_rs.Api.{ws_open}
use ic_websocket_cdk_rs.Api.Kept.{send-Keeps, ws_open-keeps, ws_close-Keeps}
use ic_websocket_cdk_rs.Api.Incoming.{ws_message-Keeps, next_number-IsLinked}
use ic_websocket_cdk_rs.Timers.Kept.{ack_timer_task-Keeps, check_keep_alive-Keeps, init-Keeps}
use ic_websocket_cdk_rs.Canister.{Call, initial_state, perform, settled, Reachable}
use ic_websocket_cdk_rs.Canister.Sessions.{
  Sessions, Event, Evolves, sessions, Evolves-same, sessions-SameSessions, drop_client-ends,
  add_client-begins, next_number-receives,
}

module _ ⦃env : Env⦄ where
  pub initial-IsLinked :
      (time : ℕ) (timers : env.Timers) (certified : Bytes) (app : env.App)
      → IsLinked (initial_state time timers certified app)
  unfolding initial_state get set_contains
  initial-IsLinked time timers certified app = record {
    owned = λ p k e. absurd (ground arith);
    registered = λ p k e. absurd (ground arith);
    current = λ k r. absurd (ground arith);
    outgoing = λ k. refl;
    incoming = λ k. refl;
    waiting = λ k w. absurd (ground arith);
  }

  -- The events that a call may lead to. A callback of the canister may close any connection.
  abbrev pub Allows : Call → Event → Type 0
  Allows (Call.opened caller args) (Event.begins k) =
      (caller ≢ env.anonymous) × (k ≡ new_client_key caller args.client_nonce)
  Allows (Call.opened caller args) (Event.ends p) = Unit
  Allows (Call.received caller args) (Event.receives k n) =
      (caller ≡ k.client_principal) × (k ≡ args.msg.client_key) × (n ≡ args.msg.sequence_num)
  Allows (Call.received caller args) (Event.ends p) = Unit
  Allows (Call.closed_by_gateway caller args) (Event.ends p) = p ≡ args.client_key.client_principal
  Allows (Call.closed q) (Event.ends p) = p ≡ q
  Allows Call.wiped (Event.ends p) = Unit
  Allows Call.keep_alive_timer_fired (Event.ends p) = Unit
  Allows c e = ⊥

  -- The registrations agree, and the sessions came from `t` by allowed events.
  abbrev Follows : (Event → Type 0) → Sessions → State → Type 0
  Follows A t s = IsLinked s × Evolves A t (sessions s)

  Follows-IsKept :
      (A : Event → Type 0) (t : Sessions)
      → IsKept (λ k. A (Event.ends k.client_principal)) (Follows A t)
  Follows-IsKept A t =
      sessions-IsKept (λ s h. h.0)
        (λ s u e h. (
          IsLinked-SameSessions s u e h.0,
          Evolves-same A t (sessions s) (sessions u) (sessions-SameSessions s u e) h.1,
        ))
        (λ s k a h alone. (
          drop_client-IsLinked s k h.0 alone,
          Evolves.changed (Event.ends k.client_principal) a h.1 (drop_client-ends s k h.0),
        ))

  perform-Follows : (t : Sessions) (c : Call) → Keeps (Follows (Allows c) t) (perform c)
  unfolding perform
  perform-Follows t (Call.initialized params) = init-Keeps (Follows-IsKept _ t) params
  perform-Follows t (Call.opened caller args) =
      let kept = Follows-IsKept (Allows (Call.opened caller args)) t in
      Preserves-intro _ (ws_open caller args) (
        ws_open-keeps kept kept (λ s h. h) (λ k. tt) caller args
          λ m s h free.
            let k : Key = new_client_key caller args.client_nonce in
            (
              add_client-IsLinked s k _ h.0 free,
              Evolves.changed (Event.begins k) (m, refl) h.1 (add_client-begins s k h.0 _ free),
            ))
  perform-Follows t (Call.closed_by_gateway caller args) =
      ws_close-Keeps (Follows-IsKept _ t) caller args refl
  perform-Follows t (Call.received caller args) =
      ws_message-Keeps (Follows-IsKept _ t) (λ k. tt) caller args
        λ s h current expected.
          let k = args.msg.client_key in
          let owner : k.client_principal ≡ caller = h.0.owned caller k current in
          (
            next_number-IsLinked k s h.0,
            Evolves.changed (Event.receives k args.msg.sequence_num) (sym owner, refl, refl) h.1
                (next_number-receives s k h.0 args.msg.sequence_num
                  (ap (current_key s) owner ∙ current) expected),
          )
  perform-Follows t (Call.sent p bytes) = send-Keeps (Follows-IsKept _ t) p bytes
  perform-Follows t (Call.closed p) = close-Keeps (Follows-IsKept _ t) p (λ k e. e)
  perform-Follows t Call.wiped = wipe-Keeps (Follows-IsKept _ t) (λ k. tt)
  perform-Follows t Call.ack_timer_fired = ack_timer_task-Keeps (Follows-IsKept _ t)
  perform-Follows t Call.keep_alive_timer_fired =
      check_keep_alive-Keeps (Follows-IsKept _ t) (λ k. tt)

  settled-Follows :
      (A : Event → Type 0) (s : State) (o : Outcome (Unit {0}))
      → Follows A (sessions s) s
      → Holds (λ t. Follows A (sessions s) s → Follows A (sessions s) t) o
      → Follows A (sessions s) (settled s o)
  unfolding settled
  settled-Follows A s (ok a t) h k = k h
  settled-Follows A s (err e t) h k = k h
  settled-Follows A s trap h k = h

  called-Follows :
      (s : State) (c : Call)
      → IsLinked s
      → Follows (Allows c) (sessions s) (settled s (perform c s))
  called-Follows s c h =
      settled-Follows (Allows c) s (perform c s) (h, Evolves.unchanged (λ p. refl))
        ((perform-Follows (sessions s) c).at s)

  -- In every reachable state the maps of the connections agree: each current key is that of a
  -- registered client of its principal, each registered client is current, the registered clients
  -- are those that have an outgoing and an incoming number, and only they are waited for.
  pub Reachable-IsLinked : (s : State) → Reachable s → IsLinked s
  Reachable-IsLinked _ (Reachable.installed time timers certified app) =
      initial-IsLinked time timers certified app
  Reachable-IsLinked _ (Reachable.elapsed {s} time timers app r) =
      IsLinked-SameSessions s _ (SameSessions-fields s _ refl refl refl refl refl)
        (Reachable-IsLinked s r)
  Reachable-IsLinked _ (Reachable.called {s} c r) = (called-Follows s c (Reachable-IsLinked s r)).0

  pub Reachable-Evolves :
      (s : State) (c : Call)
      → Reachable s
      → Evolves (Allows c) (sessions s) (sessions (settled s (perform c s)))
  Reachable-Evolves s c r = (called-Follows s c (Reachable-IsLinked s r)).1

  -- In every reachable state two registered clients of one principal are the same client.
  pub Reachable-one_connection :
      (s : State) (j k : Key)
      → Reachable s
      → is_registered s j ≡ true
      → is_registered s k ≡ true
      → j.client_principal ≡ k.client_principal
      → j ≡ k
  Reachable-one_connection s j k r = one_connection s j k (Reachable-IsLinked s r)
