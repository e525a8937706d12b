-- ===== src/Canister/Certified.antt =====
-- The queues and their certificate in every state that a canister reaches, and how many nonces its
-- calls use up at most.
use ic_websocket_cdk_rs.Prelude.{
  ℕ, ◌+◌, ◌<◌, ◌≡◌, suc, refl, [], arith, times, length, get, u64_mod,
}
use ic_websocket_cdk_rs.Env.{Env}
use ic_websocket_cdk_rs.State.{State, Outcome, ok, err, trap}
use ic_websocket_cdk_rs.State.Relates.{Holds}
use ic_websocket_cdk_rs.State.Queues.Raised.{IsSound}
use ic_websocket_cdk_rs.State.Queues.Costs.{HasSpare, HasSpare-le, same-HasSpare}
use ic_websocket_cdk_rs.State.Queues.Spent.{
  IsLimited, send-Costs, close-Costs, reset_internal_state-Costs,
}
use ic_websocket_cdk_rs.Api.Spent.{ws_open-Costs, ws_close-Costs, ws_message-Costs}
use ic_websocket_cdk_rs.Timers.Spent.{init-Costs, ack_timer_task-Costs, check_keep_alive-Costs}
use ic_websocket_cdk_rs.Canister.{Call, initial_state, perform, settled, Reachable}

module _ ⦃env : Env⦄ where
  -- What a callback of `m` calls uses up at most, where each `close` takes a close message and the
  -- `m` calls of `on_close`.
  abbrev pub callback_messages : ℕ → ℕ
  callback_messages m = times m (suc m)

  -- How many messages a call sends at most, where each callback sends and closes `m` times at most.
  abbrev pub messages_of : ℕ → Call → State → ℕ
  messages_of m (Call.initialized params) s = 0
  messages_of m (Call.opened caller args) s = m + suc (callback_messages m)
  messages_of m (Call.closed_by_gateway caller args) s = m
  messages_of m (Call.received caller args) s = suc m + callback_messages m
  messages_of m (Call.sent p bytes) s = 1
  messages_of m (Call.closed p) s = suc m
  messages_of m Call.wiped s = times (length s.registered_clients) m
  messages_of m Call.ack_timer_fired s = length s.registered_clients
  messages_of m Call.keep_alive_timer_fired s =
      times (length s.clients_waiting_for_keep_alive) (suc m)

  -- How many messages were sent at most until a state was reached.
  unfoldable pub messages_until : {s : State} → ℕ → Reachable s → ℕ
  messages_until m (Reachable.installed time timers certified_data app) = 0
  messages_until m (Reachable.elapsed time timers app r) = messages_until m r
  messages_until m (Reachable.called {s} c r) = messages_of m c s + messages_until m r

  module _ (m : ℕ) (limited : IsLimited m) where
    perform-HasSpare :
        (c : Call) (n : ℕ) (s : State)
        → HasSpare (messages_of m c s + n) s
        → Holds (HasSpare n) (perform c s)
    unfolding perform
    perform-HasSpare (Call.initialized params) n s h = (init-Costs params).at n s h
    perform-HasSpare (Call.opened caller args) n s h =
        (ws_open-Costs m limited caller args).at n s h
    perform-HasSpare (Call.closed_by_gateway caller args) n s h =
        (ws_close-Costs m limited caller args).at n s h
    perform-HasSpare (Call.received caller args) n s h =
        (ws_message-Costs m limited caller args).at n s h
    perform-HasSpare (Call.sent p bytes) n s h = (send-Costs p bytes).at n s h
    perform-HasSpare (Call.closed p) n s h = (close-Costs m limited p).at n s h
    perform-HasSpare Call.wiped n s h = reset_internal_state-Costs m limited n s h
    perform-HasSpare Call.ack_timer_fired n s h = ack_timer_task-Costs n s h
    perform-HasSpare Call.keep_alive_timer_fired n s h = check_keep_alive-Costs m limited n s h

    settled-HasSpare :
        (n k : ℕ) (s : State) (o : Outcome (Unit {0}))
        → HasSpare (k + n) s
        → Holds (HasSpare n) o
        → HasSpare n (settled s o)
    unfolding settled
    settled-HasSpare n k s (ok a t) before h = h
    settled-HasSpare n k s (err e t) before h = h
    settled-HasSpare n k s trap before h = HasSpare-le n (k + n) s (omega arith) before

    initial-IsSound : (n : ℕ) (s : State) → s.registered_gateways ≡ [] → IsSound n s
    unfolding get
    initial-IsSound n s e = (
      record {
        ordered = λ p g h. absurd (ground (arith, e, h));
        covered = λ p g h. absurd (ground (arith, e, h));
        current = λ q. absurd (ground (arith, e, q.2));
      },
      λ p g h. absurd (ground (arith, e, h)),
    )

    reached-HasSpare :
        (s : State) (r : Reachable s) (n : ℕ) → messages_until m r + n < u64_mod → HasSpare n s
    unfolding messages_until initial_state
    reached-HasSpare _ (Reachable.installed time timers certified_data app) n small =
        (omega arith, initial-IsSound n (initial_state time timers certified_data app) refl)
    reached-HasSpare _ (Reachable.elapsed {s} time timers app r) n small =
        same-HasSpare n s _ refl refl refl (reached-HasSpare s r n small)
    reached-HasSpare _ (Reachable.called {s} c r) n small =
        let k = messages_of m c s in
        let before = reached-HasSpare s r (k + n) (omega arith) in
        settled-HasSpare n k s (perform c s) before (perform-HasSpare c n s before)

  -- In a canister each of whose callbacks sends and closes at most m times, let k be the sum of
  -- these numbers over the calls that reached a state: 0 for init, 1 for send, m for ws_close, m +
  -- 1 for close, m + 1 + m(m + 1) for ws_open and for ws_message, m for each registered client for
  -- wipe, 1 for each registered client for the timer of the acknowledgements, and m + 1 for each
  -- client that is waited for for the keep-alive timer; where k + n is below 2^64, every gateway's
  -- queue is in the order of its nonces with one timestamp per message, every queued message's hash
  -- is in the tree, the certified data is the tree's root if a message is queued, and every
  -- gateway's next nonce plus n is below 2^64.
  pub Reachable-IsSound :
      (m : ℕ) (s : State) (r : Reachable s) (n : ℕ)
      → IsLimited m
      → messages_until m r + n < u64_mod
      → IsSound n s
  Reachable-IsSound m s r n limited small = (reached-HasSpare m limited s r n small).1
