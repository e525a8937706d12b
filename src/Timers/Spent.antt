-- ===== src/Timers/Spent.antt =====
-- How many nonces the timers of timers.rs use up at most, where each callback sends and closes a
-- limited number of times; `init` of lib.rs uses none.
use ic_websocket_cdk_rs.Prelude.{
  ℕ, ◌+◌, ◌≤◌, ◌≡◌, ◌∙◌, ap, suc, refl, some, List, [], ◌∷◌, arith, times, times-le, length,
  length-Perm, length-keys, keys, sub64, Bool-cases, inl, inr, get,
}
use ic_websocket_cdk_rs.Types.Messages.{ack_message, keep_alive_timeout}
use ic_websocket_cdk_rs.Env.{Env, Key}
use ic_websocket_cdk_rs.Params.{WsInitParams, check_validity}
use ic_websocket_cdk_rs.State.{State, Outcome, Key-discrete, ok, err, trap, unwrap}
use ic_websocket_cdk_rs.State.Relates.{Holds, Holds-bind, Preserves-IsPreorder, Relates-unwrap}
use ic_websocket_cdk_rs.State.Reads.{get_expected_incoming_message_from_client_num-Relates}
use ic_websocket_cdk_rs.State.Clients.{
  add_client_to_wait_for_keep_alive, get_expected_incoming_message_from_client_num,
}
use ic_websocket_cdk_rs.State.Sending.{send_service_message_to_client}
use ic_websocket_cdk_rs.State.Removal.{remove_empty_expired_gateways}
use ic_websocket_cdk_rs.State.Queues.Expired.{remove_empty_expired_gateways-IsSound}
use ic_websocket_cdk_rs.State.Queues.Costs.{
  HasSpare, HasSpare-le, same-HasSpare, Costs, Costs-le, Costs-bind, Costs-then, Costs-Preserves,
  Costs-pure,
}
use ic_websocket_cdk_rs.State.Queues.Spent.{
  IsLimited, send_service_message_to_client-Costs, remove_clients-Costs,
}
use ic_websocket_cdk_rs.Timers.KeepAlive.{remove_empty_expired_gateways-SameWaiting}
use ic_websocket_cdk_rs.Timers.{
  cancel_timers, cancel_ack_timer, cancel_keep_alive_timer, schedule_send_ack_to_clients,
  schedule_check_keep_alive, acknowledge, acknowledged, send_ack_to_client, send_acks,
  send_ack_to_clients_timer_callback, ack_timer_task, has_timed_out, timed_out_clients,
  check_keep_alive_timer_callback, init,
}

module _ ⦃env : Env⦄ where
  pub init-Costs : (params : WsInitParams) → Costs 0 (init params)
  unfolding init cancel_timers cancel_ack_timer cancel_keep_alive_timer schedule_send_ack_to_clients
  init-Costs params =
      Costs-then 0 (unwrap (check_validity params)) _
        (Costs-Preserves (unwrap (check_validity params))
          (λ n. Relates-unwrap (Preserves-IsPreorder (HasSpare n)) (check_validity params)))
        λ _. record {
          at = λ n s spare.
              same-HasSpare n s _ refl refl refl (HasSpare-le n (0 + n) s (omega arith) spare);
        }

  acknowledged_lem :
      (n : ℕ) (k : Key) (o : Outcome (Unit {0}))
      → Holds (HasSpare n) o
      → Holds (HasSpare n) (acknowledged k o)
  unfolding add_client_to_wait_for_keep_alive
  acknowledged_lem n k (ok a s) h = same-HasSpare n s _ refl refl refl h
  acknowledged_lem n k (err e s) h = h
  acknowledged_lem n k trap h = tt

  acknowledge_lem :
      (n : ℕ) (k : Key) (o : Outcome ℕ)
      → Holds (HasSpare (1 + n)) o
      → Holds (HasSpare n) (acknowledge k o)
  acknowledge_lem n k (ok i s) h =
      acknowledged_lem n k (send_service_message_to_client k (ack_message (sub64 i 1)) s)
        ((send_service_message_to_client-Costs k (ack_message (sub64 i 1))).at n s h)
  acknowledge_lem n k (err e s) h = HasSpare-le n (1 + n) s (omega arith) h
  acknowledge_lem n k trap h = tt

  send_ack_to_client-Costs : (k : Key) → Costs 1 (send_ack_to_client k)
  unfolding send_ack_to_client
  send_ack_to_client-Costs k = record {
    at = λ n s spare. acknowledge_lem n k (get_expected_incoming_message_from_client_num k s) (
        (Costs-Preserves (get_expected_incoming_message_from_client_num k) (λ i.
            get_expected_incoming_message_from_client_num-Relates
              (Preserves-IsPreorder (HasSpare i)) k)).at
          (1 + n) s (HasSpare-le (0 + (1 + n)) (1 + n) s (omega arith) spare));
  }

  send_acks-Costs : (ks : List Key) → Costs (length ks) (send_acks ks)
  unfolding send_acks
  send_acks-Costs [] = Costs-pure tt
  send_acks-Costs (k ∷ ks) = Costs-le (1 + length ks) (length (k ∷ ks)) _ (omega arith) (
      Costs-bind 1 (length ks) (send_ack_to_client k) _ (send_ack_to_client-Costs k)
        (λ _. send_acks-Costs ks))

  -- One acknowledgement for each client.
  pub ack_timer_task-Costs :
      (n : ℕ) (s : State)
      → HasSpare (length s.registered_clients + n) s
      → Holds (HasSpare n) (ack_timer_task s)
  unfolding ack_timer_task send_ack_to_clients_timer_callback schedule_check_keep_alive
  ack_timer_task-Costs n s spare =
      let ks = env.hash_order (keys s.registered_clients) in
      let as_many : length ks ≡ length s.registered_clients =
        length-Perm ks (keys s.registered_clients) (env.hash_order-perm _)
        ∙ length-keys s.registered_clients in
      Holds-bind (send_acks ks s) _
        ((send_acks-Costs ks).at n s (HasSpare-le _ _ s (omega (arith, as_many)) spare)) (λ t l. l)
        (λ _ t l. same-HasSpare n t _ refl refl refl l)

  timed_out_clients-length :
      (s : State) (ks : List Key) → length (timed_out_clients s ks) ≤ length ks
  unfolding timed_out_clients
  timed_out_clients-length s [] = omega arith
  timed_out_clients-length s (k ∷ ks) =
      let rest = timed_out_clients-length s ks in
      elim (Bool-cases (has_timed_out s.time (get Key-discrete k s.registered_clients))) [
        | inl e ↦ rw e (omega (arith, rest))
        | inr e ↦ rw e (omega (arith, rest))
      ]

  module _ (m : ℕ) (limited : IsLimited m) where
    -- A close message, and a callback, for each client that is waited for.
    pub check_keep_alive-Costs :
        (n : ℕ) (s : State)
        → HasSpare (times (length s.clients_waiting_for_keep_alive) (suc m) + n) s
        → Holds (HasSpare n) (check_keep_alive_timer_callback s)
    unfolding check_keep_alive_timer_callback
    check_keep_alive-Costs n s spare =
        let t = remove_empty_expired_gateways s in
        let same = remove_empty_expired_gateways-SameWaiting s in
        let visited = env.hash_order t.clients_waiting_for_keep_alive in
        let ks = timed_out_clients t visited in
        let as_many : length visited ≡ length s.clients_waiting_for_keep_alive =
          length-Perm visited t.clients_waiting_for_keep_alive (env.hash_order-perm _)
          ∙ ap length same.waiting in
        let fewer =
          times-le (length ks) (length s.clients_waiting_for_keep_alive) (suc m)
            (omega (arith, timed_out_clients-length t visited, as_many)) in
        let one_each : times (length ks) (1 + m) ≡ times (length ks) (suc m) =
          ap (times (length ks)) (omega arith) in
        (remove_clients-Costs m limited ks (some keep_alive_timeout)).at n t (
          HasSpare-le _ _ t (omega (arith, fewer, one_each))
            (spare.0, remove_empty_expired_gateways-IsSound _ s spare.1))
