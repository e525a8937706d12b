-- ===== src/Timers/Safety.antt =====
-- The timers of timers.rs and `init` of lib.rs do not trap where each queued message has its
-- timestamp and no callback traps, but for a check of the parameters that fails.
use ic_websocket_cdk_rs.Prelude.{ℕ, ◌≡◌, true, List, [], ◌∷◌, is_some, keys, sub64, some}
use ic_websocket_cdk_rs.Types.Messages.{ack_message, keep_alive_timeout}
use ic_websocket_cdk_rs.Env.{Env, Key}
use ic_websocket_cdk_rs.Params.{WsInitParams, check_validity}
use ic_websocket_cdk_rs.State.{Outcome, ok, err, trap, gets, modify, unwrap}
use ic_websocket_cdk_rs.State.Clients.{
  add_client_to_wait_for_keep_alive, get_expected_incoming_message_from_client_num,
}
use ic_websocket_cdk_rs.State.Removal.{remove_empty_expired_gateways}
use ic_websocket_cdk_rs.State.Safety.{
  NeverTraps, Safe, IsSafe, IsSafe-bind, IsSafe-pure, IsSafe-gets, IsSafe-modify, IsSafe-unwrap,
  get_expected_incoming_message_from_client_num-IsSafe,
}
use ic_websocket_cdk_rs.State.Safety.Sends.{send_service_message_to_client-IsSafe}
use ic_websocket_cdk_rs.State.Safety.Removals.{
  remove_empty_expired_gateways-Aligned, remove_clients-IsSafe,
}
use ic_websocket_cdk_rs.Timers.{
  cancel_timers, cancel_ack_timer, cancel_keep_alive_timer, schedule_send_ack_to_clients,
  schedule_check_keep_alive, acknowledge, acknowledged, send_ack_to_client, send_acks,
  send_ack_to_clients_timer_callback, ack_timer_task, timed_out_clients,
  check_keep_alive_timer_callback, init,
}

module _ ⦃env : Env⦄ where
  pub init-IsSafe :
      (params : WsInitParams) → is_some (check_validity params) ≡ true → IsSafe (init params)
  unfolding init cancel_timers cancel_ack_timer cancel_keep_alive_timer schedule_send_ack_to_clients
  init-IsSafe params valid =
      IsSafe-bind (unwrap (check_validity params)) _ (IsSafe-unwrap (check_validity params) valid)
        λ _. record { at = λ s h. h }

  Safe-acknowledged : (k : Key) (o : Outcome (Unit {0})) → Safe o → Safe (acknowledged k o)
  unfolding add_client_to_wait_for_keep_alive
  Safe-acknowledged k (ok a s) h = h
  Safe-acknowledged k (err e s) h = h
  Safe-acknowledged k trap h = h

  module _ (never : NeverTraps) where
    Safe-acknowledge : (k : Key) (o : Outcome ℕ) → Safe o → Safe (acknowledge k o)
    Safe-acknowledge k (ok n s) h =
        Safe-acknowledged k _
          ((send_service_message_to_client-IsSafe never k (ack_message (sub64 n 1))).at s h)
    Safe-acknowledge k (err e s) h = h
    Safe-acknowledge k trap h = h

    send_ack_to_client-IsSafe : (k : Key) → IsSafe (send_ack_to_client k)
    unfolding send_ack_to_client
    send_ack_to_client-IsSafe k = record {
      at = λ s h.
          Safe-acknowledge k (get_expected_incoming_message_from_client_num k s)
            ((get_expected_incoming_message_from_client_num-IsSafe k).at s h);
    }

    send_acks-IsSafe : (ks : List Key) → IsSafe (send_acks ks)
    unfolding send_acks
    send_acks-IsSafe [] = IsSafe-pure tt
    send_acks-IsSafe (k ∷ ks) =
        IsSafe-bind (send_ack_to_client k) _ (send_ack_to_client-IsSafe k) λ _. send_acks-IsSafe ks

    pub ack_timer_task-IsSafe : IsSafe ack_timer_task
    unfolding ack_timer_task send_ack_to_clients_timer_callback schedule_check_keep_alive
    ack_timer_task-IsSafe =
        IsSafe-bind send_ack_to_clients_timer_callback _
          (IsSafe-bind (gets (λ s. env.hash_order (keys s.registered_clients))) _ (IsSafe-gets _)
            send_acks-IsSafe)
          λ _. IsSafe-modify schedule_check_keep_alive (λ s h. h)

    pub check_keep_alive-IsSafe : IsSafe check_keep_alive_timer_callback
    unfolding check_keep_alive_timer_callback
    check_keep_alive-IsSafe =
        IsSafe-bind (modify remove_empty_expired_gateways) _
          (IsSafe-modify _ remove_empty_expired_gateways-Aligned)
          λ _.
            IsSafe-bind
              (gets (λ s. timed_out_clients s (env.hash_order s.clients_waiting_for_keep_alive))) _
              (IsSafe-gets _) λ ks. remove_clients-IsSafe never ks (some keep_alive_timeout)
