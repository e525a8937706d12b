-- ===== src/Timers/Acknowledged.antt =====
-- The timer of the acknowledgements of timers.rs: it sends one to every registered client, and from
-- then on every registered client is waited for.
use ic_websocket_cdk_rs.Prelude.{
  ◌≡◌, refl, sym, ap, ◌∙◌, if◌then◌else◌, true, some, List, [], ◌∷◌, arith, get, is_some, ite,
  if_pos, keys, sub64, sub64,
}
use ic_websocket_cdk_rs.Types.Messages.{ack_message}
use ic_websocket_cdk_rs.Types.Gateway.{RegisteredClient}
use ic_websocket_cdk_rs.Env.{Env, Key}
use ic_websocket_cdk_rs.State.{State, Key-discrete, ok, continue, modify}
use ic_websocket_cdk_rs.State.Steps.{get_expected_incoming_message_from_client_num_ok}
use ic_websocket_cdk_rs.State.Clients.{add_client_to_wait_for_keep_alive}
use ic_websocket_cdk_rs.State.Registry.{is_registered, set_contains, set_contains-set_insert}
use ic_websocket_cdk_rs.State.Registry.Emptied.{
  contains-hash_order, set_contains-keys, registered-of_set_contains,
}
use ic_websocket_cdk_rs.State.Registry.Rules.{
  IsLinked-IsKept, SameRegistry-fields, SameSessions-fields,
}
use ic_websocket_cdk_rs.Timers.Kept.{add_to_wait-SameRegistry}
use ic_websocket_cdk_rs.Timers.Ready.{Serializes, IsReady, some-of, sent_service}
use ic_websocket_cdk_rs.Timers.{
  schedule_check_keep_alive, acknowledge, acknowledged, send_ack_to_client, send_acks,
  send_ack_to_clients_timer_callback, ack_timer_task,
}

module _ ⦃env : Env⦄ where
  -- What a step that ends in `t` leaves.
  record Waits (s t : State) (ks : List Key) : Type 0 where
    ready : IsReady t
    clients : t.registered_clients ≡ s.registered_clients
    waiting :
        (j : Key)
        → set_contains j t.clients_waiting_for_keep_alive
          ≡ (if set_contains j ks then true else set_contains j s.clients_waiting_for_keep_alive)

  module _ (all : Serializes) where
    acked :
        (s : State) (k : Key) (c : RegisteredClient env.Principal)
        → IsReady s
        → get Key-discrete k s.registered_clients ≡ some c
        → (t : State) × (send_ack_to_client k s ≡ ok tt t) × Waits s t (k ∷ [])
    unfolding send_ack_to_client add_client_to_wait_for_keep_alive set_contains
    acked s k c h r =
        let (n, numbered) =
          some-of (get Key-discrete k s.incoming_message_from_client_num_map)
            (h.linked.incoming k ∙ ap is_some r) in
        let (t, sent, same, ready) = sent_service all s k c (ack_message (sub64 n 1)) h r in
        let u = add_client_to_wait_for_keep_alive k t in
        (
          u,
          ap (acknowledge k) (get_expected_incoming_message_from_client_num_ok s k numbered)
              ∙ ap (acknowledged k) sent,
          record {
            ready = record {
              linked =
                  IsLinked-IsKept.same t u
                    (add_to_wait-SameRegistry k t
                      (ap (λ m. is_some (get Key-discrete k m)) same.clients ∙ ap is_some r))
                    ready.linked;
              aligned = ready.aligned;
              gateways = ready.gateways;
            };
            clients = same.clients;
            waiting = λ j.
                set_contains-set_insert k j t.clients_waiting_for_keep_alive
                ∙ ap (λ ks. ite (Key-discrete k j) true (set_contains j ks)) same.waiting
                ∙ ground arith;
          },
        )

    send_acks_lem :
        (ks : List Key) (s : State)
        → IsReady s
        → ((j : Key) → set_contains j ks ≡ true → is_registered s j ≡ true)
        → (t : State) × (send_acks ks s ≡ ok tt t) × Waits s t ks
    unfolding send_acks set_contains
    send_acks_lem [] s h all_registered =
        (s, refl, record { ready = h; clients = refl; waiting = λ j. refl })
    send_acks_lem (k ∷ ks) s h all_registered =
        let (c, r) =
          some-of (get Key-discrete k s.registered_clients)
            (all_registered k (if_pos (Key-discrete k k) refl true (set_contains k ks))) in
        let (t, first, a) = acked s k c h r in
        let same : (j : Key) → is_registered t j ≡ is_registered s j =
          λ j. ap (λ m. is_some (get Key-discrete j m)) a.clients in
        let (u, rest, b) =
          send_acks_lem ks t a.ready λ j e. same j ∙ all_registered j (ground (arith, e)) in
        (
          u,
          ap (λ o. continue o (λ _. send_acks ks)) first ∙ rest,
          record {
            ready = b.ready;
            clients = b.clients ∙ a.clients;
            waiting = λ j. ground (arith, b.waiting j, a.waiting j);
          },
        )

    pub ack_timer_task-waits :
        (s : State)
        → IsReady s
        → (t : State) × (ack_timer_task s ≡ ok tt t)
          × (t.registered_clients ≡ s.registered_clients)
          × ((j : Key) → set_contains j t.clients_waiting_for_keep_alive ≡ is_registered s j)
          × is_some t.keep_alive_timer ≡ true
          × IsReady t
    unfolding ack_timer_task send_ack_to_clients_timer_callback schedule_check_keep_alive
    ack_timer_task-waits s h =
        let visited = env.hash_order (keys s.registered_clients) in
        let (t, sent, w) = send_acks_lem visited s h λ j e.
          registered-of_set_contains j s.registered_clients
            (sym (contains-hash_order j (keys s.registered_clients)) ∙ e) in
        (
          schedule_check_keep_alive t,
          ap (λ o. continue o (λ _. modify schedule_check_keep_alive)) sent,
          w.clients,
          λ j. w.waiting j ∙ waited j,
          refl,
          record {
            linked =
                IsLinked-IsKept.same t _
                  (SameRegistry-fields t _ refl refl refl
                    (SameSessions-fields t _ refl refl refl refl refl))
                  w.ready.linked;
            aligned = w.ready.aligned;
            gateways = w.ready.gateways;
          },
        )
      where
        waited :
            (j : Key)
            → (if set_contains j (env.hash_order (keys s.registered_clients))
                then true
                else set_contains j s.clients_waiting_for_keep_alive)
              ≡ is_registered s j
        waited j = ground (
          arith,
          contains-hash_order j (keys s.registered_clients),
          set_contains-keys j s.registered_clients,
          registered-of_set_contains j s.registered_clients,
          h.linked.waiting j,
        )
