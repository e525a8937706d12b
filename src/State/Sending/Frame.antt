-- ===== src/State/Sending/Frame.antt =====
-- What `_ws_send` of state.rs leaves alone, on every path: it touches the queues, the tree, the
-- nonces and the outgoing numbers, and no registration.
use ic_websocket_cdk_rs.Prelude.{
  ℕ, ◌≡◌, refl, Bool, true, false, some, List, Bytes, Text, arith, get, update, is_some-get-update,
  Option-cases, inl, inr,
}
use ic_websocket_cdk_rs.Constants.{messages_to_delete_count}
use ic_websocket_cdk_rs.Types.Messages.{CanisterOutputMessage, WebsocketServiceMessageContent}
use ic_websocket_cdk_rs.Types.Gateway.{
  RegisteredGateway, increment_nonce, add_message_to_queue, delete_old_messages,
}
use ic_websocket_cdk_rs.Env.{Env, Key}
use ic_websocket_cdk_rs.State.{
  get_current_time, State, Key-discrete, gets, modify, unwrap, from_result,
}
use ic_websocket_cdk_rs.State.Relates.{
  Relates, Relates-bind, Relates-gets, Relates-modify, Relates-unwrap, Relates-from_result,
}
use ic_websocket_cdk_rs.State.Steps.{
  increment_outgoing_message_nonce_ok, increment_outgoing_message_to_client_num_ok,
  delete_old_messages_for_gateway_ok, delete_old_messages_for_gateway_trap,
  push_message_in_gateway_queue_ok,
}
use ic_websocket_cdk_rs.State.Missing.{
  increment_outgoing_message_nonce_err, increment_outgoing_message_to_client_num_err,
  delete_old_messages_for_gateway_err, push_message_in_gateway_queue_err,
}
use ic_websocket_cdk_rs.State.Reads.{
  get_registered_client-Relates, get_outgoing_message_nonce-Relates,
  get_outgoing_message_to_client_num-Relates, get_client_key_from_principal-Relates,
}
use ic_websocket_cdk_rs.State.Gateways.{
  get_outgoing_message_nonce, increment_outgoing_message_nonce, push_message_in_gateway_queue,
}
use ic_websocket_cdk_rs.State.Clients.{
  get_registered_client, get_client_key_from_principal, get_outgoing_message_to_client_num,
  increment_outgoing_message_to_client_num,
}
use ic_websocket_cdk_rs.State.Certification.{
  format_message_for_gateway_key, put_cert_for_message, delete_old_messages_for_gateway,
  delete_keys_from_cert_tree,
}
use ic_websocket_cdk_rs.State.Sending.{
  cbor_serialize, ws_send, send_service_message_to_client, send,
}
pub use ic_websocket_cdk_rs.State.Sending.Same.{
  SameClients, SameClients-IsPreorder, app-SameClients, clients_count,
}
use ic_websocket_cdk_rs.State.Sending.Same.{counts-update, same, rewritten}

module _ ⦃env : Env⦄ where
  module _ (gp : env.Principal) where
    increment_outgoing_message_nonce-SameClients :
        Relates SameClients (increment_outgoing_message_nonce gp)
    unfolding increment_nonce
    increment_outgoing_message_nonce-SameClients = record {
      at = λ s. elim (Option-cases (get env.principal_discrete gp s.registered_gateways)) [
        | inl e ↦ rw (increment_outgoing_message_nonce_err s gp e) (same s)
        | inr (g, e) ↦ rw (increment_outgoing_message_nonce_ok s gp e) (
            rewritten s _ _ s.cert_tree s.certified_data
              (λ p. counts-update increment_nonce gp p s.registered_gateways (λ x _. refl))
              (λ k. refl))
      ];
    }

    push_message_in_gateway_queue-SameClients :
        (m : CanisterOutputMessage env.Principal) (t : ℕ)
        → Relates SameClients (push_message_in_gateway_queue gp m t)
    unfolding add_message_to_queue
    push_message_in_gateway_queue-SameClients m t = record {
      at = λ s. elim (Option-cases (get env.principal_discrete gp s.registered_gateways)) [
        | inl e ↦ rw (push_message_in_gateway_queue_err s gp e m t) (same s)
        | inr (g, e) ↦ rw (push_message_in_gateway_queue_ok s gp e m t) (
            rewritten s _ _ s.cert_tree s.certified_data
              (λ p.
                counts-update (λ x. add_message_to_queue x m t) gp p s.registered_gateways
                  (λ x _. refl))
              (λ k. refl))
      ];
    }

    -- What `delete_old_messages` returns has the gateway's count.
    delete_old_messages-count :
        (g g' : RegisteredGateway env.Principal) (n age time : ℕ) (ks : List Text)
        → delete_old_messages g n age time ≡ some (g', ks)
        → g'.connected_clients_count ≡ g.connected_clients_count
    unfolding delete_old_messages
    delete_old_messages-count g g' n age time ks h = ground arith

    deleted :
        (s : State) (g g' : RegisteredGateway env.Principal) (ks : List Text)
        → get env.principal_discrete gp s.registered_gateways ≡ some g
        → g'.connected_clients_count ≡ g.connected_clients_count
        → SameClients s (
            delete_keys_from_cert_tree ks (record s {
              registered_gateways =
                  update env.principal_discrete gp (λ _. g') s.registered_gateways;
            }))
    unfolding delete_keys_from_cert_tree
    deleted s g g' ks e c =
        rewritten s _ s.outgoing_message_to_client_num_map _ _
          (λ p. counts-update (λ _. g') gp p s.registered_gateways (λ x f. ground (arith, e, f, c)))
          (λ k. refl)

    delete_old_messages_for_gateway-SameClients :
        Relates SameClients (delete_old_messages_for_gateway gp)
    delete_old_messages_for_gateway-SameClients = record {
      at = λ s. elim (Option-cases (get env.principal_discrete gp s.registered_gateways)) [
        | inl e ↦ rw (delete_old_messages_for_gateway_err s gp e) (same s)
        | inr (g, e) ↦
            elim (Option-cases (
              delete_old_messages g messages_to_delete_count s.params.send_ack_interval_ms
                s.time)) [
                  | inl f ↦ rw (delete_old_messages_for_gateway_trap s gp e f) tt
                  | inr ((g', ks), f) ↦ rw (delete_old_messages_for_gateway_ok s gp e f) (
                      deleted s g g' ks e (
                        delete_old_messages-count g g' messages_to_delete_count
                          s.params.send_ack_interval_ms s.time ks f))
                ]
      ];
    }

  increment_outgoing_message_to_client_num-SameClients :
      (k : Key) → Relates SameClients (increment_outgoing_message_to_client_num k)
  increment_outgoing_message_to_client_num-SameClients k = record {
    at = λ s. elim (Option-cases (get Key-discrete k s.outgoing_message_to_client_num_map)) [
      | inl e ↦ rw (increment_outgoing_message_to_client_num_err s k e) (same s)
      | inr (n, e) ↦ rw (increment_outgoing_message_to_client_num_ok s k e) (
          rewritten s s.registered_gateways _ s.cert_tree s.certified_data (λ p. refl)
            (λ j. is_some-get-update _ k j _ s.outgoing_message_to_client_num_map))
    ];
  }

  put_cert_for_message-SameClients :
      (key : Text) (value : Bytes) (s : State) → SameClients s (put_cert_for_message key value s)
  unfolding put_cert_for_message
  put_cert_for_message-SameClients key value s =
      rewritten s s.registered_gateways s.outgoing_message_to_client_num_map _ _ (λ p. refl)
        (λ k. refl)

  module _ (k : Key) where
    pub ws_send-SameClients :
        (bytes : Bytes) (is_service : Bool) → Relates SameClients (ws_send k bytes is_service)
    unfolding ws_send
    ws_send-SameClients bytes is_service =
        let pre = SameClients-IsPreorder in
        Relates-bind pre (get_registered_client k) _ (get_registered_client-Relates pre k) λ c.
          let gp = c.gateway_principal in
          Relates-bind pre (get_outgoing_message_nonce gp) _
            (get_outgoing_message_nonce-Relates pre gp)
            λ nonce.
              let key = format_message_for_gateway_key gp nonce in
              Relates-bind pre (increment_outgoing_message_nonce gp) _
                (increment_outgoing_message_nonce-SameClients gp)
                λ _.
                  Relates-bind pre (increment_outgoing_message_to_client_num k) _
                    (increment_outgoing_message_to_client_num-SameClients k)
                    λ _.
                      Relates-bind pre (gets get_current_time) _ (Relates-gets pre get_current_time)
                        λ time.
                          Relates-bind pre (get_outgoing_message_to_client_num k) _
                            (get_outgoing_message_to_client_num-Relates pre k)
                            λ num.
                              Relates-bind pre
                                (from_result (
                                  cbor_serialize (record {
                                    client_key = k;
                                    sequence_num = num;
                                    timestamp = time;
                                    is_service_message = is_service;
                                    content = bytes;
                                  })))
                                _ (Relates-from_result pre _)
                                λ content.
                                  Relates-bind pre (delete_old_messages_for_gateway gp) _
                                    (delete_old_messages_for_gateway-SameClients gp)
                                    λ _.
                                      Relates-bind pre (modify (put_cert_for_message key content)) _
                                        (Relates-modify pre _
                                          (put_cert_for_message-SameClients key content))
                                        λ _.
                                          push_message_in_gateway_queue-SameClients gp
                                            (record {
                                              client_key = k;
                                              key = key;
                                              content = content;
                                            })
                                            time

    pub send_service_message_to_client-SameClients :
        (m : WebsocketServiceMessageContent env.Principal)
        → Relates SameClients (send_service_message_to_client k m)
    unfolding send_service_message_to_client
    send_service_message_to_client-SameClients m =
        let pre = SameClients-IsPreorder in
        Relates-bind pre (unwrap (env.encode_one m)) _ (Relates-unwrap pre _)
          λ bytes. ws_send-SameClients bytes true

  pub send-SameClients : (p : env.Principal) (bytes : Bytes) → Relates SameClients (send p bytes)
  unfolding send
  send-SameClients p bytes =
      let pre = SameClients-IsPreorder in
      Relates-bind pre (get_client_key_from_principal p) _
        (get_client_key_from_principal-Relates pre p) λ k. ws_send-SameClients k bytes false
