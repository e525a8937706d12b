-- ===== src/State/Steps.antt =====
-- state.rs: what each operation that looks up an entry does where the entry is there.
use ic_websocket_cdk_rs.Prelude.{ℕ, ◌≡◌, true, none, some, List, Text, arith, get, update, add64}
use ic_websocket_cdk_rs.Constants.{messages_to_delete_count}
use ic_websocket_cdk_rs.Types.Messages.{CanisterOutputMessage}
use ic_websocket_cdk_rs.Types.Gateway.{
  RegisteredGateway, RegisteredClient, increment_nonce, delete_old_messages, add_message_to_queue,
}
use ic_websocket_cdk_rs.Env.{Env, Key}
use ic_websocket_cdk_rs.State.{State, Key-discrete, ok, trap}
use ic_websocket_cdk_rs.State.Gateways.{
  get_registered_gateway, check_is_gateway_registered, is_registered_gateway,
  get_outgoing_message_nonce, increment_outgoing_message_nonce, push_message_in_gateway_queue,
}
use ic_websocket_cdk_rs.State.Clients.{
  get_registered_client, check_registered_client_exists, check_client_registered_to_gateway,
  get_outgoing_message_to_client_num, increment_outgoing_message_to_client_num,
  get_client_key_from_principal, get_expected_incoming_message_from_client_num,
  increment_expected_incoming_message_from_client_num,
}
use ic_websocket_cdk_rs.State.Certification.{
  delete_old_messages_for_gateway, delete_keys_from_cert_tree,
}

module _ ⦃env : Env⦄ where
  module _ (s : State) (k : Key) where
    pub get_registered_client_ok :
        {c : RegisteredClient env.Principal}
        → get Key-discrete k s.registered_clients ≡ some c
        → get_registered_client k s ≡ ok c s
    unfolding get_registered_client
    get_registered_client_ok h = rw h

    pub get_outgoing_message_to_client_num_ok :
        {n : ℕ}
        → get Key-discrete k s.outgoing_message_to_client_num_map ≡ some n
        → get_outgoing_message_to_client_num k s ≡ ok n s
    unfolding get_outgoing_message_to_client_num
    get_outgoing_message_to_client_num_ok h = rw h

    pub increment_outgoing_message_to_client_num_ok :
        {n : ℕ}
        → get Key-discrete k s.outgoing_message_to_client_num_map ≡ some n
        → increment_outgoing_message_to_client_num k s
          ≡ ok tt (record s {
            outgoing_message_to_client_num_map =
                update Key-discrete k (λ m. add64 m 1) s.outgoing_message_to_client_num_map;
          })
    unfolding increment_outgoing_message_to_client_num
    increment_outgoing_message_to_client_num_ok h = ground arith

    pub get_expected_incoming_message_from_client_num_ok :
        {n : ℕ}
        → get Key-discrete k s.incoming_message_from_client_num_map ≡ some n
        → get_expected_incoming_message_from_client_num k s ≡ ok n s
    unfolding get_expected_incoming_message_from_client_num
    get_expected_incoming_message_from_client_num_ok h = rw h

    pub increment_expected_incoming_message_from_client_num_ok :
        {n : ℕ}
        → get Key-discrete k s.incoming_message_from_client_num_map ≡ some n
        → increment_expected_incoming_message_from_client_num k s
          ≡ ok tt (record s {
            incoming_message_from_client_num_map =
                update Key-discrete k (λ m. add64 m 1) s.incoming_message_from_client_num_map;
          })
    unfolding increment_expected_incoming_message_from_client_num
    increment_expected_incoming_message_from_client_num_ok h = ground arith

    pub check_registered_client_exists_ok :
        {c : RegisteredClient env.Principal}
        → get Key-discrete k s.registered_clients ≡ some c
        → check_registered_client_exists k s ≡ ok tt s
    unfolding check_registered_client_exists
    check_registered_client_exists_ok h = rw h

    pub check_client_registered_to_gateway_ok :
        (gp : env.Principal) {c : RegisteredClient env.Principal}
        → get Key-discrete k s.registered_clients ≡ some c
        → c.gateway_principal ≡ gp
        → check_client_registered_to_gateway k gp s ≡ ok tt s
    unfolding check_client_registered_to_gateway
    check_client_registered_to_gateway_ok gp h e = ground (arith, h, e)

  pub get_client_key_from_principal_ok :
      (s : State) (p : env.Principal) {k : Key}
      → get env.principal_discrete p s.current_client_key_map ≡ some k
      → get_client_key_from_principal p s ≡ ok k s
  unfolding get_client_key_from_principal
  get_client_key_from_principal_ok s p h = rw h

  module _ (s : State) (gp : env.Principal) {g : RegisteredGateway env.Principal}
      (h : get env.principal_discrete gp s.registered_gateways ≡ some g) where
    pub get_registered_gateway_ok : get_registered_gateway gp s ≡ ok g s
    unfolding get_registered_gateway
    get_registered_gateway_ok = rw h

    pub check_is_gateway_registered_ok : check_is_gateway_registered gp s ≡ ok tt s
    unfolding check_is_gateway_registered
    check_is_gateway_registered_ok = rw h

    pub is_registered_gateway-true : is_registered_gateway gp s ≡ true
    unfolding is_registered_gateway
    is_registered_gateway-true = ground (arith, h)

    pub get_outgoing_message_nonce_ok :
        get_outgoing_message_nonce gp s ≡ ok g.outgoing_message_nonce s
    unfolding get_outgoing_message_nonce
    get_outgoing_message_nonce_ok = rw h

    pub increment_outgoing_message_nonce_ok :
        increment_outgoing_message_nonce gp s
        ≡ ok tt (record s {
          registered_gateways =
              update env.principal_discrete gp increment_nonce s.registered_gateways;
        })
    unfolding increment_outgoing_message_nonce
    increment_outgoing_message_nonce_ok = ground arith

    pub push_message_in_gateway_queue_ok :
        (m : CanisterOutputMessage env.Principal) (t : ℕ)
        → push_message_in_gateway_queue gp m t s
          ≡ ok tt (record s {
            registered_gateways =
                update env.principal_discrete gp
                  (λ x. add_message_to_queue x m t)
                  s.registered_gateways;
          })
    unfolding push_message_in_gateway_queue
    push_message_in_gateway_queue_ok m t = ground arith

    pub delete_old_messages_for_gateway_ok :
        {g' : RegisteredGateway env.Principal} {ks : List Text}
        → delete_old_messages g messages_to_delete_count s.params.send_ack_interval_ms s.time
          ≡ some (g', ks)
        → delete_old_messages_for_gateway gp s
          ≡ ok tt (
              delete_keys_from_cert_tree ks (record s {
                registered_gateways =
                    update env.principal_discrete gp (λ _. g') s.registered_gateways;
              }))
    unfolding delete_old_messages_for_gateway
    delete_old_messages_for_gateway_ok e = ground arith

    pub delete_old_messages_for_gateway_trap :
        delete_old_messages g messages_to_delete_count s.params.send_ack_interval_ms s.time ≡ none
        → delete_old_messages_for_gateway gp s ≡ trap
    unfolding delete_old_messages_for_gateway
    delete_old_messages_for_gateway_trap e = ground arith
