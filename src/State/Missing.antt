-- ===== src/State/Missing.antt =====
-- state.rs: the error of each operation that looks up an entry, where the entry is not there. The
-- state is left as it is.
use ic_websocket_cdk_rs.Prelude.{ℕ, ◌≡◌, ◌≢◌, false, none, some, arith, get}
use ic_websocket_cdk_rs.Types.Messages.{CanisterOutputMessage}
use ic_websocket_cdk_rs.Types.Gateway.{RegisteredClient}
use ic_websocket_cdk_rs.Env.{Env, Key}
use ic_websocket_cdk_rs.Errors.{
  to_string, gateway_not_registered, client_key_not_connected, client_not_registered_to_gateway,
  client_principal_not_connected, outgoing_message_to_client_num_not_initialized,
  expected_incoming_message_to_client_num_not_initialized,
}
use ic_websocket_cdk_rs.State.{State, Key-discrete, err}
use ic_websocket_cdk_rs.State.Gateways.{
  get_registered_gateway, check_is_gateway_registered, is_registered_gateway,
  get_outgoing_message_nonce, increment_outgoing_message_nonce, push_message_in_gateway_queue,
}
use ic_websocket_cdk_rs.State.Clients.{
  get_registered_client, check_registered_client_exists, check_client_registered_to_gateway,
  get_client_key_from_principal, increment_outgoing_message_to_client_num,
  get_expected_incoming_message_from_client_num,
  increment_expected_incoming_message_from_client_num,
}
use ic_websocket_cdk_rs.State.Certification.{delete_old_messages_for_gateway}

module _ ⦃env : Env⦄ where
  module _ (s : State) (gp : env.Principal)
      (h : get env.principal_discrete gp s.registered_gateways ≡ none) where
    pub get_registered_gateway_err :
        get_registered_gateway gp s ≡ err (to_string (gateway_not_registered gp)) s
    unfolding get_registered_gateway
    get_registered_gateway_err = rw h

    pub check_is_gateway_registered_err :
        check_is_gateway_registered gp s ≡ err (to_string (gateway_not_registered gp)) s
    unfolding check_is_gateway_registered
    check_is_gateway_registered_err = rw h

    pub is_registered_gateway-false : is_registered_gateway gp s ≡ false
    unfolding is_registered_gateway
    is_registered_gateway-false = ground (arith, h)

    pub get_outgoing_message_nonce_err :
        get_outgoing_message_nonce gp s ≡ err (to_string (gateway_not_registered gp)) s
    unfolding get_outgoing_message_nonce
    get_outgoing_message_nonce_err = rw h

    pub increment_outgoing_message_nonce_err :
        increment_outgoing_message_nonce gp s ≡ err (to_string (gateway_not_registered gp)) s
    unfolding increment_outgoing_message_nonce
    increment_outgoing_message_nonce_err = ground arith

    pub push_message_in_gateway_queue_err :
        (m : CanisterOutputMessage env.Principal) (t : ℕ)
        → push_message_in_gateway_queue gp m t s ≡ err (to_string (gateway_not_registered gp)) s
    unfolding push_message_in_gateway_queue
    push_message_in_gateway_queue_err m t = ground arith

    pub delete_old_messages_for_gateway_err :
        delete_old_messages_for_gateway gp s ≡ err (to_string (gateway_not_registered gp)) s
    unfolding delete_old_messages_for_gateway
    delete_old_messages_for_gateway_err = ground arith

  module _ (s : State) (k : Key) where
    pub get_registered_client_err :
        get Key-discrete k s.registered_clients ≡ none
        → get_registered_client k s ≡ err (to_string (client_key_not_connected k)) s
    unfolding get_registered_client
    get_registered_client_err h = rw h

    pub check_registered_client_exists_err :
        get Key-discrete k s.registered_clients ≡ none
        → check_registered_client_exists k s ≡ err (to_string (client_key_not_connected k)) s
    unfolding check_registered_client_exists
    check_registered_client_exists_err h = rw h

    pub check_client_registered_to_gateway_err :
        (gp : env.Principal) {c : RegisteredClient env.Principal}
        → get Key-discrete k s.registered_clients ≡ some c
        → c.gateway_principal ≢ gp
        → check_client_registered_to_gateway k gp s
          ≡ err (to_string (client_not_registered_to_gateway k gp)) s
    unfolding check_client_registered_to_gateway
    check_client_registered_to_gateway_err gp h n = ground (arith, h, n)

    pub increment_outgoing_message_to_client_num_err :
        get Key-discrete k s.outgoing_message_to_client_num_map ≡ none
        → increment_outgoing_message_to_client_num k s
          ≡ err (to_string (outgoing_message_to_client_num_not_initialized k)) s
    unfolding increment_outgoing_message_to_client_num
    increment_outgoing_message_to_client_num_err h = ground arith

    pub get_expected_incoming_message_from_client_num_err :
        get Key-discrete k s.incoming_message_from_client_num_map ≡ none
        → get_expected_incoming_message_from_client_num k s
          ≡ err (to_string (expected_incoming_message_to_client_num_not_initialized k)) s
    unfolding get_expected_incoming_message_from_client_num
    get_expected_incoming_message_from_client_num_err h = rw h

    pub increment_expected_incoming_message_from_client_num_err :
        get Key-discrete k s.incoming_message_from_client_num_map ≡ none
        → increment_expected_incoming_message_from_client_num k s
          ≡ err (to_string (expected_incoming_message_to_client_num_not_initialized k)) s
    unfolding increment_expected_incoming_message_from_client_num
    increment_expected_incoming_message_from_client_num_err h = ground arith

  pub get_client_key_from_principal_err :
      (s : State) (p : env.Principal)
      → get env.principal_discrete p s.current_client_key_map ≡ none
      → get_client_key_from_principal p s ≡ err (to_string (client_principal_not_connected p)) s
  unfolding get_client_key_from_principal
  get_client_key_from_principal_err s p h = rw h
