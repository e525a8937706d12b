-- ===== src/State/Sending/Success.antt =====
-- The state that `_ws_send` of state.rs leaves when the message is queued.
use ic_websocket_cdk_rs.Prelude.{
  ℕ, ◌≡◌, Bool, inl, some, List, Bytes, Text, get, update, add64, get-update_self,
}
use ic_websocket_cdk_rs.Constants.{messages_to_delete_count}
use ic_websocket_cdk_rs.Types.Messages.{CanisterOutputMessage, WebsocketMessage}
use ic_websocket_cdk_rs.Types.Gateway.{
  RegisteredGateway, RegisteredClient, increment_nonce, delete_old_messages, add_message_to_queue,
}
use ic_websocket_cdk_rs.Env.{Env, Key}
use ic_websocket_cdk_rs.State.{State, Key-discrete, ok}
use ic_websocket_cdk_rs.State.Steps.{
  get_registered_client_ok, get_outgoing_message_nonce_ok, increment_outgoing_message_nonce_ok,
  increment_outgoing_message_to_client_num_ok, get_outgoing_message_to_client_num_ok,
  delete_old_messages_for_gateway_ok, push_message_in_gateway_queue_ok,
}
use ic_websocket_cdk_rs.State.Certification.{
  format_message_for_gateway_key, put_cert_for_message, delete_keys_from_cert_tree,
}
use ic_websocket_cdk_rs.State.Sending.{ws_send, cbor_serialize}

module _ ⦃env : Env⦄ where
  -- The message that a client gets: the number after the one last used, and the current time.
  abbrev pub websocket_message : State → Key → Bytes → Bool → ℕ → WebsocketMessage env.Principal
  websocket_message s k bytes is_service n = record {
    client_key = k;
    sequence_num = n;
    timestamp = s.time;
    is_service_message = is_service;
    content = bytes;
  }

  -- What a send in state `s` meets, and what comes of it.
  pub record Sends (s : State) (k : Key) (bytes : Bytes) (is_service : Bool) : Type 0 where
    pub client : RegisteredClient env.Principal
    pub gateway : RegisteredGateway env.Principal
    pub num : ℕ
    pub content : Bytes
    pub kept : RegisteredGateway env.Principal
    pub deleted : List Text
    pub registered : get Key-discrete k s.registered_clients ≡ some client
    pub at_gateway :
        get env.principal_discrete client.gateway_principal s.registered_gateways ≡ some gateway
    pub numbered : get Key-discrete k s.outgoing_message_to_client_num_map ≡ some num
    pub encoded :
        cbor_serialize (websocket_message s k bytes is_service (add64 num 1)) ≡ inl content
    pub expiry :
        delete_old_messages
          (increment_nonce gateway)
          messages_to_delete_count
          s.params.send_ack_interval_ms
          s.time
        ≡ some (kept, deleted)

  module _ {s : State} {k : Key} {bytes : Bytes} {is_service : Bool}
      (w : Sends s k bytes is_service) where
    abbrev pub gateway_of : env.Principal
    gateway_of = w.client.gateway_principal

    abbrev pub sent_key : Text
    sent_key = format_message_for_gateway_key gateway_of w.gateway.outgoing_message_nonce

    abbrev pub sent_message : CanisterOutputMessage env.Principal
    sent_message = record { client_key = k; key = sent_key; content = w.content }

    -- The states that `_ws_send` goes through.
    abbrev pub nonce_state : State
    nonce_state = record s {
      registered_gateways =
          update env.principal_discrete gateway_of increment_nonce s.registered_gateways;
    }

    abbrev pub num_state : State
    num_state = record nonce_state {
      outgoing_message_to_client_num_map =
          update Key-discrete k (λ n. add64 n 1) s.outgoing_message_to_client_num_map;
    }

    abbrev pub cleaned_state : State
    cleaned_state = delete_keys_from_cert_tree w.deleted (record num_state {
      registered_gateways =
          update env.principal_discrete gateway_of (λ _. w.kept) num_state.registered_gateways;
    })

    abbrev pub certified_state : State
    certified_state = put_cert_for_message sent_key w.content cleaned_state

    abbrev pub sent_state : State
    sent_state = record certified_state {
      registered_gateways =
          update env.principal_discrete gateway_of (λ g. add_message_to_queue g sent_message s.time)
            certified_state.registered_gateways;
    }

    pub bumped_gateway :
        get env.principal_discrete gateway_of nonce_state.registered_gateways
        ≡ some (increment_nonce w.gateway)
    bumped_gateway = get-update_self _ _ increment_nonce s.registered_gateways w.at_gateway

    pub kept_gateway :
        get env.principal_discrete gateway_of certified_state.registered_gateways ≡ some w.kept
    unfolding put_cert_for_message delete_keys_from_cert_tree
    kept_gateway = get-update_self _ _ (λ _. w.kept) nonce_state.registered_gateways bumped_gateway

    bumped_num :
        get Key-discrete k num_state.outgoing_message_to_client_num_map ≡ some (add64 w.num 1)
    bumped_num = get-update_self _ k _ s.outgoing_message_to_client_num_map w.numbered

    pub ws_send-sent_state : ws_send k bytes is_service s ≡ ok tt sent_state
    unfolding ws_send
    ws_send-sent_state = rw (
      get_registered_client_ok s k w.registered,
      get_outgoing_message_nonce_ok s gateway_of w.at_gateway,
      increment_outgoing_message_nonce_ok s gateway_of w.at_gateway,
      increment_outgoing_message_to_client_num_ok nonce_state k w.numbered,
      get_outgoing_message_to_client_num_ok num_state k bumped_num,
      w.encoded,
      delete_old_messages_for_gateway_ok num_state gateway_of bumped_gateway w.expiry,
      push_message_in_gateway_queue_ok certified_state gateway_of kept_gateway,
    )
