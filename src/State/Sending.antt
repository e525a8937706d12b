-- ===== src/State/Sending.antt =====
-- state.rs: `_ws_send` and `send_service_message_to_client`, `cbor_serialize` of types.rs, and
-- `send` of lib.rs.
pub mod Success
pub mod Same
pub mod Frame
pub mod Failures
use ic_websocket_cdk_rs.Prelude.{ℕ, ◌⊎◌, inl, inr, Bool, true, false, ◌++◌, Bytes, Text}
use ic_websocket_cdk_rs.Types.Messages.{WebsocketMessage, WebsocketServiceMessageContent}
use ic_websocket_cdk_rs.Env.{Env, Key}
use ic_websocket_cdk_rs.State.{
  get_current_time, State, Exec, ok, ◌>>=◌, ◌>>◌, pure, gets, modify, unwrap, from_result,
}
use ic_websocket_cdk_rs.State.Gateways.{
  get_outgoing_message_nonce, increment_outgoing_message_nonce, push_message_in_gateway_queue,
}
use ic_websocket_cdk_rs.State.Clients.{
  get_registered_client, get_client_key_from_principal, get_outgoing_message_to_client_num,
  increment_outgoing_message_to_client_num,
}
use ic_websocket_cdk_rs.State.Certification.{
  format_message_for_gateway_key, put_cert_for_message, delete_old_messages_for_gateway,
}

module _ ⦃env : Env⦄ where
  -- Two writes into one buffer, each of which may fail.
  abbrev cbor_append : Bytes ⊎ Text → Bytes ⊎ Text → Bytes ⊎ Text
  cbor_append (inl tag) (inl body) = inl (tag ++ body)
  cbor_append (inl tag) (inr e) = inr e
  cbor_append (inr e) body = inr e

  unfoldable pub cbor_serialize : WebsocketMessage env.Principal → Bytes ⊎ Text
  cbor_serialize m = cbor_append env.self_describe (env.serialize_message m)

  unfoldable pub ws_send : Key → Bytes → Bool → Exec (Unit {0})
  ws_send client_key msg_bytes is_service_message = do
    registered_client ← get_registered_client client_key
    let gateway_principal = registered_client.gateway_principal
    outgoing_message_nonce ← get_outgoing_message_nonce gateway_principal
    let message_key = format_message_for_gateway_key gateway_principal outgoing_message_nonce
    increment_outgoing_message_nonce gateway_principal
    increment_outgoing_message_to_client_num client_key
    message_timestamp ← gets get_current_time
    sequence_num ← get_outgoing_message_to_client_num client_key
    message_content ← from_result (
        cbor_serialize (record {
          client_key = client_key;
          sequence_num = sequence_num;
          timestamp = message_timestamp;
          is_service_message = is_service_message;
          content = msg_bytes;
        }))
    delete_old_messages_for_gateway gateway_principal
    modify (put_cert_for_message message_key message_content)
    push_message_in_gateway_queue gateway_principal
        (record { client_key = client_key; key = message_key; content = message_content })
        message_timestamp

  unfoldable pub send_service_message_to_client :
      Key → WebsocketServiceMessageContent env.Principal → Exec (Unit {0})
  send_service_message_to_client client_key message = do
    message_bytes ← unwrap (env.encode_one message)
    ws_send client_key message_bytes true

  -- lib.rs
  unfoldable pub send : env.Principal → Bytes → Exec (Unit {0})
  send client_principal msg_bytes = do
    client_key ← get_client_key_from_principal client_principal
    ws_send client_key msg_bytes false
