-- ===== src/State/Service.antt =====
-- state.rs: the service messages of a client.
use ic_websocket_cdk_rs.Prelude.{◌⊎◌, inl, inr, Bytes, Text, update}
use ic_websocket_cdk_rs.Types.Messages.{
  WebsocketServiceMessageContent, open_message, ack_message, keep_alive_message, close_message,
}
use ic_websocket_cdk_rs.Types.Gateway.{update_last_keep_alive_timestamp}
use ic_websocket_cdk_rs.Env.{Env, Key}
use ic_websocket_cdk_rs.Errors.{to_string, invalid_service_message, decode_service_message_content}
use ic_websocket_cdk_rs.State.{
  get_current_time, State, Exec, Key-discrete, ok, err, ◌>>=◌, fail, modify,
}

module _ ⦃env : Env⦄ where
  -- A client that is not registered is left alone.
  unfoldable pub handle_keep_alive_client_message : Key → State → State
  handle_keep_alive_client_message k s = record s {
    registered_clients =
        update Key-discrete k (update_last_keep_alive_timestamp (get_current_time s))
          s.registered_clients;
  }

  -- `map_err` of the decoder's error
  abbrev pub decoded_or_fail :
      WebsocketServiceMessageContent env.Principal ⊎ Text
      → Exec (WebsocketServiceMessageContent env.Principal)
  decoded_or_fail (inl content) s = ok content s
  decoded_or_fail (inr e) s = err (to_string (decode_service_message_content e)) s

  -- `WebsocketServiceMessageContent::from_candid_bytes` of types.rs
  abbrev pub from_candid_bytes : Bytes → Exec (WebsocketServiceMessageContent env.Principal)
  from_candid_bytes bytes = decoded_or_fail (env.decode_one bytes)

  unfoldable pub handle_service_content :
      Key → WebsocketServiceMessageContent env.Principal → Exec (Unit {0})
  unfolding handle_keep_alive_client_message
  handle_service_content k (open_message _) = fail (to_string invalid_service_message)
  handle_service_content k (ack_message _) = fail (to_string invalid_service_message)
  handle_service_content k (close_message _) = fail (to_string invalid_service_message)
  handle_service_content k (keep_alive_message _) = modify (handle_keep_alive_client_message k)

  unfoldable pub handle_received_service_message : Key → Bytes → Exec (Unit {0})
  unfolding handle_service_content
  handle_received_service_message k content = do
    decoded ← from_candid_bytes content
    handle_service_content k decoded
