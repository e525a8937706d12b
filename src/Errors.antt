-- ===== src/Errors.antt =====
-- src/ic-websocket-cdk/src/errors.rs, and the `Display` of a client key of types.rs.
use ic_websocket_cdk_rs.Prelude.{ℕ, ◌++◌, Text, codes}
use ic_websocket_cdk_rs.Decimal.{u64_to_string}
use ic_websocket_cdk_rs.Env.{Env, Key}

pub data WsError ⦃env : Env⦄ : Type 0 where
  anonymous_principal_not_allowed : WsError
  client_key_already_connected : Key → WsError
  client_key_message_mismatch : Key → WsError
  client_key_not_connected : Key → WsError
  client_not_registered_to_gateway : Key → env.Principal → WsError
  client_principal_not_connected : env.Principal → WsError
  -- `err` is the text of a candid::Error
  decode_service_message_content : Text → WsError
  expected_incoming_message_to_client_num_not_initialized : Key → WsError
  gateway_not_registered : env.Principal → WsError
  invalid_service_message : WsError
  incoming_sequence_number_wrong : (expected_sequence_num actual_sequence_num : ℕ) → WsError
  outgoing_message_to_client_num_not_initialized : Key → WsError

module _ ⦃env : Env⦄ where
  unfoldable pub key_to_string : Key → Text
  key_to_string k = env.to_text k.client_principal ++ (codes "_" ++ u64_to_string k.client_nonce)

  unfoldable pub to_string : WsError → Text
  unfolding key_to_string
  to_string anonymous_principal_not_allowed = codes "Anonymous principal is not allowed"
  to_string (client_key_already_connected k) =
      codes "Client with key " ++ (key_to_string k ++ codes " already has an open connection")
  to_string (client_key_message_mismatch k) =
      codes "Client with principal "
      ++ (env.to_text k.client_principal
          ++ codes " has a different key than the one used in the message")
  to_string (client_key_not_connected k) =
      codes "Client with key " ++ (key_to_string k ++ codes " doesn't have an open connection")
  to_string (client_not_registered_to_gateway k g) =
      codes "Client with key "
      ++ (key_to_string k ++ (codes " was not registered to gateway " ++ env.to_text g))
  to_string (client_principal_not_connected p) =
      codes "Client with principal " ++ (env.to_text p ++ codes " doesn't have an open connection")
  to_string (decode_service_message_content err) =
      codes "Error decoding service message content: " ++ err
  to_string (expected_incoming_message_to_client_num_not_initialized k) =
      codes "Expected incoming message to client num not initialized for client key "
      ++ key_to_string k
  to_string (gateway_not_registered g) =
      codes "Gateway with principal " ++ (env.to_text g ++ codes " is not registered")
  to_string invalid_service_message = codes "Invalid service message"
  to_string (incoming_sequence_number_wrong expected actual) =
      codes "Expected incoming sequence number "
      ++ (u64_to_string expected ++ (codes " but got " ++ u64_to_string actual))
  to_string (outgoing_message_to_client_num_not_initialized k) =
      codes "Outgoing message to client num not initialized for client key " ++ key_to_string k
