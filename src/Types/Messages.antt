-- ===== src/Types/Messages.antt =====
-- types.rs: client keys, the arguments of the canister's methods, and the messages in both
-- directions.
use ic_websocket_cdk_rs.Prelude.{ℕ, Bool, true, List, [], Bytes, Text}

-- The arguments of the canister's callbacks.
pub record OnOpenCallbackArgs (P : Type 0) : Type 0 where
  pub client_principal : P

pub record OnMessageCallbackArgs (P : Type 0) : Type 0 where
  pub client_principal : P
  pub message : Bytes

pub record OnCloseCallbackArgs (P : Type 0) : Type 0 where
  pub client_principal : P

-- The client's principal and the nonce that it chose for the connection.
pub record ClientKey (P : Type 0) : Type 0 where
  pub client_principal : P
  pub client_nonce : ℕ

abbrev pub new_client_key : {P : Type 0} → P → ℕ → ClientKey P
new_client_key p n = record { client_principal = p; client_nonce = n }

pub record CanisterWsOpenArguments (P : Type 0) : Type 0 where
  pub client_nonce : ℕ
  pub gateway_principal : P

pub record CanisterWsCloseArguments (P : Type 0) : Type 0 where
  pub client_key : ClientKey P

pub record WebsocketMessage (P : Type 0) : Type 0 where
  pub client_key : ClientKey P
  pub sequence_num : ℕ
  pub timestamp : ℕ
  pub is_service_message : Bool
  pub content : Bytes

pub record CanisterWsMessageArguments (P : Type 0) : Type 0 where
  pub msg : WebsocketMessage P

pub record CanisterWsGetMessagesArguments : Type 0 where
  pub nonce : ℕ

-- What a gateway polls; `content` is a serialized `WebsocketMessage`.
pub record CanisterOutputMessage (P : Type 0) : Type 0 where
  pub client_key : ClientKey P
  pub key : Text
  pub content : Bytes

pub record CanisterOutputCertifiedMessages (P : Type 0) : Type 0 where
  pub messages : List (CanisterOutputMessage P)
  pub cert : Bytes
  pub tree : Bytes
  pub is_end_of_queue : Bool

abbrev pub empty_certified_messages : {P : Type 0} → CanisterOutputCertifiedMessages P
empty_certified_messages = record { messages = []; cert = []; tree = []; is_end_of_queue = true }

pub record MessagesForGatewayRange : Type 0 where
  pub start_index : ℕ
  pub end_index : ℕ
  pub is_end_of_queue : Bool

pub data CloseMessageReason : Type 0 where
  wrong_sequence_number : CloseMessageReason
  invalid_service_message : CloseMessageReason
  keep_alive_timeout : CloseMessageReason
  closed_by_application : CloseMessageReason

-- The content of a service message; each payload is a struct of one field.
pub data WebsocketServiceMessageContent (P : Type 0) : Type 0 where
  open_message : ClientKey P → WebsocketServiceMessageContent P
  ack_message : ℕ → WebsocketServiceMessageContent P
  keep_alive_message : ℕ → WebsocketServiceMessageContent P
  close_message : CloseMessageReason → WebsocketServiceMessageContent P
