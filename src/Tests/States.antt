-- ===== src/Tests/States.antt =====
-- The states of the tests: an empty one, and one with a client and a queue of two old messages.
use ic_websocket_cdk_rs.Prelude.{ℕ, ◌∷◌, [], some, none, codes, Text}
use ic_websocket_cdk_rs.Types.Messages.{ClientKey, CanisterOutputMessage}
use ic_websocket_cdk_rs.Types.Gateway.{RegisteredClient, RegisteredGateway}
use ic_websocket_cdk_rs.Params.{WsInitParams, WsHandlers}
use ic_websocket_cdk_rs.State.{State}
use ic_websocket_cdk_rs.Tests.Demo.{demo}

abbrev pub quiet_handlers : WsHandlers
quiet_handlers = record { on_open = none; on_message = none; on_close = none }

abbrev pub test_params : WsInitParams
test_params = record {
  handlers = quiet_handlers;
  max_number_of_returned_messages = 1;
  send_ack_interval_ms = 300000;
}

abbrev pub empty_state : State
empty_state = record {
  registered_clients = [];
  current_client_key_map = [];
  clients_waiting_for_keep_alive = [];
  outgoing_message_to_client_num_map = [];
  incoming_message_from_client_num_map = [];
  cert_tree = [];
  registered_gateways = [];
  gateways_to_remove = [];
  params = test_params;
  ack_timer = some 5;
  keep_alive_timer = none;
  time = 1000;
  timers = [];
  certified_data = [];
  app = 0;
}

abbrev pub test_key : ClientKey ℕ
test_key = record { client_principal = 7; client_nonce = 3 }

abbrev pub key_0 : Text
key_0 = 9 ∷ codes "_00000000000000000000"

abbrev pub key_1 : Text
key_1 = 9 ∷ codes "_00000000000000000001"

abbrev pub message_0 : CanisterOutputMessage ℕ
message_0 = record { client_key = test_key; key = key_0; content = 10 ∷ [] }

abbrev pub message_1 : CanisterOutputMessage ℕ
message_1 = record { client_key = test_key; key = key_1; content = 11 ∷ [] }

abbrev pub test_gateway : RegisteredGateway ℕ
test_gateway = record {
  messages_queue = message_0 ∷ message_1 ∷ [];
  messages_to_delete = record { timestamp = 1000 } ∷ record { timestamp = 399999000000 } ∷ [];
  outgoing_message_nonce = 2;
  connected_clients_count = 1;
}

abbrev pub test_client : RegisteredClient ℕ
test_client = record { last_keep_alive_timestamp = 1000; gateway_principal = 9 }

-- The first message is 400 seconds old, the second one is a millisecond old.
abbrev pub connected : State
connected = record empty_state {
  registered_clients = (test_key, test_client) ∷ [];
  current_client_key_map = (7, test_key) ∷ [];
  clients_waiting_for_keep_alive = test_key ∷ [];
  outgoing_message_to_client_num_map = (test_key, 2) ∷ [];
  incoming_message_from_client_num_map = (test_key, 1) ∷ [];
  cert_tree = (key_0, 32 ∷ 10 ∷ []) ∷ (key_1, 32 ∷ 11 ∷ []) ∷ [];
  registered_gateways = (9, test_gateway) ∷ [];
  time = 400000000000;
  certified_data = 22 ∷ 32 ∷ 10 ∷ 22 ∷ 32 ∷ 11 ∷ [];
}
