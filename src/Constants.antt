-- ===== src/Constants.antt =====
-- The constants of src/ic-websocket-cdk/src/lib.rs.
use ic_websocket_cdk_rs.Prelude.{ℕ, ◌*◌, Bytes, codes}

abbrev pub label_websocket : Bytes
label_websocket = codes "websocket"

abbrev pub default_max_number_of_returned_messages : ℕ
default_max_number_of_returned_messages = 50

abbrev pub default_send_ack_interval_ms : ℕ
default_send_ack_interval_ms = 300000

abbrev pub communication_latency_bound_ms : ℕ
communication_latency_bound_ms = 30000

abbrev pub client_keep_alive_timeout_ms : ℕ
client_keep_alive_timeout_ms = 2 * communication_latency_bound_ms

abbrev pub client_keep_alive_timeout_ns : ℕ
client_keep_alive_timeout_ns = client_keep_alive_timeout_ms * 1000000

abbrev pub initial_outgoing_message_nonce : ℕ
initial_outgoing_message_nonce = 0

abbrev pub initial_client_sequence_num : ℕ
initial_client_sequence_num = 1

abbrev pub initial_canister_sequence_num : ℕ
initial_canister_sequence_num = 0

abbrev pub messages_to_delete_count : ℕ
messages_to_delete_count = 5
