-- ===== src/Tests/Sends.antt =====
-- Two messages of the test canister, of which the second one does not encode.
use ic_websocket_cdk_rs.Prelude.{
  ◌≡◌, refl, ◌∷◌, [], List, Bytes, get, insert, update, remove, ℕ_discrete,
}
use ic_websocket_cdk_rs.Types.Gateway.{
  increment_nonce, delete_old_messages, delete_loop, add_message_to_queue, is_older,
}
use ic_websocket_cdk_rs.State.{State, Key-discrete, ok, err}
use ic_websocket_cdk_rs.State.Gateways.{
  get_outgoing_message_nonce, increment_outgoing_message_nonce, push_message_in_gateway_queue,
  get_registered_gateway,
}
use ic_websocket_cdk_rs.State.Clients.{
  get_client_key_from_principal, get_registered_client, increment_outgoing_message_to_client_num,
  get_outgoing_message_to_client_num,
}
use ic_websocket_cdk_rs.State.Certification.{
  delete_old_messages_for_gateway, put_cert_for_message, delete_keys_from_cert_tree,
}
use ic_websocket_cdk_rs.State.Sending as Library
use ic_websocket_cdk_rs.State.Sending.{ws_send, cbor_serialize}
use ic_websocket_cdk_rs.Canister.{settled}
use ic_websocket_cdk_rs.TestCanister.{send}
use ic_websocket_cdk_rs.TestCanister.Calls.{send-first_error}
use ic_websocket_cdk_rs.Tests.Demo.{demo}
use ic_websocket_cdk_rs.Tests.States.{connected}

abbrev one_sent : List Bytes
one_sent = (5 ∷ []) ∷ []

abbrev after_one : State
unfolding settled send
after_one = settled connected (send 7 one_sent connected)

abbrev after_error : State
unfolding settled send after_one
after_error = settled after_one (Library.send 7 [] after_one)

sent_lem : send 7 one_sent connected ≡ ok tt after_one
unfolding settled send after_one get insert update remove ℕ_discrete Key-discrete ws_send
    cbor_serialize get_client_key_from_principal get_registered_client get_outgoing_message_nonce
    get_registered_gateway increment_outgoing_message_nonce increment_nonce
    increment_outgoing_message_to_client_num get_outgoing_message_to_client_num
    delete_old_messages_for_gateway delete_old_messages delete_loop is_older put_cert_for_message
    delete_keys_from_cert_tree push_message_in_gateway_queue add_message_to_queue Library.send
sent_lem = refl

failed_lem : Library.send 7 [] after_one ≡ err (3 ∷ []) after_error
unfolding settled send after_one after_error get insert update remove ℕ_discrete Key-discrete
    ws_send cbor_serialize get_client_key_from_principal get_registered_client
    get_outgoing_message_nonce get_registered_gateway increment_outgoing_message_nonce
    increment_nonce increment_outgoing_message_to_client_num get_outgoing_message_to_client_num
    delete_old_messages_for_gateway delete_old_messages delete_loop is_older put_cert_for_message
    delete_keys_from_cert_tree push_message_in_gateway_queue add_message_to_queue Library.send
failed_lem = refl

-- The third message is not sent.
first_error_example : send 7 ((5 ∷ []) ∷ [] ∷ (6 ∷ []) ∷ []) connected ≡ err (3 ∷ []) after_error
unfolding after_error
first_error_example =
    send-first_error 7 one_sent [] ((6 ∷ []) ∷ []) connected after_one after_error (3 ∷ []) sent_lem
      failed_lem
