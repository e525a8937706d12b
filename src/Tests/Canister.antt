-- ===== src/Tests/Canister.antt =====
-- Calls of the test canister.
use ic_websocket_cdk_rs.Prelude.{ℕ, ◌≡◌, refl, ◌∷◌, [], none, false, get, ℕ_discrete}
use ic_websocket_cdk_rs.Types.Messages.{CanisterWsMessageArguments}
use ic_websocket_cdk_rs.Env.{Env}
use ic_websocket_cdk_rs.State.{State, Key-discrete, ok}
use ic_websocket_cdk_rs.Api.Numbers.{next_number}
use ic_websocket_cdk_rs.TestCanister.{test_handlers, ws_message}
use ic_websocket_cdk_rs.TestCanister.Callbacks.{ArePrinting}
use ic_websocket_cdk_rs.TestCanister.Calls.{ws_message-counted}
use ic_websocket_cdk_rs.Tests.Demo.{printing}
use ic_websocket_cdk_rs.Tests.States.{test_key}

instance abbrev here : Env
here = printing

abbrev printing_state : State
printing_state = record {
  registered_clients =
      (test_key, record { last_keep_alive_timestamp = 1000; gateway_principal = 9 }) ∷ [];
  current_client_key_map = (7, test_key) ∷ [];
  clients_waiting_for_keep_alive = [];
  outgoing_message_to_client_num_map = (test_key, 0) ∷ [];
  incoming_message_from_client_num_map = (test_key, 1) ∷ [];
  cert_tree = [];
  registered_gateways = [];
  gateways_to_remove = [];
  params = record {
    handlers = test_handlers tt tt tt;
    max_number_of_returned_messages = 1;
    send_ack_interval_ms = 300000;
  };
  ack_timer = none;
  keep_alive_timer = none;
  time = 1000;
  timers = [];
  certified_data = [];
  app = 0;
}

printing_callbacks : ArePrinting tt tt tt
printing_callbacks = record {
  open_program = λ args a. refl;
  message_program = λ args a. refl;
  close_program = λ args a. refl;
}

abbrev hello : CanisterWsMessageArguments ℕ
hello = record {
  msg = record {
    client_key = test_key;
    sequence_num = 1;
    timestamp = 2000;
    is_service_message = false;
    content = 65 ∷ [];
  };
}

printed_example : ws_message 7 hello printing_state ≡ ok tt (next_number test_key printing_state)
unfolding get Key-discrete ℕ_discrete
printed_example =
    ws_message-counted tt tt tt printing_state 7 hello printing_callbacks refl refl refl refl
