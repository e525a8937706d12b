-- ===== src/Tests/Numbers.antt =====
-- Messages of a client whose next message has the number 1.
use ic_websocket_cdk_rs.Prelude.{true, ℕ, ◌≡◌, refl, ◌∷◌, [], arith, false, get, ℕ_discrete}
use ic_websocket_cdk_rs.Types.Messages.{CanisterWsMessageArguments}
use ic_websocket_cdk_rs.Errors.{to_string, incoming_sequence_number_wrong}
use ic_websocket_cdk_rs.State.{Key-discrete}
use ic_websocket_cdk_rs.State.Relates.{Holds}
use ic_websocket_cdk_rs.State.Sending.Frame.{SameClients-IsPreorder}
use ic_websocket_cdk_rs.State.Registry.{is_registered}
use ic_websocket_cdk_rs.Api.{ws_message, call_on_message}
use ic_websocket_cdk_rs.Api.Numbers.{
  FailsWith, handle_message, next_number, ws_message-in_order, ws_message-wrong_number,
  ws_message-replayed,
}
use ic_websocket_cdk_rs.Errors.{invalid_service_message}
use ic_websocket_cdk_rs.State.{ok, err, State}
use ic_websocket_cdk_rs.State.Removal.NoErrors.{Leaves}
use ic_websocket_cdk_rs.Timers.{check_keep_alive_timer_callback}
use ic_websocket_cdk_rs.Api.Service.{ws_message-kept_alive, ws_message-refused}
use ic_websocket_cdk_rs.Tests.Demo.{demo}
use ic_websocket_cdk_rs.Tests.States.{connected, test_key, test_client}

abbrev numbered : ℕ → CanisterWsMessageArguments ℕ
numbered n = record {
  msg = record {
    client_key = test_key;
    sequence_num = n;
    timestamp = 2000;
    is_service_message = false;
    content = 65 ∷ [];
  };
}

in_order_example :
    ws_message 7 (numbered 1) connected
    ≡ handle_message 7 (numbered 1) (next_number test_key connected)
unfolding get Key-discrete ℕ_discrete
in_order_example = ws_message-in_order connected 7 (numbered 1) 1 refl refl refl

wrong_number_example :
    FailsWith
      (to_string (incoming_sequence_number_wrong 1 3))
      (λ t. is_registered t test_key ≡ false)
      (ws_message 7 (numbered 3) connected)
unfolding get Key-discrete ℕ_discrete
wrong_number_example = ws_message-wrong_number connected 7 (numbered 3) 1 refl refl (omega arith)

replayed_example :
    Holds
      (λ t.
        FailsWith
          (to_string (incoming_sequence_number_wrong 2 1))
          (λ u. is_registered u test_key ≡ false)
          (ws_message 7 (numbered 1) t))
      (ws_message 7 (numbered 1) connected)
unfolding get Key-discrete ℕ_discrete call_on_message
replayed_example =
    ws_message-replayed connected 7 (numbered 1) refl refl
      (SameClients-IsPreorder.reflexive (next_number test_key connected))

abbrev service : ℕ → ℕ → CanisterWsMessageArguments ℕ
service tag n = record {
  msg = record {
    client_key = test_key;
    sequence_num = 1;
    timestamp = 2000;
    is_service_message = true;
    content = tag ∷ n ∷ [];
  };
}

-- A keep-alive, and a check half a minute later.
kept_alive_example :
    (t : State) × (ws_message 7 (service 2 1) connected ≡ ok tt t)
    × Leaves
        (λ u. is_registered u test_key ≡ true)
        (check_keep_alive_timer_callback (record t { time = 430000000000 }))
unfolding get Key-discrete ℕ_discrete
kept_alive_example =
    ws_message-kept_alive connected 7 (service 2 1) refl refl refl test_client 1 430000000000 refl
      refl (omega arith) (omega arith) (omega arith)

-- An acknowledgement is not for the canister.
service_refused_example :
    ws_message 7 (service 1 0) connected
    ≡ err (to_string invalid_service_message) (next_number test_key connected)
unfolding get Key-discrete ℕ_discrete
service_refused_example =
    ws_message-refused connected 7 (service 1 0) refl refl refl (λ absurdity. absurdity)
