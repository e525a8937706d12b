-- ===== src/Tests/Polls.antt =====
-- A poll of the gateway with two messages, one at a time.
use ic_websocket_cdk_rs.Prelude.{
  ℕ, ◌≡◌, refl, ◌∷◌, [], Option, none, arith, get, true, ℕ_discrete, ◌≤◌, length, take, drop,
}
use ic_websocket_cdk_rs.Types.Messages.{empty_certified_messages, CanisterOutputCertifiedMessages}
use ic_websocket_cdk_rs.Types.Gateway.{RegisteredGateway}
use ic_websocket_cdk_rs.State.{ok}
use ic_websocket_cdk_rs.State.Relates.{Holds}
use ic_websocket_cdk_rs.State.Certification.{format_message_for_gateway_key}
use ic_websocket_cdk_rs.State.Polling.{get_cert_messages, certified_messages, ws_get_messages}
use ic_websocket_cdk_rs.State.Polling.ReadOnly.{ws_get_messages-Same}
use ic_websocket_cdk_rs.State.Queues.Polled.{get_cert_messages-split}
use ic_websocket_cdk_rs.State.Queues.Returned.{CanCertify, queue_at, ws_get_messages-returns}
use ic_websocket_cdk_rs.State.Queues.Drained.{Drained, ws_get_messages-Drained}
use ic_websocket_cdk_rs.Tests.Queues.{ordered_queue}
use ic_websocket_cdk_rs.Decimal.{u64_to_string, pad_zeros, decimal}
use ic_websocket_cdk_rs.Tests.Demo.{demo}
use ic_websocket_cdk_rs.Tests.States.{connected, test_gateway, message_0, message_1}

poll_example : get_cert_messages 9 1 connected ≡ certified_messages (message_1 ∷ []) true connected
unfolding get format_message_for_gateway_key u64_to_string pad_zeros decimal ℕ_discrete
poll_example =
    get_cert_messages-split connected 9 test_gateway refl 1 0 2 (message_0 ∷ []) (message_1 ∷ [])
      refl (0, omega arith, refl, omega arith) (1, omega arith, refl, omega arith) (omega arith)
      (omega arith)

poll-read_only_example :
    Holds (λ t. t ≡ connected) (ws_get_messages 8 (record { nonce = 0 }) connected)
    × (◌≡◌ {A = Option (RegisteredGateway ℕ)} (get ℕ_discrete 8 connected.registered_gateways) none
        → ws_get_messages 8 (record { nonce = 0 }) connected
          ≡ ok empty_certified_messages connected)
poll-read_only_example = ws_get_messages-Same connected 8 (record { nonce = 0 })

connected-CanCertify : CanCertify connected
connected-CanCertify = record { certificate = refl; witness = λ t. refl }

poll-returns_example :
    (r : CanisterOutputCertifiedMessages ℕ) × (ws_get_messages 9 (record { nonce = 1 }) connected
      ≡ ok r connected)
    × (length r.messages ≤ 1)
    × (i : ℕ) × (r.messages ≡ take (length r.messages) (drop i (queue_at 9 connected)))
poll-returns_example =
    ws_get_messages-returns 9 (record { nonce = 1 }) connected connected-CanCertify

-- One message is returned at a time: two polls.
two_polls_example : Drained connected 9 0 (message_0 ∷ message_1 ∷ [])
unfolding get format_message_for_gateway_key u64_to_string pad_zeros decimal ℕ_discrete
two_polls_example =
    ws_get_messages-Drained connected 9 test_gateway 0 [] (message_0 ∷ message_1 ∷ []) refl
      ordered_queue (omega arith) connected-CanCertify refl (omega arith) ordered_queue.numbered
