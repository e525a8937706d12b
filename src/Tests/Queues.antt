-- ===== src/Tests/Queues.antt =====
-- `delete_old_messages` and `_ws_send` at a queue of two messages, of which the first one is old.
use ic_websocket_cdk_rs.Prelude.{
  ◌+◌, ◌<◌, u64_mod, ◌≢◌, ℕ, ◌≤◌, ◌≡◌, refl, ◌⊎◌, ◌∷◌, [], some, none, All, take, drop, arith, get,
  true, false, sym, ◌∙◌, subst, if_pos, if_neg, text_ltb, ℕ_discrete, codes,
}
use ic_websocket_cdk_rs.Types.Gateway.{RegisteredGateway, delete_old_messages, is_older}
use ic_websocket_cdk_rs.Types.Gateway.Expiry.{
  IsAligned, message_keys, old_prefix, StartsYoung, delete_old_messages-StartsYoung,
}
use ic_websocket_cdk_rs.State.{State, ok, Key-discrete}
use ic_websocket_cdk_rs.State.Certification.{format_message_for_gateway_key}
use ic_websocket_cdk_rs.State.Sending.{ws_send, cbor_serialize}
use ic_websocket_cdk_rs.State.Certification.Keys.{
  text_ltb-format_message_for_gateway_key, format_message_for_gateway_key-injective,
}
use ic_websocket_cdk_rs.State.Queues.{IsOrdered}
use ic_websocket_cdk_rs.State.Queues.Certified.{IsCertified, IsCovered}
use ic_websocket_cdk_rs.State.Queues.Sent.{ws_send-IsCertified}
use ic_websocket_cdk_rs.State.Polling.{get_cert_messages, certified_messages}
use ic_websocket_cdk_rs.State.Queues.Delivered.{get_cert_messages-ws_send}
use ic_websocket_cdk_rs.State.Removal.{remove_empty_expired_gateways}
use ic_websocket_cdk_rs.State.Queues.Expired.{remove_empty_expired_gateways-IsCertified}
use ic_websocket_cdk_rs.State.Relates.{Holds}
use ic_websocket_cdk_rs.State.Queues.Sound.{HasRoom, IsSound, ws_send-IsSound}
use ic_websocket_cdk_rs.Api.{ws_open, ws_close}
use ic_websocket_cdk_rs.Api.Sound.{ws_open-IsSound, ws_close-IsSound}
use ic_websocket_cdk_rs.Decimal.{u64_to_string, pad_zeros, decimal}
use ic_websocket_cdk_rs.Tests.Demo.{demo, text_discrete}
use ic_websocket_cdk_rs.Tests.States.{
  connected, test_key, test_client, test_gateway, key_0, key_1, message_1,
}

delete_old_messages_example :
    (k : ℕ) × (g' : RegisteredGateway ℕ) × (delete_old_messages test_gateway 5 300000 400000000000
      ≡ some (g', message_keys (take k test_gateway.messages_queue)))
    × (g'.messages_queue ≡ drop k test_gateway.messages_queue)
    × (g'.messages_to_delete ≡ drop k test_gateway.messages_to_delete)
    × (g'.outgoing_message_nonce ≡ 2)
    × (g'.connected_clients_count ≡ 1)
    × (k ≤ 5)
    × All
        (λ m. is_older 400000000000 300000 m.timestamp ≡ true)
        (take k test_gateway.messages_to_delete)
    × ((k ≡ 5) ⊎ StartsYoung 400000000000 300000 g'.messages_to_delete)
    × IsAligned g'
delete_old_messages_example =
    delete_old_messages-StartsYoung test_gateway 5 300000 400000000000 refl

-- A property of the one gateway is a property of each gateway.
only_gateway :
    (Q : ℕ → RegisteredGateway ℕ → Type 0)
    → Q 9 test_gateway
    → (gp : ℕ) (g : RegisteredGateway ℕ) → get ℕ_discrete gp ((9, test_gateway) ∷ []) ≡ some g
    → Q gp g
unfolding get
only_gateway Q q gp g e = elim (ℕ_discrete 9 gp) [
  | yes f ↦
      subst (λ p. Q p g) f
        (subst (Q 9)
          (let found : some test_gateway ≡ some g =
              sym (if_pos (ℕ_discrete 9 gp) f (some test_gateway) none) ∙ e in
            ground (arith, found))
          q)
  | no n ↦ absurd (ground (arith, e, n))
]

abbrev pub ordered_queue : IsOrdered 9 test_gateway
unfolding format_message_for_gateway_key u64_to_string pad_zeros decimal
ordered_queue = record {
  aligned = refl;
  numbered = (0, omega arith, refl, (1, omega arith, refl, omega arith));
  bounded = omega arith;
}

pub connected-IsCertified : IsCertified connected
unfolding get
connected-IsCertified = record {
  ordered = only_gateway IsOrdered ordered_queue;
  covered =
      only_gateway (λ gp g. All (IsCovered connected.cert_tree) g.messages_queue)
        (
          if_pos (text_discrete key_0 key_0) refl _ _,
          (
            if_neg (text_discrete key_0 key_1) (λ e. absurd (ground (arith, e))) _ _
                ∙ if_pos (text_discrete key_1 key_1) refl _ _,
            tt,
          ),
        );
  current = λ _. refl;
}

ws_send_example :
    (s' : State) × (ws_send test_key (5 ∷ []) false connected ≡ ok tt s')
    × IsCertified s'
    × (get ℕ_discrete 9 s'.registered_gateways
        ≡ some (record {
          messages_queue =
              message_1
              ∷ record {
                client_key = test_key;
                key = 9 ∷ codes "_00000000000000000002";
                content = 217 ∷ 3 ∷ 5 ∷ [];
              }
              ∷ [];
          messages_to_delete =
              record { timestamp = 399999000000 } ∷ record { timestamp = 400000000000 } ∷ [];
          outgoing_message_nonce = 3;
          connected_clients_count = 1;
        }))
    × ((p : ℕ)
        → ◌≢◌ {A = ℕ} 9 p
        → get ℕ_discrete p s'.registered_gateways ≡ get ℕ_discrete p connected.registered_gateways)
unfolding get format_message_for_gateway_key u64_to_string pad_zeros decimal cbor_serialize
    old_prefix Key-discrete ℕ_discrete is_older
ws_send_example =
    ws_send-IsCertified connected test_key (5 ∷ []) false test_client test_gateway 2
      (217 ∷ 3 ∷ 5 ∷ []) refl refl refl refl connected-IsCertified (omega arith)

text_ltb-key_example : text_ltb key_0 key_1 ≡ true
unfolding format_message_for_gateway_key u64_to_string pad_zeros decimal
text_ltb-key_example = text_ltb-format_message_for_gateway_key 9 0 1 (omega arith) (omega arith)

key-injective_example : ◌≡◌ {A = ℕ} 4 4 × ◌≡◌ {A = ℕ} 1 1
key-injective_example =
    format_message_for_gateway_key-injective 4 4 1 1 (omega arith) (omega arith) refl

delivered_example :
    (s' : State) × (ws_send test_key (5 ∷ []) false connected ≡ ok tt s')
    × (get_cert_messages 9 2 s'
        ≡ certified_messages
            (record {
              client_key = test_key;
              key = 9 ∷ codes "_00000000000000000002";
              content = 217 ∷ 3 ∷ 5 ∷ [];
            }
              ∷ [])
            true
            s')
unfolding get format_message_for_gateway_key u64_to_string pad_zeros decimal cbor_serialize
    Key-discrete ℕ_discrete
delivered_example =
    get_cert_messages-ws_send connected test_key (5 ∷ []) false test_client test_gateway 2
      (217 ∷ 3 ∷ 5 ∷ []) refl refl refl refl connected-IsCertified (omega arith) (omega arith)

expired_example : IsCertified (remove_empty_expired_gateways connected)
expired_example = remove_empty_expired_gateways-IsCertified connected connected-IsCertified

pub connected-HasRoom : HasRoom 101 connected
connected-HasRoom = only_gateway (λ gp g. g.outgoing_message_nonce + 101 < u64_mod) (omega arith)

send_any_example : Holds (IsSound 100) (ws_send test_key [] false connected)
send_any_example =
    ws_send-IsSound 100 connected test_key [] false (connected-IsCertified, connected-HasRoom)

connected-HasRoom_100 : HasRoom 100 connected
connected-HasRoom_100 =
    only_gateway (λ gp g. g.outgoing_message_nonce + 100 < u64_mod) (omega arith)

open_any_example :
    Holds (IsSound 99) (ws_open 7 (record { client_nonce = 4; gateway_principal = 8 }) connected)
open_any_example =
    ws_open-IsSound 99 connected 7 (record { client_nonce = 4; gateway_principal = 8 })
      (omega arith) refl refl (connected-IsCertified, connected-HasRoom_100)

close_any_example : Holds (IsSound 100) (ws_close 9 (record { client_key = test_key }) connected)
close_any_example =
    ws_close-IsSound 100 connected 9 (record { client_key = test_key }) (omega arith) refl
      (connected-IsCertified, connected-HasRoom_100)
