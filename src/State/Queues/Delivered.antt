-- ===== src/State/Queues/Delivered.antt =====
-- A message that `_ws_send` of state.rs queues, and the poll of its gateway that asks for it.
use ic_websocket_cdk_rs.Prelude.{
  ℕ, suc, ◌+◌, ◌≤◌, ◌<◌, ◌≡◌, refl, ◌∙◌, ap, subst, take_all, Bool, true, inl, some, List, [], ◌∷◌,
  Bytes, arith, drop, take, leb, u64_mod, add64, get,
}
use ic_websocket_cdk_rs.Types.Messages.{CanisterOutputMessage}
use ic_websocket_cdk_rs.Types.Gateway.{RegisteredGateway, RegisteredClient}
use ic_websocket_cdk_rs.Env.{Env, Key}
use ic_websocket_cdk_rs.State.{State, Key-discrete, ok}
use ic_websocket_cdk_rs.State.Sending.{ws_send, cbor_serialize}
use ic_websocket_cdk_rs.Types.Gateway.Expiry.{old_prefix}
use ic_websocket_cdk_rs.Constants.{messages_to_delete_count}
use ic_websocket_cdk_rs.State.Certification.{format_message_for_gateway_key}
use ic_websocket_cdk_rs.State.Relates.{Holds}
use ic_websocket_cdk_rs.State.Sending.Frame.{SameClients, ws_send-SameClients}
use ic_websocket_cdk_rs.State.Sending.Success.{websocket_message}
use ic_websocket_cdk_rs.State.Polling.{get_cert_messages, certified_messages}
use ic_websocket_cdk_rs.State.Queues.{Numbered, Numbered-split, Numbered-weaken}
use ic_websocket_cdk_rs.State.Queues.Certified.{IsCertified}
use ic_websocket_cdk_rs.State.Queues.Sent.{ws_send-IsCertified}
use ic_websocket_cdk_rs.State.Queues.Polled.{get_cert_messages-split}

module _ ⦃env : Env⦄ where
  module _ (s : State) (k : Key) (bytes : Bytes) (is_service : Bool)
      (c : RegisteredClient env.Principal) (g : RegisteredGateway env.Principal) (num : ℕ)
      (content : Bytes) (registered : get Key-discrete k s.registered_clients ≡ some c)
      (at_gateway : get env.principal_discrete c.gateway_principal s.registered_gateways ≡ some g)
      (numbered : get Key-discrete k s.outgoing_message_to_client_num_map ≡ some num)
      (encoded : cbor_serialize (websocket_message s k bytes is_service (add64 num 1))
        ≡ inl content)
      (inv : IsCertified s) (room : g.outgoing_message_nonce + 1 < u64_mod) where
    -- The message that is queued.
    abbrev pub delivered : CanisterOutputMessage env.Principal
    delivered = record {
      client_key = k;
      key = format_message_for_gateway_key c.gateway_principal g.outgoing_message_nonce;
      content = content;
    }

    -- The part of the queue that the expiry keeps.
    abbrev kept_queue : List (CanisterOutputMessage env.Principal)
    kept_queue =
        drop
          (old_prefix messages_to_delete_count s.time s.params.send_ack_interval_ms
            g.messages_to_delete)
          g.messages_queue

    kept-Numbered : Numbered c.gateway_principal 0 g.outgoing_message_nonce kept_queue
    kept-Numbered =
        let gp = c.gateway_principal in
        let n = g.outgoing_message_nonce in
        let cut =
          old_prefix messages_to_delete_count s.time s.params.send_ack_interval_ms
            g.messages_to_delete in
        let (mid, _, back) =
          Numbered-split gp cut 0 n g.messages_queue (inv.ordered gp g at_gateway).numbered in
        Numbered-weaken gp mid 0 n kept_queue (omega arith) back

    pub get_cert_messages-ws_send :
        1 ≤ s.params.max_number_of_returned_messages
        → (s' : State) × (ws_send k bytes is_service s ≡ ok tt s')
          × (get_cert_messages c.gateway_principal g.outgoing_message_nonce s'
              ≡ certified_messages (delivered ∷ []) true s')
    get_cert_messages-ws_send some_returned =
        let gp = c.gateway_principal in
        let n = g.outgoing_message_nonce in
        let sent =
          ws_send-IsCertified s k bytes is_service c g num content registered at_gateway numbered
            encoded inv room in
        let same : SameClients s sent.0 =
          subst (Holds (SameClients s)) sent.1 ((ws_send-SameClients k bytes is_service).at s) in
        let whole : take sent.0.params.max_number_of_returned_messages (delivered ∷ [])
            ≡ delivered ∷ [] =
          take_all sent.0.params.max_number_of_returned_messages (delivered ∷ []) (
            omega
              (arith, some_returned, ap (λ p. p.max_number_of_returned_messages) same.params)) in
        let flag : leb 1 sent.0.params.max_number_of_returned_messages ≡ true =
          ground (arith, some_returned, ap (λ p. p.max_number_of_returned_messages) same.params) in
        (
          sent.0,
          sent.1,
          get_cert_messages-split sent.0 gp _ sent.3 n 0 (suc n) kept_queue (delivered ∷ []) refl
                kept-Numbered (n, omega arith, refl, omega arith) (omega arith) (omega arith)
              ∙ rw (whole, flag),
        )
