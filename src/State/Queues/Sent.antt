-- ===== src/State/Queues/Sent.antt =====
-- `_ws_send` of state.rs keeps the queues in order and their messages certified.
use ic_websocket_cdk_rs.Prelude.{
  ℕ, suc, ◌+◌, ◌≤◌, ◌<◌, ◌≡◌, ◌≢◌, refl, sym, ◌∙◌, subst, Bool, inl, some, [], ◌∷◌, ◌++◌, Text,
  Bytes, arith, take, drop, All, All-append, All-drop, u64_mod, add64, get, ite, if_pos, if_neg,
  get-update_hit, length-append, length-drop,
}
use ic_websocket_cdk_rs.Constants.{messages_to_delete_count}
use ic_websocket_cdk_rs.Types.Messages.{CanisterOutputMessage}
use ic_websocket_cdk_rs.Types.Gateway.{
  RegisteredGateway, RegisteredClient, increment_nonce, add_message_to_queue,
}
use ic_websocket_cdk_rs.Types.Gateway.Expiry.{message_keys, old_prefix, delete_old_messages_lem}
use ic_websocket_cdk_rs.Env.{Env, Key}
use ic_websocket_cdk_rs.State.{State, Key-discrete, ok}
use ic_websocket_cdk_rs.State.Certification.{
  format_message_for_gateway_key, delete_keys, put_cert_for_message, delete_keys_from_cert_tree,
}
use ic_websocket_cdk_rs.State.Sending.{ws_send, cbor_serialize}
use ic_websocket_cdk_rs.State.Sending.Success.{
  Sends, websocket_message, sent_state, kept_gateway, bumped_gateway, ws_send-sent_state,
}
use ic_websocket_cdk_rs.State.Queues.Certified.{
  IsCovered, IsCertified, message_keys-ne, IsCovered-kept,
}
use ic_websocket_cdk_rs.State.Queues.{
  InRange, Numbered, IsOrdered, Numbered-le, Numbered-snoc, Numbered-split, Numbered-weaken,
  Numbered-InRange, InRange-ne,
}

module _ ⦃env : Env⦄ where
  -- The entry of a client that is registered at a gateway, as `_ws_send` finds it.
  module _ (s : State) (k : Key) (bytes : Bytes) (is_service : Bool)
      (c : RegisteredClient env.Principal) (g : RegisteredGateway env.Principal) (num : ℕ)
      (content : Bytes) (registered : get Key-discrete k s.registered_clients ≡ some c)
      (at_gateway : get env.principal_discrete c.gateway_principal s.registered_gateways ≡ some g)
      (numbered : get Key-discrete k s.outgoing_message_to_client_num_map ≡ some num)
      (encoded : cbor_serialize (websocket_message s k bytes is_service (add64 num 1))
        ≡ inl content)
      (inv : IsCertified s) (room : g.outgoing_message_nonce + 1 < u64_mod) where
    abbrev pub gone : ℕ
    gone =
        old_prefix messages_to_delete_count s.time s.params.send_ack_interval_ms
          g.messages_to_delete

    ordered : IsOrdered c.gateway_principal g
    ordered = inv.ordered c.gateway_principal g at_gateway

    abbrev send_of : Sends s k bytes is_service
    unfolding increment_nonce
    send_of = record {
      client = c;
      gateway = g;
      num = num;
      content = content;
      kept = record (increment_nonce g) {
        messages_queue = drop gone g.messages_queue;
        messages_to_delete = drop gone g.messages_to_delete;
      };
      deleted = message_keys (take gone g.messages_queue);
      registered = registered;
      at_gateway = at_gateway;
      numbered = numbered;
      encoded = encoded;
      expiry =
          delete_old_messages_lem (increment_nonce g) messages_to_delete_count
            s.params.send_ack_interval_ms s.time ordered.aligned;
    }

    -- The message that is queued, and the gateway with it at the end of its queue.
    abbrev pub queued : CanisterOutputMessage env.Principal
    queued = record {
      client_key = k;
      key = format_message_for_gateway_key c.gateway_principal g.outgoing_message_nonce;
      content = content;
    }

    abbrev pub sent_gateway : RegisteredGateway env.Principal
    sent_gateway = record {
      messages_queue = drop gone g.messages_queue ++ queued ∷ [];
      messages_to_delete = drop gone g.messages_to_delete ++ record { timestamp = s.time } ∷ [];
      outgoing_message_nonce = add64 g.outgoing_message_nonce 1;
      connected_clients_count = g.connected_clients_count;
    }

    gateways_lem :
        (p : env.Principal)
        → get env.principal_discrete p (sent_state send_of).registered_gateways
          ≡ ite
              (env.principal_discrete c.gateway_principal p)
              (some sent_gateway)
              (get env.principal_discrete p s.registered_gateways)
    unfolding put_cert_for_message delete_keys_from_cert_tree add_message_to_queue increment_nonce
        send_of
    gateways_lem p =
        rw
          (
            get-update_hit _ gp p _ _ (kept_gateway send_of),
            get-update_hit _ gp p _ _ (bumped_gateway send_of),
            get-update_hit _ gp p _ s.registered_gateways at_gateway,
          )
          (ground arith)
      where
        gp : env.Principal
        gp = c.gateway_principal

    own_entry :
        (p : env.Principal)
        → c.gateway_principal ≡ p
        → get env.principal_discrete p (sent_state send_of).registered_gateways ≡ some sent_gateway
    own_entry p e = rw (gateways_lem p, if_pos _ e)

    other_entry :
        (p : env.Principal)
        → c.gateway_principal ≢ p
        → get env.principal_discrete p (sent_state send_of).registered_gateways
          ≡ get env.principal_discrete p s.registered_gateways
    other_entry p n = rw (gateways_lem p, if_neg _ n)

    -- The parts of the queue that go and that stay.
    split :
        (mid : ℕ) × Numbered c.gateway_principal 0 mid (take gone g.messages_queue)
        × Numbered c.gateway_principal mid g.outgoing_message_nonce (drop gone g.messages_queue)
    split = Numbered-split c.gateway_principal gone 0 _ g.messages_queue ordered.numbered

    sent-IsOrdered : IsOrdered c.gateway_principal sent_gateway
    sent-IsOrdered = record {
      aligned = omega (
        arith,
        ordered.aligned,
        length-drop gone g.messages_queue,
        length-drop gone g.messages_to_delete,
        length-append (drop gone g.messages_queue) (queued ∷ []),
        length-append (drop gone g.messages_to_delete) (record { timestamp = s.time } ∷ []),
      );
      numbered =
          let next : add64 g.outgoing_message_nonce 1 ≡ suc g.outgoing_message_nonce =
            omega arith in
          let (mid, _, back) = split in
          Numbered-snoc c.gateway_principal 0 g.outgoing_message_nonce g.outgoing_message_nonce
            (add64 g.outgoing_message_nonce 1) (drop gone g.messages_queue) queued (omega arith)
            (omega arith) refl
            (Numbered-weaken c.gateway_principal mid 0 g.outgoing_message_nonce _ (omega arith)
              back);
      bounded = omega arith;
    }

    sent_tree : env.RbTree
    sent_tree =
        env.tree_insert queued.key (env.sha256 content)
          (delete_keys (message_keys (take gone g.messages_queue)) s.cert_tree)

    queued-InRange :
        InRange c.gateway_principal g.outgoing_message_nonce
          (suc g.outgoing_message_nonce)
          queued.key
    queued-InRange = (g.outgoing_message_nonce, omega arith, omega arith, refl)

    -- Nothing that happens to the tree touches a key in a range that ends where this message
    -- begins, and begins where the deleted part ends.
    apart :
        (p : env.Principal) (lo hi : ℕ)
        → hi ≤ u64_mod
        → (c.gateway_principal ≡ p → split.0 ≤ lo)
        → (c.gateway_principal ≡ p → hi ≤ g.outgoing_message_nonce)
        → (j : Text) → InRange p lo hi j
        → All (λ x. x ≢ j) (message_keys (take gone g.messages_queue)) × (queued.key ≢ j)
    apart p lo hi h after before j r =
        let gp = c.gateway_principal in
        let bound = Numbered-le gp split.0 g.outgoing_message_nonce _ split.2 in
        (
          message_keys-ne gp p 0 split.0 lo hi j (take gone g.messages_queue) after (omega arith) h
              (Numbered-InRange gp 0 split.0 _ split.1) r,
          λ e.
              InRange-ne p gp lo hi g.outgoing_message_nonce (suc g.outgoing_message_nonce) j
                queued.key (λ q. before (sym q)) h (omega arith) r queued-InRange (sym e),
        )

    own-IsCovered : All (IsCovered sent_tree) sent_gateway.messages_queue
    unfolding sent_tree
    own-IsCovered =
        let gp = c.gateway_principal in
        let back = drop gone g.messages_queue in
        All-append (IsCovered sent_tree) back (queued ∷ [])
          (IsCovered-kept gp split.0 g.outgoing_message_nonce s.cert_tree _ queued.key _
            (apart gp split.0 g.outgoing_message_nonce (omega arith) (λ _. omega arith)
              (λ _. omega arith))
            back (Numbered-InRange gp split.0 g.outgoing_message_nonce back split.2)
            (All-drop (IsCovered s.cert_tree) gone g.messages_queue (inv.covered gp g at_gateway)))
          (env.get-insert_self queued.key _ _, tt)

    other-IsCovered :
        (p : env.Principal) (x : RegisteredGateway env.Principal)
        → c.gateway_principal ≢ p
        → get env.principal_discrete p s.registered_gateways ≡ some x
        → All (IsCovered sent_tree) x.messages_queue
    unfolding sent_tree
    other-IsCovered p x ne h =
        let o = inv.ordered p x h in
        IsCovered-kept p 0 x.outgoing_message_nonce s.cert_tree _ queued.key _
          (apart p 0 x.outgoing_message_nonce (omega (arith, o.bounded)) (λ e. absurd (ne e))
            (λ e. absurd (ne e)))
          x.messages_queue (Numbered-InRange p 0 x.outgoing_message_nonce _ o.numbered)
          (inv.covered p x h)

    -- A property of each gateway's entry after the send.
    each_gateway :
        (Q : (p : env.Principal) → RegisteredGateway env.Principal → Type 0)
        → Q c.gateway_principal sent_gateway
        → ((p : env.Principal) (x : RegisteredGateway env.Principal)
            → c.gateway_principal ≢ p
            → get env.principal_discrete p s.registered_gateways ≡ some x
            → Q p x)
        → (p : env.Principal) (x : RegisteredGateway env.Principal)
        → get env.principal_discrete p (sent_state send_of).registered_gateways ≡ some x
        → Q p x
    each_gateway Q own other p x h = elim (env.principal_discrete c.gateway_principal p) [
      | yes e ↦
          let found : some sent_gateway ≡ some x = sym (own_entry p e) ∙ h in
          subst (λ q. Q q x) e (subst (Q c.gateway_principal) (ground arith) own)
      | no n ↦ other p x n (sym (other_entry p n) ∙ h)
    ]

    -- Where every gateway's queue is in the order of its nonces with one timestamp per message,
    -- every queued message's hash is in the tree and the certified data is the tree's root if a
    -- message is queued, a send to a client with an outgoing number, registered at a registered
    -- gateway whose next nonce is below 2^64 - 1, of a message that encodes, returns without an
    -- error; the message stands at the end of that gateway's queue under the key of that nonce,
    -- behind the messages that the expiry keeps, the other gateways' entries are as before, and the
    -- order, the tree and the certified data are again so.
    pub ws_send-IsCertified :
        (s' : State) × (ws_send k bytes is_service s ≡ ok tt s')
        × IsCertified s'
        × (get env.principal_discrete c.gateway_principal s'.registered_gateways
            ≡ some sent_gateway)
        × ((p : env.Principal)
            → c.gateway_principal ≢ p
            → get env.principal_discrete p s'.registered_gateways
              ≡ get env.principal_discrete p s.registered_gateways)
    unfolding put_cert_for_message delete_keys_from_cert_tree sent_tree send_of
    ws_send-IsCertified = (
      sent_state send_of,
      ws_send-sent_state send_of,
      record {
        ordered = each_gateway IsOrdered sent-IsOrdered (λ p x _ h. inv.ordered p x h);
        covered =
            each_gateway (λ p x. All (IsCovered sent_tree) x.messages_queue) own-IsCovered
              other-IsCovered;
        current = λ _. refl;
      },
      own_entry c.gateway_principal refl,
      other_entry,
    )
