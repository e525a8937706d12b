-- ===== src/State/Queues/Expired.antt =====
-- The removal of empty gateways, `remove_empty_expired_gateways` of state.rs, and the count of the
-- clients of a gateway: the queues of the others stay in order and certified.
use ic_websocket_cdk_rs.Prelude.{
  ℕ, ◌≡◌, ◌≢◌, refl, ◌∙◌, sym, Option, none, some, List, [], ◌∷◌, Text, arith, All, get, remove,
  get-remove, if_pos, if_neg, Option-cases, inl, inr,
}
use ic_websocket_cdk_rs.Types.Messages.{CanisterOutputMessage}
use ic_websocket_cdk_rs.Types.Gateway.{RegisteredGateway}
use ic_websocket_cdk_rs.Types.Gateway.Expiry.{message_keys}
use ic_websocket_cdk_rs.Env.{Env}
use ic_websocket_cdk_rs.State.{State}
use ic_websocket_cdk_rs.State.Certification.{delete_keys, delete_keys_from_cert_tree}
use ic_websocket_cdk_rs.State.Removal.{
  on_gateway_removed, remove_gateway, remove_gateways, remove_empty_expired_gateways,
  collect_expired, retain_unexpired,
}
use ic_websocket_cdk_rs.State.Queues.{InRange, Numbered-InRange}
use ic_websocket_cdk_rs.State.Queues.Raised.{HasRoom, IsSound}
use ic_websocket_cdk_rs.State.Queues.Certified.{
  IsCovered, IsCertified, get-delete_keys, message_keys-ne,
}

module _ ⦃env : Env⦄ where
  IsCovered-delete_keys :
      (p : env.Principal) (hi : ℕ) (t : env.RbTree) (ks : List Text)
      → ((j : Text) → InRange p 0 hi j → All (λ k. k ≢ j) ks)
      → (xs : List (CanisterOutputMessage env.Principal)) → All (λ x. InRange p 0 hi x.key) xs
      → All (IsCovered t) xs
      → All (IsCovered (delete_keys ks t)) xs
  IsCovered-delete_keys p hi t ks apart [] r h = tt
  IsCovered-delete_keys p hi t ks apart (x ∷ xs) r h = (
    get-delete_keys x.key ks t (apart x.key r.0) ∙ h.0,
    IsCovered-delete_keys p hi t ks apart xs r.1 h.1,
  )

  -- The entries that are left when one is removed are those of others.
  left_over :
      (gp p : env.Principal) (s : State) (x : RegisteredGateway env.Principal)
      → get env.principal_discrete p (remove env.principal_discrete gp s.registered_gateways)
        ≡ some x
      → (gp ≢ p) × (get env.principal_discrete p s.registered_gateways ≡ some x)
  left_over gp p s x h =
      let e = sym (get-remove env.principal_discrete gp p s.registered_gateways) ∙ h in
      elim (env.principal_discrete gp p) [
        | yes q ↦ absurd (
            ground (
              arith,
              sym (
                    if_pos (env.principal_discrete gp p) q none
                      (get env.principal_discrete p s.registered_gateways))
                  ∙ e,
            ))
        | no n ↦ (n, sym (if_neg (env.principal_discrete gp p) n _ _) ∙ e)
      ]

  removed-IsCertified :
      (gp : env.Principal) (g : RegisteredGateway env.Principal) (s : State)
      → get env.principal_discrete gp s.registered_gateways ≡ some g
      → IsCertified s
      → IsCertified (on_gateway_removed gp (some g) s)
  unfolding delete_keys_from_cert_tree
  removed-IsCertified gp g s found inv = record {
    ordered = λ p x h. inv.ordered p x (left_over gp p s x h).1;
    covered = λ p x h.
        let (ne, at) = left_over gp p s x h in
        let own = inv.ordered gp g found in
        let o = inv.ordered p x at in
        IsCovered-delete_keys p x.outgoing_message_nonce s.cert_tree (message_keys g.messages_queue)
          (λ j r.
            message_keys-ne gp p 0 g.outgoing_message_nonce 0 x.outgoing_message_nonce j
              g.messages_queue (λ e. absurd (ne e)) (omega (arith, own.bounded))
              (omega (arith, o.bounded))
              (Numbered-InRange gp 0 g.outgoing_message_nonce g.messages_queue own.numbered) r)
          x.messages_queue
          (Numbered-InRange p 0 x.outgoing_message_nonce x.messages_queue o.numbered)
          (inv.covered p x at);
    current = λ _. refl;
  }

  remove_gateway-IsCertified :
      (gp : env.Principal) (s : State) → IsCertified s → IsCertified (remove_gateway gp s)
  unfolding remove_gateway
  remove_gateway-IsCertified gp s inv =
      go (get env.principal_discrete gp s.registered_gateways) refl
    where
      go :
          (o : Option (RegisteredGateway env.Principal))
          → get env.principal_discrete gp s.registered_gateways ≡ o
          → IsCertified (on_gateway_removed gp o s)
      go none e = inv
      go (some g) e = removed-IsCertified gp g s e inv

  remove_gateways-IsCertified :
      (gps : List env.Principal) (s : State) → IsCertified s → IsCertified (remove_gateways gps s)
  unfolding remove_gateways
  remove_gateways-IsCertified [] s inv = inv
  remove_gateways-IsCertified (gp ∷ gps) s inv =
      remove_gateways-IsCertified gps (remove_gateway gp s) (remove_gateway-IsCertified gp s inv)

  -- Where every gateway's queue is in the order of its nonces with one timestamp per message, every
  -- queued message's hash is in the tree and the certified data is the tree's root if a message is
  -- queued, this is still so after remove_empty_expired_gateways: the keys that it deletes from the
  -- tree are not those of the queues that are left, and a new root is certified if a message is
  -- queued.
  pub remove_empty_expired_gateways-IsCertified :
      (s : State) → IsCertified s → IsCertified (remove_empty_expired_gateways s)
  unfolding remove_empty_expired_gateways
  remove_empty_expired_gateways-IsCertified s inv =
      let interval = s.params.send_ack_interval_ms in
      let visited = env.hash_order s.gateways_to_remove in
      remove_gateways-IsCertified (collect_expired s.time interval visited)
        (record s { gateways_to_remove = retain_unexpired s.time interval visited })
        (record { ordered = inv.ordered; covered = inv.covered; current = inv.current })

  -- The gateways that are left keep their nonces.
  remove_gateway-HasRoom :
      (n : ℕ) (gp : env.Principal) (s : State) → HasRoom n s → HasRoom n (remove_gateway gp s)
  unfolding remove_gateway delete_keys_from_cert_tree
  remove_gateway-HasRoom n gp s room =
      elim (Option-cases (get env.principal_discrete gp s.registered_gateways)) [
        | inl e ↦ rw e room
        | inr (g, e) ↦ rw e (λ p x h. room p x (left_over gp p s x h).1)
      ]

  remove_gateways-HasRoom :
      (n : ℕ) (gps : List env.Principal) (s : State)
      → HasRoom n s
      → HasRoom n (remove_gateways gps s)
  unfolding remove_gateways
  remove_gateways-HasRoom n [] s room = room
  remove_gateways-HasRoom n (gp ∷ gps) s room =
      remove_gateways-HasRoom n gps (remove_gateway gp s) (remove_gateway-HasRoom n gp s room)

  pub remove_empty_expired_gateways-IsSound :
      (n : ℕ) (s : State) → IsSound n s → IsSound n (remove_empty_expired_gateways s)
  unfolding remove_empty_expired_gateways
  remove_empty_expired_gateways-IsSound n s sound =
      let visited = env.hash_order s.gateways_to_remove in
      let interval = s.params.send_ack_interval_ms in
      (
        remove_empty_expired_gateways-IsCertified s sound.0,
        remove_gateways-HasRoom n (collect_expired s.time interval visited)
            (record s { gateways_to_remove = retain_unexpired s.time interval visited }) sound.1,
      )
