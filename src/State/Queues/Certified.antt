-- ===== src/State/Queues/Certified.antt =====
-- The queues, the tree and the certified data of state.rs, before and after `_ws_send`.
use ic_websocket_cdk_rs.Prelude.{
  ℕ, ◌≤◌, length, ◌≡◌, ◌≢◌, refl, ◌∙◌, some, List, [], ◌∷◌, Text, Bytes, All, u64_mod, get,
}
use ic_websocket_cdk_rs.Constants.{label_websocket}
use ic_websocket_cdk_rs.Types.Messages.{CanisterOutputMessage}
use ic_websocket_cdk_rs.Types.Gateway.{RegisteredGateway}
use ic_websocket_cdk_rs.Types.Gateway.Expiry.{message_keys}
use ic_websocket_cdk_rs.Env.{Env}
use ic_websocket_cdk_rs.State.{State}
use ic_websocket_cdk_rs.State.Certification.{delete_keys}
use ic_websocket_cdk_rs.State.Queues.{InRange, IsOrdered, InRange-ne}

module _ ⦃env : Env⦄ where
  -- The tree holds the hash of the message's content under its key.
  abbrev pub IsCovered : env.RbTree → CanisterOutputMessage env.Principal → Type 0
  IsCovered t x = env.tree_get x.key t ≡ some (env.sha256 x.content)

  -- A message is queued.
  abbrev pub HasMessage : State → Type 0
  HasMessage s =
      (gp : env.Principal) × (g : RegisteredGateway env.Principal) × (get env.principal_discrete gp
          s.registered_gateways
        ≡ some g)
      × (1 ≤ length g.messages_queue)

  -- Every queue is in order, every queued message is in the tree, and the certified data is the
  -- tree's root, unless no message is queued.
  pub record IsCertified (s : State) : Type 0 where
    pub ordered :
        (gp : env.Principal) (g : RegisteredGateway env.Principal)
        → get env.principal_discrete gp s.registered_gateways ≡ some g
        → IsOrdered gp g
    pub covered :
        (gp : env.Principal) (g : RegisteredGateway env.Principal)
        → get env.principal_discrete gp s.registered_gateways ≡ some g
        → All (IsCovered s.cert_tree) g.messages_queue
    pub current :
        HasMessage s
        → s.certified_data ≡ env.labeled_hash label_websocket (env.root_hash s.cert_tree)

  -- Keys that are not deleted keep their value.
  pub get-delete_keys :
      (j : Text) (ks : List Text) (t : env.RbTree)
      → All (λ k. k ≢ j) ks
      → env.tree_get j (delete_keys ks t) ≡ env.tree_get j t
  unfolding delete_keys
  get-delete_keys j [] t h = refl
  get-delete_keys j (k ∷ ks) t h =
      get-delete_keys j ks (env.tree_delete k t) h.1 ∙ env.get-delete_ne k j t h.0

  -- The keys of a numbered part of a queue differ from a key outside its range.
  pub message_keys-ne :
      (gp gp' : env.Principal) (lo hi lo' hi' : ℕ) (j : Text)
      (xs : List (CanisterOutputMessage env.Principal))
      → (gp ≡ gp' → hi ≤ lo')
      → hi ≤ u64_mod
      → hi' ≤ u64_mod
      → All (λ x. InRange gp lo hi x.key) xs
      → InRange gp' lo' hi' j
      → All (λ k. k ≢ j) (message_keys xs)
  message_keys-ne gp gp' lo hi lo' hi' j [] apart p q a r = tt
  message_keys-ne gp gp' lo hi lo' hi' j (x ∷ xs) apart p q a r = (
    InRange-ne gp gp' lo hi lo' hi' x.key j apart p q a.0 r,
    message_keys-ne gp gp' lo hi lo' hi' j xs apart p q a.1 r,
  )

  -- What stays covered when `ks` are deleted and `key` is inserted.
  pub IsCovered-kept :
      (gp : env.Principal) (lo hi : ℕ) (t : env.RbTree) (ks : List Text) (key : Text) (v : Bytes)
      → ((j : Text) → InRange gp lo hi j → All (λ k. k ≢ j) ks × (key ≢ j))
      → (xs : List (CanisterOutputMessage env.Principal)) → All (λ x. InRange gp lo hi x.key) xs
      → All (IsCovered t) xs
      → All (IsCovered (env.tree_insert key v (delete_keys ks t))) xs
  IsCovered-kept gp lo hi t ks key v apart [] r h = tt
  IsCovered-kept gp lo hi t ks key v apart (x ∷ xs) r h =
      let (others, ne) = apart x.key r.0 in
      (
        env.get-insert_ne key x.key v (delete_keys ks t) ne
            ∙ get-delete_keys x.key ks t others
            ∙ h.0,
        IsCovered-kept gp lo hi t ks key v apart xs r.1 h.1,
      )
