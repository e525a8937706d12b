-- ===== src/State/Registry.antt =====
-- The maps of state.rs that record who is connected, and how they agree.
pub mod Changes
pub mod Counts
pub mod Expired
pub mod Rules
pub mod Kept
pub mod Emptied
pub mod Removed
pub mod Wiped
use ic_websocket_cdk_rs.Prelude.{
  ℕ, ◌≡◌, refl, ◌∙◌, sym, ap, subst, Bool, true, false, Option, none, some, List, [], ◌∷◌, arith,
  get, is_some, ite, if◌then◌else◌,
}
use ic_websocket_cdk_rs.Types.Messages.{ClientKey}
use ic_websocket_cdk_rs.Env.{Env, Key}
use ic_websocket_cdk_rs.State.{State, Key-discrete}
use ic_websocket_cdk_rs.State.Clients.{set_insert, set_remove}
use ic_websocket_cdk_rs.State.Sending.Frame.{SameClients}

module _ ⦃env : Env⦄ where
  -- Membership in a hash set.
  unfoldable pub set_contains : Key → List Key → Bool
  set_contains k [] = false
  set_contains k (j ∷ ks) = ite (Key-discrete j k) true (set_contains k ks)

  pub set_contains-set_insert :
      (k j : Key) (ks : List Key)
      → set_contains j (set_insert k ks) ≡ ite (Key-discrete k j) true (set_contains j ks)
  unfolding set_contains set_insert
  set_contains-set_insert k j [] = refl
  set_contains-set_insert k j (i ∷ ks) = ground (arith, set_contains-set_insert k j ks)

  pub set_contains-set_remove :
      (k j : Key) (ks : List Key)
      → set_contains j (set_remove k ks) ≡ ite (Key-discrete k j) false (set_contains j ks)
  unfolding set_contains set_remove
  set_contains-set_remove k j [] = ground arith
  set_contains-set_remove k j (i ∷ ks) = ground (arith, set_contains-set_remove k j ks)

  abbrev pub is_registered : State → Key → Bool
  is_registered s k = is_some (get Key-discrete k s.registered_clients)

  abbrev pub current_key : State → env.Principal → Option Key
  current_key s p = get env.principal_discrete p s.current_client_key_map

  -- The current keys are those of the registered clients, one for each principal; the registered
  -- clients have both sequence numbers, and nobody else has one; only they are waited for.
  pub record IsLinked (s : State) : Type 0 where
    pub owned : (p : env.Principal) (k : Key) → current_key s p ≡ some k → k.client_principal ≡ p
    pub registered :
        (p : env.Principal) (k : Key) → current_key s p ≡ some k → is_registered s k ≡ true
    pub current : (k : Key) → is_registered s k ≡ true → current_key s k.client_principal ≡ some k
    pub outgoing :
        (k : Key)
        → is_some (get Key-discrete k s.outgoing_message_to_client_num_map) ≡ is_registered s k
    pub incoming :
        (k : Key)
        → is_some (get Key-discrete k s.incoming_message_from_client_num_map) ≡ is_registered s k
    pub waiting :
        (k : Key)
        → set_contains k s.clients_waiting_for_keep_alive ≡ true
        → is_registered s k ≡ true

  -- Two registered clients of one principal are the same client.
  pub one_connection :
      (s : State) (j k : Key)
      → IsLinked s
      → is_registered s j ≡ true
      → is_registered s k ≡ true
      → j.client_principal ≡ k.client_principal
      → j ≡ k
  one_connection s j k h a b e =
      let pj = h.current j a in
      let pk = h.current k b in
      let same : current_key s j.client_principal ≡ current_key s k.client_principal =
        ap (current_key s) e in
      let both : some j ≡ some k = sym pj ∙ same ∙ pk in cc
