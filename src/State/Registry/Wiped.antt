-- ===== src/State/Registry/Wiped.antt =====
-- `wipe` of lib.rs keeps every property that follows the rules of State/Registry/Rules.antt.
use ic_websocket_cdk_rs.Prelude.{
  ◌≡◌, refl, ◌∙◌, sym, true, false, none, List, [], ◌∷◌, arith, keys, Bool-cases, inl, inr, All,
  if_pos,
}
use ic_websocket_cdk_rs.Env.{Env, Key}
use ic_websocket_cdk_rs.State.{State, Key-discrete}
use ic_websocket_cdk_rs.State.Relates.{Holds-bind, Holds-pair, Preserves-intro}
use ic_websocket_cdk_rs.State.Removal.{remove_clients, reset_internal_state, wipe}
use ic_websocket_cdk_rs.State.Registry.{is_registered, set_contains}
use ic_websocket_cdk_rs.State.Registry.Changes.{IsAlone, registered-IsAlone}
use ic_websocket_cdk_rs.State.Registry.Emptied.{
  IsWithin, remove_clients-IsWithin, visited-IsWithin, registered-of_set_contains,
  contains-hash_order,
}
use ic_websocket_cdk_rs.State.Registry.Rules.{IsKept}
use ic_websocket_cdk_rs.State.Registry.Kept.{Keeps, remove_clients-keeps}

module _ ⦃env : Env⦄ where
  All-of_set_contains :
      (P : Key → Type 0) (ks : List Key) → ((k : Key) → set_contains k ks ≡ true → P k) → All P ks
  unfolding set_contains
  All-of_set_contains P [] f = tt
  All-of_set_contains P (k ∷ ks) f = (
    f k (if_pos (Key-discrete k k) refl true (set_contains k ks)),
    All-of_set_contains P ks (λ j h. f j (ground (arith, h))),
  )

  nobody : (s : State) → IsWithin [] s → (k : Key) → is_registered s k ≡ false
  unfolding set_contains
  nobody s w k = elim (Bool-cases (is_registered s k)) [
    | inl r ↦ absurd (ground (arith, w k r))
    | inr r ↦ r
  ]

  module _ {Drops : Key → Type 0} {P : State → Type 0} (kept : IsKept Drops P) where
    pub wipe-Keeps : ((k : Key) → Drops k) → Keeps P wipe
    unfolding reset_internal_state
    wipe-Keeps drops = Preserves-intro P wipe λ s h.
        let ks = env.hash_order (keys s.registered_clients) in
        let l = kept.linked s h in
        let alone : All (IsAlone s) ks = All-of_set_contains (IsAlone s) ks (λ k c.
          registered-IsAlone s k l (
            registered-of_set_contains k s.registered_clients
              (sym (contains-hash_order k (keys s.registered_clients)) ∙ c))) in
        Holds-bind {P = λ t. P t × IsWithin [] t} (remove_clients ks none s) _
          (Holds-pair P (IsWithin []) (remove_clients ks none s)
            (remove_clients-keeps kept ks none s drops h alone)
            (remove_clients-IsWithin ks none s (visited-IsWithin s)))
          (λ t q. q.0) (λ _ t q. kept.cleared t (nobody t q.1) q.0)
