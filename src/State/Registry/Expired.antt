-- ===== src/State/Registry/Expired.antt =====
-- `remove_empty_expired_gateways` and `clear_maps` of state.rs, for the registrations and the counts.
use mathlib.Core.List.Perm
use mathlib.Core.List.{Mem, mem-cons_self, mem-cons_of_mem, eq-or-mem_of_mem-cons, not-mem-nil}
use mathlib.Core.Logic.Or
use ic_websocket_cdk_rs.Prelude.{
  ℕ, ◌≡◌, refl, sym, ap, ◌∙◌, subst, false, Option, none, some, List, [], ◌∷◌, arith, if_pos,
  if_neg, Map, All, get, get-remove, remove, Bool-cases, inl, inr, is_some, count,
}
use ic_websocket_cdk_rs.Types.Gateway.{RegisteredClient, RegisteredGateway}
use ic_websocket_cdk_rs.Env.{Env, Key}
use ic_websocket_cdk_rs.State.{State, Key-discrete}
use ic_websocket_cdk_rs.State.Certification.{delete_keys_from_cert_tree}
use ic_websocket_cdk_rs.State.Removal.{
  clear_maps, on_gateway_removed, remove_gateway, remove_gateways, remove_empty_expired_gateways,
  collect_expired, retain_unexpired, is_expired,
}
use ic_websocket_cdk_rs.State.Sending.Same.{clients_count}
use ic_websocket_cdk_rs.State.Registry.{is_registered}
use ic_websocket_cdk_rs.State.Registry.Counts.{
  IsCounted, is_at, clients_at, count_at, or_zero, AreEmpty,
}

module _ ⦃env : Env⦄ where
  All-of_Mem : {A : Type 0} (P : A → Type 0) (xs : List A) → ((x : A) → Mem x xs → P x) → All P xs
  All-of_Mem P [] f = tt
  All-of_Mem P (x ∷ xs) f = (f x mem-cons_self, All-of_Mem P xs (λ y m. f y (mem-cons_of_mem x m)))

  of_Mem :
      {A : Type 0} (P : A → Type 0) (p : (x : A) → IsProp (P x)) (x : A) (xs : List A)
      → All P xs
      → Mem x xs
      → P x
  of_Mem P p x [] h m = absurd (not-mem-nil m)
  of_Mem P p x (y ∷ xs) h m =
      Or.elim (p x) (eq-or-mem_of_mem-cons m) (λ e. subst P (sym e) h.0)
        (λ rest. of_Mem P p x xs h.1 rest)

  -- The entries in the order of a visit.
  visited-AreEmpty :
      (s : State) (m : Map env.Principal ℕ) → AreEmpty s m → AreEmpty s (env.hash_order m)
  visited-AreEmpty s m h =
      let P : env.Principal × ℕ → Type 0 = λ e. clients_at s e.0 ≡ 0 in
      let p : (e : env.Principal × ℕ) → IsProp (P e) = hlevel in
      All-of_Mem P (env.hash_order m)
        (λ e i. of_Mem P p e m h ((Perm.mem_iff (env.hash_order-perm m)).0 i))

  retain_unexpired-AreEmpty :
      (s : State) (time interval : ℕ) (m : Map env.Principal ℕ)
      → AreEmpty s m
      → AreEmpty s (retain_unexpired time interval m)
  unfolding retain_unexpired
  retain_unexpired-AreEmpty s time interval [] h = tt
  retain_unexpired-AreEmpty s time interval ((gp, t) ∷ m) h =
      let rest = retain_unexpired-AreEmpty s time interval m h.1 in
      elim (Bool-cases (is_expired time interval t)) [
        | inl e ↦ rw e rest
        | inr e ↦ rw e (h.0, rest)
      ]

  collect_expired-AreEmpty :
      (s : State) (time interval : ℕ) (m : Map env.Principal ℕ)
      → AreEmpty s m
      → All (λ gp. clients_at s gp ≡ 0) (collect_expired time interval m)
  unfolding collect_expired
  collect_expired-AreEmpty s time interval [] h = tt
  collect_expired-AreEmpty s time interval ((gp, t) ∷ m) h =
      let rest = collect_expired-AreEmpty s time interval m h.1 in
      elim (Bool-cases (is_expired time interval t)) [
        | inl e ↦ rw e (h.0, rest)
        | inr e ↦ rw e rest
      ]

  -- A gateway without clients may go: its count is 0 with it and without it.
  uncounted :
      (gp p : env.Principal) (s : State)
      → count_at s gp ≡ 0
      → or_zero (
          clients_count
            (get env.principal_discrete p (remove env.principal_discrete gp s.registered_gateways)))
        ≡ count_at s p
  uncounted gp p s h = elim (env.principal_discrete gp p) [
    | yes e ↦
        rw
          (
            get-remove,
            if_pos (env.principal_discrete gp p) e none
                (get env.principal_discrete p s.registered_gateways),
          )
          (sym (ap (count_at s) (sym e) ∙ h))
    | no n ↦
        rw
          (
            get-remove,
            if_neg (env.principal_discrete gp p) n none
                (get env.principal_discrete p s.registered_gateways),
          )
          refl
  ]

  on_gateway_removed-IsCounted :
      (n : ℕ) (gp : env.Principal) (o : Option (RegisteredGateway env.Principal)) (s : State)
      → clients_at s gp ≡ 0
      → IsCounted n s
      → IsCounted n (on_gateway_removed gp o s)
  unfolding delete_keys_from_cert_tree
  on_gateway_removed-IsCounted n gp none s e h = h
  on_gateway_removed-IsCounted n gp (some g) s e h = record {
    distinct = h.distinct;
    counts = λ p. uncounted gp p s (h.counts gp ∙ e) ∙ h.counts p;
    bounded = h.bounded;
    removable = h.removable;
  }

  same_clients :
      (gp : env.Principal) (o : Option (RegisteredGateway env.Principal)) (s : State)
      → (on_gateway_removed gp o s).registered_clients ≡ s.registered_clients
  unfolding delete_keys_from_cert_tree
  same_clients gp none s = refl
  same_clients gp (some g) s = refl

  remove_gateways-IsCounted :
      (n : ℕ) (gps : List env.Principal) (s : State)
      → All (λ gp. clients_at s gp ≡ 0) gps
      → IsCounted n s
      → IsCounted n (remove_gateways gps s)
  unfolding remove_gateways remove_gateway
  remove_gateways-IsCounted n [] s e h = h
  remove_gateways-IsCounted n (gp ∷ gps) s e h =
      let o = get env.principal_discrete gp s.registered_gateways in
      remove_gateways-IsCounted n gps (remove_gateway gp s)
        (subst (λ m. All (λ p. count (is_at p) m ≡ 0) gps) (sym (same_clients gp o s)) e.1)
        (on_gateway_removed-IsCounted n gp o s e.0 h)

  -- Only gateways without clients are removed.
  pub remove_empty_expired_gateways-IsCounted :
      (n : ℕ) (s : State) → IsCounted n s → IsCounted n (remove_empty_expired_gateways s)
  unfolding remove_empty_expired_gateways
  remove_empty_expired_gateways-IsCounted n s h =
      let interval = s.params.send_ack_interval_ms in
      let visited = env.hash_order s.gateways_to_remove in
      let empty = visited-AreEmpty s s.gateways_to_remove h.removable in
      let t : State = record s { gateways_to_remove = retain_unexpired s.time interval visited } in
      remove_gateways-IsCounted n (collect_expired s.time interval visited) t
        (collect_expired-AreEmpty s s.time interval visited empty)
        (record {
          distinct = h.distinct;
          counts = h.counts;
          bounded = h.bounded;
          removable = retain_unexpired-AreEmpty s s.time interval visited empty;
        })

  no_entry :
      (m : Map Key (RegisteredClient env.Principal))
      → ((k : Key) → is_some (get Key-discrete k m) ≡ false)
      → m ≡ []
  unfolding get
  no_entry [] h = refl
  no_entry ((k, c) ∷ m) h = absurd (
      ground (
        arith,
        sym (ap is_some (if_pos (Key-discrete k k) refl (some c) (get Key-discrete k m))) ∙ h k,
      ))

  pub clear_maps-IsCounted :
      (n : ℕ) (s : State)
      → ((k : Key) → is_registered s k ≡ false)
      → IsCounted n s
      → IsCounted n (clear_maps s)
  unfolding clear_maps get count
  clear_maps-IsCounted n s nobody h =
      let none_left = no_entry s.registered_clients nobody in
      record {
        distinct = h.distinct;
        counts = λ gp. rw none_left refl;
        bounded = h.bounded;
        removable = tt;
      }
