-- ===== src/State/Registry/Counts.antt =====
-- The counts of the gateways' clients in state.rs, beside the clients that are registered.
use mathlib.Core.Option
use ic_websocket_cdk_rs.Prelude.{
  ℕ, suc, ◌+◌, ◌-◌, ◌<◌, ◌≤◌, ◌≡◌, ◌≢◌, refl, sym, ap, ◌∙◌, Bool, true, false, Option, none, some,
  [], ◌∷◌, arith, ite, if_pos, if_neg, Map, All, get, get-insert, get-update, insert, remove, count,
  one_if, IsDistinct, ite-intro, count-insert, count-remove, insert-IsDistinct, remove-IsDistinct,
  u64_mod, Option-cases, Bool-cases, inl, inr,
}
use ic_websocket_cdk_rs.Types.Gateway.{
  RegisteredClient, RegisteredGateway, increment_clients_count, decrement_clients_count,
  new_gateway,
}
use ic_websocket_cdk_rs.Env.{Env, Key}
use ic_websocket_cdk_rs.State.{State, Key-discrete}
use ic_websocket_cdk_rs.State.Gateways.{
  increment_gateway_clients_count, decrement_gateway_clients_count, or_new_gateway, becomes_empty,
}
use ic_websocket_cdk_rs.State.Clients.{add_client}
use ic_websocket_cdk_rs.State.Removal.{forget_client}
use ic_websocket_cdk_rs.State.Removal.Drop.{drop_client, taken}
use ic_websocket_cdk_rs.State.Sending.Same.{clients_count}

module _ ⦃env : Env⦄ where
  abbrev pub is_at : env.Principal → RegisteredClient env.Principal → Bool
  is_at gp c = ite (env.principal_discrete c.gateway_principal gp) true false

  -- The registered clients at a gateway.
  abbrev pub clients_at : State → env.Principal → ℕ
  clients_at s gp = count (is_at gp) s.registered_clients

  abbrev pub or_zero : Option ℕ → ℕ
  or_zero none = 0
  or_zero (some n) = n

  -- The count that a gateway keeps; 0 where it is not registered.
  abbrev pub count_at : State → env.Principal → ℕ
  count_at s gp = or_zero (clients_count (get env.principal_discrete gp s.registered_gateways))

  -- No client at a gateway that is to be removed.
  abbrev pub AreEmpty : State → Map env.Principal ℕ → Type 0
  AreEmpty s m = All (λ e. clients_at s e.0 ≡ 0) m

  -- No client key stands twice, each gateway counts its clients, at most `n`, and no client is at a
  -- gateway that is to be removed.
  pub record IsCounted (n : ℕ) (s : State) : Type 0 where
    pub distinct : IsDistinct Key-discrete s.registered_clients
    pub counts : (gp : env.Principal) → count_at s gp ≡ clients_at s gp
    pub bounded : (gp : env.Principal) → clients_at s gp ≤ n
    pub removable : AreEmpty s s.gateways_to_remove

  All-remove :
      (P : env.Principal → Type 0) (gp : env.Principal) (m : Map env.Principal ℕ)
      → All (λ e. P e.0) m
      → All (λ e. (gp ≢ e.0) × P e.0) (remove env.principal_discrete gp m)
  unfolding remove
  All-remove P gp [] h = tt
  All-remove P gp ((p, t) ∷ m) h =
      ite-intro (All (λ e. (gp ≢ e.0) × P e.0)) (env.principal_discrete p gp)
        (remove env.principal_discrete gp m) ((p, t) ∷ remove env.principal_discrete gp m)
        (λ e. All-remove P gp m h.1) (λ n. ((λ e. n (sym e), h.0), All-remove P gp m h.1))

  All-insert :
      (P : env.Principal → Type 0) (gp : env.Principal) (t : ℕ) (m : Map env.Principal ℕ)
      → P gp
      → All (λ e. P e.0) m
      → All (λ e. P e.0) (insert env.principal_discrete gp t m)
  unfolding insert
  All-insert P gp t [] p h = (p, tt)
  All-insert P gp t ((q, u) ∷ m) p h =
      ite-intro (All (λ e. P e.0)) (env.principal_discrete q gp) ((gp, t) ∷ m)
        ((q, u) ∷ insert env.principal_discrete gp t m) (λ e. (p, h.1))
        (λ n. (h.0, All-insert P gp t m p h.1))

  pub All-entries :
      {P Q : env.Principal → Type 0} (m : Map env.Principal ℕ)
      → ((gp : env.Principal) → P gp → Q gp)
      → All (λ e. P e.0) m
      → All (λ e. Q e.0) m
  All-entries [] f h = tt
  All-entries (e ∷ m) f h = (f e.0 h.0, All-entries m f h.1)

  other_gateway :
      (gp p : env.Principal) (c : RegisteredClient env.Principal)
      → c.gateway_principal ≡ gp
      → gp ≢ p
      → is_at p c ≡ false
  other_gateway gp p c e n =
      if_neg (env.principal_discrete c.gateway_principal p) (λ f. n (sym e ∙ f)) true false

  at_most_one : (b : Bool) → one_if b ≤ 1
  at_most_one true = omega arith
  at_most_one false = omega arith

  lowered :
      {P : Type 0} (d : Dec P) (o : Option (RegisteredGateway env.Principal))
      → or_zero (clients_count (ite d (Option.map decrement_clients_count o) o))
        ≡ or_zero (clients_count o) - one_if (ite d true false)
  unfolding decrement_clients_count
  lowered (yes p) none = omega arith
  lowered (yes p) (some g) = refl
  lowered (no n) o = omega arith

  raised :
      {P : Type 0} (d : Dec P) (o p : Option (RegisteredGateway env.Principal))
      → (P → p ≡ o)
      → or_zero (clients_count o) + 1 < u64_mod
      → or_zero (clients_count (ite d (some (increment_clients_count (or_new_gateway p))) o))
        ≡ or_zero (clients_count o) + one_if (ite d true false)
  unfolding increment_clients_count new_gateway
  raised (yes q) none p e h = rw (e q) refl
  raised (yes q) (some g) p e h = rw (e q) (omega arith)
  raised (no n) o p e h = omega arith

  module _ (n : ℕ) (s : State) (k : Key) (h : IsCounted n s) where
    -- A client less, and a count less.
    module _ (c : RegisteredClient env.Principal)
        (registered : get Key-discrete k s.registered_clients ≡ some c) where
      abbrev t : State
      t = taken k (some c) (forget_client k s)

      fewer : (gp : env.Principal) → clients_at t gp + one_if (is_at gp c) ≡ clients_at s gp
      unfolding decrement_gateway_clients_count forget_client
      fewer gp = count-remove Key-discrete (is_at gp) k s.registered_clients h.distinct registered

      lower : (gp : env.Principal) → count_at t gp ≡ count_at s gp - one_if (is_at gp c)
      unfolding decrement_gateway_clients_count forget_client
      lower gp = rw get-update (
          lowered (env.principal_discrete c.gateway_principal gp)
            (get env.principal_discrete gp s.registered_gateways))

      fewer-counts : (gp : env.Principal) → count_at t gp ≡ clients_at t gp
      fewer-counts gp = omega (arith, fewer gp, lower gp, h.counts gp)

      emptied :
          (o : Option (RegisteredGateway env.Principal))
          → becomes_empty o ≡ true
          → or_zero (clients_count o) - 1 ≡ 0
      unfolding decrement_clients_count
      emptied none e = absurd (ground arith)
      emptied (some g) e = ground arith

      fewer-removable : AreEmpty t t.gateways_to_remove
      unfolding decrement_gateway_clients_count forget_client
      fewer-removable =
          let gp = c.gateway_principal in
          let o = get env.principal_discrete gp s.registered_gateways in
          let here : one_if (is_at gp c) ≡ 1 =
            ap one_if (if_pos (env.principal_discrete gp gp) refl true false) in
          let old : AreEmpty t s.gateways_to_remove =
            All-entries s.gateways_to_remove (λ p e. omega (arith, fewer p)) h.removable in
          elim (Bool-cases (becomes_empty o)) [
            | inl e ↦
                let none_left : clients_at t gp ≡ 0 =
                  omega (arith, fewer-counts gp, lower gp, emptied o e) in
                rw e (
                  All-insert (λ p. clients_at t p ≡ 0) gp s.time s.gateways_to_remove none_left old)
            | inr e ↦ rw e old
          ]

      fewer-IsCounted : IsCounted n t
      unfolding decrement_gateway_clients_count forget_client
      fewer-IsCounted = record {
        distinct = remove-IsDistinct Key-discrete k s.registered_clients h.distinct;
        counts = fewer-counts;
        bounded = λ gp. omega (arith, fewer gp, h.bounded gp);
        removable = fewer-removable;
      }

    pub drop_client-IsCounted : IsCounted n (drop_client k s)
    unfolding drop_client forget_client
    drop_client-IsCounted = elim (Option-cases (get Key-discrete k s.registered_clients)) [
      | inl e ↦ rw e (record {
        distinct = h.distinct;
        counts = h.counts;
        bounded = h.bounded;
        removable = h.removable;
      })
      | inr (c, e) ↦ rw e (fewer-IsCounted c e)
    ]

    -- A client more, and a count more.
    module _ (c : RegisteredClient env.Principal)
        (free : get Key-discrete k s.registered_clients ≡ none) (small : n + 1 < u64_mod) where
      abbrev u : State
      u = add_client k c s

      more : (gp : env.Principal) → clients_at u gp ≡ clients_at s gp + one_if (is_at gp c)
      unfolding add_client
      more gp = count-insert Key-discrete (is_at gp) k c s.registered_clients free

      higher : (gp : env.Principal) → count_at u gp ≡ count_at s gp + one_if (is_at gp c)
      unfolding add_client increment_gateway_clients_count
      higher gp = rw get-insert (
          raised (env.principal_discrete c.gateway_principal gp)
            (get env.principal_discrete gp s.registered_gateways)
            (get env.principal_discrete c.gateway_principal s.registered_gateways)
            (λ e. ap (λ p. get env.principal_discrete p s.registered_gateways) e)
            (omega (arith, h.counts gp, h.bounded gp)))

      pub add_client-IsCounted : IsCounted (suc n) u
      unfolding add_client increment_gateway_clients_count
      add_client-IsCounted = record {
        distinct = insert-IsDistinct Key-discrete k c s.registered_clients h.distinct;
        counts = λ gp. omega (arith, more gp, higher gp, h.counts gp);
        bounded = λ gp. omega (arith, more gp, h.bounded gp, at_most_one (is_at gp c));
        removable =
            All-entries {P = λ p. (c.gateway_principal ≢ p) × (clients_at s p ≡ 0)}
              (remove env.principal_discrete c.gateway_principal s.gateways_to_remove)
              (λ p e. more p ∙ rw (e.1, other_gateway c.gateway_principal p c refl e.0) refl)
              (All-remove (λ p. clients_at s p ≡ 0) c.gateway_principal s.gateways_to_remove
                h.removable);
      }
