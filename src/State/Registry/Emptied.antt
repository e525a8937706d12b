-- ===== src/State/Registry/Emptied.antt =====
-- `reset_internal_state` of state.rs: it visits every client, and leaves nobody registered.
use mathlib.Core.List.Perm
use mathlib.Core.List.{
  Mem, not-mem-nil, mem-cons_self, mem-cons_of_mem, eq-or-mem_of_mem-cons, mem-cast,
}
use mathlib.Core.Logic.Or
use ic_websocket_cdk_rs.Prelude.{
  ◌≡◌, refl, ◌∙◌, sym, ap, true, false, Option, none, List, [], ◌∷◌, arith, get, is_some, ite, keys,
  Map, if_neg, Bool-cases, inl, inr, Text,
}
use ic_websocket_cdk_rs.Types.Messages.{CloseMessageReason}
use ic_websocket_cdk_rs.Env.{Env, Key}
use ic_websocket_cdk_rs.State.{State, Key-discrete}
use ic_websocket_cdk_rs.State.Relates.{Holds, Holds-map}
use ic_websocket_cdk_rs.State.Removal.{
  remove_client, remove_clients, clear_maps, reset_internal_state,
}
use ic_websocket_cdk_rs.State.Sending.Frame.{SameClients}
use ic_websocket_cdk_rs.State.Removal.Drop.{drop_client, remove_client-Holds}
use ic_websocket_cdk_rs.State.Removal.NoErrors.{
  Holds-then, Leaves, Leaves-then, remove_client-NoError, remove_clients-NoError,
}
use ic_websocket_cdk_rs.State.Registry.{is_registered, current_key, set_contains}
use ic_websocket_cdk_rs.State.Registry.Changes.{dropped-registered}

module _ ⦃env : Env⦄ where
  set_contains-of_Mem : (k : Key) (xs : List Key) → Mem k xs → set_contains k xs ≡ true
  unfolding set_contains
  set_contains-of_Mem k [] m = absurd (not-mem-nil m)
  set_contains-of_Mem k (x ∷ xs) m =
      let p : IsProp (set_contains k (x ∷ xs) ≡ true) = hlevel in
      Or.elim p (eq-or-mem_of_mem-cons m) (λ e. ground (arith, e))
        (λ rest. ground (arith, set_contains-of_Mem k xs rest))

  pub set_contains-cons :
      (j k : Key) (ks : List Key)
      → set_contains j (k ∷ ks) ≡ ite (Key-discrete k j) true (set_contains j ks)
  unfolding set_contains
  set_contains-cons j k ks = refl

  Mem-of_set_contains : (k : Key) (xs : List Key) → set_contains k xs ≡ true → Mem k xs
  unfolding set_contains
  Mem-of_set_contains k [] h = absurd (ground arith)
  Mem-of_set_contains k (x ∷ xs) h = elim (Key-discrete x k) [
    | yes e ↦ mem-cast (sym e) mem-cons_self
    | no n ↦
        mem-cons_of_mem x (Mem-of_set_contains k xs (sym (if_neg (Key-discrete x k) n _ _) ∙ h))
  ]

  -- The visit of a set meets every element.
  set_contains-hash_order :
      (k : Key) (xs : List Key)
      → set_contains k xs ≡ true
      → set_contains k (env.hash_order xs) ≡ true
  set_contains-hash_order k xs h =
      set_contains-of_Mem k (env.hash_order xs)
        ((Perm.mem_iff (env.hash_order-perm xs)).1 (Mem-of_set_contains k xs h))

  pub contains-hash_order :
      (k : Key) (xs : List Key) → set_contains k (env.hash_order xs) ≡ set_contains k xs
  contains-hash_order k xs = elim (Bool-cases (set_contains k xs)) [
    | inl e ↦ set_contains-hash_order k xs e ∙ sym e
    | inr e ↦ elim (Bool-cases (set_contains k (env.hash_order xs))) [
      | inl f ↦
          f
          ∙ sym (
              set_contains-of_Mem k xs (
                (Perm.mem_iff (env.hash_order-perm xs)).0
                  (Mem-of_set_contains k (env.hash_order xs) f)))
      | inr f ↦ f ∙ sym e
    ]
  ]

  pub set_contains-keys :
      {V : Type 0} (k : Key) (m : Map Key V)
      → is_some (get Key-discrete k m) ≡ true
      → set_contains k (keys m) ≡ true
  unfolding set_contains get
  set_contains-keys k [] h = absurd (ground arith)
  set_contains-keys k ((j, v) ∷ m) h = ground (arith, set_contains-keys k m)

  pub registered-of_set_contains :
      {V : Type 0} (k : Key) (m : Map Key V)
      → set_contains k (keys m) ≡ true
      → is_some (get Key-discrete k m) ≡ true
  unfolding set_contains get
  registered-of_set_contains k [] h = absurd (ground arith)
  registered-of_set_contains k ((j, v) ∷ m) h = ground (arith, registered-of_set_contains k m)

  -- Only clients of the list are registered.
  abbrev pub IsWithin : List Key → State → Type 0
  IsWithin ks s = (j : Key) → is_registered s j ≡ true → set_contains j ks ≡ true

  pub remove_clients-IsWithin :
      (ks : List Key) (reason : Option CloseMessageReason) (s : State)
      → IsWithin ks s
      → Holds (IsWithin []) (remove_clients ks reason s)
  unfolding remove_clients
  remove_clients-IsWithin [] reason s h = h
  remove_clients-IsWithin (k ∷ ks) reason s h =
      Holds-then {P = IsWithin ks} (IsWithin []) (remove_client k reason s) _
        (remove_client-NoError k reason s)
        (Holds-map (remove_client k reason s) (λ t d j r. within_rest j (sym (d_reg t d j) ∙ r))
          (remove_client-Holds k reason s))
        (λ t w. remove_clients-IsWithin ks reason t w)
    where
      d_reg :
          (t : State)
          → SameClients (drop_client k s) t
          → (j : Key) → is_registered t j ≡ is_registered (drop_client k s) j
      d_reg t d j = ap (λ m. is_some (get Key-discrete j m)) d.clients

      within_rest : (j : Key) → is_registered (drop_client k s) j ≡ true → set_contains j ks ≡ true
      within_rest j r = ground (arith, dropped-registered s k j, h j, set_contains-cons j k ks)

  -- The clients that are visited first by `reset_internal_state` are all that are registered.
  pub visited-IsWithin : (s : State) → IsWithin (env.hash_order (keys s.registered_clients)) s
  visited-IsWithin s j r =
      set_contains-hash_order j (keys s.registered_clients)
        (set_contains-keys j s.registered_clients r)

  -- Nothing is left of a client, and of a gateway.
  pub record IsEmptied (s : State) : Type 0 where
    pub no_client : (k : Key) → is_registered s k ≡ false
    pub no_key : (p : env.Principal) → current_key s p ≡ none
    pub no_outgoing : s.outgoing_message_to_client_num_map ≡ []
    pub no_incoming : s.incoming_message_from_client_num_map ≡ []
    pub no_waiting : s.clients_waiting_for_keep_alive ≡ []
    pub no_gateway : s.registered_gateways ≡ []
    pub no_gateway_to_remove : s.gateways_to_remove ≡ []
    pub no_message : (key : Text) → env.tree_get key s.cert_tree ≡ none

  clear_maps-IsEmptied : (s : State) → IsWithin [] s → IsEmptied (clear_maps s)
  unfolding clear_maps get set_contains
  clear_maps-IsEmptied s w = record {
    no_client = λ k. elim (Bool-cases (is_registered s k)) [
      | inl r ↦ absurd (ground (arith, w k r))
      | inr r ↦ r
    ];
    no_key = λ p. refl;
    no_outgoing = refl;
    no_incoming = refl;
    no_waiting = refl;
    no_gateway = refl;
    no_gateway_to_remove = refl;
    no_message = env.get-new;
  }

  pub reset_internal_state-IsEmptied : (s : State) → Leaves IsEmptied (reset_internal_state s)
  unfolding reset_internal_state
  reset_internal_state-IsEmptied s =
      let ks = env.hash_order (keys s.registered_clients) in
      Leaves-then IsEmptied (remove_clients ks none s) clear_maps (remove_clients-NoError ks none s)
        (remove_clients-IsWithin ks none s (visited-IsWithin s)) clear_maps-IsEmptied
