-- ===== src/State/Registry/Rules.antt =====
-- Properties of the registrations of state.rs that the functions of the library keep: what such a
-- property must satisfy.
use ic_websocket_cdk_rs.Prelude.{
  ◌≡◌, refl, ◌∙◌, sym, ap, true, false, ◌⊎◌, inl, inr, get, is_some, Option-cases, arith, Option,
  none, some, subst, List, [], ◌∷◌, count, IsDistinct,
}
use ic_websocket_cdk_rs.Env.{Env, Key}
use ic_websocket_cdk_rs.State.{State, Key-discrete}
use ic_websocket_cdk_rs.Types.Gateway.{RegisteredGateway}
use ic_websocket_cdk_rs.State.Certification.{delete_keys_from_cert_tree}
use ic_websocket_cdk_rs.State.Sending.Same.{clients_count}
use ic_websocket_cdk_rs.State.Removal.{
  clear_maps, on_gateway_removed, remove_gateway, remove_gateways, remove_empty_expired_gateways,
  collect_expired, retain_unexpired,
}
use ic_websocket_cdk_rs.State.Registry.Counts.{is_at, clients_at, count_at, or_zero}
use ic_websocket_cdk_rs.State.Removal.Drop.{drop_client}
use ic_websocket_cdk_rs.State.Sending.Frame.{SameClients}
use ic_websocket_cdk_rs.State.Registry.{IsLinked, is_registered, current_key, set_contains}
use ic_websocket_cdk_rs.State.Registry.Changes.{IsAlone, drop_client-IsLinked}

module _ ⦃env : Env⦄ where
  -- The same clients with the same incoming numbers. Who is waited for newly is registered.
  pub record SameSessions (s t : State) : Type 0 where
    pub clients : (k : Key) → is_registered t k ≡ is_registered s k
    pub current : (p : env.Principal) → current_key t p ≡ current_key s p
    pub incoming :
        (k : Key)
        → get Key-discrete k t.incoming_message_from_client_num_map
          ≡ get Key-discrete k s.incoming_message_from_client_num_map
    pub outgoing :
        (k : Key)
        → is_some (get Key-discrete k t.outgoing_message_to_client_num_map)
          ≡ is_some (get Key-discrete k s.outgoing_message_to_client_num_map)
    pub waiting :
        (k : Key)
        → set_contains k t.clients_waiting_for_keep_alive ≡ true
        → (set_contains k s.clients_waiting_for_keep_alive ≡ true) ⊎ (is_registered s k ≡ true)

  -- And the same counts of clients.
  pub record SameRegistry (s t : State) : Type 0 where
    pub sessions : SameSessions s t
    pub distinct :
        IsDistinct Key-discrete s.registered_clients → IsDistinct Key-discrete t.registered_clients
    pub at : (gp : env.Principal) → clients_at t gp ≡ clients_at s gp
    pub counts : (gp : env.Principal) → count_at t gp ≡ count_at s gp
    pub removals : t.gateways_to_remove ≡ s.gateways_to_remove

  pub SameClients-SameRegistry : (s t : State) → SameClients s t → SameRegistry s t
  SameClients-SameRegistry s t h = record {
    sessions = record {
      clients = λ k. ap (λ m. is_some (get Key-discrete k m)) h.clients;
      current = λ p. ap (get env.principal_discrete p) h.current;
      incoming = λ k. ap (get Key-discrete k) h.incoming;
      outgoing = h.outgoing;
      waiting = λ k w. inl (sym (ap (set_contains k) h.waiting) ∙ w);
    };
    distinct = λ d. subst (IsDistinct Key-discrete) (sym h.clients) d;
    at = λ gp. ap (count (is_at gp)) h.clients;
    counts = λ gp. ap or_zero (h.counts gp);
    removals = h.removals;
  }

  -- A change of fields that say nothing of the connections.
  pub SameSessions-fields :
      (s t : State)
      → t.registered_clients ≡ s.registered_clients
      → t.current_client_key_map ≡ s.current_client_key_map
      → t.clients_waiting_for_keep_alive ≡ s.clients_waiting_for_keep_alive
      → t.outgoing_message_to_client_num_map ≡ s.outgoing_message_to_client_num_map
      → t.incoming_message_from_client_num_map ≡ s.incoming_message_from_client_num_map
      → SameSessions s t
  SameSessions-fields s t clients current waiting outgoing incoming = record {
    clients = λ k. ap (λ m. is_some (get Key-discrete k m)) clients;
    current = λ p. ap (get env.principal_discrete p) current;
    incoming = λ k. ap (get Key-discrete k) incoming;
    outgoing = λ k. ap (λ m. is_some (get Key-discrete k m)) outgoing;
    waiting = λ k w. inl (sym (ap (set_contains k) waiting) ∙ w);
  }

  pub SameRegistry-fields :
      (s t : State)
      → t.registered_clients ≡ s.registered_clients
      → t.registered_gateways ≡ s.registered_gateways
      → t.gateways_to_remove ≡ s.gateways_to_remove
      → SameSessions s t
      → SameRegistry s t
  SameRegistry-fields s t clients gateways removals h = record {
    sessions = h;
    distinct = λ d. subst (IsDistinct Key-discrete) (sym clients) d;
    at = λ gp. ap (count (is_at gp)) clients;
    counts = λ gp. ap (λ m. or_zero (clients_count (get env.principal_discrete gp m))) gateways;
    removals = removals;
  }

  -- A property of states that holds only where the registrations agree, and that is kept when the
  -- registry stays, when a client of `Drops` is dropped, when gateways expire, and when the maps are
  -- cleared after the last client.
  pub record IsKept (Drops : Key → Type 0) (P : State → Type 0) : Type 0 where
    pub linked : (s : State) → P s → IsLinked s
    pub same : (s t : State) → SameRegistry s t → P s → P t
    pub dropped : (s : State) (k : Key) → Drops k → P s → IsAlone s k → P (drop_client k s)
    pub expired : (s : State) → P s → P (remove_empty_expired_gateways s)
    pub cleared : (s : State) → ((k : Key) → is_registered s k ≡ false) → P s → P (clear_maps s)

  -- The removal of gateways ends no session.
  on_gateway_removed-SameSessions :
      (gp : env.Principal) (o : Option (RegisteredGateway env.Principal)) (s : State)
      → SameSessions s (on_gateway_removed gp o s)
  unfolding delete_keys_from_cert_tree
  on_gateway_removed-SameSessions gp none s = SameSessions-fields s _ refl refl refl refl refl
  on_gateway_removed-SameSessions gp (some g) s = SameSessions-fields s _ refl refl refl refl refl

  pub IsLinked-SameSessions : (s t : State) → SameSessions s t → IsLinked s → IsLinked t
  IsLinked-SameSessions s t e h = record {
    owned = λ p k c. h.owned p k (sym (e.current p) ∙ c);
    registered = λ p k c. e.clients k ∙ h.registered p k (sym (e.current p) ∙ c);
    current = λ k r. e.current k.client_principal ∙ h.current k (sym (e.clients k) ∙ r);
    outgoing = λ k. e.outgoing k ∙ h.outgoing k ∙ sym (e.clients k);
    incoming = λ k. ap is_some (e.incoming k) ∙ h.incoming k ∙ sym (e.clients k);
    waiting = λ k w. e.clients k ∙ elim (e.waiting k w) [ inl x ↦ h.waiting k x | inr r ↦ r ];
  }

  -- Where nobody is registered, the clearing of the maps ends no session.
  clear_maps-SameSessions :
      (s : State)
      → IsLinked s
      → ((k : Key) → is_registered s k ≡ false)
      → SameSessions s (clear_maps s)
  unfolding clear_maps get set_contains
  clear_maps-SameSessions s h nobody = record {
    clients = λ k. refl;
    current = λ p. elim (Option-cases (current_key s p)) [
      | inl e ↦ sym e
      | inr (k, e) ↦ let r = h.registered p k e in absurd (ground (arith, nobody k))
    ];
    incoming = λ k.
        elim (Option-cases (get Key-discrete k s.incoming_message_from_client_num_map)) [
          | inl e ↦ sym e
          | inr (n, e) ↦
              let r : is_registered s k ≡ true = sym (h.incoming k) ∙ ap is_some e in
              absurd (ground (arith, nobody k))
        ];
    outgoing = λ k. sym (h.outgoing k ∙ nobody k);
    waiting = λ k w. absurd (ground arith);
  }

  -- A property of the sessions alone.
  module _ {Drops : Key → Type 0} {P : State → Type 0} (linked : (s : State) → P s → IsLinked s)
      (same : (s t : State) → SameSessions s t → P s → P t)
      (dropped : (s : State) (k : Key) → Drops k → P s → IsAlone s k → P (drop_client k s)) where
    remove_gateways-keeps : (gps : List env.Principal) (s : State) → P s → P (remove_gateways gps s)
    unfolding remove_gateways remove_gateway
    remove_gateways-keeps [] s h = h
    remove_gateways-keeps (gp ∷ gps) s h = remove_gateways-keeps gps (remove_gateway gp s) (
        same s _
          (on_gateway_removed-SameSessions gp (get env.principal_discrete gp s.registered_gateways)
            s)
          h)

    expired-keeps : (s : State) → P s → P (remove_empty_expired_gateways s)
    unfolding remove_empty_expired_gateways
    expired-keeps s h =
        let interval = s.params.send_ack_interval_ms in
        let visited = env.hash_order s.gateways_to_remove in
        let t : State = record s {
          gateways_to_remove = retain_unexpired s.time interval visited;
        } in
        remove_gateways-keeps (collect_expired s.time interval visited) t
          (same s t (SameSessions-fields s t refl refl refl refl refl) h)

    pub sessions-IsKept : IsKept Drops P
    sessions-IsKept = record {
      linked = linked;
      same = λ s t e h. same s t e.sessions h;
      dropped = dropped;
      expired = expired-keeps;
      cleared = λ s nobody h. same s _ (clear_maps-SameSessions s (linked s h) nobody) h;
    }

  pub IsLinked-IsKept : IsKept (λ k. Unit) IsLinked
  IsLinked-IsKept =
      sessions-IsKept (λ s h. h) IsLinked-SameSessions
        (λ s k _ h alone. drop_client-IsLinked s k h alone)
