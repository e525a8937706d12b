-- ===== src/State/Registry/Changes.antt =====
-- How `add_client` and `remove_client` of state.rs change the registrations, and why they still
-- agree.
use ic_websocket_cdk_rs.Prelude.{
  ◌≡◌, refl, true, false, Option, none, some, arith, get, get-insert, get-remove, ite, Option-cases,
  inl, inr,
}
use ic_websocket_cdk_rs.Constants.{initial_canister_sequence_num, initial_client_sequence_num}
use ic_websocket_cdk_rs.Types.Gateway.{RegisteredClient}
use ic_websocket_cdk_rs.Env.{Env, Key}
use ic_websocket_cdk_rs.State.{State, Key-discrete}
use ic_websocket_cdk_rs.State.Gateways.{decrement_gateway_clients_count}
use ic_websocket_cdk_rs.State.Clients.{add_client}
use ic_websocket_cdk_rs.State.Removal.{forget_client}
use ic_websocket_cdk_rs.State.Removal.Drop.{drop_client, taken}
use ic_websocket_cdk_rs.State.Registry.{
  IsLinked, is_registered, current_key, set_contains, set_contains-set_remove,
}

module _ ⦃env : Env⦄ where
  -- No other client of the same principal is connected.
  abbrev pub IsAlone : State → Key → Type 0
  IsAlone s k = (j : Key) → current_key s k.client_principal ≡ some j → j ≡ k

  pub registered-IsAlone :
      (s : State) (k : Key) → IsLinked s → is_registered s k ≡ true → IsAlone s k
  registered-IsAlone s k h r j e = let c = h.current k r in cc

  -- `taken` touches the registered clients and the gateways only.
  module _ (k : Key) (s : State) where
    taken-current :
        (o : Option (RegisteredClient env.Principal))
        → (taken k o s).current_client_key_map ≡ s.current_client_key_map
    unfolding decrement_gateway_clients_count
    taken-current none = refl
    taken-current (some c) = refl

    taken-outgoing :
        (o : Option (RegisteredClient env.Principal))
        → (taken k o s).outgoing_message_to_client_num_map ≡ s.outgoing_message_to_client_num_map
    unfolding decrement_gateway_clients_count
    taken-outgoing none = refl
    taken-outgoing (some c) = refl

    taken-incoming :
        (o : Option (RegisteredClient env.Principal))
        → (taken k o s).incoming_message_from_client_num_map
          ≡ s.incoming_message_from_client_num_map
    unfolding decrement_gateway_clients_count
    taken-incoming none = refl
    taken-incoming (some c) = refl

    taken-waiting :
        (o : Option (RegisteredClient env.Principal))
        → (taken k o s).clients_waiting_for_keep_alive ≡ s.clients_waiting_for_keep_alive
    unfolding decrement_gateway_clients_count
    taken-waiting none = refl
    taken-waiting (some c) = refl

  module _ (s : State) (k : Key) where
    pub dropped-registered :
        (j : Key)
        → is_registered (drop_client k s) j ≡ ite (Key-discrete k j) false (is_registered s j)
    unfolding drop_client forget_client decrement_gateway_clients_count
    dropped-registered j = elim (Option-cases (get Key-discrete k s.registered_clients)) [
      | inl e ↦ rw (e, taken) (ground (arith, e))
      | inr (c, e) ↦ rw (e, taken, get-remove) (ground arith)
    ]

    pub dropped-current :
        (p : env.Principal)
        → current_key (drop_client k s) p
          ≡ ite (env.principal_discrete k.client_principal p) none (current_key s p)
    unfolding drop_client forget_client
    dropped-current p = rw (taken-current, get-remove)

    dropped-outgoing :
        (j : Key)
        → get Key-discrete j (drop_client k s).outgoing_message_to_client_num_map
          ≡ ite (Key-discrete k j) none (get Key-discrete j s.outgoing_message_to_client_num_map)
    unfolding drop_client forget_client
    dropped-outgoing j = rw (taken-outgoing, get-remove)

    pub dropped-incoming :
        (j : Key)
        → get Key-discrete j (drop_client k s).incoming_message_from_client_num_map
          ≡ ite (Key-discrete k j) none (get Key-discrete j s.incoming_message_from_client_num_map)
    unfolding drop_client forget_client
    dropped-incoming j = rw (taken-incoming, get-remove)

    dropped-waiting :
        (j : Key)
        → set_contains j (drop_client k s).clients_waiting_for_keep_alive
          ≡ ite (Key-discrete k j) false (set_contains j s.clients_waiting_for_keep_alive)
    unfolding drop_client forget_client
    dropped-waiting j = rw (taken-waiting, set_contains-set_remove)

    -- The registrations without a client that is alone still agree.
    pub drop_client-IsLinked : IsLinked s → IsAlone s k → IsLinked (drop_client k s)
    drop_client-IsLinked h alone = record {
      owned = λ p j c. h.owned p j (ground (arith, dropped-current p));
      registered = λ p j c.
          ground (arith, dropped-current p, dropped-registered j, h.registered p j, h.owned p j);
      current = λ j r.
          ground
            (arith, dropped-current j.client_principal, dropped-registered j, h.current j, alone j);
      outgoing = λ j. ground (arith, dropped-outgoing j, dropped-registered j, h.outgoing j);
      incoming = λ j. ground (arith, dropped-incoming j, dropped-registered j, h.incoming j);
      waiting = λ j w. ground (arith, dropped-waiting j, dropped-registered j, h.waiting j);
    }

  module _ (s : State) (k : Key) (c : RegisteredClient env.Principal) where
    pub added-registered :
        (j : Key)
        → get Key-discrete j (add_client k c s).registered_clients
          ≡ ite (Key-discrete k j) (some c) (get Key-discrete j s.registered_clients)
    unfolding add_client
    added-registered j = get-insert Key-discrete k j c s.registered_clients

    pub added-current :
        (p : env.Principal)
        → current_key (add_client k c s) p
          ≡ ite (env.principal_discrete k.client_principal p) (some k) (current_key s p)
    unfolding add_client
    added-current p =
        get-insert env.principal_discrete k.client_principal p k s.current_client_key_map

    pub added-outgoing :
        (j : Key)
        → get Key-discrete j (add_client k c s).outgoing_message_to_client_num_map
          ≡ ite
              (Key-discrete k j)
              (some initial_canister_sequence_num)
              (get Key-discrete j s.outgoing_message_to_client_num_map)
    unfolding add_client
    added-outgoing j = get-insert Key-discrete k j _ s.outgoing_message_to_client_num_map

    pub added-incoming :
        (j : Key)
        → get Key-discrete j (add_client k c s).incoming_message_from_client_num_map
          ≡ ite
              (Key-discrete k j)
              (some initial_client_sequence_num)
              (get Key-discrete j s.incoming_message_from_client_num_map)
    unfolding add_client
    added-incoming j = get-insert Key-discrete k j _ s.incoming_message_from_client_num_map

    added-waiting :
        (add_client k c s).clients_waiting_for_keep_alive ≡ s.clients_waiting_for_keep_alive
    unfolding add_client
    added-waiting = refl

    -- A new client of a principal that is not connected leaves the registrations in agreement.
    pub add_client-IsLinked :
        IsLinked s → current_key s k.client_principal ≡ none → IsLinked (add_client k c s)
    add_client-IsLinked h free = record {
      owned = λ p j e. ground (arith, added-current p, h.owned p j);
      registered = λ p j e. ground (arith, added-current p, added-registered j, h.registered p j);
      current = λ j r.
          ground (arith, added-current j.client_principal, added-registered j, h.current j, free);
      outgoing = λ j. ground (arith, added-outgoing j, added-registered j, h.outgoing j);
      incoming = λ j. ground (arith, added-incoming j, added-registered j, h.incoming j);
      waiting = λ j w. ground (arith, added-waiting, added-registered j, h.waiting j);
    }
