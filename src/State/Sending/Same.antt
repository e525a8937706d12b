-- ===== src/State/Sending/Same.antt =====
-- Two states of state.rs with the same registrations: what a send leaves alone.
use ic_websocket_cdk_rs.Prelude.{
  ℕ, ◌≡◌, refl, ◌∙◌, Option, none, some, Bytes, Map, arith, get, update, is_some, get-update,
  get-update_hit, Option-cases, inl, inr,
}
use ic_websocket_cdk_rs.Types.Gateway.{RegisteredGateway}
use ic_websocket_cdk_rs.Env.{Env, Key}
use ic_websocket_cdk_rs.State.{State, Key-discrete}
use ic_websocket_cdk_rs.State.Relates.{IsPreorder}

module _ ⦃env : Env⦄ where
  abbrev pub clients_count : Option (RegisteredGateway env.Principal) → Option ℕ
  clients_count none = none
  clients_count (some g) = some g.connected_clients_count

  -- The same registrations: the clients, the principals' keys, the counts of the gateways' clients.
  pub record SameClients (s t : State) : Type 0 where
    pub clients : t.registered_clients ≡ s.registered_clients
    pub current : t.current_client_key_map ≡ s.current_client_key_map
    pub waiting : t.clients_waiting_for_keep_alive ≡ s.clients_waiting_for_keep_alive
    pub incoming : t.incoming_message_from_client_num_map ≡ s.incoming_message_from_client_num_map
    pub removals : t.gateways_to_remove ≡ s.gateways_to_remove
    pub params : t.params ≡ s.params
    pub time : t.time ≡ s.time
    pub outgoing :
        (k : Key)
        → is_some (get Key-discrete k t.outgoing_message_to_client_num_map)
          ≡ is_some (get Key-discrete k s.outgoing_message_to_client_num_map)
    pub counts :
        (p : env.Principal)
        → clients_count (get env.principal_discrete p t.registered_gateways)
          ≡ clients_count (get env.principal_discrete p s.registered_gateways)

  pub SameClients-IsPreorder : IsPreorder SameClients
  SameClients-IsPreorder = record {
    reflexive = λ s. record {
      clients = refl;
      current = refl;
      waiting = refl;
      incoming = refl;
      removals = refl;
      params = refl;
      time = refl;
      outgoing = λ k. refl;
      counts = λ p. refl;
    };
    transitive = λ s t u a b. record {
      clients = b.clients ∙ a.clients;
      current = b.current ∙ a.current;
      waiting = b.waiting ∙ a.waiting;
      incoming = b.incoming ∙ a.incoming;
      removals = b.removals ∙ a.removals;
      params = b.params ∙ a.params;
      time = b.time ∙ a.time;
      outgoing = λ k. b.outgoing k ∙ a.outgoing k;
      counts = λ p. b.counts p ∙ a.counts p;
    };
  }

  -- A write to gateways that keeps each count.
  pub counts-update :
      (f : RegisteredGateway env.Principal → RegisteredGateway env.Principal) (g p : env.Principal)
      (m : Map env.Principal (RegisteredGateway env.Principal))
      → ((x : RegisteredGateway env.Principal)
          → get env.principal_discrete g m ≡ some x
          → (f x).connected_clients_count ≡ x.connected_clients_count)
      → clients_count (get env.principal_discrete p (update env.principal_discrete g f m))
        ≡ clients_count (get env.principal_discrete p m)
  counts-update f g p m h = elim (Option-cases (get env.principal_discrete g m)) [
    | inl e ↦ rw get-update (ground (arith, e))
    | inr (x, e) ↦ rw (get-update_hit _ g p f m e) (ground (arith, e, h x e))
  ]

  pub same : (s : State) → SameClients s s
  same = SameClients-IsPreorder.reflexive

  -- New gateways with the old counts, new numbers for the old keys, any tree.
  module _ (s : State) (gateways : Map env.Principal (RegisteredGateway env.Principal))
      (nums : Map Key ℕ) (tree : env.RbTree) (root : Bytes)
      (counts : (p : env.Principal)
        → clients_count (get env.principal_discrete p gateways)
          ≡ clients_count (get env.principal_discrete p s.registered_gateways))
      (outgoing : (k : Key)
        → is_some (get Key-discrete k nums)
          ≡ is_some (get Key-discrete k s.outgoing_message_to_client_num_map)) where
    pub rewritten : SameClients s (record s {
      registered_gateways = gateways;
      outgoing_message_to_client_num_map = nums;
      cert_tree = tree;
      certified_data = root;
    })
    rewritten = record {
      clients = refl;
      current = refl;
      waiting = refl;
      incoming = refl;
      removals = refl;
      params = refl;
      time = refl;
      outgoing = outgoing;
      counts = counts;
    }

  pub app-SameClients : (s : State) (a : env.App) → SameClients s (record s { app = a })
  app-SameClients s a = record {
    clients = refl;
    current = refl;
    waiting = refl;
    incoming = refl;
    removals = refl;
    params = refl;
    time = refl;
    outgoing = λ k. refl;
    counts = λ p. refl;
  }
