-- ===== src/State/Queues/Counted.antt =====
-- The counts of the gateways' clients of state.rs, `add_client` and the removal of a client without
-- a close message: the queues stay in order and certified.
use ic_websocket_cdk_rs.Prelude.{
  ℕ, length, ◌≤◌, ap, ◌<◌, ◌≡◌, refl, sym, ◌∙◌, subst, ◌⊎◌, inl, inr, Option, none, some, arith,
  u64_mod, get, remove, update, get-insert, if_pos, if_neg,
}
use ic_websocket_cdk_rs.Types.Gateway.{
  RegisteredGateway, RegisteredClient, new_gateway, increment_clients_count,
  decrement_clients_count,
}
use ic_websocket_cdk_rs.Env.{Env, Key}
use ic_websocket_cdk_rs.State.{State, Key-discrete, ok}
use ic_websocket_cdk_rs.State.Gateways.{
  or_new_gateway, increment_gateway_clients_count, decrement_gateway_clients_count,
}
use ic_websocket_cdk_rs.State.Clients.{
  add_client, insert_client, init_outgoing_message_to_client_num,
  init_expected_incoming_message_from_client_num,
}
use ic_websocket_cdk_rs.State.Relates.{Holds}
use ic_websocket_cdk_rs.State.Removal.{
  remove_client, forget_client, take_registered_client, on_removed, call_on_close,
}
use ic_websocket_cdk_rs.State.Removal.Drop.{drop_client, taken}
use ic_websocket_cdk_rs.State.Queues.{IsOrdered}
use ic_websocket_cdk_rs.State.Queues.Raised.{IsSound, entry_before}

module _ ⦃env : Env⦄ where
  -- The same queue, with its timestamps and its nonce.
  record SameQueue (g h : RegisteredGateway env.Principal) : Type 0 where
    queue : h.messages_queue ≡ g.messages_queue
    timestamps : h.messages_to_delete ≡ g.messages_to_delete
    nonce : h.outgoing_message_nonce ≡ g.outgoing_message_nonce

  -- The entry of a gateway that is new, or whose queue was there before.
  abbrev ComesFrom : State → env.Principal → RegisteredGateway env.Principal → Type 0
  ComesFrom s p x =
      ((y : RegisteredGateway env.Principal) × (get env.principal_discrete p s.registered_gateways
          ≡ some y)
        × SameQueue y x)
      ⊎ SameQueue new_gateway x

  record SameQueues (s t : State) : Type 0 where
    tree : t.cert_tree ≡ s.cert_tree
    root : t.certified_data ≡ s.certified_data
    entries :
        (p : env.Principal) (x : RegisteredGateway env.Principal)
        → get env.principal_discrete p t.registered_gateways ≡ some x
        → ComesFrom s p x

  SameQueue-IsOrdered :
      (p : env.Principal) (y x : RegisteredGateway env.Principal)
      → SameQueue y x
      → IsOrdered p y
      → IsOrdered p x
  SameQueue-IsOrdered p y x e o = record {
    aligned = rw (e.queue, e.timestamps) (o.aligned);
    numbered = rw (e.queue, e.nonce) (o.numbered);
    bounded = omega (arith, e.nonce, o.bounded);
  }

  new-IsOrdered : (p : env.Principal) → IsOrdered p new_gateway
  unfolding new_gateway
  new-IsOrdered p = record { aligned = refl; numbered = omega arith; bounded = omega arith }

  SameQueues-IsSound :
      (n : ℕ) (s t : State) → n < u64_mod → SameQueues s t → IsSound n s → IsSound n t
  unfolding new_gateway
  SameQueues-IsSound n s t small e (inv, room) = (
    record {
      ordered = λ p x h. elim (e.entries p x h) [
        | inl (y, at, q) ↦ SameQueue-IsOrdered p y x q (inv.ordered p y at)
        | inr q ↦ SameQueue-IsOrdered p new_gateway x q (new-IsOrdered p)
      ];
      covered = λ p x h. elim (e.entries p x h) [
        | inl (y, at, q) ↦ rw (q.queue, e.tree) (inv.covered p y at)
        | inr q ↦ rw (q.queue) tt
      ];
      current = λ (p, x, h, queued). elim (e.entries p x h) [
        | inl (y, at, q) ↦
            rw (e.root, e.tree) (inv.current (p, y, at, subst (λ z. 1 ≤ length z) q.queue queued))
        | inr q ↦ absurd (omega (arith, ap length q.queue, queued))
      ];
    },
    λ p x h. elim (e.entries p x h) [
      | inl (y, at, q) ↦ omega (arith, q.nonce, room p y at)
      | inr q ↦ omega (arith, q.nonce, small)
    ],
  )

  updated-ComesFrom :
      (gp p : env.Principal) (f : RegisteredGateway env.Principal → RegisteredGateway env.Principal)
      (s : State) (x : RegisteredGateway env.Principal)
      → ((g : RegisteredGateway env.Principal) → SameQueue g (f g))
      → get env.principal_discrete p (update env.principal_discrete gp f s.registered_gateways)
        ≡ some x
      → ComesFrom s p x
  updated-ComesFrom gp p f s x same h =
      let (y, e, o) = entry_before gp p f s.registered_gateways x h in
      inl (
        y,
        e,
        elim o [
          | inl q ↦
              subst (SameQueue y) (sym q) (record { queue = refl; timestamps = refl; nonce = refl })
          | inr q ↦ subst (SameQueue y) (sym q) (same y)
        ],
      )

  decremented-SameQueues :
      (gp : env.Principal) (s : State) → SameQueues s (decrement_gateway_clients_count gp s)
  unfolding decrement_gateway_clients_count decrement_clients_count
  decremented-SameQueues gp s = record {
    tree = refl;
    root = refl;
    entries = λ p x h.
        updated-ComesFrom gp p decrement_clients_count s x
          (λ g. record { queue = refl; timestamps = refl; nonce = refl }) h;
  }

  incremented-ComesFrom :
      (gp : env.Principal) (s : State) (o : Option (RegisteredGateway env.Principal))
      → get env.principal_discrete gp s.registered_gateways ≡ o
      → ComesFrom s gp (increment_clients_count (or_new_gateway o))
  unfolding increment_clients_count
  incremented-ComesFrom gp s none e = inr (record { queue = refl; timestamps = refl; nonce = refl })
  incremented-ComesFrom gp s (some g) e =
      inl (g, e, record { queue = refl; timestamps = refl; nonce = refl })

  added-SameQueues :
      (k : Key) (c : RegisteredClient env.Principal) (s : State) → SameQueues s (add_client k c s)
  unfolding add_client increment_gateway_clients_count insert_client
      init_outgoing_message_to_client_num init_expected_incoming_message_from_client_num
  added-SameQueues k c s = record {
    tree = refl;
    root = refl;
    entries = λ p x h.
        let gp = c.gateway_principal in
        let new =
          increment_clients_count
            (or_new_gateway (get env.principal_discrete gp s.registered_gateways)) in
        let e = sym (get-insert env.principal_discrete gp p new s.registered_gateways) ∙ h in
        elim (env.principal_discrete gp p) [
          | yes q ↦
              let found : some new ≡ some x =
                sym (if_pos (env.principal_discrete gp p) q _ _) ∙ e in
              subst (λ j. ComesFrom s j x) q
                (subst (ComesFrom s gp) (ground (arith, found)) (
                  incremented-ComesFrom gp s (get env.principal_discrete gp s.registered_gateways)
                    refl))
          | no n ↦ inl (
            x,
            sym (if_neg (env.principal_discrete gp p) n _ _) ∙ e,
            record { queue = refl; timestamps = refl; nonce = refl },
          )
        ];
  }

  pub add_client-IsSound :
      (n : ℕ) (k : Key) (c : RegisteredClient env.Principal) (s : State)
      → n < u64_mod
      → IsSound n s
      → IsSound n (add_client k c s)
  add_client-IsSound n k c s small h =
      SameQueues-IsSound n s (add_client k c s) small (added-SameQueues k c s) h

  pub forgotten-IsSound :
      (n : ℕ) (k : Key) (s : State) → IsSound n s → IsSound n (forget_client k s)
  unfolding forget_client
  forgotten-IsSound n k s (inv, room) =
      (record { ordered = inv.ordered; covered = inv.covered; current = inv.current }, room)

  -- The client is taken out of the registered ones, and its gateway counts one fewer.
  pub unregistered-IsSound :
      (n : ℕ) (k : Key) (c : RegisteredClient env.Principal) (s : State)
      → n < u64_mod
      → IsSound n s
      → IsSound n (
          decrement_gateway_clients_count c.gateway_principal
            (record s { registered_clients = remove Key-discrete k s.registered_clients }))
  unregistered-IsSound n k c s small (inv, room) =
      let t = record s { registered_clients = remove Key-discrete k s.registered_clients } in
      SameQueues-IsSound n t (decrement_gateway_clients_count c.gateway_principal t) small
        (decremented-SameQueues c.gateway_principal t)
        (record { ordered = inv.ordered; covered = inv.covered; current = inv.current }, room)

  taken-IsSound :
      (n : ℕ) (k : Key) (o : Option (RegisteredClient env.Principal)) (s : State)
      → n < u64_mod
      → IsSound n s
      → IsSound n (taken k o s)
  taken-IsSound n k none s small h = h
  taken-IsSound n k (some c) s small h = unregistered-IsSound n k c s small h

  drop_client-IsSound :
      (n : ℕ) (k : Key) (s : State) → n < u64_mod → IsSound n s → IsSound n (drop_client k s)
  unfolding drop_client
  drop_client-IsSound n k s small h =
      taken-IsSound n k (get Key-discrete k s.registered_clients) (forget_client k s) small
        (forgotten-IsSound n k s h)

  taken_lem :
      (k : Key) (o : Option (RegisteredClient env.Principal)) (s : State)
      → s.params.handlers.on_close ≡ none
      → on_removed k o s ≡ ok tt (taken k o s)
  unfolding call_on_close decrement_gateway_clients_count
  taken_lem k none s e = refl
  taken_lem k (some c) s e = rw e

  -- Without a close message and a callback, only the maps change.
  pub remove_client-IsSound :
      (n : ℕ) (k : Key) (s : State)
      → n < u64_mod
      → s.params.handlers.on_close ≡ none
      → IsSound n s
      → Holds (IsSound n) (remove_client k none s)
  unfolding remove_client take_registered_client drop_client forget_client
  remove_client-IsSound n k s small e h =
      rw (taken_lem k (get Key-discrete k s.registered_clients) (forget_client k s) e)
        (drop_client-IsSound n k s small h)
