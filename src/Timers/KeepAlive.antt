-- ===== src/Timers/KeepAlive.antt =====
-- `check_keep_alive_timer_callback` of timers.rs: which clients it removes.
use ic_websocket_cdk_rs.Prelude.{
  ℕ, ltb, sub64, ◌≡◌, refl, ◌∙◌, sym, ap, Bool, true, false, Option, none, some, List, [], ◌∷◌,
  arith, get, if◌then◌else◌, Bool-cases, inl, inr, if_pos, if_neg,
}
use ic_websocket_cdk_rs.Types.Messages.{keep_alive_timeout}
use ic_websocket_cdk_rs.Env.{Env, Key}
use ic_websocket_cdk_rs.State.{State, Key-discrete}
use ic_websocket_cdk_rs.State.Removal.{
  remove_clients, on_gateway_removed, remove_gateway, remove_gateways,
  remove_empty_expired_gateways, collect_expired, retain_unexpired,
}
use ic_websocket_cdk_rs.State.Certification.{delete_keys_from_cert_tree}
use ic_websocket_cdk_rs.State.Removal.NoErrors.{Leaves, Leaves-map}
use ic_websocket_cdk_rs.State.Registry.{is_registered, set_contains}
use ic_websocket_cdk_rs.State.Registry.Emptied.{contains-hash_order}
use ic_websocket_cdk_rs.State.Registry.Removed.{remove_clients-registered}
use ic_websocket_cdk_rs.Types.Gateway.{RegisteredGateway, RegisteredClient}
use ic_websocket_cdk_rs.Timers.{has_timed_out, timed_out_clients, check_keep_alive_timer_callback}

module _ ⦃env : Env⦄ where
  -- The removal of gateways leaves the clients, the clients that are waited for, and the time.
  pub record SameWaiting (s t : State) : Type 0 where
    pub clients : t.registered_clients ≡ s.registered_clients
    pub waiting : t.clients_waiting_for_keep_alive ≡ s.clients_waiting_for_keep_alive
    pub time : t.time ≡ s.time

  on_gateway_removed-SameWaiting :
      (gp : env.Principal) (o : Option (RegisteredGateway env.Principal)) (s : State)
      → SameWaiting s (on_gateway_removed gp o s)
  unfolding delete_keys_from_cert_tree
  on_gateway_removed-SameWaiting gp none s = record { clients = refl; waiting = refl; time = refl }
  on_gateway_removed-SameWaiting gp (some g) s = record {
    clients = refl;
    waiting = refl;
    time = refl;
  }

  remove_gateways-SameWaiting :
      (gps : List env.Principal) (s : State) → SameWaiting s (remove_gateways gps s)
  unfolding remove_gateways remove_gateway
  remove_gateways-SameWaiting [] s = record { clients = refl; waiting = refl; time = refl }
  remove_gateways-SameWaiting (gp ∷ gps) s =
      let a =
        on_gateway_removed-SameWaiting gp (get env.principal_discrete gp s.registered_gateways) s in
      let b = remove_gateways-SameWaiting gps (remove_gateway gp s) in
      record {
        clients = b.clients ∙ a.clients;
        waiting = b.waiting ∙ a.waiting;
        time = b.time ∙ a.time;
      }

  pub remove_empty_expired_gateways-SameWaiting :
      (s : State) → SameWaiting s (remove_empty_expired_gateways s)
  unfolding remove_empty_expired_gateways
  remove_empty_expired_gateways-SameWaiting s =
      let interval = s.params.send_ack_interval_ms in
      let visited = env.hash_order s.gateways_to_remove in
      let h =
        remove_gateways-SameWaiting (collect_expired s.time interval visited)
          (record s { gateways_to_remove = retain_unexpired s.time interval visited }) in
      record { clients = h.clients; waiting = h.waiting; time = h.time }

  -- The test of the filter, for a client.
  abbrev is_timed_out : State → Key → Bool
  is_timed_out s j = has_timed_out s.time (get Key-discrete j s.registered_clients)

  contains-timed_out_clients :
      (s : State) (j : Key) (ks : List Key)
      → set_contains j (timed_out_clients s ks)
        ≡ (if is_timed_out s j then set_contains j ks else false)
  unfolding timed_out_clients set_contains
  contains-timed_out_clients s j [] = ground arith
  contains-timed_out_clients s j (k ∷ ks) = elim (Key-discrete k j) [
    | yes e ↦ elim (Bool-cases (is_timed_out s k)) [
      | inl o ↦
          let o' : is_timed_out s j ≡ true = sym (ap (is_timed_out s) e) ∙ o in
          rw (o, o', if_pos (Key-discrete k j) e true (set_contains j ks))
            (if_pos (Key-discrete k j) e true _)
      | inr y ↦
          let y' : is_timed_out s j ≡ false = sym (ap (is_timed_out s) e) ∙ y in
          rw (y, y') (contains-timed_out_clients s j ks ∙ rw y')
    ]
    | no n ↦ elim (Bool-cases (is_timed_out s k)) [
      | inl o ↦
          rw (o, if_neg (Key-discrete k j) n true (set_contains j ks))
            (if_neg (Key-discrete k j) n true _ ∙ contains-timed_out_clients s j ks)
      | inr y ↦
          rw (y, if_neg (Key-discrete k j) n true (set_contains j ks))
            (contains-timed_out_clients s j ks)
    ]
  ]

  -- A registered client whose last keep-alive is more than the timeout of a minute ago.
  abbrev pub is_late : ℕ → Option (RegisteredClient env.Principal) → Bool
  is_late time none = false
  is_late time (some c) = ltb 60000000000 (sub64 time c.last_keep_alive_timestamp)

  has_timed_out-is_late :
      (time : ℕ) (o : Option (RegisteredClient env.Principal))
      → has_timed_out time o ≡ is_late time o
  unfolding has_timed_out
  has_timed_out-is_late time none = refl
  has_timed_out-is_late time (some c) = refl

  -- The keep-alive timer has no error, and unless it traps, the clients that are registered
  -- afterwards are those that were, without the ones that are waited for and whose last keep-alive
  -- is more than 60 seconds ago.
  pub check_keep_alive-registered :
      (s : State)
      → Leaves
          (λ t.
            (j : Key)
            → is_registered t j ≡ (
                if set_contains j s.clients_waiting_for_keep_alive
                then (if is_late s.time (get Key-discrete j s.registered_clients)
                    then false
                    else is_registered s j)
                else is_registered s j))
          (check_keep_alive_timer_callback s)
  unfolding check_keep_alive_timer_callback
  check_keep_alive-registered s =
      let u = remove_empty_expired_gateways s in
      let h = remove_empty_expired_gateways-SameWaiting s in
      let ks = timed_out_clients u (env.hash_order u.clients_waiting_for_keep_alive) in
      Leaves-map _ (remove_clients ks (some keep_alive_timeout) u) (λ t e j. e j ∙ removed u s h j)
        (remove_clients-registered ks (some keep_alive_timeout) u)
    where
      removed :
          (u s : State)
          → SameWaiting s u
          → (j : Key)
          → (if set_contains j
                (timed_out_clients u (env.hash_order u.clients_waiting_for_keep_alive))
              then false
              else is_registered u j)
            ≡ (if set_contains j s.clients_waiting_for_keep_alive
                then (if is_late s.time (get Key-discrete j s.registered_clients)
                    then false
                    else is_registered s j)
                else is_registered s j)
      removed u s h j =
          rw
            (
              contains-timed_out_clients u j (env.hash_order u.clients_waiting_for_keep_alive),
              contains-hash_order j u.clients_waiting_for_keep_alive,
              h.clients,
              h.waiting,
              h.time,
              has_timed_out-is_late s.time (get Key-discrete j s.registered_clients),
            )
            (ground arith)
