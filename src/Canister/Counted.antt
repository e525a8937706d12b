-- ===== src/Canister/Counted.antt =====
-- The counts of the gateways' clients in every state that a canister reaches, and why a gateway with
-- clients is not removed.
use ic_websocket_cdk_rs.Prelude.{
  ℕ, suc, ◌≤◌, ◌<◌, ◌≡◌, refl, sym, ap, ◌∙◌, subst, true, false, some, none, arith, get, count,
  count-get, if_pos, u64_mod, Option-cases, inl, inr, is_some,
}
use ic_websocket_cdk_rs.Types.Messages.{new_client_key}
use ic_websocket_cdk_rs.Types.Gateway.{RegisteredClient, RegisteredGateway, new_client}
use ic_websocket_cdk_rs.Env.{Env, Key}
use ic_websocket_cdk_rs.State.{State, Outcome, Key-discrete, ok, err, trap}
use ic_websocket_cdk_rs.State.Relates.{Holds, Preserves-at}
use ic_websocket_cdk_rs.State.Registry.{IsLinked, current_key}
use ic_websocket_cdk_rs.State.Registry.Changes.{drop_client-IsLinked, add_client-IsLinked}
use ic_websocket_cdk_rs.State.Registry.Counts.{
  IsCounted, AreEmpty, clients_at, or_zero, is_at, All-entries, drop_client-IsCounted,
  add_client-IsCounted,
}
use ic_websocket_cdk_rs.State.Sending.Same.{clients_count}
use ic_websocket_cdk_rs.State.Registry.Expired.{
  remove_empty_expired_gateways-IsCounted, clear_maps-IsCounted,
}
use ic_websocket_cdk_rs.State.Registry.Rules.{
  IsKept, IsLinked-IsKept, SameRegistry, IsLinked-SameSessions, SameSessions-fields,
}
use ic_websocket_cdk_rs.State.Registry.Kept.{close-Keeps}
use ic_websocket_cdk_rs.State.Registry.Wiped.{wipe-Keeps}
use ic_websocket_cdk_rs.Api.Kept.{send-Keeps, ws_open-keeps, ws_close-Keeps}
use ic_websocket_cdk_rs.Api.Incoming.{ws_message-Keeps, next_number-IsLinked}
use ic_websocket_cdk_rs.Timers.Kept.{ack_timer_task-Keeps, check_keep_alive-Keeps, init-Keeps}
use ic_websocket_cdk_rs.Canister.{Call, initial_state, perform, settled, Reachable}
use ic_websocket_cdk_rs.Canister.Invariant.{initial-IsLinked}

module _ ⦃env : Env⦄ where
  abbrev pub opens_after : Call → ℕ → ℕ
  opens_after (Call.opened caller args) n = suc n
  opens_after (Call.initialized params) n = n
  opens_after (Call.closed_by_gateway caller args) n = n
  opens_after (Call.received caller args) n = n
  opens_after (Call.sent p bytes) n = n
  opens_after (Call.closed p) n = n
  opens_after Call.wiped n = n
  opens_after Call.ack_timer_fired n = n
  opens_after Call.keep_alive_timer_fired n = n

  opens_after-le : (c : Call) (n : ℕ) → n ≤ opens_after c n
  opens_after-le (Call.opened caller args) n = omega arith
  opens_after-le (Call.initialized params) n = omega arith
  opens_after-le (Call.closed_by_gateway caller args) n = omega arith
  opens_after-le (Call.received caller args) n = omega arith
  opens_after-le (Call.sent p bytes) n = omega arith
  opens_after-le (Call.closed p) n = omega arith
  opens_after-le Call.wiped n = omega arith
  opens_after-le Call.ack_timer_fired n = omega arith
  opens_after-le Call.keep_alive_timer_fired n = omega arith

  -- How often `ws_open` was called.
  unfoldable pub opens : {s : State} → Reachable s → ℕ
  opens (Reachable.installed time timers certified_data app) = 0
  opens (Reachable.elapsed time timers app r) = opens r
  opens (Reachable.called c r) = opens_after c (opens r)

  abbrev Counted : ℕ → State → Type 0
  Counted n s = IsLinked s × IsCounted n s

  same-IsCounted : (n : ℕ) (s t : State) → SameRegistry s t → IsCounted n s → IsCounted n t
  same-IsCounted n s t e h = record {
    distinct = e.distinct h.distinct;
    counts = λ gp. e.counts gp ∙ h.counts gp ∙ sym (e.at gp);
    bounded = λ gp. omega (arith, e.at gp, h.bounded gp);
    removable =
        subst (AreEmpty t) (sym e.removals)
          (All-entries s.gateways_to_remove (λ gp z. e.at gp ∙ z) h.removable);
  }

  Counted-IsKept : (n : ℕ) → IsKept (λ k. Unit) (Counted n)
  Counted-IsKept n = record {
    linked = λ s h. h.0;
    same = λ s t e h. (IsLinked-IsKept.same s t e h.0, same-IsCounted n s t e h.1);
    dropped =
        λ s k d h alone. (drop_client-IsLinked s k h.0 alone, drop_client-IsCounted n s k h.1);
    expired =
        λ s h. (IsLinked-IsKept.expired s h.0, remove_empty_expired_gateways-IsCounted n s h.1);
    cleared =
        λ s nobody h. (IsLinked-IsKept.cleared s nobody h.0, clear_maps-IsCounted n s nobody h.1);
  }

  IsCounted-weaken : (n m : ℕ) (s : State) → n ≤ m → IsCounted n s → IsCounted m s
  IsCounted-weaken n m s le h = record {
    distinct = h.distinct;
    counts = h.counts;
    bounded = λ gp. omega (arith, h.bounded gp);
    removable = h.removable;
  }

  free_key :
      (s : State) (k : Key)
      → IsLinked s
      → current_key s k.client_principal ≡ none
      → get Key-discrete k s.registered_clients ≡ none
  free_key s k h free = elim (Option-cases (get Key-discrete k s.registered_clients)) [
    | inl e ↦ e
    | inr (c, e) ↦ let cur = h.current k (ap is_some e) in absurd (ground (arith, sym free ∙ cur))
  ]

  perform-Counted :
      (n : ℕ) (c : Call) (s : State)
      → opens_after c n < u64_mod
      → Counted n s
      → Holds (Counted (opens_after c n)) (perform c s)
  unfolding perform
  perform-Counted n (Call.initialized params) s small h =
      Preserves-at (Counted n) _ (init-Keeps (Counted-IsKept n) params) s h
  perform-Counted n (Call.opened caller args) s small h =
      ws_open-keeps (Counted-IsKept n) (Counted-IsKept (suc n))
        (λ t q. (q.0, IsCounted-weaken n (suc n) t (omega arith) q.1)) (λ k. tt) caller args
        (λ m t q free.
          let k : Key = new_client_key caller args.client_nonce in
          let c = new_client args.gateway_principal t.time in
          (
            add_client-IsLinked t k c q.0 free,
            add_client-IsCounted n t k q.1 c (free_key t k q.0 free) (omega arith),
          ))
        s h
  perform-Counted n (Call.closed_by_gateway caller args) s small h =
      Preserves-at (Counted n) _ (ws_close-Keeps (Counted-IsKept n) caller args tt) s h
  perform-Counted n (Call.received caller args) s small h =
      Preserves-at (Counted n) _
        (ws_message-Keeps (Counted-IsKept n) (λ k. tt) caller args
          λ t q current expected. (
            next_number-IsLinked args.msg.client_key t q.0,
            record {
              distinct = q.1.distinct;
              counts = q.1.counts;
              bounded = q.1.bounded;
              removable = q.1.removable;
            },
          ))
        s h
  perform-Counted n (Call.sent p bytes) s small h =
      Preserves-at (Counted n) _ (send-Keeps (Counted-IsKept n) p bytes) s h
  perform-Counted n (Call.closed p) s small h =
      Preserves-at (Counted n) _ (close-Keeps (Counted-IsKept n) p (λ k e. tt)) s h
  perform-Counted n Call.wiped s small h =
      Preserves-at (Counted n) _ (wipe-Keeps (Counted-IsKept n) (λ k. tt)) s h
  perform-Counted n Call.ack_timer_fired s small h =
      Preserves-at (Counted n) _ (ack_timer_task-Keeps (Counted-IsKept n)) s h
  perform-Counted n Call.keep_alive_timer_fired s small h =
      Preserves-at (Counted n) _ (check_keep_alive-Keeps (Counted-IsKept n) (λ k. tt)) s h

  settled-Counted :
      (n m : ℕ) (s : State) (o : Outcome (Unit {0}))
      → n ≤ m
      → Counted n s
      → Holds (Counted m) o
      → Counted m (settled s o)
  unfolding settled
  settled-Counted n m s (ok a t) le h k = k
  settled-Counted n m s (err e t) le h k = k
  settled-Counted n m s trap le h k = (h.0, IsCounted-weaken n m s le h.1)

  reached-Counted : (s : State) (r : Reachable s) → opens r < u64_mod → Counted (opens r) s
  unfolding opens initial_state get count
  reached-Counted _ (Reachable.installed time timers certified_data app) small = (
    initial-IsLinked time timers certified_data app,
    record { distinct = tt; counts = λ gp. refl; bounded = λ gp. omega arith; removable = tt },
  )
  reached-Counted _ (Reachable.elapsed {s} time timers app r) small =
      let h = reached-Counted s r small in
      (
        IsLinked-SameSessions s _ (SameSessions-fields s _ refl refl refl refl refl) h.0,
        record {
          distinct = h.1.distinct;
          counts = h.1.counts;
          bounded = h.1.bounded;
          removable = h.1.removable;
        },
      )
  reached-Counted _ (Reachable.called {s} c r) small =
      let h = reached-Counted s r (omega (arith, opens_after-le c (opens r))) in
      settled-Counted (opens r) (opens_after c (opens r)) s (perform c s)
        (opens_after-le c (opens r)) h (perform-Counted (opens r) c s small h)

  -- In every state that is reached with fewer than 2^64 calls of ws_open, no client key is
  -- registered twice, the count of each gateway, 0 where it is not registered, is the number of the
  -- registered clients at it, which is at most the number of those calls, and a gateway that waits
  -- for its removal has no registered client; the gateway of each registered client is registered,
  -- with a count of one at least.
  pub Reachable-IsCounted :
      (s : State) (r : Reachable s)
      → opens r < u64_mod
      → IsCounted (opens r) s
        × ((k : Key) (c : RegisteredClient env.Principal)
            → get Key-discrete k s.registered_clients ≡ some c
            → (g : RegisteredGateway env.Principal) × (get env.principal_discrete
                  c.gateway_principal s.registered_gateways
                ≡ some g)
              × (1 ≤ g.connected_clients_count))
  Reachable-IsCounted s r small =
      let h = (reached-Counted s r small).1 in
      (
        h,
        λ k c e.
            let one : 1 ≤ clients_at s c.gateway_principal =
              count-get Key-discrete (is_at c.gateway_principal) k s.registered_clients e (
                if_pos (env.principal_discrete c.gateway_principal c.gateway_principal) refl true
                  false) in
            let same = h.counts c.gateway_principal in
            elim (Option-cases
              (get env.principal_discrete c.gateway_principal s.registered_gateways)) [
                | inl f ↦ absurd (omega (arith, one, same, ap (λ o. or_zero (clients_count o)) f))
                | inr (g, f) ↦
                    (g, f, omega (arith, one, same, ap (λ o. or_zero (clients_count o)) f))
              ],
      )
