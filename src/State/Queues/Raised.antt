-- ===== src/State/Queues/Raised.antt =====
-- A nonce of a gateway of state.rs that is used up without a message: the queues stay in order and
-- certified.
use ic_websocket_cdk_rs.Prelude.{
  ℕ, length, suc, ◌+◌, ◌≤◌, ◌<◌, ◌≡◌, sym, ap, ◌∙◌, subst, ◌⊎◌, inl, inr, some, List, [], ◌∷◌,
  arith, All, u64_mod, add64, get, update, get-update, Option-cases, Map,
}
use ic_websocket_cdk_rs.Types.Messages.{CanisterOutputMessage}
use ic_websocket_cdk_rs.Types.Gateway.{RegisteredGateway, increment_nonce}
use ic_websocket_cdk_rs.Env.{Env}
use ic_websocket_cdk_rs.State.{State}
use ic_websocket_cdk_rs.State.Queues.{Numbered, IsOrdered}
use ic_websocket_cdk_rs.State.Queues.Certified.{IsCovered, IsCertified}

module _ ⦃env : Env⦄ where
  -- Every gateway has this many nonces left.
  abbrev pub HasRoom : ℕ → State → Type 0
  HasRoom n s =
      (p : env.Principal) (g : RegisteredGateway env.Principal)
      → get env.principal_discrete p s.registered_gateways ≡ some g
      → g.outgoing_message_nonce + n < u64_mod

  abbrev pub IsSound : ℕ → State → Type 0
  IsSound n s = IsCertified s × HasRoom n s

  Numbered-raise :
      (gp : env.Principal) (lo hi hi' : ℕ) (xs : List (CanisterOutputMessage env.Principal))
      → hi ≤ hi'
      → Numbered gp lo hi xs
      → Numbered gp lo hi' xs
  Numbered-raise gp lo hi hi' [] p h = omega arith
  Numbered-raise gp lo hi hi' (x ∷ xs) p (n, le, e, h) =
      (n, le, e, Numbered-raise gp (suc n) hi hi' xs p h)

  -- An entry after a write through `get_mut` comes from one before it.
  pub entry_before :
      (gp p : env.Principal) (f : RegisteredGateway env.Principal → RegisteredGateway env.Principal)
      (m : Map env.Principal (RegisteredGateway env.Principal))
      (x : RegisteredGateway env.Principal)
      → get env.principal_discrete p (update env.principal_discrete gp f m) ≡ some x
      → (y : RegisteredGateway env.Principal) × (get env.principal_discrete p m ≡ some y)
        × ((x ≡ y) ⊎ (x ≡ f y))
  entry_before gp p f m x h = elim (Option-cases (get env.principal_discrete p m)) [
    | inl e ↦
        let h' = sym (get-update env.principal_discrete gp p f m) ∙ h in
        absurd (ground (arith, h', e))
    | inr (y, e) ↦
        let h' = sym (get-update env.principal_discrete gp p f m) ∙ h in
        (
          y,
          e,
          elim (env.principal_discrete gp p) [
            | yes q ↦ inr (ground (arith, h', e, q))
            | no n ↦ inl (ground (arith, h', e, n))
          ],
        )
  ]

  -- A nonce that is used up for nothing.
  abbrev pub raised : env.Principal → State → State
  raised gp s = record s {
    registered_gateways = update env.principal_discrete gp increment_nonce s.registered_gateways;
  }

  raised-IsOrdered :
      (p : env.Principal) (x y : RegisteredGateway env.Principal)
      → (x ≡ y) ⊎ (x ≡ increment_nonce y)
      → y.outgoing_message_nonce + 1 < u64_mod
      → IsOrdered p y
      → IsOrdered p x
  unfolding increment_nonce
  raised-IsOrdered p x y (inl e) room o = subst (IsOrdered p) (sym e) o
  raised-IsOrdered p x y (inr e) room o = subst (IsOrdered p) (sym e) (record {
    aligned = o.aligned;
    numbered =
        Numbered-raise p 0 y.outgoing_message_nonce (add64 y.outgoing_message_nonce 1)
          y.messages_queue (omega arith) o.numbered;
    bounded = omega arith;
  })

  raised-IsCertified : (gp : env.Principal) (s : State) → IsSound 1 s → IsCertified (raised gp s)
  unfolding increment_nonce
  raised-IsCertified gp s (inv, room) = record {
    ordered = λ p x h.
        let (y, e, o) = entry_before gp p increment_nonce s.registered_gateways x h in
        raised-IsOrdered p x y o (room p y e) (inv.ordered p y e);
    covered = λ p x h.
        let (y, e, o) = entry_before gp p increment_nonce s.registered_gateways x h in
        elim o [
          | inl q ↦
              subst (λ z. All (IsCovered s.cert_tree) z.messages_queue) (sym q) (inv.covered p y e)
          | inr q ↦
              subst (λ z. All (IsCovered s.cert_tree) z.messages_queue) (sym q) (inv.covered p y e)
        ];
    current = λ (p, x, h, queued).
        let (y, e, o) = entry_before gp p increment_nonce s.registered_gateways x h in
        inv.current (
          p,
          y,
          e,
          elim o [
            | inl q ↦ subst (λ z. 1 ≤ length z.messages_queue) q queued
            | inr q ↦ subst (λ z. 1 ≤ length z.messages_queue) q queued
          ],
        );
  }

  raised-HasRoom :
      (n : ℕ) (gp : env.Principal) (s : State) → HasRoom (suc n) s → HasRoom n (raised gp s)
  unfolding increment_nonce
  raised-HasRoom n gp s room p x h =
      let (y, e, o) = entry_before gp p increment_nonce s.registered_gateways x h in
      elim o [
        | inl q ↦ omega (arith, room p y e, ap (λ z. z.outgoing_message_nonce) q)
        | inr q ↦ omega (arith, room p y e, ap (λ z. z.outgoing_message_nonce) q)
      ]

  pub raised-IsSound :
      (n : ℕ) (gp : env.Principal) (s : State) → IsSound (suc n) s → IsSound n (raised gp s)
  raised-IsSound n gp s (inv, room) = (
    raised-IsCertified gp s (inv, λ p g e. omega (arith, room p g e)),
    raised-HasRoom n gp s room,
  )
