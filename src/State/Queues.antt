-- ===== src/State/Queues.antt =====
-- The messages queues of state.rs, seen by the nonces in their keys.
pub mod Certified
pub mod Polled
pub mod Returned
pub mod Costs
pub mod Spent
pub mod Drained
pub mod Sent
pub mod Delivered
pub mod Expired
pub mod Raised
pub mod Sound
pub mod Counted
use ic_websocket_cdk_rs.Prelude.{
  ℕ, zero, suc, ◌+◌, ◌≤◌, ◌<◌, ◌≡◌, ◌≢◌, refl, sym, ap, ◌∙◌, List, [], ◌∷◌, ◌++◌, map, Text, arith,
  take, drop, length, All, u64_mod,
}
use ic_websocket_cdk_rs.Types.Messages.{CanisterOutputMessage}
use ic_websocket_cdk_rs.Types.Gateway.{RegisteredGateway}
use ic_websocket_cdk_rs.Types.Gateway.Expiry.{IsAligned, message_keys}
use ic_websocket_cdk_rs.Env.{Env}
use ic_websocket_cdk_rs.State.Certification.{format_message_for_gateway_key}
use ic_websocket_cdk_rs.State.Certification.Keys.{format_message_for_gateway_key-injective}

module _ ⦃env : Env⦄ where
  -- A key of gateway `gp` with a nonce from `lo` on and below `hi`.
  abbrev pub InRange : env.Principal → (lo hi : ℕ) → Text → Type 0
  InRange gp lo hi key = (n : ℕ) × (lo ≤ n) × (n < hi) × (key ≡ format_message_for_gateway_key gp n)

  -- The keys are those of gateway `gp`, and their nonces rise, from `lo` on and below `hi`.
  abbrev pub Numbered :
      env.Principal → (lo hi : ℕ) → List (CanisterOutputMessage env.Principal) → Type 0
  Numbered gp lo hi [] = lo ≤ hi
  Numbered gp lo hi (x ∷ xs) =
      (n : ℕ) × (lo ≤ n) × (x.key ≡ format_message_for_gateway_key gp n) × Numbered gp (suc n) hi xs

  -- A gateway's queue is in the order of the nonces, all below the next one, and each message has
  -- its timestamp.
  pub record IsOrdered (gp : env.Principal) (g : RegisteredGateway env.Principal) : Type 0 where
    pub aligned : IsAligned g
    pub numbered : Numbered gp 0 g.outgoing_message_nonce g.messages_queue
    pub bounded : g.outgoing_message_nonce < u64_mod

  module _ (gp : env.Principal) where
    pub Numbered-le :
        (lo hi : ℕ) (xs : List (CanisterOutputMessage env.Principal))
        → Numbered gp lo hi xs
        → lo ≤ hi
    Numbered-le lo hi [] h = h
    Numbered-le lo hi (x ∷ xs) (n, le, e, h) = omega (arith, Numbered-le (suc n) hi xs h)

    pub Numbered-weaken :
        (lo lo' hi : ℕ) (xs : List (CanisterOutputMessage env.Principal))
        → lo' ≤ lo
        → Numbered gp lo hi xs
        → Numbered gp lo' hi xs
    Numbered-weaken lo lo' hi [] p h = omega arith
    Numbered-weaken lo lo' hi (x ∷ xs) p (n, le, e, h) = (n, omega arith, e, h)

    pub Numbered-snoc :
        (lo hi n hi' : ℕ) (xs : List (CanisterOutputMessage env.Principal))
        (m : CanisterOutputMessage env.Principal)
        → hi ≤ n
        → n < hi'
        → m.key ≡ format_message_for_gateway_key gp n
        → Numbered gp lo hi xs
        → Numbered gp lo hi' (xs ++ m ∷ [])
    Numbered-snoc lo hi n hi' [] m p q e h = (n, omega arith, e, q)
    Numbered-snoc lo hi n hi' (x ∷ xs) m p q e (j, le, f, h) =
        (j, le, f, Numbered-snoc (suc j) hi n hi' xs m p q e h)

    -- A cut of the queue is a cut of the nonces.
    pub Numbered-split :
        (k lo hi : ℕ) (xs : List (CanisterOutputMessage env.Principal))
        → Numbered gp lo hi xs
        → (mid : ℕ) × Numbered gp lo mid (take k xs) × Numbered gp mid hi (drop k xs)
    Numbered-split zero lo hi xs h = (lo, omega arith, h)
    Numbered-split (suc k) lo hi [] h = (hi, h, omega arith)
    Numbered-split (suc k) lo hi (x ∷ xs) (n, le, e, h) =
        let (mid, front, back) = Numbered-split k (suc n) hi xs h in (mid, (n, le, e, front), back)

    pub Numbered-InRange :
        (lo hi : ℕ) (xs : List (CanisterOutputMessage env.Principal))
        → Numbered gp lo hi xs
        → All (λ x. InRange gp lo hi x.key) xs
    Numbered-InRange lo hi [] h = tt
    Numbered-InRange lo hi (x ∷ xs) (n, le, e, h) = (
      (n, le, omega (arith, Numbered-le (suc n) hi xs h), e),
      All-widen xs (Numbered-InRange (suc n) hi xs h),
    )
      where
        All-widen :
            (ys : List (CanisterOutputMessage env.Principal))
            → All (λ y. InRange gp (suc n) hi y.key) ys
            → All (λ y. InRange gp lo hi y.key) ys
        All-widen [] a = tt
        All-widen (y ∷ ys) ((j, l, u, f), a) = ((j, omega arith, u, f), All-widen ys a)

  -- Keys of two gateways differ, and so do keys of one gateway from two disjoint ranges.
  pub InRange-ne :
      (gp gp' : env.Principal) (lo hi lo' hi' : ℕ) (a b : Text)
      → (gp ≡ gp' → hi ≤ lo')
      → hi ≤ u64_mod
      → hi' ≤ u64_mod
      → InRange gp lo hi a
      → InRange gp' lo' hi' b
      → a ≢ b
  InRange-ne gp gp' lo hi lo' hi' a b apart p q (n, l, u, e) (m, l', u', f) same =
      let r =
        format_message_for_gateway_key-injective gp gp' n m (omega arith) (omega arith)
          (sym e ∙ same ∙ f) in
      let below = apart r.0 in let equal = r.1 in absurd (omega arith)
