-- ===== src/State/Certification/Keys.antt =====
-- The keys of `format_message_for_gateway_key` of state.rs: their order and their identity.
use ic_websocket_cdk_rs.Prelude.{
  ℕ, ◌<◌, ◌≡◌, refl, ap, sym, ◌∙◌, List, [], ◌∷◌, ◌++◌, codes, arith, ltb, length, length-append,
  text_ltb, text_ltb-append_left, u64_mod,
}
use ic_websocket_cdk_rs.Decimal.Width.{
  fixed_digits, fixed_digits-injective, pad-u64, text_ltb-fixed_digits, length-fixed_digits,
}
use ic_websocket_cdk_rs.Env.{Env}
use ic_websocket_cdk_rs.State.Certification.{format_message_for_gateway_key}

-- Two lists with equal ends of one length are equal in both parts.
append-injective {ℓ} :
    {A : Type ℓ} (xs ys us vs : List A)
    → length us ≡ length vs
    → xs ++ us ≡ ys ++ vs
    → (xs ≡ ys) × (us ≡ vs)
append-injective [] [] us vs h e = (refl, e)
append-injective [] (y ∷ ys) us vs h e = absurd (omega (arith, ap length e, length-append ys vs))
append-injective (x ∷ xs) [] us vs h e = absurd (omega (arith, ap length e, length-append xs us))
append-injective (x ∷ xs) (y ∷ ys) us vs h e = ground (arith, append-injective xs ys us vs)

module _ ⦃env : Env⦄ where
  format_lem :
      (gp : env.Principal) (n : ℕ)
      → n < u64_mod
      → format_message_for_gateway_key gp n ≡ env.to_text gp ++ (codes "_" ++ fixed_digits 20 n)
  unfolding format_message_for_gateway_key
  format_lem gp n h = rw (pad-u64 n h)

  -- The keys of one gateway for two nonces below 2^64 compare as texts the way the nonces compare
  -- as numbers.
  pub text_ltb-format_message_for_gateway_key :
      (gp : env.Principal) (n m : ℕ)
      → n < u64_mod
      → m < u64_mod
      → text_ltb (format_message_for_gateway_key gp n) (format_message_for_gateway_key gp m)
        ≡ ltb n m
  text_ltb-format_message_for_gateway_key gp n m h p =
      rw
        (
          format_lem gp n h,
          format_lem gp m p,
          text_ltb-append_left (env.to_text gp),
          text_ltb-append_left (codes "_"),
        )
        (text_ltb-fixed_digits 20 n m (omega arith) (omega arith))

  -- Two keys with nonces below 2^64 that are the same text have the same gateway and the same
  -- nonce.
  pub format_message_for_gateway_key-injective :
      (gp gp' : env.Principal) (n m : ℕ)
      → n < u64_mod
      → m < u64_mod
      → format_message_for_gateway_key gp n ≡ format_message_for_gateway_key gp' m
      → (gp ≡ gp') × (n ≡ m)
  format_message_for_gateway_key-injective gp gp' n m h p e =
      let parts =
        append-injective (env.to_text gp) (env.to_text gp') (codes "_" ++ fixed_digits 20 n)
          (codes "_" ++ fixed_digits 20 m)
          (omega (arith, length-fixed_digits 20 n, length-fixed_digits 20 m))
          (sym (format_lem gp n h) ∙ e ∙ format_lem gp' m p) in
      (
        env.to_text-injective gp gp' parts.0,
        fixed_digits-injective 20 n m (omega arith) (omega arith) (cc (parts.1)),
      )
