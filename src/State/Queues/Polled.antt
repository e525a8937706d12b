-- ===== src/State/Queues/Polled.antt =====
-- What `ws_get_messages` of lib.rs returns: `get_messages_for_gateway_range`,
-- `get_messages_for_gateway` and `get_cert_messages` of state.rs.
use ic_websocket_cdk_rs.Prelude.{
  ℕ, zero, suc, ◌+◌, ◌-◌, ◌≤◌, ◌<◌, ◌≡◌, refl, ap, ◌∙◌, Bool, true, false, ltb, leb, inl, inr,
  Bool-cases, some, List, [], ◌∷◌, ◌++◌, arith, take, drop, length, get, get_elem?, length-append,
  take_all, u64_mod, text_ltb, lt→ltb, le→ltb, ltb→lt, ltb→le,
}
use ic_websocket_cdk_rs.Types.Messages.{CanisterOutputMessage}
use ic_websocket_cdk_rs.Types.Gateway.{RegisteredGateway}
use ic_websocket_cdk_rs.Env.{Env}
use ic_websocket_cdk_rs.State.{State, ok}
use ic_websocket_cdk_rs.State.Steps.{get_registered_gateway_ok}
use ic_websocket_cdk_rs.State.Certification.{format_message_for_gateway_key}
use ic_websocket_cdk_rs.State.Certification.Keys.{text_ltb-format_message_for_gateway_key}
use ic_websocket_cdk_rs.State.Polling.{
  partition_point, gateway_queue, range_end, collect_messages, get_messages_for_gateway_range,
  get_messages_for_gateway, certified_messages, get_cert_messages,
}
use ic_websocket_cdk_rs.State.Queues.{Numbered, Numbered-le}

drop-length-append {ℓ} : {A : Type ℓ} (xs ys : List A) → drop (length xs) (xs ++ ys) ≡ ys
drop-length-append [] ys = refl
drop-length-append (x ∷ xs) ys = drop-length-append xs ys

drop-step {ℓ} :
    {A : Type ℓ} (i : ℕ) (xs : List A)
    → i < length xs
    → (x : A) × (get_elem? xs i ≡ some x) × (drop i xs ≡ x ∷ drop (i + 1) xs)
drop-step i [] h = absurd (omega arith)
drop-step zero (x ∷ xs) h = (x, refl, refl)
drop-step (suc i) (x ∷ xs) h =
    let (y, at, rest) = drop-step i xs (omega arith) in
    let e : suc i + 1 ≡ suc (i + 1) = omega arith in (y, at, rw e rest)

module _ ⦃env : Env⦄ where
  abbrev Messages : Type 0
  Messages = List (CanisterOutputMessage env.Principal)

  -- The test of the partition, at a key of the gateway.
  is_before : (gp : env.Principal) → ℕ → CanisterOutputMessage env.Principal → Bool
  is_before gp n x = text_ltb x.key (format_message_for_gateway_key gp n)

  is_before_lem :
      (gp : env.Principal) (n m : ℕ) (x : CanisterOutputMessage env.Principal)
      → n < u64_mod
      → m < u64_mod
      → x.key ≡ format_message_for_gateway_key gp m
      → is_before gp n x ≡ ltb m n
  unfolding is_before
  is_before_lem gp n m x h p e = rw e (text_ltb-format_message_for_gateway_key gp m n p h)

  -- The partition point is where the nonces reach `n`.
  partition_point-split :
      (gp : env.Principal) (lo n hi : ℕ) (old new : Messages)
      → n < u64_mod
      → hi ≤ u64_mod
      → Numbered gp lo n old
      → Numbered gp n hi new
      → partition_point (is_before gp n) (old ++ new) ≡ length old
  unfolding partition_point
  partition_point-split gp lo n hi [] [] h p a b = refl
  partition_point-split gp lo n hi [] (x ∷ new) h p a (m, le, e, b) =
      rw
        (is_before_lem gp n m x h (omega (arith, Numbered-le gp (suc m) hi new b)) e, le→ltb m n le)
  partition_point-split gp lo n hi (x ∷ old) new h p (m, le, e, a) b =
      let below : m < n = Numbered-le gp (suc m) n old a in
      rw (is_before_lem gp n m x h (omega arith) e, lt→ltb m n below)
        (ap suc (partition_point-split gp (suc m) n hi old new h p a b))

  -- The loop over indices copies a part of the queue, and meets no index out of range.
  collect_messages_lem :
      (s : State) (n i : ℕ) (queue : Messages)
      → i + n ≤ length queue
      → collect_messages n i queue s ≡ ok (take n (drop i queue)) s
  unfolding collect_messages
  collect_messages_lem s zero i queue h = refl
  collect_messages_lem s (suc n) i queue h =
      let (x, at, rest) = drop-step i queue (omega arith) in
      rw (at, rest, collect_messages_lem s n (i + 1) queue (omega arith))

  module _ (s : State) (gp : env.Principal) (g : RegisteredGateway env.Principal)
      (registered : get env.principal_discrete gp s.registered_gateways ≡ some g) where
    pub gateway_queue_ok : gateway_queue gp s ≡ ok g.messages_queue s
    unfolding gateway_queue
    gateway_queue_ok = rw (get_registered_gateway_ok s gp registered)

    pub get_messages_for_gateway_lem :
        (start_index end_index : ℕ)
        → start_index ≤ end_index
        → end_index ≤ length g.messages_queue
        → get_messages_for_gateway gp start_index end_index s
          ≡ ok (take (end_index - start_index) (drop start_index g.messages_queue)) s
    unfolding get_messages_for_gateway
    get_messages_for_gateway_lem i j h p =
        rw (gateway_queue_ok, collect_messages_lem s (j - i) i g.messages_queue (omega arith))

    module _ (n lo hi : ℕ) (old new : Messages) (queue : g.messages_queue ≡ old ++ new)
        (before : Numbered gp lo n old) (after : Numbered gp n hi new) (nonce_bound : n < u64_mod)
        (queue_bound : hi ≤ u64_mod) where
      abbrev max : ℕ
      max = s.params.max_number_of_returned_messages

      range_lem :
          get_messages_for_gateway_range gp n s
          ≡ ok (range_end (length (old ++ new)) (length old) max) s
      unfolding get_messages_for_gateway_range is_before
      range_lem = rw (
        gateway_queue_ok,
        queue,
        partition_point-split gp lo n hi old new nonce_bound queue_bound before after,
      )

      part :
          (j : ℕ)
          → j ≤ length new
          → (length old ≤ length old + j) × (length old + j ≤ length g.messages_queue)
      part j h = (omega arith, omega (arith, ap length queue, length-append old new))

      messages_lem :
          (j : ℕ)
          → j ≤ length new
          → get_messages_for_gateway gp (length old) (length old + j) s ≡ ok (take j new) s
      messages_lem j h =
          let e : length old + j - length old ≡ j = omega arith in
          get_messages_for_gateway_lem (length old) (length old + j) (part j h).0 (part j h).1
          ∙ rw (e, queue, drop-length-append)

      pub get_cert_messages-split :
          get_cert_messages gp n s ≡ certified_messages (take max new) (leb (length new) max) s
      unfolding get_cert_messages
      get_cert_messages-split =
          let len : length (old ++ new) ≡ length old + length new = length-append old new in
          let left : length old + length new - length old ≡ length new = omega arith in
          elim (Bool-cases (ltb max (length new))) [
            | inl more ↦
                let flag : leb (length new) max ≡ false = ground arith in
                rw (range_lem, len, left, more, messages_lem max (omega (arith, ltb→lt)), flag)
            | inr all ↦
                let flag : leb (length new) max ≡ true = ground arith in
                rw (
                  range_lem,
                  len,
                  left,
                  all,
                  messages_lem (length new) (omega arith),
                  flag,
                  take_all (length new) new (omega arith),
                  take_all max new (omega (arith, ltb→le (max) (length new) all)),
                )
          ]
