-- ===== src/State/Queues/Drained.antt =====
-- A gateway that polls with `ws_get_messages` of lib.rs until it is told that the queue ends.
use ic_websocket_cdk_rs.Prelude.{
  ℕ, zero, suc, ◌-◌, ◌≤◌, ◌≡◌, refl, sym, ap, ◌∙◌, subst, inl, inr, true, false, Bool-cases, some,
  List, [], ◌∷◌, ◌++◌, append_assoc, arith, take, drop, length, length-drop, take_all, leb, get,
}
use ic_websocket_cdk_rs.Types.Messages.{
  CanisterOutputMessage, CanisterOutputCertifiedMessages, empty_certified_messages,
}
use ic_websocket_cdk_rs.Types.Gateway.{RegisteredGateway}
use ic_websocket_cdk_rs.Env.{Env}
use ic_websocket_cdk_rs.State.{State, ok}
use ic_websocket_cdk_rs.State.Steps.{is_registered_gateway-true}
use ic_websocket_cdk_rs.State.Certification.{format_message_for_gateway_key}
use ic_websocket_cdk_rs.State.Polling.{last_of, certified_messages, ws_get_messages}
use ic_websocket_cdk_rs.State.Queues.{Numbered, Numbered-le, IsOrdered}
use ic_websocket_cdk_rs.State.Queues.Polled.{get_cert_messages-split}
use ic_websocket_cdk_rs.State.Queues.Returned.{CanCertify, some_messages_ok}

take-drop {ℓ} : {A : Type ℓ} (k : ℕ) (xs : List A) → take k xs ++ drop k xs ≡ xs
take-drop zero xs = refl
take-drop (suc k) [] = refl
take-drop (suc k) (x ∷ xs) = ap (λ l. x ∷ l) (take-drop k xs)

-- The polls from a nonce on, each from the nonce after that of the last message of the one before,
-- up to a poll that says it is at the end of the queue; and the messages that they return.
pub data Drained ⦃env : Env⦄ (s : State) (gp : env.Principal)
    : ℕ → List (CanisterOutputMessage env.Principal) → Type 0 where
  ended :
      {n : ℕ} (r : CanisterOutputCertifiedMessages env.Principal)
      → ws_get_messages gp (record { nonce = n }) s ≡ ok r s
      → r.is_end_of_queue ≡ true
      → Drained s gp n r.messages
  continued :
      {n : ℕ} (r : CanisterOutputCertifiedMessages env.Principal)
      (m : CanisterOutputMessage env.Principal)
      (ms later : List (CanisterOutputMessage env.Principal)) (last : ℕ)
      → ws_get_messages gp (record { nonce = n }) s ≡ ok r s
      → r.is_end_of_queue ≡ false
      → r.messages ≡ m ∷ ms
      → (last_of m ms).key ≡ format_message_for_gateway_key gp last
      → Drained s gp (suc last) later
      → Drained s gp n (r.messages ++ later)

module _ ⦃env : Env⦄ where
  Numbered-append :
      (gp : env.Principal) (lo mid hi : ℕ) (xs ys : List (CanisterOutputMessage env.Principal))
      → Numbered gp lo mid xs
      → Numbered gp mid hi ys
      → Numbered gp lo hi (xs ++ ys)
  Numbered-append gp lo mid hi [] [] a b = omega arith
  Numbered-append gp lo mid hi [] (y ∷ ys) a (n, le, e, b) = (n, omega arith, e, b)
  Numbered-append gp lo mid hi (x ∷ xs) ys (n, le, e, a) b =
      (n, le, e, Numbered-append gp (suc n) mid hi xs ys a b)

  -- A cut after a message is a cut of the nonces after that message's.
  Numbered-cut :
      (gp : env.Principal) (k lo hi : ℕ) (m : CanisterOutputMessage env.Principal)
      (xs : List (CanisterOutputMessage env.Principal))
      → Numbered gp lo hi (m ∷ xs)
      → (last : ℕ) × ((last_of m (take k xs)).key ≡ format_message_for_gateway_key gp last)
        × Numbered gp lo (suc last) (m ∷ take k xs)
        × Numbered gp (suc last) hi (drop k xs)
  Numbered-cut gp zero lo hi m xs (n, le, e, h) = (n, e, (n, le, e, omega arith), h)
  Numbered-cut gp (suc k) lo hi m [] (n, le, e, h) = (n, e, (n, le, e, omega arith), h)
  Numbered-cut gp (suc k) lo hi m (x ∷ xs) (n, le, e, h) =
      let (last, f, front, back) = Numbered-cut gp k (suc n) hi x xs h in
      (last, f, (n, le, e, front), back)

  module _ (s : State) (gp : env.Principal) (g : RegisteredGateway env.Principal)
      (registered : get env.principal_discrete gp s.registered_gateways ≡ some g)
      (ordered : IsOrdered gp g) (k : ℕ) (max : s.params.max_number_of_returned_messages ≡ suc k)
      (certifies : CanCertify s) where
    poll_lem :
        (n : ℕ) (old new : List (CanisterOutputMessage env.Principal))
        → g.messages_queue ≡ old ++ new
        → Numbered gp 0 n old
        → Numbered gp n g.outgoing_message_nonce new
        → ws_get_messages gp (record { nonce = n }) s
          ≡ certified_messages (take (suc k) new) (leb (length new) (suc k)) s
    unfolding ws_get_messages
    poll_lem n old new queue before after =
        let bound = ordered.bounded in
        let le = Numbered-le gp n g.outgoing_message_nonce new after in
        rw (
          is_registered_gateway-true s gp registered,
          sym max,
          get_cert_messages-split s gp g registered n 0 g.outgoing_message_nonce old new queue
              before after (omega arith) (omega arith),
        )

    polls_from :
        (fuel n : ℕ) (old new : List (CanisterOutputMessage env.Principal))
        → length new ≤ fuel
        → g.messages_queue ≡ old ++ new
        → Numbered gp 0 n old
        → Numbered gp n g.outgoing_message_nonce new
        → Drained s gp n new
    unfolding certified_messages
    polls_from fuel n old [] h queue before after =
        Drained.ended empty_certified_messages (poll_lem n old [] queue before after) refl
    polls_from zero n old (m ∷ ms) h queue before after = absurd (omega arith)
    polls_from (suc fuel) n old (m ∷ ms) h queue before after =
        let poll = poll_lem n old (m ∷ ms) queue before after in
        let (r, e, same, flag) =
          some_messages_ok s m (take k ms) (leb (length (m ∷ ms)) (suc k)) certifies in
        let (last, f, front, back) = Numbered-cut gp k n g.outgoing_message_nonce m ms after in
        let next : g.messages_queue ≡ (old ++ (m ∷ take k ms)) ++ drop k ms =
          queue
          ∙ sym (
              append_assoc old (m ∷ take k ms) (drop k ms)
              ∙ ap (λ l. old ++ (m ∷ l)) (take-drop k ms)) in
        let ih =
          polls_from fuel (suc last) (old ++ (m ∷ take k ms)) (drop k ms)
            (omega (arith, length-drop k ms)) next
            (Numbered-append gp 0 n (suc last) old (m ∷ take k ms) before front) back in
        elim (Bool-cases (leb (length (m ∷ ms)) (suc k))) [
          | inl all ↦
              let le : length ms ≤ k = ground arith in
              subst (λ l. Drained s gp n l) (same ∙ ap (λ l. m ∷ l) (take_all k ms le))
                (Drained.ended r (poll ∙ e) (flag ∙ all))
          | inr more ↦
              subst (λ l. Drained s gp n l)
                (ap (λ l. l ++ drop k ms) same ∙ ap (λ l. m ∷ l) (take-drop k ms))
                (Drained.continued r m (take k ms) (drop k ms) last (poll ∙ e) (flag ∙ more) same f
                  ih)
        ]

  -- Where the queue of a registered gateway is in the order of its nonces with one timestamp per
  -- message, a poll may return at least one message, the system has a certificate for the certified
  -- data and the witnesses have an encoding, the polls from a nonce on, each from the nonce after
  -- that of the last message of the one before, come to one that says it is at the end of the
  -- queue, and together they return exactly the messages of the queue from that nonce on, each once
  -- and in order.
  pub ws_get_messages-Drained :
      (s : State) (gp : env.Principal) (g : RegisteredGateway env.Principal) (n : ℕ)
      (old new : List (CanisterOutputMessage env.Principal))
      → get env.principal_discrete gp s.registered_gateways ≡ some g
      → IsOrdered gp g
      → 1 ≤ s.params.max_number_of_returned_messages
      → CanCertify s
      → g.messages_queue ≡ old ++ new
      → Numbered gp 0 n old
      → Numbered gp n g.outgoing_message_nonce new
      → Drained s gp n new
  ws_get_messages-Drained s gp g n old new registered ordered max certifies queue before after =
      polls_from s gp g registered ordered (s.params.max_number_of_returned_messages - 1)
        (omega arith) certifies (length new) n old new (omega arith) queue before after
