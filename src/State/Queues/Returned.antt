-- ===== src/State/Queues/Returned.antt =====
-- `ws_get_messages` of lib.rs returns: no index of `get_messages_for_gateway` of state.rs is out of
-- range, whatever the queue and the nonce that is asked for.
use ic_websocket_cdk_rs.Prelude.{
  ℕ, ◌+◌, ◌-◌, ◌≤◌, ◌≡◌, refl, ap, ◌∙◌, inl, inr, Bool, true, false, Bool-cases, Option, none, some,
  Option-cases, List, [], ◌∷◌, arith, take, drop, length, length-take, length-drop, ltb, ltb→lt,
  ltb→le, get, is_some, text_ltb, Text, Bytes, min, leb,
}
use ic_websocket_cdk_rs.Types.Messages.{
  CanisterOutputMessage, CanisterOutputCertifiedMessages, CanisterWsGetMessagesArguments,
  empty_certified_messages,
}
use ic_websocket_cdk_rs.Constants.{label_websocket}
use ic_websocket_cdk_rs.Types.Gateway.{RegisteredGateway}
use ic_websocket_cdk_rs.Env.{Env}
use ic_websocket_cdk_rs.State.{State, ok}
use ic_websocket_cdk_rs.State.Steps.{is_registered_gateway-true}
use ic_websocket_cdk_rs.State.Missing.{is_registered_gateway-false}
use ic_websocket_cdk_rs.State.Certification.{format_message_for_gateway_key, get_cert_for_range}
use ic_websocket_cdk_rs.State.Polling.{
  partition_point, last_of, get_messages_for_gateway_range, certified_messages, get_cert_messages,
  ws_get_messages,
}
use ic_websocket_cdk_rs.State.Queues.Polled.{gateway_queue_ok, get_messages_for_gateway_lem}

partition_point-le-length {ℓ} :
    {A : Type ℓ} (p : A → Bool) (xs : List A) → partition_point p xs ≤ length xs
unfolding partition_point
partition_point-le-length p [] = omega arith
partition_point-le-length p (x ∷ xs) = ground (arith, partition_point-le-length p xs)

module _ ⦃env : Env⦄ where
  -- The system hands out a certificate for the certified data, as it does in a query, and each
  -- witness has a CBOR form.
  pub record CanCertify (s : State) : Type 0 where
    pub certificate : is_some (env.data_certificate s.certified_data) ≡ true
    pub witness : (t : env.HashTree) → is_some (env.serialize_tree t) ≡ true

  some-of_is_some : {A : Type 0} (o : Option A) → is_some o ≡ true → (a : A) × (o ≡ some a)
  some-of_is_some none h = absurd (ground arith)
  some-of_is_some (some a) h = (a, refl)

  get_cert_for_range_ok :
      (s : State) (first last : Text)
      → CanCertify s
      → (cert : Bytes) × (tree : Bytes) × (get_cert_for_range first last s ≡ ok (cert, tree) s)
  unfolding get_cert_for_range
  get_cert_for_range_ok s first last c =
      let (cert, e) = some-of_is_some (env.data_certificate s.certified_data) c.certificate in
      let witness = env.labeled label_websocket (env.value_range first last s.cert_tree) in
      let (tree, f) = some-of_is_some (env.serialize_tree witness) (c.witness witness) in
      (cert, tree, rw (f, e))

  pub some_messages_ok :
      (s : State) (m : CanisterOutputMessage env.Principal)
      (ms : List (CanisterOutputMessage env.Principal)) (is_end : Bool)
      → CanCertify s
      → (r : CanisterOutputCertifiedMessages env.Principal) × (certified_messages (m ∷ ms) is_end s
          ≡ ok r s)
        × (r.messages ≡ m ∷ ms)
        × (r.is_end_of_queue ≡ is_end)
  unfolding certified_messages
  some_messages_ok s m ms is_end c =
      let (cert, tree, e) = get_cert_for_range_ok s m.key (last_of m ms).key c in
      (
        record { messages = m ∷ ms; cert = cert; tree = tree; is_end_of_queue = is_end },
        rw e,
        refl,
        refl,
      )

  pub certified_messages_ok :
      (s : State) (ms : List (CanisterOutputMessage env.Principal)) (is_end : Bool)
      → CanCertify s
      → (r : CanisterOutputCertifiedMessages env.Principal) × (certified_messages ms is_end s
          ≡ ok r s)
        × (r.messages ≡ ms)
  unfolding certified_messages
  certified_messages_ok s [] is_end c = (empty_certified_messages, refl, refl)
  certified_messages_ok s (m ∷ ms) is_end c =
      let (r, e, same, flag) = some_messages_ok s m ms is_end c in (r, e, same)

  abbrev pub queue_in :
      Option (RegisteredGateway env.Principal) → List (CanisterOutputMessage env.Principal)
  queue_in none = []
  queue_in (some g) = g.messages_queue

  module _ (s : State) (gp : env.Principal) (g : RegisteredGateway env.Principal)
      (registered : get env.principal_discrete gp s.registered_gateways ≡ some g) where
    -- Where the range of a poll begins.
    abbrev start_of : ℕ → ℕ
    start_of nonce =
        partition_point (λ x. text_ltb x.key (format_message_for_gateway_key gp nonce))
          g.messages_queue

    abbrev left_of : ℕ → ℕ
    left_of nonce = length g.messages_queue - start_of nonce

    -- The messages of a poll are those from there on, the maximum at most.
    get_cert_messages_lem :
        (nonce : ℕ)
        → get_cert_messages gp nonce s
          ≡ certified_messages
              (take
                (min s.params.max_number_of_returned_messages (left_of nonce))
                (drop (start_of nonce) g.messages_queue))
              (leb (left_of nonce) s.params.max_number_of_returned_messages)
              s
    unfolding get_cert_messages get_messages_for_gateway_range
    get_cert_messages_lem nonce =
        let q = g.messages_queue in
        let max = s.params.max_number_of_returned_messages in
        let i = start_of nonce in
        let le =
          partition_point-le-length (λ x. text_ltb x.key (format_message_for_gateway_key gp nonce))
            q in
        elim (Bool-cases (ltb max (left_of nonce))) [
          | inl more ↦
              let below = ltb→lt max (left_of nonce) more in
              let flag : leb (left_of nonce) max ≡ false = ground arith in
              let count : i + max - i ≡ min max (left_of nonce) = omega arith in
              rw (
                gateway_queue_ok s gp g registered,
                more,
                get_messages_for_gateway_lem s gp g registered i (i + max) (omega arith)
                    (omega arith),
                count,
                flag,
              )
          | inr all ↦
              let above = ltb→le max (left_of nonce) all in
              let flag : leb (left_of nonce) max ≡ true = ground arith in
              let count : length q - i ≡ min max (left_of nonce) = omega arith in
              let poll : get_cert_messages gp nonce s
                  ≡ certified_messages (take (length q - i) (drop i q)) (leb (left_of nonce) max)
                      s =
                rw (
                  gateway_queue_ok s gp g registered,
                  all,
                  get_messages_for_gateway_lem s gp g registered i (length q) (omega arith)
                      (omega arith),
                  flag,
                ) in
              poll
              ∙ ap (λ j. certified_messages (take j (drop i q)) (leb (left_of nonce) max) s) count
        ]

    -- The registered gateway's poll: a contiguous part of its queue.
    pub get_cert_messages-returns :
        (nonce : ℕ)
        → CanCertify s
        → (r : CanisterOutputCertifiedMessages env.Principal) × (get_cert_messages gp nonce s
            ≡ ok r s)
          × (length r.messages ≤ s.params.max_number_of_returned_messages)
          × (i : ℕ) × (r.messages ≡ take (length r.messages) (drop i g.messages_queue))
    get_cert_messages-returns nonce c =
        let q = g.messages_queue in
        let i = start_of nonce in
        let n = min s.params.max_number_of_returned_messages (left_of nonce) in
        let (r, e, same) =
          certified_messages_ok s (take n (drop i q))
            (leb (left_of nonce) s.params.max_number_of_returned_messages) c in
        let count : length r.messages ≡ n =
          ap length same ∙ length-take n (drop i q) ∙ rw (length-drop i q) (omega arith) in
        (r, get_cert_messages_lem nonce ∙ e, omega arith, i, same ∙ rw count refl)

  -- The queue of a gateway, empty where it is not registered.
  abbrev pub queue_at : env.Principal → State → List (CanisterOutputMessage env.Principal)
  queue_at gp s = queue_in (get env.principal_discrete gp s.registered_gateways)

  -- Where the system has a certificate for the certified data and the witnesses have an encoding,
  -- ws_get_messages returns for every caller and every nonce, without an error or a trap, and
  -- leaves the state; it returns as many messages as the parameters allow at most, and they are
  -- consecutive messages of the caller's queue, none if the caller is not a registered gateway.
  pub ws_get_messages-returns :
      (caller : env.Principal) (args : CanisterWsGetMessagesArguments) (s : State)
      → CanCertify s
      → (r : CanisterOutputCertifiedMessages env.Principal) × (ws_get_messages caller args s
          ≡ ok r s)
        × (length r.messages ≤ s.params.max_number_of_returned_messages)
        × (i : ℕ) × (r.messages ≡ take (length r.messages) (drop i (queue_at caller s)))
  unfolding ws_get_messages
  ws_get_messages-returns caller args s c =
      elim (Option-cases (get env.principal_discrete caller s.registered_gateways)) [
        | inl missing ↦ (
          empty_certified_messages,
          rw (is_registered_gateway-false s caller missing),
          omega arith,
          0,
          refl,
        )
        | inr (g, e) ↦
            let (r, returned, bound, i, part) =
              get_cert_messages-returns s caller g e args.nonce c in
            (r, rw (is_registered_gateway-true s caller e) returned, bound, i, rw e part)
      ]
