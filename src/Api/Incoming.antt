-- ===== src/Api/Incoming.antt =====
-- `ws_message` of lib.rs keeps every property that follows the rules of State/Registry/Rules.antt
-- and allows for the next incoming number.
use ic_websocket_cdk_rs.Prelude.{
  ℕ, ◌≡◌, refl, ◌∙◌, sym, ap, if◌then◌else◌, ◌⊎◌, some, Bytes, Text, get, is_some-get-update,
  update-IsDistinct, count-update, Option-cases, Bool-cases, inl, inr, ◌==◌, arith,
}
use ic_websocket_cdk_rs.Types.Messages.{
  CanisterWsMessageArguments, wrong_sequence_number, WebsocketServiceMessageContent, open_message,
  ack_message, keep_alive_message, close_message,
}
use ic_websocket_cdk_rs.Env.{Env, Key}
use ic_websocket_cdk_rs.State.{
  State, Exec, Outcome, Key-discrete, ok, err, trap, pure, fail, continue, ◌>>◌,
}
use ic_websocket_cdk_rs.State.Relates.{
  Holds, Relates-bind, Relates-pure, Relates-fail, Relates-modify, Relates-if, Holds-guard,
  Preserves-intro, Preserves-at,
}
use ic_websocket_cdk_rs.State.Steps.{
  get_client_key_from_principal_ok, get_expected_incoming_message_from_client_num_ok,
  increment_expected_incoming_message_from_client_num_ok,
}
use ic_websocket_cdk_rs.State.Missing.{
  get_client_key_from_principal_err, get_expected_incoming_message_from_client_num_err,
}
use ic_websocket_cdk_rs.State.Removal.{remove_client}
use ic_websocket_cdk_rs.State.Clients.{increment_expected_incoming_message_from_client_num}
use ic_websocket_cdk_rs.State.Service.{
  handle_received_service_message, handle_service_content, handle_keep_alive_client_message,
  from_candid_bytes, decoded_or_fail,
}
use ic_websocket_cdk_rs.State.Registry.{IsLinked, current_key}
use ic_websocket_cdk_rs.Types.Gateway.{RegisteredClient, update_last_keep_alive_timestamp}
use ic_websocket_cdk_rs.State.Registry.Counts.{is_at}
use ic_websocket_cdk_rs.State.Registry.Changes.{registered-IsAlone}
use ic_websocket_cdk_rs.State.Registry.Rules.{IsKept, SameRegistry}
use ic_websocket_cdk_rs.State.Registry.Kept.{Keeps, keeping, remove_client-keeps}
use ic_websocket_cdk_rs.Api.{call_on_message, ws_message, reject_sequence_num}
use ic_websocket_cdk_rs.Api.Numbers.{next_number}
use ic_websocket_cdk_rs.Api.Kept.{call_on_message-Keeps}

module _ ⦃env : Env⦄ where
  keep_alive-SameRegistry :
      (k : Key) (s : State) → SameRegistry s (handle_keep_alive_client_message k s)
  unfolding handle_keep_alive_client_message update_last_keep_alive_timestamp
  keep_alive-SameRegistry k s =
      let f : RegisteredClient env.Principal → RegisteredClient env.Principal =
        update_last_keep_alive_timestamp s.time in
      record {
        sessions = record {
          clients = λ j. is_some-get-update Key-discrete k j _ s.registered_clients;
          current = λ p. refl;
          incoming = λ j. refl;
          outgoing = λ j. refl;
          waiting = λ j w. inl w;
        };
        distinct = update-IsDistinct Key-discrete k f s.registered_clients;
        at = λ gp. count-update Key-discrete (is_at gp) k f s.registered_clients (λ c. refl);
        counts = λ gp. refl;
        removals = refl;
      }

  -- After an action that fails, nothing else is done.
  Holds-failed :
      {A B : Type 0} (Q : State → Type 0) (o : Outcome (Unit {0})) (e : Text) (rest : A → Exec B)
      → Holds Q o
      → Holds Q (continue (continue o (λ _. fail e)) rest)
  Holds-failed Q (ok a t) e rest h = h
  Holds-failed Q (err x t) e rest h = h
  Holds-failed Q trap e rest h = tt

  pub next_number-IsLinked : (k : Key) (s : State) → IsLinked s → IsLinked (next_number k s)
  next_number-IsLinked k s h = record {
    owned = h.owned;
    registered = h.registered;
    current = h.current;
    outgoing = h.outgoing;
    incoming = λ j.
        is_some-get-update Key-discrete k j _ s.incoming_message_from_client_num_map ∙ h.incoming j;
    waiting = h.waiting;
  }

  module _ {Drops : Key → Type 0} {P : State → Type 0} (kept : IsKept Drops P)
      (drops : (k : Key) → Drops k) where
    handle_service_content-Keeps :
        (k : Key) (c : WebsocketServiceMessageContent env.Principal)
        → Keeps P (handle_service_content k c)
    unfolding handle_service_content
    handle_service_content-Keeps k (open_message _) = Relates-fail (keeping P) _
    handle_service_content-Keeps k (ack_message _) = Relates-fail (keeping P) _
    handle_service_content-Keeps k (close_message _) = Relates-fail (keeping P) _
    handle_service_content-Keeps k (keep_alive_message _) =
        Relates-modify (keeping P) _ (λ s. kept.same s _ (keep_alive-SameRegistry k s))

    decoded_or_fail-Keeps :
        (r : WebsocketServiceMessageContent env.Principal ⊎ Text) → Keeps P (decoded_or_fail r)
    decoded_or_fail-Keeps (inl c) = Relates-pure (keeping P) c
    decoded_or_fail-Keeps (inr e) = Relates-fail (keeping P) _

    handle_received_service_message-Keeps :
        (k : Key) (b : Bytes) → Keeps P (handle_received_service_message k b)
    unfolding handle_received_service_message
    handle_received_service_message-Keeps k b =
        Relates-bind (keeping P) (from_candid_bytes b) _ (decoded_or_fail-Keeps (env.decode_one b))
          (handle_service_content-Keeps k)

    module _ (p : env.Principal) (args : CanisterWsMessageArguments env.Principal) where
      abbrev k : Key
      k = args.msg.client_key

      -- The next number of the client that sends a message with the number that is expected.
      abbrev pub KeepsReceived : Type 0
      KeepsReceived =
          (s : State)
          → P s
          → current_key s p ≡ some k
          → get Key-discrete k s.incoming_message_from_client_num_map ≡ some args.msg.sequence_num
          → P (next_number k s)

      -- What `ws_message` does with a message that it accepts, after it counted it.
      abbrev handle : Exec (Unit {0})
      handle =
          if args.msg.is_service_message
          then handle_received_service_message k args.msg.content
          else call_on_message p args.msg.content

      abbrev accept : Exec (Unit {0})
      accept = do increment_expected_incoming_message_from_client_num k; handle

      handle-Keeps : Keeps P handle
      handle-Keeps =
          Relates-if (keeping P) args.msg.is_service_message
            (handle_received_service_message k args.msg.content)
            (call_on_message p args.msg.content)
            (handle_received_service_message-Keeps k args.msg.content)
            (call_on_message-Keeps kept drops p args.msg.content)

      module _ (receives : KeepsReceived) where
        -- From the test of the sequence number on.
        checked-keeps :
            (s : State) (n : ℕ)
            → P s
            → current_key s p ≡ some k
            → get Key-discrete k s.incoming_message_from_client_num_map ≡ some n
            → Holds P (
                continue
                  ((if args.msg.sequence_num == n
                      then pure tt
                      else reject_sequence_num k n args.msg.sequence_num)
                    s)
                  (λ _. accept))
        checked-keeps s n h current expected =
            let l = kept.linked s h in
            elim (Bool-cases (args.msg.sequence_num == n)) [
              | inl e ↦
                  let same : n ≡ args.msg.sequence_num = ground (arith, e) in
                  let now = expected ∙ ap some same in
                  rw (e, increment_expected_incoming_message_from_client_num_ok s k expected)
                    (Preserves-at P handle handle-Keeps (next_number k s)
                      (receives s h current now))
              | inr e ↦ rw e (
                  Holds-failed P (remove_client k (some wrong_sequence_number) s) _ (λ _. accept)
                    (remove_client-keeps kept k (some wrong_sequence_number) (drops k) s h
                      (registered-IsAlone s k l (l.registered p k current))))
            ]

        pub ws_message-Keeps : Keeps P (ws_message p args)
        unfolding ws_message
        ws_message-Keeps = Preserves-intro P _ λ s h. elim (Option-cases (current_key s p)) [
          | inl e ↦ rw (get_client_key_from_principal_err s p e) h
          | inr (r, e) ↦ rw (get_client_key_from_principal_ok s p e) (
              Holds-guard P s (Key-discrete k r) _ _
                (λ q.
                  elim (Option-cases (get Key-discrete k s.incoming_message_from_client_num_map)) [
                    | inl f ↦ rw (get_expected_incoming_message_from_client_num_err s k f) h
                    | inr (n, f) ↦
                        rw (get_expected_incoming_message_from_client_num_ok s k f)
                          (checked-keeps s n h (e ∙ ap some (sym q)) f)
                  ])
                h)
        ]
