-- ===== src/Api/Numbers.antt =====
-- The sequence numbers of the messages that clients send: `ws_message` of lib.rs.
use ic_websocket_cdk_rs.Prelude.{
  ℕ, ◌≡◌, ◌≢◌, refl, ◌∙◌, ap, true, false, some, Text, arith, get, update, is_some, add64, ◌==◌,
  if◌then◌else◌, get-update_self, if_pos,
}
use ic_websocket_cdk_rs.Types.Messages.{CanisterWsMessageArguments, wrong_sequence_number}
use ic_websocket_cdk_rs.Errors.{
  to_string, incoming_sequence_number_wrong, client_key_message_mismatch,
}
use ic_websocket_cdk_rs.Env.{Env, Key}
use ic_websocket_cdk_rs.State.{
  State, Outcome, Exec, Key-discrete, ok, err, trap, continue, fail, pure,
}
use ic_websocket_cdk_rs.State.Relates.{Holds, Holds-map}
use ic_websocket_cdk_rs.State.Steps.{
  get_client_key_from_principal_ok, get_expected_incoming_message_from_client_num_ok,
  increment_expected_incoming_message_from_client_num_ok,
}
use ic_websocket_cdk_rs.State.Sending.Frame.{SameClients}
use ic_websocket_cdk_rs.State.Removal.{remove_client}
use ic_websocket_cdk_rs.State.Removal.Drop.{remove_client-Holds}
use ic_websocket_cdk_rs.State.Removal.NoErrors.{NoError, remove_client-NoError}
use ic_websocket_cdk_rs.State.Service.{handle_received_service_message}
use ic_websocket_cdk_rs.State.Registry.{is_registered, current_key}
use ic_websocket_cdk_rs.State.Registry.Changes.{dropped-registered}
use ic_websocket_cdk_rs.Api.{ws_message, call_on_message}

module _ ⦃env : Env⦄ where
  -- An error with this text that leaves such a state, or a trap; no success.
  abbrev pub FailsWith : Text → (State → Type 0) → Outcome (Unit {0}) → Type 0
  FailsWith e P (ok a t) = ⊥
  FailsWith e P (err x t) = (x ≡ e) × P t
  FailsWith e P trap = Unit

  FailsWith-then :
      (e : Text) (P : State → Type 0) (o : Outcome (Unit {0})) (rest : Unit {0} → Exec (Unit {0}))
      → NoError o
      → Holds P o
      → FailsWith e P (continue (continue o (λ _. fail e)) rest)
  FailsWith-then e P (ok a t) rest n h = (refl, h)
  FailsWith-then e P (err x t) rest n h = absurd n
  FailsWith-then e P trap rest n h = tt

  -- What `ws_message` does with a message that it accepts, after the number is increased.
  abbrev pub handle_message :
      env.Principal → CanisterWsMessageArguments env.Principal → Exec (Unit {0})
  handle_message p args =
      if args.msg.is_service_message
      then handle_received_service_message args.msg.client_key args.msg.content
      else call_on_message p args.msg.content

  -- The number that is expected after this one.
  abbrev pub next_number : Key → State → State
  next_number k s = record s {
    incoming_message_from_client_num_map =
        update Key-discrete k (λ n. add64 n 1) s.incoming_message_from_client_num_map;
  }

  module _ (s : State) (p : env.Principal) (args : CanisterWsMessageArguments env.Principal) (n : ℕ)
      (connected : current_key s p ≡ some args.msg.client_key)
      (expected : get Key-discrete args.msg.client_key s.incoming_message_from_client_num_map
        ≡ some n) where
    pub ws_message-in_order :
        args.msg.sequence_num ≡ n
        → ws_message p args s ≡ handle_message p args (next_number args.msg.client_key s)
    unfolding ws_message
    ws_message-in_order e =
        let same : (args.msg.sequence_num == n) ≡ true = ground (arith, e) in
        rw (
          get_client_key_from_principal_ok s p connected,
          if_pos (Key-discrete args.msg.client_key args.msg.client_key) refl (pure tt)
              (fail (to_string (client_key_message_mismatch args.msg.client_key))),
          get_expected_incoming_message_from_client_num_ok s args.msg.client_key expected,
          same,
          increment_expected_incoming_message_from_client_num_ok s args.msg.client_key expected,
        )

    pub ws_message-wrong_number :
        args.msg.sequence_num ≢ n
        → FailsWith
            (to_string (incoming_sequence_number_wrong n args.msg.sequence_num))
            (λ t. is_registered t args.msg.client_key ≡ false)
            (ws_message p args s)
    unfolding ws_message
    ws_message-wrong_number ne =
        let k = args.msg.client_key in
        let other : (args.msg.sequence_num == n) ≡ false = ground (arith, ne) in
        rw
          (
            get_client_key_from_principal_ok s p connected,
            if_pos (Key-discrete args.msg.client_key args.msg.client_key) refl (pure tt)
                (fail (to_string (client_key_message_mismatch args.msg.client_key))),
            get_expected_incoming_message_from_client_num_ok s k expected,
            other,
          )
          (FailsWith-then _ _ (remove_client k (some wrong_sequence_number) s) _
            (remove_client-NoError k (some wrong_sequence_number) s)
            (Holds-map (remove_client k (some wrong_sequence_number) s)
              (λ t d.
                ap (λ m. is_some (get Key-discrete k m)) d.clients
                ∙ dropped-registered s k k
                ∙ if_pos (Key-discrete k k) refl _ _)
              (remove_client-Holds k (some wrong_sequence_number) s)))

  refused_again :
      (s t : State) (p : env.Principal) (args : CanisterWsMessageArguments env.Principal)
      → current_key s p ≡ some args.msg.client_key
      → get Key-discrete args.msg.client_key s.incoming_message_from_client_num_map
        ≡ some args.msg.sequence_num
      → SameClients (next_number args.msg.client_key s) t
      → FailsWith
          (to_string
            (incoming_sequence_number_wrong (add64 args.msg.sequence_num 1) args.msg.sequence_num))
          (λ u. is_registered u args.msg.client_key ≡ false)
          (ws_message p args t)
  refused_again s t p args c e h =
      let k = args.msg.client_key in
      ws_message-wrong_number t p args (add64 args.msg.sequence_num 1)
        (ap (get env.principal_discrete p) h.current ∙ c)
        (ap (get Key-discrete k) h.incoming
          ∙ get-update_self Key-discrete k _ s.incoming_message_from_client_num_map e)
        (omega arith)

  pub ws_message-replayed :
      (s : State) (p : env.Principal) (args : CanisterWsMessageArguments env.Principal)
      → current_key s p ≡ some args.msg.client_key
      → get Key-discrete args.msg.client_key s.incoming_message_from_client_num_map
        ≡ some args.msg.sequence_num
      → Holds
          (SameClients (next_number args.msg.client_key s))
          (handle_message p args (next_number args.msg.client_key s))
      → Holds
          (λ t.
            FailsWith
              (to_string (
                incoming_sequence_number_wrong
                  (add64 args.msg.sequence_num 1)
                  args.msg.sequence_num))
              (λ u. is_registered u args.msg.client_key ≡ false)
              (ws_message p args t))
          (ws_message p args s)
  ws_message-replayed s p args c e h =
      rw (ws_message-in_order s p args args.msg.sequence_num c e refl) (
        Holds-map (handle_message p args (next_number args.msg.client_key s))
          (λ t same. refused_again s t p args c e same) h)
