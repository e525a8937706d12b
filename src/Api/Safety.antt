-- ===== src/Api/Safety.antt =====
-- The canister's methods of lib.rs do not trap where each queued message has its timestamp and no
-- callback traps, and keep it so.
use ic_websocket_cdk_rs.Prelude.{
  ◌≡◌, refl, sym, ◌∙◌, subst, if◌then◌else◌, Option, none, some, Bytes, get, get-insert, ite, ◌⊎◌,
  inl, inr, Text, ◌==◌, Option-cases,
}
use ic_websocket_cdk_rs.Types.Messages.{
  new_client_key, CanisterWsOpenArguments, CanisterWsCloseArguments, CanisterWsMessageArguments,
  WebsocketServiceMessageContent, open_message, ack_message, keep_alive_message, close_message,
  wrong_sequence_number,
}
use ic_websocket_cdk_rs.Types.Gateway.{
  RegisteredClient, RegisteredGateway, new_client, new_gateway, increment_clients_count,
}
use ic_websocket_cdk_rs.Types.Gateway.Expiry.{IsAligned}
use ic_websocket_cdk_rs.Env.{Env, Key}
use ic_websocket_cdk_rs.Env.Program.{CallbackProgram}
use ic_websocket_cdk_rs.State.{State, Outcome, Key-discrete, ok, err, trap, pure, gets, modify}
use ic_websocket_cdk_rs.State.Steps.{increment_expected_incoming_message_from_client_num_ok}
use ic_websocket_cdk_rs.State.Missing.{increment_expected_incoming_message_from_client_num_err}
use ic_websocket_cdk_rs.State.Gateways.{
  check_is_gateway_registered, or_new_gateway, increment_gateway_clients_count,
}
use ic_websocket_cdk_rs.State.Clients.{
  check_registered_client_exists, check_client_registered_to_gateway, get_client_key_from_principal,
  add_client, get_expected_incoming_message_from_client_num,
  increment_expected_incoming_message_from_client_num,
}
use ic_websocket_cdk_rs.State.Sending.{send, send_service_message_to_client}
use ic_websocket_cdk_rs.State.Removal.{remove_client, close}
use ic_websocket_cdk_rs.State.Service.{
  handle_received_service_message, handle_service_content, handle_keep_alive_client_message,
  from_candid_bytes, decoded_or_fail,
}
use ic_websocket_cdk_rs.State.Safety.{
  Finishes, NeverTraps, Aligned, Safe, IsSafe, IsSafe-bind, IsSafe-pure, IsSafe-fail, IsSafe-gets,
  IsSafe-modify, IsSafe-if, IsSafe-ite, Safe-reported, get_client_key_from_principal-IsSafe,
  check_is_gateway_registered-IsSafe, check_registered_client_exists-IsSafe,
  check_client_registered_to_gateway-IsSafe, get_expected_incoming_message_from_client_num-IsSafe,
}
use ic_websocket_cdk_rs.State.Safety.Sends.{send-IsSafe, send_service_message_to_client-IsSafe}
use ic_websocket_cdk_rs.State.Safety.Removals.{remove_client-IsSafe, close-IsSafe}
use ic_websocket_cdk_rs.Api.{
  run_callback, call_on_open, call_on_message, swapped, check_not_registered, remove_found,
  remove_old_client, ws_open, ws_close, reject_sequence_num, ws_message,
}

module _ ⦃env : Env⦄ where
  or_new_gateway-IsAligned :
      (o : Option (RegisteredGateway env.Principal))
      → ((x : RegisteredGateway env.Principal) → o ≡ some x → IsAligned x)
      → IsAligned (increment_clients_count (or_new_gateway o))
  unfolding increment_clients_count new_gateway
  or_new_gateway-IsAligned none h = refl
  or_new_gateway-IsAligned (some x) h = h x refl

  entered :
      {P : Type 0} (d : Dec P) (x g : RegisteredGateway env.Principal)
      (o : Option (RegisteredGateway env.Principal))
      → ite d (some x) o ≡ some g
      → IsAligned x
      → (o ≡ some g → IsAligned g)
      → IsAligned g
  entered (yes p) x g o e a h = let same : x ≡ g = cc in subst IsAligned same a
  entered (no n) x g o e a h = h e

  add_client-Aligned :
      (k : Key) (c : RegisteredClient env.Principal) (s : State)
      → Aligned s
      → Aligned (add_client k c s)
  unfolding add_client increment_gateway_clients_count
  add_client-Aligned k c s h = λ p g e.
      let gp = c.gateway_principal in
      let o = get env.principal_discrete gp s.registered_gateways in
      entered (env.principal_discrete gp p) (increment_clients_count (or_new_gateway o)) g
        (get env.principal_discrete p s.registered_gateways)
        (sym (get-insert env.principal_discrete gp p _ s.registered_gateways) ∙ e)
        (or_new_gateway-IsAligned o (h gp)) (h p g)

  increment_expected-IsSafe :
      (k : Key) → IsSafe (increment_expected_incoming_message_from_client_num k)
  increment_expected-IsSafe k = record {
    at = λ s h. elim (Option-cases (get Key-discrete k s.incoming_message_from_client_num_map)) [
      | inl e ↦ rw (increment_expected_incoming_message_from_client_num_err s k e) h
      | inr (n, e) ↦ rw (increment_expected_incoming_message_from_client_num_ok s k e) h
    ];
  }

  handle_service_content-IsSafe :
      (k : Key) (c : WebsocketServiceMessageContent env.Principal)
      → IsSafe (handle_service_content k c)
  unfolding handle_service_content handle_keep_alive_client_message
  handle_service_content-IsSafe k (open_message _) = IsSafe-fail _
  handle_service_content-IsSafe k (ack_message _) = IsSafe-fail _
  handle_service_content-IsSafe k (close_message _) = IsSafe-fail _
  handle_service_content-IsSafe k (keep_alive_message _) = IsSafe-modify _ (λ s h. h)

  decoded_or_fail-IsSafe :
      (r : WebsocketServiceMessageContent env.Principal ⊎ Text) → IsSafe (decoded_or_fail r)
  decoded_or_fail-IsSafe (inl c) = record { at = λ s h. h }
  decoded_or_fail-IsSafe (inr e) = record { at = λ s h. h }

  handle_received_service_message-IsSafe :
      (k : Key) (b : Bytes) → IsSafe (handle_received_service_message k b)
  unfolding handle_received_service_message
  handle_received_service_message-IsSafe k b =
      IsSafe-bind (from_candid_bytes b) _ (decoded_or_fail-IsSafe (env.decode_one b))
        (handle_service_content-IsSafe k)

  Safe-swapped : (k : Key) (o : Outcome (Unit {0})) → Safe o → Safe (swapped k o)
  Safe-swapped k (ok a s) h = h
  Safe-swapped k (err e s) h = h
  Safe-swapped k trap h = h

  module _ (never : NeverTraps) where
    run_callback-IsSafe :
        (p : CallbackProgram env.Principal env.App) → Finishes p → IsSafe (run_callback p)
    unfolding run_callback
    run_callback-IsSafe (CallbackProgram.finish a) f = record { at = λ s h. h }
    run_callback-IsSafe CallbackProgram.abort f = absurd f
    run_callback-IsSafe (CallbackProgram.send_then p bytes next) f = record {
      at = λ s h.
          Safe-reported (send p bytes s) _ ((send-IsSafe p bytes).at s h)
            (λ r. run_callback-IsSafe (next r) (f r));
    }
    run_callback-IsSafe (CallbackProgram.close_then p next) f = record {
      at = λ s h.
          Safe-reported (close p s) _ ((close-IsSafe never p).at s h)
            (λ r. run_callback-IsSafe (next r) (f r));
    }

    call_on_open-IsSafe : (p : env.Principal) → IsSafe (call_on_open p)
    unfolding call_on_open
    call_on_open-IsSafe p = record { at = λ s h. called s h s.params.handlers.on_open }
      where
        called :
            (s : State)
            → Aligned s
            → (f : Option env.OnOpenCallback)
            → Safe (elim f [
              | none ↦ ok tt s
              | some on_open ↦
                  run_callback
                    (env.on_open_program on_open (record { client_principal = p }) s.app)
                    s
            ])
        called s h none = h
        called s h (some f) =
            (run_callback-IsSafe (env.on_open_program f (record { client_principal = p }) s.app)
                (never.on_open f (record { client_principal = p }) s.app)).at
              s h

    call_on_message-IsSafe : (p : env.Principal) (m : Bytes) → IsSafe (call_on_message p m)
    unfolding call_on_message
    call_on_message-IsSafe p m = record { at = λ s h. called s h s.params.handlers.on_message }
      where
        called :
            (s : State)
            → Aligned s
            → (f : Option env.OnMessageCallback)
            → Safe (elim f [
              | none ↦ ok tt s
              | some on_message ↦
                  run_callback
                    (env.on_message_program on_message
                      (record { client_principal = p; message = m })
                      s.app)
                    s
            ])
        called s h none = h
        called s h (some f) =
            (run_callback-IsSafe
                (env.on_message_program f (record { client_principal = p; message = m }) s.app)
                (never.on_message f (record { client_principal = p; message = m }) s.app)).at
              s h

    check_not_registered-IsSafe : (k : Key) → IsSafe (check_not_registered k)
    check_not_registered-IsSafe k = record {
      at = λ s h.
          Safe-swapped k (check_registered_client_exists k s)
            ((check_registered_client_exists-IsSafe k).at s h);
    }

    Safe-found : (o : Outcome Key) → Safe o → Safe (remove_found o)
    Safe-found (ok k s) h = (remove_client-IsSafe never k none).at s h
    Safe-found (err e s) h = h
    Safe-found trap h = absurd h

    remove_old_client-IsSafe : (p : env.Principal) → IsSafe (remove_old_client p)
    remove_old_client-IsSafe p = record {
      at = λ s h.
          Safe-found (get_client_key_from_principal p s)
            ((get_client_key_from_principal-IsSafe p).at s h);
    }

    pub ws_open-IsSafe :
        (caller : env.Principal) (args : CanisterWsOpenArguments env.Principal)
        → IsSafe (ws_open caller args)
    unfolding ws_open
    ws_open-IsSafe caller args =
        let k : Key = new_client_key caller args.client_nonce in
        IsSafe-bind (ite (env.principal_discrete caller env.anonymous) _ _) _
          (IsSafe-ite _ _ _ (IsSafe-fail _) (IsSafe-pure tt))
          λ _. IsSafe-bind (check_not_registered k) _ (check_not_registered-IsSafe k) λ _.
            IsSafe-bind (remove_old_client caller) _ (remove_old_client-IsSafe caller) λ _.
              IsSafe-bind (gets (λ s. s.time)) _ (IsSafe-gets _) λ time.
                IsSafe-bind (modify (add_client k (new_client args.gateway_principal time))) _
                  (IsSafe-modify _ (add_client-Aligned k (new_client args.gateway_principal time)))
                  λ _.
                    IsSafe-bind (send_service_message_to_client k (open_message k)) _
                      (send_service_message_to_client-IsSafe never k (open_message k))
                      λ _. call_on_open-IsSafe caller

    pub ws_close-IsSafe :
        (gp : env.Principal) (args : CanisterWsCloseArguments env.Principal)
        → IsSafe (ws_close gp args)
    unfolding ws_close
    ws_close-IsSafe gp args =
        let k = args.client_key in
        IsSafe-bind (check_is_gateway_registered gp) _ (check_is_gateway_registered-IsSafe gp) λ _.
          IsSafe-bind (check_registered_client_exists k) _ (check_registered_client_exists-IsSafe k)
            λ _.
              IsSafe-bind (check_client_registered_to_gateway k gp) _
                (check_client_registered_to_gateway-IsSafe k gp)
                λ _. remove_client-IsSafe never k none

    pub ws_message-IsSafe :
        (p : env.Principal) (args : CanisterWsMessageArguments env.Principal)
        → IsSafe (ws_message p args)
    unfolding ws_message
    ws_message-IsSafe p args =
        let k = args.msg.client_key in
        IsSafe-bind (get_client_key_from_principal p) _ (get_client_key_from_principal-IsSafe p)
          λ r.
            IsSafe-bind (ite (Key-discrete k r) _ _) _
              (IsSafe-ite _ _ _ (IsSafe-pure tt) (IsSafe-fail _))
              λ _.
                IsSafe-bind (get_expected_incoming_message_from_client_num k) _
                  (get_expected_incoming_message_from_client_num-IsSafe k)
                  λ n.
                    IsSafe-bind
                      (if args.msg.sequence_num == n
                        then pure tt
                        else reject_sequence_num k n args.msg.sequence_num)
                      _
                      (IsSafe-if _ _ _ (IsSafe-pure tt) (
                        IsSafe-bind (remove_client k (some wrong_sequence_number)) _
                          (remove_client-IsSafe never k (some wrong_sequence_number))
                          λ _. IsSafe-fail _))
                      λ _.
                        IsSafe-bind (increment_expected_incoming_message_from_client_num k) _
                          (increment_expected-IsSafe k)
                          λ _.
                            IsSafe-if args.msg.is_service_message _ _
                              (handle_received_service_message-IsSafe k args.msg.content)
                              (call_on_message-IsSafe p args.msg.content)
