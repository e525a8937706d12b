-- ===== src/Api/Spent.antt =====
-- How many nonces `ws_open`, `ws_close` and `ws_message` of lib.rs use up at most, where each callback
-- sends and closes a limited number of times.
use ic_websocket_cdk_rs.Prelude.{
  ℕ, ◌+◌, ◌-◌, ◌==◌, suc, refl, Option, none, some, Bytes, arith, times, times-pred,
}
use ic_websocket_cdk_rs.Types.Messages.{
  new_client_key, CanisterWsOpenArguments, CanisterWsCloseArguments, CanisterWsMessageArguments,
  open_message, wrong_sequence_number, OnOpenCallbackArgs, OnMessageCallbackArgs,
}
use ic_websocket_cdk_rs.Types.Gateway.{new_client}
use ic_websocket_cdk_rs.Env.{Env, Key}
use ic_websocket_cdk_rs.Env.Program.{CallbackProgram}
use ic_websocket_cdk_rs.State.{
  State, Outcome, Key-discrete, ok, err, trap, gets, modify, get_current_time,
}
use ic_websocket_cdk_rs.State.Relates.{Holds, Preserves-IsPreorder}
use ic_websocket_cdk_rs.State.Reads.{
  check_is_gateway_registered-Relates, check_client_registered_to_gateway-Relates,
  get_expected_incoming_message_from_client_num-Relates,
}
use ic_websocket_cdk_rs.State.Clients.{
  get_client_key_from_principal, check_registered_client_exists, add_client,
  check_client_registered_to_gateway, get_expected_incoming_message_from_client_num,
  increment_expected_incoming_message_from_client_num,
}
use ic_websocket_cdk_rs.State.Gateways.{check_is_gateway_registered}
use ic_websocket_cdk_rs.State.Sending.{send, send_service_message_to_client}
use ic_websocket_cdk_rs.State.Removal.{close, remove_client}
use ic_websocket_cdk_rs.State.Queues.Counted.{add_client-IsSound}
use ic_websocket_cdk_rs.State.Queues.Costs.{
  HasSpare, HasSpare-le, same-HasSpare, Costs, Costs-le, Costs-bind, Costs-then, Costs-Preserves,
  Costs-modify, Costs-gets, Costs-fail, Costs-pure, Costs-reported, Costs-ite, Costs-if,
}
use ic_websocket_cdk_rs.State.Queues.Spent.{
  CallsUpTo, IsLimited, send-Costs, send_service_message_to_client-Costs, remove_client-Costs,
  close-Costs,
}
use ic_websocket_cdk_rs.Api.NoCost.{
  client_key-Costs, exists-Costs, check_not_registered-Costs, service-Costs,
  increment_expected-Costs,
}
use ic_websocket_cdk_rs.Api.{
  run_callback, call_on_open, call_on_message, check_not_registered, remove_found,
  remove_old_client, ws_open, ws_close, reject_sequence_num, ws_message,
}

module _ ⦃env : Env⦄ where
  module _ (m : ℕ) (limited : IsLimited m) where
    -- What an on_open or on_message callback uses up at most.
    abbrev pub callback_cost : ℕ
    callback_cost = times m (suc m)

    run_callback-Costs :
        (c : CallbackProgram env.Principal env.App) (d : ℕ)
        → CallsUpTo d c
        → Costs (times d (suc m)) (run_callback c)
    unfolding run_callback
    run_callback-Costs (CallbackProgram.finish a) d h = record {
      at = λ n s spare.
          same-HasSpare n s _ refl refl refl
            (HasSpare-le n (times d (suc m) + n) s (omega arith) spare);
    }
    run_callback-Costs CallbackProgram.abort d h = record { at = λ n s spare. tt }
    run_callback-Costs (CallbackProgram.send_then p bytes next) d h =
        Costs-le (1 + times (d - 1) (suc m)) (times d (suc m)) _
          (omega (arith, times-pred d (suc m) h.0))
          (Costs-reported 1 (times (d - 1) (suc m)) (send p bytes) (λ r. run_callback (next r))
            (send-Costs p bytes) (λ r. run_callback-Costs (next r) (d - 1) (h.1 r)))
    run_callback-Costs (CallbackProgram.close_then p next) d h =
        Costs-le (suc m + times (d - 1) (suc m)) (times d (suc m)) _
          (omega (arith, times-pred d (suc m) h.0))
          (Costs-reported (suc m) (times (d - 1) (suc m)) (close p) (λ r. run_callback (next r))
            (close-Costs m limited p) (λ r. run_callback-Costs (next r) (d - 1) (h.1 r)))

    call_on_open-Costs : (p : env.Principal) → Costs callback_cost (call_on_open p)
    unfolding call_on_open
    call_on_open-Costs p = record { at = λ n s spare. called n s spare s.params.handlers.on_open }
      where
        called :
            (n : ℕ) (s : State)
            → HasSpare (callback_cost + n) s
            → (f : Option env.OnOpenCallback)
            → Holds (HasSpare n) (elim f [
              | none ↦ ok tt s
              | some on_open ↦
                  run_callback
                    (env.on_open_program on_open (record { client_principal = p }) s.app)
                    s
            ])
        called n s spare none = HasSpare-le n (callback_cost + n) s (omega arith) spare
        called n s spare (some f) =
            let args : OnOpenCallbackArgs env.Principal = record { client_principal = p } in
            (run_callback-Costs (env.on_open_program f args s.app) m
                (limited.on_open f args s.app)).at
              n s spare

    call_on_message-Costs :
        (p : env.Principal) (bytes : Bytes) → Costs callback_cost (call_on_message p bytes)
    unfolding call_on_message
    call_on_message-Costs p bytes = record {
      at = λ n s spare. called n s spare s.params.handlers.on_message;
    }
      where
        called :
            (n : ℕ) (s : State)
            → HasSpare (callback_cost + n) s
            → (f : Option env.OnMessageCallback)
            → Holds (HasSpare n) (elim f [
              | none ↦ ok tt s
              | some on_message ↦
                  run_callback
                    (env.on_message_program on_message
                      (record { client_principal = p; message = bytes })
                      s.app)
                    s
            ])
        called n s spare none = HasSpare-le n (callback_cost + n) s (omega arith) spare
        called n s spare (some f) =
            let args : OnMessageCallbackArgs env.Principal = record {
              client_principal = p;
              message = bytes;
            } in
            (run_callback-Costs (env.on_message_program f args s.app) m
                (limited.on_message f args s.app)).at
              n s spare

    removal-Costs : (k : Key) → Costs m (remove_client k none)
    removal-Costs k =
        Costs-le (0 + m) m (remove_client k none) (omega arith)
          (remove_client-Costs m limited k none)

    remove_found_lem :
        (n : ℕ) (o : Outcome Key) → Holds (HasSpare (m + n)) o → Holds (HasSpare n) (remove_found o)
    remove_found_lem n (ok k s) h = (removal-Costs k).at n s h
    remove_found_lem n (err e s) h = HasSpare-le n (m + n) s (omega arith) h
    remove_found_lem n trap h = tt

    remove_old_client-Costs : (p : env.Principal) → Costs m (remove_old_client p)
    remove_old_client-Costs p = record {
      at = λ n s spare.
          remove_found_lem n (get_client_key_from_principal p s)
            ((client_key-Costs p).at (m + n) s (HasSpare-le _ (m + n) s (omega arith) spare));
    }

    pub ws_open-Costs :
        (caller : env.Principal) (args : CanisterWsOpenArguments env.Principal)
        → Costs (m + suc callback_cost) (ws_open caller args)
    unfolding ws_open
    ws_open-Costs caller args =
        let k = new_client_key caller args.client_nonce in
        Costs-then (m + suc callback_cost) _ _
          (Costs-ite 0 (env.principal_discrete caller env.anonymous) _ _ (Costs-fail 0 _)
            (Costs-pure tt))
          λ _.
            Costs-then (m + suc callback_cost) (check_not_registered k) _
              (check_not_registered-Costs k)
              λ _.
                Costs-bind m (suc callback_cost) (remove_old_client caller) _
                  (remove_old_client-Costs caller)
                  λ _.
                    Costs-then (suc callback_cost) (gets get_current_time) _
                      (Costs-gets get_current_time)
                      λ time.
                        Costs-then (suc callback_cost)
                          (modify (add_client k (new_client args.gateway_principal time))) _
                          (Costs-modify (add_client k (new_client args.gateway_principal time))
                            (λ n s spare. (
                              spare.0,
                              add_client-IsSound n k (new_client args.gateway_principal time) s
                                  spare.0 spare.1,
                            )))
                          λ _. Costs-le (1 + callback_cost) (suc callback_cost) _ (omega arith) (
                            Costs-bind 1 callback_cost
                              (send_service_message_to_client k (open_message k)) _
                              (send_service_message_to_client-Costs k (open_message k))
                              (λ _. call_on_open-Costs caller))

    pub ws_close-Costs :
        (gp : env.Principal) (args : CanisterWsCloseArguments env.Principal)
        → Costs m (ws_close gp args)
    unfolding ws_close
    ws_close-Costs gp args =
        let k = args.client_key in
        Costs-then m (check_is_gateway_registered gp) _
          (Costs-Preserves (check_is_gateway_registered gp)
            (λ n. check_is_gateway_registered-Relates (Preserves-IsPreorder (HasSpare n)) gp))
          λ _. Costs-then m (check_registered_client_exists k) _ (exists-Costs k) λ _.
            Costs-then m (check_client_registered_to_gateway k gp) _
              (Costs-Preserves (check_client_registered_to_gateway k gp) (λ n.
                check_client_registered_to_gateway-Relates (Preserves-IsPreorder (HasSpare n)) k
                  gp))
              (λ _. removal-Costs k)

    reject-Costs :
        (k : Key) (expected actual : ℕ) → Costs (suc m) (reject_sequence_num k expected actual)
    reject-Costs k expected actual = Costs-le (1 + m + 0) (suc m) _ (omega arith) (
        Costs-bind (1 + m) 0 (remove_client k (some wrong_sequence_number)) _
          (remove_client-Costs m limited k (some wrong_sequence_number)) (λ _. Costs-fail 0 _))

    pub ws_message-Costs :
        (p : env.Principal) (args : CanisterWsMessageArguments env.Principal)
        → Costs (suc m + callback_cost) (ws_message p args)
    unfolding ws_message
    ws_message-Costs p args =
        let k = args.msg.client_key in
        let total = suc m + callback_cost in
        Costs-then total (get_client_key_from_principal p) _ (client_key-Costs p) λ key.
          Costs-then total _ _
            (Costs-ite 0 (Key-discrete k key) _ _ (Costs-pure tt) (Costs-fail 0 _))
            λ _.
              Costs-then total (get_expected_incoming_message_from_client_num k) _
                (Costs-Preserves (get_expected_incoming_message_from_client_num k) (λ n.
                  get_expected_incoming_message_from_client_num-Relates
                    (Preserves-IsPreorder (HasSpare n)) k))
                λ expected.
                  Costs-bind (suc m) callback_cost _ _
                    (Costs-if (suc m) (args.msg.sequence_num == expected) _ _
                      (Costs-le 0 (suc m) _ (omega arith) (Costs-pure tt))
                      (reject-Costs k expected args.msg.sequence_num))
                    λ _.
                      Costs-then callback_cost
                        (increment_expected_incoming_message_from_client_num k) _
                        (increment_expected-Costs k)
                        λ _.
                          Costs-if callback_cost args.msg.is_service_message _ _
                            (Costs-le 0 callback_cost _ (omega arith)
                              (service-Costs k args.msg.content))
                            (call_on_message-Costs p args.msg.content)
