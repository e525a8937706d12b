-- ===== src/TestCanister/Calls.antt =====
-- The calls of the test canister, src/test_canister/src/lib.rs, with its own callbacks.
use ic_websocket_cdk_rs.Prelude.{◌≡◌, refl, ◌∙◌, some, false, List, [], ◌∷◌, ◌++◌, Bytes, Text, get}
use ic_websocket_cdk_rs.Types.Messages.{CanisterWsMessageArguments}
use ic_websocket_cdk_rs.Env.{Env}
use ic_websocket_cdk_rs.State.{State, Key-discrete, Outcome, ok, err, trap, continue}
use ic_websocket_cdk_rs.State.Sending
use ic_websocket_cdk_rs.State.Registry.{current_key}
use ic_websocket_cdk_rs.Api.{call_on_message, run_callback}
use ic_websocket_cdk_rs.Api.Numbers.{ws_message-in_order, next_number}
use ic_websocket_cdk_rs.TestCanister.{test_handlers, ws_message, send}
use ic_websocket_cdk_rs.TestCanister.Callbacks.{ArePrinting}

module _ ⦃env : Env⦄ where
  -- With the handlers of the test canister installed, whose callbacks only print, an application
  -- message of a connected client with the number that is expected returns without an error, and
  -- the only change is that the next number is expected.
  pub ws_message-counted :
      (f : env.OnOpenCallback) (g : env.OnMessageCallback) (h : env.OnCloseCallback) (s : State)
      (p : env.Principal) (args : CanisterWsMessageArguments env.Principal)
      → ArePrinting f g h
      → s.params.handlers ≡ test_handlers f g h
      → current_key s p ≡ some args.msg.client_key
      → get Key-discrete args.msg.client_key s.incoming_message_from_client_num_map
        ≡ some args.msg.sequence_num
      → args.msg.is_service_message ≡ false
      → ws_message p args s ≡ ok tt (next_number args.msg.client_key s)
  unfolding ws_message call_on_message run_callback
  ws_message-counted f g h s p args printing installed connected expected application =
      ws_message-in_order s p args args.msg.sequence_num connected expected refl
      ∙ rw (application, installed, printing.message_program)

  module _ (p : env.Principal) where
    after_first :
        (xs ys : List Bytes) (o : Outcome (Unit {0}))
        → ((s : State) → send p (xs ++ ys) s ≡ continue (send p xs s) (λ _. send p ys))
        → continue o (λ _. send p (xs ++ ys))
          ≡ continue (continue o (λ _. send p xs)) (λ _. send p ys)
    after_first xs ys (ok a s) h = h s
    after_first xs ys (err e s) h = refl
    after_first xs ys trap h = refl

    -- The messages of two lists are sent one list after the other.
    send-append :
        (xs ys : List Bytes) (s : State)
        → send p (xs ++ ys) s ≡ continue (send p xs s) (λ _. send p ys)
    unfolding send
    send-append [] ys s = refl
    send-append (x ∷ xs) ys s = after_first xs ys (Sending.send p x s) (send-append xs ys)

  -- send of the test canister stops at the first message that the library refuses: where the
  -- messages before it are sent without an error, it returns that message's error, in the state
  -- that this message left, and the rest is not sent.
  pub send-first_error :
      (p : env.Principal) (sent : List Bytes) (m : Bytes) (rest : List Bytes) (s t u : State)
      (e : Text)
      → send p sent s ≡ ok tt t
      → Sending.send p m t ≡ err e u
      → send p (sent ++ m ∷ rest) s ≡ err e u
  unfolding send
  send-first_error p sent m rest s t u e before failed =
      send-append p sent (m ∷ rest) s ∙ rw (before, failed)
