-- ===== src/Api/Callbacks.antt =====
-- The callbacks of the canister, `call_on_open` and `call_on_message` of types.rs, satisfy every
-- preorder that `send` and `close` satisfy.
use ic_websocket_cdk_rs.Prelude.{Option, none, some, Bytes}
use ic_websocket_cdk_rs.Env.{Env}
use ic_websocket_cdk_rs.Env.Program.{CallbackProgram}
use ic_websocket_cdk_rs.State.{State, ok}
use ic_websocket_cdk_rs.State.Relates.{Holds, IsPreorder, Relates, Holds-reported}
use ic_websocket_cdk_rs.State.Sending.{send}
use ic_websocket_cdk_rs.State.Removal.{close}
use ic_websocket_cdk_rs.Api.{run_callback, call_on_open, call_on_message}

module _ ⦃env : Env⦄ {R : State → State → Type 0} (pre : IsPreorder R)
    (app : (s : State) (a : env.App) → R s (record s { app = a }))
    (sends : (p : env.Principal) (bytes : Bytes) → Relates R (send p bytes))
    (closes : (p : env.Principal) → Relates R (close p)) where
  pub run_callback-Relates :
      (p : CallbackProgram env.Principal env.App) → Relates R (run_callback p)
  unfolding run_callback
  run_callback-Relates (CallbackProgram.finish a) = record { at = λ s. app s a }
  run_callback-Relates CallbackProgram.abort = record { at = λ s. tt }
  run_callback-Relates (CallbackProgram.send_then p bytes next) = record {
    at = λ s.
        Holds-reported pre s (send p bytes s) _ ((sends p bytes).at s)
          (λ r. run_callback-Relates (next r));
  }
  run_callback-Relates (CallbackProgram.close_then p next) = record {
    at = λ s.
        Holds-reported pre s (close p s) _ ((closes p).at s) (λ r. run_callback-Relates (next r));
  }

  pub call_on_open-Relates : (p : env.Principal) → Relates R (call_on_open p)
  unfolding call_on_open
  call_on_open-Relates p = record { at = λ s. called s s.params.handlers.on_open }
    where
      called :
          (s : State) (f : Option env.OnOpenCallback)
          → Holds (R s) (elim f [
            | none ↦ ok tt s
            | some on_open ↦
                run_callback (env.on_open_program on_open (record { client_principal = p }) s.app) s
          ])
      called s none = pre.reflexive s
      called s (some f) =
          (run_callback-Relates (env.on_open_program f (record { client_principal = p }) s.app)).at
            s

  pub call_on_message-Relates :
      (p : env.Principal) (message : Bytes) → Relates R (call_on_message p message)
  unfolding call_on_message
  call_on_message-Relates p message = record { at = λ s. called s s.params.handlers.on_message }
    where
      called :
          (s : State) (f : Option env.OnMessageCallback)
          → Holds (R s) (elim f [
            | none ↦ ok tt s
            | some on_message ↦
                run_callback
                  (env.on_message_program on_message
                    (record { client_principal = p; message = message })
                    s.app)
                  s
          ])
      called s none = pre.reflexive s
      called s (some f) =
          (run_callback-Relates (
              env.on_message_program f (record { client_principal = p; message = message })
                s.app)).at
            s
