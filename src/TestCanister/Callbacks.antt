-- ===== src/TestCanister/Callbacks.antt =====
-- src/test_canister/src/canister.rs: the callbacks print a line, and do nothing else.
use ic_websocket_cdk_rs.Prelude.{◌≡◌}
use ic_websocket_cdk_rs.Types.Messages.{
  OnOpenCallbackArgs, OnMessageCallbackArgs, OnCloseCallbackArgs,
}
use ic_websocket_cdk_rs.Env.{Env}
use ic_websocket_cdk_rs.Env.Program.{OnCloseProgram, CallbackProgram}

module _ ⦃env : Env⦄ where
  abbrev pub on_open :
      OnOpenCallbackArgs env.Principal → env.App → CallbackProgram env.Principal env.App
  on_open args app = CallbackProgram.finish app

  abbrev pub on_message :
      OnMessageCallbackArgs env.Principal → env.App → CallbackProgram env.Principal env.App
  on_message args app = CallbackProgram.finish app

  abbrev pub on_close :
      OnCloseCallbackArgs env.Principal → env.App → OnCloseProgram env.Principal env.App
  on_close args app = OnCloseProgram.finish app

  -- The pointers that `init` installs are those of these callbacks.
  pub record ArePrinting (open_pointer : env.OnOpenCallback)
      (message_pointer : env.OnMessageCallback) (close_pointer : env.OnCloseCallback) : Type 0 where
    pub open_program :
        (args : OnOpenCallbackArgs env.Principal) (app : env.App)
        → env.on_open_program open_pointer args app ≡ on_open args app
    pub message_program :
        (args : OnMessageCallbackArgs env.Principal) (app : env.App)
        → env.on_message_program message_pointer args app ≡ on_message args app
    pub close_program :
        (args : OnCloseCallbackArgs env.Principal) (app : env.App)
        → env.on_close_program close_pointer args app ≡ on_close args app
