-- ===== src/TestCanister.antt =====
-- src/test_canister/src/lib.rs: the canister of the integration tests, which uses the library. Its
-- callbacks stand in TestCanister/Callbacks.antt; here they are known by their pointers.
pub mod Callbacks
pub mod Calls
pub mod Wiped
use ic_websocket_cdk_rs.Prelude.{ℕ, Option, none, some, List, [], ◌∷◌, Bytes}
use ic_websocket_cdk_rs.Env.{Env}
use ic_websocket_cdk_rs.Params.{
  WsHandlers, WsInitParams, new_params, with_max_number_of_returned_messages,
  with_send_ack_interval_ms,
}
use ic_websocket_cdk_rs.State.{State, Exec, ok, err, trap, pure, unwrap, ◌>>=◌, ◌>>◌}
use ic_websocket_cdk_rs.Types.Messages.{
  CanisterWsOpenArguments, CanisterWsCloseArguments, CanisterWsMessageArguments,
  CanisterWsGetMessagesArguments, CanisterOutputCertifiedMessages,
}
use ic_websocket_cdk_rs.Api
use ic_websocket_cdk_rs.State.Polling
use ic_websocket_cdk_rs.State.Sending
use ic_websocket_cdk_rs.State.Removal
use ic_websocket_cdk_rs.Timers

module _ ⦃env : Env⦄ (on_open : env.OnOpenCallback) (on_message : env.OnMessageCallback)
    (on_close : env.OnCloseCallback) where
  abbrev pub test_handlers : WsHandlers
  test_handlers = record {
    on_open = some on_open;
    on_message = some on_message;
    on_close = some on_close;
  }

  -- `none` where the check of the interval traps.
  abbrev pub built_params : ℕ → ℕ → Option WsInitParams
  built_params max_number_of_returned_messages send_ack_interval_ms =
      with_send_ack_interval_ms send_ack_interval_ms (
        with_max_number_of_returned_messages max_number_of_returned_messages
          (new_params test_handlers))

  unfoldable pub init : ℕ → ℕ → Exec (Unit {0})
  init max_number_of_returned_messages send_ack_interval_ms = do
    params ← unwrap (built_params max_number_of_returned_messages send_ack_interval_ms)
    Timers.init params

  unfoldable pub post_upgrade : ℕ → ℕ → Exec (Unit {0})
  unfolding init
  post_upgrade max_number_of_returned_messages send_ack_interval_ms =
      init max_number_of_returned_messages send_ack_interval_ms

  unfoldable pub wipe : ℕ → ℕ → Exec (Unit {0})
  unfolding init
  wipe max_number_of_returned_messages send_ack_interval_ms = do
    Removal.wipe
    init max_number_of_returned_messages send_ack_interval_ms

module _ ⦃env : Env⦄ where
  -- The methods that pass the call on.
  unfoldable pub ws_open : env.Principal → CanisterWsOpenArguments env.Principal → Exec (Unit {0})
  ws_open caller args = Api.ws_open caller args

  unfoldable pub ws_close : env.Principal → CanisterWsCloseArguments env.Principal → Exec (Unit {0})
  ws_close caller args = Api.ws_close caller args

  unfoldable pub ws_message :
      env.Principal → CanisterWsMessageArguments env.Principal → Exec (Unit {0})
  ws_message caller args = Api.ws_message caller args

  unfoldable pub ws_get_messages :
      env.Principal
      → CanisterWsGetMessagesArguments
      → Exec (CanisterOutputCertifiedMessages env.Principal)
  ws_get_messages caller args = Polling.ws_get_messages caller args

  unfoldable pub close : env.Principal → Exec (Unit {0})
  close client_principal = Removal.close client_principal

  -- The first error ends the loop.
  unfoldable pub send : env.Principal → List Bytes → Exec (Unit {0})
  send client_principal [] = pure tt
  send client_principal (msg_bytes ∷ messages) = do
    Sending.send client_principal msg_bytes
    send client_principal messages
