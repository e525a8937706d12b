-- ===== src/Api.antt =====
-- src/ic-websocket-cdk/src/lib.rs: the methods `ws_open`, `ws_close` and `ws_message`. The caller of
-- the message, `msg_caller()`, is an argument. `send`, `close`, `wipe` and `ws_get_messages` stand
-- with the parts of the state that they use.
pub mod Callbacks
pub mod Kept
pub mod Incoming
pub mod Closing
pub mod Numbers
pub mod Opening
pub mod Service
pub mod Disconnecting
pub mod Sound
pub mod NoCost
pub mod Spent
pub mod Safety
use ic_websocket_cdk_rs.Prelude.{
  ℕ, ◌==◌, if◌then◌else◌, Bool, true, false, Option, none, some, Bytes, Text, ite,
}
use ic_websocket_cdk_rs.Types.Messages.{
  ClientKey, new_client_key, CanisterWsOpenArguments, CanisterWsCloseArguments,
  CanisterWsMessageArguments, open_message, wrong_sequence_number,
}
use ic_websocket_cdk_rs.Types.Gateway.{new_client}
use ic_websocket_cdk_rs.Env.{Env, Key}
use ic_websocket_cdk_rs.Env.Program.{CallbackProgram}
use ic_websocket_cdk_rs.Errors.{
  to_string, anonymous_principal_not_allowed, client_key_already_connected,
  client_key_message_mismatch, incoming_sequence_number_wrong,
}
use ic_websocket_cdk_rs.State.{
  get_current_time, get_handlers_from_params, State, Exec, Outcome, Key-discrete, ok, err, trap,
  ◌>>=◌, ◌>>◌, pure, fail, gets, modify, reported,
}
use ic_websocket_cdk_rs.State.Gateways.{check_is_gateway_registered}
use ic_websocket_cdk_rs.State.Clients.{
  check_registered_client_exists, check_client_registered_to_gateway, get_client_key_from_principal,
  add_client, get_expected_incoming_message_from_client_num,
  increment_expected_incoming_message_from_client_num,
}
use ic_websocket_cdk_rs.State.Sending.{send, send_service_message_to_client}
use ic_websocket_cdk_rs.State.Removal.{remove_client, close}
use ic_websocket_cdk_rs.State.Service.{handle_received_service_message}

module _ ⦃env : Env⦄ where
  -- An `on_open` or `on_message` callback of the canister runs to its end.
  unfoldable pub run_callback : CallbackProgram env.Principal env.App → Exec (Unit {0})
  run_callback (CallbackProgram.finish a) s = ok tt (record s { app = a })
  run_callback CallbackProgram.abort s = trap
  run_callback (CallbackProgram.send_then p bytes next) s =
      reported (send p bytes s) (λ r. run_callback (next r))
  run_callback (CallbackProgram.close_then p next) s =
      reported (close p s) (λ r. run_callback (next r))

  -- `WsHandlers::call_on_open` and `call_on_message` of types.rs
  unfoldable pub call_on_open : env.Principal → Exec (Unit {0})
  unfolding run_callback
  call_on_open client_principal s = elim (get_handlers_from_params s).on_open [
    | none ↦ ok tt s
    | some on_open ↦
        run_callback
          (env.on_open_program on_open (record { client_principal = client_principal }) s.app) s
  ]

  unfoldable pub call_on_message : env.Principal → Bytes → Exec (Unit {0})
  unfolding run_callback
  call_on_message client_principal message s = elim (get_handlers_from_params s).on_message [
    | none ↦ ok tt s
    | some on_message ↦
        run_callback
          (env.on_message_program on_message
            (record { client_principal = client_principal; message = message }) s.app)
          s
  ]

  -- The result of `check_registered_client_exists` swapped.
  abbrev pub swapped : Key → Outcome (Unit {0}) → Outcome (Unit {0})
  swapped k (ok _ s) = err (to_string (client_key_already_connected k)) s
  swapped k (err _ s) = ok tt s
  swapped k trap = trap

  abbrev pub check_not_registered : Key → Exec (Unit {0})
  check_not_registered k s = swapped k (check_registered_client_exists k s)

  -- The connection that the same principal still has is removed.
  abbrev pub remove_found : Outcome Key → Outcome (Unit {0})
  remove_found (ok old_client_key s) = remove_client old_client_key none s
  remove_found (err _ s) = ok tt s
  remove_found trap = trap

  abbrev pub remove_old_client : env.Principal → Exec (Unit {0})
  remove_old_client p s = remove_found (get_client_key_from_principal p s)

  unfoldable pub ws_open : env.Principal → CanisterWsOpenArguments env.Principal → Exec (Unit {0})
  ws_open caller args = do
    ite (env.principal_discrete caller env.anonymous)
        (fail (to_string anonymous_principal_not_allowed)) (pure tt)
    let client_key = new_client_key caller args.client_nonce
    check_not_registered client_key
    remove_old_client client_key.client_principal
    time ← gets get_current_time
    modify (add_client client_key (new_client args.gateway_principal time))
    send_service_message_to_client client_key (open_message client_key)
    call_on_open client_key.client_principal

  unfoldable pub ws_close : env.Principal → CanisterWsCloseArguments env.Principal → Exec (Unit {0})
  ws_close gateway_principal args = do
    check_is_gateway_registered gateway_principal
    check_registered_client_exists args.client_key
    check_client_registered_to_gateway args.client_key gateway_principal
    remove_client args.client_key none

  -- The error of a wrong sequence number comes after the removal of the client.
  abbrev pub reject_sequence_num : Key → ℕ → ℕ → Exec (Unit {0})
  reject_sequence_num client_key expected actual = do
    remove_client client_key (some wrong_sequence_number)
    fail (to_string (incoming_sequence_number_wrong expected actual))

  unfoldable pub ws_message :
      env.Principal → CanisterWsMessageArguments env.Principal → Exec (Unit {0})
  ws_message client_principal args = do
    registered_client_key ← get_client_key_from_principal client_principal
    let client_key = args.msg.client_key
    let sequence_num = args.msg.sequence_num
    ite (Key-discrete client_key registered_client_key) (pure tt)
        (fail (to_string (client_key_message_mismatch client_key)))
    expected_sequence_num ← get_expected_incoming_message_from_client_num client_key
    if sequence_num == expected_sequence_num
        then pure tt
        else reject_sequence_num client_key expected_sequence_num sequence_num
    increment_expected_incoming_message_from_client_num client_key
    if args.msg.is_service_message
        then handle_received_service_message client_key args.msg.content
        else call_on_message client_principal args.msg.content
