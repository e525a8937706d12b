-- ===== src/Canister.antt =====
-- The life of a canister that uses the library: its state after the first installation or an
-- upgrade, and the messages and timers that run one after the other. lib.rs, timers.rs.
pub mod Sessions
pub mod Invariant
pub mod Counted
pub mod Safety
pub mod Silent
pub mod Certified
use ic_websocket_cdk_rs.Prelude.{ℕ, Option, none, [], Bytes, Text}
use ic_websocket_cdk_rs.Types.Messages.{
  CanisterWsOpenArguments, CanisterWsCloseArguments, CanisterWsMessageArguments,
}
use ic_websocket_cdk_rs.Env.{Env}
use ic_websocket_cdk_rs.Params.{WsInitParams, default_params}
use ic_websocket_cdk_rs.State.{State, Outcome, Exec, ok, err, trap}
use ic_websocket_cdk_rs.State.Sending.{send}
use ic_websocket_cdk_rs.State.Removal.{close, wipe}
use ic_websocket_cdk_rs.Api.{ws_open, ws_close, ws_message}
use ic_websocket_cdk_rs.Timers.{init, ack_timer_task, check_keep_alive_timer_callback}

-- What changes the state: the methods of lib.rs and the two timers.
pub data Call ⦃env : Env⦄ : Type 0 where
  initialized : WsInitParams → Call
  opened : env.Principal → CanisterWsOpenArguments env.Principal → Call
  closed_by_gateway : env.Principal → CanisterWsCloseArguments env.Principal → Call
  received : env.Principal → CanisterWsMessageArguments env.Principal → Call
  sent : env.Principal → Bytes → Call
  closed : env.Principal → Call
  wiped : Call
  ack_timer_fired : Call
  keep_alive_timer_fired : Call

module _ ⦃env : Env⦄ where
  -- The thread-local variables of state.rs and timers.rs as they are initialized, with the system's
  -- part as it is found.
  unfoldable pub initial_state : ℕ → env.Timers → Bytes → env.App → State
  initial_state time timers certified_data app = record {
    registered_clients = [];
    current_client_key_map = [];
    clients_waiting_for_keep_alive = [];
    outgoing_message_to_client_num_map = [];
    incoming_message_from_client_num_map = [];
    cert_tree = env.tree_new;
    registered_gateways = [];
    gateways_to_remove = [];
    params = default_params;
    ack_timer = none;
    keep_alive_timer = none;
    time = time;
    timers = timers;
    certified_data = certified_data;
    app = app;
  }

  unfoldable pub perform : Call → Exec (Unit {0})
  perform (Call.initialized params) = init params
  perform (Call.opened caller args) = ws_open caller args
  perform (Call.closed_by_gateway caller args) = ws_close caller args
  perform (Call.received caller args) = ws_message caller args
  perform (Call.sent p bytes) = send p bytes
  perform (Call.closed p) = close p
  perform Call.wiped = wipe
  perform Call.ack_timer_fired = ack_timer_task
  perform Call.keep_alive_timer_fired = check_keep_alive_timer_callback

  -- After a trap the state is that from before the message.
  unfoldable pub settled : State → Outcome (Unit {0}) → State
  settled s (ok a t) = t
  settled s (err e t) = t
  settled s trap = s

  -- The states between messages. The canister and the system may change their own part, and time
  -- passes.
  pub data Reachable : State → Type 0 where
    installed :
        (time : ℕ) (timers : env.Timers) (certified_data : Bytes) (app : env.App)
        → Reachable (initial_state time timers certified_data app)
    elapsed :
        {s : State} (time : ℕ) (timers : env.Timers) (app : env.App)
        → Reachable s
        → Reachable (record s { time = time; timers = timers; app = app })
    called : {s : State} (c : Call) → Reachable s → Reachable (settled s (perform c s))
