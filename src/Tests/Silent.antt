-- ===== src/Tests/Silent.antt =====
-- A connection whose client sends nothing.
use ic_websocket_cdk_rs.Prelude.{ℕ, ◌≡◌, refl, [], arith, true, false, get, is_some, if◌then◌else◌}
use ic_websocket_cdk_rs.Types.Messages.{
  WebsocketServiceMessageContent, open_message, ack_message, keep_alive_message, close_message,
  ClientKey,
}
use ic_websocket_cdk_rs.Env.{Env}
use ic_websocket_cdk_rs.State.{State, Key-discrete, ok}
use ic_websocket_cdk_rs.State.Sending.{cbor_serialize}
use ic_websocket_cdk_rs.State.Safety.{NeverTraps}
use ic_websocket_cdk_rs.State.Registry.{is_registered, set_contains}
use ic_websocket_cdk_rs.Timers.{ack_timer_task, check_keep_alive_timer_callback}
use ic_websocket_cdk_rs.Timers.KeepAlive.{is_late}
use ic_websocket_cdk_rs.Timers.Ready.{Serializes, IsReady}
use ic_websocket_cdk_rs.Timers.Acknowledged.{ack_timer_task-waits}
use ic_websocket_cdk_rs.Canister.{Call, Reachable, initial_state, perform, settled}
use ic_websocket_cdk_rs.Canister.Counted.{opens}
use ic_websocket_cdk_rs.Canister.Silent.{Reachable-IsReady, silent_clients-leave}
use ic_websocket_cdk_rs.Tests.Demo.{serializing}
use ic_websocket_cdk_rs.Tests.Connections.{open_args}

instance abbrev here : Env
here = serializing

abbrev opened_state : State
unfolding settled perform initial_state
opened_state =
    settled (initial_state 0 [] [] 0) (perform (Call.opened 7 open_args) (initial_state 0 [] [] 0))

opened_state-Reachable : Reachable opened_state
unfolding opened_state
opened_state-Reachable = Reachable.called (Call.opened 7 open_args) (Reachable.installed 0 [] [] 0)

opened_state-opens : opens opened_state-Reachable ≡ 1
unfolding opens opened_state-Reachable
opened_state-opens = refl

all_encode : (m : WebsocketServiceMessageContent ℕ) → is_some (here.encode_one m) ≡ true
all_encode (open_message k) = refl
all_encode (ack_message n) = refl
all_encode (keep_alive_message n) = refl
all_encode (close_message r) = refl

here-NeverTraps : NeverTraps
here-NeverTraps = record {
  encodes = all_encode;
  on_open = λ f args a. tt;
  on_message = λ f args a. tt;
  on_close = λ f args a. tt;
}

here-Serializes : Serializes
unfolding cbor_serialize
here-Serializes = record { encodes = all_encode; serializes = λ m. (_, refl) }

opened_state-IsReady : IsReady opened_state
opened_state-IsReady =
    Reachable-IsReady opened_state opened_state-Reachable here-NeverTraps
      (omega (arith, opened_state-opens))

waited_example :
    (t : State) × (ack_timer_task opened_state ≡ ok tt t)
    × (t.registered_clients ≡ opened_state.registered_clients)
    × ((j : ClientKey ℕ)
        → set_contains j t.clients_waiting_for_keep_alive ≡ is_registered opened_state j)
    × (is_some t.keep_alive_timer ≡ true)
    × IsReady t
waited_example = ack_timer_task-waits here-Serializes opened_state opened_state-IsReady

silent_example :
    (t : State) × (ack_timer_task opened_state ≡ ok tt t)
    × (u : State) × (check_keep_alive_timer_callback (record t { time = 70000000000 }) ≡ ok tt u)
    × ((j : ClientKey ℕ)
        → is_registered u j ≡ (
            if is_late 70000000000 (get Key-discrete j opened_state.registered_clients)
            then false
            else is_registered opened_state j))
silent_example =
    silent_clients-leave opened_state opened_state-Reachable 70000000000 here-NeverTraps
      here-Serializes (omega (arith, opened_state-opens))
