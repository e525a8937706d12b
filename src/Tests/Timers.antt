-- ===== src/Tests/Timers.antt =====
-- The timers and `init` at a state with one client that is waited for, and at the empty one.
use ic_websocket_cdk_rs.State.{Key-discrete}
use ic_websocket_cdk_rs.Prelude.{
  get, ℕ, ◌<◌, ◌≤◌, ◌≡◌, ◌⊎◌, ◌∷◌, [], some, arith, false, if◌then◌else◌,
}
use ic_websocket_cdk_rs.Constants.{client_keep_alive_timeout_ms}
use ic_websocket_cdk_rs.Types.Messages.{ClientKey, keep_alive_timeout}
use ic_websocket_cdk_rs.State.{State, ok, trap}
use ic_websocket_cdk_rs.State.Removal.{remove_clients, reset_internal_state}
use ic_websocket_cdk_rs.State.Removal.NoErrors.{Leaves}
use ic_websocket_cdk_rs.State.Registry.{is_registered, set_contains}
use ic_websocket_cdk_rs.State.Registry.Emptied.{IsEmptied, reset_internal_state-IsEmptied}
use ic_websocket_cdk_rs.State.Registry.Removed.{remove_clients-registered}
use ic_websocket_cdk_rs.Timers.{init, check_keep_alive_timer_callback}
use ic_websocket_cdk_rs.Timers.KeepAlive.{is_late, check_keep_alive-registered}
use ic_websocket_cdk_rs.Timers.Schedule.{IsScheduled, init-IsScheduled}
use ic_websocket_cdk_rs.TestCanister.{wipe}
use ic_websocket_cdk_rs.TestCanister.Wiped.{IsFresh, wipe-IsFresh}
use ic_websocket_cdk_rs.Tests.Demo.{demo}
use ic_websocket_cdk_rs.Tests.States.{connected, empty_state, test_key, test_params}

check_keep_alive_example :
    Leaves
      (λ t.
        (j : ClientKey ℕ)
        → is_registered t j ≡ (
            if set_contains j connected.clients_waiting_for_keep_alive
            then (if is_late 400000000000 (get Key-discrete j connected.registered_clients)
                then false
                else is_registered connected j)
            else is_registered connected j))
      (check_keep_alive_timer_callback connected)
check_keep_alive_example = check_keep_alive-registered connected

remove_clients_example :
    Leaves
      (λ t.
        (j : ClientKey ℕ)
        → is_registered t j
          ≡ (if set_contains j (test_key ∷ []) then false else is_registered connected j))
      (remove_clients (test_key ∷ []) (some keep_alive_timeout) connected)
remove_clients_example =
    remove_clients-registered (test_key ∷ []) (some keep_alive_timeout) connected

reset_example : Leaves IsEmptied (reset_internal_state connected)
reset_example = reset_internal_state-IsEmptied connected

init_example :
    ((300000 ≤ client_keep_alive_timeout_ms) × (init test_params empty_state ≡ trap))
    ⊎ ((client_keep_alive_timeout_ms < 300000)
        × ((t : State) × (init test_params empty_state ≡ ok tt t)
            × IsScheduled test_params empty_state t))
init_example = init-IsScheduled test_params empty_state

wipe_example : Leaves (IsFresh tt tt tt 3 300000) (wipe tt tt tt 3 300000 connected)
wipe_example = wipe-IsFresh tt tt tt 3 300000 connected (omega arith)
