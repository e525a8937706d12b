-- ===== src/Timers.antt =====
-- src/ic-websocket-cdk/src/timers.rs, and `init` of lib.rs. The lines that print are left out.
pub mod Kept
pub mod Ready
pub mod Acknowledged
pub mod Safety
pub mod KeepAlive
pub mod Schedule
pub mod Spent
use ic_websocket_cdk_rs.Prelude.{
  ℕ, ◌-◌, Bool, if◌then◌else◌, ltb, sub64, from_millis, Option, none, some, List, [], ◌∷◌, get,
  keys,
}
use ic_websocket_cdk_rs.Constants.{client_keep_alive_timeout_ms, client_keep_alive_timeout_ns}
use ic_websocket_cdk_rs.Types.Messages.{ack_message, keep_alive_timeout}
use ic_websocket_cdk_rs.Types.Gateway.{RegisteredClient, get_last_keep_alive_timestamp}
use ic_websocket_cdk_rs.Env.{Env, Key}
use ic_websocket_cdk_rs.Env.Program.{send_ack_every, check_keep_alive_after}
use ic_websocket_cdk_rs.Params.{WsInitParams, check_validity}
use ic_websocket_cdk_rs.State.{
  get_current_time, set_params, get_params, State, Exec, Outcome, Key-discrete, ok, err, trap,
  ◌>>=◌, ◌>>◌, pure, gets, modify, unwrap,
}
use ic_websocket_cdk_rs.State.Clients.{
  get_expected_incoming_message_from_client_num, add_client_to_wait_for_keep_alive,
}
use ic_websocket_cdk_rs.State.Sending.{send_service_message_to_client}
use ic_websocket_cdk_rs.State.Removal.{remove_clients, remove_empty_expired_gateways}

module _ ⦃env : Env⦄ where
  abbrev clear_timer_of : Option env.TimerId → env.Timers → env.Timers
  clear_timer_of none ts = ts
  clear_timer_of (some id) ts = env.clear_timer id ts

  abbrev put_ack_timer_id : env.TimerId → State → State
  put_ack_timer_id timer_id s = record s { ack_timer = some timer_id }

  abbrev put_keep_alive_timer_id : env.TimerId → State → State
  put_keep_alive_timer_id timer_id s = record s { keep_alive_timer = some timer_id }

  unfoldable pub cancel_ack_timer : State → State
  cancel_ack_timer s = record s { ack_timer = none; timers = clear_timer_of s.ack_timer s.timers }

  unfoldable pub cancel_keep_alive_timer : State → State
  cancel_keep_alive_timer s = record s {
    keep_alive_timer = none;
    timers = clear_timer_of s.keep_alive_timer s.timers;
  }

  unfoldable pub cancel_timers : State → State
  unfolding cancel_ack_timer cancel_keep_alive_timer
  cancel_timers s = cancel_keep_alive_timer (cancel_ack_timer s)

  unfoldable pub schedule_send_ack_to_clients : State → State
  schedule_send_ack_to_clients s =
      let r =
        env.set_timer (send_ack_every (from_millis (get_params s).send_ack_interval_ms)) s.timers in
      put_ack_timer_id r.0 (record s { timers = r.1 })

  unfoldable pub schedule_check_keep_alive : State → State
  schedule_check_keep_alive s =
      let r =
        env.set_timer (check_keep_alive_after (from_millis client_keep_alive_timeout_ms))
          s.timers in
      put_keep_alive_timer_id r.0 (record s { timers = r.1 })

  -- A client that got the acknowledgement is waited for; an error leaves it out.
  abbrev pub acknowledged : Key → Outcome (Unit {0}) → Outcome (Unit {0})
  acknowledged k (ok _ s) = ok tt (add_client_to_wait_for_keep_alive k s)
  acknowledged k (err _ s) = ok tt s
  acknowledged k trap = trap

  abbrev pub acknowledge : Key → Outcome ℕ → Outcome (Unit {0})
  acknowledge k (ok expected s) =
      acknowledged k (send_service_message_to_client k (ack_message (sub64 expected 1)) s)
  acknowledge k (err _ s) = ok tt s
  acknowledge k trap = trap

  -- One turn of the loop.
  unfoldable pub send_ack_to_client : Key → Exec (Unit {0})
  send_ack_to_client k s = acknowledge k (get_expected_incoming_message_from_client_num k s)

  unfoldable pub send_acks : List Key → Exec (Unit {0})
  unfolding send_ack_to_client
  send_acks [] = pure tt
  send_acks (k ∷ ks) = do send_ack_to_client k; send_acks ks

  unfoldable pub send_ack_to_clients_timer_callback : Exec (Unit {0})
  unfolding send_acks
  send_ack_to_clients_timer_callback = do
    client_keys ← gets (λ s. env.hash_order (keys s.registered_clients))
    send_acks client_keys

  -- The closure of the interval timer.
  unfoldable pub ack_timer_task : Exec (Unit {0})
  unfolding send_ack_to_clients_timer_callback schedule_check_keep_alive
  ack_timer_task = do send_ack_to_clients_timer_callback; modify schedule_check_keep_alive

  -- The test of the `filter_map` on the entry of a waiting client.
  unfoldable pub has_timed_out : ℕ → Option (RegisteredClient env.Principal) → Bool
  has_timed_out time none = Bool.false
  has_timed_out time (some client_metadata) =
      ltb client_keep_alive_timeout_ns (sub64 time (get_last_keep_alive_timestamp client_metadata))

  unfoldable pub timed_out_clients : State → List Key → List Key
  unfolding has_timed_out
  timed_out_clients s [] = []
  timed_out_clients s (k ∷ ks) =
      let rest = timed_out_clients s ks in
      if has_timed_out (get_current_time s) (get Key-discrete k s.registered_clients)
      then k ∷ rest
      else rest

  unfoldable pub check_keep_alive_timer_callback : Exec (Unit {0})
  unfolding timed_out_clients
  check_keep_alive_timer_callback = do
    modify remove_empty_expired_gateways
    client_keys_to_remove ←
        gets (λ s. timed_out_clients s (env.hash_order s.clients_waiting_for_keep_alive))
    remove_clients client_keys_to_remove (some keep_alive_timeout)

  -- `init` of lib.rs
  unfoldable pub init : WsInitParams → Exec (Unit {0})
  unfolding cancel_timers schedule_send_ack_to_clients check_validity
  init params = do
    unwrap (check_validity params)
    modify (set_params params)
    modify cancel_timers
    modify schedule_send_ack_to_clients
