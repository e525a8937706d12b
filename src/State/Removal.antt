-- ===== src/State/Removal.antt =====
-- state.rs: `remove_client` with the `on_close` callback, the removal of empty gateways, and
-- `reset_internal_state`; `close` and `wipe` of lib.rs.
pub mod Drop
pub mod NoErrors
use ic_websocket_cdk_rs.Prelude.{
  ℕ, Bool, Option, none, some, List, [], ◌∷◌, ◌++◌, map, Text, Map, ite, get, remove, ltb,
  if◌then◌else◌, sub64, from_nanos, from_millis, keys,
}
use ic_websocket_cdk_rs.Types.Messages.{
  CloseMessageReason, closed_by_application, close_message, ClientKey,
}
use ic_websocket_cdk_rs.Types.Gateway.{RegisteredClient, RegisteredGateway}
use ic_websocket_cdk_rs.Types.Gateway.Expiry.{message_keys}
use ic_websocket_cdk_rs.Env.{Env, Key}
use ic_websocket_cdk_rs.Env.Program.{OnCloseProgram}
use ic_websocket_cdk_rs.State.{
  get_current_time, get_params, get_handlers_from_params, State, Outcome, Exec, Key-discrete, ok,
  err, trap, ◌>>=◌, ◌>>◌, pure, gets, modify, ignore_error, reported,
}
use ic_websocket_cdk_rs.State.Gateways.{decrement_gateway_clients_count}
use ic_websocket_cdk_rs.State.Clients.{set_remove, get_client_key_from_principal}
use ic_websocket_cdk_rs.State.Certification.{delete_keys_from_cert_tree}
use ic_websocket_cdk_rs.State.Sending.{send, send_service_message_to_client}

module _ ⦃env : Env⦄ where
  -- An `on_close` callback of the canister runs to its end.
  unfoldable pub run_on_close : OnCloseProgram env.Principal env.App → Exec (Unit {0})
  run_on_close (OnCloseProgram.finish a) s = ok tt (record s { app = a })
  run_on_close OnCloseProgram.abort s = trap
  run_on_close (OnCloseProgram.send_then p bytes next) s =
      reported (send p bytes s) (λ r. run_on_close (next r))

  -- `WsHandlers::call_on_close` of types.rs
  unfoldable pub call_on_close : env.Principal → Exec (Unit {0})
  unfolding run_on_close
  call_on_close client_principal s = elim (get_handlers_from_params s).on_close [
    | none ↦ ok tt s
    | some on_close ↦
        run_on_close
          (env.on_close_program on_close (record { client_principal = client_principal }) s.app) s
  ]

  unfoldable pub forget_client : Key → State → State
  forget_client k s = record s {
    clients_waiting_for_keep_alive = set_remove k s.clients_waiting_for_keep_alive;
    current_client_key_map =
        remove env.principal_discrete k.client_principal s.current_client_key_map;
    outgoing_message_to_client_num_map = remove Key-discrete k s.outgoing_message_to_client_num_map;
    incoming_message_from_client_num_map =
        remove Key-discrete k s.incoming_message_from_client_num_map;
  }

  -- What is done with the client that `REGISTERED_CLIENTS.remove(client_key)` returns.
  abbrev pub on_removed : Key → Option (RegisteredClient env.Principal) → Exec (Unit {0})
  on_removed k none s = ok tt s
  on_removed k (some registered_client) s = call_on_close k.client_principal (
      decrement_gateway_clients_count registered_client.gateway_principal
        (record s { registered_clients = remove Key-discrete k s.registered_clients }))

  unfoldable pub take_registered_client : Key → Exec (Unit {0})
  unfolding decrement_gateway_clients_count call_on_close
  take_registered_client k s = on_removed k (get Key-discrete k s.registered_clients) s

  abbrev pub send_close_message : Key → Option CloseMessageReason → Exec (Unit {0})
  send_close_message k none = pure tt
  send_close_message k (some reason) =
      ignore_error (send_service_message_to_client k (close_message reason))

  unfoldable pub remove_client : Key → Option CloseMessageReason → Exec (Unit {0})
  unfolding forget_client take_registered_client
  remove_client k close_reason = do
    send_close_message k close_reason
    modify (forget_client k)
    take_registered_client k

  -- lib.rs
  unfoldable pub close : env.Principal → Exec (Unit {0})
  close client_principal = do
    client_key ← get_client_key_from_principal client_principal
    remove_client client_key (some closed_by_application)
    pure tt

  -- The age test of `remove_empty_expired_gateways`.
  unfoldable pub is_expired : ℕ → ℕ → ℕ → Bool
  is_expired time ack_interval_ms added_at =
      ltb (from_millis ack_interval_ms) (from_nanos (sub64 time added_at))

  -- The closure of `retain`: the principals that it collects, and the entries that it keeps.
  unfoldable pub collect_expired : ℕ → ℕ → Map env.Principal ℕ → List env.Principal
  unfolding is_expired
  collect_expired time interval [] = []
  collect_expired time interval ((gp, added_at) ∷ m) =
      let rest = collect_expired time interval m in
      if is_expired time interval added_at then gp ∷ rest else rest

  unfoldable pub retain_unexpired : ℕ → ℕ → Map env.Principal ℕ → Map env.Principal ℕ
  unfolding is_expired
  retain_unexpired time interval [] = []
  retain_unexpired time interval ((gp, added_at) ∷ m) =
      let rest = retain_unexpired time interval m in
      if is_expired time interval added_at then rest else (gp, added_at) ∷ rest

  -- What is done with the gateway that `REGISTERED_GATEWAYS.remove(gateway_principal)` returns.
  abbrev pub on_gateway_removed :
      env.Principal → Option (RegisteredGateway env.Principal) → State → State
  on_gateway_removed gp none s = s
  on_gateway_removed gp (some g) s =
      delete_keys_from_cert_tree (message_keys g.messages_queue)
        (record s { registered_gateways = remove env.principal_discrete gp s.registered_gateways })

  unfoldable pub remove_gateway : env.Principal → State → State
  remove_gateway gp s =
      on_gateway_removed gp (get env.principal_discrete gp s.registered_gateways) s

  unfoldable pub remove_gateways : List env.Principal → State → State
  unfolding remove_gateway
  remove_gateways [] s = s
  remove_gateways (gp ∷ gps) s = remove_gateways gps (remove_gateway gp s)

  unfoldable pub remove_empty_expired_gateways : State → State
  unfolding collect_expired retain_unexpired remove_gateways
  remove_empty_expired_gateways s =
      let interval = (get_params s).send_ack_interval_ms in
      let visited = env.hash_order s.gateways_to_remove in
      remove_gateways (collect_expired (get_current_time s) interval visited)
        (record s { gateways_to_remove = retain_unexpired (get_current_time s) interval visited })

  unfoldable pub remove_clients : List Key → Option CloseMessageReason → Exec (Unit {0})
  remove_clients [] reason = pure tt
  remove_clients (k ∷ ks) reason = do remove_client k reason; remove_clients ks reason

  -- The maps that `reset_internal_state` clears at its end.
  unfoldable pub clear_maps : State → State
  clear_maps s = record s {
    current_client_key_map = [];
    clients_waiting_for_keep_alive = [];
    outgoing_message_to_client_num_map = [];
    incoming_message_from_client_num_map = [];
    cert_tree = env.tree_new;
    registered_gateways = [];
    gateways_to_remove = [];
  }

  unfoldable pub reset_internal_state : Exec (Unit {0})
  unfolding remove_clients clear_maps
  reset_internal_state = do
    client_keys_to_remove ← gets (λ s. env.hash_order (keys s.registered_clients))
    remove_clients client_keys_to_remove none
    modify clear_maps

  -- lib.rs, without the line that it prints.
  abbrev pub wipe : Exec (Unit {0})
  wipe = reset_internal_state
