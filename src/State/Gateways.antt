-- ===== src/State/Gateways.antt =====
-- state.rs: the registered gateways, and the count of the clients of each.
use ic_websocket_cdk_rs.Prelude.{
  ℕ, Bool, true, false, ◌==◌, if◌then◌else◌, Option, none, some, get, insert, remove, update,
}
use ic_websocket_cdk_rs.Types.Messages.{CanisterOutputMessage}
use ic_websocket_cdk_rs.Types.Gateway.{
  RegisteredGateway, new_gateway, increment_nonce, increment_clients_count, decrement_clients_count,
  add_message_to_queue,
}
use ic_websocket_cdk_rs.Env.{Env}
use ic_websocket_cdk_rs.Errors.{to_string, gateway_not_registered}
use ic_websocket_cdk_rs.State.{get_current_time, State, Exec, ok, err, ◌>>=◌, or_fail, pure}

module _ ⦃env : Env⦄ where
  -- `or_insert_with(RegisteredGateway::new)`
  abbrev pub or_new_gateway :
      Option (RegisteredGateway env.Principal) → RegisteredGateway env.Principal
  or_new_gateway none = new_gateway
  or_new_gateway (some g) = g

  unfoldable pub increment_gateway_clients_count : env.Principal → State → State
  increment_gateway_clients_count gp s = record s {
    gateways_to_remove = remove env.principal_discrete gp s.gateways_to_remove;
    registered_gateways =
        insert env.principal_discrete gp
          (increment_clients_count
            (or_new_gateway (get env.principal_discrete gp s.registered_gateways)))
          s.registered_gateways;
  }

  -- `is_some_and` of the count after the decrement being 0.
  abbrev pub becomes_empty : Option (RegisteredGateway env.Principal) → Bool
  becomes_empty none = false
  becomes_empty (some g) = (decrement_clients_count g).connected_clients_count == 0

  unfoldable pub decrement_gateway_clients_count : env.Principal → State → State
  decrement_gateway_clients_count gp s = record s {
    registered_gateways =
        update env.principal_discrete gp decrement_clients_count s.registered_gateways;
    gateways_to_remove =
        if becomes_empty (get env.principal_discrete gp s.registered_gateways)
        then insert env.principal_discrete gp (get_current_time s) s.gateways_to_remove
        else s.gateways_to_remove;
  }

  unfoldable pub get_registered_gateway : env.Principal → Exec (RegisteredGateway env.Principal)
  get_registered_gateway gp s =
      or_fail (get env.principal_discrete gp s.registered_gateways)
        (to_string (gateway_not_registered gp)) s

  unfoldable pub check_is_gateway_registered : env.Principal → Exec (Unit {0})
  unfolding get_registered_gateway
  check_is_gateway_registered gp = do g ← get_registered_gateway gp; pure tt

  -- `is_ok()`; the state is only read.
  unfoldable pub is_registered_gateway : env.Principal → State → Bool
  unfolding get_registered_gateway
  is_registered_gateway gp s = elim (get_registered_gateway gp s) [ ok _ _ ↦ true | _ ↦ false ]

  unfoldable pub get_outgoing_message_nonce : env.Principal → Exec ℕ
  unfolding get_registered_gateway
  get_outgoing_message_nonce gp = do g ← get_registered_gateway gp; pure g.outgoing_message_nonce

  -- A write through `get_mut(gp)`, or an error.
  update_gateway :
      env.Principal
      → (RegisteredGateway env.Principal → RegisteredGateway env.Principal)
      → Exec (Unit {0})
  update_gateway gp f s = elim (get env.principal_discrete gp s.registered_gateways) [
    | none ↦ err (to_string (gateway_not_registered gp)) s
    | some g ↦ ok tt (record s {
      registered_gateways = update env.principal_discrete gp f s.registered_gateways;
    })
  ]

  unfoldable pub increment_outgoing_message_nonce : env.Principal → Exec (Unit {0})
  unfolding update_gateway
  increment_outgoing_message_nonce gp = update_gateway gp increment_nonce

  unfoldable pub push_message_in_gateway_queue :
      env.Principal → CanisterOutputMessage env.Principal → ℕ → Exec (Unit {0})
  unfolding update_gateway
  push_message_in_gateway_queue gp message message_timestamp =
      update_gateway gp (λ g. add_message_to_queue g message message_timestamp)
