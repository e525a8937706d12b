-- ===== src/State/Clients.antt =====
-- state.rs: the registered clients, the current key of each principal, and the sequence numbers.
use ic_websocket_cdk_rs.Prelude.{ℕ, none, some, List, [], ◌∷◌, ite, get, insert, update, add64}
use ic_websocket_cdk_rs.Constants.{initial_client_sequence_num, initial_canister_sequence_num}
use ic_websocket_cdk_rs.Types.Gateway.{RegisteredClient}
use ic_websocket_cdk_rs.Env.{Env, Key}
use ic_websocket_cdk_rs.Errors.{
  to_string, client_key_not_connected, client_principal_not_connected,
  client_not_registered_to_gateway, outgoing_message_to_client_num_not_initialized,
  expected_incoming_message_to_client_num_not_initialized,
}
use ic_websocket_cdk_rs.State.{State, Exec, Key-discrete, ok, err, ◌>>=◌, or_fail, pure, fail}
use ic_websocket_cdk_rs.State.Gateways.{increment_gateway_clients_count}

module _ ⦃env : Env⦄ where
  unfoldable pub insert_client : Key → RegisteredClient env.Principal → State → State
  insert_client k c s = record s {
    current_client_key_map =
        insert env.principal_discrete k.client_principal k s.current_client_key_map;
    registered_clients = insert Key-discrete k c s.registered_clients;
  }

  unfoldable pub get_registered_client : Key → Exec (RegisteredClient env.Principal)
  get_registered_client k s =
      or_fail (get Key-discrete k s.registered_clients) (to_string (client_key_not_connected k)) s

  unfoldable pub get_client_key_from_principal : env.Principal → Exec Key
  get_client_key_from_principal p s =
      or_fail (get env.principal_discrete p s.current_client_key_map)
        (to_string (client_principal_not_connected p)) s

  unfoldable pub check_registered_client_exists : Key → Exec (Unit {0})
  unfolding get_registered_client
  check_registered_client_exists k = do c ← get_registered_client k; pure tt

  unfoldable pub check_client_registered_to_gateway : Key → env.Principal → Exec (Unit {0})
  unfolding get_registered_client
  check_client_registered_to_gateway k gp = do
    registered_client ← get_registered_client k
    ite (env.principal_discrete registered_client.gateway_principal gp) (pure tt)
        (fail (to_string (client_not_registered_to_gateway k gp)))

  -- `insert` into a hash set.
  unfoldable pub set_insert : Key → List Key → List Key
  set_insert k [] = k ∷ []
  set_insert k (j ∷ ks) = ite (Key-discrete j k) (j ∷ ks) (j ∷ set_insert k ks)

  -- `remove` from a hash set.
  unfoldable pub set_remove : Key → List Key → List Key
  set_remove k [] = []
  set_remove k (j ∷ ks) = ite (Key-discrete j k) (set_remove k ks) (j ∷ set_remove k ks)

  unfoldable pub add_client_to_wait_for_keep_alive : Key → State → State
  add_client_to_wait_for_keep_alive k s = record s {
    clients_waiting_for_keep_alive = set_insert k s.clients_waiting_for_keep_alive;
  }

  unfoldable pub init_outgoing_message_to_client_num : Key → State → State
  init_outgoing_message_to_client_num k s = record s {
    outgoing_message_to_client_num_map =
        insert Key-discrete k initial_canister_sequence_num s.outgoing_message_to_client_num_map;
  }

  unfoldable pub get_outgoing_message_to_client_num : Key → Exec ℕ
  get_outgoing_message_to_client_num k s =
      or_fail (get Key-discrete k s.outgoing_message_to_client_num_map)
        (to_string (outgoing_message_to_client_num_not_initialized k)) s

  unfoldable pub increment_outgoing_message_to_client_num : Key → Exec (Unit {0})
  increment_outgoing_message_to_client_num k s =
      elim (get Key-discrete k s.outgoing_message_to_client_num_map) [
        | none ↦ err (to_string (outgoing_message_to_client_num_not_initialized k)) s
        | some n ↦ ok tt (record s {
          outgoing_message_to_client_num_map =
              update Key-discrete k (λ m. add64 m 1) s.outgoing_message_to_client_num_map;
        })
      ]

  unfoldable pub init_expected_incoming_message_from_client_num : Key → State → State
  init_expected_incoming_message_from_client_num k s = record s {
    incoming_message_from_client_num_map =
        insert Key-discrete k initial_client_sequence_num s.incoming_message_from_client_num_map;
  }

  unfoldable pub get_expected_incoming_message_from_client_num : Key → Exec ℕ
  get_expected_incoming_message_from_client_num k s =
      or_fail (get Key-discrete k s.incoming_message_from_client_num_map)
        (to_string (expected_incoming_message_to_client_num_not_initialized k)) s

  unfoldable pub increment_expected_incoming_message_from_client_num : Key → Exec (Unit {0})
  increment_expected_incoming_message_from_client_num k s =
      elim (get Key-discrete k s.incoming_message_from_client_num_map) [
        | none ↦ err (to_string (expected_incoming_message_to_client_num_not_initialized k)) s
        | some n ↦ ok tt (record s {
          incoming_message_from_client_num_map =
              update Key-discrete k (λ m. add64 m 1) s.incoming_message_from_client_num_map;
        })
      ]

  unfoldable pub add_client : Key → RegisteredClient env.Principal → State → State
  unfolding insert_client init_expected_incoming_message_from_client_num
      init_outgoing_message_to_client_num increment_gateway_clients_count
  add_client k new_client s = increment_gateway_clients_count new_client.gateway_principal (
      init_outgoing_message_to_client_num k
        (init_expected_incoming_message_from_client_num k (insert_client k new_client s)))
