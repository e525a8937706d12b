-- ===== src/Tests/Reached.antt =====
-- A state that is reached by a connection.
use ic_websocket_cdk_rs.Prelude.{
  ℕ, ◌≡◌, ◌≤◌, ◌≢◌, refl, [], some, arith, true, get, insert, update, ℕ_discrete, is_some,
}
use ic_websocket_cdk_rs.Types.Messages.{
  WebsocketServiceMessageContent, open_message, ack_message, keep_alive_message, close_message,
  ClientKey,
}
use ic_websocket_cdk_rs.Types.Gateway.{
  RegisteredGateway, RegisteredClient, increment_nonce, new_client, delete_old_messages,
  delete_loop, increment_clients_count, new_gateway,
}
use ic_websocket_cdk_rs.Params.{default_params}
use ic_websocket_cdk_rs.State.{State, Key-discrete, trap}
use ic_websocket_cdk_rs.State.Gateways.{
  get_outgoing_message_nonce, increment_outgoing_message_nonce, push_message_in_gateway_queue,
}
use ic_websocket_cdk_rs.State.Clients.{
  check_registered_client_exists, get_client_key_from_principal, add_client, get_registered_client,
  increment_outgoing_message_to_client_num, get_outgoing_message_to_client_num,
}
use ic_websocket_cdk_rs.State.Certification.{
  delete_old_messages_for_gateway, put_cert_for_message, delete_keys_from_cert_tree,
}
use ic_websocket_cdk_rs.State.Sending.{
  ws_send, cbor_serialize, send, send_service_message_to_client,
}
use ic_websocket_cdk_rs.State.Registry.{IsLinked, is_registered}
use ic_websocket_cdk_rs.Api.{ws_open, call_on_open}
use ic_websocket_cdk_rs.Canister.{Call, Reachable, initial_state, perform, settled}
use ic_websocket_cdk_rs.Canister.Invariant.{
  Allows, Reachable-IsLinked, Reachable-Evolves, Reachable-one_connection,
}
use ic_websocket_cdk_rs.Canister.Counted.{opens, Reachable-IsCounted}
use ic_websocket_cdk_rs.State.Registry.Counts.{IsCounted}
use ic_websocket_cdk_rs.Canister.Safety.{Reachable-no_trap}
use ic_websocket_cdk_rs.State.Safety.{NeverTraps, Aligned}
use ic_websocket_cdk_rs.Canister.Sessions.{Evolves, sessions}
use ic_websocket_cdk_rs.Tests.Demo.{demo}
use ic_websocket_cdk_rs.Tests.Connections.{open_args, second_key}

abbrev pub reached : State
unfolding settled perform initial_state
reached =
    settled (initial_state 0 [] [] 0) (perform (Call.opened 7 open_args) (initial_state 0 [] [] 0))

unfoldable pub reached-Reachable : Reachable reached
unfolding reached
reached-Reachable = Reachable.called (Call.opened 7 open_args) (Reachable.installed 0 [] [] 0)

linked_example : IsLinked reached
linked_example = Reachable-IsLinked reached reached-Reachable

closing_events_example :
    Evolves
      (Allows (Call.closed 7))
      (sessions reached)
      (sessions (settled reached (perform (Call.closed 7) reached)))
closing_events_example = Reachable-Evolves reached (Call.closed 7) reached-Reachable

reached-opens : opens reached-Reachable ≡ 1
unfolding opens reached-Reachable
reached-opens = refl

gateways_example :
    IsCounted (opens reached-Reachable) reached
    × ((k : ClientKey ℕ) (c : RegisteredClient ℕ)
        → get Key-discrete k reached.registered_clients ≡ some c
        → (g : RegisteredGateway ℕ) × (get ℕ_discrete c.gateway_principal
              reached.registered_gateways
            ≡ some g)
          × (1 ≤ g.connected_clients_count))
gateways_example = Reachable-IsCounted reached reached-Reachable (omega (arith, reached-opens))

demo_encodes : (m : WebsocketServiceMessageContent ℕ) → is_some (demo.encode_one m) ≡ true
demo_encodes (open_message k) = refl
demo_encodes (ack_message n) = refl
demo_encodes (keep_alive_message n) = refl
demo_encodes (close_message r) = refl

demo-NeverTraps : NeverTraps
demo-NeverTraps = record {
  encodes = demo_encodes;
  on_open = λ f args a r. tt;
  on_message = λ f args a r. tt;
  on_close = λ f args a. tt;
}

no_trap_example : (perform (Call.closed 7) reached ≢ trap) × Aligned reached
no_trap_example = Reachable-no_trap reached (Call.closed 7) demo-NeverTraps reached-Reachable tt

reached-registered : is_registered reached second_key ≡ true
unfolding reached get insert update ℕ_discrete Key-discrete ws_open check_registered_client_exists
    get_client_key_from_principal send_service_message_to_client ws_send cbor_serialize add_client
    get_outgoing_message_nonce new_client increment_outgoing_message_nonce
    increment_outgoing_message_to_client_num get_outgoing_message_to_client_num
    delete_old_messages_for_gateway put_cert_for_message push_message_in_gateway_queue call_on_open
    send get_registered_client delete_old_messages delete_loop increment_nonce
    increment_clients_count new_gateway delete_keys_from_cert_tree default_params
reached-registered = refl

one_connection_example : second_key ≡ second_key
one_connection_example =
    Reachable-one_connection reached second_key second_key reached-Reachable reached-registered
      reached-registered refl
