-- ===== src/Tests/Connections.antt =====
-- Connections that are opened, refused and closed.
use ic_websocket_cdk_rs.Prelude.{
  ℕ, ◌≡◌, ◌≢◌, refl, ◌⊎◌, ◌∷◌, [], some, none, Text, arith, true, false, get, update, ℕ_discrete,
}
use ic_websocket_cdk_rs.Types.Messages.{
  ClientKey, CanisterWsOpenArguments, CanisterWsCloseArguments, closed_by_application,
}
use ic_websocket_cdk_rs.Types.Gateway.{RegisteredClient, increment_nonce}
use ic_websocket_cdk_rs.Errors.{
  to_string, anonymous_principal_not_allowed, client_key_already_connected,
  client_key_not_connected, gateway_not_registered,
}
use ic_websocket_cdk_rs.State.{Key-discrete, err}
use ic_websocket_cdk_rs.State.Relates.{Holds}
use ic_websocket_cdk_rs.State.Sending.{ws_send, cbor_serialize}
use ic_websocket_cdk_rs.State.Sending.Frame.{SameClients}
use ic_websocket_cdk_rs.State.Sending.Failures.{ws_send-not_registered, ws_send-not_encoded}
use ic_websocket_cdk_rs.State.Removal.{remove_client}
use ic_websocket_cdk_rs.State.Removal.Drop.{drop_client, remove_client-Holds}
use ic_websocket_cdk_rs.State.Registry.{is_registered}
use ic_websocket_cdk_rs.Api.{ws_open, ws_close}
use ic_websocket_cdk_rs.Api.Closing.{MayClose, ws_close-MayClose}
use ic_websocket_cdk_rs.Api.Opening.{IsOpened, ws_open-refused, ws_open-IsOpened}
use ic_websocket_cdk_rs.Errors.{client_principal_not_connected}
use ic_websocket_cdk_rs.State.Removal.{close}
use ic_websocket_cdk_rs.State.Removal.NoErrors.{Leaves}
use ic_websocket_cdk_rs.State.Registry.{current_key}
use ic_websocket_cdk_rs.Api.Disconnecting.{IsWithout, close-IsWithout}
use ic_websocket_cdk_rs.Tests.Demo.{demo}
use ic_websocket_cdk_rs.Tests.States.{connected, test_key, test_client, test_gateway}

abbrev close_args : CanisterWsCloseArguments ℕ
close_args = record { client_key = test_key }

close_example :
    (MayClose connected 8 test_key
      × (ws_close 8 close_args connected ≡ remove_client test_key none connected))
    ⊎ (¬ MayClose connected 8 test_key
        × (e : Text) × (ws_close 8 close_args connected ≡ err e connected))
close_example = ws_close-MayClose connected 8 close_args

abbrev pub open_args : CanisterWsOpenArguments ℕ
open_args = record { client_nonce = 4; gateway_principal = 9 }

open_example :
    Holds
      (IsOpened (record { client_principal = 7; client_nonce = 4 }) 9 400000000000)
      (ws_open 7 open_args connected)
unfolding get Key-discrete ℕ_discrete
open_example = ws_open-IsOpened connected 7 open_args (omega arith) refl refl

refused_example :
    (◌≡◌ {A = ℕ} 4 4
      → ws_open 4 open_args connected ≡ err (to_string anonymous_principal_not_allowed) connected)
    × (◌≢◌ {A = ℕ} 4 4
        → is_registered connected (record { client_principal = 4; client_nonce = 4 }) ≡ true
        → ws_open 4 open_args connected
          ≡ err
              (to_string
                (client_key_already_connected (record { client_principal = 4; client_nonce = 4 })))
              connected)
refused_example = ws_open-refused connected 4 open_args

remove_example :
    Holds
      (SameClients (drop_client test_key connected))
      (remove_client test_key (some closed_by_application) connected)
remove_example = remove_client-Holds test_key (some closed_by_application) connected

abbrev pub second_key : ClientKey ℕ
second_key = record { client_principal = 7; client_nonce = 4 }

not_registered_example :
    ((get Key-discrete second_key connected.registered_clients ≡ none)
      → ws_send second_key (5 ∷ []) false connected
        ≡ err (to_string (client_key_not_connected second_key)) connected)
    × ((c : RegisteredClient ℕ)
        → get Key-discrete second_key connected.registered_clients ≡ some c
        → get ℕ_discrete c.gateway_principal connected.registered_gateways ≡ none
        → ws_send second_key (5 ∷ []) false connected
          ≡ err (to_string (gateway_not_registered c.gateway_principal)) connected)
not_registered_example = ws_send-not_registered connected second_key (5 ∷ []) false

not_encoded_example :
    ws_send test_key [] false connected
    ≡ err (3 ∷ []) (record connected {
      registered_gateways = (9, record test_gateway { outgoing_message_nonce = 3 }) ∷ [];
      outgoing_message_to_client_num_map = (test_key, 3) ∷ [];
    })
unfolding get update Key-discrete ℕ_discrete cbor_serialize increment_nonce
not_encoded_example =
    ws_send-not_encoded connected test_key [] false test_client test_gateway 2 (3 ∷ []) refl refl
      refl refl

disconnected_example :
    (current_key connected 7 ≡ none
      → close 7 connected ≡ err (to_string (client_principal_not_connected 7)) connected)
    × ((k : ClientKey ℕ)
        → current_key connected 7 ≡ some k
        → Leaves (IsWithout k connected) (close 7 connected))
disconnected_example = close-IsWithout connected 7
