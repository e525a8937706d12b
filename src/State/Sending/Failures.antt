-- ===== src/State/Sending/Failures.antt =====
-- `_ws_send` of state.rs where the message is not queued.
use ic_websocket_cdk_rs.Prelude.{
  ℕ, ◌≡◌, inr, Bool, none, some, Bytes, Text, get, update, add64, get-update_self,
}
use ic_websocket_cdk_rs.Types.Gateway.{RegisteredGateway, RegisteredClient, increment_nonce}
use ic_websocket_cdk_rs.Env.{Env, Key}
use ic_websocket_cdk_rs.Errors.{to_string, client_key_not_connected, gateway_not_registered}
use ic_websocket_cdk_rs.State.{State, Key-discrete, err}
use ic_websocket_cdk_rs.State.Steps.{
  get_registered_client_ok, get_outgoing_message_nonce_ok, increment_outgoing_message_nonce_ok,
  increment_outgoing_message_to_client_num_ok, get_outgoing_message_to_client_num_ok,
}
use ic_websocket_cdk_rs.State.Missing.{get_registered_client_err, get_outgoing_message_nonce_err}
use ic_websocket_cdk_rs.State.Sending.{ws_send, cbor_serialize}
use ic_websocket_cdk_rs.State.Sending.Success.{websocket_message}

module _ ⦃env : Env⦄ where
  module _ (s : State) (k : Key) (bytes : Bytes) (is_service : Bool) where
    pub ws_send-not_registered :
        ((get Key-discrete k s.registered_clients ≡ none)
          → ws_send k bytes is_service s ≡ err (to_string (client_key_not_connected k)) s)
        × ((c : RegisteredClient env.Principal)
            → get Key-discrete k s.registered_clients ≡ some c
            → get env.principal_discrete c.gateway_principal s.registered_gateways ≡ none
            → ws_send k bytes is_service s
              ≡ err (to_string (gateway_not_registered c.gateway_principal)) s)
    unfolding ws_send
    ws_send-not_registered = (
      λ h. rw (get_registered_client_err s k h),
      λ c h g.
          rw (
            get_registered_client_ok s k h,
            get_outgoing_message_nonce_err s c.gateway_principal g,
          ),
    )

    -- A message to a registered client that cannot be encoded is not queued, and its nonce and its
    -- number are used up: the error leaves the gateway's next nonce and the client's outgoing
    -- number one higher, and all else as it was.
    pub ws_send-not_encoded :
        (c : RegisteredClient env.Principal) (g : RegisteredGateway env.Principal) (num : ℕ)
        (e : Text)
        → get Key-discrete k s.registered_clients ≡ some c
        → get env.principal_discrete c.gateway_principal s.registered_gateways ≡ some g
        → get Key-discrete k s.outgoing_message_to_client_num_map ≡ some num
        → cbor_serialize (websocket_message s k bytes is_service (add64 num 1)) ≡ inr e
        → ws_send k bytes is_service s
          ≡ err e (record s {
            registered_gateways =
                update env.principal_discrete c.gateway_principal increment_nonce
                  s.registered_gateways;
            outgoing_message_to_client_num_map =
                update Key-discrete k (λ n. add64 n 1) s.outgoing_message_to_client_num_map;
          })
    unfolding ws_send
    ws_send-not_encoded c g num e registered at_gateway numbered failed =
        let gp = c.gateway_principal in
        let s₁ = record s {
          registered_gateways =
              update env.principal_discrete gp increment_nonce s.registered_gateways;
        } in
        let s₂ = record s₁ {
          outgoing_message_to_client_num_map =
              update Key-discrete k (λ n. add64 n 1) s.outgoing_message_to_client_num_map;
        } in
        let bumped =
          get-update_self Key-discrete k (λ n. add64 n 1) s.outgoing_message_to_client_num_map
            numbered in
        rw (
          get_registered_client_ok s k registered,
          get_outgoing_message_nonce_ok s gp at_gateway,
          increment_outgoing_message_nonce_ok s gp at_gateway,
          increment_outgoing_message_to_client_num_ok s₁ k numbered,
          get_outgoing_message_to_client_num_ok s₂ k bumped,
          failed,
        )
