-- ===== src/Api/Closing.antt =====
-- `ws_close` of lib.rs: who may close a connection, and what a refusal leaves.
use ic_websocket_cdk_rs.Prelude.{◌≡◌, ◌⊎◌, inl, inr, none, some, Text, arith, get, Option-cases}
use ic_websocket_cdk_rs.Types.Messages.{CanisterWsCloseArguments}
use ic_websocket_cdk_rs.Types.Gateway.{RegisteredClient, RegisteredGateway}
use ic_websocket_cdk_rs.Errors.{
  to_string, gateway_not_registered, client_key_not_connected, client_not_registered_to_gateway,
}
use ic_websocket_cdk_rs.Env.{Env, Key}
use ic_websocket_cdk_rs.State.{State, Key-discrete, err}
use ic_websocket_cdk_rs.State.Steps.{
  check_is_gateway_registered_ok, check_registered_client_exists_ok,
  check_client_registered_to_gateway_ok,
}
use ic_websocket_cdk_rs.State.Missing.{
  check_is_gateway_registered_err, check_registered_client_exists_err,
  check_client_registered_to_gateway_err,
}
use ic_websocket_cdk_rs.State.Removal.{remove_client}
use ic_websocket_cdk_rs.Api.{ws_close}

module _ ⦃env : Env⦄ where
  -- The caller is a registered gateway, and the client is registered there.
  pub record MayClose (s : State) (gp : env.Principal) (k : Key) : Type 0 where
    pub gateway : RegisteredGateway env.Principal
    pub client : RegisteredClient env.Principal
    pub is_gateway : get env.principal_discrete gp s.registered_gateways ≡ some gateway
    pub is_client : get Key-discrete k s.registered_clients ≡ some client
    pub is_served : client.gateway_principal ≡ gp

  -- ws_close removes the client, without a close message, if the caller is a registered gateway and
  -- the client is registered at that gateway; otherwise it returns an error and leaves the state as
  -- it is.
  pub ws_close-MayClose :
      (s : State) (gp : env.Principal) (args : CanisterWsCloseArguments env.Principal)
      → (MayClose s gp args.client_key
          × (ws_close gp args s ≡ remove_client args.client_key none s))
        ⊎ (¬ MayClose s gp args.client_key × (e : Text) × (ws_close gp args s ≡ err e s))
  unfolding ws_close
  ws_close-MayClose s gp args =
      let k = args.client_key in
      elim (Option-cases (get env.principal_discrete gp s.registered_gateways)) [
        | inl e ↦ inr (
          λ m. absurd (ground (arith, e, m.is_gateway)),
          to_string (gateway_not_registered gp),
          rw (check_is_gateway_registered_err s gp e),
        )
        | inr (g, e) ↦ elim (Option-cases (get Key-discrete k s.registered_clients)) [
          | inl f ↦ inr (
            λ m. absurd (ground (arith, f, m.is_client)),
            to_string (client_key_not_connected k),
            rw (check_is_gateway_registered_ok s gp e, check_registered_client_exists_err s k f),
          )
          | inr (c, f) ↦ elim (env.principal_discrete c.gateway_principal gp) [
            | yes q ↦ inl (
              record { gateway = g; client = c; is_gateway = e; is_client = f; is_served = q },
              rw (
                check_is_gateway_registered_ok s gp e,
                check_registered_client_exists_ok s k f,
                check_client_registered_to_gateway_ok s k gp f q,
              ),
            )
            | no n ↦ inr (
              λ m. n (served c f m),
              to_string (client_not_registered_to_gateway k gp),
              rw (
                check_is_gateway_registered_ok s gp e,
                check_registered_client_exists_ok s k f,
                check_client_registered_to_gateway_err s k gp f n,
              ),
            )
          ]
        ]
      ]
    where
      served :
          (c : RegisteredClient env.Principal)
          → get Key-discrete args.client_key s.registered_clients ≡ some c
          → MayClose s gp args.client_key
          → c.gateway_principal ≡ gp
      served c f m = let e = m.is_client in let q = m.is_served in ground (arith, f, e, q)
