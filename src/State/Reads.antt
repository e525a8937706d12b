-- ===== src/State/Reads.antt =====
-- state.rs: the functions that only read the state satisfy every preorder.
use ic_websocket_cdk_rs.Env.{Env, Key}
use ic_websocket_cdk_rs.State.{State}
use ic_websocket_cdk_rs.State.Relates.{
  IsPreorder, Relates, Relates-bind, Relates-pure, Relates-fail, Relates-ite, Holds-or_fail,
}
use ic_websocket_cdk_rs.State.Gateways.{
  get_registered_gateway, get_outgoing_message_nonce, check_is_gateway_registered,
}
use ic_websocket_cdk_rs.State.Clients.{
  get_registered_client, get_client_key_from_principal, get_outgoing_message_to_client_num,
  get_expected_incoming_message_from_client_num, check_registered_client_exists,
  check_client_registered_to_gateway,
}

module _ ⦃env : Env⦄ {R : State → State → Type 0} (pre : IsPreorder R) where
  pub get_registered_gateway-Relates : (gp : env.Principal) → Relates R (get_registered_gateway gp)
  unfolding get_registered_gateway
  get_registered_gateway-Relates gp = record { at = λ s. Holds-or_fail pre _ _ s }

  pub get_outgoing_message_nonce-Relates :
      (gp : env.Principal) → Relates R (get_outgoing_message_nonce gp)
  unfolding get_outgoing_message_nonce
  get_outgoing_message_nonce-Relates gp =
      Relates-bind pre (get_registered_gateway gp) _ (get_registered_gateway-Relates gp)
        λ g. Relates-pure pre _

  pub check_is_gateway_registered-Relates :
      (gp : env.Principal) → Relates R (check_is_gateway_registered gp)
  unfolding check_is_gateway_registered
  check_is_gateway_registered-Relates gp =
      Relates-bind pre (get_registered_gateway gp) _ (get_registered_gateway-Relates gp)
        λ g. Relates-pure pre _

  module _ (k : Key) where
    pub get_registered_client-Relates : Relates R (get_registered_client k)
    unfolding get_registered_client
    get_registered_client-Relates = record { at = λ s. Holds-or_fail pre _ _ s }

    pub get_outgoing_message_to_client_num-Relates :
        Relates R (get_outgoing_message_to_client_num k)
    unfolding get_outgoing_message_to_client_num
    get_outgoing_message_to_client_num-Relates = record { at = λ s. Holds-or_fail pre _ _ s }

    pub get_expected_incoming_message_from_client_num-Relates :
        Relates R (get_expected_incoming_message_from_client_num k)
    unfolding get_expected_incoming_message_from_client_num
    get_expected_incoming_message_from_client_num-Relates = record {
      at = λ s. Holds-or_fail pre _ _ s;
    }

    pub check_registered_client_exists-Relates : Relates R (check_registered_client_exists k)
    unfolding check_registered_client_exists
    check_registered_client_exists-Relates =
        Relates-bind pre (get_registered_client k) _ get_registered_client-Relates
          λ c. Relates-pure pre _

    pub check_client_registered_to_gateway-Relates :
        (gp : env.Principal) → Relates R (check_client_registered_to_gateway k gp)
    unfolding check_client_registered_to_gateway
    check_client_registered_to_gateway-Relates gp =
        Relates-bind pre (get_registered_client k) _ get_registered_client-Relates
          λ c. Relates-ite pre _ _ _ (Relates-pure pre _) (Relates-fail pre _)

  pub get_client_key_from_principal-Relates :
      (p : env.Principal) → Relates R (get_client_key_from_principal p)
  unfolding get_client_key_from_principal
  get_client_key_from_principal-Relates p = record { at = λ s. Holds-or_fail pre _ _ s }
