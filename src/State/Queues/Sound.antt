-- ===== src/State/Queues/Sound.antt =====
-- `_ws_send` of state.rs on every branch: the queues stay in order and certified.
use ic_websocket_cdk_rs.Prelude.{
  ℕ, suc, ◌≡◌, refl, sym, ap, ◌∙◌, subst, ◌⊎◌, inl, inr, Bool, Option, none, some, Bytes, Text,
  arith, add64, get, Option-cases,
}
use ic_websocket_cdk_rs.Types.Gateway.{RegisteredGateway, RegisteredClient}
use ic_websocket_cdk_rs.Env.{Env, Key}
use ic_websocket_cdk_rs.State.{State, Key-discrete}
use ic_websocket_cdk_rs.State.Relates.{Holds}
use ic_websocket_cdk_rs.State.Steps.{
  get_registered_client_ok, get_outgoing_message_nonce_ok, increment_outgoing_message_nonce_ok,
}
use ic_websocket_cdk_rs.State.Missing.{increment_outgoing_message_to_client_num_err}
use ic_websocket_cdk_rs.State.Sending.{ws_send, cbor_serialize}
use ic_websocket_cdk_rs.State.Sending.Success.{websocket_message}
use ic_websocket_cdk_rs.State.Sending.Failures.{ws_send-not_registered, ws_send-not_encoded}
use ic_websocket_cdk_rs.State.Queues.Sent.{ws_send-IsCertified}
pub use ic_websocket_cdk_rs.State.Queues.Raised.{HasRoom, IsSound}
use ic_websocket_cdk_rs.State.Queues.Raised.{raised, raised-IsSound}

module _ ⦃env : Env⦄ where
  abbrev nonce_of : Option (RegisteredGateway env.Principal) → ℕ
  nonce_of none = 0
  nonce_of (some g) = g.outgoing_message_nonce

  result-cases : (r : Bytes ⊎ Text) → ((b : Bytes) × (r ≡ inl b)) ⊎ ((e : Text) × (r ≡ inr e))
  result-cases (inl b) = inl (b, refl)
  result-cases (inr e) = inr (e, refl)

  module _ (n : ℕ) (s : State) (k : Key) (bytes : Bytes) (is_service : Bool)
      (sound : IsSound (suc n) s) where
    unchanged : IsSound n s
    unchanged = (sound.0, λ p g e. omega (arith, sound.1 p g e))

    module _ (c : RegisteredClient env.Principal) (g : RegisteredGateway env.Principal)
        (registered : get Key-discrete k s.registered_clients ≡ some c)
        (at_gateway : get env.principal_discrete c.gateway_principal s.registered_gateways
          ≡ some g) where
      without_number :
          get Key-discrete k s.outgoing_message_to_client_num_map ≡ none
          → Holds (IsSound n) (ws_send k bytes is_service s)
      unfolding ws_send
      without_number e =
          rw
            (
              get_registered_client_ok s k registered,
              get_outgoing_message_nonce_ok s c.gateway_principal at_gateway,
              increment_outgoing_message_nonce_ok s c.gateway_principal at_gateway,
              increment_outgoing_message_to_client_num_err (raised c.gateway_principal s) k e,
            )
            (raised-IsSound n c.gateway_principal s sound)

      module _ (num : ℕ)
          (numbered : get Key-discrete k s.outgoing_message_to_client_num_map ≡ some num) where
        when_sent :
            (content : Bytes)
            → cbor_serialize (websocket_message s k bytes is_service (add64 num 1)) ≡ inl content
            → Holds (IsSound n) (ws_send k bytes is_service s)
        when_sent content encoded =
            let gp = c.gateway_principal in
            let sent =
              ws_send-IsCertified s k bytes is_service c g num content registered at_gateway
                numbered encoded sound.0 (omega (arith, sound.1 gp g at_gateway)) in
            rw (sent.1) (
              sent.2,
              λ p x h. elim (env.principal_discrete gp p) [
                | yes q ↦
                    let here =
                      sym sent.3
                      ∙ subst
                          (λ j. get env.principal_discrete j sent.0.registered_gateways ≡ some x)
                          (sym q) h in
                    omega (arith, sound.1 gp g at_gateway, ap nonce_of here)
                | no m ↦ let room = sound.1 p x (sym (sent.4 p m) ∙ h) in omega (arith, room)
              ],
            )

        when_not_encoded :
            (e : Text)
            → cbor_serialize (websocket_message s k bytes is_service (add64 num 1)) ≡ inr e
            → Holds (IsSound n) (ws_send k bytes is_service s)
        when_not_encoded e failed =
            let r = raised-IsSound n c.gateway_principal s sound in
            rw
              (ws_send-not_encoded s k bytes is_service c g num e registered at_gateway numbered
                failed)
              (record { ordered = r.0.ordered; covered = r.0.covered; current = r.0.current }, r.1)

    -- Where every gateway's queue is in the order of its nonces with one timestamp per message,
    -- every queued message's hash is in the tree, the certified data is the tree's root if a
    -- message is queued, and every gateway's next nonce plus n + 1 is below 2^64, a send to any
    -- client leaves the queues, the tree and the certified data so, with every next nonce plus n
    -- below 2^64, whether it returns or fails.
    pub ws_send-IsSound : Holds (IsSound n) (ws_send k bytes is_service s)
    ws_send-IsSound =
        let refusals = ws_send-not_registered s k bytes is_service in
        elim (Option-cases (get Key-discrete k s.registered_clients)) [
          | inl e ↦ rw (refusals.0 e) unchanged
          | inr (c, e) ↦
              elim (Option-cases
                (get env.principal_discrete c.gateway_principal s.registered_gateways)) [
                  | inl f ↦ rw (refusals.1 c e f) unchanged
                  | inr (g, f) ↦
                      elim (Option-cases
                        (get Key-discrete k s.outgoing_message_to_client_num_map)) [
                          | inl o ↦ without_number c g e f o
                          | inr (num, o) ↦
                              elim (result-cases (
                                cbor_serialize
                                  (websocket_message s k bytes is_service (add64 num 1)))) [
                                    | inl (content, q) ↦ when_sent c g e f num o content q
                                    | inr (x, q) ↦ when_not_encoded c g e f num o x q
                                  ]
                        ]
                ]
        ]
