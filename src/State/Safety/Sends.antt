-- ===== src/State/Safety/Sends.antt =====
-- `_ws_send` of state.rs does not trap where each queued message has its timestamp, and keeps it so.
use mathlib.Core.Option
use ic_websocket_cdk_rs.Prelude.{
  ℕ, ◌≡◌, refl, sym, ap, ◌∙◌, subst, Option, none, some, [], ◌∷◌, Bool, Bytes, Text, Map, arith,
  get, update, get-update, ite, Option-cases, inl, inr, length-append, true, false,
}
use ic_websocket_cdk_rs.Constants.{messages_to_delete_count}
use ic_websocket_cdk_rs.Types.Messages.{CanisterOutputMessage, WebsocketServiceMessageContent}
use ic_websocket_cdk_rs.Types.Gateway.{RegisteredGateway, increment_nonce, add_message_to_queue}
use ic_websocket_cdk_rs.Types.Gateway.Expiry.{IsAligned, delete_old_messages-StartsYoung}
use ic_websocket_cdk_rs.Env.{Env, Key}
use ic_websocket_cdk_rs.State.{
  get_current_time, State, Key-discrete, gets, modify, unwrap, from_result,
}
use ic_websocket_cdk_rs.State.Steps.{
  increment_outgoing_message_nonce_ok, increment_outgoing_message_to_client_num_ok,
  delete_old_messages_for_gateway_ok, push_message_in_gateway_queue_ok,
}
use ic_websocket_cdk_rs.State.Missing.{
  increment_outgoing_message_nonce_err, increment_outgoing_message_to_client_num_err,
  delete_old_messages_for_gateway_err, push_message_in_gateway_queue_err,
}
use ic_websocket_cdk_rs.State.Gateways.{
  get_outgoing_message_nonce, increment_outgoing_message_nonce, push_message_in_gateway_queue,
}
use ic_websocket_cdk_rs.State.Clients.{
  get_registered_client, get_client_key_from_principal, get_outgoing_message_to_client_num,
  increment_outgoing_message_to_client_num,
}
use ic_websocket_cdk_rs.State.Certification.{
  format_message_for_gateway_key, put_cert_for_message, delete_old_messages_for_gateway,
  delete_keys_from_cert_tree,
}
use ic_websocket_cdk_rs.State.Sending.{
  cbor_serialize, ws_send, send_service_message_to_client, send,
}
use ic_websocket_cdk_rs.State.Safety.{
  NeverTraps, AllAligned, Aligned, IsSafe, IsSafe-bind, IsSafe-gets, IsSafe-modify, IsSafe-unwrap,
  IsSafe-from_result, get_registered_client-IsSafe, get_outgoing_message_nonce-IsSafe,
  get_outgoing_message_to_client_num-IsSafe, get_client_key_from_principal-IsSafe,
}

module _ ⦃env : Env⦄ where
  updated :
      {P : Type 0} (d : Dec P)
      (f : RegisteredGateway env.Principal → RegisteredGateway env.Principal)
      (o : Option (RegisteredGateway env.Principal)) (g : RegisteredGateway env.Principal)
      → ite d (Option.map f o) o ≡ some g
      → (P → (x : RegisteredGateway env.Principal) → o ≡ some x → IsAligned (f x))
      → ((x : RegisteredGateway env.Principal) → o ≡ some x → IsAligned x)
      → IsAligned g
  updated (yes p) f none g e k h = absurd (ground (arith, e))
  updated (yes p) f (some x) g e k h = let same : f x ≡ g = cc in subst IsAligned same (k p x refl)
  updated (no n) f o g e k h = h g e

  -- A write through `get_mut` that keeps the alignment of the gateway that is there.
  pub update-AllAligned :
      (gp : env.Principal) (f : RegisteredGateway env.Principal → RegisteredGateway env.Principal)
      (m : Map env.Principal (RegisteredGateway env.Principal))
      → ((x : RegisteredGateway env.Principal)
          → get env.principal_discrete gp m ≡ some x
          → IsAligned x
          → IsAligned (f x))
      → AllAligned m
      → AllAligned (update env.principal_discrete gp f m)
  update-AllAligned gp f m kept h p g e =
      updated (env.principal_discrete gp p) f (get env.principal_discrete p m) g
        (sym (get-update env.principal_discrete gp p f m) ∙ e)
        (λ q x o. kept x (ap (λ r. get env.principal_discrete r m) q ∙ o) (h p x o)) (h p)

  add_message-IsAligned :
      (x : RegisteredGateway env.Principal) (m : CanisterOutputMessage env.Principal) (t : ℕ)
      → IsAligned x
      → IsAligned (add_message_to_queue x m t)
  unfolding add_message_to_queue
  add_message-IsAligned x m t h = omega (
    arith,
    h,
    length-append x.messages_queue (m ∷ []),
    length-append x.messages_to_delete (record { timestamp = t } ∷ []),
  )

  module _ (gp : env.Principal) where
    increment_outgoing_message_nonce-IsSafe : IsSafe (increment_outgoing_message_nonce gp)
    unfolding increment_nonce
    increment_outgoing_message_nonce-IsSafe = record {
      at = λ s h. elim (Option-cases (get env.principal_discrete gp s.registered_gateways)) [
        | inl e ↦ rw (increment_outgoing_message_nonce_err s gp e) h
        | inr (g, e) ↦
            rw (increment_outgoing_message_nonce_ok s gp e)
              (update-AllAligned gp increment_nonce s.registered_gateways (λ x _ a. a) h)
      ];
    }

    push_message_in_gateway_queue-IsSafe :
        (m : CanisterOutputMessage env.Principal) (t : ℕ)
        → IsSafe (push_message_in_gateway_queue gp m t)
    push_message_in_gateway_queue-IsSafe m t = record {
      at = λ s h. elim (Option-cases (get env.principal_discrete gp s.registered_gateways)) [
        | inl e ↦ rw (push_message_in_gateway_queue_err s gp e m t) h
        | inr (g, e) ↦ rw (push_message_in_gateway_queue_ok s gp e m t) (
            update-AllAligned gp (λ x. add_message_to_queue x m t) s.registered_gateways
              (λ x _ a. add_message-IsAligned x m t a) h)
      ];
    }

    -- The queue has a message for each timestamp that the loop removes.
    delete_old_messages_for_gateway-IsSafe : IsSafe (delete_old_messages_for_gateway gp)
    unfolding delete_keys_from_cert_tree
    delete_old_messages_for_gateway-IsSafe = record {
      at = λ s h. elim (Option-cases (get env.principal_discrete gp s.registered_gateways)) [
        | inl e ↦ rw (delete_old_messages_for_gateway_err s gp e) h
        | inr (g, e) ↦
            let (k, g', deleted, _, _, _, _, _, _, _, aligned) =
              delete_old_messages-StartsYoung g messages_to_delete_count
                s.params.send_ack_interval_ms s.time (h gp g e) in
            rw (delete_old_messages_for_gateway_ok s gp e deleted)
              (update-AllAligned gp (λ _. g') s.registered_gateways (λ x _ _. aligned) h)
      ];
    }

  increment_outgoing_message_to_client_num-IsSafe :
      (k : Key) → IsSafe (increment_outgoing_message_to_client_num k)
  increment_outgoing_message_to_client_num-IsSafe k = record {
    at = λ s h. elim (Option-cases (get Key-discrete k s.outgoing_message_to_client_num_map)) [
      | inl e ↦ rw (increment_outgoing_message_to_client_num_err s k e) h
      | inr (n, e) ↦ rw (increment_outgoing_message_to_client_num_ok s k e) h
    ];
  }

  put_cert_for_message-Aligned :
      (key : Text) (value : Bytes) (s : State)
      → Aligned s
      → Aligned (put_cert_for_message key value s)
  unfolding put_cert_for_message
  put_cert_for_message-Aligned key value s h = h

  pub ws_send-IsSafe :
      (k : Key) (bytes : Bytes) (is_service : Bool) → IsSafe (ws_send k bytes is_service)
  unfolding ws_send
  ws_send-IsSafe k bytes is_service =
      IsSafe-bind (get_registered_client k) _ (get_registered_client-IsSafe k) λ c.
        let gp = c.gateway_principal in
        IsSafe-bind (get_outgoing_message_nonce gp) _ (get_outgoing_message_nonce-IsSafe gp)
          λ nonce.
            let key = format_message_for_gateway_key gp nonce in
            IsSafe-bind (increment_outgoing_message_nonce gp) _
              (increment_outgoing_message_nonce-IsSafe gp)
              λ _.
                IsSafe-bind (increment_outgoing_message_to_client_num k) _
                  (increment_outgoing_message_to_client_num-IsSafe k)
                  λ _. IsSafe-bind (gets get_current_time) _ (IsSafe-gets get_current_time) λ time.
                    IsSafe-bind (get_outgoing_message_to_client_num k) _
                      (get_outgoing_message_to_client_num-IsSafe k)
                      λ num.
                        IsSafe-bind
                          (from_result (
                            cbor_serialize (record {
                              client_key = k;
                              sequence_num = num;
                              timestamp = time;
                              is_service_message = is_service;
                              content = bytes;
                            })))
                          _ (IsSafe-from_result _)
                          λ content.
                            IsSafe-bind (delete_old_messages_for_gateway gp) _
                              (delete_old_messages_for_gateway-IsSafe gp)
                              λ _.
                                IsSafe-bind (modify (put_cert_for_message key content)) _
                                  (IsSafe-modify _ (put_cert_for_message-Aligned key content))
                                  λ _.
                                    push_message_in_gateway_queue-IsSafe gp
                                      (record { client_key = k; key = key; content = content }) time

  pub send-IsSafe : (p : env.Principal) (bytes : Bytes) → IsSafe (send p bytes)
  unfolding send
  send-IsSafe p bytes =
      IsSafe-bind (get_client_key_from_principal p) _ (get_client_key_from_principal-IsSafe p)
        λ k. ws_send-IsSafe k bytes false

  pub send_service_message_to_client-IsSafe :
      NeverTraps
      → (k : Key) (m : WebsocketServiceMessageContent env.Principal)
      → IsSafe (send_service_message_to_client k m)
  unfolding send_service_message_to_client
  send_service_message_to_client-IsSafe never k m =
      IsSafe-bind (unwrap (env.encode_one m)) _ (IsSafe-unwrap _ (never.encodes m))
        λ bytes. ws_send-IsSafe k bytes true
