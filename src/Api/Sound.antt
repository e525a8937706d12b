-- ===== src/Api/Sound.antt =====
-- `ws_open` and `ws_close` of lib.rs keep the queues in order and certified.
use ic_websocket_cdk_rs.Prelude.{
  true, if_neg, is_some, get, ℕ, suc, ◌<◌, ◌≡◌, ◌∙◌, ap, none, arith, u64_mod, inl, inr,
  Option-cases,
}
use ic_websocket_cdk_rs.Types.Messages.{
  CanisterWsOpenArguments, CanisterWsCloseArguments, new_client_key, open_message,
  WebsocketServiceMessageContent,
}
use ic_websocket_cdk_rs.Types.Gateway.{new_client}
use ic_websocket_cdk_rs.Env.{Env, Key}
use ic_websocket_cdk_rs.State.{State, Key-discrete, continue, fail, pure}
use ic_websocket_cdk_rs.State.Relates.{Holds, Holds-bind, Holds-pair}
use ic_websocket_cdk_rs.State.Sending.{send_service_message_to_client}
use ic_websocket_cdk_rs.State.Queues.Sound.{IsSound, ws_send-IsSound}
use ic_websocket_cdk_rs.State.Queues.Counted.{add_client-IsSound, remove_client-IsSound}
use ic_websocket_cdk_rs.Errors.{to_string, anonymous_principal_not_allowed}
use ic_websocket_cdk_rs.State.Steps.{get_client_key_from_principal_ok}
use ic_websocket_cdk_rs.State.Missing.{
  get_client_key_from_principal_err, check_registered_client_exists_err,
}
use ic_websocket_cdk_rs.State.Clients.{add_client}
use ic_websocket_cdk_rs.State.Sending.Frame.{
  SameClients, send_service_message_to_client-SameClients,
}
use ic_websocket_cdk_rs.State.Removal.NoErrors.{Holds-then}
use ic_websocket_cdk_rs.State.Registry.{current_key}
use ic_websocket_cdk_rs.Api.{ws_open, ws_close, call_on_open, remove_old_client}
use ic_websocket_cdk_rs.Api.Closing.{ws_close-MayClose}
use ic_websocket_cdk_rs.Api.Opening.{
  SameSettings, remove_old_client-SameSettings, remove_old_client-NoError, call_on_open-none,
  added-params, ws_open-refused,
}

module _ ⦃env : Env⦄ where
  service-IsSound :
      (n : ℕ) (k : Key) (m : WebsocketServiceMessageContent env.Principal) (s : State)
      → IsSound (suc n) s
      → Holds (IsSound n) (send_service_message_to_client k m s)
  unfolding send_service_message_to_client
  service-IsSound n k m s h = elim (Option-cases (env.encode_one m)) [
    | inl e ↦ rw e tt
    | inr (bytes, e) ↦ rw e (ws_send-IsSound n s k bytes true h)
  ]

  remove_old_client-IsSound :
      (n : ℕ) (p : env.Principal) (s : State)
      → n < u64_mod
      → s.params.handlers.on_close ≡ none
      → IsSound n s
      → Holds (IsSound n) (remove_old_client p s)
  remove_old_client-IsSound n p s small no_callback h = elim (Option-cases (current_key s p)) [
    | inl e ↦ rw (get_client_key_from_principal_err s p e) h
    | inr (k, e) ↦
        rw (get_client_key_from_principal_ok s p e)
          (remove_client-IsSound n k s small no_callback h)
  ]

  -- The part of `ws_open` behind the removal of the old connection.
  opened-IsSound :
      (n : ℕ) (k : Key) (gateway : env.Principal) (t : State)
      → suc n < u64_mod
      → t.params.handlers.on_open ≡ none
      → IsSound (suc n) t
      → Holds (IsSound n) (
          continue
            (send_service_message_to_client k
              (open_message k)
              (add_client k (new_client gateway t.time) t))
            (λ _. call_on_open k.client_principal))
  opened-IsSound n k gateway t small no_callback h =
      let c = new_client gateway t.time in
      let u = add_client k c t in
      Holds-bind {P = λ v. IsSound n v × SameClients u v}
        (send_service_message_to_client k (open_message k) u) _
        (Holds-pair (IsSound n) (SameClients u)
          (send_service_message_to_client k (open_message k) u)
          (service-IsSound n k (open_message k) u (add_client-IsSound (suc n) k c t small h))
          ((send_service_message_to_client-SameClients k (open_message k)).at u))
        (λ v q. q.0)
        (λ _ v q.
          rw
            (call_on_open-none k.client_principal v
              (ap (λ r. r.handlers.on_open) (q.1.params ∙ added-params k c t) ∙ no_callback))
            (q.0))

  -- Where the canister has no on_open and no on_close callback, every gateway's queue is in the
  -- order of its nonces with one timestamp per message, every queued message's hash is in the tree,
  -- the certified data is the tree's root if a message is queued, and n + 1, and every gateway's
  -- next nonce plus n + 1, are below 2^64, ws_open leaves the queues, the tree and the certified
  -- data so, with every next nonce plus n below 2^64, whether it returns or fails; also for a
  -- gateway that is new, and when it removes an older connection.
  pub ws_open-IsSound :
      (n : ℕ) (s : State) (caller : env.Principal) (args : CanisterWsOpenArguments env.Principal)
      → suc n < u64_mod
      → s.params.handlers.on_open ≡ none
      → s.params.handlers.on_close ≡ none
      → IsSound (suc n) s
      → Holds (IsSound n) (ws_open caller args s)
  unfolding ws_open
  ws_open-IsSound n s caller args small no_open no_close h =
      let k = new_client_key caller args.client_nonce in
      let refusals = ws_open-refused s caller args in
      let unchanged : IsSound n s = (h.0, λ p g e. omega (arith, h.1 p g e)) in
      elim (env.principal_discrete caller env.anonymous) [
        | yes e ↦ rw (refusals.0 e) unchanged
        | no m ↦ elim (Option-cases (get Key-discrete k s.registered_clients)) [
          | inr (c, f) ↦ rw (refusals.1 m (ap is_some f)) unchanged
          | inl f ↦
              rw
                (
                  if_neg (env.principal_discrete caller env.anonymous) m
                      (fail (to_string anonymous_principal_not_allowed)) (pure tt),
                  check_registered_client_exists_err s k f,
                )
                (Holds-then {P = λ t. IsSound (suc n) t × SameSettings s t} (IsSound n)
                  (remove_old_client caller s) _ (remove_old_client-NoError caller s)
                  (Holds-pair (IsSound (suc n)) (SameSettings s) (remove_old_client caller s)
                    (remove_old_client-IsSound (suc n) caller s small no_close h)
                    (remove_old_client-SameSettings caller s))
                  (λ t q.
                    opened-IsSound n k args.gateway_principal t small
                      (ap (λ r. r.handlers.on_open) q.1.params ∙ no_open) q.0))
        ]
      ]

  -- Where the canister has no on_close callback, every gateway's queue is in the order of its
  -- nonces with one timestamp per message, every queued message's hash is in the tree, the
  -- certified data is the tree's root if a message is queued, and n, and every gateway's next nonce
  -- plus n, are below 2^64, this is still so after ws_close, whether it returns or fails.
  pub ws_close-IsSound :
      (n : ℕ) (s : State) (gp : env.Principal) (args : CanisterWsCloseArguments env.Principal)
      → n < u64_mod
      → s.params.handlers.on_close ≡ none
      → IsSound n s
      → Holds (IsSound n) (ws_close gp args s)
  ws_close-IsSound n s gp args small no_close h = elim (ws_close-MayClose s gp args) [
    | inl (m, e) ↦ rw e (remove_client-IsSound n args.client_key s small no_close h)
    | inr (m, x, e) ↦ rw e h
  ]
