-- ===== src/Api/Opening.antt =====
-- `ws_open` of lib.rs: who may connect, and what is registered afterwards.
use ic_websocket_cdk_rs.Prelude.{
  ℕ, ◌≡◌, ◌≢◌, refl, ◌∙◌, ap, subst, inl, inr, true, Option, none, some, arith, get, Option-cases,
  if_pos, if_neg,
}
use ic_websocket_cdk_rs.Constants.{initial_client_sequence_num}
use ic_websocket_cdk_rs.Types.Messages.{CanisterWsOpenArguments, new_client_key, open_message}
use ic_websocket_cdk_rs.Types.Gateway.{RegisteredClient, new_client}
use ic_websocket_cdk_rs.Errors.{
  to_string, anonymous_principal_not_allowed, client_key_already_connected,
}
use ic_websocket_cdk_rs.Env.{Env, Key}
use ic_websocket_cdk_rs.State.{State, Key-discrete, ok, err, continue, pure, fail}
use ic_websocket_cdk_rs.State.Relates.{Holds, Holds-bind, Holds-map}
use ic_websocket_cdk_rs.State.Steps.{
  check_registered_client_exists_ok, get_client_key_from_principal_ok,
}
use ic_websocket_cdk_rs.State.Missing.{
  check_registered_client_exists_err, get_client_key_from_principal_err,
}
use ic_websocket_cdk_rs.State.Clients.{add_client}
use ic_websocket_cdk_rs.State.Gateways.{decrement_gateway_clients_count}
use ic_websocket_cdk_rs.State.Sending.{send_service_message_to_client}
use ic_websocket_cdk_rs.State.Sending.Frame.{
  SameClients, send_service_message_to_client-SameClients,
}
use ic_websocket_cdk_rs.State.Removal.{remove_client, forget_client}
use ic_websocket_cdk_rs.State.Removal.Drop.{drop_client, taken, remove_client-Holds}
use ic_websocket_cdk_rs.State.Removal.NoErrors.{NoError, Holds-then, remove_client-NoError}
use ic_websocket_cdk_rs.State.Registry.{is_registered, current_key}
use ic_websocket_cdk_rs.State.Registry.Changes.{added-registered, added-current, added-incoming}
use ic_websocket_cdk_rs.Api.{call_on_open, ws_open, remove_old_client}

module _ ⦃env : Env⦄ where
  -- The parameters and the time are the same.
  pub record SameSettings (s t : State) : Type 0 where
    pub params : t.params ≡ s.params
    pub time : t.time ≡ s.time

  dropped-SameSettings : (k : Key) (s : State) → SameSettings s (drop_client k s)
  unfolding drop_client forget_client decrement_gateway_clients_count
  dropped-SameSettings k s = go (get Key-discrete k s.registered_clients)
    where
      go :
          (o : Option (RegisteredClient env.Principal))
          → SameSettings s (taken k o (forget_client k s))
      go none = record { params = refl; time = refl }
      go (some c) = record { params = refl; time = refl }

  pub remove_old_client-SameSettings :
      (p : env.Principal) (s : State) → Holds (SameSettings s) (remove_old_client p s)
  remove_old_client-SameSettings p s = elim (Option-cases (current_key s p)) [
    | inl e ↦ rw (get_client_key_from_principal_err s p e) (record { params = refl; time = refl })
    | inr (k, e) ↦ rw (get_client_key_from_principal_ok s p e) (
        Holds-map (remove_client k none s)
          (λ t h. record {
            params = h.params ∙ (dropped-SameSettings k s).params;
            time = h.time ∙ (dropped-SameSettings k s).time;
          })
          (remove_client-Holds k none s))
  ]

  pub remove_old_client-NoError : (p : env.Principal) (s : State) → NoError (remove_old_client p s)
  remove_old_client-NoError p s = elim (Option-cases (current_key s p)) [
    | inl e ↦ rw (get_client_key_from_principal_err s p e) tt
    | inr (k, e) ↦ rw (get_client_key_from_principal_ok s p e) (remove_client-NoError k none s)
  ]

  -- The client is registered at the gateway with its key as the current one of its principal, and its
  -- first message has the number 1.
  pub record IsOpened (k : Key) (gateway : env.Principal) (time : ℕ) (t : State) : Type 0 where
    pub registered : get Key-discrete k t.registered_clients ≡ some (new_client gateway time)
    pub current : current_key t k.client_principal ≡ some k
    pub incoming :
        get Key-discrete k t.incoming_message_from_client_num_map ≡ some initial_client_sequence_num

  added-IsOpened :
      (k : Key) (gateway : env.Principal) (time : ℕ) (s t : State)
      → SameClients (add_client k (new_client gateway time) s) t
      → IsOpened k gateway time t
  added-IsOpened k gateway time s t h =
      let c = new_client gateway time in
      record {
        registered =
            ap (get Key-discrete k) h.clients
            ∙ added-registered s k c k
            ∙ if_pos (Key-discrete k k) refl _ _;
        current =
            ap (get env.principal_discrete k.client_principal) h.current
            ∙ added-current s k c k.client_principal
            ∙ if_pos (env.principal_discrete k.client_principal k.client_principal) refl _ _;
        incoming =
            ap (get Key-discrete k) h.incoming
            ∙ added-incoming s k c k
            ∙ if_pos (Key-discrete k k) refl _ _;
      }

  pub call_on_open-none :
      (p : env.Principal) (s : State)
      → s.params.handlers.on_open ≡ none
      → call_on_open p s ≡ ok tt s
  unfolding call_on_open
  call_on_open-none p s h = rw h

  pub added-params :
      (k : Key) (c : RegisteredClient env.Principal) (s : State)
      → (add_client k c s).params ≡ s.params
  unfolding add_client
  added-params k c s = refl

  -- The part of `ws_open` behind the removal of the old connection.
  registered_lem :
      (k : Key) (gateway : env.Principal) (s t : State)
      → SameSettings s t
      → s.params.handlers.on_open ≡ none
      → Holds (IsOpened k gateway s.time) (
          continue
            (send_service_message_to_client k
              (open_message k)
              (add_client k (new_client gateway t.time) t))
            (λ _. call_on_open k.client_principal))
  registered_lem k gateway s t h no_callback =
      let c = new_client gateway t.time in
      let u = add_client k c t in
      Holds-bind (send_service_message_to_client k (open_message k) u) _
        ((send_service_message_to_client-SameClients k (open_message k)).at u) opened
        (λ _ v e.
          rw
            (call_on_open-none k.client_principal v (
              ap (λ r. r.handlers.on_open) (e.params ∙ added-params k c t ∙ h.params)
              ∙ no_callback))
            (opened v e))
    where
      opened :
          (v : State)
          → SameClients (add_client k (new_client gateway t.time) t) v
          → IsOpened k gateway s.time v
      opened v e =
          subst (λ time. IsOpened k gateway time v) h.time (added-IsOpened k gateway t.time t v e)

  module _ (s : State) (caller : env.Principal) (args : CanisterWsOpenArguments env.Principal) where
    abbrev k : Key
    k = new_client_key caller args.client_nonce

    -- ws_open refuses the anonymous principal, and a key that is registered: it returns the error
    -- that says so, and the state is as it was.
    pub ws_open-refused :
        (caller ≡ env.anonymous
          → ws_open caller args s ≡ err (to_string anonymous_principal_not_allowed) s)
        × (caller ≢ env.anonymous
            → is_registered s (new_client_key caller args.client_nonce) ≡ true
            → ws_open caller args s
              ≡ err
                  (to_string
                    (client_key_already_connected (new_client_key caller args.client_nonce)))
                  s)
    unfolding ws_open
    ws_open-refused = (
      λ e. rw (
          if_pos (env.principal_discrete caller env.anonymous) e
            (fail (to_string anonymous_principal_not_allowed)) (pure tt)),
      λ n r. elim (Option-cases (get Key-discrete k s.registered_clients)) [
        | inl f ↦ absurd (ground (arith, f, r))
        | inr (c, f) ↦ rw (
          if_neg (env.principal_discrete caller env.anonymous) n
              (fail (to_string anonymous_principal_not_allowed)) (pure tt),
          check_registered_client_exists_ok s k f,
        )
      ],
    )

    pub ws_open-IsOpened :
        caller ≢ env.anonymous
        → get Key-discrete (new_client_key caller args.client_nonce) s.registered_clients ≡ none
        → s.params.handlers.on_open ≡ none
        → Holds
            (IsOpened (new_client_key caller args.client_nonce) args.gateway_principal s.time)
            (ws_open caller args s)
    unfolding ws_open
    ws_open-IsOpened n f no_callback =
        rw
          (
            if_neg (env.principal_discrete caller env.anonymous) n
                (fail (to_string anonymous_principal_not_allowed)) (pure tt),
            check_registered_client_exists_err s k f,
          )
          (Holds-then _ (remove_old_client caller s) _ (remove_old_client-NoError caller s)
            (remove_old_client-SameSettings caller s)
            (λ t h. registered_lem k args.gateway_principal s t h no_callback))
