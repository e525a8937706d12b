-- ===== src/Api/Kept.antt =====
-- The canister's methods of lib.rs keep every property that follows the rules of
-- State/Registry/Rules.antt.
use ic_websocket_cdk_rs.Prelude.{
  ◌≡◌, ◌≢◌, ◌∙◌, sym, if_pos, if_neg, ap, none, Bytes, get, is_some, Option-cases, inl, inr,
}
use ic_websocket_cdk_rs.Types.Messages.{
  new_client_key, CanisterWsOpenArguments, CanisterWsCloseArguments, open_message,
}
use ic_websocket_cdk_rs.Types.Gateway.{new_client}
use ic_websocket_cdk_rs.Env.{Env, Key}
use ic_websocket_cdk_rs.State.{State, Exec, Key-discrete, fail, pure, gets, modify, ◌>>=◌, ◌>>◌}
use ic_websocket_cdk_rs.Errors.{to_string, anonymous_principal_not_allowed}
use ic_websocket_cdk_rs.State.Relates.{
  Holds, Relates-bind, Holds-bind, Holds-map, Preserves, Preserves-intro, Preserves-at,
}
use ic_websocket_cdk_rs.State.Steps.{
  get_client_key_from_principal_ok, check_registered_client_exists_ok,
}
use ic_websocket_cdk_rs.State.Missing.{
  get_client_key_from_principal_err, check_registered_client_exists_err,
}
use ic_websocket_cdk_rs.State.Reads.{
  check_is_gateway_registered-Relates, check_client_registered_to_gateway-Relates,
}
use ic_websocket_cdk_rs.State.Sending.{send, send_service_message_to_client}
use ic_websocket_cdk_rs.State.Sending.Frame.{
  app-SameClients, send-SameClients, send_service_message_to_client-SameClients,
}
use ic_websocket_cdk_rs.State.Removal.{remove_client}
use ic_websocket_cdk_rs.State.Registry.{current_key}
use ic_websocket_cdk_rs.State.Registry.Changes.{IsAlone, registered-IsAlone}
use ic_websocket_cdk_rs.State.Registry.Rules.{IsKept, SameClients-SameRegistry}
use ic_websocket_cdk_rs.State.Registry.Kept.{
  Keeps, keeping, same-Keeps, remove_client-keeps, remove_client-free, close-Keeps,
}
use ic_websocket_cdk_rs.State.Clients.{add_client, check_client_registered_to_gateway}
use ic_websocket_cdk_rs.State.Gateways.{check_is_gateway_registered}
use ic_websocket_cdk_rs.Api.{
  call_on_open, call_on_message, ws_open, ws_close, check_not_registered, remove_old_client,
}
use ic_websocket_cdk_rs.Api.Callbacks.{call_on_open-Relates, call_on_message-Relates}

module _ ⦃env : Env⦄ {Drops : Key → Type 0} {P : State → Type 0} (kept : IsKept Drops P) where
  app-kept : (s : State) (a : env.App) → Preserves P s (record s { app = a })
  app-kept s a = kept.same s _ (SameClients-SameRegistry s _ (app-SameClients s a))

  pub send-Keeps : (p : env.Principal) (bytes : Bytes) → Keeps P (send p bytes)
  send-Keeps p bytes = same-Keeps kept (send p bytes) (send-SameClients p bytes)

  -- The property holds, and client `k` is the only one of its principal.
  abbrev KeptAlone : Key → State → Type 0
  KeptAlone k s = P s × IsAlone s k

  pub ws_close-Keeps :
      (gp : env.Principal) (args : CanisterWsCloseArguments env.Principal)
      → Drops args.client_key
      → Keeps P (ws_close gp args)
  unfolding ws_close
  ws_close-Keeps gp args drops =
      let k = args.client_key in
      Relates-bind (keeping P) (check_is_gateway_registered gp) _
        (check_is_gateway_registered-Relates (keeping P) gp)
        λ _. Preserves-intro P _ λ s h.
          elim (Option-cases (get Key-discrete k s.registered_clients)) [
            | inl e ↦ rw (check_registered_client_exists_err s k e) h
            | inr (c, e) ↦
                let alone : KeptAlone k s =
                  (h, registered-IsAlone s k (kept.linked s h) (ap is_some e)) in
                rw (check_registered_client_exists_ok s k e) (
                  Holds-bind (check_client_registered_to_gateway k gp s) _
                    (Preserves-at (KeptAlone k) _
                      (check_client_registered_to_gateway-Relates (keeping (KeptAlone k)) k gp) s
                      alone)
                    (λ t q. q.0) (λ _ t q. remove_client-keeps kept k none drops t q.0 q.1))
          ]

  module _ (drops : (k : Key) → Drops k) where
    pub call_on_open-Keeps : (p : env.Principal) → Keeps P (call_on_open p)
    call_on_open-Keeps =
        call_on_open-Relates (keeping P) app-kept send-Keeps
          (λ p. close-Keeps kept p (λ k _. drops k))

    pub call_on_message-Keeps :
        (p : env.Principal) (message : Bytes) → Keeps P (call_on_message p message)
    call_on_message-Keeps =
        call_on_message-Relates (keeping P) app-kept send-Keeps
          (λ p. close-Keeps kept p (λ k _. drops k))

    -- After the old connection of the principal is gone, none is left.
    remove_old_client-free :
        (p : env.Principal) (s : State)
        → P s
        → Holds (λ t. P t × (current_key t p ≡ none)) (remove_old_client p s)
    remove_old_client-free p s h =
        let l = kept.linked s h in
        elim (Option-cases (current_key s p)) [
          | inl e ↦ rw (get_client_key_from_principal_err s p e) (h, e)
          | inr (k, e) ↦ rw (get_client_key_from_principal_ok s p e) (
              Holds-map (remove_client k none s)
                (λ t q. (q.0, ap (current_key t) (sym (l.owned p k e)) ∙ q.1))
                (remove_client-free kept k none (drops k) s h
                  (registered-IsAlone s k l (l.registered p k e))))
        ]

-- `ws_open`, with a property of the states before the new client is added, and one of those after.
module _ ⦃env : Env⦄ {Drops : Key → Type 0} {P Q : State → Type 0} (kept : IsKept Drops P)
    (after : IsKept Drops Q) (weaken : (s : State) → P s → Q s) (drops : (k : Key) → Drops k)
    (caller : env.Principal) (args : CanisterWsOpenArguments env.Principal) where
  abbrev k : Key
  k = new_client_key caller args.client_nonce

  -- The new client of a principal that is not connected.
  abbrev KeepsAdded : Type 0
  KeepsAdded =
      (s : State)
      → P s
      → current_key s caller ≡ none
      → Q (add_client k (new_client args.gateway_principal s.time) s)

  -- From the registration of the new client on.
  abbrev register : Exec (Unit {0})
  register = do
    time ← gets (λ s. s.time)
    modify (add_client k (new_client args.gateway_principal time))
    send_service_message_to_client k (open_message k)
    call_on_open k.client_principal

  register-keeps :
      KeepsAdded → (s : State) → P s → current_key s caller ≡ none → Holds Q (register s)
  register-keeps added s h free =
      Preserves-at Q _
        (Relates-bind (keeping Q) (send_service_message_to_client k (open_message k)) _
          (same-Keeps after _ (send_service_message_to_client-SameClients k (open_message k)))
          (λ _. call_on_open-Keeps after drops caller))
        (add_client k (new_client args.gateway_principal s.time) s) (added s h free)

  -- From the test of the client key on.
  abbrev connect : Exec (Unit {0})
  connect = do check_not_registered k; remove_old_client k.client_principal; register

  connect-keeps : KeepsAdded → (s : State) → P s → Holds Q (connect s)
  connect-keeps added s h = elim (Option-cases (get Key-discrete k s.registered_clients)) [
    | inl e ↦ rw (check_registered_client_exists_err s k e) (
        Holds-bind (remove_old_client caller s) _ (remove_old_client-free kept drops caller s h)
          (λ t q. weaken t q.0) (λ _ t q. register-keeps added t q.0 q.1))
    | inr (c, e) ↦ rw (check_registered_client_exists_ok s k e) (weaken s h)
  ]

  pub ws_open-keeps :
      (caller ≢ env.anonymous → KeepsAdded) → (s : State) → P s → Holds Q (ws_open caller args s)
  unfolding ws_open
  ws_open-keeps added s h =
      let refused : Exec (Unit {0}) = fail (to_string anonymous_principal_not_allowed) in
      elim (env.principal_discrete caller env.anonymous) [
        | yes e ↦
            rw (if_pos (env.principal_discrete caller env.anonymous) e refused (pure tt))
              (weaken s h)
        | no m ↦
            rw (if_neg (env.principal_discrete caller env.anonymous) m refused (pure tt))
              (connect-keeps (added m) s h)
      ]
