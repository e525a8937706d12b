-- ===== src/Timers/Kept.antt =====
-- The timers of timers.rs, and `init` of lib.rs, keep every property that follows the rules of
-- State/Registry/Rules.antt.
use ic_websocket_cdk_rs.Prelude.{
  refl, ◌≡◌, ◌∙◌, sym, ap, subst, true, some, List, [], ◌∷◌, arith, get, is_some, Option-cases, inl,
  inr, All, if_neg, keys, sub64,
}
use ic_websocket_cdk_rs.Types.Messages.{ack_message, keep_alive_timeout}
use ic_websocket_cdk_rs.Env.{Env, Key}
use ic_websocket_cdk_rs.State.{State, Outcome, Key-discrete, ok, err, trap, unwrap}
use ic_websocket_cdk_rs.State.Relates.{
  Holds, Relates-bind, Relates-pure, Relates-unwrap, Holds-bind, Preserves-intro, Preserves-at,
}
use ic_websocket_cdk_rs.Params.{WsInitParams, check_validity}
use ic_websocket_cdk_rs.State.Steps.{get_expected_incoming_message_from_client_num_ok}
use ic_websocket_cdk_rs.State.Missing.{get_expected_incoming_message_from_client_num_err}
use ic_websocket_cdk_rs.State.Clients.{add_client_to_wait_for_keep_alive}
use ic_websocket_cdk_rs.State.Sending.Frame.{
  SameClients, send_service_message_to_client-SameClients,
}
use ic_websocket_cdk_rs.State.Registry.{IsLinked, is_registered, set_contains-set_insert}
use ic_websocket_cdk_rs.State.Registry.Changes.{IsAlone, registered-IsAlone}
use ic_websocket_cdk_rs.State.Registry.Rules.{
  IsKept, SameRegistry, SameClients-SameRegistry, SameSessions-fields, SameRegistry-fields,
}
use ic_websocket_cdk_rs.State.Registry.Kept.{Keeps, keeping, remove_clients-keeps}
use ic_websocket_cdk_rs.Timers.{
  cancel_timers, cancel_ack_timer, cancel_keep_alive_timer, schedule_send_ack_to_clients,
  schedule_check_keep_alive, acknowledged, send_ack_to_client, send_acks,
  send_ack_to_clients_timer_callback, ack_timer_task, has_timed_out, timed_out_clients,
  check_keep_alive_timer_callback, init,
}

module _ ⦃env : Env⦄ where
  pub add_to_wait-SameRegistry :
      (k : Key) (s : State)
      → is_registered s k ≡ true
      → SameRegistry s (add_client_to_wait_for_keep_alive k s)
  unfolding add_client_to_wait_for_keep_alive
  add_to_wait-SameRegistry k s r = SameRegistry-fields s _ refl refl refl (record {
    clients = λ j. refl;
    current = λ p. refl;
    incoming = λ j. refl;
    outgoing = λ j. refl;
    waiting = λ j w. elim (Key-discrete k j) [
      | yes e ↦ inr (subst (λ i. is_registered s i ≡ true) e r)
      | no n ↦ inl (
          sym (
            set_contains-set_insert k j s.clients_waiting_for_keep_alive
            ∙ if_neg (Key-discrete k j) n _ _)
          ∙ w)
    ];
  })

  timed_out_clients-IsAlone :
      (s : State) (ks : List Key) → IsLinked s → All (IsAlone s) (timed_out_clients s ks)
  unfolding timed_out_clients has_timed_out
  timed_out_clients-IsAlone s [] h = tt
  timed_out_clients-IsAlone s (k ∷ ks) h =
      let rest = timed_out_clients-IsAlone s ks h in
      elim (Option-cases (get Key-discrete k s.registered_clients)) [
        | inl e ↦ rw e rest
        | inr (c, e) ↦
            let alone = registered-IsAlone s k h (ap is_some e) in
            rw e (ground (arith, rest, alone))
      ]

  module _ {Drops : Key → Type 0} {P : State → Type 0} (kept : IsKept Drops P) where
    acknowledged-keeps :
        (k : Key) (s : State) (o : Outcome (Unit {0}))
        → is_registered s k ≡ true
        → P s
        → Holds (SameClients s) o
        → Holds P (acknowledged k o)
    acknowledged-keeps k s (ok a t) r h e =
        let same = SameClients-SameRegistry s t e in
        kept.same t _ (add_to_wait-SameRegistry k t (same.sessions.clients k ∙ r))
          (kept.same s t same h)
    acknowledged-keeps k s (err x t) r h e = kept.same s t (SameClients-SameRegistry s t e) h
    acknowledged-keeps k s trap r h e = tt

    send_ack_to_client-Keeps : (k : Key) → Keeps P (send_ack_to_client k)
    unfolding send_ack_to_client
    send_ack_to_client-Keeps k = Preserves-intro P _ λ s h.
        elim (Option-cases (get Key-discrete k s.incoming_message_from_client_num_map)) [
          | inl e ↦ rw (get_expected_incoming_message_from_client_num_err s k e) h
          | inr (n, e) ↦ rw (get_expected_incoming_message_from_client_num_ok s k e) (
              acknowledged-keeps k s _ (sym ((kept.linked s h).incoming k) ∙ ap is_some e) h
                ((send_service_message_to_client-SameClients k (ack_message (sub64 n 1))).at s))
        ]

    send_acks-Keeps : (ks : List Key) → Keeps P (send_acks ks)
    unfolding send_acks
    send_acks-Keeps [] = Relates-pure (keeping P) tt
    send_acks-Keeps (k ∷ ks) =
        Relates-bind (keeping P) (send_ack_to_client k) _ (send_ack_to_client-Keeps k)
          (λ _. send_acks-Keeps ks)

    pub ack_timer_task-Keeps : Keeps P ack_timer_task
    unfolding ack_timer_task send_ack_to_clients_timer_callback schedule_check_keep_alive
    ack_timer_task-Keeps = Preserves-intro P _ λ s h.
        Holds-bind (send_acks (env.hash_order (keys s.registered_clients)) s) _
          (Preserves-at P _ (send_acks-Keeps _) s h) (λ t l. l)
          (λ _ t l.
            kept.same t _
              (SameRegistry-fields t _ refl refl refl
                (SameSessions-fields t _ refl refl refl refl refl))
              l)

    pub check_keep_alive-Keeps : ((k : Key) → Drops k) → Keeps P check_keep_alive_timer_callback
    unfolding check_keep_alive_timer_callback
    check_keep_alive-Keeps drops = Preserves-intro P _ λ s h.
        let l = kept.expired s h in
        remove_clients-keeps kept _ (some keep_alive_timeout) _ drops l
          (timed_out_clients-IsAlone _ _ (kept.linked _ l))

    pub init-Keeps : (params : WsInitParams) → Keeps P (init params)
    unfolding init cancel_timers cancel_ack_timer cancel_keep_alive_timer
        schedule_send_ack_to_clients
    init-Keeps params =
        Relates-bind (keeping P) (unwrap (check_validity params)) _
          (Relates-unwrap (keeping P) (check_validity params))
          (λ _. record {
            at = λ s h.
                kept.same s _
                  (SameRegistry-fields s _ refl refl refl
                    (SameSessions-fields s _ refl refl refl refl refl))
                  h;
          })
