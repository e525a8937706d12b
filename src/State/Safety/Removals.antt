-- ===== src/State/Safety/Removals.antt =====
-- The removals of state.rs and `close` and `wipe` of lib.rs do not trap where each queued message has
-- its timestamp and no callback traps, and keep it so.
use ic_websocket_cdk_rs.Prelude.{
  ◌≡◌, sym, ◌∙◌, Option, none, some, List, [], ◌∷◌, arith, get, remove, get-remove, keys, ite,
}
use ic_websocket_cdk_rs.Types.Messages.{CloseMessageReason, close_message, closed_by_application}
use ic_websocket_cdk_rs.Types.Gateway.{RegisteredClient, RegisteredGateway, decrement_clients_count}
use ic_websocket_cdk_rs.Env.{Env, Key}
use ic_websocket_cdk_rs.Env.Program.{OnCloseProgram}
use ic_websocket_cdk_rs.State.{State, Key-discrete, ok, gets, modify}
use ic_websocket_cdk_rs.State.Gateways.{decrement_gateway_clients_count}
use ic_websocket_cdk_rs.State.Clients.{get_client_key_from_principal}
use ic_websocket_cdk_rs.State.Certification.{delete_keys_from_cert_tree}
use ic_websocket_cdk_rs.State.Sending.{send}
use ic_websocket_cdk_rs.State.Removal.{
  run_on_close, call_on_close, forget_client, on_removed, take_registered_client,
  send_close_message, remove_client, close, on_gateway_removed, remove_gateway, remove_gateways,
  collect_expired, retain_unexpired, remove_empty_expired_gateways, remove_clients, clear_maps,
  reset_internal_state, wipe,
}
use ic_websocket_cdk_rs.State.Safety.{
  CloseFinishes, NeverTraps, Aligned, Safe, IsSafe, IsSafe-bind, IsSafe-pure, IsSafe-gets,
  IsSafe-modify, IsSafe-ignore_error, Safe-reported, get_client_key_from_principal-IsSafe,
}
use ic_websocket_cdk_rs.State.Safety.Sends.{
  update-AllAligned, send-IsSafe, send_service_message_to_client-IsSafe,
}

module _ ⦃env : Env⦄ where
  run_on_close-IsSafe :
      (p : OnCloseProgram env.Principal env.App) → CloseFinishes p → IsSafe (run_on_close p)
  unfolding run_on_close
  run_on_close-IsSafe (OnCloseProgram.finish a) f = record { at = λ s h. h }
  run_on_close-IsSafe OnCloseProgram.abort f = absurd f
  run_on_close-IsSafe (OnCloseProgram.send_then p bytes next) f = record {
    at = λ s h.
        Safe-reported (send p bytes s) _ ((send-IsSafe p bytes).at s h)
          (λ r. run_on_close-IsSafe (next r) (f r));
  }

  decrement_gateway_clients_count-Aligned :
      (gp : env.Principal) (s : State) → Aligned s → Aligned (decrement_gateway_clients_count gp s)
  unfolding decrement_gateway_clients_count decrement_clients_count
  decrement_gateway_clients_count-Aligned gp s h =
      update-AllAligned gp decrement_clients_count s.registered_gateways (λ x _ a. a) h

  remaining :
      {P : Type 0} (d : Dec P) (o : Option (RegisteredGateway env.Principal))
      (g : RegisteredGateway env.Principal)
      → ite d none o ≡ some g
      → o ≡ some g
  remaining (yes p) o g e = absurd (ground (arith, e))
  remaining (no n) o g e = e

  on_gateway_removed-Aligned :
      (gp : env.Principal) (o : Option (RegisteredGateway env.Principal)) (s : State)
      → Aligned s
      → Aligned (on_gateway_removed gp o s)
  unfolding delete_keys_from_cert_tree
  on_gateway_removed-Aligned gp none s h = h
  on_gateway_removed-Aligned gp (some x) s h = λ p g e. h p g (
      remaining (env.principal_discrete gp p) (get env.principal_discrete p s.registered_gateways) g
        (sym (get-remove env.principal_discrete gp p s.registered_gateways) ∙ e))

  remove_gateways-Aligned :
      (gps : List env.Principal) (s : State) → Aligned s → Aligned (remove_gateways gps s)
  unfolding remove_gateways remove_gateway
  remove_gateways-Aligned [] s h = h
  remove_gateways-Aligned (gp ∷ gps) s h =
      remove_gateways-Aligned gps (remove_gateway gp s)
        (on_gateway_removed-Aligned gp (get env.principal_discrete gp s.registered_gateways) s h)

  pub remove_empty_expired_gateways-Aligned :
      (s : State) → Aligned s → Aligned (remove_empty_expired_gateways s)
  unfolding remove_empty_expired_gateways
  remove_empty_expired_gateways-Aligned s h =
      let interval = s.params.send_ack_interval_ms in
      let visited = env.hash_order s.gateways_to_remove in
      let t : State = record s { gateways_to_remove = retain_unexpired s.time interval visited } in
      remove_gateways-Aligned (collect_expired s.time interval visited) t h

  clear_maps-Aligned : (s : State) → Aligned s → Aligned (clear_maps s)
  unfolding clear_maps get
  clear_maps-Aligned s h = λ p g e. absurd (ground (arith, e))

  module _ (never : NeverTraps) where
    call_on_close-IsSafe : (p : env.Principal) → IsSafe (call_on_close p)
    unfolding call_on_close
    call_on_close-IsSafe p = record { at = λ s h. called s h s.params.handlers.on_close }
      where
        called :
            (s : State)
            → Aligned s
            → (f : Option env.OnCloseCallback)
            → Safe (elim f [
              | none ↦ ok tt s
              | some on_close ↦
                  run_on_close
                    (env.on_close_program on_close (record { client_principal = p }) s.app)
                    s
            ])
        called s h none = h
        called s h (some f) =
            (run_on_close-IsSafe (env.on_close_program f (record { client_principal = p }) s.app)
                (never.on_close f (record { client_principal = p }) s.app)).at
              s h

    send_close_message-IsSafe :
        (k : Key) (reason : Option CloseMessageReason) → IsSafe (send_close_message k reason)
    send_close_message-IsSafe k none = IsSafe-pure tt
    send_close_message-IsSafe k (some reason) =
        IsSafe-ignore_error _ (send_service_message_to_client-IsSafe never k (close_message reason))

    on_removed-IsSafe :
        (k : Key) (o : Option (RegisteredClient env.Principal)) → IsSafe (on_removed k o)
    on_removed-IsSafe k none = record { at = λ s h. h }
    on_removed-IsSafe k (some c) = record {
      at = λ s h. (call_on_close-IsSafe k.client_principal).at _ (
          decrement_gateway_clients_count-Aligned c.gateway_principal
            (record s { registered_clients = remove Key-discrete k s.registered_clients }) h);
    }

    take_registered_client-IsSafe : (k : Key) → IsSafe (take_registered_client k)
    unfolding take_registered_client
    take_registered_client-IsSafe k = record {
      at = λ s h. (on_removed-IsSafe k (get Key-discrete k s.registered_clients)).at s h;
    }

    pub remove_client-IsSafe :
        (k : Key) (reason : Option CloseMessageReason) → IsSafe (remove_client k reason)
    unfolding remove_client forget_client
    remove_client-IsSafe k reason =
        IsSafe-bind (send_close_message k reason) _ (send_close_message-IsSafe k reason) λ _.
          IsSafe-bind (modify (forget_client k)) _ (IsSafe-modify _ (λ s h. h))
            λ _. take_registered_client-IsSafe k

    pub close-IsSafe : (p : env.Principal) → IsSafe (close p)
    unfolding close
    close-IsSafe p =
        IsSafe-bind (get_client_key_from_principal p) _ (get_client_key_from_principal-IsSafe p)
          λ k.
            IsSafe-bind (remove_client k (some closed_by_application)) _
              (remove_client-IsSafe k (some closed_by_application)) λ _. IsSafe-pure tt

    pub remove_clients-IsSafe :
        (ks : List Key) (reason : Option CloseMessageReason) → IsSafe (remove_clients ks reason)
    unfolding remove_clients
    remove_clients-IsSafe [] reason = IsSafe-pure tt
    remove_clients-IsSafe (k ∷ ks) reason =
        IsSafe-bind (remove_client k reason) _ (remove_client-IsSafe k reason)
          λ _. remove_clients-IsSafe ks reason

    pub wipe-IsSafe : IsSafe wipe
    unfolding reset_internal_state
    wipe-IsSafe =
        IsSafe-bind (gets (λ s. env.hash_order (keys s.registered_clients))) _ (IsSafe-gets _) λ ks.
          IsSafe-bind (remove_clients ks none) _ (remove_clients-IsSafe ks none)
            λ _. IsSafe-modify clear_maps clear_maps-Aligned
