-- ===== src/Timers/Ready.antt =====
-- What the acknowledgement timer of timers.rs meets where a message can be sent to every registered
-- client.
use ic_websocket_cdk_rs.Prelude.{
  ◌≡◌, refl, sym, ap, ◌∙◌, subst, inl, true, Option, none, some, Bytes, arith, get, is_some, add64,
}
use ic_websocket_cdk_rs.Constants.{messages_to_delete_count}
use ic_websocket_cdk_rs.Types.Messages.{WebsocketMessage, WebsocketServiceMessageContent}
use ic_websocket_cdk_rs.Types.Gateway.{RegisteredClient, RegisteredGateway, increment_nonce}
use ic_websocket_cdk_rs.Types.Gateway.Expiry.{delete_old_messages-StartsYoung}
use ic_websocket_cdk_rs.Env.{Env, Key}
use ic_websocket_cdk_rs.State.{State, Key-discrete, ok, unwrap, ◌>>=◌}
use ic_websocket_cdk_rs.State.Relates.{Holds}
use ic_websocket_cdk_rs.State.Sending.{cbor_serialize, ws_send, send_service_message_to_client}
use ic_websocket_cdk_rs.State.Sending.Frame.{SameClients, clients_count, ws_send-SameClients}
use ic_websocket_cdk_rs.State.Sending.Success.{
  Sends, ws_send-sent_state, sent_state, websocket_message,
}
use ic_websocket_cdk_rs.State.Safety.{Aligned, Safe}
use ic_websocket_cdk_rs.State.Safety.Sends.{ws_send-IsSafe}
use ic_websocket_cdk_rs.State.Registry.{IsLinked}
use ic_websocket_cdk_rs.State.Registry.Rules.{IsLinked-IsKept, SameClients-SameRegistry}

module _ ⦃env : Env⦄ where
  -- Every message has an encoding.
  pub record Serializes : Type 0 where
    pub encodes :
        (m : WebsocketServiceMessageContent env.Principal) → is_some (env.encode_one m) ≡ true
    pub serializes : (m : WebsocketMessage env.Principal) → (b : Bytes) × (cbor_serialize m ≡ inl b)

  -- A message can be sent to every registered client.
  pub record IsReady (s : State) : Type 0 where
    pub linked : IsLinked s
    pub aligned : Aligned s
    pub gateways :
        (k : Key) (c : RegisteredClient env.Principal)
        → get Key-discrete k s.registered_clients ≡ some c
        → is_some (get env.principal_discrete c.gateway_principal s.registered_gateways) ≡ true

  pub some-of : {A : Type 0} (o : Option A) → is_some o ≡ true → (a : A) × (o ≡ some a)
  some-of none h = absurd (ground arith)
  some-of (some a) h = (a, refl)

  is_some-clients_count :
      (o p : Option (RegisteredGateway env.Principal))
      → clients_count o ≡ clients_count p
      → is_some o ≡ is_some p
  is_some-clients_count none none e = refl
  is_some-clients_count none (some g) e = absurd (ground arith)
  is_some-clients_count (some g) none e = absurd (ground arith)
  is_some-clients_count (some g) (some x) e = refl

  IsReady-SameClients : (s t : State) → SameClients s t → Aligned t → IsReady s → IsReady t
  IsReady-SameClients s t e a h = record {
    linked = IsLinked-IsKept.same s t (SameClients-SameRegistry s t e) h.linked;
    aligned = a;
    gateways = λ k c r.
        let gp = c.gateway_principal in
        is_some-clients_count (get env.principal_discrete gp t.registered_gateways)
          (get env.principal_discrete gp s.registered_gateways) (e.counts gp)
        ∙ h.gateways k c (sym (ap (get Key-discrete k) e.clients) ∙ r);
  }

  module _ (all : Serializes) where
    ready-Sends :
        (s : State) (k : Key) (c : RegisteredClient env.Principal) (bytes : Bytes)
        → IsReady s
        → get Key-discrete k s.registered_clients ≡ some c
        → Sends s k bytes true
    unfolding increment_nonce
    ready-Sends s k c bytes h r =
        let (g, found) =
          some-of (get env.principal_discrete c.gateway_principal s.registered_gateways)
            (h.gateways k c r) in
        let (n, numbered) =
          some-of (get Key-discrete k s.outgoing_message_to_client_num_map)
            (h.linked.outgoing k ∙ ap is_some r) in
        let (content, encoded) = all.serializes (websocket_message s k bytes true (add64 n 1)) in
        let expired =
          delete_old_messages-StartsYoung (increment_nonce g) messages_to_delete_count
            s.params.send_ack_interval_ms s.time (h.aligned c.gateway_principal g found) in
        record {
          client = c;
          gateway = g;
          num = n;
          content = content;
          kept = expired.1;
          deleted = _;
          registered = r;
          at_gateway = found;
          numbered = numbered;
          encoded = encoded;
          expiry = expired.2;
        }

    -- An acknowledgement reaches the queue of a registered client's gateway.
    pub sent_service :
        (s : State) (k : Key) (c : RegisteredClient env.Principal)
        (m : WebsocketServiceMessageContent env.Principal)
        → IsReady s
        → get Key-discrete k s.registered_clients ≡ some c
        → (t : State) × (send_service_message_to_client k m s ≡ ok tt t)
          × SameClients s t
          × IsReady t
    unfolding send_service_message_to_client
    sent_service s k c m h r =
        let (bytes, e) = some-of (env.encode_one m) (all.encodes m) in
        let w = ready-Sends s k c bytes h r in
        let sent = ws_send-sent_state w in
        let same : SameClients s (sent_state w) =
          subst (Holds (SameClients s)) sent ((ws_send-SameClients k bytes true).at s) in
        let aligned : Aligned (sent_state w) =
          subst Safe sent ((ws_send-IsSafe k bytes true).at s h.aligned) in
        (
          sent_state w,
          ap (λ o. (unwrap o >>= λ b. ws_send k b true) s) e ∙ sent,
          same,
          IsReady-SameClients s (sent_state w) same aligned h,
        )
