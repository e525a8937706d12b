-- ===== src/Api/Service.antt =====
-- The service messages that clients send: `ws_message` of lib.rs with
-- `handle_received_service_message` of state.rs, and the keep-alive check of timers.rs after one.
use ic_websocket_cdk_rs.Prelude.{
  ℕ, ◌+◌, ◌≤◌, ◌<◌, ◌≡◌, refl, ◌∙◌, ◌⊎◌, inl, inr, Bool, true, false, Option, some, Text, arith,
  get, is_some, ltb, sub64, if◌then◌else◌, get-update_self, u64_mod,
}
use ic_websocket_cdk_rs.Types.Messages.{
  CanisterWsMessageArguments, WebsocketServiceMessageContent, keep_alive_message, open_message,
  ack_message, close_message,
}
use ic_websocket_cdk_rs.Types.Gateway.{RegisteredClient, update_last_keep_alive_timestamp}
use ic_websocket_cdk_rs.Errors.{to_string, invalid_service_message, decode_service_message_content}
use ic_websocket_cdk_rs.Env.{Env, Key}
use ic_websocket_cdk_rs.State.{State, Key-discrete, ok, err, continue}
use ic_websocket_cdk_rs.State.Service.{
  handle_received_service_message, handle_service_content, handle_keep_alive_client_message,
  decoded_or_fail,
}
use ic_websocket_cdk_rs.State.Removal.NoErrors.{Leaves, Leaves-map}
use ic_websocket_cdk_rs.State.Registry.{is_registered, current_key}
use ic_websocket_cdk_rs.Api.{ws_message}
use ic_websocket_cdk_rs.Api.Numbers.{next_number, ws_message-in_order}
use ic_websocket_cdk_rs.Timers.{check_keep_alive_timer_callback}
use ic_websocket_cdk_rs.Timers.KeepAlive.{is_late, check_keep_alive-registered}

module _ ⦃env : Env⦄ where
  -- What a service message must not be: undecodable, or one of the canister's own.
  abbrev pub refusal : WebsocketServiceMessageContent env.Principal ⊎ Text → Text
  refusal (inl content) = to_string invalid_service_message
  refusal (inr e) = to_string (decode_service_message_content e)

  abbrev pub IsKeepAlive : WebsocketServiceMessageContent env.Principal ⊎ Text → Type 0
  IsKeepAlive (inl (keep_alive_message n)) = Unit
  IsKeepAlive (inl (open_message k)) = ⊥
  IsKeepAlive (inl (ack_message n)) = ⊥
  IsKeepAlive (inl (close_message r)) = ⊥
  IsKeepAlive (inr e) = ⊥

  refused :
      (k : Key) (r : WebsocketServiceMessageContent env.Principal ⊎ Text) (s : State)
      → ¬ IsKeepAlive r
      → continue (decoded_or_fail r s) (handle_service_content k) ≡ err (refusal r) s
  unfolding handle_service_content
  refused k (inl (keep_alive_message n)) s h = absurd (h tt)
  refused k (inl (open_message j)) s h = refl
  refused k (inl (ack_message n)) s h = refl
  refused k (inl (close_message r)) s h = refl
  refused k (inr e) s h = refl

  -- A client that is not late stays, whether it is waited for or not.
  stays :
      (waited : Bool) (time : ℕ) (c : RegisteredClient env.Principal)
      (o : Option (RegisteredClient env.Principal))
      → o ≡ some c
      → is_late time (some c) ≡ false
      → (if waited then (if is_late time o then false else is_some o) else is_some o) ≡ true
  stays waited time c o found young = rw (found, young) (ground arith)

  module _ (s : State) (p : env.Principal) (args : CanisterWsMessageArguments env.Principal)
      (connected : current_key s p ≡ some args.msg.client_key)
      (expected : get Key-discrete args.msg.client_key s.incoming_message_from_client_num_map
        ≡ some args.msg.sequence_num)
      (service : args.msg.is_service_message ≡ true) where
    service_lem :
        ws_message p args s
        ≡ handle_received_service_message args.msg.client_key args.msg.content
            (next_number args.msg.client_key s)
    service_lem =
        ws_message-in_order s p args args.msg.sequence_num connected expected refl ∙ rw service

    -- A service message of a connected client, with the expected number and a content that does not
    -- decode to a keep-alive, has the error of an invalid service message, or of the decoder, and
    -- the state is the one where the next number is expected: the client stays connected.
    pub ws_message-refused :
        ¬ IsKeepAlive (env.decode_one args.msg.content)
        → ws_message p args s
          ≡ err (refusal (env.decode_one args.msg.content)) (next_number args.msg.client_key s)
    unfolding handle_received_service_message
    ws_message-refused h =
        service_lem ∙ refused args.msg.client_key (env.decode_one args.msg.content) _ h

    -- A service message of a connected and registered client, with the expected number and a
    -- content that decodes to a keep-alive, is accepted, and a keep-alive check that runs at most
    -- 60 seconds later, at a time below 2^64, leaves the client registered, unless the check traps.
    pub ws_message-kept_alive :
        (c : RegisteredClient env.Principal) (last later : ℕ)
        → get Key-discrete args.msg.client_key s.registered_clients ≡ some c
        → env.decode_one args.msg.content ≡ inl (keep_alive_message last)
        → s.time ≤ later
        → later ≤ s.time + 60000000000
        → later < u64_mod
        → (t : State) × (ws_message p args s ≡ ok tt t)
          × Leaves
              (λ u. is_registered u args.msg.client_key ≡ true)
              (check_keep_alive_timer_callback (record t { time = later }))
    unfolding handle_received_service_message handle_service_content
        handle_keep_alive_client_message update_last_keep_alive_timestamp
    ws_message-kept_alive c last later registered decoded after before bound =
        let k = args.msg.client_key in
        let t = handle_keep_alive_client_message k (next_number k s) in
        let found =
          get-update_self Key-discrete k (update_last_keep_alive_timestamp s.time)
            s.registered_clients registered in
        let young : ltb 60000000000 (sub64 later s.time) ≡ false = ground arith in
        (
          t,
          service_lem ∙ rw decoded,
          Leaves-map _ (check_keep_alive_timer_callback (record t { time = later }))
              (λ u e. e k ∙ stays _ later (update_last_keep_alive_timestamp s.time c) _ found young)
              (check_keep_alive-registered (record t { time = later })),
        )
