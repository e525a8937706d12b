-- ===== src/State/Queues/Spent.antt =====
-- How many nonces the sends and the removals of state.rs, and `send`, `close` and `wipe` of lib.rs,
-- use up at most, where each callback sends and closes a limited number of times.
use ic_websocket_cdk_rs.Prelude.{
  ℕ, ◌+◌, ◌-◌, ◌≤◌, ◌≡◌, refl, ap, ◌∙◌, suc, Option, none, some, List, [], ◌∷◌, Bytes, arith, times,
  length, length-Perm, length-keys, get, keys, true, false,
}
use ic_websocket_cdk_rs.Types.Messages.{
  WebsocketServiceMessageContent, CloseMessageReason, close_message, closed_by_application,
  OnOpenCallbackArgs, OnMessageCallbackArgs, OnCloseCallbackArgs,
}
use ic_websocket_cdk_rs.Types.Gateway.{RegisteredClient}
use ic_websocket_cdk_rs.Env.{Env, Key}
use ic_websocket_cdk_rs.Env.Program.{OnCloseProgram, CallbackProgram}
use ic_websocket_cdk_rs.State.{State, Key-discrete, ok, unwrap, modify}
use ic_websocket_cdk_rs.State.Relates.{
  Holds, Holds-map, Holds-bind, Preserves-IsPreorder, Relates-unwrap,
}
use ic_websocket_cdk_rs.State.Reads.{get_client_key_from_principal-Relates}
use ic_websocket_cdk_rs.State.Clients.{get_client_key_from_principal}
use ic_websocket_cdk_rs.State.Sending.{ws_send, send, send_service_message_to_client}
use ic_websocket_cdk_rs.State.Removal.{
  run_on_close, call_on_close, on_removed, take_registered_client, forget_client,
  send_close_message, remove_client, remove_clients, close, clear_maps, reset_internal_state,
}
use ic_websocket_cdk_rs.State.Queues.Sound.{ws_send-IsSound}
use ic_websocket_cdk_rs.State.Queues.Counted.{forgotten-IsSound, unregistered-IsSound}
use ic_websocket_cdk_rs.State.Queues.Costs.{
  HasSpare, HasSpare-le, same-HasSpare, Costs, Costs-le, Costs-bind, Costs-then, Costs-Preserves,
  Costs-modify, Costs-pure, Costs-ignore_error, Costs-reported,
}

module _ ⦃env : Env⦄ where
  -- A callback that sends and closes at most `d` times, whatever the results of its calls.
  abbrev pub CallsUpTo : ℕ → CallbackProgram env.Principal env.App → Type 0
  CallsUpTo d (CallbackProgram.finish a) = Unit
  CallsUpTo d CallbackProgram.abort = Unit
  CallsUpTo d (CallbackProgram.send_then p bytes next) =
      (1 ≤ d) × ((r : Option _) → CallsUpTo (d - 1) (next r))
  CallsUpTo d (CallbackProgram.close_then p next) =
      (1 ≤ d) × ((r : Option _) → CallsUpTo (d - 1) (next r))

  abbrev pub SendsUpTo : ℕ → OnCloseProgram env.Principal env.App → Type 0
  SendsUpTo d (OnCloseProgram.finish a) = Unit
  SendsUpTo d OnCloseProgram.abort = Unit
  SendsUpTo d (OnCloseProgram.send_then p bytes next) =
      (1 ≤ d) × ((r : Option _) → SendsUpTo (d - 1) (next r))

  -- Each callback of the canister sends and closes at most `m` times.
  pub record IsLimited (m : ℕ) : Type 0 where
    pub on_open :
        (f : env.OnOpenCallback) (args : OnOpenCallbackArgs env.Principal) (a : env.App)
        → CallsUpTo m (env.on_open_program f args a)
    pub on_message :
        (f : env.OnMessageCallback) (args : OnMessageCallbackArgs env.Principal) (a : env.App)
        → CallsUpTo m (env.on_message_program f args a)
    pub on_close :
        (f : env.OnCloseCallback) (args : OnCloseCallbackArgs env.Principal) (a : env.App)
        → SendsUpTo m (env.on_close_program f args a)

  -- The sends.
  ws_send-Costs : (k : Key) (bytes : Bytes) (is_service : _) → Costs 1 (ws_send k bytes is_service)
  ws_send-Costs k bytes is_service = record {
    at = λ n s spare.
        Holds-map (ws_send k bytes is_service s) (λ t h. (omega (arith, spare.0), h))
          (ws_send-IsSound n s k bytes is_service
            (HasSpare-le (suc n) (1 + n) s (omega arith) spare).1);
  }

  pub send-Costs : (p : env.Principal) (bytes : Bytes) → Costs 1 (send p bytes)
  unfolding send
  send-Costs p bytes =
      Costs-then 1 (get_client_key_from_principal p) _
        (Costs-Preserves (get_client_key_from_principal p)
          (λ n. get_client_key_from_principal-Relates (Preserves-IsPreorder (HasSpare n)) p))
        (λ k. ws_send-Costs k bytes false)

  pub send_service_message_to_client-Costs :
      (k : Key) (m : WebsocketServiceMessageContent env.Principal)
      → Costs 1 (send_service_message_to_client k m)
  unfolding send_service_message_to_client
  send_service_message_to_client-Costs k m =
      Costs-then 1 (unwrap (env.encode_one m)) _
        (Costs-Preserves (unwrap (env.encode_one m))
          (λ n. Relates-unwrap (Preserves-IsPreorder (HasSpare n)) (env.encode_one m)))
        (λ bytes. ws_send-Costs k bytes true)

  run_on_close-Costs :
      (c : OnCloseProgram env.Principal env.App) (d : ℕ) → SendsUpTo d c → Costs d (run_on_close c)
  unfolding run_on_close
  run_on_close-Costs (OnCloseProgram.finish a) d h = record {
    at = λ n s spare.
        same-HasSpare n s _ refl refl refl (HasSpare-le n (d + n) s (omega arith) spare);
  }
  run_on_close-Costs OnCloseProgram.abort d h = record { at = λ n s spare. tt }
  run_on_close-Costs (OnCloseProgram.send_then p bytes next) d h =
      Costs-le (1 + (d - 1)) d _ (omega (arith, h.0)) (
        Costs-reported 1 (d - 1) (send p bytes) (λ r. run_on_close (next r)) (send-Costs p bytes)
          (λ r. run_on_close-Costs (next r) (d - 1) (h.1 r)))

  module _ (m : ℕ) (limited : IsLimited m) where
    pub call_on_close-Costs : (p : env.Principal) → Costs m (call_on_close p)
    unfolding call_on_close
    call_on_close-Costs p = record { at = λ n s spare. called n s spare s.params.handlers.on_close }
      where
        called :
            (n : ℕ) (s : State)
            → HasSpare (m + n) s
            → (f : Option env.OnCloseCallback)
            → Holds (HasSpare n) (elim f [
              | none ↦ ok tt s
              | some on_close ↦
                  run_on_close
                    (env.on_close_program on_close (record { client_principal = p }) s.app)
                    s
            ])
        called n s spare none = HasSpare-le n (m + n) s (omega arith) spare
        called n s spare (some f) =
            (run_on_close-Costs (env.on_close_program f (record { client_principal = p }) s.app) m
                (limited.on_close f (record { client_principal = p }) s.app)).at
              n s spare

    on_removed-Costs :
        (k : Key) (o : Option (RegisteredClient env.Principal)) (n : ℕ) (s : State)
        → HasSpare (m + n) s
        → Holds (HasSpare n) (on_removed k o s)
    on_removed-Costs k none n s spare = HasSpare-le n (m + n) s (omega arith) spare
    on_removed-Costs k (some c) n s spare =
        (call_on_close-Costs k.client_principal).at n _
          (spare.0, unregistered-IsSound (m + n) k c s spare.0 spare.1)

    take_registered_client-Costs : (k : Key) → Costs m (take_registered_client k)
    unfolding take_registered_client
    take_registered_client-Costs k = record {
      at = λ n s spare. on_removed-Costs k (get Key-discrete k s.registered_clients) n s spare;
    }

    -- A close message takes one nonce.
    abbrev pub close_cost : Option CloseMessageReason → ℕ
    close_cost none = 0
    close_cost (some reason) = 1

    send_close_message-Costs :
        (k : Key) (reason : Option CloseMessageReason)
        → Costs (close_cost reason) (send_close_message k reason)
    send_close_message-Costs k none = Costs-pure tt
    send_close_message-Costs k (some reason) =
        Costs-ignore_error 1 (send_service_message_to_client k (close_message reason))
          (send_service_message_to_client-Costs k (close_message reason))

    pub remove_client-Costs :
        (k : Key) (reason : Option CloseMessageReason)
        → Costs (close_cost reason + m) (remove_client k reason)
    unfolding remove_client
    remove_client-Costs k reason =
        Costs-bind (close_cost reason) m (send_close_message k reason) _
          (send_close_message-Costs k reason)
          λ _.
            Costs-then m (modify (forget_client k)) _
              (Costs-modify (forget_client k)
                (λ n s spare. (spare.0, forgotten-IsSound n k s spare.1)))
              (λ _. take_registered_client-Costs k)

    pub remove_clients-Costs :
        (ks : List Key) (reason : Option CloseMessageReason)
        → Costs (times (length ks) (close_cost reason + m)) (remove_clients ks reason)
    unfolding remove_clients
    remove_clients-Costs [] reason = Costs-pure tt
    remove_clients-Costs (k ∷ ks) reason =
        Costs-bind (close_cost reason + m) (times (length ks) (close_cost reason + m))
          (remove_client k reason) _ (remove_client-Costs k reason)
          (λ _. remove_clients-Costs ks reason)

    pub close-Costs : (p : env.Principal) → Costs (suc m) (close p)
    unfolding close
    close-Costs p =
        Costs-then (suc m) (get_client_key_from_principal p) _
          (Costs-Preserves (get_client_key_from_principal p)
            (λ n. get_client_key_from_principal-Relates (Preserves-IsPreorder (HasSpare n)) p))
          λ k. Costs-le (1 + m + 0) (suc m) _ (omega arith) (
            Costs-bind (1 + m) 0 (remove_client k (some closed_by_application)) _
              (remove_client-Costs k (some closed_by_application)) (λ _. Costs-pure tt))

    clear_maps-HasSpare : (n : ℕ) (s : State) → HasSpare n s → HasSpare n (clear_maps s)
    unfolding clear_maps get
    clear_maps-HasSpare n s spare = (
      spare.0,
      (
        record {
          ordered = λ gp g e. absurd (ground (arith, e));
          covered = λ gp g e. absurd (ground (arith, e));
          current = λ q. absurd (ground (arith, q.2));
        },
        λ gp g e. absurd (ground (arith, e)),
      ),
    )

    -- `wipe` calls `on_close` for each registered client.
    pub reset_internal_state-Costs :
        (n : ℕ) (s : State)
        → HasSpare (times (length s.registered_clients) m + n) s
        → Holds (HasSpare n) (reset_internal_state s)
    unfolding reset_internal_state
    reset_internal_state-Costs n s spare =
        let ks = env.hash_order (keys s.registered_clients) in
        let as_many : length ks ≡ length s.registered_clients =
          length-Perm ks (keys s.registered_clients) (env.hash_order-perm _)
          ∙ length-keys s.registered_clients in
        let same : times (length ks) (close_cost none + m) ≡ times (length s.registered_clients) m =
          ap (times (length ks)) (omega arith) ∙ ap (λ l. times l m) as_many in
        Holds-bind (remove_clients ks none s) _
          ((remove_clients-Costs ks none).at n s (HasSpare-le _ _ s (omega (arith, same)) spare))
          (λ t l. l) (λ _ t l. clear_maps-HasSpare n t l)
