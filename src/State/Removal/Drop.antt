-- ===== src/State/Removal/Drop.antt =====
-- What `remove_client` of state.rs does to the registrations, whatever the close message and the
-- `on_close` callback do.
use ic_websocket_cdk_rs.Prelude.{
  ◌≡◌, ap, sym, subst, Option, none, some, arith, get, remove, update, get-remove, get-update,
}
use ic_websocket_cdk_rs.Types.Messages.{CloseMessageReason, close_message}
use ic_websocket_cdk_rs.Types.Gateway.{RegisteredClient, decrement_clients_count}
use ic_websocket_cdk_rs.Env.{Env, Key}
use ic_websocket_cdk_rs.Env.Program.{OnCloseProgram}
use ic_websocket_cdk_rs.State.{State, Outcome, Key-discrete, ok, err, trap, Exec, continue, ignored}
use ic_websocket_cdk_rs.State.Relates.{
  Holds, IsPreorder, Relates, Relates-pure, Relates-ignore_error, Holds-reported, Holds-widen,
}
use ic_websocket_cdk_rs.State.Gateways.{becomes_empty, decrement_gateway_clients_count}
use ic_websocket_cdk_rs.State.Clients.{set_remove}
use ic_websocket_cdk_rs.State.Sending.{send, send_service_message_to_client}
use ic_websocket_cdk_rs.State.Sending.Frame.{
  SameClients, SameClients-IsPreorder, clients_count, app-SameClients, send-SameClients,
  send_service_message_to_client-SameClients,
}
use ic_websocket_cdk_rs.State.Removal.{
  run_on_close, call_on_close, forget_client, take_registered_client, remove_client, on_removed,
  send_close_message,
}

module _ ⦃env : Env⦄ where
  -- The registrations without client `k`, whose gateway counts one client less.
  abbrev pub taken : Key → Option (RegisteredClient env.Principal) → State → State
  taken k none s = s
  taken k (some c) s =
      decrement_gateway_clients_count c.gateway_principal
        (record s { registered_clients = remove Key-discrete k s.registered_clients })

  unfoldable pub drop_client : Key → State → State
  unfolding forget_client
  drop_client k s = taken k (get Key-discrete k s.registered_clients) (forget_client k s)

  abbrev pre : IsPreorder SameClients
  pre = SameClients-IsPreorder

  run_on_close-SameClients :
      (p : OnCloseProgram env.Principal env.App) → Relates SameClients (run_on_close p)
  unfolding run_on_close
  run_on_close-SameClients (OnCloseProgram.finish a) = record { at = λ s. app-SameClients s a }
  run_on_close-SameClients OnCloseProgram.abort = record { at = λ s. tt }
  run_on_close-SameClients (OnCloseProgram.send_then p bytes next) = record {
    at = λ s.
        Holds-reported pre s (send p bytes s) _ ((send-SameClients p bytes).at s)
          (λ r. run_on_close-SameClients (next r));
  }

  call_on_close-SameClients : (p : env.Principal) → Relates SameClients (call_on_close p)
  unfolding call_on_close
  call_on_close-SameClients p = record { at = λ s. called s s.params.handlers.on_close }
    where
      called :
          (s : State) (f : Option env.OnCloseCallback)
          → Holds (SameClients s) (elim f [
            | none ↦ ok tt s
            | some on_close ↦
                run_on_close
                  (env.on_close_program on_close (record { client_principal = p }) s.app)
                  s
          ])
      called s none = pre.reflexive s
      called s (some f) =
          (run_on_close-SameClients
              (env.on_close_program f (record { client_principal = p }) s.app)).at
            s

  send_close_message-SameClients :
      (k : Key) (reason : Option CloseMessageReason)
      → Relates SameClients (send_close_message k reason)
  send_close_message-SameClients k none = Relates-pure pre tt
  send_close_message-SameClients k (some reason) =
      Relates-ignore_error pre _
        (send_service_message_to_client-SameClients k (close_message reason))

  -- The same registrations, less one client, are the same registrations.
  module _ (s t : State) (h : SameClients s t) where
    forget_client-SameClients : (k : Key) → SameClients (forget_client k s) (forget_client k t)
    unfolding forget_client
    forget_client-SameClients k = record {
      clients = h.clients;
      current = ap (remove env.principal_discrete k.client_principal) h.current;
      waiting = ap (set_remove k) h.waiting;
      incoming = ap (remove Key-discrete k) h.incoming;
      removals = h.removals;
      params = h.params;
      time = h.time;
      outgoing = λ j. rw (get-remove, get-remove) (ground (arith, h.outgoing j));
      counts = h.counts;
    }

    emptied :
        (gp : env.Principal)
        → becomes_empty (get env.principal_discrete gp t.registered_gateways)
          ≡ becomes_empty (get env.principal_discrete gp s.registered_gateways)
    unfolding decrement_clients_count
    emptied gp = ground (arith, h.counts gp)

    removal-SameClients :
        (k : Key) (gp : env.Principal)
        → SameClients
            (decrement_gateway_clients_count gp
              (record s { registered_clients = remove Key-discrete k s.registered_clients }))
            (decrement_gateway_clients_count gp
              (record t { registered_clients = remove Key-discrete k t.registered_clients }))
    unfolding decrement_gateway_clients_count
    removal-SameClients k gp = record {
      clients = ap (remove Key-discrete k) h.clients;
      current = h.current;
      waiting = h.waiting;
      incoming = h.incoming;
      removals = rw (emptied gp, h.time, h.removals);
      params = h.params;
      time = h.time;
      outgoing = h.outgoing;
      counts = λ p. decremented p;
    }
      where
        decremented :
            (p : env.Principal)
            → clients_count (
                get env.principal_discrete p
                  (update env.principal_discrete gp decrement_clients_count t.registered_gateways))
              ≡ clients_count (
                  get env.principal_discrete p (
                    update env.principal_discrete gp decrement_clients_count s.registered_gateways))
        decremented p =
            rw (get-update, get-update)
              (unfold decrement_clients_count in ground (arith, h.counts p))

    taken-SameClients :
        (k : Key) (o : Option (RegisteredClient env.Principal))
        → SameClients (taken k o s) (taken k o t)
    taken-SameClients k none = h
    taken-SameClients k (some c) = removal-SameClients k c.gateway_principal

  drop_client-SameClients :
      (k : Key) (s t : State) → SameClients s t → SameClients (drop_client k s) (drop_client k t)
  unfolding drop_client
  drop_client-SameClients k s t h =
      subst
        (λ m.
          SameClients (taken k (get Key-discrete k s.registered_clients) (forget_client k s))
            (taken k (get Key-discrete k m) (forget_client k t)))
        (sym h.clients)
        (taken-SameClients (forget_client k s) (forget_client k t)
          (forget_client-SameClients s t h k) k (get Key-discrete k s.registered_clients))

  on_removed-Holds :
      (k : Key) (o : Option (RegisteredClient env.Principal)) (s : State)
      → Holds (SameClients (taken k o s)) (on_removed k o s)
  on_removed-Holds k none s = pre.reflexive s
  on_removed-Holds k (some c) s = (call_on_close-SameClients k.client_principal).at _

  -- The part of `remove_client` behind the close message.
  abbrev removal : Key → Exec (Unit {0})
  removal k s = take_registered_client k (forget_client k s)

  removal-Holds : (k : Key) (s : State) → Holds (SameClients (drop_client k s)) (removal k s)
  unfolding drop_client take_registered_client forget_client
  removal-Holds k s =
      on_removed-Holds k (get Key-discrete k s.registered_clients) (forget_client k s)

  removal-after :
      (k : Key) (s t : State)
      → SameClients s t
      → Holds (SameClients (drop_client k s)) (removal k t)
  removal-after k s t h =
      Holds-widen pre (drop_client k s) (drop_client k t) (removal k t)
        (drop_client-SameClients k s t h) (removal-Holds k t)

  -- An error of the close message is dropped.
  removal-ignored :
      (k : Key) (s : State) (o : Outcome (Unit {0}))
      → Holds (SameClients s) o
      → Holds (SameClients (drop_client k s)) (continue (ignored o) (λ _. removal k))
  removal-ignored k s (ok a t) h = removal-after k s t h
  removal-ignored k s (err e t) h = removal-after k s t h
  removal-ignored k s trap h = tt

  pub remove_client-Holds :
      (k : Key) (reason : Option CloseMessageReason) (s : State)
      → Holds (SameClients (drop_client k s)) (remove_client k reason s)
  unfolding remove_client
  remove_client-Holds k none s = removal-Holds k s
  remove_client-Holds k (some reason) s =
      removal-ignored k s (send_service_message_to_client k (close_message reason) s)
        ((send_service_message_to_client-SameClients k (close_message reason)).at s)
