-- ===== src/State/Removal/NoErrors.antt =====
-- `remove_client` and `remove_clients` of state.rs have no error to return: an error of the close
-- message is dropped, and the `on_close` callback returns nothing.
use ic_websocket_cdk_rs.Prelude.{Option, none, some, List, [], ◌∷◌, get, Text}
use ic_websocket_cdk_rs.Types.Messages.{CloseMessageReason, close_message}
use ic_websocket_cdk_rs.Types.Gateway.{RegisteredClient}
use ic_websocket_cdk_rs.Env.{Env, Key}
use ic_websocket_cdk_rs.Env.Program.{OnCloseProgram}
use ic_websocket_cdk_rs.State.{
  State, Outcome, Exec, Key-discrete, ok, err, trap, continue, ignored, reported, modify,
}
use ic_websocket_cdk_rs.State.Relates.{Holds}
use ic_websocket_cdk_rs.State.Removal.{
  remove_client, remove_clients, run_on_close, call_on_close, on_removed, take_registered_client,
  forget_client,
}
use ic_websocket_cdk_rs.State.Sending.{send, send_service_message_to_client}

module _ ⦃env : Env⦄ where
  -- An outcome that is no error.
  abbrev pub NoError : Outcome (Unit {0}) → Type 0
  NoError (ok a s) = Unit
  NoError (err e s) = ⊥
  NoError trap = Unit

  pub Holds-then :
      {P : State → Type 0} (Q : State → Type 0) (o : Outcome (Unit {0}))
      (f : Unit {0} → Exec (Unit {0}))
      → NoError o
      → Holds P o
      → ((t : State) → P t → Holds Q (f tt t))
      → Holds Q (continue o f)
  Holds-then Q (ok a t) f n h k = k t h
  Holds-then Q (err e t) f n h k = absurd n
  Holds-then Q trap f n h k = tt

  NoError-then :
      (o : Outcome (Unit {0})) (f : Unit {0} → Exec (Unit {0}))
      → NoError o
      → ((t : State) → NoError (f tt t))
      → NoError (continue o f)
  NoError-then (ok a t) f n k = k t
  NoError-then (err e t) f n k = absurd n
  NoError-then trap f n k = tt

  NoError-reported :
      (o : Outcome (Unit {0})) (next : Option Text → Exec (Unit {0}))
      → ((r : Option Text) (t : State) → NoError (next r t))
      → NoError (reported o next)
  NoError-reported (ok a t) next k = k none t
  NoError-reported (err e t) next k = k (some e) t
  NoError-reported trap next k = tt

  run_on_close-NoError :
      (c : OnCloseProgram env.Principal env.App) (s : State) → NoError (run_on_close c s)
  unfolding run_on_close
  run_on_close-NoError (OnCloseProgram.finish a) s = tt
  run_on_close-NoError OnCloseProgram.abort s = tt
  run_on_close-NoError (OnCloseProgram.send_then p bytes next) s =
      NoError-reported (send p bytes s) _ (λ r. run_on_close-NoError (next r))

  call_on_close-NoError : (p : env.Principal) (s : State) → NoError (call_on_close p s)
  unfolding call_on_close
  call_on_close-NoError p s =
      elim s.params.handlers.on_close
        as (λ o. NoError (elim o [
          | none ↦ ok tt s
          | some on_close ↦
              run_on_close (env.on_close_program on_close (record { client_principal = p }) s.app) s
        ])) [ none ↦ tt | some f ↦ run_on_close-NoError _ s ]

  take_registered_client-NoError : (k : Key) (s : State) → NoError (take_registered_client k s)
  unfolding take_registered_client
  take_registered_client-NoError k s = go (get Key-discrete k s.registered_clients)
    where
      go : (o : Option (RegisteredClient env.Principal)) → NoError (on_removed k o s)
      go none = tt
      go (some c) = call_on_close-NoError k.client_principal _

  ignored-NoError : (o : Outcome (Unit {0})) → NoError (ignored o)
  ignored-NoError (ok a t) = tt
  ignored-NoError (err e t) = tt
  ignored-NoError trap = tt

  -- `remove_client` has no error to return.
  pub remove_client-NoError :
      (k : Key) (reason : Option CloseMessageReason) (s : State)
      → NoError (remove_client k reason s)
  unfolding remove_client
  remove_client-NoError k none s = take_registered_client-NoError k (forget_client k s)
  remove_client-NoError k (some reason) s =
      NoError-then (ignored (send_service_message_to_client k (close_message reason) s)) _
        (ignored-NoError _) (λ t. take_registered_client-NoError k (forget_client k t))

  pub remove_clients-NoError :
      (ks : List Key) (reason : Option CloseMessageReason) (s : State)
      → NoError (remove_clients ks reason s)
  unfolding remove_clients
  remove_clients-NoError [] reason s = tt
  remove_clients-NoError (k ∷ ks) reason s =
      NoError-then (remove_client k reason s) _ (remove_client-NoError k reason s)
        (λ t. remove_clients-NoError ks reason t)

  -- An outcome that is a state with the property, or a trap.
  abbrev pub Leaves : (State → Type 0) → Outcome (Unit {0}) → Type 0
  Leaves P (ok a s) = P s
  Leaves P (err e s) = ⊥
  Leaves P trap = Unit

  pub Leaves-then :
      {P : State → Type 0} (Q : State → Type 0) (o : Outcome (Unit {0})) (f : State → State)
      → NoError o
      → Holds P o
      → ((t : State) → P t → Q (f t))
      → Leaves Q (continue o (λ _. modify f))
  Leaves-then Q (ok a t) f n h k = k t h
  Leaves-then Q (err e t) f n h k = absurd n
  Leaves-then Q trap f n h k = tt

  pub Leaves-bind :
      {P : State → Type 0} (Q : State → Type 0) (o : Outcome (Unit {0}))
      (f : Unit {0} → Exec (Unit {0}))
      → NoError o
      → Holds P o
      → ((t : State) → P t → Leaves Q (f tt t))
      → Leaves Q (continue o f)
  Leaves-bind Q (ok a t) f n h k = k t h
  Leaves-bind Q (err e t) f n h k = absurd n
  Leaves-bind Q trap f n h k = tt

  pub Leaves-map :
      {P : State → Type 0} (Q : State → Type 0) (o : Outcome (Unit {0}))
      → ((t : State) → P t → Q t)
      → Leaves P o
      → Leaves Q o
  Leaves-map Q (ok a t) k h = k t h
  Leaves-map Q (err e t) k h = h
  Leaves-map Q trap k h = tt
