-- ===== src/State.antt =====
-- src/ic-websocket-cdk/src/state.rs: the thread-local variables as one record, with what the
-- Internet Computer keeps for the canister, and the monad of the functions that change it.
pub mod Gateways
pub mod Clients
pub mod Certification
pub mod Sending
pub mod Removal
pub mod Polling
pub mod Service
pub mod Relates
pub mod Safety
pub mod Steps
pub mod Reads
pub mod Missing
pub mod Queues
pub mod Registry
use ic_websocket_cdk_rs.Prelude.{
  ℕ, ◌⊎◌, inl, inr, Option, none, some, List, [], ◌++◌, Bytes, Text, Map, ℕ_discrete,
}
use ic_websocket_cdk_rs.Types.Messages.{ClientKey}
use ic_websocket_cdk_rs.Types.Gateway.{RegisteredGateway, RegisteredClient}
use ic_websocket_cdk_rs.Env.{Env, Key}
use ic_websocket_cdk_rs.Params.{WsHandlers, WsInitParams, get_handlers}

pub record State ⦃env : Env⦄ : Type 0 where
  -- the thread-local variables of state.rs
  pub registered_clients : Map Key (RegisteredClient env.Principal)
  pub current_client_key_map : Map env.Principal Key
  pub clients_waiting_for_keep_alive : List Key
  pub outgoing_message_to_client_num_map : Map Key ℕ
  pub incoming_message_from_client_num_map : Map Key ℕ
  pub cert_tree : env.RbTree
  pub registered_gateways : Map env.Principal (RegisteredGateway env.Principal)
  pub gateways_to_remove : Map env.Principal ℕ
  pub params : WsInitParams
  -- the thread-local variables of timers.rs
  pub ack_timer : Option env.TimerId
  pub keep_alive_timer : Option env.TimerId
  -- the system's: the time of the current message in nanoseconds, the timers, the certified data
  pub time : ℕ
  pub timers : env.Timers
  pub certified_data : Bytes
  -- the canister's own state
  pub app : env.App

-- A function returns a value, returns `Err` of a text, or traps. What it wrote before an `Err`
-- stays written. After a trap the system restores the state from before the message.
pub data Outcome ⦃env : Env⦄ (A : Type 0) : Type 0 where
  ok : A → State → Outcome A
  err : Text → State → Outcome A
  trap : Outcome A

module _ ⦃env : Env⦄ where
  -- utils.rs: the system's time.
  abbrev pub get_current_time : State → ℕ
  get_current_time s = s.time

  abbrev pub set_params : WsInitParams → State → State
  set_params params s = record s { params = params }

  abbrev pub get_params : State → WsInitParams
  get_params s = s.params

  abbrev pub get_handlers_from_params : State → WsHandlers
  get_handlers_from_params s = get_handlers (get_params s)

  unfoldable pub Key-discrete : Discrete Key
  Key-discrete = hlevel (env.principal_discrete, ℕ_discrete)

  abbrev pub Exec : Type 0 → Type 0
  Exec A = State → Outcome A

  abbrev pub pure : {A : Type 0} → A → Exec A
  pure a s = ok a s

  abbrev pub fail : {A : Type 0} → Text → Exec A
  fail e s = err e s

  abbrev pub gets : {A : Type 0} → (State → A) → Exec A
  gets f s = ok (f s) s

  abbrev pub modify : (State → State) → Exec (Unit {0})
  modify f s = ok tt (f s)

  -- `?` on an outcome
  abbrev pub continue : {A B : Type 0} → Outcome A → (A → Exec B) → Outcome B
  continue (ok a s) f = f a s
  continue (err e s) f = err e s
  continue trap f = trap

  infixl 5 ◌>>=◌ ◌>>◌
  abbrev pub ◌>>=◌ : {A B : Type 0} → Exec A → (A → Exec B) → Exec B
  ◌>>=◌ m f s = continue (m s) f

  abbrev pub ◌>>◌ : {B : Type 0} → Exec (Unit {0}) → Exec B → Exec B
  m >> k = m >>= λ _. k

  -- `ok_or_else`
  abbrev pub or_fail : {A : Type 0} → Option A → Text → Exec A
  or_fail none e s = err e s
  or_fail (some a) e s = ok a s

  -- `unwrap`
  abbrev pub unwrap : {A : Type 0} → Option A → Exec A
  unwrap none s = trap
  unwrap (some a) s = ok a s

  -- a `Result` of another crate
  abbrev pub from_result : {A : Type 0} → A ⊎ Text → Exec A
  from_result (inl a) s = ok a s
  from_result (inr e) s = err e s

  -- `let _ = …`: an error is dropped, and the state stays as it is.
  abbrev pub ignored : Outcome (Unit {0}) → Outcome (Unit {0})
  ignored (ok a s) = ok tt s
  ignored (err e s) = ok tt s
  ignored trap = trap

  abbrev pub ignore_error : Exec (Unit {0}) → Exec (Unit {0})
  ignore_error m s = ignored (m s)

  -- The result of a call goes to the caller's program: `none` for `Ok(())`, `some e` for `Err(e)`.
  abbrev pub reported : Outcome (Unit {0}) → (Option Text → Exec (Unit {0})) → Outcome (Unit {0})
  reported (ok _ s) next = next none s
  reported (err e s) next = next (some e) s
  reported trap next = trap
