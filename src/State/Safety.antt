-- ===== src/State/Safety.antt =====
-- Actions of state.rs that do not trap where each queued message has its timestamp, and that keep it
-- so: one rule for each way to build an action.
pub mod Sends
pub mod Removals
use ic_websocket_cdk_rs.Prelude.{
  ◌≡◌, ◌⊎◌, inl, inr, Bool, true, false, Option, none, some, Text, Bytes, get, is_some, ite,
  if◌then◌else◌, Map, arith,
}
use ic_websocket_cdk_rs.Types.Messages.{
  WebsocketServiceMessageContent, OnOpenCallbackArgs, OnMessageCallbackArgs, OnCloseCallbackArgs,
}
use ic_websocket_cdk_rs.Types.Gateway.{RegisteredGateway}
use ic_websocket_cdk_rs.Types.Gateway.Expiry.{IsAligned}
use ic_websocket_cdk_rs.Env.{Env, Key}
use ic_websocket_cdk_rs.Env.Program.{OnCloseProgram, CallbackProgram}
use ic_websocket_cdk_rs.State.{
  State, Outcome, ok, err, trap, Exec, pure, fail, gets, modify, ◌>>=◌, continue, or_fail, unwrap,
  from_result, ignored, ignore_error, reported,
}
use ic_websocket_cdk_rs.State.Gateways.{
  get_registered_gateway, get_outgoing_message_nonce, check_is_gateway_registered,
}
use ic_websocket_cdk_rs.State.Clients.{
  get_registered_client, get_client_key_from_principal, get_outgoing_message_to_client_num,
  get_expected_incoming_message_from_client_num, check_registered_client_exists,
  check_client_registered_to_gateway,
}

module _ ⦃env : Env⦄ where
  -- A callback that does not trap, whatever the results of its calls.
  abbrev pub Finishes : CallbackProgram env.Principal env.App → Type 0
  Finishes (CallbackProgram.finish a) = Unit
  Finishes CallbackProgram.abort = ⊥
  Finishes (CallbackProgram.send_then p bytes next) = (r : Option Text) → Finishes (next r)
  Finishes (CallbackProgram.close_then p next) = (r : Option Text) → Finishes (next r)

  abbrev pub CloseFinishes : OnCloseProgram env.Principal env.App → Type 0
  CloseFinishes (OnCloseProgram.finish a) = Unit
  CloseFinishes OnCloseProgram.abort = ⊥
  CloseFinishes (OnCloseProgram.send_then p bytes next) = (r : Option Text) → CloseFinishes (next r)

  abbrev pub AllAligned : Map env.Principal (RegisteredGateway env.Principal) → Type 0
  AllAligned m =
      (gp : env.Principal) (g : RegisteredGateway env.Principal)
      → get env.principal_discrete gp m ≡ some g
      → IsAligned g

  abbrev pub Aligned : State → Type 0
  Aligned s = AllAligned s.registered_gateways

  abbrev pub Safe : {A : Type 0} → Outcome A → Type 0
  Safe (ok a s) = Aligned s
  Safe (err e s) = Aligned s
  Safe trap = ⊥

  pub record IsSafe {A : Type 0} (m : Exec A) : Type 0 where
    pub at : (s : State) → Aligned s → Safe (m s)

  -- Each service message has an encoding, and no callback of the canister traps.
  pub record NeverTraps : Type 0 where
    pub encodes :
        (m : WebsocketServiceMessageContent env.Principal) → is_some (env.encode_one m) ≡ true
    pub on_open :
        (f : env.OnOpenCallback) (args : OnOpenCallbackArgs env.Principal) (a : env.App)
        → Finishes (env.on_open_program f args a)
    pub on_message :
        (f : env.OnMessageCallback) (args : OnMessageCallbackArgs env.Principal) (a : env.App)
        → Finishes (env.on_message_program f args a)
    pub on_close :
        (f : env.OnCloseCallback) (args : OnCloseCallbackArgs env.Principal) (a : env.App)
        → CloseFinishes (env.on_close_program f args a)

  pub Safe-continue :
      {A B : Type 0} (o : Outcome A) (f : A → Exec B)
      → Safe o
      → ((a : A) → IsSafe (f a))
      → Safe (continue o f)
  Safe-continue (ok a t) f h k = (k a).at t h
  Safe-continue (err e t) f h k = h
  Safe-continue trap f h k = absurd h

  pub IsSafe-bind :
      {A B : Type 0} (m : Exec A) (f : A → Exec B)
      → IsSafe m
      → ((a : A) → IsSafe (f a))
      → IsSafe (m >>= f)
  IsSafe-bind m f h k = record { at = λ s a. Safe-continue (m s) f (h.at s a) k }

  pub IsSafe-pure : {A : Type 0} (a : A) → IsSafe (pure a)
  IsSafe-pure a = record { at = λ s h. h }

  pub IsSafe-fail : {A : Type 0} (e : Text) → IsSafe {A = A} (fail e)
  IsSafe-fail e = record { at = λ s h. h }

  pub IsSafe-gets : {A : Type 0} (f : State → A) → IsSafe (gets f)
  IsSafe-gets f = record { at = λ s h. h }

  pub IsSafe-modify :
      (f : State → State) → ((s : State) → Aligned s → Aligned (f s)) → IsSafe (modify f)
  IsSafe-modify f h = record { at = h }

  pub IsSafe-unwrap : {A : Type 0} (o : Option A) → is_some o ≡ true → IsSafe (unwrap o)
  IsSafe-unwrap none e = absurd (ground arith)
  IsSafe-unwrap (some a) e = IsSafe-pure a

  pub IsSafe-from_result : {A : Type 0} (r : A ⊎ Text) → IsSafe (from_result r)
  IsSafe-from_result (inl a) = IsSafe-pure a
  IsSafe-from_result (inr e) = IsSafe-fail e

  Safe-ignored : (o : Outcome (Unit {0})) → Safe o → Safe (ignored o)
  Safe-ignored (ok a t) h = h
  Safe-ignored (err e t) h = h
  Safe-ignored trap h = h

  pub IsSafe-ignore_error : (m : Exec (Unit {0})) → IsSafe m → IsSafe (ignore_error m)
  IsSafe-ignore_error m h = record { at = λ s a. Safe-ignored (m s) (h.at s a) }

  pub Safe-reported :
      (o : Outcome (Unit {0})) (next : Option Text → Exec (Unit {0}))
      → Safe o
      → ((r : Option Text) → IsSafe (next r))
      → Safe (reported o next)
  Safe-reported (ok a t) next h k = (k none).at t h
  Safe-reported (err e t) next h k = (k (some e)).at t h
  Safe-reported trap next h k = absurd h

  pub IsSafe-if :
      {A : Type 0} (b : Bool) (m n : Exec A) → IsSafe m → IsSafe n → IsSafe (if b then m else n)
  IsSafe-if true m n h k = h
  IsSafe-if false m n h k = k

  pub IsSafe-ite :
      {A P : Type 0} (d : Dec P) (m n : Exec A) → IsSafe m → IsSafe n → IsSafe (ite d m n)
  IsSafe-ite (yes p) m n h k = h
  IsSafe-ite (no p) m n h k = k

  Safe-or_fail :
      {A : Type 0} (o : Option A) (e : Text) (s : State) → Aligned s → Safe (or_fail o e s)
  Safe-or_fail none e s h = h
  Safe-or_fail (some a) e s h = h

  -- The lookups.
  pub get_registered_gateway-IsSafe : (gp : env.Principal) → IsSafe (get_registered_gateway gp)
  unfolding get_registered_gateway
  get_registered_gateway-IsSafe gp = record { at = λ s h. Safe-or_fail _ _ s h }

  pub get_outgoing_message_nonce-IsSafe :
      (gp : env.Principal) → IsSafe (get_outgoing_message_nonce gp)
  unfolding get_outgoing_message_nonce
  get_outgoing_message_nonce-IsSafe gp =
      IsSafe-bind (get_registered_gateway gp) _ (get_registered_gateway-IsSafe gp)
        λ g. IsSafe-pure _

  pub check_is_gateway_registered-IsSafe :
      (gp : env.Principal) → IsSafe (check_is_gateway_registered gp)
  unfolding check_is_gateway_registered
  check_is_gateway_registered-IsSafe gp =
      IsSafe-bind (get_registered_gateway gp) _ (get_registered_gateway-IsSafe gp)
        λ g. IsSafe-pure _

  pub get_client_key_from_principal-IsSafe :
      (p : env.Principal) → IsSafe (get_client_key_from_principal p)
  unfolding get_client_key_from_principal
  get_client_key_from_principal-IsSafe p = record { at = λ s h. Safe-or_fail _ _ s h }

  module _ (k : Key) where
    pub get_registered_client-IsSafe : IsSafe (get_registered_client k)
    unfolding get_registered_client
    get_registered_client-IsSafe = record { at = λ s h. Safe-or_fail _ _ s h }

    pub get_outgoing_message_to_client_num-IsSafe : IsSafe (get_outgoing_message_to_client_num k)
    unfolding get_outgoing_message_to_client_num
    get_outgoing_message_to_client_num-IsSafe = record { at = λ s h. Safe-or_fail _ _ s h }

    pub get_expected_incoming_message_from_client_num-IsSafe :
        IsSafe (get_expected_incoming_message_from_client_num k)
    unfolding get_expected_incoming_message_from_client_num
    get_expected_incoming_message_from_client_num-IsSafe = record {
      at = λ s h. Safe-or_fail _ _ s h;
    }

    pub check_registered_client_exists-IsSafe : IsSafe (check_registered_client_exists k)
    unfolding check_registered_client_exists
    check_registered_client_exists-IsSafe =
        IsSafe-bind (get_registered_client k) _ get_registered_client-IsSafe λ c. IsSafe-pure _

    pub check_client_registered_to_gateway-IsSafe :
        (gp : env.Principal) → IsSafe (check_client_registered_to_gateway k gp)
    unfolding check_client_registered_to_gateway
    check_client_registered_to_gateway-IsSafe gp =
        IsSafe-bind (get_registered_client k) _ get_registered_client-IsSafe
          λ c. IsSafe-ite _ _ _ (IsSafe-pure _) (IsSafe-fail _)
