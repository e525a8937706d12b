-- ===== src/State/Relates.antt =====
-- Statements about every state that a function of state.rs may leave: one rule for each way to
-- build an action. With `R s t = (P s → P t)` they say that an invariant is kept.
use ic_websocket_cdk_rs.Prelude.{
  ◌⊎◌, inl, inr, Bool, true, false, Option, none, some, Text, if◌then◌else◌, ite,
}
use ic_websocket_cdk_rs.Env.{Env}
use ic_websocket_cdk_rs.State.{
  State, Outcome, ok, err, trap, Exec, pure, fail, gets, modify, ◌>>=◌, continue, or_fail, unwrap,
  from_result, ignored, ignore_error, reported,
}

module _ ⦃env : Env⦄ where
  -- The state is written back after a return and after an error, not after a trap.
  abbrev pub Holds : {A : Type 0} → (State → Type 0) → Outcome A → Type 0
  Holds P (ok a s) = P s
  Holds P (err e s) = P s
  Holds P trap = Unit

  pub record IsPreorder (R : State → State → Type 0) : Type 0 where
    pub reflexive : (s : State) → R s s
    pub transitive : (s t u : State) → R s t → R t u → R s u

  pub record Relates {A : Type 0} (R : State → State → Type 0) (m : Exec A) : Type 0 where
    pub at : (s : State) → Holds (R s) (m s)

  abbrev pub Preserves : (State → Type 0) → State → State → Type 0
  Preserves P s t = P s → P t

  pub Preserves-IsPreorder : (P : State → Type 0) → IsPreorder (Preserves P)
  Preserves-IsPreorder P = record { reflexive = λ s h. h; transitive = λ s t u f g h. g (f h) }

  module _ {R : State → State → Type 0} (pre : IsPreorder R) where
    pub Holds-widen :
        {A : Type 0} (s t : State) (o : Outcome A) → R s t → Holds (R t) o → Holds (R s) o
    Holds-widen s t (ok a u) r h = pre.transitive s t u r h
    Holds-widen s t (err e u) r h = pre.transitive s t u r h
    Holds-widen s t trap r h = tt

    Holds-continue :
        {A B : Type 0} (s : State) (o : Outcome A) (f : A → Exec B)
        → Holds (R s) o
        → ((a : A) → Relates R (f a))
        → Holds (R s) (continue o f)
    Holds-continue s (ok a t) f h k = Holds-widen s t (f a t) h ((k a).at t)
    Holds-continue s (err e t) f h k = h
    Holds-continue s trap f h k = tt

    pub Relates-bind :
        {A B : Type 0} (m : Exec A) (f : A → Exec B)
        → Relates R m
        → ((a : A) → Relates R (f a))
        → Relates R (m >>= f)
    Relates-bind m f h k = record { at = λ s. Holds-continue s (m s) f (h.at s) k }

    pub Relates-pure : {A : Type 0} (a : A) → Relates R (pure a)
    Relates-pure a = record { at = λ s. pre.reflexive s }

    pub Relates-fail : {A : Type 0} (e : Text) → Relates {A = A} R (fail e)
    Relates-fail e = record { at = λ s. pre.reflexive s }

    pub Relates-gets : {A : Type 0} (f : State → A) → Relates R (gets f)
    Relates-gets f = record { at = λ s. pre.reflexive s }

    pub Relates-modify : (f : State → State) → ((s : State) → R s (f s)) → Relates R (modify f)
    Relates-modify f h = record { at = h }

    pub Relates-unwrap : {A : Type 0} (o : Option A) → Relates R (unwrap o)
    Relates-unwrap none = record { at = λ s. tt }
    Relates-unwrap (some a) = record { at = λ s. pre.reflexive s }

    pub Relates-from_result : {A : Type 0} (r : A ⊎ Text) → Relates R (from_result r)
    Relates-from_result (inl a) = record { at = λ s. pre.reflexive s }
    Relates-from_result (inr e) = record { at = λ s. pre.reflexive s }

    pub Holds-or_fail :
        {A : Type 0} (o : Option A) (e : Text) (s : State) → Holds (R s) (or_fail o e s)
    Holds-or_fail none e s = pre.reflexive s
    Holds-or_fail (some a) e s = pre.reflexive s

    Holds-ignored : (s : State) (o : Outcome (Unit {0})) → Holds (R s) o → Holds (R s) (ignored o)
    Holds-ignored s (ok a t) h = h
    Holds-ignored s (err e t) h = h
    Holds-ignored s trap h = tt

    pub Relates-ignore_error : (m : Exec (Unit {0})) → Relates R m → Relates R (ignore_error m)
    Relates-ignore_error m h = record { at = λ s. Holds-ignored s (m s) (h.at s) }

    pub Holds-reported :
        (s : State) (o : Outcome (Unit {0})) (next : Option Text → Exec (Unit {0}))
        → Holds (R s) o
        → ((r : Option Text) → Relates R (next r))
        → Holds (R s) (reported o next)
    Holds-reported s (ok a t) next h k = Holds-widen s t _ h ((k none).at t)
    Holds-reported s (err e t) next h k = Holds-widen s t _ h ((k (some e)).at t)
    Holds-reported s trap next h k = tt

    pub Relates-if :
        {A : Type 0} (b : Bool) (m n : Exec A)
        → Relates R m
        → Relates R n
        → Relates R (if b then m else n)
    Relates-if true m n h k = h
    Relates-if false m n h k = k

    pub Relates-ite :
        {A P : Type 0} (d : Dec P) (m n : Exec A)
        → Relates R m
        → Relates R n
        → Relates R (ite d m n)
    Relates-ite (yes p) m n h k = h
    Relates-ite (no p) m n h k = k

  pub Holds-map :
      {A : Type 0} {P Q : State → Type 0} (o : Outcome A)
      → ((t : State) → P t → Q t)
      → Holds P o
      → Holds Q o
  Holds-map (ok a t) f h = f t h
  Holds-map (err e t) f h = f t h
  Holds-map trap f h = tt

  pub Holds-pair :
      {A : Type 0} (P Q : State → Type 0) (o : Outcome A)
      → Holds P o
      → Holds Q o
      → Holds (λ t. P t × Q t) o
  Holds-pair P Q (ok a t) p q = (p, q)
  Holds-pair P Q (err e t) p q = (p, q)
  Holds-pair P Q trap p q = tt

  -- A weaker relation.
  pub Relates-map :
      {A : Type 0} {R Q : State → State → Type 0} (m : Exec A)
      → ((s t : State) → R s t → Q s t)
      → Relates R m
      → Relates Q m
  Relates-map m f h = record { at = λ s. Holds-map (m s) (f s) (h.at s) }

  -- The rest of an action, from the states that the first part may leave.
  pub Holds-bind :
      {A B : Type 0} {P Q : State → Type 0} (o : Outcome A) (f : A → Exec B)
      → Holds P o
      → ((t : State) → P t → Q t)
      → ((a : A) (t : State) → P t → Holds Q (f a t))
      → Holds Q (continue o f)
  Holds-bind (ok a t) f h e k = k a t h
  Holds-bind (err x t) f h e k = e t h
  Holds-bind trap f h e k = tt

  module _ (P : State → Type 0) where
    Holds-Preserves :
        {A : Type 0} (s : State) (o : Outcome A) → (P s → Holds P o) → Holds (Preserves P s) o
    Holds-Preserves s (ok a t) f = f
    Holds-Preserves s (err e t) f = f
    Holds-Preserves s trap f = tt

    -- An invariant is kept: in the form of a function, and back.
    pub Preserves-intro :
        {A : Type 0} (m : Exec A) → ((s : State) → P s → Holds P (m s)) → Relates (Preserves P) m
    Preserves-intro m f = record { at = λ s. Holds-Preserves s (m s) (f s) }

    pub Preserves-at :
        {A : Type 0} (m : Exec A) → Relates (Preserves P) m → (s : State) → P s → Holds P (m s)
    Preserves-at m k s h = Holds-map (m s) (λ t f. f h) (k.at s)

  module _ (Q : State → Type 0) (s : State) where
    -- A test that fails with an error, before the rest.
    pub Holds-guard :
        {P B : Type 0} (d : Dec P) (e : Text) (rest : Unit {0} → Exec B)
        → (P → Holds Q (rest tt s))
        → Q s
        → Holds Q (continue (ite d (pure tt) (fail e) s) rest)
    Holds-guard (yes p) e rest f h = f p
    Holds-guard (no n) e rest f h = h

    -- A test that does something else first.
    pub Holds-test :
        {B : Type 0} (b : Bool) (n : Exec (Unit {0})) (rest : Unit {0} → Exec B)
        → Holds Q (rest tt s)
        → Holds Q (continue (n s) rest)
        → Holds Q (continue ((if b then pure tt else n) s) rest)
    Holds-test true n rest h k = h
    Holds-test false n rest h k = k
