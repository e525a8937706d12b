-- ===== src/State/Queues/Costs.antt =====
-- How many nonces of a gateway an action uses up at most: one rule for each way to build an action.
use ic_websocket_cdk_rs.Prelude.{
  ℕ, ◌≡◌, ◌∙◌, sym, ap, subst, All, get, ◌+◌, ◌≤◌, ◌<◌, Bool, true, false, Option, none, some, Text,
  arith, u64_mod, if◌then◌else◌, ite,
}
use ic_websocket_cdk_rs.Constants.{label_websocket}
use ic_websocket_cdk_rs.Types.Gateway.{RegisteredGateway}
use ic_websocket_cdk_rs.Env.{Env}
use ic_websocket_cdk_rs.State.{
  State, Outcome, ok, err, trap, Exec, pure, fail, gets, modify, ◌>>=◌, ignored, ignore_error,
  reported,
}
use ic_websocket_cdk_rs.State.Relates.{Holds, Relates, Holds-bind, Preserves, Preserves-at}
use ic_websocket_cdk_rs.State.Queues.Certified.{IsCovered}
use ic_websocket_cdk_rs.State.Queues.Raised.{IsSound}

module _ ⦃env : Env⦄ where
  -- The queues are in order and certified, and `n` nonces are left, also for a new gateway.
  abbrev pub HasSpare : ℕ → State → Type 0
  HasSpare n s = (n < u64_mod) × IsSound n s

  pub HasSpare-le : (n m : ℕ) (s : State) → n ≤ m → HasSpare m s → HasSpare n s
  HasSpare-le n m s le (small, sound) =
      (omega arith, (sound.0, λ p g e. omega (arith, sound.1 p g e)))

  pub same-HasSpare :
      (n : ℕ) (s t : State)
      → t.registered_gateways ≡ s.registered_gateways
      → t.cert_tree ≡ s.cert_tree
      → t.certified_data ≡ s.certified_data
      → HasSpare n s
      → HasSpare n t
  same-HasSpare n s t gateways tree certified (small, sound) =
      let before : (p : env.Principal) (g : RegisteredGateway env.Principal)
          → get env.principal_discrete p t.registered_gateways ≡ some g
          → get env.principal_discrete p s.registered_gateways ≡ some g =
        λ p g h. sym (ap (get env.principal_discrete p) gateways) ∙ h in
      (
        small,
        (
          record {
            ordered = λ p g h. sound.0.ordered p g (before p g h);
            covered = λ p g h.
                subst (λ r. All (IsCovered r) g.messages_queue) (sym tree)
                  (sound.0.covered p g (before p g h));
            current = λ (p, g, h, queued).
                certified
                ∙ sound.0.current (p, g, before p g h, queued)
                ∙ ap (λ r. env.labeled_hash label_websocket (env.root_hash r)) (sym tree);
          },
          λ p g h. sound.1 p g (before p g h),
        ),
      )

  -- Where `c` nonces are left and more, the action leaves as many more.
  pub record Costs {A : Type 0} (c : ℕ) (m : Exec A) : Type 0 where
    pub at : (n : ℕ) (s : State) → HasSpare (c + n) s → Holds (HasSpare n) (m s)

  pub Costs-le : {A : Type 0} (c d : ℕ) (m : Exec A) → c ≤ d → Costs c m → Costs d m
  Costs-le c d m le h = record {
    at = λ n s spare. h.at n s (HasSpare-le (c + n) (d + n) s (omega arith) spare);
  }

  pub Costs-bind :
      {A B : Type 0} (c d : ℕ) (m : Exec A) (f : A → Exec B)
      → Costs c m
      → ((a : A) → Costs d (f a))
      → Costs (c + d) (m >>= f)
  Costs-bind c d m f h k = record {
    at = λ n s spare.
        Holds-bind (m s) f
          (h.at (d + n) s (HasSpare-le (c + (d + n)) (c + d + n) s (omega arith) spare))
          (λ t l. HasSpare-le n (d + n) t (omega arith) l) (λ a t l. (k a).at n t l);
  }

  pub Costs-then :
      {A B : Type 0} (d : ℕ) (m : Exec A) (f : A → Exec B)
      → Costs 0 m
      → ((a : A) → Costs d (f a))
      → Costs d (m >>= f)
  Costs-then d m f h k = Costs-le (0 + d) d (m >>= f) (omega arith) (Costs-bind 0 d m f h k)

  -- What changes neither the queues nor the tree.
  pub Costs-Preserves :
      {A : Type 0} (m : Exec A) → ((n : ℕ) → Relates (Preserves (HasSpare n)) m) → Costs 0 m
  Costs-Preserves m h = record {
    at = λ n s spare.
        Preserves-at (HasSpare n) m (h n) s (HasSpare-le n (0 + n) s (omega arith) spare);
  }

  pub Costs-modify :
      (f : State → State)
      → ((n : ℕ) (s : State) → HasSpare n s → HasSpare n (f s))
      → Costs 0 (modify f)
  Costs-modify f h = record {
    at = λ n s spare. h n s (HasSpare-le n (0 + n) s (omega arith) spare);
  }

  pub Costs-gets : {A : Type 0} (f : State → A) → Costs 0 (gets f)
  Costs-gets f = record { at = λ n s spare. HasSpare-le n (0 + n) s (omega arith) spare }

  pub Costs-fail : {A : Type 0} (c : ℕ) (e : Text) → Costs {A = A} c (fail e)
  Costs-fail c e = record { at = λ n s spare. HasSpare-le n (c + n) s (omega arith) spare }

  pub Costs-pure : {A : Type 0} (a : A) → Costs 0 (pure a)
  Costs-pure a = record { at = λ n s spare. HasSpare-le n (0 + n) s (omega arith) spare }

  ignored_lem :
      (n : ℕ) (o : Outcome (Unit {0})) → Holds (HasSpare n) o → Holds (HasSpare n) (ignored o)
  ignored_lem n (ok a t) h = h
  ignored_lem n (err e t) h = h
  ignored_lem n trap h = tt

  pub Costs-ignore_error : (c : ℕ) (m : Exec (Unit {0})) → Costs c m → Costs c (ignore_error m)
  Costs-ignore_error c m h = record { at = λ n s spare. ignored_lem n (m s) (h.at n s spare) }

  reported_lem :
      (n d : ℕ) (o : Outcome (Unit {0})) (next : Option Text → Exec (Unit {0}))
      → Holds (HasSpare (d + n)) o
      → ((r : Option Text) → Costs d (next r))
      → Holds (HasSpare n) (reported o next)
  reported_lem n d (ok a t) next h k = (k none).at n t h
  reported_lem n d (err e t) next h k = (k (some e)).at n t h
  reported_lem n d trap next h k = tt

  pub Costs-reported :
      (c d : ℕ) (m : Exec (Unit {0})) (next : Option Text → Exec (Unit {0}))
      → Costs c m
      → ((r : Option Text) → Costs d (next r))
      → Costs (c + d) (λ s. reported (m s) next)
  Costs-reported c d m next h k = record {
    at = λ n s spare.
        reported_lem n d (m s) next
          (h.at (d + n) s (HasSpare-le (c + (d + n)) (c + d + n) s (omega arith) spare)) k;
  }

  pub Costs-ite :
      {A P : Type 0} (c : ℕ) (d : Dec P) (m n : Exec A)
      → Costs c m
      → Costs c n
      → Costs c (ite d m n)
  Costs-ite c (yes p) m n h k = h
  Costs-ite c (no p) m n h k = k

  pub Costs-if :
      {A : Type 0} (c : ℕ) (b : Bool) (m n : Exec A)
      → Costs c m
      → Costs c n
      → Costs c (if b then m else n)
  Costs-if c true m n h k = h
  Costs-if c false m n h k = k
