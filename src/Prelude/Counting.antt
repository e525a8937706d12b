-- ===== src/Prelude/Counting.antt =====
-- How many entries of a map have a property of values.
use mathlib.Core.Path.{◌≡◌, refl, subst, sym, ◌∙◌, ap}
use mathlib.Core.Logic.{ite, if_pos, if_neg}
use mathlib.Core.Bool.{Bool, true, false}
use mathlib.Core.List.{[], ◌∷◌}
use mathlib.Core.Option.{Option, none, some}
use mathlib.Core.Option
use native.Mathlib.Omega.{arith}
use Prim.Native.Nat.{ℕ, suc, ◌+◌, ◌≤◌}
use ic_websocket_cdk_rs.Prelude.Tests.{if◌then◌else◌}
use ic_websocket_cdk_rs.Prelude.Maps.{
  Map, get, insert, remove, update, get-insert, get-remove, get-update,
}

unfoldable pub count {ℓ} : {K V : Type ℓ} → (V → Bool) → Map K V → ℕ
count p [] = 0
count p ((k, v) ∷ m) = let rest = count p m in if p v then suc rest else rest

abbrev pub one_if : Bool → ℕ
one_if true = 1
one_if false = 0

-- A test in a type.
pub ite-intro {ℓ κ} :
    {P A : Type ℓ} (Q : A → Type κ) (t : Dec P) (a b : A)
    → (P → Q a)
    → ((P → ⊥) → Q b)
    → Q (ite t a b)
ite-intro Q (yes p) a b f g = f p
ite-intro Q (no n) a b f g = g n

one_more :
    (b : Bool) (x y n : ℕ) → x ≡ y + n → (if b then suc x else x) ≡ (if b then suc y else y) + n
one_more true x y n h = omega arith
one_more false x y n h = omega arith

one_less :
    (b : Bool) (x y n : ℕ) → x + n ≡ y → (if b then suc x else x) + n ≡ (if b then suc y else y)
one_less true x y n h = omega arith
one_less false x y n h = omega arith

module _ {ℓ} {K V : Type ℓ} (d : Discrete K) where
  -- No key stands twice.
  abbrev pub IsDistinct : Map K V → Type ℓ
  IsDistinct [] = Unit
  IsDistinct ((k, v) ∷ m) = (get d k m ≡ none) × IsDistinct m

  remove-none : (k : K) (m : Map K V) → get d k m ≡ none → remove d k m ≡ m
  unfolding get remove
  remove-none k [] h = refl
  remove-none k ((j, w) ∷ m) h = ground (arith, remove-none k m)

  pub remove-IsDistinct : (k : K) (m : Map K V) → IsDistinct m → IsDistinct (remove d k m)
  unfolding remove
  remove-IsDistinct k [] h = tt
  remove-IsDistinct k ((j, w) ∷ m) h =
      ite-intro IsDistinct (d j k) (remove d k m) ((j, w) ∷ remove d k m)
        (λ e. remove-IsDistinct k m h.1)
        (λ n. (rw get-remove (ground (arith, h.0)), remove-IsDistinct k m h.1))

  pub insert-IsDistinct : (k : K) (v : V) (m : Map K V) → IsDistinct m → IsDistinct (insert d k v m)
  unfolding insert get
  insert-IsDistinct k v [] h = (refl, tt)
  insert-IsDistinct k v ((j, w) ∷ m) h =
      ite-intro IsDistinct (d j k) ((k, v) ∷ m) ((j, w) ∷ insert d k v m)
        (λ e. (subst (λ i. get d i m ≡ none) e h.0, h.1))
        (λ n. (
          get-insert d k j v m ∙ if_neg (d k j) (λ e. n (sym e)) (some v) (get d j m) ∙ h.0,
          insert-IsDistinct k v m h.1,
        ))

  pub update-IsDistinct :
      (k : K) (f : V → V) (m : Map K V) → IsDistinct m → IsDistinct (update d k f m)
  unfolding update
  update-IsDistinct k f [] h = tt
  update-IsDistinct k f ((j, w) ∷ m) h =
      ite-intro IsDistinct (d j k) ((j, f w) ∷ m) ((j, w) ∷ update d k f m) (λ e. h)
        (λ n. (rw get-update (ground (arith, h.0)), update-IsDistinct k f m h.1))

  module _ (p : V → Bool) where
    pub count-insert :
        (k : K) (v : V) (m : Map K V)
        → get d k m ≡ none
        → count p (insert d k v m) ≡ count p m + one_if (p v)
    unfolding get insert count
    count-insert k v [] h = ground arith
    count-insert k v ((j, w) ∷ m) h =
        ite-intro (λ l. count p l ≡ count p ((j, w) ∷ m) + one_if (p v)) (d j k) ((k, v) ∷ m)
          ((j, w) ∷ insert d k v m)
          (λ e. absurd (ground (arith, sym (if_pos (d j k) e (some w) (get d k m)) ∙ h)))
          (λ n.
            let ih = count-insert k v m (sym (if_neg (d j k) n (some w) (get d k m)) ∙ h) in
            one_more (p w) _ _ (one_if (p v)) ih)

    pub count-remove :
        (k : K) (m : Map K V) {v : V}
        → IsDistinct m
        → get d k m ≡ some v
        → count p (remove d k m) + one_if (p v) ≡ count p m
    unfolding get remove count
    count-remove k [] {v} u h = absurd (ground arith)
    count-remove k ((j, w) ∷ m) {v} u h =
        ite-intro (λ l. count p l + one_if (p v) ≡ count p ((j, w) ∷ m)) (d j k) (remove d k m)
          ((j, w) ∷ remove d k m)
          (λ e.
            let same : some w ≡ some v = sym (if_pos (d j k) e (some w) (get d k m)) ∙ h in
            let gone = remove-none k m (subst (λ i. get d i m ≡ none) e u.0) in
            rw gone (ground (arith, ap (λ o. Option.map p o) same)))
          (λ n.
            let ih =
              count-remove k m {v = v} u.1 (sym (if_neg (d j k) n (some w) (get d k m)) ∙ h) in
            one_less (p w) _ _ (one_if (p v)) ih)

    pub count-update :
        (k : K) (f : V → V) (m : Map K V)
        → ((v : V) → p (f v) ≡ p v)
        → count p (update d k f m) ≡ count p m
    unfolding update count
    count-update k f [] h = refl
    count-update k f ((j, w) ∷ m) h =
        ite-intro (λ l. count p l ≡ count p ((j, w) ∷ m)) (d j k) ((j, f w) ∷ m)
          ((j, w) ∷ update d k f m) (λ e. rw (h w) refl)
          (λ n. ap (λ c. if p w then suc c else c) (count-update k f m h))

    pub count-get : (k : K) (m : Map K V) {v : V} → get d k m ≡ some v → p v ≡ true → 1 ≤ count p m
    unfolding get count
    count-get k [] {v} h t = absurd (ground arith)
    count-get k ((j, w) ∷ m) {v} h t = ground (arith, count-get k m {v = v})
