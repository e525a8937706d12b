-- ===== src/Prelude/Lengths.antt =====
-- The lengths of lists in another order, and a cost for each element.
use mathlib.Core.Path.{◌≡◌, refl, ap, sym, ◌∙◌}
use mathlib.Core.Nat
use mathlib.Core.List.{List, [], ◌∷◌, map, Perm}
use mathlib.Core.List
use mathlib.Core.List.Perm
use Prim.Native.Nat.{ℕ, zero, suc, ◌+◌, ◌-◌, ◌≤◌}
use native.Mathlib.Omega.{arith}
use ic_websocket_cdk_rs.Prelude.Lists.{length}
use ic_websocket_cdk_rs.Prelude.Maps.{Map, keys}

-- `n` times the cost `c`.
abbrev pub times : ℕ → ℕ → ℕ
times zero c = 0
times (suc n) c = c + times n c

pub times-le : (n m c : ℕ) → n ≤ m → times n c ≤ times m c
times-le zero m c h = omega arith
times-le (suc n) zero c h = absurd (omega arith)
times-le (suc n) (suc m) c h = omega (arith, times-le n m c (omega arith))

pub times-pred : (n c : ℕ) → 1 ≤ n → c + times (n - 1) c ≡ times n c
times-pred zero c h = absurd (omega arith)
times-pred (suc n) c h = ap (λ k. c + times k c) (omega arith)

-- The number of the library's lists, in native numbers.
abbrev as_native : Nat.ℕ → ℕ
as_native Nat.zero = 0
as_native (Nat.suc n) = suc (as_native n)

module _ {ℓ} {A : Type ℓ} where
  as_native-length : (xs : List A) → as_native (List.length xs) ≡ length xs
  as_native-length [] = refl
  as_native-length (x ∷ xs) = ap suc (as_native-length xs)

  pub length-Perm : (xs ys : List A) → Perm xs ys → length xs ≡ length ys
  length-Perm xs ys p =
      sym (as_native-length xs) ∙ ap as_native (Perm.length-eq p) ∙ as_native-length ys

pub length-keys {ℓ} : {K V : Type ℓ} (m : Map K V) → length (keys m) ≡ length m
length-keys [] = refl
length-keys ((k, v) ∷ m) = ap suc (length-keys m)
