-- ===== src/Prelude/Texts.antt =====
-- A Rust `String` is the list of its bytes, and so are byte arrays.
use Prim.Native.Nat.{ℕ}
use Prim.Native.Char.{code}
use Prim.Native.String.{String}
use mathlib.Core.Path.{◌≡◌, refl}
use mathlib.Core.Bool.{Bool, true, false}
use mathlib.Core.List.{List, [], ◌∷◌, ◌++◌}
use native.Mathlib.Omega.{arith}
use ic_websocket_cdk_rs.Prelude.Tests.{ltb, if◌then◌else◌}
use ic_websocket_cdk_rs.Prelude.Lists.{length}

abbrev pub Bytes : Type 0
Bytes = List ℕ

abbrev pub Text : Type 0
Text = List ℕ

-- The bytes of an ASCII literal.
abbrev pub codes : String → Text
codes String.[] = []
codes (String.◌∷◌ c s) = code c ∷ codes s

-- `<` on `String`: lexicographic, byte by byte.
unfoldable pub text_ltb : Text → Text → Bool
text_ltb [] [] = false
text_ltb [] (y ∷ ys) = true
text_ltb (x ∷ xs) [] = false
text_ltb (x ∷ xs) (y ∷ ys) = if ltb x y then true else if ltb y x then false else text_ltb xs ys

pub text_ltb-append_left : (p xs ys : Text) → text_ltb (p ++ xs) (p ++ ys) ≡ text_ltb xs ys
unfolding text_ltb
text_ltb-append_left [] xs ys = refl
text_ltb-append_left (c ∷ p) xs ys = ground (arith, text_ltb-append_left p xs ys)

-- Two texts of one length and one more byte each.
pub text_ltb-snoc :
    (xs ys : Text) (a b : ℕ)
    → length xs ≡ length ys
    → text_ltb (xs ++ a ∷ []) (ys ++ b ∷ [])
      ≡ (if text_ltb xs ys then true else if text_ltb ys xs then false else ltb a b)
unfolding text_ltb
text_ltb-snoc [] [] a b h = ground arith
text_ltb-snoc [] (y ∷ ys) a b h = absurd (omega arith)
text_ltb-snoc (x ∷ xs) [] a b h = absurd (omega arith)
text_ltb-snoc (x ∷ xs) (y ∷ ys) a b h = ground (arith, text_ltb-snoc xs ys a b (omega arith))
