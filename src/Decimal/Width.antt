-- ===== src/Decimal/Width.antt =====
-- A padded number has a fixed width, and its texts are ordered as the numbers are.
use mathlib.Core.List.{append_assoc}
use ic_websocket_cdk_rs.Prelude.{
  ℕ, zero, suc, ◌+◌, ◌-◌, ◌/◌, ◌%◌, ◌*◌, ◌≤◌, ◌<◌, ◌≡◌, refl, ap, sym, ◌∙◌, inl, inr, [], ◌∷◌, ◌++◌,
  Text, arith, ltb, ltb→lt, lt→ltb, Bool-cases, length, replicate, length-append, text_ltb,
  text_ltb-snoc, u64_mod,
}
use ic_websocket_cdk_rs.Decimal.{decimal, u64_to_string, pad_zeros}

-- The last `k` decimal digits of a number.
pub fixed_digits : ℕ → ℕ → Text
fixed_digits zero n = []
fixed_digits (suc k) n = fixed_digits k (n / 10) ++ (48 + n % 10) ∷ []

-- The numbers below `ten k` have at most `k` digits.
abbrev pub ten : ℕ → ℕ
ten zero = 1
ten (suc k) = 10 * ten k

pub length-fixed_digits : (k n : ℕ) → length (fixed_digits k n) ≡ k
unfolding fixed_digits
length-fixed_digits zero n = refl
length-fixed_digits (suc k) n = omega (
  arith,
  length-append (fixed_digits k (n / 10)) ((48 + n % 10) ∷ []),
  length-fixed_digits k (n / 10),
)

-- A run of the digit 0.
abbrev zeros : ℕ → Text
zeros k = replicate k 48

replicate-snoc : (k : ℕ) → zeros k ++ 48 ∷ [] ≡ zeros (suc k)
replicate-snoc zero = refl
replicate-snoc (suc k) = ap (λ (l : Text). 48 ∷ l) (replicate-snoc k)

fixed_digits-zero : (k : ℕ) → fixed_digits k 0 ≡ zeros k
unfolding fixed_digits
fixed_digits-zero zero = refl
fixed_digits-zero (suc k) =
    let q : 0 / 10 ≡ 0 = omega arith in
    let r : 48 + 0 % 10 ≡ 48 = omega arith in rw (q, r, fixed_digits-zero k) (replicate-snoc k)

fixed_digits-small : (k n : ℕ) → n < 10 → fixed_digits (suc k) n ≡ zeros k ++ (48 + n) ∷ []
unfolding fixed_digits
fixed_digits-small k n h =
    let q : n / 10 ≡ 0 = omega arith in
    let r : n % 10 ≡ n = omega arith in rw (q, r, fixed_digits-zero k)

length-decimal : (f n k : ℕ) → n < ten k → 0 < k → length (decimal f n) ≤ k
unfolding decimal
length-decimal zero n k h p = omega arith
length-decimal (suc f) n zero h p = absurd (omega arith)
length-decimal (suc f) n (suc zero) h p = ground (arith)
length-decimal (suc f) n (suc (suc k)) h p = ground (
  arith,
  length-append (decimal f (n / 10)) ((48 + n % 10) ∷ []),
  length-decimal f (n / 10) (suc k),
)

pad-snoc : (k d : ℕ) (xs : Text) → pad_zeros (suc k) (xs ++ d ∷ []) ≡ pad_zeros k xs ++ d ∷ []
unfolding pad_zeros
pad-snoc k d xs =
    let e : suc k - length (xs ++ d ∷ []) ≡ k - length xs =
      omega (arith, length-append xs (d ∷ [])) in
    rw (e, append_assoc)

pad-single : (k d : ℕ) → pad_zeros (suc k) (d ∷ []) ≡ zeros k ++ d ∷ []
unfolding pad_zeros
pad-single k d = let e : suc k - 1 ≡ k = omega arith in rw e

pad-decimal :
    (k f n : ℕ) → n < ten (suc k) → k < f → pad_zeros (suc k) (decimal f n) ≡ fixed_digits (suc k) n
unfolding decimal
pad-decimal k zero n h p = absurd (omega arith)
pad-decimal zero (suc f) n h p =
    rw (lt→ltb n 10 (omega arith), pad-single, fixed_digits-small 0 n (omega arith))
pad-decimal (suc k) (suc f) n h p = elim (Bool-cases (ltb n 10)) [
  | inl small ↦ rw (small, pad-single, fixed_digits-small (suc k) n (ltb→lt n 10 small))
  | inr large ↦
      rw (large, pad-snoc, pad-decimal k f (n / 10) (omega arith) (omega arith))
        (unfold fixed_digits in refl)
]

-- A `u64` padded to 20 places is its last 20 digits: nothing of it is cut off.
pub pad-u64 : (n : ℕ) → n < u64_mod → pad_zeros 20 (u64_to_string n) ≡ fixed_digits 20 n
unfolding u64_to_string
pad-u64 n h = pad-decimal 19 20 n (omega arith) (omega arith)

pub text_ltb-fixed_digits :
    (k n m : ℕ) → n < ten k → m < ten k → text_ltb (fixed_digits k n) (fixed_digits k m) ≡ ltb n m
unfolding fixed_digits
text_ltb-fixed_digits zero n m h p = unfold text_ltb in ground arith
text_ltb-fixed_digits (suc k) n m h p =
    rw
      (text_ltb-snoc (fixed_digits k (n / 10)) (fixed_digits k (m / 10)) (48 + n % 10) (48 + m % 10)
        (length-fixed_digits k _ ∙ sym (length-fixed_digits k _)))
      (rw
        (
          text_ltb-fixed_digits k (n / 10) (m / 10) (omega arith) (omega arith),
          text_ltb-fixed_digits k (m / 10) (n / 10) (omega arith) (omega arith),
        )
        (ground arith))

-- Below `ten k` the digits determine the number.
pub fixed_digits-injective :
    (k n m : ℕ) → n < ten k → m < ten k → fixed_digits k n ≡ fixed_digits k m → n ≡ m
fixed_digits-injective k n m h p e =
    let nm : ltb n m ≡ ltb n n =
      sym (text_ltb-fixed_digits k n m h p)
      ∙ ap (text_ltb (fixed_digits k n)) (sym e)
      ∙ text_ltb-fixed_digits k n n h h in
    let mn : ltb m n ≡ ltb n n =
      sym (text_ltb-fixed_digits k m n p h)
      ∙ ap (λ (t : Text). text_ltb t (fixed_digits k n)) (sym e)
      ∙ text_ltb-fixed_digits k n n h h in
    ground arith
