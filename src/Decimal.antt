-- ===== src/Decimal.antt =====
-- `u64::to_string` and the padding `{:0>20}` of the standard library, used by the message keys and
-- by the error texts.
pub mod Width
use ic_websocket_cdk_rs.Prelude.{
  ℕ, zero, suc, ◌+◌, ◌-◌, ◌/◌, ◌%◌, List, [], ◌∷◌, ◌++◌, Text, ltb, if◌then◌else◌, length,
  replicate,
}

-- The decimal digits; the fuel bounds their number, and 20 are enough for a `u64`.
unfoldable pub decimal : ℕ → ℕ → Text
decimal zero n = []
decimal (suc f) n =
    let rest = decimal f (n / 10) ++ (48 + n % 10) ∷ [] in if ltb n 10 then (48 + n) ∷ [] else rest

unfoldable pub u64_to_string : ℕ → Text
unfolding decimal
u64_to_string n = decimal 20 n

-- `format!("{:0>w$}", s)`
unfoldable pub pad_zeros : ℕ → Text → Text
pad_zeros w s = replicate (w - length s) 48 ++ s
