-- ===== src/Prelude/Words.antt =====
-- `u64` arithmetic. The canister is built in release mode, where `+` and `-` wrap around.
use Prim.Native.Nat.{ℕ, ◌+◌, ◌-◌, ◌*◌, ◌%◌, ◌^◌, ◌≤◌, ◌<◌}
use mathlib.Core.Path.{◌≡◌}
use native.Mathlib.Omega.{arith}

abbrev pub u64_mod : ℕ
u64_mod = 2 ^ 64

abbrev pub add64 : ℕ → ℕ → ℕ
add64 a b = (a + b) % u64_mod

abbrev pub sub64 : ℕ → ℕ → ℕ
sub64 a b = (a + u64_mod - b) % u64_mod

-- A `Duration` is a number of nanoseconds.
abbrev pub from_nanos : ℕ → ℕ
from_nanos n = n

abbrev pub from_millis : ℕ → ℕ
from_millis n = n * 1000000

pub sub64-eq-sub : (a b : ℕ) → b ≤ a → a < u64_mod → sub64 a b ≡ a - b
sub64-eq-sub a b h k = omega arith

pub add64-eq-add : (a b : ℕ) → a + b < u64_mod → add64 a b ≡ a + b
add64-eq-add a b h = omega arith
