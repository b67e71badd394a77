-- ===== src/Base/Ints.antt =====
-- C's 32-bit integers as bit patterns below 2 ^ 32. An `int` is read in two's complement: its order
-- is the unsigned order after the sign bit is flipped.
use Prim.Native.Nat.{ℕ, ◌+◌, ◌-◌, ◌*◌, ◌/◌, ◌%◌, ◌^◌, ◌<◌}
use mathlib.Core.Bool.{Bool}
use mathlib.Core.Path.{◌≡◌}
use native.Mathlib.Omega.{arith}
use enhanced_xv.Base.Tests.{ltb, leb, ◌==◌, if◌then◌else◌}

abbrev pub int_mod : ℕ
int_mod = 2 ^ 32

abbrev pub int_half : ℕ
int_half = 2 ^ 31

-- The bit pattern of -1.
abbrev pub minus_one : ℕ
minus_one = int_mod - 1

abbrev pub add32 : ℕ → ℕ → ℕ
add32 a b = (a + b) % int_mod

abbrev pub sub32 : ℕ → ℕ → ℕ
sub32 a b = (a + int_mod - b) % int_mod

-- `a < b` on `int`s.
abbrev pub int_lt : ℕ → ℕ → Bool
int_lt a b = ltb ((a + int_half) % int_mod) ((b + int_half) % int_mod)

abbrev pub int_le : ℕ → ℕ → Bool
int_le a b = leb ((a + int_half) % int_mod) ((b + int_half) % int_mod)

-- `a * b` on `int`s.
abbrev pub mul32 : ℕ → ℕ → ℕ
mul32 a b = (a * b) % int_mod

-- `a / b` on `int`s for a divisor that is not negative: it rounds towards zero.
abbrev pub int_div : ℕ → ℕ → ℕ
int_div a b = if ltb a int_half then a / b else (int_mod - (int_mod - a) / b) % int_mod

-- `a == b` on `int`s.
abbrev pub int_eq : ℕ → ℕ → Bool
int_eq a b = (a + int_half) % int_mod == (b + int_half) % int_mod

-- On `int`s that are not negative the comparisons are those of the numbers.
pub int_lt_lem : (a b : ℕ) → a < int_half → b < int_half → int_lt a b ≡ ltb a b
int_lt_lem a b h k = ground arith

pub int_le_lem : (a b : ℕ) → a < int_half → b < int_half → int_le a b ≡ leb a b
int_le_lem a b h k = ground arith
