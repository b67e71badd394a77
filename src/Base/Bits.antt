-- ===== src/Base/Bits.antt =====
-- The bits of a word.
use Prim.Native.Nat.{ℕ, zero, suc, ◌+◌, ◌*◌, ◌/◌, ◌%◌}
use mathlib.Core.Path.{◌≡◌, refl}
use mathlib.Core.Bool.{Bool, true, false}
use native.Mathlib.Omega.{arith}
use enhanced_xv.Base.Tests.{◌==◌, if◌then◌else◌}

-- `(x & (1 << k)) != 0`
unfoldable pub bit : ℕ → ℕ → Bool
bit zero x = x % 2 == 1
bit (suc k) x = bit k (x / 2)

-- `x | (1 << k)` for `b = true`, and `x & ~(1 << k)` for `b = false`.
unfoldable pub set_bit : Bool → ℕ → ℕ → ℕ
set_bit b zero x = x / 2 * 2 + (if b then 1 else 0)
set_bit b (suc k) x = set_bit b k (x / 2) * 2 + x % 2

-- It sets that bit and no other.
pub bit-set_bit : (b : Bool) (k j x : ℕ) → bit j (set_bit b k x) ≡ (if k == j then b else bit j x)
unfolding bit set_bit
bit-set_bit true zero zero x = ground arith
bit-set_bit false zero zero x = ground arith
bit-set_bit true zero (suc j) x =
    let half : (x / 2 * 2 + 1) / 2 ≡ x / 2 = omega arith in
    let apart : (zero == suc j) ≡ false = ground arith in rw (apart, half) refl
bit-set_bit false zero (suc j) x =
    let half : (x / 2 * 2 + 0) / 2 ≡ x / 2 = omega arith in
    let apart : (zero == suc j) ≡ false = ground arith in rw (apart, half) refl
bit-set_bit b (suc k) zero x =
    let apart : (suc k == zero) ≡ false = ground arith in
    let even : (set_bit b k (x / 2) * 2 + x % 2) % 2 ≡ x % 2 = omega arith in rw (apart, even) refl
bit-set_bit b (suc k) (suc j) x =
    let same : (suc k == suc j) ≡ (k == j) = ground arith in
    let half : (set_bit b k (x / 2) * 2 + x % 2) / 2 ≡ set_bit b k (x / 2) = omega arith in
    rw (same, half) (bit-set_bit b k j (x / 2))
