-- ===== src/Base/Totals.antt =====
-- Sums over the entries of an array.
use Prim.Native.Nat.{ℕ, zero, suc, ◌+◌, ◌*◌, ◌<◌, ◌≤◌}
use mathlib.Core.Path.{◌≡◌, refl}
use mathlib.Core.Logic.{◌≢◌}
use native.Mathlib.Omega.{arith}
use enhanced_xv.Base.Tests.{◌==◌, Bool-cases}
use mathlib.Core.Logic.{inl, inr}
use mathlib.Core.Path.{ap}

unfoldable pub total : (ℕ → ℕ) → ℕ → ℕ
total f zero = zero
total f (suc n) = total f n + f n

pub total_same : (f g : ℕ → ℕ) (n : ℕ) → ((i : ℕ) → i < n → f i ≡ g i) → total f n ≡ total g n
unfolding total
total_same f g zero h = refl
total_same f g (suc n) h =
    let e = h n (omega arith) in
    let rest = total_same f g n (λ i lt. h i (omega arith)) in omega arith

-- A change of one entry changes the sum by as much.
pub total_change :
    (f g : ℕ → ℕ) (n i : ℕ)
    → i < n
    → ((j : ℕ) → j ≢ i → f j ≡ g j)
    → total g n + f i ≡ total f n + g i
unfolding total
total_change f g zero i lt h = elim lt [ ]
total_change f g (suc n) i lt h = elim (Bool-cases (i == n)) [
  | inl e ↦
      let same : i ≡ n = ground arith in
      let (ef, eg) : (f i ≡ f n) × (g i ≡ g n) = (ap f same, ap g same) in
      let rest = total_same f g n (λ j below. h j (ground arith)) in omega arith
  | inr e ↦
      let rest = total_change f g n i (ground arith) h in
      let at_n = h n (ground arith) in omega arith
]

pub total_bound : (f : ℕ → ℕ) (n b : ℕ) → ((i : ℕ) → i < n → f i ≤ b) → total f n ≤ n * b
unfolding total
total_bound f zero b h = omega arith
total_bound f (suc n) b h =
    let e = h n (omega arith) in
    let rest = total_bound f n b (λ i lt. h i (omega arith)) in omega arith

-- An entry is at most the sum.
pub total_entry : (f : ℕ → ℕ) (n i : ℕ) → i < n → f i ≤ total f n
unfolding total
total_entry f zero i lt = elim lt [ ]
total_entry f (suc n) i lt = elim (Bool-cases (i == n)) [
  | inl e ↦ let same : f i ≡ f n = ap f (ground arith) in omega arith
  | inr e ↦ let rest = total_entry f n i (ground arith) in omega arith
]
