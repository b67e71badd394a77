-- ===== src/Sched/Pbs/Range.antt =====
-- The formula for the dynamic priority, and its range.
use enhanced_xv.Base.{
  ℕ, ◌+◌, ◌-◌, ◌*◌, ◌/◌, ◌^◌, ◌<◌, ◌≤◌, ◌≡◌, false, arith, min, int_half, int_mod, sub32, mul32,
  add32, int_div, ltb, ap, ◌∙◌,
}
use enhanced_xv.Proc.{Proc}
use enhanced_xv.Sched.Pbs.{at_least_zero, at_most_100, dynamic_priority_of}
use native.Mathlib.Decide.{dec_le}
use native.Mathlib.Nat.{div-le_self, zero-div}

-- The counters that the formula reads are far from overflow.
abbrev time_limit : ℕ
time_limit = 2 ^ 22

quotient_pos : (n d : ℕ) → n < int_half → at_least_zero (int_div n d) ≡ n / d
quotient_pos n d h = ground (arith, div-le_self n d)

quotient_neg : (m d : ℕ) → 0 < m → m < int_half → at_least_zero (int_div (int_mod - m) d) ≡ 0
quotient_neg m d h k =
    let e : int_mod - (int_mod - m) ≡ m = omega arith in
    let big : ltb (int_mod - m) int_half ≡ false = ground arith in
    rw (big, e) (ground (arith, div-le_self m d))

module _ (rt wt st : ℕ) (hr : rt < time_limit) (hw : wt < time_limit) (hs : st < time_limit) where
  numerator : ℕ
  numerator = mul32 (sub32 (sub32 (mul32 3 rt) wt) st) 50

  numerator_pos : wt + st ≤ 3 * rt → numerator ≡ (3 * rt - (wt + st)) * 50
  unfolding numerator
  numerator_pos h = omega arith

  numerator_neg : 3 * rt < wt + st → numerator ≡ int_mod - (wt + st - 3 * rt) * 50
  unfolding numerator
  numerator_neg h = omega arith

  divisor : add32 (add32 (add32 rt wt) st) 1 ≡ rt + wt + st + 1
  divisor = omega arith

  -- The quotient, with a negative result clamped to 0, is the quotient of the clamped difference.
  clamped :
      at_least_zero (int_div numerator (add32 (add32 (add32 rt wt) st) 1))
      ≡ (3 * rt - (wt + st)) * 50 / (rt + wt + st + 1)
  clamped = elim (dec_le (wt + st) (3 * rt)) [
    | yes h ↦
        rw (numerator_pos h, divisor)
          (quotient_pos ((3 * rt - (wt + st)) * 50) (rt + wt + st + 1) (omega arith))
    | no h ↦
        let z : 3 * rt - (wt + st) ≡ 0 = omega arith in
        rw (numerator_neg (omega arith), divisor, z, zero-div)
          (quotient_neg ((wt + st - 3 * rt) * 50) (rt + wt + st + 1) (omega arith) (omega arith))
  ]

cap_lem : (q sp : ℕ) → q < int_half - 100 → sp ≤ 100 → at_most_100 (add32 q sp) ≡ min (q + sp) 100
cap_lem q sp h k = ground arith

-- MIN(MAX(50 * (3*RT - WT - ST) / (RT + WT + ST + 1), 0) + SP, 100), for counters below 2 ^ 22 and a
-- static priority of at most 100.
pub dynamic_priority_of_lem :
    (p : Proc)
    → p.run_time < time_limit
    → p.wait_time < time_limit
    → p.sleep_time < time_limit
    → p.priority ≤ 100
    → dynamic_priority_of p
      ≡ min
          ((3 * p.run_time - (p.wait_time + p.sleep_time))
              * 50
              / (p.run_time + p.wait_time + p.sleep_time + 1)
            + p.priority)
          100
unfolding dynamic_priority_of numerator
dynamic_priority_of_lem p hr hw hs hp =
    ap (λ (k : ℕ). at_most_100 (add32 k p.priority))
      (clamped p.run_time p.wait_time p.sleep_time hr hw hs)
    ∙ cap_lem quotient p.priority (omega (arith, quotient-le)) hp
  where
    quotient : ℕ
    quotient =
        (3 * p.run_time - (p.wait_time + p.sleep_time))
        * 50
        / (p.run_time + p.wait_time + p.sleep_time + 1)

    quotient-le : quotient ≤ (3 * p.run_time - (p.wait_time + p.sleep_time)) * 50
    quotient-le = div-le_self _ _
