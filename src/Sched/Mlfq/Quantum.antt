-- ===== src/Sched/Mlfq/Quantum.antt =====
-- `mlfq_yield`, the work of a timer interrupt on the running process.
use enhanced_xv.Base.{
  ℕ, zero, suc, ◌+◌, ◌<◌, ◌≤◌, ◌≡◌, inl, inr, refl, ap, ◌∙◌, Bool, true, false, ◌&&◌, arith,
  Bool-cases, ltb, ◌==◌, int_lt, add32, each, if◌then◌else◌, dec_lt,
}
use enhanced_xv.Proc.{Proc, ProcTable, is_runnable, nproc}
use enhanced_xv.Sched.Mlfq.{scan, scan_entry, age}
use enhanced_xv.Sched.Mlfq.Aging.{aged, scan-table}

-- After aging, `p` can run and is on a lower level.
abbrev pub outranks : ℕ → ℕ → Proc → Bool
outranks now level p = is_runnable p.state && int_lt (age now p).queue_level level

-- How many of the first `n` processes outrank the level.
pub rivals : ℕ → ℕ → ℕ → ProcTable → ℕ
rivals now level zero t = 0
rivals now level (suc n) t = rivals now level n t + (if outranks now level (t n) then 1 else 0)

pub rivals-le : (now level n : ℕ) (t : ProcTable) → rivals now level n t ≤ n
unfolding rivals
rivals-le now level zero t = ground arith
rivals-le now level (suc n) t = elim (Bool-cases (outranks now level (t n))) [
  | inl e ↦ rw e (omega (arith, rivals-le now level n t))
  | inr e ↦ rw e (omega (arith, rivals-le now level n t))
]

scan_entry-count :
    (now me i : ℕ) (t : ProcTable) (ti : ℕ)
    → is_runnable (t me).state ≡ false
    → (scan_entry now me i (t, ti)).1
      ≡ (if outranks now (t me).queue_level (t i) then add32 ti 1 else ti)
scan_entry-count now me i t ti idle = elim (Bool-cases (is_runnable (t i).state)) [
  | inl e ↦ elim (Bool-cases (i == me)) [
    | inl same ↦
        let e' : i ≡ me = ground arith in absurd (cc (ap (λ k. is_runnable (t k).state) e'))
    | inr other ↦ rw (e, other, refl_eq i)
  ]
  | inr e ↦ rw e
]
  where
    refl_eq : (i : ℕ) → (i == i) ≡ true
    refl_eq i = ground arith

-- The running process is not aged.
pub scan_self :
    (now me n : ℕ) (t : ProcTable)
    → is_runnable (t me).state ≡ false
    → (scan now me n t).0 me ≡ t me
scan_self now me n t idle = scan-table now me n t me ∙ pick (ltb me n)
  where
    pick : (b : Bool) → (if b then aged now (t me) else t me) ≡ t me
    pick true = rw idle
    pick false = refl

scan-ahead : (now me n : ℕ) (t : ProcTable) → (scan now me n t).0 n ≡ t n
scan-ahead now me n t = scan-table now me n t n ∙ rw (ltb_irrefl n)
  where
    ltb_irrefl : (k : ℕ) → ltb k k ≡ false
    ltb_irrefl k = ground arith

bump : (b : Bool) (k : ℕ) → k < nproc → (if b then add32 k 1 else k) ≡ k + (if b then 1 else 0)
bump true k h = omega arith
bump false k h = omega arith

-- `ti` counts the processes that outrank the running one.
pub scan-rivals :
    (now me n : ℕ) (t : ProcTable)
    → is_runnable (t me).state ≡ false
    → n ≤ nproc
    → (scan now me n t).1 ≡ rivals now (t me).queue_level n t
unfolding scan each rivals
scan-rivals now me zero t idle h = refl
scan-rivals now me (suc n) t idle h =
    step (scan now me n t).0 (scan now me n t).1 (scan_self now me n t idle) (scan-ahead now me n t)
      (scan-rivals now me n t idle (omega arith))
  where
    step :
        (u : ProcTable) (ti : ℕ)
        → u me ≡ t me
        → u n ≡ t n
        → ti ≡ rivals now (t me).queue_level n t
        → (scan_entry now me n (u, ti)).1
          ≡ rivals now (t me).queue_level n t
            + (if outranks now (t me).queue_level (t n) then 1 else 0)
    step u ti p q e =
        scan_entry-count now me n u ti (ap (λ (a : Proc). is_runnable a.state) p ∙ idle)
        ∙ rw (p, q, e)
            (bump (outranks now (t me).queue_level (t n)) (rivals now (t me).queue_level n t)
              (omega (arith, rivals-le now (t me).queue_level n t)))

-- Some process outranks the level exactly if the count is not 0.
pub rivals-pos :
    (now level n : ℕ) (t : ProcTable)
    → 0 < rivals now level n t
    → (j : ℕ) × (j < n) × (outranks now level (t j) ≡ true)
unfolding rivals
rivals-pos now level zero t h = absurd (omega arith)
rivals-pos now level (suc n) t h = elim (Bool-cases (outranks now level (t n))) [
  | inl e ↦ (n, ground arith, e)
  | inr e ↦
      let (j, lt, o) = rivals-pos now level n t (omega (arith, rw e at h)) in (j, omega arith, o)
]

pub rivals-zero :
    (now level n : ℕ) (t : ProcTable)
    → rivals now level n t ≡ 0
    → (j : ℕ) → j < n
    → outranks now level (t j) ≡ false
unfolding rivals
rivals-zero now level zero t h j lt = elim lt [ ]
rivals-zero now level (suc n) t h j lt = elim (Bool-cases (outranks now level (t n))) [
  | inl e ↦ absurd (omega (arith, rw e at h))
  | inr e ↦ elim (dec_lt j n) [
    | yes below ↦ rivals-zero now level n t (omega (arith, rw e at h)) j below
    | no last ↦ let e' : j ≡ n = omega arith in rw e' e
  ]
]
