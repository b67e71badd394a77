-- ===== src/Sched/Mlfq/Overrun.antt =====
-- What follows from the outcomes: aging, and the read outside of `ticklim` that a process on the last
-- level leads to.
use mathlib.Core.Path.{subst}
use enhanced_xv.Base.{
  ℕ, zero, suc, ◌+◌, ◌-◌, ◌<◌, ◌≤◌, ◌≡◌, ◌≢◌, refl, sym, ◌∙◌, Bool, none, some, true, false, arith,
  ltb, int_half, int_mod, sub32, get_elem?, some_inj,
}
use enhanced_xv.Proc.{Proc, ProcTable, is_runnable, is_running, nproc}
use enhanced_xv.Sched.Mlfq.{scan, has_aged, ticklim, decide_yield, mlfq_yield}
use enhanced_xv.Sched.Mlfq.Outcome.{
  Outcome, exhausted, preempted, goes_on, YieldSpec, ticked, after, after_self,
}
use enhanced_xv.Sched.Mlfq.Yield.{mlfq_yield_lem}

-- The outcome of a process that has used up its quantum.
Outcome-exhausted :
    {now me limit : ℕ} {t : ProcTable} {p : Proc} {b : Bool}
    → Outcome now me limit t p b
    → limit ≤ (t me).tick_ctr + 1
    → p.queue_level ≡ (t me).queue_level + 1
Outcome-exhausted (exhausted h) used = refl
Outcome-exhausted (preempted j h lt o) used = absurd (omega arith)
Outcome-exhausted (goes_on h o) used = absurd (omega arith)

decide_yield-none :
    (now me ti : ℕ) (u : ProcTable)
    → get_elem? ticklim (u me).queue_level ≡ none
    → decide_yield now me (u, ti) ≡ none
decide_yield-none now me ti u e = rw e

-- A process on level 4 makes the next interrupt read outside of `ticklim`.
overrun :
    (now me : ℕ) (t : ProcTable)
    → is_running (t me).state ≡ true
    → (t me).queue_level ≡ 4
    → mlfq_yield now me t ≡ none
unfolding mlfq_yield after ticked
overrun now me t runs level =
    let e : get_elem? ticklim (after now me 0 t runs me).queue_level ≡ none =
      rw (after_self now me 0 t runs, level) in
    decide_yield-none now me (scan now me nproc (ticked now me 0 t runs)).1 (after now me 0 t runs)
      e

-- A process on level 3 that has used up its 15 ticks is put on level 4, for which `ticklim` has no
-- entry: the next timer interrupt on it, in any table in which it runs on that level, reads outside
-- of the array.
pub mlfq_yield-overruns :
    (now me : ℕ) (t : ProcTable)
    → is_running (t me).state ≡ true
    → (t me).queue_level ≡ 3
    → 15 ≤ (t me).tick_ctr + 1
    → (t me).tick_ctr + 1 < int_half
    → (r : ProcTable × Bool) × (mlfq_yield now me t ≡ some r)
      × ((r.0 me).queue_level ≡ 4)
      × ((now' : ℕ) (v : ProcTable)
          → is_running (v me).state ≡ true
          → (v me).queue_level ≡ (r.0 me).queue_level
          → mlfq_yield now' me v ≡ none)
mlfq_yield-overruns now me t runs level used small =
    let (r, e, s) = mlfq_yield_lem now me 15 t runs (rw level) small in
    let four : (r.0 me).queue_level ≡ 4 = omega (arith, Outcome-exhausted s.own used) in
    (r, e, four, λ now' v runs' level'. overrun now' me v runs' (level' ∙ four))

ticklim_total : (level : ℕ) → level < 4 → (limit : ℕ) × (get_elem? ticklim level ≡ some limit)
ticklim_total zero h = (1, refl)
ticklim_total (suc zero) h = (3, refl)
ticklim_total (suc (suc zero)) h = (9, refl)
ticklim_total (suc (suc (suc zero))) h = (15, refl)
ticklim_total (suc (suc (suc (suc k)))) h = absurd (omega arith)

ages-lem :
    (now me limit j : ℕ) (t : ProcTable) {r : ProcTable × Bool}
    → YieldSpec now me limit t r
    → j < nproc
    → j ≢ me
    → is_runnable (t j).state ≡ true
    → (t j).queue_level < int_half
    → (t j).last_exec ≤ now
    → now < int_mod
    → ((0 < (t j).queue_level)
        → 30 < now - (t j).last_exec
        → r.0 j
          ≡ record (t j) { last_exec = now; in_time = now; queue_level = (t j).queue_level - 1 })
      × (now - (t j).last_exec ≤ 30 → r.0 j ≡ t j)
      × ((t j).queue_level ≡ 0 → r.0 j ≡ t j)
ages-lem now me limit j t {r} s slot ne ready level past small = (
  λ above waited. s.others j ne ∙ rw (inside, ready, has_aged-true above waited, one_up above),
  λ recent. s.others j ne ∙ rw (inside, ready, has_aged-recent recent),
  λ top. s.others j ne ∙ rw (inside, ready, has_aged-top top),
)
  where
    inside : ltb j nproc ≡ true
    inside = ground arith

    one_up : 0 < (t j).queue_level → sub32 (t j).queue_level 1 ≡ (t j).queue_level - 1
    one_up h = omega arith

    has_aged-true : 0 < (t j).queue_level → 30 < now - (t j).last_exec → has_aged now (t j) ≡ true
    has_aged-true h k = ground arith

    has_aged-recent : now - (t j).last_exec ≤ 30 → has_aged now (t j) ≡ false
    has_aged-recent h = ground arith

    has_aged-top : (t j).queue_level ≡ 0 → has_aged now (t j) ≡ false
    has_aged-top h = ground arith

-- Aging. When the interrupt on `me` returns, a runnable process `j` other than `me` that has waited for
-- more than 30 ticks on a level above 0 is one level up, at the end of that queue, and otherwise as it
-- was; one that has waited less, or is on level 0, is as it was.
pub mlfq_yield-ages :
    (now me j : ℕ) (t : ProcTable) {r : ProcTable × Bool}
    → is_running (t me).state ≡ true
    → (t me).queue_level < 4
    → (t me).tick_ctr + 1 < int_half
    → mlfq_yield now me t ≡ some r
    → j < nproc
    → j ≢ me
    → is_runnable (t j).state ≡ true
    → (t j).queue_level < int_half
    → (t j).last_exec ≤ now
    → now < int_mod
    → ((0 < (t j).queue_level)
        → 30 < now - (t j).last_exec
        → r.0 j
          ≡ record (t j) { last_exec = now; in_time = now; queue_level = (t j).queue_level - 1 })
      × (now - (t j).last_exec ≤ 30 → r.0 j ≡ t j)
      × ((t j).queue_level ≡ 0 → r.0 j ≡ t j)
mlfq_yield-ages now me j t {r} runs top small e slot ne ready level past bound =
    let (limit, q) = ticklim_total (t me).queue_level top in
    let (r', e', s) = mlfq_yield_lem now me limit t runs q small in
    let same : r' ≡ r = some_inj (sym e' ∙ e) in
    ages-lem now me limit j t (subst (YieldSpec now me limit t) same s) slot ne ready level past
      bound
