-- ===== src/Sched/Mlfq/Outcome.antt =====
-- What may become of the running process at a timer interrupt, and the table that the loop of
-- `mlfq_yield` leaves.
use enhanced_xv.Base.{
  ℕ, zero, suc, ◌+◌, ◌<◌, ◌≤◌, ◌≡◌, ◌≢◌, inl, inr, refl, ap, ◌∙◌, Bool, some, true, false, arith,
  Bool-cases, ltb, ◌==◌, ==_iff, int_half, update, update_ne, leb, int_lt_lem, int_le_lem,
  if◌then◌else◌, get_elem?,
}
use enhanced_xv.Proc.{Proc, ProcTable, runnable, running, is_runnable, is_running, nproc, yield}
use enhanced_xv.Sched.Mlfq.{scan, ticklim, tick, demote, requeue, decide_yield}
use enhanced_xv.Sched.Mlfq.Aging.{aged, scan-table}
use enhanced_xv.Sched.Mlfq.Quantum.{outranks, scan_self}

-- What becomes of the running process `p`: its quantum is used up, or a process on a lower level can
-- run, or it goes on.
pub data Outcome (now me limit : ℕ) (t : ProcTable) : Proc → Bool → Type 0 where
  exhausted :
      limit ≤ (t me).tick_ctr + 1
      → Outcome now me limit t
          (record (t me) {
            state = runnable;
            tick_ctr = 0;
            in_time = now;
            queue_level = (t me).queue_level + 1;
          })
          true
  preempted :
      (j : ℕ)
      → (t me).tick_ctr + 1 < limit
      → j < nproc
      → outranks now (t me).queue_level (t j) ≡ true
      → Outcome now me limit t
          (record (t me) { state = runnable; tick_ctr = 0; in_time = now })
          true
  goes_on :
      (t me).tick_ctr + 1 < limit
      → ((j : ℕ) → j < nproc → outranks now (t me).queue_level (t j) ≡ false)
      → Outcome now me limit t (record (t me) { tick_ctr = (t me).tick_ctr + 1 }) false

pub ticklim_bounds :
    (level limit : ℕ) → get_elem? ticklim level ≡ some limit → (level < 4) × (limit < 16)
ticklim_bounds zero limit h = ground arith
ticklim_bounds (suc zero) limit h = ground arith
ticklim_bounds (suc (suc zero)) limit h = ground arith
ticklim_bounds (suc (suc (suc zero))) limit h = ground arith
ticklim_bounds (suc (suc (suc (suc k)))) limit h = cc

module _ (now me limit : ℕ) (t : ProcTable) (runs : is_running (t me).state ≡ true) where
  pub not_runnable : is_runnable (t me).state ≡ false
  not_runnable = go (t me).state runs
    where
      go : (s : _) → is_running s ≡ true → is_runnable s ≡ false
      go running h = refl
      go s h = cc

  unfoldable pub ticked : ProcTable
  ticked = update t me (tick (t me))

  pub ticked_self : ticked me ≡ tick (t me)
  unfolding ticked
  ticked_self = rw ((==_iff me me).1 refl)

  pub ticked-outranks : (level j : ℕ) → outranks now level (ticked j) ≡ outranks now level (t j)
  unfolding ticked
  ticked-outranks level j = elim (Bool-cases (me == j)) [
    | inl e ↦ let e' : me ≡ j = (==_iff me j).0 e in rw (e, ← e', not_runnable)
    | inr e ↦ rw e
  ]

  unfoldable pub after : ProcTable
  unfolding ticked
  after = (scan now me nproc ticked).0

  pub after_self : after me ≡ tick (t me)
  unfolding after
  after_self =
      scan_self now me nproc ticked
        (ap (λ (p : Proc). is_runnable p.state) ticked_self ∙ not_runnable)
      ∙ ticked_self

  pub after_other : (j : ℕ) → j ≢ me → after j ≡ (if ltb j nproc then aged now (t j) else t j)
  unfolding after ticked
  after_other j ne = scan-table now me nproc ticked j ∙ rw (update_ne t me (tick (t me)) j ne)

-- What the interrupt leaves behind: the others are aged, and the running process has its outcome.
pub record YieldSpec (now me limit : ℕ) (t : ProcTable) (r : ProcTable × Bool) : Type 0 where
  pub others : (j : ℕ) → j ≢ me → r.0 j ≡ (if ltb j nproc then aged now (t j) else t j)
  pub own : Outcome now me limit t (r.0 me) r.1

-- A write of `f` to the running process, and the write of `yield`.
pub yield_self :
    (me : ℕ) (u : ProcTable) (p : Proc)
    → yield me (update u me p) me ≡ record p { state = runnable }
unfolding yield
yield_self me u p = rw ((==_iff me me).1 refl)

pub yield_other :
    (me : ℕ) (u : ProcTable) (p : Proc) (j : ℕ) → j ≢ me → yield me (update u me p) j ≡ u j
unfolding yield
yield_other me u p j ne =
    update_ne (update u me p) me (record (update u me p me) { state = runnable }) j ne
    ∙ update_ne u me p j ne

-- The code after the loop, with the comparisons of `int`s read as comparisons of numbers.
pub decide_yield_lem :
    (now me limit ti : ℕ) (u : ProcTable) (q : Proc)
    → u me ≡ q
    → get_elem? ticklim q.queue_level ≡ some limit
    → limit < int_half
    → q.tick_ctr < int_half
    → ti < int_half
    → decide_yield now me (u, ti)
      ≡ some (
          if leb limit q.tick_ctr
          then (yield me (update u me (demote now q)), true)
          else if ltb 0 ti
          then (yield me (update u me (requeue now q)), true)
          else (u, false))
decide_yield_lem now me limit ti u q e hl l c s =
    let hl' : get_elem? ticklim (u me).queue_level ≡ some limit = rw e hl in
    rw (hl', e, int_le_lem limit q.tick_ctr l c, int_lt_lem 0 ti (omega arith) s)
