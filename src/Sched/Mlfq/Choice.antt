-- ===== src/Sched/Mlfq/Choice.antt =====
-- Which process `sched_mlfq` runs.
use enhanced_xv.Base.{
  ℕ, ◌+◌, ◌%◌, ◌<◌, ◌≤◌, ◌≡◌, ◌≢◌, ◌⊎◌, refl, Option, none, some, true, false, arith, IsOrder,
  IsChoice, select-IsChoice, int_half, int_mod,
}
use enhanced_xv.Proc.{Proc, ProcTable, running, is_runnable, nproc}
use enhanced_xv.Sched.Fcfs.{can_run, dispatch}
use enhanced_xv.Sched.Lex.{lex2_irrefl, lex2_trans, lex2_weak}
use enhanced_xv.Sched.Mlfq.{more_urgent, mlfq_select, sched_mlfq}

abbrev flip : ℕ → ℕ
flip a = (a + int_half) % int_mod

more_urgent-IsOrder : IsOrder can_run more_urgent
more_urgent-IsOrder = record {
  irreflexive = λ a. lex2_irrefl (flip a.queue_level) (flip a.in_time);
  transitive = λ a b c.
      lex2_trans (flip a.queue_level) (flip a.in_time) 0 (flip b.queue_level) (flip b.in_time) 0
        (flip c.queue_level) (flip c.in_time) 0;
  weak = λ a b c.
      lex2_weak (flip a.queue_level) (flip a.in_time) 0 (flip b.queue_level) (flip b.in_time) 0
        (flip c.queue_level) (flip c.in_time) 0;
}

-- No level and no arrival time is negative as an `int`.
abbrev pub InRange : ProcTable → Type 0
InRange t = (j : ℕ) → ((t j).queue_level < int_half) × ((t j).in_time < int_half)

-- `p` is served no later than `q`: it is on a lower level, or arrived no later on the same level.
abbrev pub Precedes : Proc → Proc → Type 0
Precedes p q =
    (p.queue_level < q.queue_level) ⊎ ((p.queue_level ≡ q.queue_level) × (p.in_time ≤ q.in_time))

abbrev pub MlfqRuns : ProcTable → Option ℕ × ProcTable → Type 0
MlfqRuns t (none, u) = ((j : ℕ) → j < nproc → is_runnable (t j).state ≡ false) × (u ≡ t)
MlfqRuns t (some i, u) =
    (i < nproc)
    × (is_runnable (t i).state ≡ true)
    × ((j : ℕ) → j < nproc → is_runnable (t j).state ≡ true → Precedes (t i) (t j))
    × ((u i).state ≡ running)
    × ((j : ℕ) → j ≢ i → u j ≡ t j)

Precedes-of_unbeaten :
    (p q : Proc)
    → (p.queue_level < int_half) × (p.in_time < int_half)
    → (q.queue_level < int_half) × (q.in_time < int_half)
    → more_urgent q p ≡ false
    → Precedes p q
Precedes-of_unbeaten p q hp hq h = ground arith

dispatch-MlfqRuns :
    (t : ProcTable) (o : Option ℕ)
    → InRange t
    → IsChoice can_run more_urgent t nproc o
    → MlfqRuns t (dispatch o t)
dispatch-MlfqRuns t none r h = (h, refl)
dispatch-MlfqRuns t (some i) r h = (
  h.below,
  h.fits,
  λ j lt e. Precedes-of_unbeaten (t i) (t j) (r i) (r j) (h.unbeaten j lt e),
  ground arith,
  λ j ne. ground arith,
)

-- While no level and no arrival time is negative, `sched_mlfq` runs a runnable process that precedes
-- every runnable process by level and then by arrival, marks it RUNNING and changes no other entry;
-- it changes nothing exactly when none is runnable.
pub sched_mlfq_lem : (t : ProcTable) → InRange t → MlfqRuns t (sched_mlfq t)
unfolding sched_mlfq mlfq_select
sched_mlfq_lem t r =
    dispatch-MlfqRuns t (mlfq_select t) r
      (select-IsChoice can_run more_urgent more_urgent-IsOrder t nproc)
