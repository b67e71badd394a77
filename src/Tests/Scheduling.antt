-- ===== src/Tests/Scheduling.antt =====
-- The schedulers on the two processes.
use enhanced_xv.Base.{ℕ, ◌≡◌, refl, none, some, Bool, true, arith, Bool-cases, ◌==◌, inl, inr}
use enhanced_xv.Proc.{ProcTable, is_running}
use enhanced_xv.Sched.Fcfs.{sched_fcfs}
use enhanced_xv.Sched.Fcfs.Choice.{FcfsRuns, sched_fcfs_lem}
use enhanced_xv.Sched.Mlfq.{sched_mlfq, mlfq_yield}
use enhanced_xv.Sched.Mlfq.Choice.{MlfqRuns, sched_mlfq_lem, InRange}
use enhanced_xv.Sched.Mlfq.Outcome.{YieldSpec}
use enhanced_xv.Sched.Mlfq.Yield.{mlfq_yield_lem}
use enhanced_xv.Sched.Mlfq.Overrun.{mlfq_yield-overruns}
use enhanced_xv.Sched.Pbs.{sched_pbs, dynamic_priority_of}
use enhanced_xv.Sched.Pbs.Runs.{sched_pbs_lem}
use enhanced_xv.Sched.Pbs.Choice.{InRange as PbsInRange, PbsRuns}
use enhanced_xv.Tests.Data.{table}

table-InRange : InRange (table 0 0)
table-InRange j = ground arith

table-PbsInRange : PbsInRange (table 0 0)
unfolding dynamic_priority_of
table-PbsInRange j = elim (Bool-cases (j == 0)) [
  | inl e ↦ rw e (omega arith, omega arith)
  | inr e ↦ elim (Bool-cases (j == 1)) [
    | inl e' ↦ rw (e, e') (omega arith, omega arith)
    | inr e' ↦ rw (e, e') (omega arith, omega arith)
  ]
]

mlfq_yield_example :
    (r : ProcTable × Bool) × (mlfq_yield 40 0 (table 1 2) ≡ some r) × YieldSpec 40 0 3 (table 1 2) r
mlfq_yield_example = mlfq_yield_lem 40 0 3 (table 1 2) refl refl (omega arith)

sched_mlfq_example : MlfqRuns (table 0 0) (sched_mlfq (table 0 0))
sched_mlfq_example = sched_mlfq_lem (table 0 0) table-InRange

sched_fcfs_example : FcfsRuns (table 0 0) (sched_fcfs none (table 0 0))
sched_fcfs_example = sched_fcfs_lem (table 0 0)

sched_pbs_example : PbsRuns (table 0 0) (sched_pbs none (table 0 0))
sched_pbs_example = sched_pbs_lem (table 0 0) table-PbsInRange

mlfq_yield-overruns_example :
    (r : ProcTable × Bool) × (mlfq_yield 40 0 (table 3 14) ≡ some r)
    × ((r.0 0).queue_level ≡ 4)
    × ((now' : ℕ) (v : ProcTable)
        → is_running (v 0).state ≡ true
        → (v 0).queue_level ≡ (r.0 0).queue_level
        → mlfq_yield now' 0 v ≡ none)
mlfq_yield-overruns_example =
    mlfq_yield-overruns 40 0 (table 3 14) refl refl (omega arith) (omega arith)

-- The interrupt at tick 50 on the running process; the other one has waited 40 ticks on level 2.
late_run :
    (r : ProcTable × Bool) × (mlfq_yield 50 0 (table 1 0) ≡ some r) × YieldSpec 50 0 3 (table 1 0) r
late_run = mlfq_yield_lem 50 0 3 (table 1 0) refl refl (omega arith)
