-- ===== src/Sched/Fcfs/Choice.antt =====
-- Which process `sched_fcfs` runs.
use enhanced_xv.Base.{
  ℕ, ◌<◌, ◌≤◌, ◌≡◌, ◌≢◌, refl, Option, none, some, true, false, arith, IsOrder, IsChoice,
  select-IsChoice,
}
use enhanced_xv.Proc.{ProcTable, running, is_runnable, nproc}
use enhanced_xv.Sched.Fcfs.{can_run, earlier, fcfs_select, dispatch, sched_fcfs}

earlier-IsOrder : IsOrder can_run earlier
earlier-IsOrder = record {
  irreflexive = λ a. ground arith;
  transitive = λ a b c h k. ground arith;
  weak = λ a b c h k. ground arith;
}

-- The oldest runnable process: the first in the table among those created first.
pub record IsOldest (t : ProcTable) (i : ℕ) : Type 0 where
  pub below : i < nproc
  pub ready : is_runnable (t i).state ≡ true
  pub oldest : (j : ℕ) → j < nproc → is_runnable (t j).state ≡ true → (t i).ctime ≤ (t j).ctime
  pub first : (j : ℕ) → j < i → is_runnable (t j).state ≡ true → (t i).ctime < (t j).ctime

abbrev pub FcfsRuns : ProcTable → Option ℕ × ProcTable → Type 0
FcfsRuns t (none, u) = ((j : ℕ) → j < nproc → is_runnable (t j).state ≡ false) × (u ≡ t)
FcfsRuns t (some i, u) = IsOldest t i × ((u i).state ≡ running) × ((j : ℕ) → j ≢ i → u j ≡ t j)

dispatch-FcfsRuns :
    (t : ProcTable) (o : Option ℕ) → IsChoice can_run earlier t nproc o → FcfsRuns t (dispatch o t)
dispatch-FcfsRuns t none h = (h, refl)
dispatch-FcfsRuns t (some i) h = (
  record {
    below = h.below;
    ready = h.fits;
    oldest = λ j lt e. ground (arith, h.unbeaten j lt e);
    first = λ j lt e. ground (arith, h.first j lt e);
  },
  ground arith,
  λ j ne. ground arith,
)

-- `sched_fcfs`, called with no current process, runs the runnable process that was created first,
-- marks it RUNNING and changes no other entry; it changes nothing exactly when none is runnable.
pub sched_fcfs_lem : (t : ProcTable) → FcfsRuns t (sched_fcfs none t)
unfolding sched_fcfs fcfs_select
sched_fcfs_lem t =
    dispatch-FcfsRuns t (fcfs_select none t)
      (select-IsChoice can_run earlier earlier-IsOrder t nproc)
