-- ===== src/Sched/Pbs/Runs.antt =====
-- `sched_pbs`: which process runs, and what the scan and the start of its run write.
use enhanced_xv.Base.{
  ℕ, ◌<◌, ◌≡◌, Option, none, some, true, false, arith, ltb, if◌then◌else◌, int_half, IsChoice,
  select-IsChoice, sym, ◌∙◌, ap, ap₂, Bool-cases, inl, inr, update_self, update_ne,
}
use enhanced_xv.Proc.{Proc, ProcTable, is_runnable, nproc}
use enhanced_xv.Sched.Fcfs.{can_run}
use enhanced_xv.Sched.Pbs.{refresh, preferred, scan, start_run, dispatch, sched_pbs}
use enhanced_xv.Sched.Pbs.Choice.{
  refreshed, scan-table, scan-select, preferred-IsOrder, InRange, Precedes, PbsRuns,
}

-- An entry of the scanned table.
refreshed-ready :
    (t u : ProcTable) (j : ℕ)
    → u j ≡ (if ltb j nproc then refreshed (t j) else t j)
    → j < nproc
    → is_runnable (t j).state ≡ true
    → u j ≡ refresh (t j)
refreshed-ready t u j e lt ready =
    let inside : ltb j nproc ≡ true = ground arith in e ∙ rw (inside, ready)

refreshed-state :
    (t u : ProcTable) (j : ℕ)
    → u j ≡ (if ltb j nproc then refreshed (t j) else t j)
    → (u j).state ≡ (t j).state
refreshed-state t u j e = elim (Bool-cases (ltb j nproc)) [
  | inl a ↦ elim (Bool-cases (is_runnable (t j).state)) [
    | inl b ↦ rw (e, a, b)
    | inr b ↦ rw (e, a, b)
  ]
  | inr a ↦ rw (e, a)
]

refreshed-idle :
    (t u : ProcTable) (j : ℕ)
    → u j ≡ (if ltb j nproc then refreshed (t j) else t j)
    → ((j < nproc) → is_runnable (t j).state ≡ false)
    → u j ≡ t j
refreshed-idle t u j e idle = elim (Bool-cases (ltb j nproc)) [
  | inl a ↦ e ∙ rw (a, idle (ground arith))
  | inr a ↦ e ∙ rw a
]

Precedes-of_unbeaten :
    (p q : Proc)
    → (p.dynamic_priority < int_half) × (p.num_shed < int_half)
    → (q.dynamic_priority < int_half) × (q.num_shed < int_half)
    → preferred q p ≡ false
    → Precedes p q
Precedes-of_unbeaten p q hp hq h = ground arith

dispatch-PbsRuns :
    (t u : ProcTable) (o : Option ℕ)
    → InRange t
    → ((j : ℕ) → u j ≡ (if ltb j nproc then refreshed (t j) else t j))
    → IsChoice can_run preferred u nproc o
    → PbsRuns t (dispatch (u, o))
dispatch-PbsRuns t u none r e h = λ j.
    let idle : (j < nproc) → is_runnable (t j).state ≡ false =
      λ lt. rw (← refreshed-state t u j (e j)) (h j lt) in
    (idle, refreshed-idle t u j (e j) idle)
dispatch-PbsRuns t u (some i) r e h = (
  h.below,
  ready i h.fits,
  λ j lt el. Precedes-of_unbeaten (refresh (t i)) (refresh (t j)) (r i) (r j) (
      sym (
        ap₂ preferred (refreshed-ready t u j (e j) lt el)
          (refreshed-ready t u i (e i) h.below (ready i h.fits)))
      ∙ h.unbeaten j lt (rw (refreshed-state t u j (e j)) el)),
  update_self u i (start_run (u i))
      ∙ ap start_run (refreshed-ready t u i (e i) h.below (ready i h.fits)),
  λ j ne. update_ne u i (start_run (u i)) j ne ∙ e j,
)
  where
    ready : (j : ℕ) → is_runnable (u j).state ≡ true → is_runnable (t j).state ≡ true
    ready j f = rw (← refreshed-state t u j (e j)) f

-- Called with no current process, while the counters are in range, `sched_pbs` computes the dynamic
-- priority of every runnable process, and runs one that precedes each other by dynamic priority, then by
-- number of runs, then by creation time; it resets that process's three times and counts the run. It
-- changes nothing exactly when no process is runnable.
pub sched_pbs_lem : (t : ProcTable) → InRange t → PbsRuns t (sched_pbs none t)
unfolding sched_pbs
sched_pbs_lem t r =
    dispatch-PbsRuns t (scan nproc none t).0 (scan nproc none t).1 r (scan-table nproc t none) (
      rw (scan-select nproc t)
        (select-IsChoice can_run preferred preferred-IsOrder (scan nproc none t).0 nproc))
