-- ===== src/Calls/Priority.antt =====
-- `sys_set_priority` (src/kernel/sysproc.c).
use enhanced_xv.Base.{
  ℕ, ◌<◌, ◌≡◌, ◌≢◌, refl, true, false, if◌then◌else◌, ◌==◌, arith, find_first, find_first-some,
  find_first-none, update, Option-cases, inl, inr, ◌⊎◌, int_lt, add32, minus_one, Bool,
}
use enhanced_xv.Proc.{ProcTable, nproc, yield, runnable}
use enhanced_xv.Proc.Kill.{IsFirst}
use enhanced_xv.Kernel.{Kernel, argint}
use enhanced_xv.Calls.{with_priority, extend, sys_set_priority}

-- The table after a new priority for slot `i`: every other slot but the caller's is as before, and
-- the caller goes back to the run queue exactly if the new priority is the smaller number.
pub record Prioritized (me i priority : ℕ) (t t' : ProcTable) : Type 0 where
  pub set : (t' i).priority ≡ priority
  pub dynamic_set : (t' i).dynamic_priority ≡ add32 priority 25
  pub others : (j : ℕ) → j ≢ i → j ≢ me → t' j ≡ t j
  pub yields : int_lt priority (t i).priority ≡ true → (t' me).state ≡ runnable
  pub stays : int_lt priority (t i).priority ≡ false → (t' me).state ≡ (t me).state

prioritized :
    (me i priority : ℕ) (t : ProcTable)
    → (b : Bool) → int_lt priority (t i).priority ≡ b
    → Prioritized me i priority t (
        if b
        then yield me (update t i (with_priority priority (t i)))
        else update t i (with_priority priority (t i)))
unfolding yield
prioritized me i priority t true h = record {
  set = ground arith;
  dynamic_set = ground arith;
  others = λ j ni nm. ground arith;
  yields = λ _. ground arith;
  stays = λ e. cc;
}
prioritized me i priority t false h = record {
  set = ground arith;
  dynamic_set = ground arith;
  others = λ j ni nm. ground arith;
  yields = λ e. cc;
  stays = λ _. ground arith;
}

-- `sys_set_priority` sets the priority of the first process with the pid, returns the old one, and makes the
-- caller yield exactly when the new one is smaller; or no process has the pid, and it returns -1 and
-- changes nothing.
pub sys_set_priority_lem :
    (me : ℕ) (k : Kernel)
    → ((i : ℕ) × IsFirst (argint 1 me k) i k.procs
        × ((sys_set_priority me k).0 ≡ extend (k.procs i).priority)
        × Prioritized me i (argint 0 me k) k.procs (sys_set_priority me k).1.procs)
      ⊎ ((sys_set_priority me k ≡ (extend minus_one, k))
          × ((j : ℕ) → j < nproc → (k.procs j).pid ≢ argint 1 me k))
unfolding sys_set_priority
sys_set_priority_lem me k =
    let test : ℕ → Bool = λ i. (k.procs i).pid == argint 1 me k in
    elim (Option-cases (find_first test nproc)) [
      | inl e ↦
          inr (rw (sys_set_priority, e), λ j lt. ground (arith, find_first-none test nproc e j))
      | inr (i, e) ↦
          let (lt, here, before) = find_first-some test nproc i e in
          inl (
            i,
            record {
              below = lt;
              pid_lem = ground arith;
              before = λ j jlt. ground (arith, before j jlt);
            },
            rw (sys_set_priority, e),
            rw (sys_set_priority, e)
                (prioritized me i (argint 0 me k) k.procs
                  (int_lt (argint 0 me k) (k.procs i).priority) refl),
          )
    ]
