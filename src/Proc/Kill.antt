-- ===== src/Proc/Kill.antt =====
-- `kill` (src/kernel/proc.c).
use enhanced_xv.Base.{
  ℕ, ◌<◌, ◌≡◌, ◌≢◌, ◌∙◌, false, ◌==◌, arith, find_first, find_first-some, find_first-none, update,
  update_self, update_ne, Option-cases, inl, inr, ◌⊎◌, minus_one, some, none, ap,
}
use enhanced_xv.Proc.{ProcTable, nproc, kill, kill_entry, is_sleeping}

-- The first slot with the pid.
pub record IsFirst (pid i : ℕ) (t : ProcTable) : Type 0 where
  pub below : i < nproc
  pub pid_lem : (t i).pid ≡ pid
  pub before : (j : ℕ) → j < i → (t j).pid ≢ pid

kill-first :
    (now pid i : ℕ) (t : ProcTable)
    → find_first (λ i. (t i).pid == pid) nproc ≡ some i
    → kill now pid t ≡ (update t i (kill_entry now (t i)), 0)
unfolding kill
kill-first now pid i t e = rw (kill, e)

kill-missing :
    (now pid : ℕ) (t : ProcTable)
    → find_first (λ i. (t i).pid == pid) nproc ≡ none
    → kill now pid t ≡ (t, minus_one)
unfolding kill
kill-missing now pid t e = rw (kill, e)

-- `kill` returns 0, marks the first process with the pid as killed, leaves it not asleep, and changes no
-- other; or it returns -1, changes nothing, and no process has the pid.
pub kill_lem :
    (now pid : ℕ) (t : ProcTable)
    → ((i : ℕ) × IsFirst pid i t
        × ((kill now pid t).1 ≡ 0)
        × (((kill now pid t).0 i).killed ≡ 1)
        × (is_sleeping ((kill now pid t).0 i).state ≡ false)
        × ((j : ℕ) → j ≢ i → (kill now pid t).0 j ≡ t j))
      ⊎ ((kill now pid t ≡ (t, minus_one)) × ((j : ℕ) → j < nproc → (t j).pid ≢ pid))
kill_lem now pid t = elim (Option-cases (find_first (λ i. (t i).pid == pid) nproc)) [
  | inl e ↦ inr (
    kill-missing now pid t e,
    λ j lt. ground (arith, find_first-none (λ i. (t i).pid == pid) nproc e j),
  )
  | inr (i, e) ↦
      let (lt, here, before) = find_first-some (λ i. (t i).pid == pid) nproc i e in
      let runs = kill-first now pid i t e in
      inl (
        i,
        record {
          below = lt;
          pid_lem = ground arith;
          before = λ j jlt. ground (arith, before j jlt);
        },
        ap (λ r. r.1) runs,
        ap (λ r. (r.0 i).killed) runs ∙ rw (update_self t i (kill_entry now (t i))) (ground arith),
        ap (λ r. is_sleeping (r.0 i).state) runs
            ∙ rw (update_self t i (kill_entry now (t i))) (ground arith),
        λ j ne. ap (λ r. r.0 j) runs ∙ update_ne t i (kill_entry now (t i)) j ne,
      )
]
