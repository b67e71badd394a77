-- ===== src/Sched/Mlfq/Aging.antt =====
-- What the loop of `mlfq_yield` does to the table.
use enhanced_xv.Base.{
  ℕ, zero, suc, ◌≡◌, each_entry, each_entry_lem, update, update_same, Bool-cases, inl, inr, refl,
  sym, ap, ◌∙◌, if◌then◌else◌, ltb,
}
use enhanced_xv.Proc.{Proc, ProcTable, is_runnable}
use enhanced_xv.Sched.Mlfq.{scan, scan_entry, age}

-- An entry after the loop has passed it.
abbrev pub aged : ℕ → Proc → Proc
aged now p = if is_runnable p.state then age now p else p

scan_entry-table :
    (now me i : ℕ) (t : ProcTable) (ti : ℕ)
    → (scan_entry now me i (t, ti)).0 ≡ update t i (aged now (t i))
scan_entry-table now me i t ti = elim (Bool-cases (is_runnable (t i).state)) [
  | inl e ↦ rw e
  | inr e ↦ rw e (sym (update_same t i))
]

-- The loop ages every runnable process once.
pub scan-each :
    (now me n : ℕ) (t : ProcTable) → (scan now me n t).0 ≡ each_entry (λ _. aged now) n t
unfolding scan each_entry
scan-each now me zero t = refl
scan-each now me (suc n) t =
    scan_entry-table now me n (scan now me n t).0 (scan now me n t).1
    ∙ ap (λ u. update u n (aged now (u n))) (scan-each now me n t)

pub scan-table :
    (now me n : ℕ) (t : ProcTable) (j : ℕ)
    → (scan now me n t).0 j ≡ (if ltb j n then aged now (t j) else t j)
scan-table now me n t j = rw (scan-each now me n t) (each_entry_lem (λ _. aged now) n t j)
