-- ===== src/Sched/Pbs/Choice.antt =====
-- Which process `sched_pbs` runs, and the range of dynamic priorities.
use enhanced_xv.Base.{
  ℕ, ltb, zero, suc, ◌+◌, ◌%◌, ◌≡◌, ltb, if◌then◌else◌, update, update_same, each_entry,
  each_entry_lem, refl, sym, ap, ◌∙◌, Option, Bool-cases, inl, inr, int_half, int_mod, IsOrder,
  select, select_cong, consider, update_ne, ◌⊎◌, ◌≢◌, false, none, each, ◌<◌, some, arith, ◌≤◌,
  true, add32,
}
use enhanced_xv.Proc.{Proc, ProcTable, is_runnable, nproc, running}
use enhanced_xv.Sched.Fcfs.{can_run}
use enhanced_xv.Sched.Lex.{lex3_irrefl, lex3_trans, lex3_weak}
use enhanced_xv.Sched.Pbs.{refresh, preferred, scan, scan_entry}

abbrev flip : ℕ → ℕ
flip a = (a + int_half) % int_mod

pub preferred-IsOrder : IsOrder can_run preferred
preferred-IsOrder = record {
  irreflexive = λ a. lex3_irrefl (flip a.dynamic_priority) (flip a.num_shed) a.ctime;
  transitive = λ a b c.
      lex3_trans (flip a.dynamic_priority) (flip a.num_shed) a.ctime (flip b.dynamic_priority)
        (flip b.num_shed) b.ctime (flip c.dynamic_priority) (flip c.num_shed) c.ctime;
  weak = λ a b c.
      lex3_weak (flip a.dynamic_priority) (flip a.num_shed) a.ctime (flip b.dynamic_priority)
        (flip b.num_shed) b.ctime (flip c.dynamic_priority) (flip c.num_shed) c.ctime;
}

abbrev pub refreshed : Proc → Proc
refreshed p = if is_runnable p.state then refresh p else p

scan_entry-table :
    (i : ℕ) (t : ProcTable) (o : Option ℕ) → (scan_entry i (t, o)).0 ≡ update t i (refreshed (t i))
scan_entry-table i t o = elim (Bool-cases (is_runnable (t i).state)) [
  | inl e ↦ rw e
  | inr e ↦ rw e (sym (update_same t i))
]

pub scan-each :
    (n : ℕ) (t : ProcTable) (init : Option ℕ) → (scan n init t).0 ≡ each_entry (λ _. refreshed) n t
unfolding scan each_entry
scan-each zero t init = refl
scan-each (suc n) t init =
    scan_entry-table n (scan n init t).0 (scan n init t).1
    ∙ ap (λ u. update u n (refreshed (u n))) (scan-each n t init)

pub scan-table :
    (n : ℕ) (t : ProcTable) (init : Option ℕ) (j : ℕ)
    → (scan n init t).0 j ≡ (if ltb j n then refreshed (t j) else t j)
scan-table n t init j = rw (scan-each n t init) (each_entry_lem (λ _. refreshed) n t j)

consider-skip :
    (t : ProcTable) (i : ℕ) (o : Option ℕ)
    → is_runnable (t i).state ≡ false
    → consider can_run preferred t i o ≡ o
consider-skip t i none e = rw e
consider-skip t i (some k) e = rw e

scan_entry-select :
    (n : ℕ) (t : ProcTable) (o : Option ℕ)
    → o ≡ select can_run preferred t none n
    → (scan_entry n (t, o)).1
      ≡ consider can_run preferred
          (scan_entry n (t, o)).0
          n
          (select can_run preferred (scan_entry n (t, o)).0 none n)
scan_entry-select n t o h = elim (Bool-cases (is_runnable (t n).state)) [
  | inl e ↦
      let u : ProcTable = update t n (refresh (t n)) in
      let agree : o ≡ select can_run preferred u none n =
        h
        ∙ select_cong can_run preferred t u n
            (λ j lt. sym (update_ne t n (refresh (t n)) j (omega arith))) in
      rw e (ap (consider can_run preferred u n) agree)
  | inr e ↦ rw e (h ∙ sym (consider-skip t n (select can_run preferred t none n) e))
]

-- The candidate of the loop is the best of the refreshed entries.
pub scan-select :
    (n : ℕ) (t : ProcTable) → (scan n none t).1 ≡ select can_run preferred (scan n none t).0 none n
unfolding scan select each
scan-select zero t = refl
scan-select (suc n) t = scan_entry-select n (scan n none t).0 (scan n none t).1 (scan-select n t)

-- The counters of scheduling and the dynamic priority are not negative as `int`s.
abbrev pub InRange : ProcTable → Type 0
InRange t = (j : ℕ) → ((refresh (t j)).dynamic_priority < int_half) × ((t j).num_shed < int_half)

-- By dynamic priority, then by how often it was scheduled, then by age.
abbrev pub Precedes : Proc → Proc → Type 0
Precedes p q =
    (p.dynamic_priority < q.dynamic_priority)
    ⊎ ((p.dynamic_priority ≡ q.dynamic_priority)
        × ((p.num_shed < q.num_shed) ⊎ ((p.num_shed ≡ q.num_shed) × (p.ctime ≤ q.ctime))))

abbrev pub PbsRuns : ProcTable → Option ℕ × ProcTable → Type 0
PbsRuns t (none, u) = (j : ℕ) → ((j < nproc) → is_runnable (t j).state ≡ false) × (u j ≡ t j)
PbsRuns t (some i, u) =
    (i < nproc)
    × (is_runnable (t i).state ≡ true)
    × ((j : ℕ)
        → j < nproc
        → is_runnable (t j).state ≡ true
        → Precedes (refresh (t i)) (refresh (t j)))
    × (u i ≡ record (refresh (t i)) {
      state = running;
      run_time = 0;
      wait_time = 0;
      sleep_time = 0;
      num_shed = add32 (t i).num_shed 1;
    })
    × ((j : ℕ) → j ≢ i → u j ≡ (if ltb j nproc then refreshed (t j) else t j))
