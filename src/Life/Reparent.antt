-- ===== src/Life/Reparent.antt =====
-- `reparent` and `exit` (src/kernel/proc.c).
use enhanced_xv.Base.{
  ℕ, zero, suc, ◌<◌, ◌≡◌, ◌≢◌, refl, ◌∙◌, sym, ◌&&◌, if◌then◌else◌, ◌==◌, ltb, arith, each, update,
  update_self, inl, inr, Bool-cases, ap,
}
use enhanced_xv.Proc.{Proc, ProcTable, nproc, proc_ptr, wakeup, zombie}
use enhanced_xv.Proc.Wake.{wakeup_lem}
use enhanced_xv.Life.{adopt, reparent, finish_exit}

-- `wakeup` changes no parent and no pid.
wakeup-parent :
    (now me chan : ℕ) (t : ProcTable) (j : ℕ) → (wakeup now me chan t j).parent ≡ (t j).parent
wakeup-parent now me chan t j = rw (wakeup_lem now me chan t j) (ground arith)

adopt-parent :
    (now me init p n : ℕ) (t : ProcTable) (j : ℕ)
    → (adopt now me init p n t j).parent
      ≡ (if n == j && (t n).parent == p then init else (t j).parent)
adopt-parent now me init p n t j = elim (Bool-cases ((t n).parent == p)) [
  | inl e ↦
      rw e
        (wakeup-parent now me init (update t n (record (t n) { parent = init })) j ∙ ground arith)
  | inr e ↦ rw e (ground arith)
]

-- The parent of slot `j` after the first `n` turns of the loop.
adopted :
    (now me init p n : ℕ) (t : ProcTable) (j : ℕ)
    → (each (adopt now me init p) n t j).parent
      ≡ (if ltb j n && (t j).parent == p then init else (t j).parent)
unfolding each
adopted now me init p zero t j = ground arith
adopted now me init p (suc n) t j =
    adopt-parent now me init p n (each (adopt now me init p) n t) j
    ∙ rw (adopted now me init p n t n, adopted now me init p n t j) (ground arith)

-- `reparent(p)` gives each child of p to init, and changes no other parent.
pub reparent_lem :
    (now me init p : ℕ) (t : ProcTable) (j : ℕ)
    → (reparent now me init p t j).parent
      ≡ (if ltb j nproc && (t j).parent == p then init else (t j).parent)
unfolding reparent
reparent_lem now me init p t j = adopted now me init p nproc t j

keeps-parent :
    (t : ProcTable) (i : ℕ) (p : Proc) (j : ℕ)
    → p.parent ≡ (t i).parent
    → (update t i p j).parent ≡ (t j).parent
keeps-parent t i p j e = elim (Bool-cases (i == j)) [
  | inl h ↦ let same : i ≡ j = ground arith in rw h (e ∙ ap (λ k. (t k).parent) same)
  | inr h ↦ rw h
]

still_child :
    (now init p j : ℕ) (t : ProcTable)
    → j < nproc
    → init ≢ p
    → (if ltb j nproc && (t j).parent == p then init else (t j).parent) ≢ p
still_child now init p j t lt ne e = ground arith

-- Once a process other than init has exited, no slot of the table has it as its parent, and it is a zombie with its exit
-- status and time.
pub finish_exit-orphans :
    (now init i status : ℕ) (t : ProcTable)
    → init ≢ proc_ptr i
    → ((j : ℕ) → j < nproc → (finish_exit now init i status t j).parent ≢ proc_ptr i)
      × ((finish_exit now init i status t i).state ≡ zombie)
      × ((finish_exit now init i status t i).xstate ≡ status)
      × ((finish_exit now init i status t i).etime ≡ now)
unfolding finish_exit
finish_exit-orphans now init i status t ne =
    let t1 = reparent now (proc_ptr i) init (proc_ptr i) t in
    let t2 = wakeup now (proc_ptr i) (t1 i).parent t1 in
    let last : Proc = record (t2 i) { xstate = status; state = zombie; etime = now } in
    let self = update_self t2 i last in
    (
      λ j lt e. still_child now init (proc_ptr i) j t lt ne (
          sym (reparent_lem now (proc_ptr i) init (proc_ptr i) t j)
          ∙ sym (wakeup-parent now (proc_ptr i) (t1 i).parent t1 j)
          ∙ sym (keeps-parent t2 i last j refl)
          ∙ e),
      ap (λ p. p.state) self,
      ap (λ p. p.xstate) self,
      ap (λ p. p.etime) self,
    )
