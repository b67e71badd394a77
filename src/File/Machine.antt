-- ===== src/File/Machine.antt =====
-- Any sequence of calls on descriptors: the reference counts stay right, and no call panics.
use enhanced_xv.Base.{
  ℕ, ◌<◌, ◌≡◌, ◌≢◌, refl, sym, ◌∙◌, ap, Option, none, some, some_inj, Bool, true, false, List, [],
  ◌==◌, update, arith, Bool-cases, inl, inr, int_mod, subst, total_bound, total,
}
use mathlib.Core.Bool.{false≢true}
use enhanced_xv.Proc.{nproc}
use enhanced_xv.File.{
  Files, nfile, nofile, Closing, sys_dup, sys_close, open_file, fork_files, exit_files, Outcome,
  Ofile,
}
use enhanced_xv.File.Counts.{IsValid, handles, refers}
use enhanced_xv.File.Calls.{Ends, sys_dup-Ends, sys_close-Ends, sys_open-Ends}
use enhanced_xv.File.Loops.{fork_files-ends, exit_files-ends}

-- The files, and which slots of the process table are in use.
pub record Machine : Type 0 where
  pub files : Files
  pub live : ℕ → Bool

pub data Call : Type 0 where
  dups closes : ℕ → ℕ → Call
  opens : Option ℕ → ℕ → ℕ → ℕ → Call
  forks : ℕ → ℕ → Call
  exits : ℕ → Call

abbrev pub after_call : (ℕ → Bool) → Option Outcome → Option (Machine × List Closing)
after_call live none = none
after_call live (some (s, cs, _)) = some (record { files = s; live = live }, cs)

-- A call: `none` is a panic. `forks p np` copies the descriptors of `p` to the slot `np` that `allocproc`
-- found, and `exits p` ends with the slot unused.
unfoldable pub run : Call → Machine → Option (Machine × List Closing)
run (dups p fd) m = after_call m.live (sys_dup p fd m.files)
run (closes p fd) m = after_call m.live (sys_close p fd m.files)
run (opens device ip omode p) m = after_call m.live (open_file device ip omode p m.files)
run (forks p np) m = elim (fork_files p np m.files) [
  | none ↦ none
  | some s ↦ some (record { files = s; live = update m.live np true }, [])
]
run (exits p) m = elim (exit_files p m.files) [
  | none ↦ none
  | some (s, cs) ↦ some (record { files = s; live = update m.live p false }, cs)
]

-- A process in use makes the call, its descriptor argument is an `int`, and the child's slot is unused.
abbrev pub Fits : Machine → Call → Type 0
Fits m (dups p fd) = (p < nproc) × (m.live p ≡ true) × (fd < int_mod)
Fits m (closes p fd) = (p < nproc) × (m.live p ≡ true) × (fd < int_mod)
Fits m (opens device ip omode p) = (p < nproc) × (m.live p ≡ true)
Fits m (forks p np) = (p < nproc) × (m.live p ≡ true) × (np < nproc) × (m.live np ≡ false)
Fits m (exits p) = (p < nproc) × (m.live p ≡ true)

pub data Reachable : Machine → Type 0 where
  -- At boot no file is open.
  boot :
      (m : Machine)
      → ((f : ℕ) → (m.files.ftable f).ref ≡ 0)
      → ((p fd : ℕ) → m.files.ofile p fd ≡ none)
      → Reachable m
  called :
      {m m' : Machine} {cs : List Closing} (c : Call)
      → Reachable m
      → Fits m c
      → run c m ≡ some (m', cs)
      → Reachable m'

pub record IsSound (m : Machine) : Type 0 where
  pub valid : IsValid m.files
  pub spare : (p : ℕ) → m.live p ≡ false → (fd : ℕ) → fd < nofile → m.files.ofile p fd ≡ none

-- A call that ends well.
Runs : Machine → Call → Type 0
Runs m c = (m' : Machine) × (cs : List Closing) × (run c m ≡ some (m', cs)) × IsSound m'

-- A call that changes only the descriptors of a process in use.
own :
    (m : Machine) (p : ℕ) (s' : Files)
    → IsSound m
    → m.live p ≡ true
    → IsValid s'
    → ((q : ℕ) → q ≢ p → s'.ofile q ≡ m.files.ofile q)
    → IsSound (record { files = s'; live = m.live })
own m p s' i used v' others = record {
  valid = v';
  spare = λ q idle fd b.
      let apart : q ≢ p = λ e. absurd (false≢true (sym idle ∙ ap m.live e ∙ used)) in
      ap (λ r. r fd) (others q apart) ∙ i.spare q idle fd b;
}

run-ends : (m : Machine) (c : Call) → IsSound m → Fits m c → Runs m c
unfolding run Runs Ends
run-ends m (dups p fd) i (lt, used, small) =
    let (s', cs, r, e, v', others) = sys_dup-Ends p fd m.files lt small i.valid in
    (record { files = s'; live = m.live }, cs, rw e refl, own m p s' i used v' others)
run-ends m (closes p fd) i (lt, used, small) =
    let (s', cs, r, e, v', others) = sys_close-Ends p fd m.files lt small i.valid in
    (record { files = s'; live = m.live }, cs, rw e refl, own m p s' i used v' others)
run-ends m (opens device ip omode p) i (lt, used) =
    let (s', cs, r, e, v', others) = sys_open-Ends device ip omode p m.files lt i.valid in
    (record { files = s'; live = m.live }, cs, rw e refl, own m p s' i used v' others)
run-ends m (forks p np) i (lt, used, nlt, idle) =
    let apart : p ≢ np = λ e. absurd (false≢true (sym idle ∙ ap m.live (sym e) ∙ used)) in
    let (s', e, v', others) = fork_files-ends p np m.files lt nlt apart i.valid (i.spare np idle) in
    let m' : Machine = record { files = s'; live = update m.live np true } in
    let sound : IsSound m' = record {
      valid = v';
      spare = λ q out fd b. elim (Bool-cases (np == q)) [
        | inl same ↦ absurd (false≢true (sym out ∙ rw same refl))
        | inr other ↦
            ap (λ r. r fd) (others q (ground arith)) ∙ i.spare q (sym (rw other refl) ∙ out) fd b
      ];
    } in
    (m', [], rw (run, e) refl, sound)
run-ends m (exits p) i (lt, used) =
    let (s', cs, e, v', gone, others) = exit_files-ends p m.files lt i.valid in
    let m' : Machine = record { files = s'; live = update m.live p false } in
    let sound : IsSound m' = record {
      valid = v';
      spare = λ q out fd b. elim (Bool-cases (p == q)) [
        | inl same ↦ subst (λ k. s'.ofile k fd ≡ none) (ground arith) (gone fd b)
        | inr other ↦
            ap (λ r. r fd) (others q (ground arith)) ∙ i.spare q (sym (rw other refl) ∙ out) fd b
      ];
    } in
    (m', cs, rw (run, e) refl, sound)

pub none_open :
    (tables : ℕ → Ofile) (f : ℕ) → ((p fd : ℕ) → tables p fd ≡ none) → handles tables f ≡ 0
unfolding handles
none_open tables f h =
    let bound =
      total_bound (λ p. total (λ fd. refers f (tables p fd)) nofile) nproc 0
        (λ p _.
          total_bound (λ fd. refers f (tables p fd)) nofile 0
            (λ fd _. rw (h p fd) (omega arith))) in
    omega arith

pub Reachable-IsSound : (m : Machine) → Reachable m → IsSound m
unfolding Runs
Reachable-IsSound m (boot _ free vacant) = record {
  valid = record {
    counted = λ f _. free f ∙ sym (none_open m.files.ofile f vacant);
    in_table = λ p fd f e. let c : none ≡ some f = sym (vacant p fd) ∙ e in cc;
  };
  spare = λ p _ fd _. vacant p fd;
}
Reachable-IsSound m' (called {m = m} {cs = cs} c r fits e) =
    let (k, ds, h, sound) = run-ends m c (Reachable-IsSound m r) fits in
    subst IsSound (ap (λ o. o.0) (some_inj (sym h ∙ e))) sound

-- From boot on, whatever sys_dup, sys_close, the allocating part of sys_open, and the descriptor loops of
-- fork and exit processes have run: the count of every open file is the number of descriptors on it, an
-- unused slot of the process table has none, and no next call by a process in use panics.
pub Reachable-counted :
    (m : Machine) (c : Call)
    → Reachable m
    → Fits m c
    → ((f : ℕ) → f < nfile → (m.files.ftable f).ref ≡ handles m.files.ofile f)
      × ((p : ℕ) → m.live p ≡ false → (fd : ℕ) → fd < nofile → m.files.ofile p fd ≡ none)
      × ((m' : Machine) × (cs : List Closing) × (run c m ≡ some (m', cs)))
unfolding Runs
Reachable-counted m c r fits =
    let i = Reachable-IsSound m r in
    let (m', cs, e, _) = run-ends m c i fits in (i.valid.counted, i.spare, (m', cs, e))
