-- ===== src/Sleeplock/System.antt =====
-- Processes that acquire and release one sleep lock (src/kernel/sleeplock.c): the steps of the whole system,
-- its invariant, and what a change of one process's phase does to it.
use mathlib.Core.Bool.{false≢true}
use enhanced_xv.Base.{
  ℕ, ◌<◌, ◌≡◌, ◌≢◌, refl, sym, ◌∙◌, ap, true, false, Bool, ◌&&◌, update, update_ne, ◌==◌, arith,
  Bool-cases, inl, inr,
}
use enhanced_xv.Proc.{ProcTable, nproc, is_sleeping, sleep_enter}
use enhanced_xv.Sleeplock.{Sleeplock, initsleeplock, takes, sleeps, acquiresleep, releasesleep}

-- Where a process is: outside; in the loop of `acquiresleep`, awake or asleep; or between it and
-- `releasesleep`.
pub data Phase : Type 0 where
  outside trying asleep inside : Phase

pub record System : Type 0 where
  pub lock : Sleeplock
  pub procs : ProcTable
  pub at : ℕ → Phase

abbrev pub goes : ℕ → Phase → System → System
goes i p s = record s { at = update s.at i p }

-- The process in slot `i` sleeps on the lock.
abbrev pub waits : ℕ → ℕ → ProcTable → Bool
waits chan i t = is_sleeping (t i).state && (t i).chan == chan

pub data Step (chan : ℕ) (s : System) : System → Type 0 where
  enter : (i : ℕ) → i < nproc → s.at i ≡ outside → Step chan s (goes i trying s)
  take :
      (i : ℕ) (lk : Sleeplock)
      → s.at i ≡ trying
      → acquiresleep chan i s.lock s.procs ≡ takes lk
      → Step chan s (record (goes i inside s) { lock = lk })
  sleep :
      (i : ℕ) (t : ProcTable)
      → s.at i ≡ trying
      → acquiresleep chan i s.lock s.procs ≡ sleeps t
      → Step chan s (record (goes i asleep s) { procs = t })
  -- It runs again, whoever woke it.
  resume : (i : ℕ) → s.at i ≡ asleep → waits chan i s.procs ≡ false → Step chan s (goes i trying s)
  release :
      (i now : ℕ)
      → s.at i ≡ inside
      → Step chan s (record (goes i outside s) {
        lock = (releasesleep now chan i s.procs).0;
        procs = (releasesleep now chan i s.procs).1;
      })
  -- Any change of the process table by others that puts no process to sleep on the lock and changes no
  -- pid of a process that uses it.
  other :
      (t : ProcTable)
      → ((i : ℕ) → waits chan i t ≡ true → waits chan i s.procs ≡ true)
      → ((i : ℕ) → s.at i ≢ outside → (t i).pid ≡ (s.procs i).pid)
      → Step chan s (record s { procs = t })

pub data Reachable (chan : ℕ) : System → Type 0 where
  begin :
      (t : ProcTable)
      → ((i : ℕ) → waits chan i t ≡ false)
      → Reachable chan (record { lock = initsleeplock; procs = t; at = λ _. outside })
  then_step : {s s' : System} → Reachable chan s → Step chan s s' → Reachable chan s'

pub record IsValid (chan : ℕ) (s : System) : Type 0 where
  pub alone : (i j : ℕ) → s.at i ≡ inside → s.at j ≡ inside → i ≡ j
  pub held : (i : ℕ) → s.at i ≡ inside → (s.lock.locked ≡ 1) × (s.lock.pid ≡ (s.procs i).pid)
  pub owned : s.lock.locked ≢ 0 → (i : ℕ) × (s.at i ≡ inside)
  pub asleep_lem : (i : ℕ) → waits chan i s.procs ≡ true → s.at i ≡ asleep
  pub no_lost_wakeup : (i : ℕ) → waits chan i s.procs ≡ true → s.lock.locked ≢ 0
  pub in_table : (i : ℕ) → s.at i ≢ outside → i < nproc

pub takes_inv :
    (chan me : ℕ) (lk lk' : Sleeplock) (t : ProcTable)
    → acquiresleep chan me lk t ≡ takes lk'
    → (lk.locked ≡ 0) × (lk' ≡ record { locked = 1; pid = (t me).pid })
unfolding acquiresleep
takes_inv chan me lk lk' t h = elim (Bool-cases (lk.locked == 0)) [
  | inl e ↦
      let h' : takes (record { locked = 1; pid = (t me).pid }) ≡ takes lk' =
        sym (rw (acquiresleep, e) refl) ∙ h in
      (ground arith, cc)
  | inr e ↦
      let h' : sleeps (sleep_enter chan me t) ≡ takes lk' = sym (rw (acquiresleep, e) refl) ∙ h in
      cc
]

pub sleeps_inv :
    (chan me : ℕ) (lk : Sleeplock) (t t' : ProcTable)
    → acquiresleep chan me lk t ≡ sleeps t'
    → (lk.locked ≢ 0) × (t' ≡ sleep_enter chan me t)
unfolding acquiresleep
sleeps_inv chan me lk t t' h = elim (Bool-cases (lk.locked == 0)) [
  | inl e ↦
      let h' : takes (record { locked = 1; pid = (t me).pid }) ≡ sleeps t' =
        sym (rw (acquiresleep, e) refl) ∙ h in
      cc
  | inr e ↦
      let h' : sleeps (sleep_enter chan me t) ≡ sleeps t' = sym (rw (acquiresleep, e) refl) ∙ h in
      (ground arith, cc)
]

-- Who is in a phase that process `i` has not moved to was there before.
pub goes_inv :
    (at : ℕ → Phase) (i : ℕ) (p q : Phase) (j : ℕ)
    → update at i p j ≡ q
    → p ≢ q
    → (j ≢ i) × (at j ≡ q)
goes_inv at i p q j h ne = elim (Bool-cases (i == j)) [
  | inl e ↦ absurd (ne (sym (rw e refl) ∙ h))
  | inr e ↦ (ground arith, sym (rw e refl) ∙ h)
]

pub goes_same :
    (at : ℕ → Phase) (i : ℕ) (p q : Phase) (j : ℕ) → at j ≡ q → at i ≢ q → update at i p j ≡ q
goes_same at i p q j h ne = elim (Bool-cases (i == j)) [
  | inl e ↦ let same : i ≡ j = ground arith in absurd (ne (ap at same ∙ h))
  | inr e ↦ rw e h
]

pub goes_in_table :
    (at : ℕ → Phase) (i : ℕ) (p : Phase)
    → i < nproc
    → ((j : ℕ) → at j ≢ outside → j < nproc)
    → (j : ℕ) → update at i p j ≢ outside
    → j < nproc
goes_in_table at i p lt h j ne = elim (Bool-cases (i == j)) [
  | inl e ↦ ground arith
  | inr e ↦ h j (λ o. ne (rw e o))
]

-- A process that does not hold the lock and does not sleep tries again.
pub retries :
    (chan : ℕ) (s : System) (i : ℕ)
    → i < nproc
    → s.at i ≢ inside
    → waits chan i s.procs ≡ false
    → IsValid chan s
    → IsValid chan (goes i trying s)
retries chan s i lt out awake v = record {
  alone = λ j k hj hk.
      v.alone j k (goes_inv s.at i trying inside j hj (λ c. cc)).1
        (goes_inv s.at i trying inside k hk (λ c. cc)).1;
  held = λ j hj. v.held j (goes_inv s.at i trying inside j hj (λ c. cc)).1;
  owned = λ ne. let (k, hk) = v.owned ne in (k, goes_same s.at i trying inside k hk out);
  asleep_lem = λ j w.
      let apart : j ≢ i =
        λ e. absurd (false≢true (sym awake ∙ ap (λ k. waits chan k s.procs) (sym e) ∙ w)) in
      update_ne s.at i trying j apart ∙ v.asleep_lem j w;
  no_lost_wakeup = v.no_lost_wakeup;
  in_table = goes_in_table s.at i trying lt v.in_table;
}
