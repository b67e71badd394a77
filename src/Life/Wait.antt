-- ===== src/Life/Wait.antt =====
-- `wait` and `waitx` (src/kernel/proc.c).
use enhanced_xv.Base.{
  ℕ, ◌<◌, ◌≡◌, ◌≢◌, sym, true, false, none, some, Option, if◌then◌else◌, ◌==◌, arith, find_first,
  find_first-some, find_first-none, inl, inr, ◌⊎◌, Option-cases, add32, sub32, int_mod, Bool-cases,
  refl,
}
use enhanced_xv.Proc.{Proc, nproc, proc_ptr, sleep_enter}
use enhanced_xv.Kalloc.{Kmem}
use enhanced_xv.Kernel.{Kernel}
use enhanced_xv.Life.{
  Turn, reaped, refused, unreported, sleeps, is_child, is_exited, freeproc, reap, waitx, report,
  free_child,
}
use enhanced_xv.Life.Free.{IsFreed, freeproc-IsFreed_memory}

-- The memory once the exit status is copied out; with address 0 it is not.
pub data Reported (copyout : ℕ → ℕ → Kmem → Option Kmem) (addr status : ℕ) (m m' : Kmem)
    : Type 0 where
  not_asked : addr ≡ 0 → m' ≡ m → Reported copyout addr status m m'
  copied_out : addr ≢ 0 → copyout addr status m ≡ some m' → Reported copyout addr status m m'

-- The first child that has exited.
pub record IsFirst (me j : ℕ) (k : Kernel) : Type 0 where
  pub in_table : j < nproc
  pub exited : is_exited me k.procs j ≡ true
  pub before : (i : ℕ) → i < j → is_exited me k.procs i ≡ false

-- Which of its cases a turn of `waitx` is in. There is a first child that has exited: its slot is freed and its pid
-- returned, with its running time and the rest of the time from its creation to its exit; or its status
-- cannot be copied out; or `freeproc` panics. Or no child has exited, and the caller has no child or was
-- killed; or it has one and sleeps on itself.
pub data WaitSpec (copyout : ℕ → ℕ → Kmem → Option Kmem) (addr me : ℕ) (k : Kernel)
    : Option Turn → Type 0 where
  reaps :
      (j : ℕ) (m : Kmem) (k' : Kernel)
      → IsFirst me j k
      → Reported copyout addr (k.procs j).xstate k.mem m
      → freeproc j (record k { mem = m }) ≡ some k'
      → IsFreed j k k'
      → WaitSpec copyout addr me k (
          some (
            reaped
              (k.procs j).pid
              (sub32 (sub32 (k.procs j).etime (k.procs j).ctime) (k.procs j).rtime)
              (k.procs j).rtime
              k'))
  cannot_report :
      (j : ℕ)
      → IsFirst me j k
      → addr ≢ 0
      → copyout addr (k.procs j).xstate k.mem ≡ none
      → WaitSpec copyout addr me k (
          some (
            unreported
              (sub32 (sub32 (k.procs j).etime (k.procs j).ctime) (k.procs j).rtime)
              (k.procs j).rtime))
  cannot_free :
      (j : ℕ) (m : Kmem)
      → IsFirst me j k
      → Reported copyout addr (k.procs j).xstate k.mem m
      → freeproc j (record k { mem = m }) ≡ none
      → WaitSpec copyout addr me k none
  gives_up :
      ((i : ℕ) → i < nproc → is_exited me k.procs i ≡ false)
      → ((k.procs me).killed ≢ 0) ⊎ ((i : ℕ) → i < nproc → is_child me k.procs i ≡ false)
      → WaitSpec copyout addr me k (some refused)
  naps :
      (j : ℕ)
      → j < nproc
      → is_child me k.procs j ≡ true
      → ((i : ℕ) → i < nproc → is_exited me k.procs i ≡ false)
      → (k.procs me).killed ≡ 0
      → WaitSpec copyout addr me k
          (some (sleeps (record k { procs = sleep_enter (proc_ptr me) me k.procs })))

-- A child that has exited, once its status is copied out.
frees :
    (copyout : ℕ → ℕ → Kmem → Option Kmem) (addr me j : ℕ) (k : Kernel) (m : Kmem)
    → IsFirst me j k
    → Reported copyout addr (k.procs j).xstate k.mem m
    → WaitSpec copyout addr me k (free_child j k (some m))
frees copyout addr me j k m first told = elim (Option-cases (freeproc j (record k { mem = m }))) [
  | inl e ↦ rw e (cannot_free j m first told e)
  | inr (k', e) ↦ rw e (reaps j m k' first told e (freeproc-IsFreed_memory j k k' m e))
]

reap_lem :
    (copyout : ℕ → ℕ → Kmem → Option Kmem) (addr me j : ℕ) (k : Kernel)
    → IsFirst me j k
    → WaitSpec copyout addr me k (reap copyout addr j k)
unfolding reap
reap_lem copyout addr me j k first = elim (Bool-cases (addr == 0)) [
  | inl e ↦ rw (reap, e) (frees copyout addr me j k k.mem first (not_asked (ground arith) refl))
  | inr e ↦
      let asked : addr ≢ 0 = ground arith in
      elim (Option-cases (copyout addr (k.procs j).xstate k.mem)) [
        | inl f ↦ rw (reap, e, f) (cannot_report j first asked f)
        | inr (m, f) ↦ rw (reap, e, f) (frees copyout addr me j k m first (copied_out asked f))
      ]
]

-- A turn of `waitx` takes the first child that has exited. Unless its exit status is to be copied out and
-- `copyout` fails, or `freeproc` panics, it frees that child's slot and no other and returns its pid, with its
-- running time and the ticks from its creation to its exit less those, on 32 bits; when `copyout` fails it
-- returns -1 with these times set. With no child that has exited it returns -1 if the caller has
-- no child or was killed, and sleeps on itself otherwise.
pub waitx_lem :
    (copyout : ℕ → ℕ → Kmem → Option Kmem) (addr me : ℕ) (k : Kernel)
    → WaitSpec copyout addr me k (waitx copyout addr me k)
unfolding waitx
waitx_lem copyout addr me k = elim (Option-cases (find_first (is_exited me k.procs) nproc)) [
  | inr (j, e) ↦
      let (lt, is, before) = find_first-some (is_exited me k.procs) nproc j e in
      rw (waitx, e)
        (reap_lem copyout addr me j k (record { in_table = lt; exited = is; before = before }))
  | inl e ↦
      let no_exit = find_first-none (is_exited me k.procs) nproc e in
      elim (Option-cases (find_first (is_child me k.procs) nproc)) [
        | inl e' ↦
            rw (waitx, e, e')
              (gives_up no_exit (inr (find_first-none (is_child me k.procs) nproc e')))
        | inr (j, e') ↦
            let (lt, is, before) = find_first-some (is_child me k.procs) nproc j e' in
            elim (Bool-cases ((k.procs me).killed == 0)) [
              | inl alive ↦ rw (waitx, e, e', alive) (naps j lt is no_exit (ground arith))
              | inr killed ↦ rw (waitx, e, e', killed) (gives_up no_exit (inl (ground arith)))
            ]
      ]
]

report-times :
    (p : Proc) (freed : Option Kernel) (pid wtime rtime : ℕ) (k' : Kernel)
    → p.rtime < int_mod
    → p.ctime < int_mod
    → p.etime < int_mod
    → report p freed ≡ some (reaped pid wtime rtime k')
    → (pid ≡ p.pid) × (add32 wtime rtime ≡ sub32 p.etime p.ctime)
report-times p none pid wtime rtime k' hr hc he h = cc
report-times p (some k) pid wtime rtime k' hr hc he h =
    let pid_lem : p.pid ≡ pid = cc in
    let run : p.rtime ≡ rtime = cc in
    let waited : sub32 (sub32 p.etime p.ctime) p.rtime ≡ wtime = cc in
    (sym pid_lem, rw (← waited, ← run) (omega arith))

free_child-times :
    (j pid wtime rtime : ℕ) (k k' : Kernel) (m : Option Kmem)
    → (k.procs j).rtime < int_mod
    → (k.procs j).ctime < int_mod
    → (k.procs j).etime < int_mod
    → free_child j k m ≡ some (reaped pid wtime rtime k')
    → (pid ≡ (k.procs j).pid) × (add32 wtime rtime ≡ sub32 (k.procs j).etime (k.procs j).ctime)
free_child-times j pid wtime rtime k k' none hr hc he h = cc
free_child-times j pid wtime rtime k k' (some m) hr hc he h =
    report-times (k.procs j) (freeproc j (record k { mem = m })) pid wtime rtime k' hr hc he h

-- The two times that `waitx` reports for a child add up to its life from creation to exit, on 32 bits.
pub reap-times :
    (copyout : ℕ → ℕ → Kmem → Option Kmem) (addr j pid wtime rtime : ℕ) (k k' : Kernel)
    → (k.procs j).rtime < int_mod
    → (k.procs j).ctime < int_mod
    → (k.procs j).etime < int_mod
    → reap copyout addr j k ≡ some (reaped pid wtime rtime k')
    → (pid ≡ (k.procs j).pid) × (add32 wtime rtime ≡ sub32 (k.procs j).etime (k.procs j).ctime)
unfolding reap
reap-times copyout addr j pid wtime rtime k k' hr hc he h =
    free_child-times j pid wtime rtime k k'
      (if addr == 0 then some k.mem else copyout addr (k.procs j).xstate k.mem) hr hc he h
