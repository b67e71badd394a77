-- ===== src/Life/Free.antt =====
-- What `freeproc` leaves of a slot (src/kernel/proc.c).
use enhanced_xv.Base.{
  ℕ, ◌≡◌, ◌≢◌, Option, none, some, some_inj, ap, update, update_self, update_ne, if◌then◌else◌,
  ◌==◌, subst,
}
use enhanced_xv.Proc.{Proc, unused}
use enhanced_xv.Kalloc.{Kmem, kfree}
use enhanced_xv.Kernel.{Kernel, set_proc}
use enhanced_xv.Life.{cleared, proc_freepagetable, freeproc}

-- Slot `j` is free, and no other slot is changed.
pub record IsFreed (j : ℕ) (k k' : Kernel) : Type 0 where
  pub is_free : (k'.procs j).state ≡ unused
  pub no_pid : (k'.procs j).pid ≡ 0
  pub no_parent : (k'.procs j).parent ≡ 0
  pub no_frame : (k'.procs j).trapframe ≡ 0
  pub no_table : (k'.procs j).pagetable ≡ 0
  pub others : (i : ℕ) → i ≢ j → k'.procs i ≡ k.procs i

cleared-IsFreed :
    (j : ℕ) (k : Kernel) (m : Kmem)
    → IsFreed j k (record (set_proc j (cleared k.ticks (k.procs j)) k) { mem = m })
cleared-IsFreed j k m =
    let c : Proc = cleared k.ticks (k.procs j) in
    let self : update k.procs j c j ≡ c = update_self k.procs j c in
    record {
      is_free = ap (λ p. p.state) self;
      no_pid = ap (λ p. p.pid) self;
      no_parent = ap (λ p. p.parent) self;
      no_frame = ap (λ p. p.trapframe) self;
      no_table = ap (λ p. p.pagetable) self;
      others = λ i ne. update_ne k.procs j c i ne;
    }

given_back :
    (j : ℕ) (k k' : Kernel) (freed : Option Kmem)
    → (elim freed [
      | none ↦ none
      | some m ↦ some (record (set_proc j (cleared k.ticks (k.procs j)) k) { mem = m })
    ])
      ≡ some k'
    → IsFreed j k k'
given_back j k k' none h = cc
given_back j k k' (some m) h = subst (IsFreed j k) (some_inj h) (cleared-IsFreed j k m)

pub freeproc-IsFreed : (j : ℕ) (k k' : Kernel) → freeproc j k ≡ some k' → IsFreed j k k'
unfolding freeproc
freeproc-IsFreed j k k' h =
    let p : Proc = k.procs j in
    let m1 : Kmem = if p.trapframe == 0 then k.mem else kfree p.trapframe k.mem in
    given_back j k k' (if p.pagetable == 0 then some m1 else proc_freepagetable p.pagetable p.sz m1)
      h

-- The memory changes before `freeproc` do not count.
pub freeproc-IsFreed_memory :
    (j : ℕ) (k k' : Kernel) (m : Kmem)
    → freeproc j (record k { mem = m }) ≡ some k'
    → IsFreed j k k'
freeproc-IsFreed_memory j k k' m h =
    let f = freeproc-IsFreed j (record k { mem = m }) k' h in
    record {
      is_free = f.is_free;
      no_pid = f.no_pid;
      no_parent = f.no_parent;
      no_frame = f.no_frame;
      no_table = f.no_table;
      others = f.others;
    }
