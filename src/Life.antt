-- ===== src/Life.antt =====
-- src/kernel/proc.c: the life of a process: `allocproc`, `freeproc`, its page table, `growproc`, `reparent`,
-- `exit`, `wait` and `waitx`. `none` is a panic or a null pointer read. The physical address of the
-- trampoline code, the slot of `initproc` and `copyout` of one word are parameters.
use enhanced_xv.Base.{
  ℕ, ◌+◌, ◌-◌, ◌*◌, ◌/◌, ◌%◌, ◌^◌, Bool, true, false, not, ◌&&◌, ◌||◌, Option, none, some,
  if◌then◌else◌, ◌==◌, ltb, leb, update, each, find_first, add32, sub32, int_mod, int_half,
  minus_one,
}
use enhanced_xv.Proc.{
  Proc, ProcTable, nproc, proc_ptr, wakeup, sleep_enter, pgsize, trampoline, is_unused, is_zombie,
  ProcState, unused, used, zombie, sleeping,
}
use enhanced_xv.Kalloc.{Kmem, kalloc, kfree}
use enhanced_xv.Kernel.{Kernel, set_proc}
use enhanced_xv.Vm.{word_mod, uvmcreate, mappages, uvmunmap, uvmdealloc}
use enhanced_xv.Vm.Space.{uvmfree, uvmalloc}
pub mod Reparent
pub mod Free
pub mod Wait
pub mod Fork

abbrev trapframe_va : ℕ
trapframe_va = trampoline - pgsize

-- `uvmfree(pagetable, 0); return 0;`
abbrev drop_table : ℕ → Kmem → Option (ℕ × Kmem)
drop_table pagetable m = elim (uvmfree pagetable 0 m) [ none ↦ none | some m1 ↦ some (0, m1) ]

-- The second mapping of `proc_pagetable`: PTE_R | PTE_W.
abbrev map_trapframe : ℕ → ℕ → Kmem → Option (ℕ × Kmem)
map_trapframe pagetable trapframe m = elim (mappages pagetable trapframe_va pgsize trapframe 6 m) [
  | none ↦ none
  | some (status, m1) ↦
      if status == 0
      then some (pagetable, m1)
      else elim (uvmunmap pagetable trampoline 1 false m1) [
        | none ↦ none
        | some m2 ↦ drop_table pagetable m2
      ]
]

-- `proc_pagetable(p)`; the first mapping has PTE_R | PTE_X.
proc_pagetable : ℕ → ℕ → Kmem → Option (ℕ × Kmem)
proc_pagetable code trapframe m =
    let (pagetable, m1) = uvmcreate m in
    if pagetable == 0
    then some (0, m1)
    else elim (mappages pagetable trampoline pgsize code 10 m1) [
      | none ↦ none
      | some (status, m2) ↦
          if status == 0 then map_trapframe pagetable trapframe m2 else drop_table pagetable m2
    ]

pub proc_freepagetable : ℕ → ℕ → Kmem → Option Kmem
proc_freepagetable pagetable sz m = elim (uvmunmap pagetable trampoline 1 false m) [
  | none ↦ none
  | some m1 ↦ elim (uvmunmap pagetable trapframe_va 1 false m1) [
    | none ↦ none
    | some m2 ↦ uvmfree pagetable sz m2
  ]
]

-- The fields that `freeproc` writes.
abbrev pub cleared : ℕ → Proc → Proc
cleared now p = record p {
  trapframe = 0;
  pagetable = 0;
  sz = 0;
  pid = 0;
  parent = 0;
  chan = 0;
  killed = 0;
  xstate = 0;
  state = unused;
  tick_ctr = 0;
  ticks = 0;
  handler = 0;
  sigalarm = 0;
  interval = minus_one;
  current_ticks = 0;
  curr_queue = minus_one;
  prev_queue = minus_one;
  time_wait = 0;
  time_run_queue = 0;
  queue_level = 0;
  last_exec = now;
  wait_time = 0;
  run_time = 0;
  priority = 0;
  dynamic_priority = 0;
  sleep_time = 0;
  num_shed = 0;
}

unfoldable pub freeproc : ℕ → Kernel → Option Kernel
freeproc i k =
    let p = k.procs i in
    let m1 = if p.trapframe == 0 then k.mem else kfree p.trapframe k.mem in
    let freed : Option Kmem =
      if p.pagetable == 0 then some m1 else proc_freepagetable p.pagetable p.sz m1 in
    elim freed [
      | none ↦ none
      | some m2 ↦ some (record (set_proc i (cleared k.ticks p) k) { mem = m2 })
    ]

-- The fields that `allocproc` writes under `found`, and again at its end.
abbrev scheduling_start : ℕ → Proc → Proc
scheduling_start now p = record p {
  tick_ctr = 0;
  queue_level = 0;
  last_exec = now;
  ticks = 0;
  handler = 0;
  sigalarm = 0;
  interval = minus_one;
  current_ticks = 0;
  curr_queue = minus_one;
  prev_queue = minus_one;
  time_wait = 0;
  time_run_queue = 0;
  wait_time = 0;
  run_time = 0;
  priority = 50;
  dynamic_priority = 0;
  sleep_time = 0;
  num_shed = 0;
}

-- What `allocproc` returns: a slot pointer or 0, the next pid, and the state.
abbrev pub Allocated : Type 0
Allocated = ℕ × ℕ × Kernel

abbrev pub give_back : ℕ → ℕ → Kernel → Option Allocated
give_back i nextpid k = elim (freeproc i k) [ none ↦ none | some k' ↦ some (0, nextpid, k') ]

-- `allocproc` from `found` on, for slot `i`.
pub found : ℕ → ℕ → ℕ → Kernel → Option Allocated
found code i nextpid k =
    let p0 = scheduling_start k.ticks (record (k.procs i) { pid = nextpid; state = used }) in
    let (trapframe, m1) = kalloc k.mem in
    let p1 = record p0 { trapframe = trapframe } in
    let k1 = record (set_proc i p1 k) { mem = m1 } in
    let next = add32 nextpid 1 in
    let mapped : Option Allocated = elim (proc_pagetable code trapframe m1) [
      | none ↦ none
      | some (pagetable, m2) ↦
          let p2 = record p1 { pagetable = pagetable } in
          let k2 = record (set_proc i p2 k) { mem = m2 } in
          let p3 = scheduling_start k.ticks (record p2 { rtime = 0; etime = 0; ctime = k.ticks }) in
          if pagetable == 0
          then give_back i next k2
          else some (proc_ptr i, next, record (set_proc i p3 k) { mem = m2 })
    ] in
    if trapframe == 0 then give_back i next k1 else mapped

-- `allocproc()`: the second scan repeats the first.
pub allocproc : ℕ → ℕ → Kernel → Option Allocated
allocproc code nextpid k = elim (find_first (λ i. is_unused (k.procs i).state) nproc) [
  | some i ↦ found code i nextpid k
  | none ↦ some (0, nextpid, k)
]

-- `sz + n` for a 64-bit size and an `int`.
abbrev add_int : ℕ → ℕ → ℕ
add_int sz n =
    if ltb n int_half then (sz + n) % word_mod else (sz + (word_mod - (int_mod - n))) % word_mod

-- `growproc(n)`: PTE_W for new pages.
pub growproc : ℕ → ℕ → Kernel → Option (ℕ × Kernel)
growproc i n k =
    let p = k.procs i in
    if n == 0
    then some (0, set_proc i p k)
    else if ltb n int_half
    then elim (uvmalloc p.pagetable p.sz (add_int p.sz n) 4 k.mem) [
      | none ↦ none
      | some (sz, m) ↦
          if sz == 0
          then some (minus_one, record k { mem = m })
          else some (0, record (set_proc i (record p { sz = sz }) k) { mem = m })
    ]
    else elim (uvmdealloc p.pagetable p.sz (add_int p.sz n) k.mem) [
      | none ↦ none
      | some (sz, m) ↦ some (0, record (set_proc i (record p { sz = sz }) k) { mem = m })
    ]

abbrev pub adopt : ℕ → ℕ → ℕ → ℕ → ℕ → ProcTable → ProcTable
adopt now me init p j t =
    if (t j).parent == p
    then wakeup now me init (update t j (record (t j) { parent = init }))
    else t

-- `reparent(p)`, with `init` the pointer `initproc`.
pub reparent : ℕ → ℕ → ℕ → ℕ → ProcTable → ProcTable
reparent now me init p = each (adopt now me init p) nproc

-- `exit(status)` of the process in slot `i`, from the point where its files and its directory are closed.
pub finish_exit : ℕ → ℕ → ℕ → ℕ → ProcTable → ProcTable
finish_exit now init i status t =
    let t1 = reparent now (proc_ptr i) init (proc_ptr i) t in
    let t2 = wakeup now (proc_ptr i) (t1 i).parent t1 in
    update t2 i (record (t2 i) { xstate = status; state = zombie; etime = now })

-- A turn of the loop of `wait` and `waitx`: it returns a pid with `*wtime` and `*rtime`; it returns -1 with the two
-- times set; it returns -1; or it sleeps.
pub data Turn : Type 0 where
  reaped : ℕ → ℕ → ℕ → Kernel → Turn
  unreported : ℕ → ℕ → Turn
  refused : Turn
  sleeps : Kernel → Turn

abbrev pub is_child : ℕ → ProcTable → ℕ → Bool
is_child me t j = (t j).parent == proc_ptr me

abbrev pub is_exited : ℕ → ProcTable → ℕ → Bool
is_exited me t j = is_child me t j && is_zombie (t j).state

-- `*wtime` for the child `p`; `*rtime` is `p.rtime`.
abbrev pub waited : Proc → ℕ
waited p = sub32 (sub32 p.etime p.ctime) p.rtime

-- `return pid` once the child is freed.
abbrev pub report : Proc → Option Kernel → Option Turn
report p none = none
report p (some k) = some (reaped p.pid (waited p) p.rtime k)

-- The times are set before the `copyout`, and stay when it fails.
abbrev pub free_child : ℕ → Kernel → Option Kmem → Option Turn
free_child j k none = some (unreported (waited (k.procs j)) (k.procs j).rtime)
free_child j k (some m) = report (k.procs j) (freeproc j (record k { mem = m }))

-- The child in slot `j` is a zombie.
unfoldable pub reap : (ℕ → ℕ → Kmem → Option Kmem) → ℕ → ℕ → Kernel → Option Turn
reap copyout addr j k =
    free_child j k (if addr == 0 then some k.mem else copyout addr (k.procs j).xstate k.mem)

-- `waitx(addr, wtime, rtime)`, called by the process in slot `me`.
pub waitx : (ℕ → ℕ → Kmem → Option Kmem) → ℕ → ℕ → Kernel → Option Turn
waitx copyout addr me k = elim (find_first (is_exited me k.procs) nproc) [
  | some j ↦ reap copyout addr j k
  | none ↦ elim (find_first (is_child me k.procs) nproc) [
    | none ↦ some refused
    | some j ↦
        if (k.procs me).killed == 0
        then some (sleeps (record k { procs = sleep_enter (proc_ptr me) me k.procs }))
        else some refused
  ]
]

-- `wait(addr)`: the same turn, without the two times.
abbrev pub wait : (ℕ → ℕ → Kmem → Option Kmem) → ℕ → ℕ → Kernel → Option Turn
wait = waitx
