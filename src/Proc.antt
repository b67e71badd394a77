-- ===== src/Proc.antt =====
-- src/kernel/proc.h and src/kernel/proc.c: the process table and the operations that change one field of it
-- at a time. The table is a function from the index; `&proc[i]` is the number `i + 1`, and 0 is the
-- null pointer. Each loop body of the source runs under `p->lock`, and is one step here.
use enhanced_xv.Base.{
  ℕ, ◌+◌, ◌-◌, ◌*◌, ◌^◌, Bool, true, false, ◌&&◌, none, some, if◌then◌else◌, ◌==◌, update,
  each_entry, find_first, add32, minus_one,
}
pub mod Wake
pub mod Kill

-- `enum procstate`
pub data ProcState : Type 0 where
  unused used sleeping runnable running zombie : ProcState

abbrev pub is_unused : ProcState → Bool
is_unused unused = true
is_unused _ = false

abbrev pub is_sleeping : ProcState → Bool
is_sleeping sleeping = true
is_sleeping _ = false

abbrev pub is_runnable : ProcState → Bool
is_runnable runnable = true
is_runnable _ = false

abbrev pub is_running : ProcState → Bool
is_running running = true
is_running _ = false

abbrev pub is_zombie : ProcState → Bool
is_zombie zombie = true
is_zombie _ = false

-- `struct proc`, without `lock`, `context`, `ofile`, `cwd`, `name`, and the two fields that nothing
-- reads (`cpy_trapframe`, `read_count`). An `int` or `uint` field is its 32-bit pattern.
pub record Proc : Type 0 where
  pub state : ProcState
  pub chan : ℕ
  pub killed : ℕ
  pub xstate : ℕ
  pub pid : ℕ
  pub parent : ℕ
  pub kstack : ℕ
  pub sz : ℕ
  pub pagetable : ℕ
  pub trapframe : ℕ
  pub rtime : ℕ
  pub ctime : ℕ
  pub etime : ℕ
  pub ticks : ℕ
  pub current_ticks : ℕ
  pub sigalarm : ℕ
  pub handler : ℕ
  pub interval : ℕ
  pub curr_queue : ℕ
  pub prev_queue : ℕ
  pub time_wait : ℕ
  pub time_run_queue : ℕ
  pub tick_ctr : ℕ
  pub queue_level : ℕ
  pub last_exec : ℕ
  pub in_time : ℕ
  pub run_time : ℕ
  pub wait_time : ℕ
  pub sleep_time : ℕ
  pub priority : ℕ
  pub dynamic_priority : ℕ
  pub num_shed : ℕ

abbrev pub ProcTable : Type 0
ProcTable = ℕ → Proc

-- NPROC
abbrev pub nproc : ℕ
nproc = 64

abbrev pub proc_ptr : ℕ → ℕ
proc_ptr i = i + 1

-- The body of `wakeup` for a process that sleeps on `chan`.
abbrev pub make_ready : ℕ → Proc → Proc
make_ready now p = record p { state = runnable; last_exec = now; tick_ctr = 0; in_time = now }

abbrev pub wake_entry : ℕ → ℕ → ℕ → ℕ → Proc → Proc
wake_entry now me chan i p =
    if proc_ptr i == me
    then p
    else if is_sleeping p.state && p.chan == chan
    then make_ready now p
    else p

-- `wakeup(chan)`, called while `me` is `myproc()` and `now` is `ticks`.
pub wakeup : ℕ → ℕ → ℕ → ProcTable → ProcTable
wakeup now me chan = each_entry (wake_entry now me chan) nproc

abbrev pub kill_entry : ℕ → Proc → Proc
kill_entry now p =
    let q = record p { killed = 1 } in if is_sleeping p.state then make_ready now q else q

-- `kill(pid)`: the table after it, and what it returns.
pub kill : ℕ → ℕ → ProcTable → ProcTable × ℕ
kill now pid t = elim (find_first (λ i. (t i).pid == pid) nproc) [
  | some i ↦ (update t i (kill_entry now (t i)), 0)
  | none ↦ (t, minus_one)
]

setkilled : ℕ → ProcTable → ProcTable
setkilled i t = update t i (record (t i) { killed = 1 })

-- `yield()`, up to its call of `sched()`.
unfoldable pub yield : ℕ → ProcTable → ProcTable
yield i t = update t i (record (t i) { state = runnable })

-- `sleep(chan, lk)`, up to its call of `sched()`, and after it.
pub sleep_enter : ℕ → ℕ → ProcTable → ProcTable
sleep_enter chan i t = update t i (record (t i) { chan = chan; state = sleeping })

sleep_leave : ℕ → ProcTable → ProcTable
sleep_leave i t = update t i (record (t i) { chan = 0 })

abbrev pub count_running : ℕ → Proc → Proc
count_running _ p = if is_running p.state then record p { rtime = add32 p.rtime 1 } else p

unfoldable pub update_time : ProcTable → ProcTable
update_time = each_entry count_running nproc

-- KSTACK(i): two pages for each process, counted down from the trampoline, the last page below MAXVA.
abbrev pub pgsize : ℕ
pgsize = 4096

abbrev pub maxva : ℕ
maxva = 2 ^ 38

abbrev pub trampoline : ℕ
trampoline = maxva - pgsize

abbrev kstack_of : ℕ → ℕ
kstack_of i = trampoline - (i + 1) * 2 * pgsize

pub procinit : ProcTable → ProcTable
procinit = each_entry (λ i p. record p { state = unused; kstack = kstack_of i }) nproc
