-- ===== src/Calls.antt =====
-- src/kernel/sysproc.c: the system calls on processes and time. Each takes the slot of the caller. The alarm
-- calls are with the alarm.
use enhanced_xv.Base.{
  ℕ, ◌+◌, ◌%◌, Bool, true, false, not, Option, none, some, if◌then◌else◌, ◌==◌, ltb, find_first,
  update, add32, sub32, int_mod, int_half, int_lt, minus_one, ◌-◌,
}
use enhanced_xv.Proc.{Proc, ProcTable, ProcState, nproc, kill, yield, sleep_enter}
use enhanced_xv.Kernel.{Kernel, set_proc, argint}
use enhanced_xv.Life.{growproc}
use enhanced_xv.Vm.{word_mod}
pub mod Priority
pub mod Sleep

-- An `int` as the 64-bit result of a system call.
abbrev pub extend : ℕ → ℕ
extend n = if ltb n int_half then n else n + (word_mod - int_mod)

-- The writes of `sys_set_priority`.
abbrev pub with_priority : ℕ → Proc → Proc
with_priority priority p = record p { dynamic_priority = add32 priority 25; priority = priority }

-- `sys_set_priority()` up to the call of `sched()` in `yield`, which is made when the old priority is
-- the larger one.
pub sys_set_priority : ℕ → Kernel → ℕ × Kernel
sys_set_priority me k =
    let priority = argint 0 me k in
    let pid = argint 1 me k in
    elim (find_first (λ i. (k.procs i).pid == pid) nproc) [
      | none ↦ (extend minus_one, k)
      | some i ↦
          let old = (k.procs i).priority in
          let set = update k.procs i (with_priority priority (k.procs i)) in
          (extend old, record k { procs = if int_lt priority old then yield me set else set })
    ]

sys_getpid : ℕ → Kernel → ℕ
sys_getpid me k = extend (k.procs me).pid

sys_sbrk : ℕ → Kernel → Option (ℕ × Kernel)
sys_sbrk me k = elim (growproc me (argint 0 me k) k) [
  | none ↦ none
  | some (status, k') ↦ some (if int_lt status 0 then extend minus_one else (k.procs me).sz, k')
]

-- A turn of the loop of `sys_sleep`: it returns, or sleeps on `&ticks`.
pub data SleepTurn : Type 0 where
  returns : ℕ → SleepTurn
  waits : Kernel → SleepTurn

pub sleep_turn : ℕ → ℕ → ℕ → ℕ → Kernel → SleepTurn
sleep_turn chan ticks0 n me k =
    if ltb (sub32 k.ticks ticks0) n
    then (if (k.procs me).killed == 0
        then waits (record k { procs = sleep_enter chan me k.procs })
        else returns (extend minus_one))
    else returns 0

-- `sys_sleep()`, up to its first sleep.
sys_sleep : ℕ → ℕ → Kernel → SleepTurn
sys_sleep chan me k = sleep_turn chan k.ticks (argint 0 me k) me k

sys_kill : ℕ → Kernel → ℕ × Kernel
sys_kill me k =
    let (procs, status) = kill k.ticks (argint 0 me k) k.procs in
    (extend status, record k { procs = procs })

sys_uptime : Kernel → ℕ
sys_uptime k = k.ticks
