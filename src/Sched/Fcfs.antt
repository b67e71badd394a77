-- ===== src/Sched/Fcfs.antt =====
-- src/kernel/proc.c, `sched_fcfs`: the runnable process that was created first.
pub mod Choice
use enhanced_xv.Base.{ℕ, Bool, Option, none, some, ltb, update, select}
use enhanced_xv.Proc.{Proc, ProcTable, running, is_runnable, nproc}

-- The tests of the loop body on a process.
abbrev pub can_run : Proc → Bool
can_run p = is_runnable p.state

abbrev pub earlier : Proc → Proc → Bool
earlier p selected = ltb p.ctime selected.ctime

-- The loop, started at the value `init` of `c->proc`.
pub fcfs_select : Option ℕ → ProcTable → Option ℕ
fcfs_select init t = select can_run earlier t init nproc

-- What runs next on this CPU: `c->proc` at the switch, and the table then.
abbrev pub dispatch : Option ℕ → ProcTable → Option ℕ × ProcTable
dispatch none t = (none, t)
dispatch (some i) t = (some i, update t i (record (t i) { state = running }))

pub sched_fcfs : Option ℕ → ProcTable → Option ℕ × ProcTable
sched_fcfs init t = dispatch (fcfs_select init t) t
