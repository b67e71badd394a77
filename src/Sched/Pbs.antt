-- ===== src/Sched/Pbs.antt =====
-- src/kernel/proc.c, `sched_pbs`: the runnable process with the least dynamic priority. The loop keeps the
-- lock of the selected process, so no other CPU changes that process before it runs.
pub mod Choice
pub mod Runs
pub mod Range
use enhanced_xv.Base.{
  ℕ, ◌+◌, Bool, ◌&&◌, ◌||◌, Option, none, some, if◌then◌else◌, ltb, int_eq, int_lt, int_half, leb,
  add32, sub32, mul32, int_div, update, each, consider,
}
use enhanced_xv.Proc.{Proc, ProcTable, running, is_runnable, nproc}
use enhanced_xv.Sched.Fcfs.{can_run}

-- (3*RT - WT - ST) * 50 / (RT + WT + ST + 1), on `int`s.
abbrev behaviour : Proc → ℕ
behaviour p =
    int_div (mul32 (sub32 (sub32 (mul32 3 p.run_time) p.wait_time) p.sleep_time) 50)
      (add32 (add32 (add32 p.run_time p.wait_time) p.sleep_time) 1)

abbrev pub at_least_zero : ℕ → ℕ
at_least_zero d = if int_lt d 0 then 0 else d

abbrev pub at_most_100 : ℕ → ℕ
at_most_100 d = if int_lt 100 d then 100 else d

unfoldable pub dynamic_priority_of : Proc → ℕ
dynamic_priority_of p = at_most_100 (add32 (at_least_zero (behaviour p)) p.priority)

abbrev pub refresh : Proc → Proc
refresh p = record p { dynamic_priority = dynamic_priority_of p }

-- The three tests of the loop, in their order.
abbrev pub preferred : Proc → Proc → Bool
preferred p s =
    int_lt p.dynamic_priority s.dynamic_priority
    || int_eq p.dynamic_priority s.dynamic_priority && int_lt p.num_shed s.num_shed
    || int_eq p.dynamic_priority s.dynamic_priority
      && int_eq p.num_shed s.num_shed
      && ltb p.ctime s.ctime

-- The body of the loop, with `selected`.
abbrev pub scan_entry : ℕ → ProcTable × Option ℕ → ProcTable × Option ℕ
scan_entry i (t, selected) =
    if is_runnable (t i).state
    then (let u = update t i (refresh (t i)) in (u, consider can_run preferred u i selected))
    else (t, selected)

pub scan : ℕ → Option ℕ → ProcTable → ProcTable × Option ℕ
scan n init t = each scan_entry n (t, init)

-- What `sched_pbs` writes to the selected process before the switch.
abbrev pub start_run : Proc → Proc
start_run p = record p {
  state = running;
  run_time = 0;
  wait_time = 0;
  sleep_time = 0;
  num_shed = add32 p.num_shed 1;
}

abbrev pub dispatch : ProcTable × Option ℕ → Option ℕ × ProcTable
dispatch (t, none) = (none, t)
dispatch (t, some i) = (some i, update t i (start_run (t i)))

pub sched_pbs : Option ℕ → ProcTable → Option ℕ × ProcTable
sched_pbs init t = dispatch (scan nproc init t)
