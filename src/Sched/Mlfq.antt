-- ===== src/Sched/Mlfq.antt =====
-- src/kernel/proc.c, `mlfq_yield` and `sched_mlfq`: a feedback queue of levels 0 to 3, 0 the most urgent.
pub mod Aging
pub mod Choice
pub mod Quantum
pub mod Outcome
pub mod Yield
pub mod Overrun
use enhanced_xv.Base.{
  ℕ, suc, ◌+◌, ◌^◌, Bool, true, false, ◌&&◌, ◌||◌, Option, none, some, List, [], ◌∷◌, if◌then◌else◌,
  ltb, int_eq, int_lt, int_le, add32, sub32, update, each, select, get_elem?,
}
use enhanced_xv.Proc.{Proc, ProcTable, running, is_runnable, nproc, yield}
use enhanced_xv.Sched.Fcfs.{can_run, dispatch}

abbrev pub ticklim : List ℕ
ticklim = 1 ∷ 3 ∷ 9 ∷ 15 ∷ []

abbrev pub numq : ℕ
numq = 4

-- A process that waited for more than 30 ticks goes up one level. `ticks` is unsigned, and so is the
-- difference.
abbrev pub has_aged : ℕ → Proc → Bool
has_aged now p = int_lt 0 p.queue_level && ltb 30 (sub32 now p.last_exec)

abbrev pub age : ℕ → Proc → Proc
age now p =
    if has_aged now p
    then record p { last_exec = now; in_time = now; queue_level = sub32 p.queue_level 1 }
    else p

-- The body of the loop of `mlfq_yield`, with the counter `ti`.
abbrev pub scan_entry : ℕ → ℕ → ℕ → ProcTable × ℕ → ProcTable × ℕ
scan_entry now me i (t, ti) =
    if is_runnable (t i).state
    then (let u = update t i (age now (t i)) in
        (u, if int_lt (u i).queue_level (u me).queue_level then add32 ti 1 else ti))
    else (t, ti)

pub scan : ℕ → ℕ → ℕ → ProcTable → ProcTable × ℕ
scan now me n t = each (scan_entry now me) n (t, 0)

abbrev pub tick : Proc → Proc
tick p = record p { tick_ctr = add32 p.tick_ctr 1 }

abbrev pub demote : ℕ → Proc → Proc
demote now p = record p {
  tick_ctr = 0;
  in_time = now;
  queue_level = if int_lt p.queue_level numq then add32 p.queue_level 1 else p.queue_level;
}

abbrev pub requeue : ℕ → Proc → Proc
requeue now p = record p { tick_ctr = 0; in_time = now }

-- The code after the loop. The Boolean says whether it calls `yield`; `none` is a read outside of
-- `ticklim`.
abbrev pub decide_yield : ℕ → ℕ → ProcTable × ℕ → Option (ProcTable × Bool)
decide_yield now me (t, ti) = elim (get_elem? ticklim (t me).queue_level) [
  | none ↦ none
  | some limit ↦ some (
      if int_le limit (t me).tick_ctr
      then (yield me (update t me (demote now (t me))), true)
      else if int_lt 0 ti
      then (yield me (update t me (requeue now (t me))), true)
      else (t, false))
]

pub mlfq_yield : ℕ → ℕ → ProcTable → Option (ProcTable × Bool)
mlfq_yield now me t = decide_yield now me (scan now me nproc (update t me (tick (t me))))

-- The lower level wins, and on one level the earlier arrival.
abbrev pub more_urgent : Proc → Proc → Bool
more_urgent p selected =
    int_lt p.queue_level selected.queue_level
    || int_eq p.queue_level selected.queue_level && int_lt p.in_time selected.in_time

pub mlfq_select : ProcTable → Option ℕ
mlfq_select t = select can_run more_urgent t none nproc

pub sched_mlfq : ProcTable → Option ℕ × ProcTable
sched_mlfq t = dispatch (mlfq_select t) t
