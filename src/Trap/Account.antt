-- ===== src/Trap/Account.antt =====
-- What a clock interrupt adds to the counters of a process (src/kernel/trap.c, src/kernel/proc.c).
use enhanced_xv.Base.{ℕ, ◌<◌, ◌≡◌, refl, ◌∙◌, true, ltb, arith, each_entry_lem, add32, int_mod}
use enhanced_xv.Proc.{
  Proc, ProcState, unused, used, sleeping, runnable, running, zombie, nproc, update_time,
  wake_entry, count_running,
}
use enhanced_xv.Proc.Wake.{wakeup_lem}
use enhanced_xv.Kernel.{Kernel}
use enhanced_xv.Trap.{charge, clockintr}

-- One for a process in that state, and 0 for any other.
abbrev running_share : ProcState → ℕ
running_share running = 1
running_share _ = 0

abbrev sleeping_share : ProcState → ℕ
sleeping_share sleeping = 1
sleeping_share _ = 0

abbrev runnable_share : ProcState → ℕ
runnable_share runnable = 1
runnable_share _ = 0

-- What the counters of a process are after an interrupt, by the state it was in.
pub record Charged (p q : Proc) : Type 0 where
  pub rtime_lem : q.rtime ≡ add32 p.rtime (running_share p.state)
  pub run_time_lem : q.run_time ≡ add32 p.run_time (running_share p.state)
  pub wait_time_lem : q.wait_time ≡ add32 p.wait_time (sleeping_share p.state)
  pub sleep_time_lem : q.sleep_time ≡ add32 p.sleep_time (runnable_share p.state)

-- Its counters fit their 32 bits.
pub record Fits (p : Proc) : Type 0 where
  pub rtime_in : p.rtime < int_mod
  pub run_time_in : p.run_time < int_mod
  pub wait_time_in : p.wait_time < int_mod
  pub sleep_time_in : p.sleep_time < int_mod

-- The counters of one are those of the other.
record SameCounters (p q : Proc) : Type 0 where
  rtime_same : q.rtime ≡ p.rtime
  run_time_same : q.run_time ≡ p.run_time
  wait_time_same : q.wait_time ≡ p.wait_time
  sleep_time_same : q.sleep_time ≡ p.sleep_time

wake_entry-SameCounters :
    (now me chan j : ℕ) (p : Proc) → SameCounters p (wake_entry now me chan j p)
wake_entry-SameCounters now me chan j p = record {
  rtime_same = ground arith;
  run_time_same = ground arith;
  wait_time_same = ground arith;
  sleep_time_same = ground arith;
}

no_more : (n : ℕ) → n < int_mod → n ≡ add32 n 0
no_more n h = omega arith

charge-Charged :
    (j : ℕ) (p : Proc) (s : ProcState)
    → p.state ≡ s
    → Fits p
    → Charged p (charge j (count_running j p))
charge-Charged j p unused h f = record {
  rtime_lem = rw h (no_more p.rtime f.rtime_in);
  run_time_lem = rw h (no_more p.run_time f.run_time_in);
  wait_time_lem = rw h (no_more p.wait_time f.wait_time_in);
  sleep_time_lem = rw h (no_more p.sleep_time f.sleep_time_in);
}
charge-Charged j p used h f = record {
  rtime_lem = rw h (no_more p.rtime f.rtime_in);
  run_time_lem = rw h (no_more p.run_time f.run_time_in);
  wait_time_lem = rw h (no_more p.wait_time f.wait_time_in);
  sleep_time_lem = rw h (no_more p.sleep_time f.sleep_time_in);
}
charge-Charged j p zombie h f = record {
  rtime_lem = rw h (no_more p.rtime f.rtime_in);
  run_time_lem = rw h (no_more p.run_time f.run_time_in);
  wait_time_lem = rw h (no_more p.wait_time f.wait_time_in);
  sleep_time_lem = rw h (no_more p.sleep_time f.sleep_time_in);
}
charge-Charged j p running h f = record {
  rtime_lem = rw h;
  run_time_lem = rw h;
  wait_time_lem = rw h (no_more p.wait_time f.wait_time_in);
  sleep_time_lem = rw h (no_more p.sleep_time f.sleep_time_in);
}
charge-Charged j p sleeping h f = record {
  rtime_lem = rw h (no_more p.rtime f.rtime_in);
  run_time_lem = rw h (no_more p.run_time f.run_time_in);
  wait_time_lem = rw h;
  sleep_time_lem = rw h (no_more p.sleep_time f.sleep_time_in);
}
charge-Charged j p runnable h f = record {
  rtime_lem = rw h (no_more p.rtime f.rtime_in);
  run_time_lem = rw h (no_more p.run_time f.run_time_in);
  wait_time_lem = rw h (no_more p.wait_time f.wait_time_in);
  sleep_time_lem = rw h;
}

Charged-entry :
    (now me chan j : ℕ) (p : Proc)
    → Fits p
    → Charged p (wake_entry now me chan j (charge j (count_running j p)))
Charged-entry now me chan j p f =
    let c = charge-Charged j p p.state refl f in
    let w = wake_entry-SameCounters now me chan j (charge j (count_running j p)) in
    record {
      rtime_lem = w.rtime_same ∙ c.rtime_lem;
      run_time_lem = w.run_time_same ∙ c.run_time_lem;
      wait_time_lem = w.wait_time_same ∙ c.wait_time_lem;
      sleep_time_lem = w.sleep_time_same ∙ c.sleep_time_lem;
    }

-- A clock interrupt adds one to `ticks`, and for each process in the table: one to `rtime` and `run_time`
-- if it runs, one to `wait_time` if it sleeps, one to `sleep_time` if it is runnable, and nothing else to
-- these.
pub clockintr_lem :
    (me chan j : ℕ) (k : Kernel)
    → j < nproc
    → Fits (k.procs j)
    → ((clockintr me chan k).ticks ≡ add32 k.ticks 1)
      × Charged (k.procs j) ((clockintr me chan k).procs j)
unfolding clockintr update_time
clockintr_lem me chan j k lt f =
    let below : ltb j nproc ≡ true = ground arith in
    let now = add32 k.ticks 1 in
    (
      refl,
      rw
          (
            wakeup_lem now me chan _ j,
            each_entry_lem charge nproc _ j,
            each_entry_lem count_running nproc k.procs j,
            below,
          )
          (Charged-entry now me chan j (k.procs j) f),
    )
