-- ===== src/Alarm/Fires.antt =====
-- The course of an alarm, from the system call to the handler and on.
use enhanced_xv.Base.{ℕ, suc, ◌+◌, ◌<◌, ◌≤◌, ◌≡◌, ◌∙◌, ap, arith, List, int_half, int_mod, sym}
use enhanced_xv.Proc.{Proc}
use enhanced_xv.Kernel.{Kernel, set_proc, argint, argaddr}
use enhanced_xv.Alarm.{sys_sigalarm, alarm_tick, alarm_ticks, count_tick, fire}
use enhanced_xv.Alarm.Count.{counted, alarm_ticks-quiet, tick_fires}
use enhanced_xv.Alarm.Return.{IsReady, Fired, fire_lem, fire_state, saved}

-- The process in slot `i` as `sigalarm` leaves it.
abbrev pub armed : ℕ → Kernel → Proc
armed i k = record (k.procs i) { current_ticks = 0; ticks = argint 0 i k; handler = argaddr 1 i k }

module _ (i : ℕ) (k : Kernel) (page : ℕ) (free : List ℕ) (pos : 0 < argint 0 i k)
    (small : argint 0 i k + 2 < int_half) (ready : IsReady k (armed i k) page free) where
  abbrev interval : ℕ
  interval = argint 0 i k

  abbrev last_count : Proc
  last_count = counted (interval + 1) (armed i k)

  counts :
      (j : ℕ)
      → j ≤ interval + 1
      → alarm_ticks j i (sys_sigalarm i k).0 ≡ set_proc i (counted j (armed i k)) k
  unfolding sys_sigalarm
  counts j le = alarm_ticks-quiet j i (armed i k) k pos small (omega arith) (λ l lt e. omega arith)

  goes_off :
      alarm_ticks (suc (interval + 1)) i (sys_sigalarm i k).0 ≡ fire i (set_proc i last_count k)
  unfolding alarm_ticks
  goes_off =
      ap (alarm_tick i) (counts (interval + 1) (omega arith))
      ∙ tick_fires i last_count k pos small (omega arith)

  IsReady-last : IsReady k last_count page free
  IsReady-last = record { valid = ready.valid; frame = ready.frame; in_use = ready.in_use }

  -- After `sigalarm(n, handler)` with 0 < n < 2 ^ 31 - 2 and a free page at hand, the first n + 1 timer
  -- interrupts change nothing but the tick count of the process, and the next one, number n + 2, saves
  -- the trap frame and sends the process to the handler.
  pub sigalarm-fires :
      ((j : ℕ)
        → j ≤ interval + 1
        → alarm_ticks j i (sys_sigalarm i k).0 ≡ set_proc i (counted j (armed i k)) k)
      × Fired k last_count page (alarm_ticks (suc (interval + 1)) i (sys_sigalarm i k).0) i
  sigalarm-fires = (counts, rw goes_off (fire_lem i k last_count page free IsReady-last))

  -- Once the handler has been entered, further timer interrupts write no memory, so they do not enter it
  -- again, as long as the tick count does not wrap.
  pub handler-not_reentered :
      (j : ℕ)
      → interval + 2 + j < int_mod
      → (alarm_ticks j i (alarm_ticks (suc (interval + 1)) i (sys_sigalarm i k).0)).mem
        ≡ (alarm_ticks (suc (interval + 1)) i (sys_sigalarm i k).0).mem
  handler-not_reentered j room =
      ap (λ (s : Kernel). (alarm_ticks j i s).mem) entered
      ∙ ap (λ (s : Kernel). s.mem)
          (alarm_ticks-quiet j i (record (count_tick last_count) { sigalarm = page })
            (record k { mem = saved k.mem last_count page }) pos small (omega arith)
            (λ l lt e. omega arith))
      ∙ sym (ap (λ (s : Kernel). s.mem) entered)
    where
      entered :
          alarm_ticks (suc (interval + 1)) i (sys_sigalarm i k).0
          ≡ record (set_proc i (record (count_tick last_count) { sigalarm = page }) k) {
            mem = saved k.mem last_count page;
          }
      entered = goes_off ∙ fire_state i k last_count page free IsReady-last
