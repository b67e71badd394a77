-- ===== src/Tests/Processes.antt =====
-- The operations on processes, the clock and the system calls on the two processes.
use enhanced_xv.Base.{ℕ, ◌<◌, ◌≡◌, ◌≢◌, refl, Option, some, arith, update, add32}
use enhanced_xv.Proc.{runnable, zombie, nproc, proc_ptr, wakeup, sleep_enter}
use enhanced_xv.Proc.Wake.{sleep_enter-wakeup}
use enhanced_xv.Kalloc.{Kmem}
use enhanced_xv.Kernel.{Kernel}
use enhanced_xv.Life.{reaped, reap, waitx, finish_exit, freeproc, cleared}
use enhanced_xv.Life.Reparent.{finish_exit-orphans}
use enhanced_xv.Life.Wait.{WaitSpec, waitx_lem}
use enhanced_xv.Trap.{clockintr}
use enhanced_xv.Trap.Account.{Fits, Charged, clockintr_lem}
use enhanced_xv.Tests.Data.{kernel, table, waiter}

sleep_enter-wakeup_example :
    (wakeup 50 1 77 (sleep_enter 77 1 (table 1 0)) 1 ≡ record (table 1 0 1) {
      chan = 77;
      state = runnable;
      last_exec = 50;
      tick_ctr = 0;
      in_time = 50;
    })
    × ((j : ℕ)
        → j ≢ 1
        → (table 1 0 j).chan ≢ 77
        → wakeup 50 1 77 (sleep_enter 77 1 (table 1 0)) j ≡ table 1 0 j)
sleep_enter-wakeup_example =
    sleep_enter-wakeup 50 1 77 1 (table 1 0) (omega arith) (λ e. omega arith)

finish_exit_example :
    ((j : ℕ) → j < nproc → (finish_exit 50 3 0 7 (table 1 0) j).parent ≢ proc_ptr 0)
    × ((finish_exit 50 3 0 7 (table 1 0) 0).state ≡ zombie)
    × ((finish_exit 50 3 0 7 (table 1 0) 0).xstate ≡ 7)
    × ((finish_exit 50 3 0 7 (table 1 0) 0).etime ≡ 50)
finish_exit_example = finish_exit-orphans 50 3 0 7 (table 1 0) (λ e. omega arith)

-- `copyout` that always succeeds.
abbrev copy_nothing : ℕ → ℕ → Kmem → Option Kmem
copy_nothing addr value m = some m

waitx_example : WaitSpec copy_nothing 0 0 kernel (waitx copy_nothing 0 0 kernel)
waitx_example = waitx_lem copy_nothing 0 0 kernel

-- The second process, freed: its exit was 13 ticks after its creation, of which it ran 6.
abbrev done : Kernel
done = record kernel {
  procs = update kernel.procs 1 (record waiter { state = zombie; etime = 18; rtime = 6 });
}

reap_runs :
    reap copy_nothing 0 1 done
    ≡ some (reaped 2 7 6 (record done { procs = update done.procs 1 (cleared 40 (done.procs 1)) }))
unfolding reap freeproc
reap_runs = refl

waiter-Fits : Fits (kernel.procs 1)
waiter-Fits = record {
  rtime_in = omega arith;
  run_time_in = omega arith;
  wait_time_in = omega arith;
  sleep_time_in = omega arith;
}

clockintr_example :
    ((clockintr 1 9 kernel).ticks ≡ add32 kernel.ticks 1)
    × Charged (kernel.procs 1) ((clockintr 1 9 kernel).procs 1)
clockintr_example = clockintr_lem 1 9 1 kernel (omega arith) waiter-Fits
