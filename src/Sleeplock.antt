-- ===== src/Sleeplock.antt =====
-- src/kernel/sleeplock.c: a lock whose waiters sleep. Each function is one step under the spin lock `lk->lk`;
-- `sleep` gives that lock up and goes to sleep in one step. `chan` is the address of the lock.
pub mod System
pub mod Exclusion
use enhanced_xv.Base.{ℕ, ◌+◌, Bool, not, ◌&&◌, if◌then◌else◌, ◌==◌}
use enhanced_xv.Proc.{ProcTable, proc_ptr, wakeup, sleep_enter}

-- `struct sleeplock`, without its spin lock.
pub record Sleeplock : Type 0 where
  pub locked : ℕ
  pub pid : ℕ

abbrev pub initsleeplock : Sleeplock
initsleeplock = record { locked = 0; pid = 0 }

-- A turn of the loop of `acquiresleep` by the process in slot `me`: it takes the lock or sleeps.
pub data Turn : Type 0 where
  takes : Sleeplock → Turn
  sleeps : ProcTable → Turn

unfoldable pub acquiresleep : ℕ → ℕ → Sleeplock → ProcTable → Turn
acquiresleep chan me lk t =
    if lk.locked == 0
    then takes (record { locked = 1; pid = (t me).pid })
    else sleeps (sleep_enter chan me t)

unfoldable pub releasesleep : ℕ → ℕ → ℕ → ProcTable → Sleeplock × ProcTable
releasesleep now chan me t = (initsleeplock, wakeup now (proc_ptr me) chan t)

pub holdingsleep : ℕ → Sleeplock → ProcTable → Bool
holdingsleep me lk t = not (lk.locked == 0) && lk.pid == (t me).pid
