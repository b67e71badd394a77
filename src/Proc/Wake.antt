-- ===== src/Proc/Wake.antt =====
-- `wakeup` and `sleep` (src/kernel/proc.c).
use enhanced_xv.Base.{
  ℕ, ◌<◌, ◌≡◌, ◌≢◌, ◌∙◌, true, false, if◌then◌else◌, ◌==◌, ltb, arith, each_entry_lem, update_self,
  update_ne,
}
use enhanced_xv.Proc.{
  Proc, ProcTable, nproc, proc_ptr, wakeup, wake_entry, sleep_enter, sleeping, runnable,
}

-- `wakeup` changes each slot of the table on its own.
pub wakeup_lem :
    (now me chan : ℕ) (t : ProcTable) (j : ℕ)
    → wakeup now me chan t j ≡ (if ltb j nproc then wake_entry now me chan j (t j) else t j)
unfolding wakeup
wakeup_lem now me chan t j = each_entry_lem (wake_entry now me chan) nproc t j

pub sleep_enter_self :
    (chan i : ℕ) (t : ProcTable)
    → sleep_enter chan i t i ≡ record (t i) { chan = chan; state = sleeping }
unfolding sleep_enter
sleep_enter_self chan i t = update_self t i (record (t i) { chan = chan; state = sleeping })

pub sleep_enter_other : (chan i : ℕ) (t : ProcTable) (j : ℕ) → j ≢ i → sleep_enter chan i t j ≡ t j
unfolding sleep_enter
sleep_enter_other chan i t j ne =
    update_ne t i (record (t i) { chan = chan; state = sleeping }) j ne

wake_entry-other :
    (now me chan j : ℕ) (p : Proc)
    → p.chan ≢ chan
    → (if ltb j nproc then wake_entry now me chan j p else p) ≡ p
wake_entry-other now me chan j p apart = ground arith

-- A process that has gone to sleep on a channel is made runnable by a `wakeup` of that channel by another
-- process, its aging starts again (`last_exec` and `in_time` are the time of the wakeup, `tick_ctr` is 0), it is
-- otherwise as it was, and every slot that sleeps on another channel is as before.
pub sleep_enter-wakeup :
    (now me chan i : ℕ) (t : ProcTable)
    → i < nproc
    → me ≢ proc_ptr i
    → (wakeup now me chan (sleep_enter chan i t) i ≡ record (t i) {
      chan = chan;
      state = runnable;
      last_exec = now;
      tick_ctr = 0;
      in_time = now;
    })
      × ((j : ℕ) → j ≢ i → (t j).chan ≢ chan → wakeup now me chan (sleep_enter chan i t) j ≡ t j)
sleep_enter-wakeup now me chan i t lt ne =
    let below : ltb i nproc ≡ true = ground arith in
    let other : (proc_ptr i == me) ≡ false = ground arith in
    let same : (chan == chan) ≡ true = ground arith in
    (
      wakeup_lem now me chan (sleep_enter chan i t) i
          ∙ rw (sleep_enter_self chan i t, below, other, same),
      λ j nj apart.
          wakeup_lem now me chan (sleep_enter chan i t) j
          ∙ rw (sleep_enter_other chan i t j nj) (wake_entry-other now me chan j (t j) apart),
    )
