-- ===== src/Calls/Sleep.antt =====
-- `sys_sleep` (src/kernel/sysproc.c).
use enhanced_xv.Base.{
  ℕ, ◌+◌, ◌<◌, ◌≤◌, ◌%◌, ◌≡◌, ◌≢◌, true, false, ◌==◌, ltb, arith, sub32, int_mod, minus_one,
}
use enhanced_xv.Proc.{sleep_enter}
use enhanced_xv.Kernel.{Kernel}
use enhanced_xv.Calls.{returns, waits, sleep_turn, extend}

elapsed_lem :
    (start passed : ℕ)
    → start < int_mod
    → passed < int_mod
    → sub32 ((start + passed) % int_mod) start ≡ passed
elapsed_lem start passed hs hp = omega arith

-- Once `passed` ticks went by since a process called `sys_sleep` with n, fewer than 2^32 and also where
-- `ticks` wraps: it returns 0 if these are n or more; with fewer it sleeps on, or returns -1 if it was
-- killed.
pub sleep_turn_lem :
    (chan start passed n me : ℕ) (k : Kernel)
    → start < int_mod
    → passed < int_mod
    → k.ticks ≡ (start + passed) % int_mod
    → (n ≤ passed → sleep_turn chan start n me k ≡ returns 0)
      × (passed < n
          → (k.procs me).killed ≡ 0
          → sleep_turn chan start n me k ≡ waits (record k { procs = sleep_enter chan me k.procs }))
      × (passed < n
          → (k.procs me).killed ≢ 0
          → sleep_turn chan start n me k ≡ returns (extend minus_one))
unfolding sleep_turn
sleep_turn_lem chan start passed n me k hs hp now =
    let gone : sub32 k.ticks start ≡ passed = rw now (elapsed_lem start passed hs hp) in
    (
      λ le. let done : ltb passed n ≡ false = ground arith in rw (gone, done),
      λ lt alive. let more : ltb passed n ≡ true = ground arith in rw (gone, more, alive),
      λ lt dead.
          let more : ltb passed n ≡ true = ground arith in
          let killed : ((k.procs me).killed == 0) ≡ false = ground arith in rw (gone, more, killed),
    )
