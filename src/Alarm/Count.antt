-- ===== src/Alarm/Count.antt =====
-- When the handler runs: on the timer interrupt with number `ticks + 2`, and not again before
-- `sigreturn`.
use enhanced_xv.Base.{
  ℕ, zero, suc, ◌+◌, ◌<◌, ◌≡◌, ◌≢◌, ap, ◌∙◌, true, false, arith, ◌==◌, int_lt, int_half, add32,
  update_self, update-update,
}
use enhanced_xv.Proc.{Proc}
use enhanced_xv.Kernel.{Kernel, set_proc}
use enhanced_xv.Alarm.{alarm_tick, alarm_ticks, count_tick, fire, int_mod}

-- A tick with the alarm set, while the count of `p` is not at `ticks + 1`, only counts.
tick_counts :
    (i : ℕ) (p : Proc) (k : Kernel)
    → 0 < p.ticks
    → p.ticks + 2 < int_half
    → p.current_ticks ≢ p.ticks + 1
    → alarm_tick i (set_proc i p k) ≡ set_proc i (count_tick p) k
unfolding alarm_tick
tick_counts i p k pos small ne =
    let on : (p.ticks == 0) ≡ false = ground arith in
    let not_yet : (p.current_ticks == add32 p.ticks 1) ≡ false = ground arith in
    let positive : int_lt 0 p.ticks ≡ true = ground arith in
    rw (update_self k.procs i p, on, not_yet, positive, update-update k.procs i p (count_tick p))

pub tick_fires :
    (i : ℕ) (p : Proc) (k : Kernel)
    → 0 < p.ticks
    → p.ticks + 2 < int_half
    → p.current_ticks ≡ p.ticks + 1
    → alarm_tick i (set_proc i p k) ≡ fire i (set_proc i p k)
unfolding alarm_tick
tick_fires i p k pos small e =
    let on : (p.ticks == 0) ≡ false = ground arith in
    let now : (p.current_ticks == add32 p.ticks 1) ≡ true = ground arith in
    rw (update_self k.procs i p, on, now)

-- `p` with `n` more interrupts counted.
abbrev pub counted : ℕ → Proc → Proc
counted n p = record p { current_ticks = p.current_ticks + n }

-- While the count does not pass `ticks + 1`, interrupts only count.
pub alarm_ticks-quiet :
    (n i : ℕ) (p : Proc) (k : Kernel)
    → 0 < p.ticks
    → p.ticks + 2 < int_half
    → p.current_ticks + n < int_mod
    → ((j : ℕ) → j < n → p.current_ticks + j ≢ p.ticks + 1)
    → alarm_ticks n i (set_proc i p k) ≡ set_proc i (counted n p) k
unfolding alarm_ticks
alarm_ticks-quiet zero i p k pos small room away =
    let e : p.current_ticks + 0 ≡ p.current_ticks = omega arith in rw e
alarm_ticks-quiet (suc n) i p k pos small room away =
    ap (alarm_tick i)
      (alarm_ticks-quiet n i p k pos small (omega arith) (λ j lt. away j (omega arith)))
    ∙ tick_counts i (counted n p) k pos small (away n (omega arith))
    ∙ (let e : add32 (p.current_ticks + n) 1 ≡ p.current_ticks + suc n = omega arith in rw e)
