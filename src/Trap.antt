-- ===== src/Trap.antt =====
-- src/kernel/trap.c: the clock interrupt, and which interrupt `devintr` sees. The address of `ticks` is a
-- parameter.
use enhanced_xv.Base.{
  ℕ, ◌+◌, ◌%◌, ◌^◌, ◌/◌, Bool, true, false, ◌&&◌, if◌then◌else◌, ◌==◌, ltb, each_entry, add32,
}
use enhanced_xv.Proc.{
  Proc, ProcTable, ProcState, nproc, wakeup, update_time, is_running, is_sleeping, is_runnable,
}
use enhanced_xv.Kernel.{Kernel}
pub mod Account

-- The body of the loop of `clockintr`.
abbrev pub charge : ℕ → Proc → Proc
charge _ p =
    let p1 = if is_running p.state then record p { run_time = add32 p.run_time 1 } else p in
    let p2 = if is_sleeping p1.state then record p1 { wait_time = add32 p1.wait_time 1 } else p1 in
    if is_runnable p2.state then record p2 { sleep_time = add32 p2.sleep_time 1 } else p2

-- `clockintr()` on the processor whose process is `me`, with `chan` for `&ticks`.
pub clockintr : ℕ → ℕ → Kernel → Kernel
clockintr me chan k =
    let now = add32 k.ticks 1 in
    record k {
      ticks = now;
      procs = wakeup now me chan (each_entry charge nproc (update_time k.procs));
    }

-- The three kinds of trap that `devintr` tells apart, by `scause`.
abbrev is_external : ℕ → Bool
is_external scause = scause / 2 ^ 63 % 2 == 1 && scause % 256 == 9

abbrev is_timer : ℕ → Bool
is_timer scause = scause == 2 ^ 63 + 1

-- `devintr()`: its result and the state; `device` is what the handler of the external device does, with
-- `plic_claim` and `plic_complete`.
pub devintr : (Kernel → Kernel) → ℕ → ℕ → ℕ → ℕ → Kernel → ℕ × Kernel
devintr device scause cpuid me chan k =
    if is_external scause
    then (1, device k)
    else if is_timer scause
    then (2, if cpuid == 0 then clockintr me chan k else k)
    else (0, k)
