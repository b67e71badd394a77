-- ===== src/Alarm.antt =====
-- `sigalarm` and `sigreturn`: src/kernel/sysproc.c, and the timer branch of `usertrap` in src/kernel/trap.c.
pub mod Count
pub mod Return
pub mod Fires
use enhanced_xv.Base.{
  ℕ, zero, suc, ◌+◌, ◌*◌, ◌%◌, if◌then◌else◌, ◌==◌, int_lt, int_mod, add32, update,
}
use enhanced_xv.Proc.{Proc, pgsize}
use enhanced_xv.Kalloc.{Kmem, kalloc, kfree, fill_page, copy_page}
use enhanced_xv.Kernel.{Kernel, set_proc, store, tf_epc, tf_a0, argint, argaddr}

-- `sys_sigalarm`, called by the process in slot `i`; it returns 0.
pub sys_sigalarm : ℕ → Kernel → Kernel × ℕ
sys_sigalarm i k = (
  set_proc i
      (record (k.procs i) { current_ticks = 0; ticks = argint 0 i k; handler = argaddr 1 i k }) k,
  0,
)

abbrev pub count_tick : Proc → Proc
count_tick p = record p { current_ticks = add32 p.current_ticks 1 }

-- The save of the trap frame into a fresh page, and the jump to the handler at the return to user mode.
abbrev pub save_frame : Proc → ℕ → Kmem → Kmem
save_frame p page m =
    store (p.trapframe + tf_epc) p.handler
      (record m { word = copy_page page p.trapframe (fill_page page 0 m.word) })

abbrev pub fire : ℕ → Kernel → Kernel
fire i k =
    let p = k.procs i in
    let (page, m) = kalloc k.mem in
    record (set_proc i (record (count_tick p) { sigalarm = page }) k) {
      mem = if page == 0 then m else save_frame p page m;
    }

-- What `usertrap` does on a timer interrupt before it yields.
pub alarm_tick : ℕ → Kernel → Kernel
alarm_tick i k =
    let p = k.procs i in
    if p.ticks == 0
    then k
    else if p.current_ticks == add32 p.ticks 1
    then fire i k
    else if int_lt 0 p.ticks
    then set_proc i (count_tick p) k
    else k

-- `n` timer interrupts in a row.
pub alarm_ticks : ℕ → ℕ → Kernel → Kernel
alarm_ticks zero i k = k
alarm_ticks (suc n) i k = alarm_tick i (alarm_ticks n i k)

-- `sys_sigreturn`, called by the process in slot `i`; it returns the restored a0.
pub sys_sigreturn : ℕ → Kernel → Kernel × ℕ
sys_sigreturn i k =
    let p = k.procs i in
    let restored = record k.mem { word = copy_page p.trapframe p.sigalarm k.mem.word } in
    let m = kfree p.sigalarm restored in
    (
      record (set_proc i (record p { current_ticks = 0 }) k) { mem = m },
      m.word (p.trapframe + tf_a0),
    )
