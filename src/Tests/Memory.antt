-- ===== src/Tests/Memory.antt =====
-- The allocator, copy-on-write and the alarm on the concrete memory.
use enhanced_xv.Base.{
  ℕ, ◌+◌, ◌*◌, ◌/◌, ◌<◌, ◌≤◌, ◌≡◌, ◌≢◌, refl, true, arith, [], ◌∷◌, if◌then◌else◌, ◌==◌, suc,
}
use enhanced_xv.Proc.{pgsize}
use enhanced_xv.Kalloc.{Kmem, kalloc, kfree, page_index}
use enhanced_xv.Kalloc.FreeList.{IsValid, Allocated, kalloc_lem, kfree-IsValid}
use enhanced_xv.Kernel.{Kernel, set_proc, argint, tf_a0}
use enhanced_xv.Alarm.{fire, alarm_ticks, sys_sigalarm, sys_sigreturn}
use enhanced_xv.Alarm.Count.{counted}
use enhanced_xv.Alarm.Return.{IsReady, Fired, sigreturn-restores}
use enhanced_xv.Alarm.Fires.{armed, sigalarm-fires}
use enhanced_xv.Vm.{walk_levels, bit}
use enhanced_xv.Vm.Break.{entry_of}
use enhanced_xv.Tests.Data.{
  memory, memory-IsValid, free_page, frame_page, table_page, data_page, kernel,
}

kalloc_example : Allocated memory free_page [] (kalloc memory)
kalloc_example = kalloc_lem memory free_page [] memory-IsValid

kfree_example : IsValid (kfree data_page memory) (data_page ∷ free_page ∷ [])
kfree_example =
    kfree-IsValid memory data_page (free_page ∷ []) memory-IsValid (refl, omega arith, omega arith)
      refl

ready : IsReady kernel (armed 0 kernel) free_page []
ready = record {
  valid = memory-IsValid;
  frame = (refl, omega arith, omega arith);
  in_use = λ e. omega arith;
}

-- The state right after the alarm went off.
abbrev after_fire : Kernel
after_fire = record {
  procs = λ j. record (kernel.procs 0) { sigalarm = free_page };
  mem = (fire 0 (set_proc 0 (armed 0 kernel) kernel)).mem;
  ticks = 41;
}

after_fire-IsValid : IsValid after_fire.mem []
unfolding kalloc
after_fire-IsValid = record { chain = refl; distinct = tt; pages = tt; unused = tt }

one_user : after_fire.mem.nump_using (page_index free_page) ≡ 1
unfolding kalloc
one_user = refl

still_used : after_fire.mem.nump_using (page_index frame_page) ≢ 0
unfolding kalloc
still_used e = omega arith

sigreturn_example :
    ((off : ℕ)
      → off < pgsize
      → (sys_sigreturn 0 after_fire).0.mem.word (frame_page + off)
        ≡ kernel.mem.word (frame_page + off))
    × ((sys_sigreturn 0 after_fire).1 ≡ kernel.mem.word (frame_page + tf_a0))
    × (((sys_sigreturn 0 after_fire).0.procs 0).current_ticks ≡ 0)
    × IsValid (sys_sigreturn 0 after_fire).0.mem (free_page ∷ [])
sigreturn_example =
    sigreturn-restores 0 kernel (armed 0 kernel) free_page [] ready after_fire [] after_fire-IsValid
      refl refl still_used one_user (λ off lt. refl)

sigalarm-fires_example :
    ((j : ℕ)
      → j ≤ argint 0 0 kernel + 1
      → alarm_ticks j 0 (sys_sigalarm 0 kernel).0 ≡ set_proc 0 (counted j (armed 0 kernel)) kernel)
    × Fired kernel
        (counted (argint 0 0 kernel + 1) (armed 0 kernel))
        free_page
        (alarm_ticks (suc (argint 0 0 kernel + 1)) 0 (sys_sigalarm 0 kernel).0)
        0
sigalarm-fires_example = sigalarm-fires 0 kernel free_page [] (omega arith) (omega arith) ready

-- Data page mapped by the entry at `table_page`: valid, user, copy-on-write; the entries of the two upper
-- levels point to the page-table page itself.
abbrev shared : Kmem
shared = record memory {
  word = λ a.
      if a == table_page
      then table_page / 4096 * 1024 + 1
      else if a == table_page + 8
      then data_page / 4096 * 1024 + 256 + 16 + 1
      else 0;
}

entry_at : entry_of table_page 4096 shared ≡ table_page + 8
unfolding walk_levels
entry_at = refl

marked :
    (bit 0 (shared.word (entry_of table_page 4096 shared)) ≡ true)
    × (bit 8 (shared.word (entry_of table_page 4096 shared)) ≡ true)
unfolding walk_levels
marked = (refl, refl)
