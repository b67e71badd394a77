-- ===== src/Tests/Data.antt =====
-- A process table with two live processes, and a memory with one free page and three pages in use.
use enhanced_xv.Base.{ℕ, ◌+◌, ◌/◌, if◌then◌else◌, ◌==◌, [], ◌∷◌, refl, arith}
use enhanced_xv.Proc.{Proc, ProcTable, unused, running, runnable}
use enhanced_xv.Kalloc.{Kmem}
use enhanced_xv.Kalloc.FreeList.{IsValid}
use enhanced_xv.Kernel.{Kernel}

abbrev pub free_page : ℕ
free_page = 0x80100000

abbrev pub frame_page : ℕ
frame_page = 0x80200000

abbrev pub table_page : ℕ
table_page = 0x80300000

abbrev pub data_page : ℕ
data_page = 0x80400000

abbrev pub blank : Proc
blank = record {
  state = unused;
  chan = 0;
  killed = 0;
  xstate = 0;
  pid = 0;
  parent = 0;
  kstack = 0;
  sz = 0;
  pagetable = 0;
  trapframe = 0;
  rtime = 0;
  ctime = 0;
  etime = 0;
  ticks = 0;
  current_ticks = 0;
  sigalarm = 0;
  handler = 0;
  interval = 0;
  curr_queue = 0;
  prev_queue = 0;
  time_wait = 0;
  time_run_queue = 0;
  tick_ctr = 0;
  queue_level = 0;
  last_exec = 0;
  in_time = 0;
  run_time = 0;
  wait_time = 0;
  sleep_time = 0;
  priority = 0;
  dynamic_priority = 0;
  num_shed = 0;
}

-- One process runs on level `level` and has used `used` ticks; another waits on level 2 since tick 10.
abbrev pub runner : ℕ → ℕ → Proc
runner level used = record blank {
  state = running;
  pid = 1;
  queue_level = level;
  tick_ctr = used;
  trapframe = frame_page;
}

abbrev pub waiter : Proc
waiter = record blank {
  state = runnable;
  pid = 2;
  queue_level = 2;
  last_exec = 10;
  run_time = 4;
  wait_time = 2;
  priority = 50;
  parent = 1;
  ctime = 5;
}

abbrev pub table : ℕ → ℕ → ProcTable
table level used i = if i == 0 then runner level used else if i == 1 then waiter else blank

-- Words other than those of the page table are 0 but for the two arguments of a system call.
abbrev pub memory : Kmem
memory = record {
  word = λ a. if a == frame_page + 112 then 5 else if a == frame_page + 120 then 2 else 0;
  freelist = free_page;
  nump_using = λ i. if i == free_page / 4096 then 0 else 1;
}

pub memory-IsValid : IsValid memory (free_page ∷ [])
memory-IsValid = record {
  chain = (refl, omega arith, refl);
  distinct = (tt, tt);
  pages = ((refl, omega arith, omega arith), tt);
  unused = (refl, tt);
}

abbrev pub kernel : Kernel
kernel = record { procs = table 1 0; mem = memory; ticks = 40 }
