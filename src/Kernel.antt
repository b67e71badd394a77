-- ===== src/Kernel.antt =====
-- The state that the system calls and traps share: the process table, physical memory with its
-- allocator, and the tick counter; and the arguments of a system call (src/kernel/syscall.c).
use enhanced_xv.Base.{ℕ, ◌+◌, ◌*◌, ◌%◌, int_mod, update}
use enhanced_xv.Proc.{Proc, ProcTable}
use enhanced_xv.Kalloc.{Kmem}

pub record Kernel : Type 0 where
  pub procs : ProcTable
  pub mem : Kmem
  pub ticks : ℕ

-- A write to the process in slot `i`, and to a word of memory.
abbrev pub set_proc : ℕ → Proc → Kernel → Kernel
set_proc i p k = record k { procs = update k.procs i p }

abbrev pub store : ℕ → ℕ → Kmem → Kmem
store a v m = record m { word = update m.word a v }

-- Offsets in `struct trapframe`.
abbrev pub tf_epc : ℕ
tf_epc = 24

abbrev pub tf_a0 : ℕ
tf_a0 = 112

abbrev tf_a7 : ℕ
tf_a7 = 168

-- Argument `n` of a system call, for `n` up to 5: registers a0 to a5 of the trap frame.
abbrev argraw : ℕ → ℕ → Kernel → ℕ
argraw n i k = k.mem.word ((k.procs i).trapframe + tf_a0 + 8 * n)

abbrev pub argint : ℕ → ℕ → Kernel → ℕ
argint n i k = argraw n i k % int_mod

abbrev pub argaddr : ℕ → ℕ → Kernel → ℕ
argaddr n i k = argraw n i k
