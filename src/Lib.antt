-- ===== src/Lib.antt =====
-- A model of the kernel of Enhanced-XV-6 (src/kernel), an xv6 for RISC-V with three schedulers, copy-on-write
-- memory, alarms and scheduling statistics, and of the matcher of its grep and
-- the number output of its user library.
--
-- The process table (src/kernel/proc.c) is a function from the slot to a record with the fields of
-- `struct proc`; the schedulers, the clock interrupt, sleep and wakeup, kill, exit and wait are functions on
-- it. Physical memory is a function from the address to the word, with the allocator's free list threaded
-- through it and the counters of `nump_using` beside it; page tables are words of it. A `Kernel` has both,
-- with `ticks`; system calls and traps are functions on it. `none` is a panic or a read through a null
-- pointer or outside of an array. An `int` or `uint` is its 32-bit pattern, with the wrap-around written
-- out; a pointer to slot i is i + 1.
--
--   Base             tests, 32-bit arithmetic, arrays and the loops over them
--   Proc             src/kernel/proc.h, src/kernel/proc.c: wakeup, sleep, kill, yield, update_time, procinit
--   Sched.Mlfq       src/kernel/proc.c: mlfq_yield, sched_mlfq
--   Sched.Fcfs       src/kernel/proc.c: sched_fcfs
--   Sched.Pbs        src/kernel/proc.c: sched_pbs
--   Kalloc           src/kernel/kalloc.c
--   Kernel           the shared state, and the argument registers of src/kernel/syscall.c
--   Alarm            sys_sigalarm, sys_sigreturn (src/kernel/sysproc.c), the alarm in usertrap
--                    (src/kernel/trap.c)
--   Vm, Vm.Space     src/kernel/vm.c: page tables and user memory
--   Vm.Cow           src/kernel/vm.c: uvmcopy, removecopy; the store fault of usertrap
--   Life             src/kernel/proc.c: allocproc, freeproc, growproc, reparent, exit, wait, waitx
--   Life.Fork        src/kernel/proc.c: fork
--   Trap             src/kernel/trap.c: clockintr, devintr
--   Calls            src/kernel/sysproc.c: set_priority, sleep, kill, sbrk, getpid, uptime
--   Strings          src/kernel/string.c
--   Pipe             src/kernel/pipe.c
--   Spin             src/kernel/spinlock.c
--   Sleeplock        src/kernel/sleeplock.c
--   Log              src/kernel/log.c: the write-ahead log, with the disk after each write
--   File             src/kernel/file.c, and the calls on descriptors in src/kernel/sysfile.c
--   Bio              src/kernel/bio.c: the ring of buffers
--   Fs               src/kernel/fs.c: the bitmap of blocks, the table of inodes, the names in a path
--   Fs.Content       src/kernel/fs.c: bmap; Fs.Content.Io has readi and writei, Fs.Content.Iupdate
--                    has iupdate and itrunc
--   Fs.Directory     src/kernel/fs.c: dirlookup
--   Console          src/kernel/console.c: the line editor, and consoleread
--   Uart             src/kernel/uart.c: the transmit buffer
--   Grep             src/user/grep.c: the matcher
--   Print            src/user/printf.c, and atoi of src/user/ulib.c
--   Tests            concrete states on which the theorems are applied
--
-- Bounds and fuel. `freerange` has a round for each page below its end, `mappages` one for each page of
-- the range, `uvmcopy` and `uvmalloc` one for each page up to the size, and `freewalk` one for each of the
-- three levels; `strlen` has fuel for the string with its NUL; `balloc` has a round for each block of the disk,
-- the loop of C('U') in `consoleintr` one for each character of the line, and `filewrite`,
-- `readi`, `writei` and `dirlookup` one for each byte; `uartstart` has one for each place in its buffer and one more, and a
-- number is printed in 32 turns, one for each bit. The loops of `bget` have a round for each buffer and one for the head.
-- A loop over the process table has 64 rounds. An address range does not wrap round.
--
-- Atomicity. A loop body that runs under `p->lock` is one step, and a scheduler's scan together with its
-- dispatch is one step. The steps of one spin lock are interleaved in Spin.Exclusion, and
-- those of one sleep lock in Sleeplock.Exclusion. A call on descriptors is one step, and so is a turn of
-- `begin_op`, `log_write` or `end_op` under the lock of the log; the disk writes of a commit are single steps.
--
-- Parameters: the byte that `copyin` reads and what `copyout` does, in Pipe, Life, Console and Fs.Content.Io; the handlers of the
-- devices; the addresses of `ticks`, of `initproc` and of the trampoline code. What `bread`
-- gives for each block is a function in Log and Fs; Bio has the buffers themselves, on their own. How pipes, devices and inodes
-- move bytes, in File.Io.
--
-- Not modelled: the context switch, the other operations on the inodes on the disk (`ilock`, `ialloc`), changes of directories, the
-- device registers, boot, `exec`, and the other user programs.
pub mod Base
pub mod Proc
pub mod Sched
pub mod Kalloc
pub mod Kernel
pub mod Alarm
pub mod Vm
pub mod Strings
pub mod Pipe
pub mod Print
pub mod Spin
pub mod Life
pub mod Trap
pub mod Calls
pub mod Tests
pub mod Log
pub mod Grep
pub mod Sleeplock
pub mod File
pub mod Bio
pub mod Fs
pub mod Console
pub mod Uart
