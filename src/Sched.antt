-- ===== src/Sched.antt =====
-- src/kernel/proc.c: the schedulers that the build chooses from (-D RR, FCFS, MLFQ or PBS).
mod Lex
pub mod Fcfs
pub mod Mlfq
pub mod Pbs
