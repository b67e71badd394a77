-- ===== src/Pipe.antt =====
-- src/kernel/pipe.c: a pipe, and what `pipewrite` and `piperead` do from the point where they hold the lock up
-- to where they return or sleep. The byte that `copyin` reads at an address, and what `copyout` makes of
-- the reader's memory, are parameters.
use enhanced_xv.Base.{
  ℕ, zero, suc, ◌+◌, ◌%◌, Bool, true, false, not, ◌&&◌, ◌||◌, Option, none, some, if◌then◌else◌,
  ◌==◌, update, add32, int_lt,
}
use enhanced_xv.Proc.{ProcTable, wakeup, sleep_enter}
pub mod Refine
pub mod Write
pub mod Read

-- PIPESIZE
abbrev pub pipesize : ℕ
pipesize = 512

-- `struct pipe`, without its lock.
pub record Pipe : Type 0 where
  pub data_at : ℕ → ℕ
  pub nread : ℕ
  pub nwrite : ℕ
  pub readopen : Bool
  pub writeopen : Bool

-- The pipe, with the process table that `sleep` and `wakeup` change.
pub record Shared : Type 0 where
  pub pipe : Pipe
  pub procs : ProcTable

-- Where a run ends: it returns what it moved, returns -1, or sleeps.
pub data Ending : Type 0 where
  returned : ℕ → Ending
  failed : Ending
  asleep : ℕ → Ending

-- What `pipealloc` makes of the fresh page.
abbrev pub pipealloc : (ℕ → ℕ) → Pipe
pipealloc page = record { data_at = page; nread = 0; nwrite = 0; readopen = true; writeopen = true }

abbrev pub is_full : Pipe → Bool
is_full p = p.nwrite == add32 p.nread pipesize

abbrev pub is_empty : Pipe → Bool
is_empty p = p.nread == p.nwrite

-- `pi->data[pi->nwrite++ % PIPESIZE] = ch`
pub put : ℕ → Pipe → Pipe
put ch p = record p {
  data_at = update p.data_at (p.nwrite % pipesize) ch;
  nwrite = add32 p.nwrite 1;
}

-- `ch = pi->data[pi->nread++ % PIPESIZE]`
pub front : Pipe → ℕ
front p = p.data_at (p.nread % pipesize)

pub drop_front : Pipe → Pipe
drop_front p = record p { nread = add32 p.nread 1 }

-- `ticks`, `myproc()`, and the addresses of `pi->nread` and `pi->nwrite`.
pub record Caller : Type 0 where
  pub now : ℕ
  pub me : ℕ
  pub killed : Bool
  pub read_chan : ℕ
  pub write_chan : ℕ

-- `pipeclose`, and whether it frees the page.
pipeclose : Caller → Bool → Shared → Shared × Bool
pipeclose c writable s =
    let p =
      if writable
      then record s.pipe { writeopen = false }
      else record s.pipe { readopen = false } in
    let chan = if writable then c.read_chan else c.write_chan in
    (
      record { pipe = p; procs = wakeup c.now (c.me + 1) chan s.procs },
      not p.readopen && not p.writeopen,
    )

abbrev pub wake : Caller → ℕ → Shared → Shared
wake c chan s = record s { procs = wakeup c.now (c.me + 1) chan s.procs }

abbrev pub go_to_sleep : Caller → ℕ → Shared → Shared
go_to_sleep c chan s = record s { procs = sleep_enter chan c.me s.procs }

-- How often `i < n` holds for an `int` `n`; never for one below 0.
abbrev pub turns : ℕ → ℕ
turns n = if int_lt 0 n then n else 0

-- The loop of `pipewrite` with `todo` turns left of which the next is for the byte at `at`, and `i` written.
pub write_loop : (ℕ → Option ℕ) → Caller → ℕ → ℕ → ℕ → Shared → Shared × Ending
write_loop copyin c zero at i s = (wake c c.read_chan s, returned i)
write_loop copyin c (suc todo) at i s =
    let rest =
      λ (ch : ℕ). write_loop copyin c todo (at + 1) (i + 1) (record s { pipe = put ch s.pipe }) in
    if not s.pipe.readopen || c.killed
    then (s, failed)
    else if is_full s.pipe
    then (go_to_sleep c c.write_chan (wake c c.read_chan s), asleep i)
    else elim (copyin at) [ none ↦ (wake c c.read_chan s, returned i) | some ch ↦ rest ch ]

pub pipewrite : (ℕ → Option ℕ) → Caller → ℕ → ℕ → Shared → Shared × Ending
pipewrite copyin c addr n s = write_loop copyin c (turns n) addr 0 s

-- The copy loop of `piperead` with `todo` turns left; `user` is the reader's memory.
pub read_loop {ℓ} : {U : Type ℓ} → (ℕ → ℕ → U → Option U) → ℕ → ℕ → ℕ → Pipe → U → Pipe × U × ℕ
read_loop copyout zero at i p user = (p, user, i)
read_loop {U = U} copyout (suc todo) at i p user =
    let rest = λ (v : U). read_loop copyout todo (at + 1) (i + 1) (drop_front p) v in
    if is_empty p
    then (p, user, i)
    else elim (copyout at (front p) user) [ none ↦ (drop_front p, user, i) | some v ↦ rest v ]

pub piperead {ℓ} :
    {U : Type ℓ} → (ℕ → ℕ → U → Option U) → Caller → ℕ → ℕ → Shared → U → Shared × U × Ending
piperead copyout c addr n s user =
    let (p, user', i) = read_loop copyout (turns n) addr 0 s.pipe user in
    if is_empty s.pipe && s.pipe.writeopen
    then (if c.killed then (s, user, failed) else (go_to_sleep c c.read_chan s, user, asleep 0))
    else (wake c c.write_chan (record s { pipe = p }), user', returned i)
