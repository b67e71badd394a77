-- ===== src/File.antt =====
-- The table of open files and the descriptors that refer to it: src/kernel/file.c, the system calls on
-- descriptors in src/kernel/sysfile.c, and the loops of `fork` and `exit` (src/kernel/proc.c) over them. A
-- pointer to a `struct file` is its index in `ftable.file`; a null pointer is `none`. Each function is one
-- step under `ftable.lock`; a result `none` of a step is a panic.
pub mod Counts
pub mod Calls
pub mod Loops
pub mod Machine
pub mod Io
use enhanced_xv.Base.{
  ℕ, Option, none, some, Bool, true, false, ◌||◌, List, [], ◌++◌, ◌∷◌, if◌then◌else◌, ◌==◌, update,
  find_first, each, int_lt, int_le, add32, sub32, minus_one, ◌%◌, ◌&&◌, ◌/◌,
}
use enhanced_xv.Proc.{nproc}

abbrev pub nfile : ℕ
nfile = 100

abbrev pub nofile : ℕ
nofile = 16

pub data FileType : Type 0 where
  fd_none fd_pipe fd_inode fd_device : FileType

-- `struct file`; `pipe` and `ip` are pointers.
pub record File : Type 0 where
  pub ftype : FileType
  pub ref : ℕ
  pub readable : ℕ
  pub writable : ℕ
  pub pipe : ℕ
  pub ip : ℕ
  pub off : ℕ
  pub major : ℕ

abbrev pub Ftable : Type 0
Ftable = ℕ → File

-- The descriptors of one process.
abbrev pub Ofile : Type 0
Ofile = ℕ → Option ℕ

unfoldable pub filealloc : Ftable → Option (Ftable × ℕ)
filealloc t = elim (find_first (λ f. (t f).ref == 0) nfile) [
  | some f ↦ some (update t f (record (t f) { ref = 1 }), f)
  | none ↦ none
]

unfoldable pub filedup : ℕ → Ftable → Option Ftable
filedup f t =
    if int_lt (t f).ref 1
    then none
    else some (update t f (record (t f) { ref = add32 (t f).ref 1 }))

-- What `fileclose` does after it gave up the lock: nothing, as the file is still open or had no object;
-- `pipeclose(ff.pipe, ff.writable)`; or `iput(ff.ip)` in a transaction.
pub data Closing : Type 0 where
  keep nothing : Closing
  close_pipe : ℕ → ℕ → Closing
  put_inode : ℕ → Closing

abbrev pub closing : File → Closing
closing ff = elim ff.ftype [
  | fd_pipe ↦ close_pipe ff.pipe ff.writable
  | fd_inode ↦ put_inode ff.ip
  | fd_device ↦ put_inode ff.ip
  | fd_none ↦ nothing
]

unfoldable pub fileclose : ℕ → Ftable → Option (Ftable × Closing)
fileclose f t =
    if int_lt (t f).ref 1
    then none
    else if int_lt 0 (sub32 (t f).ref 1)
    then some (update t f (record (t f) { ref = sub32 (t f).ref 1 }), keep)
    else some (update t f (record (t f) { ref = 0; ftype = fd_none }), closing (t f))

unfoldable pub argfd : ℕ → Ofile → Option ℕ
argfd fd table = if int_lt fd 0 || int_le nofile fd then none else table fd

abbrev pub is_null : Option ℕ → Bool
is_null none = true
is_null (some _) = false

unfoldable pub fdalloc : ℕ → Ofile → Option (Ofile × ℕ)
fdalloc f table = elim (find_first (λ fd. is_null (table fd)) nofile) [
  | some fd ↦ some (update table fd (some f), fd)
  | none ↦ none
]

-- The table of open files and, by slot of the process table, the descriptors.
pub record Files : Type 0 where
  pub ftable : Ftable
  pub ofile : ℕ → Ofile

-- `p->ofile[fd] = entry`.
abbrev pub set_fd : ℕ → ℕ → Option ℕ → (ℕ → Ofile) → ℕ → Ofile
set_fd p fd entry tables = update tables p (update (tables p) fd entry)

-- The state after a call, what the files it closed let go of, and its result.
abbrev pub Outcome : Type 0
Outcome = Files × List Closing × ℕ

-- `sys_dup` of process `p`.
unfoldable pub sys_dup : ℕ → ℕ → Files → Option Outcome
sys_dup p fd s = elim (argfd fd (s.ofile p)) [
  | none ↦ some (s, [], minus_one)
  | some f ↦ elim (fdalloc f (s.ofile p)) [
    | none ↦ some (s, [], minus_one)
    | some (table, new) ↦ elim (filedup f s.ftable) [
      | none ↦ none
      | some t ↦ some (record { ftable = t; ofile = update s.ofile p table }, [], new)
    ]
  ]
]

unfoldable pub sys_close : ℕ → ℕ → Files → Option Outcome
sys_close p fd s = elim (argfd fd (s.ofile p)) [
  | none ↦ some (s, [], minus_one)
  | some f ↦ elim (fileclose f s.ftable) [
    | none ↦ none
    | some (t, c) ↦ some (record { ftable = t; ofile = set_fd p fd none s.ofile }, c ∷ [], 0)
  ]
]

-- What `sys_open` sets in the file; `device` holds the inode's major number if it is a device.
abbrev pub set_file : Option ℕ → ℕ → ℕ → File → File
set_file device ip omode f =
    let g = record f {
      ip = ip;
      readable = if omode % 2 == 0 then 1 else 0;
      writable = if omode % 2 == 0 && omode / 2 % 2 == 0 then 0 else 1;
    } in
    elim device [
      | some major ↦ record g { ftype = fd_device; major = major }
      | none ↦ record g { ftype = fd_inode; off = 0 }
    ]

-- `sys_open` once it has the inode: a file and a descriptor for it; without them the file, if any, is
-- closed.
unfoldable pub open_file : Option ℕ → ℕ → ℕ → ℕ → Files → Option Outcome
open_file device ip omode p s = elim (filealloc s.ftable) [
  | none ↦ some (s, [], minus_one)
  | some (t, f) ↦ elim (fdalloc f (s.ofile p)) [
    | none ↦ elim (fileclose f t) [
      | none ↦ none
      | some (t', c) ↦ some (record { ftable = t'; ofile = s.ofile }, c ∷ [], minus_one)
    ]
    | some (table, fd) ↦ some (
      record {
        ftable = update t f (set_file device ip omode (t f));
        ofile = update s.ofile p table;
      },
      [],
      fd,
    )
  ]
]

-- `if(p->ofile[i]) np->ofile[i] = filedup(p->ofile[i]);`
abbrev pub fork_fd : ℕ → ℕ → ℕ → Option Files → Option Files
fork_fd p np i none = none
fork_fd p np i (some s) = elim (s.ofile p i) [
  | none ↦ some s
  | some f ↦ elim (filedup f s.ftable) [
    | none ↦ none
    | some t ↦ some (record { ftable = t; ofile = set_fd np i (some f) s.ofile })
  ]
]

unfoldable pub fork_files : ℕ → ℕ → Files → Option Files
fork_files p np s = each (fork_fd p np) nofile (some s)

-- `if(p->ofile[fd]){ fileclose(p->ofile[fd]); p->ofile[fd] = 0; }`
abbrev pub exit_fd : ℕ → ℕ → Option (Files × List Closing) → Option (Files × List Closing)
exit_fd p fd none = none
exit_fd p fd (some (s, cs)) = elim (s.ofile p fd) [
  | none ↦ some (s, cs)
  | some f ↦ elim (fileclose f s.ftable) [
    | none ↦ none
    | some (t, c) ↦ some (record { ftable = t; ofile = set_fd p fd none s.ofile }, cs ++ (c ∷ []))
  ]
]

unfoldable pub exit_files : ℕ → Files → Option (Files × List Closing)
exit_files p s = each (exit_fd p) nofile (some (s, []))
