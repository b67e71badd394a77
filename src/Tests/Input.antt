-- ===== src/Tests/Input.antt =====
-- The console, the matcher, sleep locks and open files on small inputs.
use enhanced_xv.Base.{
  ℕ, ◌<◌, ◌≡◌, ◌≢◌, refl, none, some, true, false, arith, ◌↔◌, if◌then◌else◌, ◌==◌, [], ◌∷◌, List,
  update, ◌+◌,
}
use enhanced_xv.Console.{Cons, Console, consoleintr, consoleread}
use enhanced_xv.Console.Line.{IsValid, input, keystroke}
use enhanced_xv.Console.Edit.{consoleintr_lem}
use enhanced_xv.Console.Read.{seen, left, deliver, consoleread_lem}
use enhanced_xv.Grep.{match}
use enhanced_xv.Grep.Search.{Matches, match_iff}
use enhanced_xv.Sleeplock.{initsleeplock, acquiresleep, holdingsleep}
use enhanced_xv.Sleeplock.System.{
  System, outside, trying, inside, waits, Reachable, begin, then_step, enter, take,
}
use enhanced_xv.Sleeplock.Exclusion.{Reachable-exclusive}
use enhanced_xv.File.{File, fd_none, fd_inode, Files, Closing, nfile, nofile, set_fd}
use enhanced_xv.File.Counts.{IsValid as CountsIsValid, handles}
use enhanced_xv.File.Calls.{first}
use enhanced_xv.File.Machine.{
  Machine, opens, run, Reachable as MachineReachable, boot, Reachable-IsSound, Reachable-counted,
}
use enhanced_xv.File.Io.{Mover}
use enhanced_xv.Tests.Data.{table}

-- "hi" and a newline, typed and complete.
abbrev typed_line : Cons
typed_line = record {
  buf = λ i. if i == 0 then 104 else if i == 1 then 105 else 10;
  r = 0;
  w = 3;
  e = 3;
}

typed_line-IsValid : IsValid typed_line
typed_line-IsValid = record {
  r_in = omega arith;
  w_in = omega arith;
  e_in = omega arith;
  ordered = refl;
  bounded = omega arith;
  flushed = λ h. refl;
  no_newline = λ j lt. elim lt [ ];
}

consoleread_example :
    (seen (consoleread (λ _. true) true 0 10 typed_line)
      ≡ deliver (λ _. true) true 10 0 10 (input typed_line).ready)
    × IsValid (left (consoleread (λ _. true) true 0 10 typed_line))
    × ((input (left (consoleread (λ _. true) true 0 10 typed_line))).line ≡ (input typed_line).line)
consoleread_example =
    consoleread_lem (λ _. true) true 0 10 typed_line (omega arith) typed_line-IsValid

abbrev screen : Console
screen = record { cons = typed_line; procs = table 0 0; echoed = [] }

consoleintr_example :
    IsValid (consoleintr 5 1 500 97 screen).cons
    × (input (consoleintr 5 1 500 97 screen).cons ≡ keystroke 97 (input typed_line))
consoleintr_example = consoleintr_lem 5 1 500 97 screen typed_line-IsValid

-- "a*b" in "caab"
match_example :
    (match (97 ∷ 42 ∷ 98 ∷ []) (99 ∷ 97 ∷ 97 ∷ 98 ∷ []) ≡ true)
    ↔ Matches (97 ∷ 42 ∷ 98 ∷ []) (99 ∷ 97 ∷ 97 ∷ 98 ∷ [])
match_example = match_iff (97 ∷ 42 ∷ 98 ∷ []) (99 ∷ 97 ∷ 97 ∷ 98 ∷ [])

-- The process in slot 0 has taken the lock at 500.
abbrev unlocked : System
unlocked = record { lock = initsleeplock; procs = table 0 0; at = λ _. outside }

abbrev wanted : System
wanted = record unlocked { at = update unlocked.at 0 trying }

abbrev locked : System
locked = record {
  lock = record { locked = 1; pid = (table 0 0 0).pid };
  procs = table 0 0;
  at = update wanted.at 0 inside;
}

locked-Reachable : Reachable 500 locked
unfolding acquiresleep
locked-Reachable =
    then_step {s = wanted} {s' = locked}
      (then_step {s = unlocked} {s' = wanted} (begin (table 0 0) (λ i. ground arith))
        (enter 0 (omega arith) refl))
      (take 0 locked.lock refl refl)

sleeplock_example :
    ((i j : ℕ) → locked.at i ≡ inside → locked.at j ≡ inside → i ≡ j)
    × ((i : ℕ) → locked.at i ≡ inside → holdingsleep i locked.lock locked.procs ≡ true)
    × (locked.lock.locked ≢ 0 → (i : ℕ) × (locked.at i ≡ inside))
    × ((j : ℕ) → waits 500 j locked.procs ≡ true → (i : ℕ) × (locked.at i ≡ inside))
sleeplock_example = Reachable-exclusive 500 locked locked-Reachable

abbrev blank_file : File
blank_file = record {
  ftype = fd_none;
  ref = 0;
  readable = 0;
  writable = 0;
  pipe = 0;
  ip = 0;
  off = 0;
  major = 0;
}

-- Nothing is open, and slot 0 of the process table is in use.
abbrev fresh : Machine
fresh = record {
  files = record { ftable = λ _. blank_file; ofile = λ _ _. none };
  live = λ p. p == 0;
}

fresh-Reachable : MachineReachable fresh
fresh-Reachable = boot fresh (λ f. refl) (λ p fd. refl)

counted_example :
    ((f : ℕ) → f < nfile → 0 ≡ handles fresh.files.ofile f)
    × ((p : ℕ) → fresh.live p ≡ false → (fd : ℕ) → fd < nofile → fresh.files.ofile p fd ≡ none)
    × ((m' : Machine) × (cs : List Closing) × (run (opens none 7 2 0) fresh ≡ some (m', cs)))
counted_example = Reachable-counted fresh (opens none 7 2 0) fresh-Reachable (omega arith, refl)

-- File 0 is open on the inode at 7, with descriptor 0 of process 0.
abbrev inode_file : File
inode_file = record blank_file { ftype = fd_inode; ref = 1; ip = 7 }

abbrev one_open : Files
one_open = record {
  ftable = update (λ _. blank_file) 0 inode_file;
  ofile = set_fd 0 0 (some 0) (λ _ _. none);
}

one_open-IsValid : CountsIsValid one_open
one_open-IsValid =
    first fresh.files 0 0 0 inode_file (Reachable-IsSound fresh fresh-Reachable).valid (omega arith)
      (omega arith) (omega arith) refl refl refl

-- The inode at 7 counts the bytes that are written to it; there are no pipes and no devices.
abbrev counter : Mover ℕ
counter = record {
  of_pipe = λ pipe addr n u. (u, 0);
  of_device = λ major. none;
  of_inode = λ ip addr off n u. (u + n, n);
}

abbrev writable_file : File
writable_file = record inode_file { writable = 1 }
