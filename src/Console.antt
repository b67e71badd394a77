-- ===== src/Console.antt =====
-- src/kernel/console.c: the input line editor, and `consoleread` from the point where it holds the lock up
-- to where it returns or sleeps. What `either_copyout` and `either_copyin` make of an address, and the
-- device behind `consputc` and `uartputc`, are outside: the bytes sent are a list, newest last. A key is the
-- byte that `uartgetc` returned.
pub mod Line
pub mod Store
pub mod Edit
pub mod Read
use enhanced_xv.Base.{
  ℕ, zero, suc, ◌+◌, ◌%◌, Bool, true, false, not, ◌&&◌, ◌||◌, Option, none, some, List, [], ◌∷◌,
  ◌++◌, if◌then◌else◌, ◌==◌, ltb, update, add32, sub32, minus_one, int_lt,
}
use enhanced_xv.Proc.{ProcTable, wakeup}

-- INPUT_BUF_SIZE
abbrev pub input_buf_size : ℕ
input_buf_size = 128

-- The newline, `\r`, C('D'), C('H'), C('P'), C('U') and `\x7f`.
abbrev pub newline : ℕ
newline = 10

abbrev pub carriage_return : ℕ
carriage_return = 13

abbrev pub ctrl_d : ℕ
ctrl_d = 4

abbrev pub ctrl_h : ℕ
ctrl_h = 8

abbrev pub ctrl_p : ℕ
ctrl_p = 16

abbrev pub ctrl_u : ℕ
ctrl_u = 21

abbrev pub delete : ℕ
delete = 127

-- BACKSPACE, what `consputc` is told to erase a character.
abbrev pub backspace : ℕ
backspace = 256

-- `cons`, without its lock.
pub record Cons : Type 0 where
  pub buf : ℕ → ℕ
  pub r : ℕ
  pub w : ℕ
  pub e : ℕ

-- With the process table, and what `consputc` was called with.
pub record Console : Type 0 where
  pub cons : Cons
  pub procs : ProcTable
  pub echoed : List ℕ

-- `cons.e--; consputc(BACKSPACE);`
abbrev pub erase : Console → Console
erase s = record s {
  cons = record s.cons { e = sub32 s.cons.e 1 };
  echoed = s.echoed ++ (backspace ∷ []);
}

-- The loop of C('U'); a turn moves `e` towards `w`, so `e - w` turns are enough.
unfoldable pub kill_line : ℕ → Console → Console
kill_line zero s = s
kill_line (suc fuel) s =
    let rest = kill_line fuel (erase s) in
    if s.cons.e == s.cons.w || s.cons.buf (sub32 s.cons.e 1 % input_buf_size) == newline
    then s
    else rest

-- The default case once `c` is read as a character `ch` that is kept: `now` is `ticks`, `me` is `myproc()`, and `chan` the
-- address of `cons.r`.
abbrev pub store : ℕ → ℕ → ℕ → ℕ → Console → Console
store now me chan ch s =
    let cons = record s.cons {
      buf = update s.cons.buf (s.cons.e % input_buf_size) ch;
      e = add32 s.cons.e 1;
    } in
    let echoed = s.echoed ++ (ch ∷ []) in
    if ch == newline || ch == ctrl_d || sub32 cons.e cons.r == input_buf_size
    then record {
      cons = record cons { w = cons.e };
      procs = wakeup now me chan s.procs;
      echoed = echoed;
    }
    else record { cons = cons; procs = s.procs; echoed = echoed }

unfoldable pub consoleintr : ℕ → ℕ → ℕ → ℕ → Console → Console
consoleintr now me chan c s =
    if c == ctrl_p
    then s
    else if c == ctrl_u
    then kill_line (sub32 s.cons.e s.cons.w) s
    else if c == ctrl_h || c == delete
    then (if s.cons.e == s.cons.w then s else erase s)
    else if not (c == 0) && ltb (sub32 s.cons.e s.cons.r) input_buf_size
    then store now me chan (if c == carriage_return then newline else c) s
    else s

-- Where a run of `consoleread` ends: it returns, or it sleeps on `cons.r`, with so many bytes to go; or it returns
-- -1; each with the bytes it copied out.
pub data Reading : Type 0 where
  returns sleeps : ℕ → Cons → List ℕ → Reading
  refused : Cons → List ℕ → Reading

abbrev pub copied : ℕ → Reading → Reading
copied c (returns n s out) = returns n s (c ∷ out)
copied c (sleeps n s out) = sleeps n s (c ∷ out)
copied c (refused s out) = refused s (c ∷ out)

-- The loop of `consoleread` with `n` bytes to go; `writable dst` says whether the byte at `dst` can be copied
-- out, and `dead` is `killed(myproc())`. It returns with the `n` that is left.
unfoldable pub read_loop : (ℕ → Bool) → Bool → ℕ → ℕ → ℕ → Cons → Reading
read_loop writable dead target dst zero s = returns zero s []
read_loop writable dead target dst (suc n) s =
    let c = s.buf (s.r % input_buf_size) in
    let s' = record s { r = add32 s.r 1 } in
    let rest = copied c (read_loop writable dead target (dst + 1) n s') in
    if s.r == s.w
    then (if dead then refused s [] else sleeps (suc n) s [])
    else if c == ctrl_d
    then returns (suc n) (if ltb (suc n) target then s else s') []
    else if not (writable dst)
    then returns (suc n) s' []
    else if c == newline
    then returns n s' (c ∷ [])
    else rest

-- `consoleread` of an `int` `n`.
unfoldable pub consoleread : (ℕ → Bool) → Bool → ℕ → ℕ → Cons → Reading
consoleread writable dead dst n s =
    if int_lt 0 n then read_loop writable dead n dst n s else returns n s []
