-- ===== src/Tests/Cache.antt =====
-- The buffer cache after `binit`, the transmit buffer, and what is printed.
use enhanced_xv.Base.{
  ℕ, suc, ◌+◌, ◌<◌, ◌≡◌, ◌≢◌, refl, ◌∙◌, none, some, true, false, arith, ◌⊎◌, inl, inr,
  if◌then◌else◌, ◌==◌, ◌&&◌, ◌++◌, ◌∷◌, [], int_lt, each_keeps, int_mod, update-cases, ap, length,
  ◌≤◌,
}
use enhanced_xv.Proc.{ProcTable, wakeup, proc_ptr}
use enhanced_xv.Sleeplock.{Sleeplock, initsleeplock, holdingsleep}
use enhanced_xv.Bio.{
  Buf, Bcache, nbuf, head, binit, set_buf, set_prev, set_next, link_front, brelse,
}
use enhanced_xv.Bio.Order.{IsOrder, remove, down, binit-IsOrder, brelse_lem}
use enhanced_xv.Bio.Lookup.{OneBuffer, Hit, Recycled, Panics, bget_lem}
use enhanced_xv.Print.{printint, atoi, printint_buf}
use enhanced_xv.Print.Digits.{atoi-printint, length-printint_buf}
use enhanced_xv.Uart.{Uart, Context, uartputc, sleeps, done, tx_buf_size}
use enhanced_xv.Uart.Queue.{IsValid, history, waiting, uartputc_lem}
use enhanced_xv.Tests.Data.{blank}

atoi_example : atoi (printint 1234 10 true) ≡ (if true && int_lt 1234 0 then 0 else 1234)
atoi_example = atoi-printint 1234 true (omega arith)

abbrev idle : ProcTable
idle _ = blank

-- Two characters wait.
abbrev uart : Uart
uart = record { buf = λ i. i; w = 34; r = 32; sent = []; reads = 0; procs = idle }

abbrev context : Context
context = record { now = 5; me = 1; chan = 77 }

uart-IsValid : IsValid uart
uart-IsValid = record { ordered = omega arith; bounded = omega arith; counted = omega arith }

uartputc_example :
    ((u' : Uart) × (uartputc (λ i. i == 0) context 0 65 uart ≡ sleeps u')
      × (34 ≡ 32 + tx_buf_size)
      × (history u' ≡ history uart))
    ⊎ ((u' : Uart) × (uartputc (λ i. i == 0) context 0 65 uart ≡ done u')
        × IsValid u'
        × (history u' ≡ history uart ++ (65 ∷ []))
        × ((waiting u' ≡ []) ⊎ ((i : ℕ) × (u'.reads ≡ suc i) × ((i == 0) ≡ false))))
uartputc_example = uartputc_lem (λ i. i == 0) context 0 65 uart uart-IsValid (omega arith)

-- The buffers of a kernel that starts.
abbrev empty_buf : Buf
empty_buf = record {
  valid = false;
  dev = 0;
  blockno = 0;
  lock = initsleeplock;
  refcnt = 0;
  bytes = λ _. 0;
}

abbrev start : Bcache
start = record { buf = λ _. empty_buf; prev = λ _. 0; next = λ _. 0 }

relocked :
    {A : Type 0} (f : Buf → A)
    → ((x : Buf) (l : Sleeplock) → f (record x { lock = l }) ≡ f x)
    → (i : ℕ) → f ((binit start).buf i) ≡ f empty_buf
unfolding binit
relocked f same i =
    each_keeps (λ c. f (c.buf i))
      (λ b c. link_front b (set_buf b (record (c.buf b) { lock = initsleeplock }) c))
      (λ b c. elim (update-cases c.buf b (record (c.buf b) { lock = initsleeplock }) i) [
        | inl (e, u) ↦ ap f u ∙ same (c.buf b) initsleeplock ∙ ap (λ k. f (c.buf k)) e
        | inr (_, u) ↦ ap f u
      ])
      nbuf (set_next head head (set_prev head head start))

start-OneBuffer : OneBuffer (binit start)
start-OneBuffer i j ilt jlt used _ _ = absurd (used (relocked (λ x. x.dev) (λ _ _. refl) i))

start_few : (i : ℕ) → suc ((binit start).buf i).refcnt < int_mod
start_few i = let e = relocked (λ x. x.refcnt) (λ _ _. refl) i in omega arith

bget_example :
    Hit 1 40 (binit start) (down nbuf)
    ⊎ (Recycled 1 40 (binit start) (down nbuf) ⊎ Panics 1 40 (binit start))
bget_example =
    bget_lem 1 40 (binit start) (down nbuf) (binit-IsOrder start) start-OneBuffer start_few

-- Buffer 3 is held once, by the process in slot 0.
abbrev held_buf : Buf
held_buf = record empty_buf { lock = record { locked = 1; pid = 0 }; refcnt = 1 }

abbrev held : Bcache
held = set_buf 3 held_buf (binit start)

held-IsOrder : IsOrder held (down nbuf)
held-IsOrder =
    let o = binit-IsOrder start in
    record { ring = o.ring; distinct = o.distinct; all = o.all; size = o.size }

brelse_example :
    ((holdingsleep 0 (held.buf 3).lock idle ≡ false) × (brelse 5 0 77 idle 3 held ≡ none))
    ⊎ ((c' : Bcache) × (brelse 5 0 77 idle 3 held ≡ some (c', wakeup 5 (proc_ptr 0) 77 idle))
        × (suc (c'.buf 3).refcnt ≡ (held.buf 3).refcnt)
        × ((c'.buf 3).lock ≡ initsleeplock)
        × ((i : ℕ) → i ≢ 3 → c'.buf i ≡ held.buf i)
        × IsOrder c' (if (held.buf 3).refcnt == 1 then 3 ∷ remove 3 (down nbuf) else down nbuf))
brelse_example =
    brelse_lem 5 0 77 idle 3 held (down nbuf) held-IsOrder (omega arith) (omega arith) (omega arith)

-- -42 as a 32-bit pattern.
length-printint_buf_example : length (printint_buf 4294967254 10 true) ≤ 11
length-printint_buf_example = length-printint_buf 4294967254 10 true (omega arith) (omega arith)
