-- ===== src/Bio.antt =====
-- src/kernel/bio.c: the cache of disk blocks. A buffer is its index in `bcache.buf`, and `bcache.head` has the
-- index behind them. Each function is up to the point where it gives `bcache.lock` up; the disk is what
-- `virtio_disk_rw` reads and writes. A result `none` is a panic.
pub mod Links
pub mod Order
pub mod Scan
pub mod Lookup
use enhanced_xv.Base.{
  ℕ, zero, suc, Bool, true, false, not, ◌&&◌, Option, none, some, if◌then◌else◌, ◌==◌, update, each,
  add32, sub32,
}
use enhanced_xv.Proc.{ProcTable}
use enhanced_xv.Sleeplock.{Sleeplock, initsleeplock, releasesleep, holdingsleep}

-- NBUF
abbrev pub nbuf : ℕ
nbuf = 30

abbrev pub head : ℕ
head = nbuf

-- `struct buf`, without `disk`; its links are in `Bcache`.
pub record Buf : Type 0 where
  pub valid : Bool
  pub dev : ℕ
  pub blockno : ℕ
  pub lock : Sleeplock
  pub refcnt : ℕ
  pub bytes : ℕ → ℕ

-- `bcache`: the buffers, and the links of the buffers and of `head`.
pub record Bcache : Type 0 where
  pub buf : ℕ → Buf
  pub prev : ℕ → ℕ
  pub next : ℕ → ℕ

abbrev pub set_prev : ℕ → ℕ → Bcache → Bcache
set_prev b p c = record c { prev = update c.prev b p }

abbrev pub set_next : ℕ → ℕ → Bcache → Bcache
set_next b n c = record c { next = update c.next b n }

-- `b->next = head.next; b->prev = &head; head.next->prev = b; head.next = b;`
abbrev pub link_front : ℕ → Bcache → Bcache
link_front b c =
    let c1 = set_next b (c.next head) c in
    let c2 = set_prev b head c1 in let c3 = set_prev (c2.next head) b c2 in set_next head b c3

-- `b->next->prev = b->prev; b->prev->next = b->next;`
abbrev pub unlink : ℕ → Bcache → Bcache
unlink b c = let c1 = set_prev (c.next b) (c.prev b) c in set_next (c1.prev b) (c1.next b) c1

abbrev pub set_buf : ℕ → Buf → Bcache → Bcache
set_buf b x c = record c { buf = update c.buf b x }

unfoldable pub binit : Bcache → Bcache
binit c =
    each (λ b c. link_front b (set_buf b (record (c.buf b) { lock = initsleeplock }) c)) nbuf
      (set_next head head (set_prev head head c))

abbrev pub is_block : ℕ → ℕ → Buf → Bool
is_block dev blockno x = x.dev == dev && x.blockno == blockno

-- `for(b = head.next; b != &head; b = b->next) if(test) …`, and so with `prev`.
unfoldable pub scan : (ℕ → Bool) → (ℕ → ℕ) → ℕ → ℕ → Option ℕ
scan test step zero b = none
scan test step (suc fuel) b =
    let rest = scan test step fuel (step b) in
    if b == head then none else if test b then some b else rest

-- The buffer that `bget` goes on to lock. A loop has a round for each buffer, and one for `head`.
unfoldable pub bget : ℕ → ℕ → Bcache → Option (Bcache × ℕ)
bget dev blockno c =
    elim (scan (λ b. is_block dev blockno (c.buf b)) c.next (suc nbuf) (c.next head)) [
      | some b ↦ some (set_buf b (record (c.buf b) { refcnt = add32 (c.buf b).refcnt 1 }) c, b)
      | none ↦ elim (scan (λ b. (c.buf b).refcnt == 0) c.prev (suc nbuf) (c.prev head)) [
        | some b ↦ some (
          set_buf b (record (c.buf b) { dev = dev; blockno = blockno; valid = false; refcnt = 1 })
              c,
          b,
        )
        | none ↦ none
      ]
    ]

-- `bread` once it has the buffer locked.
unfoldable pub fill : (ℕ → ℕ → ℕ) → ℕ → Bcache → Bcache
fill disk b c =
    if (c.buf b).valid
    then c
    else set_buf b (record (c.buf b) { bytes = disk (c.buf b).blockno; valid = true }) c

unfoldable pub bwrite : ℕ → ProcTable → ℕ → Bcache → (ℕ → ℕ → ℕ) → Option (ℕ → ℕ → ℕ)
bwrite me t b c disk =
    if not (holdingsleep me (c.buf b).lock t)
    then none
    else some (update disk (c.buf b).blockno (c.buf b).bytes)

-- `brelse` by the process in slot `me`; `chan` is the address of the buffer's lock.
unfoldable pub brelse : ℕ → ℕ → ℕ → ProcTable → ℕ → Bcache → Option (Bcache × ProcTable)
brelse now me chan t b c =
    let (lock, t') = releasesleep now chan me t in
    let c' = set_buf b (record (c.buf b) { lock = lock; refcnt = sub32 (c.buf b).refcnt 1 }) c in
    if not (holdingsleep me (c.buf b).lock t)
    then none
    else some (if (c'.buf b).refcnt == 0 then link_front b (unlink b c') else c', t')

unfoldable pub bpin : ℕ → Bcache → Bcache
bpin b c = set_buf b (record (c.buf b) { refcnt = add32 (c.buf b).refcnt 1 }) c

unfoldable pub bunpin : ℕ → Bcache → Bcache
bunpin b c = set_buf b (record (c.buf b) { refcnt = sub32 (c.buf b).refcnt 1 }) c
