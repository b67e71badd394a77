-- ===== src/Log.antt =====
-- src/kernel/log.c: the write-ahead log of the file system. A block is a function from the offset of a
-- 32-bit word to the word. The buffer cache is seen as what `bread` gives for each block; its buffers that the
-- log needs are pinned. Its counts are `int`s. A disk write keeps the disk as it was before in `past`: a crash leaves one of these.
pub mod Install
pub mod Recovery
pub mod Save
pub mod Commit
use enhanced_xv.Base.{
  ℕ, zero, suc, ◌+◌, ◌-◌, ◌*◌, Bool, true, false, ◌||◌, Option, none, some, List, [], ◌∷◌,
  if◌then◌else◌, ◌==◌, ltb, leb, update, each, find_first, add32, sub32, mul32, int_lt, int_le,
}
use enhanced_xv.Proc.{ProcTable, wakeup}

abbrev pub Block : Type 0
Block = ℕ → ℕ

abbrev pub Disk : Type 0
Disk = ℕ → Block

-- What `bread` gives, the disk, and the disks before each write, the last one first.
pub record Storage : Type 0 where
  pub cached : Disk
  pub disk : Disk
  pub past : List Disk

abbrev pub set_buffer : ℕ → Block → Storage → Storage
set_buffer b content s = record s { cached = update s.cached b content }

-- `bwrite`
abbrev pub bwrite : ℕ → Storage → Storage
bwrite b s = record s { disk = update s.disk b (s.cached b); past = s.disk ∷ s.past }

-- What is left after a crash that leaves the disk `d`.
abbrev pub restart : Disk → Storage
restart d = record { cached = d; disk = d; past = [] }

-- MAXOPBLOCKS and LOGSIZE
abbrev pub maxopblocks : ℕ
maxopblocks = 10

abbrev pub logsize : ℕ
logsize = 30

-- `struct log` with its header `lh`, without the lock; and the references that pin a block's buffer.
pub record Log : Type 0 where
  pub start : ℕ
  pub size : ℕ
  pub outstanding : ℕ
  pub committing : Bool
  pub n : ℕ
  pub block : ℕ → ℕ
  pub pins : ℕ → ℕ
  pub store : Storage

-- The body of the loop of `install_trans`.
abbrev pub install_block : Bool → ℕ → Log → Log
install_block recovering tail l =
    let home = l.block tail in
    let s = bwrite home (set_buffer home (l.store.cached (l.start + tail + 1)) l.store) in
    record l {
      store = s;
      pins = if recovering then l.pins else update l.pins home (sub32 (l.pins home) 1);
    }

unfoldable pub install_trans : Bool → Log → Log
install_trans recovering l = each (install_block recovering) l.n l

-- The words of the header block: the count, and the block numbers.
pub read_head : Log → Log
read_head l =
    let head = l.store.cached l.start in
    record l { n = head 0; block = λ i. if ltb i (head 0) then head (i + 1) else l.block i }

abbrev pub header : ℕ → (ℕ → ℕ) → Block → Block
header n block old w = if w == 0 then n else if leb w n then block (w - 1) else old w

pub write_head : Log → Log
write_head l = record l {
  store = bwrite l.start (set_buffer l.start (header l.n l.block (l.store.cached l.start)) l.store);
}

pub recover_from_log : Log → Log
recover_from_log l = write_head (record (install_trans true (read_head l)) { n = 0 })

-- `initlog`, after a crash or a shutdown that left the disk `d`. `log` is zero then.
pub initlog : ℕ → ℕ → Disk → Log
initlog logstart nlog d = recover_from_log (record {
  start = logstart;
  size = nlog;
  outstanding = 0;
  committing = false;
  n = 0;
  block = λ _. 0;
  pins = λ _. 0;
  store = restart d;
})

-- The body of the loop of `write_log`.
abbrev pub save_block : ℕ → Log → Log
save_block tail l =
    let to = l.start + tail + 1 in
    record l { store = bwrite to (set_buffer to (l.store.cached (l.block tail)) l.store) }

pub write_log : Log → Log
write_log l = each save_block l.n l

pub commit : Log → Log
commit l =
    if int_lt 0 l.n
    then write_head (record (install_trans false (write_head (write_log l))) { n = 0 })
    else l

-- A turn of `begin_op`: it enters, or sleeps on `&log`.
pub data Turn : Type 0 where
  enters : Log → Turn
  sleeps : Turn

unfoldable pub begin_op : Log → Turn
begin_op l =
    if l.committing
    then sleeps
    else if int_lt logsize (add32 l.n (mul32 (add32 l.outstanding 1) maxopblocks))
    then sleeps
    else enters (record l { outstanding = add32 l.outstanding 1 })

-- `end_op` on a log with an operation outstanding; `none` is a panic. Both of its ways wake the sleepers on
-- `&log`, of which `chan` is the address.
pub end_op : ℕ → ℕ → ℕ → Log → ProcTable → Option (Log × ProcTable)
end_op now me chan l t =
    let l1 = record l { outstanding = sub32 l.outstanding 1 } in
    if l.committing
    then none
    else if l1.outstanding == 0
    then some (
      record (commit (record l1 { committing = true })) { committing = false },
      wakeup now me chan t,
    )
    else some (l1, wakeup now me chan t)

-- `log_write` of the buffer of block `b`; `none` is a panic.
pub log_write : ℕ → Log → Option Log
log_write b l =
    if int_le logsize l.n || int_le (sub32 l.size 1) l.n
    then none
    else if int_lt l.outstanding 1
    then none
    else some (elim (find_first (λ i. l.block i == b) l.n) [
      | some i ↦ record l { block = update l.block i b }
      | none ↦ record l {
        block = update l.block l.n b;
        n = add32 l.n 1;
        pins = update l.pins b (add32 (l.pins b) 1);
      }
    ])
