-- ===== src/Log/Commit.antt =====
-- `commit` (src/kernel/log.c) is atomic: a crash at any moment of it leaves, after recovery, either all of
-- the transaction's blocks or none.
use enhanced_xv.Base.{ℕ, ◌<◌, ◌≤◌, ◌≡◌, false, [], if◌then◌else◌, ◌⊎◌}
use enhanced_xv.Log.{Disk, Log, logsize, install_trans, write_head, write_log, initlog}
use enhanced_xv.Log.Install.{logged, IsHome}
use enhanced_xv.Log.Recovery.{count_at, IsCommitted, after_install}

-- A transaction that is ready to commit: the log on the disk is empty, the blocks are outside of it, and no
-- crash is considered before this point.
pub record IsReady (l : Log) : Type 0 where
  pub some_blocks : 0 < l.n
  pub fits : l.n ≤ logsize
  pub homes : (i : ℕ) → i < l.n → IsHome l.start (l.block i)
  pub empty : count_at l.start l.store.disk ≡ 0
  pub fresh : l.store.past ≡ []

-- The blocks outside of the log with the transaction in place.
pub committed_disk : Log → Disk
committed_disk l b = if logged l.n l.block b then l.store.cached b else l.store.disk b

-- A disk from which recovery makes `E` of the blocks outside of the log.
pub record Recovers (start : ℕ) (C E D : Disk) : Type 0 where
  pub committed : IsCommitted start C D
  pub blocks : (b : ℕ) → IsHome start b → after_install start C D b ≡ E b

module _ (l : Log) (r : IsReady l) where
  abbrev OldOrNew : Disk → Type 0
  OldOrNew D =
      Recovers l.start l.store.cached l.store.disk D
      ⊎ Recovers l.start l.store.cached (committed_disk l) D

  saved : Log
  saved = write_log l

  -- The header is on the disk: the transaction is committed.
  marked : Log
  marked = write_head saved

  installed : Log
  installed = install_trans false marked

  finished : Log
  finished = write_head (record installed { n = 0 })

  -- After a crash that leaves the disk `D`, a boot leaves the blocks outside of the log as in `E`.
  abbrev pub BootsTo : Disk → Disk → Type 0
  BootsTo E D = (b : ℕ) → IsHome l.start b → (initlog l.start l.size D).store.disk b ≡ E b
