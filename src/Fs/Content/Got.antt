-- ===== src/Fs/Content/Got.antt =====
-- What a run of `readi` is to have done (src/kernel/fs.c).
use enhanced_xv.Base.{ℕ, ◌+◌, ◌-◌, ◌/◌, ◌<◌, ◌≤◌, ◌≡◌, true, ◌⊎◌, ◌≢◌}
use enhanced_xv.Fs.{bsize, Superblock, Volume}
use enhanced_xv.Fs.Scan.{is_used}
use enhanced_xv.Fs.Content.Owned.{pointer, Owns}
use enhanced_xv.Fs.Content.Bmap.{slot}
use enhanced_xv.Fs.Content.Bytes.{max_bytes, content}
use enhanced_xv.Fs.Content.Written.{Fails}

module _ (sb : Superblock) (arrive : ℕ → ℕ → ℕ) where
  -- The inode's bytes are as they were, and `d` of the `len` bytes from `off` are at `dst`.
  pub record IsRead (dst off len : ℕ) (s : Volume) (addrs mem : ℕ → ℕ) (s' : Volume)
      (addrs' mem' : ℕ → ℕ) (d : ℕ) : Type 0 where
    pub owns : Owns sb s' addrs'
    pub count : d ≤ len
    pub same : (i : ℕ) → i < max_bytes → content s' addrs' i ≡ content s addrs i
    pub arrived : (i : ℕ) → i < d → mem' (dst + i) ≡ content s addrs (off + i)
    pub others : (x : ℕ) → (x < dst) ⊎ (dst + len ≤ x) → mem' x ≡ mem x
    pub slots_kept :
        (b : ℕ)
        → b < 268
        → pointer s addrs (slot b) ≢ 0
        → pointer s' addrs' (slot b) ≡ pointer s addrs (slot b)
    -- Fewer arrive only if the file has no block for one of them, or the either_copyout of the next
    -- ones, to `dst + d`, failed.
    pub short :
        d < len
        → ((i : ℕ) × (off ≤ i) × (i < off + len) × (pointer s addrs (slot (i / bsize)) ≡ 0))
          ⊎ Fails arrive (dst + d) (off + d) (len - d)

  -- How the loop ends, with `r` returned, once `d` of the `len` bytes are at `dst`.
  abbrev pub Ends : ℕ → ℕ → ℕ → ℕ → ℕ → Volume → ℕ → Type 0
  Ends dst off tot len d s' r =
      ((r ≡ tot + d) × (d < len → (b : ℕ) → b < sb.size → is_used sb s' b ≡ true))
      ⊎ ((r ≡ 4294967295) × Fails arrive (dst + d) (off + d) (len - d))
