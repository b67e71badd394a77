-- ===== src/Fs/Content/Itrunc.antt =====
-- What `itrunc` leaves of an inode (src/kernel/fs.c).
use enhanced_xv.Base.{
  ℕ, ◌+◌, ◌*◌, ◌/◌, ◌%◌, ◌<◌, ◌≤◌, ◌≡◌, ◌≢◌, refl, sym, ◌∙◌, ap, true, false, some, List, ◌∷◌, ltb,
  leb, ◌&&◌, update_self, update_ne, arith, inl, inr, ◌⊎◌, bit,
}
use enhanced_xv.Fs.{Superblock, Volume, bblock, bpb}
use enhanced_xv.Fs.Bitmap.{IsMap-kept}
use enhanced_xv.Fs.Content.Grow.{slot-cases}
use enhanced_xv.Fs.Scan.{is_used}
use enhanced_xv.Fs.Content.{ndirect, word}
use enhanced_xv.Fs.Content.Owned.{npointer, pointer, pointer-addrs, pointer-none, Owns}
use enhanced_xv.Fs.Content.Trunc.{IsFreed, Truncated, free_blocks_lem}
use enhanced_xv.Fs.Content.Iupdate.{
  Dinode, iblock, dinode_at, put_dinode, dinode_byte, slot_word, no_address, itrunc, iupdate,
}

-- What `itrunc` makes of an inode: in memory and on the disk it has size 0 and no blocks, and its other fields are as
-- they were in memory; the blocks it had are free; and no other byte is changed outside of the bitmap.
pub record IsTruncated (sb : Superblock) (inum : ℕ) (d : Dinode) (s : Volume) (d' : Dinode)
    (s' : Volume) : Type 0 where
  pub size : d'.size ≡ 0
  pub addrs : (k : ℕ) → k < 13 → d'.addrs k ≡ 0
  pub kind :
      (d'.itype ≡ d.itype) × (d'.major ≡ d.major) × (d'.minor ≡ d.minor) × (d'.nlink ≡ d.nlink)
  pub freed :
      (k : ℕ) → k < npointer → pointer s d.addrs k ≢ 0 → is_used sb s' (pointer s d.addrs k) ≡ false
  pub left :
      (b : ℕ)
      → b < sb.size
      → ((k : ℕ) → k < npointer → pointer s d.addrs k ≢ 0 → pointer s d.addrs k ≢ b)
      → is_used sb s' b ≡ is_used sb s b
  pub owns : Owns sb s' d'.addrs
  pub kind_on_disk :
      (word (s'.at (iblock sb inum)) (inum % 16 * 16) ≡ d.itype % 65536 + 65536 * (d.major % 65536))
      × (word (s'.at (iblock sb inum)) (inum % 16 * 16 + 1)
          ≡ d.minor % 65536 + 65536 * (d.nlink % 65536))
  pub size_on_disk : word (s'.at (iblock sb inum)) (inum % 16 * 16 + 2) ≡ 0
  pub addrs_on_disk :
      (k : ℕ) → k < 13 → word (s'.at (iblock sb inum)) (inum % 16 * 16 + (3 + k)) ≡ 0
  pub neighbours :
      (i : ℕ)
      → (i < dinode_at inum) ⊎ (dinode_at inum + 64 ≤ i)
      → s'.at (iblock sb inum) i ≡ s.at (iblock sb inum) i
  pub bytes :
      (n : ℕ) → n ≢ iblock sb inum → ((b : ℕ) → b < sb.size → n ≢ bblock sb b) → s'.at n ≡ s.at n
  pub logs : (l : List ℕ) × (s'.logged ≡ iblock sb inum ∷ l)

module _ (sb : Superblock) (inum : ℕ) (d : Dinode) (s : Volume) (o : Owns sb s d.addrs)
    (apart : (b : ℕ) → b < sb.size → iblock sb inum ≢ bblock sb b) where
  -- `iupdate` leaves the bitmap alone.
  iupdate-marks :
      (d' : Dinode) (s1 : Volume) (b : ℕ)
      → b < sb.size
      → is_used sb (iupdate sb inum d' s1) b ≡ is_used sb s1 b
  unfolding iupdate
  iupdate-marks d' s1 b lt =
      ap (λ f. bit (b % bpb % 8) (f (b % bpb / 8)))
        (update_ne s1.at (iblock sb inum) (put_dinode (dinode_at inum) d' (s1.at (iblock sb inum)))
          (bblock sb b) (λ e. apart b lt (sym e)))

  iupdate_self :
      (d' : Dinode) (s1 : Volume)
      → (iupdate sb inum d' s1).at (iblock sb inum)
        ≡ put_dinode (dinode_at inum) d' (s1.at (iblock sb inum))
  unfolding iupdate
  iupdate_self d' s1 =
      update_self s1.at (iblock sb inum) (put_dinode (dinode_at inum) d' (s1.at (iblock sb inum)))

  -- An inode without pointers, on any volume with the same marks.
  Owns-unmoved :
      (s1 s2 : Volume) (addrs : ℕ → ℕ)
      → Owns sb s1 addrs
      → ((k : ℕ) → k < 13 → addrs k ≡ 0)
      → ((b : ℕ) → b < sb.size → is_used sb s2 b ≡ is_used sb s1 b)
      → Owns sb s2 addrs
  Owns-unmoved s1 s2 addrs o1 none_left marks =
      let empty : (k : ℕ) → k < npointer → pointer s2 addrs k ≡ 0 = λ k lt. elim (slot-cases k lt) [
        | inl low ↦ pointer-addrs s2 addrs k low ∙ none_left k low
        | inr (j, e, _) ↦
            ap (pointer s2 addrs) e ∙ pointer-none s2 addrs j (none_left ndirect (omega arith))
      ] in
      record {
        map = IsMap-kept sb s1 s2 o1.map (λ b lt used. marks b lt ∙ used);
        disk = o1.disk;
        boot = marks 0 o1.disk ∙ o1.boot;
        inside = λ k lt nz. absurd (nz (empty k lt));
        used = λ k lt nz. absurd (nz (empty k lt));
        apart = λ k lt nz. absurd (nz (empty k lt));
        once = λ i j ilt _ nz. absurd (nz (empty i ilt));
      }

  truncated :
      (s1 : Volume) (addrs1 : ℕ → ℕ)
      → IsFreed sb s d.addrs o (λ _. true) s1
      → ((k : ℕ) → k < npointer → pointer s1 addrs1 k ≡ 0)
      → Owns sb s1 addrs1
      → IsTruncated sb inum d s
          (record d { size = 0; addrs = addrs1 })
          (iupdate sb inum (record d { size = 0; addrs = addrs1 }) s1)
  unfolding iupdate
  truncated s1 addrs1 f empty o1 =
      let d' : Dinode = record d { size = 0; addrs = addrs1 } in
      let n : ℕ = iblock sb inum in
      let none_left : (k : ℕ) → k < 13 → addrs1 k ≡ 0 =
        λ k lt. sym (pointer-addrs s1 addrs1 k lt) ∙ empty k (omega arith) in
      let self = iupdate_self d' s1 in
      let at : (q : ℕ)
          → q < 16
          → word ((iupdate sb inum d' s1).at (iblock sb inum)) (inum % 16 * 16 + q)
            ≡ dinode_byte d' (4 * q)
              + 256 * dinode_byte d' (4 * q + 1)
              + 65536 * dinode_byte d' (4 * q + 2)
              + 16777216 * dinode_byte d' (4 * q + 3) =
        λ q lt.
          ap (λ bs. word bs (inum % 16 * 16 + q)) self
          ∙ slot_word inum q d' (s1.at (iblock sb inum)) lt in
      let first : inum % 16 * 16 + 0 ≡ inum % 16 * 16 = omega arith in
      record {
        size = refl;
        addrs = none_left;
        kind = (refl, refl, refl, refl);
        freed = λ k lt nz.
            iupdate-marks d' s1 (pointer s d.addrs k) (o.inside k lt nz) ∙ f.freed k lt refl nz;
        left = λ b lt free. iupdate-marks d' s1 b lt ∙ f.left b lt (λ k klt _. free k klt);
        owns = Owns-unmoved s1 (iupdate sb inum d' s1) addrs1 o1 none_left (iupdate-marks d' s1);
        kind_on_disk = (
          ap (word ((iupdate sb inum d' s1).at (iblock sb inum))) (sym first)
              ∙ at 0 (omega arith)
              ∙ omega arith,
          at 1 (omega arith) ∙ omega arith,
        );
        size_on_disk = at 2 (omega arith) ∙ omega arith;
        addrs_on_disk = λ k lt.
            let z = none_left k lt in
            let at_first : 4 * (3 + k) + 0 ≡ 4 * (3 + k) = omega arith in
            let b0 = ap (dinode_byte d') (sym at_first) ∙ no_address d' k 0 (omega arith) z in
            at (3 + k) (omega arith)
            ∙ rw
                (
                  b0,
                  no_address d' k 1 (omega arith) z,
                  no_address d' k 2 (omega arith) z,
                  no_address d' k 3 (omega arith) z,
                )
                refl;
        neighbours = λ i side.
            let out : (leb (dinode_at inum) i && ltb i (dinode_at inum + 64)) ≡ false = elim side [
              | inl l ↦ ground arith
              | inr l ↦ ground arith
            ] in
            ap (λ bs. bs i) self ∙ rw out refl ∙ ap (λ bs. bs i) (f.bytes (iblock sb inum) apart);
        bytes = λ k ne off.
            update_ne s1.at (iblock sb inum)
              (put_dinode (dinode_at inum) d' (s1.at (iblock sb inum))) k ne
            ∙ f.bytes k off;
        logs = (s1.logged, refl);
      }

  -- On a volume where the inode owns its blocks, and its own block on the disk holds no part of the bitmap: itrunc
  -- does not panic. It frees the blocks that the inode owns and no other; in memory and on the disk the inode
  -- then has size 0 and no blocks, its other fields keep their values, and these are on the disk; it changes no byte but
  -- the bitmap's and the inode's 64, and logs the inode's block last.
  pub itrunc_lem :
      (d' : Dinode) × (s' : Volume) × (itrunc sb inum d s ≡ some (s', d'))
      × IsTruncated sb inum d s d' s'
  unfolding itrunc Truncated
  itrunc_lem =
      let (s1, addrs1, e, f, empty, o1) = free_blocks_lem sb s d.addrs o in
      (
        record d { size = 0; addrs = addrs1 },
        iupdate sb inum (record d { size = 0; addrs = addrs1 }) s1,
        rw (itrunc, e) refl,
        truncated s1 addrs1 f empty o1,
      )
