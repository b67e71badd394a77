-- ===== src/Tests/Disk.antt =====
-- The log, the bitmap, inodes and open files on small states.
use enhanced_xv.Base.{
  ℕ, ◌<◌, ◌≡◌, ◌≢◌, refl, none, some, true, false, arith, ◌⊎◌, if◌then◌else◌, ◌==◌, [], subst, bit,
  find_first,
}
use enhanced_xv.Log.{Log, Disk}
use enhanced_xv.Fs.{
  Superblock, Volume, Itable, ninode, balloc, balloc_from, bfree, bzero, mark, iget, bblock,
  is_inode,
}
use enhanced_xv.Fs.Scan.{is_used}
use enhanced_xv.Fs.Bitmap.{IsMap, IsAllocated, balloc_lem, bfree-balloc}
use enhanced_xv.Fs.Inodes.{IsSingle, IsGot, iget_lem}

-- Block 100 holds sevens in the cache, and the log, at block 2, names it.
abbrev sevens : Disk
sevens b w = if b == 100 then 7 else 0

abbrev full_log : Log
full_log = record {
  start = 2;
  size = 31;
  outstanding = 0;
  committing = true;
  n = 1;
  block = λ _. 100;
  pins = λ b. if b == 100 then 1 else 0;
  store = record { cached = sevens; disk = λ _ _. 0; past = [] };
}

-- A disk on which block 3 holds the logged copy of block 100.
abbrev logged_disk : Disk
logged_disk b w =
    if b == 2
    then (if w == 0 then 1 else if w == 1 then 100 else 0)
    else if b == 3
    then sevens 100 w
    else 0

-- A disk of 100 blocks whose bitmap, block 45, marks block 0 and the blocks 40 to 47.
abbrev small_disk : Superblock
small_disk = record { size = 100; ninodes = 10; inodestart = 32; bmapstart = 45 }

abbrev volume : Volume
volume = record {
  at = λ n i. if n == 45 then (if i == 5 then 255 else if i == 0 then 1 else 0) else 0;
  logged = [];
}

volume-IsMap : IsMap small_disk volume
unfolding IsMap bit
volume-IsMap b lt =
    let e : 45 ≡ bblock small_disk b = omega arith in
    (omega arith, subst (λ n. is_used small_disk volume n ≡ true) e refl)

balloc_example :
    ((balloc small_disk volume ≡ (volume, 0))
      × ((d : ℕ) → d < 100 → is_used small_disk volume d ≡ true))
    ⊎ ((c : ℕ) × (s' : Volume) × (balloc small_disk volume ≡ (s', c))
        × (c ≢ 0)
        × IsAllocated small_disk volume s' c
        × IsMap small_disk s')
unfolding bit
balloc_example = balloc_lem small_disk volume volume-IsMap refl

-- The volume after block 1 was given out.
abbrev given : Volume
given = bzero 1 (mark true 45 1 volume)

given-balloc : balloc small_disk volume ≡ (given, 1)
unfolding balloc balloc_from bit find_first
given-balloc = refl

bfree-balloc_example :
    (s'' : Volume) × (bfree small_disk 1 given ≡ some s'')
    × ((d : ℕ) → d < 100 → is_used small_disk s'' d ≡ is_used small_disk volume d)
unfolding bit
bfree-balloc_example =
    bfree-balloc small_disk volume given 1 volume-IsMap refl given-balloc (λ e. omega arith)

-- No inode is in memory but one, without links, that has one reference.
abbrev inodes : Itable
inodes i = record { dev = 1; inum = 7; ref = if i == 0 then 1 else 0; valid = true; nlink = 0 }

inodes-IsSingle : IsSingle inodes
unfolding IsSingle
inodes-IsSingle i j ilt jlt iref jref same = ground arith

iget_example :
    ((iget 1 9 inodes ≡ none)
      × ((i : ℕ) → i < ninode → ((inodes i).ref ≢ 0) × (is_inode 1 9 (inodes i) ≡ false)))
    ⊎ ((i : ℕ) × (t' : Itable) × (iget 1 9 inodes ≡ some (t', i)) × IsGot 1 9 inodes t' i)
iget_example = iget_lem 1 9 inodes inodes-IsSingle (λ i lt. ground arith)
