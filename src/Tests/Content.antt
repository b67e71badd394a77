-- ===== src/Tests/Content.antt =====
-- A file of one block on a small disk.
use enhanced_xv.Base.{
  Option, ℕ, ◌+◌, ◌-◌, ◌<◌, ◌≤◌, ◌≡◌, ◌≢◌, refl, sym, ◌∙◌, none, some, true, arith, ◌⊎◌, inl, inr,
  if◌then◌else◌, ◌==◌, ltb, [], subst, bit, Bool-cases, ap,
}
use enhanced_xv.Fs.{Superblock, Volume, bblock, note_logged}
use enhanced_xv.Fs.Scan.{is_used}
use enhanced_xv.Fs.Bitmap.{IsMap}
use enhanced_xv.Fs.Content.{ndirect, nindirect, bmap, load_addr}
use enhanced_xv.Fs.Content.Owned.{pointer, Owns}
use enhanced_xv.Fs.Content.Bmap.{Mapped, slot, bmap_lem}
use enhanced_xv.Fs.Content.Iupdate.{Dinode, itrunc}
use enhanced_xv.Fs.Content.Itrunc.{IsTruncated, itrunc_lem}
use enhanced_xv.Fs.Content.Io.{write_loop, writei, readi, fill_block}
use enhanced_xv.Fs.Content.Bytes.{max_bytes, content}
use enhanced_xv.Fs.Directory.{dirlookup}
use enhanced_xv.Fs.Directory.Lookup.{NoHole, Found, dirlookup_lem}
use enhanced_xv.Fs.Content.Written.{IsWritten}
use enhanced_xv.Fs.Content.Write.{writei_lem}
use enhanced_xv.Fs.Content.Got.{IsRead, Ends}
use enhanced_xv.Fs.Content.Read.{readi_lem}
use enhanced_xv.Fs.Content.Copies.{readi-writei}

-- A disk of 100 blocks whose bitmap, block 45, marks block 0 and the blocks 40 to 47.
abbrev disk : Superblock
disk = record { size = 100; ninodes = 10; inodestart = 32; bmapstart = 45 }

abbrev files : Volume
files = record {
  at = λ n i.
      if n == 45
      then (if i == 5 then 255 else if i == 0 then 1 else 0)
      else if n == 41
      then (if i == 16 then 5 else if i == 18 then 97 else 0)
      else 0;
  logged = [];
}

-- The file's first block is 41. Read as a directory, its second entry is "a", of inode 5.
abbrev file : ℕ → ℕ
file k = if k == 0 then 41 else 0

file-pointer : (k : ℕ) → pointer files file k ≡ file k
unfolding pointer
file-pointer k = ground arith

file_slot : (k : ℕ) → pointer files file k ≢ 0 → (k ≡ 0) × (pointer files file k ≡ 41)
file_slot k nz = elim (Bool-cases (k == 0)) [
  | inl e ↦ (ground arith, file-pointer k ∙ rw e refl)
  | inr e ↦ absurd (nz (file-pointer k ∙ rw e refl))
]

files-IsMap : IsMap disk files
unfolding IsMap bit
files-IsMap b lt =
    let e : 45 ≡ bblock disk b = omega arith in
    (omega arith, subst (λ n. is_used disk files n ≡ true) e refl)

file-Owns : Owns disk files file
unfolding bit
file-Owns = record {
  map = files-IsMap;
  disk = omega arith;
  boot = refl;
  inside = λ k lt nz. subst (λ p. p < 100) (sym (file_slot k nz).1) (omega arith);
  used = λ k lt nz. ap (is_used disk files) (file_slot k nz).1;
  apart = λ k lt nz b blt e.
      let q = (file_slot k nz).1 in
      let at : 45 ≡ bblock disk b = omega arith in absurd (omega arith);
  once = λ i j ilt jlt inz jnz e. (file_slot i inz).0 ∙ sym (file_slot j jnz).0;
}

bmap_example :
    ((3 < ndirect + nindirect) × Mapped disk (omega arith) 3 (slot 3) files file)
    ⊎ ((ndirect + nindirect ≤ 3) × (bmap disk 3 files file ≡ none))
bmap_example = bmap_lem disk (omega arith) files file 3 file-Owns

-- The file is inode 5, which stands in block 32.
abbrev inode : Dinode
inode = record { itype = 2; major = 0; minor = 0; nlink = 1; size = 4; addrs = file }

itrunc_example :
    (d' : Dinode) × (s' : Volume) × (itrunc disk 5 inode files ≡ some (s', d'))
    × IsTruncated disk 5 inode files d' s'
itrunc_example = itrunc_lem disk 5 inode files file-Owns (λ b lt e. omega arith)

-- The user's byte at an address is the address, and all bytes asked for arrive.
abbrev user_byte : ℕ → ℕ
user_byte x = x

abbrev all_arrive : ℕ → ℕ → ℕ
all_arrive x m = m

-- Nothing is copied past address 1000.
abbrev some_arrive : ℕ → ℕ → ℕ
some_arrive x m = if ltb (x + m) 1000 then m else 0

writei_example :
    (((4 < 2) ⊎ (max_bytes < 2 + 5))
      × (writei user_byte some_arrive disk 998 2 5 4 files file
          ≡ some (files, file, 4, 4294967295)))
    ⊎ ((2 ≤ 4)
        × (2 + 5 ≤ max_bytes)
        × (s' : Volume) × (addrs' : ℕ → ℕ) × (d : ℕ) × (writei user_byte some_arrive disk 998 2 5 4
              files file
            ≡ some (s', addrs', (if ltb 4 (2 + d) then 2 + d else 4), d))
        × IsWritten disk user_byte some_arrive 998 2 5 files file s' addrs' d)
writei_example =
    writei_lem disk (omega arith) user_byte some_arrive (λ _ _. ground arith) 998 2 5 4 files file
      file-Owns (omega arith) (omega arith)

readi_example :
    (((4 < 1) ⊎ (4294967296 ≤ 1 + 9))
      × (readi some_arrive disk 997 1 9 4 files file user_byte ≡ some (files, file, user_byte, 0)))
    ⊎ ((len : ℕ) × (s' : Volume) × (addrs' : ℕ → ℕ) × (mem' : ℕ → ℕ) × (d : ℕ) × (r : ℕ) × (len
          ≡ (if ltb 4 (1 + 9) then 4 - 1 else 9))
        × (readi some_arrive disk 997 1 9 4 files file user_byte ≡ some (s', addrs', mem', r))
        × IsRead disk some_arrive 997 1 len files file user_byte s' addrs' mem' d
        × Ends disk some_arrive 997 1 0 len d s' r)
readi_example =
    readi_lem disk (omega arith) some_arrive (λ _ _. ground arith) 997 1 9 4 files file user_byte
      file-Owns (omega arith) (omega arith) (omega arith)

-- Block 41 with the five bytes at offset 2.
abbrev written : Volume
written = note_logged 41 (fill_block user_byte 41 2 5 100 files)

writei-files : writei user_byte all_arrive disk 100 2 5 4 files file ≡ some (written, file, 7, 5)
unfolding writei write_loop bmap load_addr
writei-files = refl

copies_example :
    (s'' : Volume) × (addrs'' : ℕ → ℕ) × (mem' : ℕ → ℕ) × (m : ℕ) × (r : ℕ) × (readi all_arrive disk
        500 2 5 7 written file user_byte
      ≡ some (s'', addrs'', mem', r))
    × ((i : ℕ) → i < m → mem' (500 + i) ≡ 100 + i)
    × Ends disk all_arrive 500 2 0 5 m s'' r
copies_example =
    readi-writei disk (omega arith) user_byte all_arrive all_arrive (λ _ _. omega arith)
      (λ _ _. omega arith) 100 500 2 5 4 files file user_byte written file 7 5 file-Owns
      (omega arith) (omega arith) (omega arith) (omega arith) writei-files

-- "a"
abbrev name : ℕ → ℕ
name i = if i == 0 then 97 else 0

file-NoHole : NoHole disk (omega arith) name 32 (omega arith) refl files file
file-NoHole b lt z =
    let first : slot b ≡ 0 = ground arith in
    let at : pointer files file (slot b) ≡ 41 = ap (pointer files file) first ∙ file-pointer 0 in
    absurd (omega arith)

dirlookup_example :
    (s' : Volume) × (addrs' : ℕ → ℕ) × (r : Option (ℕ × ℕ)) × (dirlookup disk true name 32 files
        file
      ≡ some (s', addrs', r))
    × Owns disk s' addrs'
    × ((i : ℕ) → i < max_bytes → content s' addrs' i ≡ content files file i)
    × Found disk (omega arith) name 32 (omega arith) refl (content files file) 0 r
dirlookup_example =
    dirlookup_lem disk (omega arith) name 32 (omega arith) refl files file file-Owns file-NoHole
