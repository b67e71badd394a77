-- ===== src/Fs/Content.antt =====
-- src/kernel/fs.c: the blocks of an inode. `addrs` is `ip->addrs`; a word of a block is its four bytes, the
-- lowest first.
pub mod Words
pub mod Owned
pub mod Grow
pub mod Bmap
pub mod Trunc
pub mod Iupdate
pub mod Itrunc
pub mod Io
pub mod Bytes
pub mod Written
pub mod Write
pub mod Got
pub mod Read
pub mod Copies
use enhanced_xv.Base.{
  ℕ, zero, suc, ◌+◌, ◌-◌, ◌*◌, ◌/◌, ◌%◌, Bool, true, false, Option, none, some, if◌then◌else◌, ◌==◌,
  ltb, update, each,
}
use enhanced_xv.Fs.{Superblock, Volume, balloc, bfree, set_data, note_logged}

-- NDIRECT and NINDIRECT
abbrev pub ndirect : ℕ
ndirect = 12

abbrev pub nindirect : ℕ
nindirect = 256

-- `a[i]`, where `a` is `(uint*)bp->data`.
abbrev pub word : (ℕ → ℕ) → ℕ → ℕ
word bytes i =
    bytes (4 * i)
    + 256 * bytes (4 * i + 1)
    + 65536 * bytes (4 * i + 2)
    + 16777216 * bytes (4 * i + 3)

abbrev pub set_word : ℕ → ℕ → (ℕ → ℕ) → ℕ → ℕ
set_word i w bytes j =
    if j == 4 * i
    then w % 256
    else if j == 4 * i + 1
    then w / 256 % 256
    else if j == 4 * i + 2
    then w / 65536 % 256
    else if j == 4 * i + 3
    then w / 16777216 % 256
    else bytes j

-- `if((addr = ip->addrs[i]) == 0){ addr = balloc(ip->dev); if(addr == 0) return 0; ip->addrs[i] = addr; }`
unfoldable pub load_addr : Superblock → ℕ → Volume → (ℕ → ℕ) → Volume × (ℕ → ℕ) × ℕ
load_addr sb i s addrs =
    let (s', addr) = balloc sb s in
    if addrs i == 0
    then (if addr == 0 then (s', addrs, 0) else (s', update addrs i addr, addr))
    else (s, addrs, addrs i)

-- `if((addr = a[i]) == 0){ … }`, where `a` is the block `n`.
unfoldable pub load_entry : Superblock → ℕ → ℕ → Volume → Volume × ℕ
load_entry sb n i s =
    let (s', addr) = balloc sb s in
    if word (s.at n) i == 0
    then (if addr == 0
        then (s', 0)
        else (note_logged n (record s' { at = update s'.at n (set_word i addr (s'.at n)) }), addr))
    else (s, word (s.at n) i)

-- `none` is a panic.
unfoldable pub bmap : Superblock → ℕ → Volume → (ℕ → ℕ) → Option (Volume × (ℕ → ℕ) × ℕ)
bmap sb bn s addrs =
    if ltb bn ndirect
    then some (load_addr sb bn s addrs)
    else if ltb (bn - ndirect) nindirect
    then (let (s1, addrs1, n) = load_addr sb ndirect s addrs in
        let (s2, addr) = load_entry sb n (bn - ndirect) s1 in
        some (if n == 0 then (s1, addrs1, 0) else (s2, addrs1, addr)))
    else none

-- `if(ip->addrs[i]){ bfree(ip->dev, ip->addrs[i]); ip->addrs[i] = 0; }`
abbrev pub free_addr : Superblock → ℕ → Option (Volume × (ℕ → ℕ)) → Option (Volume × (ℕ → ℕ))
free_addr sb i none = none
free_addr sb i (some (s, addrs)) =
    if addrs i == 0
    then some (s, addrs)
    else elim (bfree sb (addrs i) s) [ none ↦ none | some s' ↦ some (s', update addrs i 0) ]

-- `if(a[j]) bfree(ip->dev, a[j]);`, where `a` is the block `n`; its buffer is held, and no `bfree` changes it.
abbrev pub free_entry : Superblock → ℕ → ℕ → Option Volume → Option Volume
free_entry sb n j none = none
free_entry sb n j (some s) = if word (s.at n) j == 0 then some s else bfree sb (word (s.at n) j) s

-- The loops of `itrunc`.
unfoldable pub free_blocks : Superblock → Volume → (ℕ → ℕ) → Option (Volume × (ℕ → ℕ))
free_blocks sb s addrs = elim (each (free_addr sb) ndirect (some (s, addrs))) [
  | none ↦ none
  | some (s1, addrs1) ↦
      if addrs1 ndirect == 0
      then some (s1, addrs1)
      else elim (each (free_entry sb (addrs1 ndirect)) nindirect (some s1)) [
        | none ↦ none
        | some s2 ↦ free_addr sb ndirect (some (s2, addrs1))
      ]
]
