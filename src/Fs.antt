-- ===== src/Fs.antt =====
-- src/kernel/fs.c: the bitmap of the disk's blocks, and the table of inodes in memory. A volume is the bytes of each block as `bread` gives them to
-- the running transaction, and the blocks it handed to `log_write`, latest first.
pub mod Scan
pub mod Bitmap
pub mod Inodes
pub mod References
pub mod Path
pub mod Directory
pub mod Content
use enhanced_xv.Base.{
  ℕ, zero, suc, ◌+◌, ◌-◌, ◌/◌, ◌%◌, Bool, true, false, not, Option, none, some, List, [], ◌∷◌,
  if◌then◌else◌, ◌==◌, ltb, update, take, find_first, bit, set_bit, int_lt, add32, ◌&&◌, sub32,
}

-- BSIZE
abbrev pub bsize : ℕ
bsize = 1024

-- BPB, the bits of a block.
abbrev pub bpb : ℕ
bpb = 8192

-- `struct superblock`, the fields that the functions here read.
pub record Superblock : Type 0 where
  pub size : ℕ
  pub ninodes : ℕ
  pub inodestart : ℕ
  pub bmapstart : ℕ

pub record Volume : Type 0 where
  pub at : ℕ → ℕ → ℕ
  pub logged : List ℕ

-- BBLOCK(b, sb)
abbrev pub bblock : Superblock → ℕ → ℕ
bblock sb b = b / bpb + sb.bmapstart

abbrev pub note_logged : ℕ → Volume → Volume
note_logged n s = record s { logged = n ∷ s.logged }

-- `bp->data[i] = byte;` for the buffer of block `n`.
abbrev pub set_data : ℕ → ℕ → ℕ → Volume → Volume
set_data n i byte s = record s { at = update s.at n (update (s.at n) i byte) }

abbrev pub bzero : ℕ → Volume → Volume
bzero n s =
    note_logged n (record s { at = update s.at n (λ i. if ltb i bsize then 0 else s.at n i) })

-- The bits that the inner loop of `balloc` looks at.
abbrev pub bits_from : Superblock → ℕ → ℕ
bits_from sb b = if ltb (sb.size - b) bpb then sb.size - b else bpb

-- `bp->data[bi/8] & (1 << (bi % 8))` in the buffer of bitmap block `n`.
abbrev pub is_marked : Volume → ℕ → ℕ → Bool
is_marked s n bi = bit (bi % 8) (s.at n (bi / 8))

-- The bit is set or cleared, and the block logged.
abbrev pub mark : Bool → ℕ → ℕ → Volume → Volume
mark b n bi s = note_logged n (set_data n (bi / 8) (set_bit b (bi % 8) (s.at n (bi / 8))) s)

-- The loops of `balloc` from block `b` on; `none` where they end without a return.
unfoldable pub balloc_from : Superblock → Volume → ℕ → ℕ → Option (Volume × ℕ)
balloc_from sb s zero b = none
balloc_from sb s (suc fuel) b =
    let rest = balloc_from sb s fuel (b + bpb) in
    if ltb b sb.size
    then elim (find_first (λ bi. not (is_marked s (bblock sb b) bi)) (bits_from sb b)) [
      | some bi ↦ some (bzero (b + bi) (mark true (bblock sb b) bi s), b + bi)
      | none ↦ rest
    ]
    else none

-- The block is 0 when the loops find none. Each turn passes at least one block, so `size` turns are enough.
unfoldable pub balloc : Superblock → Volume → Volume × ℕ
balloc sb s = elim (balloc_from sb s sb.size 0) [ none ↦ (s, 0) | some r ↦ r ]

-- `none` is a panic.
unfoldable pub bfree : Superblock → ℕ → Volume → Option Volume
bfree sb b s =
    let bi = b % bpb in
    if is_marked s (bblock sb b) bi then some (mark false (bblock sb b) bi s) else none

-- NINODE
abbrev pub ninode : ℕ
ninode = 50

-- `struct inode`, without its sleep lock and the copy of the disk inode but for `nlink`.
pub record Inode : Type 0 where
  pub dev : ℕ
  pub inum : ℕ
  pub ref : ℕ
  pub valid : Bool
  pub nlink : ℕ

-- `itable.inode`.
abbrev pub Itable : Type 0
Itable = ℕ → Inode

-- What the loop of `iget` finds: the inode, or the first empty slot, if any.
pub data Search : Type 0 where
  hit : ℕ → Search
  miss : Option ℕ → Search

abbrev pub is_inode : ℕ → ℕ → Inode → Bool
is_inode dev inum ip = int_lt 0 ip.ref && ip.dev == dev && ip.inum == inum

abbrev pub remember : ℕ → Inode → Option ℕ → Option ℕ
remember i ip (some j) = some j
remember i ip none = if ip.ref == 0 then some i else none

unfoldable pub search_inode : ℕ → ℕ → Itable → ℕ → Search
search_inode dev inum t zero = miss none
search_inode dev inum t (suc n) = elim (search_inode dev inum t n) [
  | hit i ↦ hit i
  | miss empty ↦ if is_inode dev inum (t n) then hit n else miss (remember n (t n) empty)
]

-- `none` is a panic.
unfoldable pub iget : ℕ → ℕ → Itable → Option (Itable × ℕ)
iget dev inum t = elim (search_inode dev inum t ninode) [
  | hit i ↦ some (update t i (record (t i) { ref = add32 (t i).ref 1 }), i)
  | miss none ↦ none
  | miss (some i) ↦
      some (update t i (record (t i) { dev = dev; inum = inum; ref = 1; valid = false }), i)
]

unfoldable pub idup : ℕ → Itable → Itable
idup i t = update t i (record (t i) { ref = add32 (t i).ref 1 })

-- `iput`: the table, and whether the inode was truncated and freed on the disk, as its last reference goes
-- and it has no links.
unfoldable pub iput : ℕ → Itable → Itable × Bool
iput i t =
    let frees = (t i).ref == 1 && (t i).valid && (t i).nlink == 0 in
    let ip = if frees then record (t i) { valid = false } else t i in
    (update t i (record ip { ref = sub32 ip.ref 1 }), frees)

-- DIRSIZ, and the character `/`.
abbrev pub dirsiz : ℕ
dirsiz = 14

abbrev pub slash : ℕ
slash = 47

-- A string is the list of its characters before the null. `while(*path == '/') path++;`
unfoldable pub skip_slashes : List ℕ → List ℕ
skip_slashes [] = []
skip_slashes (c ∷ l) = let rest = skip_slashes l in if c == slash then rest else c ∷ l

-- The characters before the next slash, and the path from there on.
unfoldable pub element : List ℕ → List ℕ × List ℕ
element [] = ([], [])
element (c ∷ l) =
    let rest : List ℕ × List ℕ = (c ∷ (element l).0, (element l).1) in
    if c == slash then ([], c ∷ l) else rest

-- `skipelem`: the path that is left, and the name.
unfoldable pub skipelem : List ℕ → Option (List ℕ × List ℕ)
skipelem path = elim (skip_slashes path) [
  | [] ↦ none
  | c ∷ l ↦ some (skip_slashes (element (c ∷ l)).1, take dirsiz (element (c ∷ l)).0)
]
