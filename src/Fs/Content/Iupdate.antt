-- ===== src/Fs/Content/Iupdate.antt =====
-- src/kernel/fs.c: `iupdate`, and `itrunc` with its own `iupdate`.
use enhanced_xv.Base.{
  ℕ, ◌+◌, ◌-◌, ◌*◌, ◌/◌, ◌%◌, ◌<◌, ◌≡◌, refl, ◌∙◌, ap, true, false, Option, none, some,
  if◌then◌else◌, ◌==◌, ltb, leb, ◌&&◌, update, arith,
}
use enhanced_xv.Fs.{Superblock, Volume, note_logged}
use enhanced_xv.Fs.Content.{word, free_blocks}

-- The fields of `struct inode` that are on the disk too.
pub record Dinode : Type 0 where
  pub itype : ℕ
  pub major : ℕ
  pub minor : ℕ
  pub nlink : ℕ
  pub size : ℕ
  pub addrs : ℕ → ℕ

-- IBLOCK(inum, sb), and where the inode stands in the block, with IPB = 16.
abbrev pub iblock : Superblock → ℕ → ℕ
iblock sb inum = inum / 16 + sb.inodestart

abbrev pub dinode_at : ℕ → ℕ
dinode_at inum = inum % 16 * 64

-- Byte `j` of an integer, the lowest first.
abbrev pub int_byte : ℕ → ℕ → ℕ
int_byte w j =
    if j == 0
    then w % 256
    else if j == 1
    then w / 256 % 256
    else if j == 2
    then w / 65536 % 256
    else w / 16777216 % 256

-- Byte `o` of `*dip`: four shorts, the size and the addresses.
abbrev pub dinode_byte : Dinode → ℕ → ℕ
dinode_byte d o =
    if ltb o 2
    then int_byte d.itype o
    else if ltb o 4
    then int_byte d.major (o - 2)
    else if ltb o 6
    then int_byte d.minor (o - 4)
    else if ltb o 8
    then int_byte d.nlink (o - 6)
    else if ltb o 12
    then int_byte d.size (o - 8)
    else int_byte (d.addrs ((o - 12) / 4)) ((o - 12) % 4)

abbrev pub put_dinode : ℕ → Dinode → (ℕ → ℕ) → ℕ → ℕ
put_dinode start d bytes i =
    if leb start i && ltb i (start + 64) then dinode_byte d (i - start) else bytes i

unfoldable pub iupdate : Superblock → ℕ → Dinode → Volume → Volume
iupdate sb inum d s =
    let n = iblock sb inum in
    note_logged n (record s { at = update s.at n (put_dinode (dinode_at inum) d (s.at n)) })

-- `none` is a panic.
unfoldable pub itrunc : Superblock → ℕ → Dinode → Volume → Option (Volume × Dinode)
itrunc sb inum d s = elim (free_blocks sb s d.addrs) [
  | none ↦ none
  | some (s', addrs') ↦
      let d' = record d { size = 0; addrs = addrs' } in some (iupdate sb inum d' s', d')
]

-- A word of the inode in its block.
pub slot_word :
    (inum q : ℕ) (d : Dinode) (bytes : ℕ → ℕ)
    → q < 16
    → word (put_dinode (dinode_at inum) d bytes) (inum % 16 * 16 + q)
      ≡ dinode_byte d (4 * q)
        + 256 * dinode_byte d (4 * q + 1)
        + 65536 * dinode_byte d (4 * q + 2)
        + 16777216 * dinode_byte d (4 * q + 3)
slot_word inum q d bytes lt =
    let here : (o : ℕ)
        → o < 64
        → put_dinode (dinode_at inum) d bytes (inum % 16 * 64 + o) ≡ dinode_byte d o =
      λ o olt.
        let within : (leb (inum % 16 * 64) (inum % 16 * 64 + o)
              && ltb (inum % 16 * 64 + o) (inum % 16 * 64 + 64))
            ≡ true =
          ground arith in
        let at : inum % 16 * 64 + o - inum % 16 * 64 ≡ o = omega arith in rw (within, at) refl in
    let (p0, p1, p2, p3) : (4 * (inum % 16 * 16 + q) ≡ inum % 16 * 64 + 4 * q)
        × (4 * (inum % 16 * 16 + q) + 1 ≡ inum % 16 * 64 + (4 * q + 1))
        × (4 * (inum % 16 * 16 + q) + 2 ≡ inum % 16 * 64 + (4 * q + 2))
        × (4 * (inum % 16 * 16 + q) + 3 ≡ inum % 16 * 64 + (4 * q + 3)) =
      (omega arith, omega arith, omega arith, omega arith) in
    let put : ℕ → ℕ = put_dinode (dinode_at inum) d bytes in
    let b0 = ap put p0 ∙ here (4 * q) (omega arith) in
    let b1 = ap put p1 ∙ here (4 * q + 1) (omega arith) in
    let b2 = ap put p2 ∙ here (4 * q + 2) (omega arith) in
    let b3 = ap put p3 ∙ here (4 * q + 3) (omega arith) in
    ap
      (λ x.
        x
        + 256 * put (4 * (inum % 16 * 16 + q) + 1)
        + 65536 * put (4 * (inum % 16 * 16 + q) + 2)
        + 16777216 * put (4 * (inum % 16 * 16 + q) + 3))
      b0
    ∙ ap
        (λ x.
          dinode_byte d (4 * q)
          + 256 * x
          + 65536 * put (4 * (inum % 16 * 16 + q) + 2)
          + 16777216 * put (4 * (inum % 16 * 16 + q) + 3))
        b1
    ∙ ap
        (λ x.
          dinode_byte d (4 * q)
          + 256 * dinode_byte d (4 * q + 1)
          + 65536 * x
          + 16777216 * put (4 * (inum % 16 * 16 + q) + 3))
        b2
    ∙ ap
        (λ x.
          dinode_byte d (4 * q)
          + 256 * dinode_byte d (4 * q + 1)
          + 65536 * dinode_byte d (4 * q + 2)
          + 16777216 * x)
        b3

-- The bytes of an address that is 0.
pub no_address :
    (d : Dinode) (k j : ℕ) → j < 4 → d.addrs k ≡ 0 → dinode_byte d (4 * (3 + k) + j) ≡ 0
no_address d k j lt z =
    let (a, b, c, e, f) : (ltb (4 * (3 + k) + j) 2 ≡ false)
        × (ltb (4 * (3 + k) + j) 4 ≡ false)
        × (ltb (4 * (3 + k) + j) 6 ≡ false)
        × (ltb (4 * (3 + k) + j) 8 ≡ false)
        × (ltb (4 * (3 + k) + j) 12 ≡ false) =
      (ground arith, ground arith, ground arith, ground arith, ground arith) in
    let (p, q) : ((4 * (3 + k) + j - 12) / 4 ≡ k) × ((4 * (3 + k) + j - 12) % 4 ≡ j) =
      (omega arith, omega arith) in
    rw (a, b, c, e, f, p, q, z) (ground arith)
