-- ===== src/Fs/Content/Io.antt =====
-- src/kernel/fs.c: reading and writing the bytes of an inode.
use enhanced_xv.Base.{
  ℕ, zero, suc, ◌+◌, ◌-◌, ◌*◌, ◌/◌, ◌%◌, Bool, true, Option, none, some, if◌then◌else◌, ◌==◌, ltb,
  leb, update, add32, ◌&&◌, sub32,
}
use enhanced_xv.Fs.{bsize, Superblock, Volume, note_logged}
use enhanced_xv.Fs.Content.{bmap}

-- The bytes that one turn moves: `min(n - tot, BSIZE - off%BSIZE)`.
abbrev pub turn_size : ℕ → ℕ → ℕ → ℕ
turn_size off tot n = if ltb (n - tot) (bsize - off % bsize) then n - tot else bsize - off % bsize

-- MAXFILE
abbrev pub maxfile : ℕ
maxfile = 268

-- The guards of `writei`.
abbrev pub too_far : ℕ → ℕ → ℕ → Bool
too_far size off n =
    if ltb size off
    then true
    else if ltb (add32 off n) off
    then true
    else ltb (maxfile * bsize) (add32 off n)

-- `byte` is the user's byte at an address, as `either_copyin` reads it.
module _ (byte : ℕ → ℕ) where
  -- `bytes` with `r` bytes from `src` at offset `o`.
  abbrev pub put_bytes : ℕ → ℕ → ℕ → (ℕ → ℕ) → ℕ → ℕ
  put_bytes o r src bytes i = if leb o i && ltb i (o + r) then byte (src + (i - o)) else bytes i

  abbrev pub fill_block : ℕ → ℕ → ℕ → ℕ → Volume → Volume
  fill_block a o r src s = record s { at = update s.at a (put_bytes o r src (s.at a)) }

  -- `arrive` tells how many of the bytes asked for from an address arrive; when fewer do, `either_copyin` returns -1.
  module _ (arrive : ℕ → ℕ → ℕ) where
    -- The loop of `writei`: the volume, `ip->addrs`, `off` and `tot` at its end.
    unfoldable pub write_loop :
        Superblock → ℕ → ℕ → ℕ → ℕ → ℕ → Volume → (ℕ → ℕ) → Option (Volume × (ℕ → ℕ) × ℕ × ℕ)
    write_loop sb zero src off tot n s addrs = some (s, addrs, off, tot)
    write_loop sb (suc fuel) src off tot n s addrs =
        let m = turn_size off tot n in
        if ltb tot n
        then elim (bmap sb (off / bsize) s addrs) [
          | none ↦ none
          | some (s1, addrs1, a) ↦
              let s2 = fill_block a (off % bsize) (arrive src m) src s1 in
              let rest =
                write_loop sb fuel (src + m) (add32 off m) (add32 tot m) n (note_logged a s2)
                  addrs1 in
              if a == 0
              then some (s1, addrs1, off, tot)
              else if arrive src m == m
              then rest
              else some (s2, addrs1, off, tot)
        ]
        else some (s, addrs, off, tot)

    -- `writei` before its `iupdate`: the volume, `ip->addrs`, `ip->size` and what is returned. A turn writes at least
    -- one byte, so `n` turns are enough. `none` is a panic.
    unfoldable pub writei :
        Superblock → ℕ → ℕ → ℕ → ℕ → Volume → (ℕ → ℕ) → Option (Volume × (ℕ → ℕ) × ℕ × ℕ)
    writei sb src off n size s addrs =
        if too_far size off n
        then some (s, addrs, size, 4294967295)
        else elim (write_loop sb n src off 0 n s addrs) [
          | none ↦ none
          | some (s', addrs', off', tot) ↦
              some (s', addrs', (if ltb size off' then off' else size), tot)
        ]

-- The user's memory after `r` of the bytes arrived at `dst`.
abbrev pub deliver : ℕ → ℕ → (ℕ → ℕ) → (ℕ → ℕ) → ℕ → ℕ
deliver dst r bytes mem x = if leb dst x && ltb x (dst + r) then bytes (x - dst) else mem x

-- The guard of `readi`.
unfoldable pub out_of_file : ℕ → ℕ → ℕ → Bool
out_of_file size off n = if ltb size off then true else ltb (add32 off n) off

-- `n` once `readi` cut it to what the file has.
unfoldable pub clipped : ℕ → ℕ → ℕ → ℕ
clipped size off n = if ltb size (add32 off n) then sub32 size off else n

-- `arrive` tells how many of the bytes sent to an address arrive; when fewer do, `either_copyout` returns -1.
module _ (arrive : ℕ → ℕ → ℕ) where
  -- The loop of `readi`: the volume, `ip->addrs`, the user's memory and `tot` at its end.
  unfoldable pub read_loop :
      Superblock
      → ℕ
      → ℕ
      → ℕ
      → ℕ
      → ℕ
      → Volume
      → (ℕ → ℕ)
      → (ℕ → ℕ)
      → Option (Volume × (ℕ → ℕ) × (ℕ → ℕ) × ℕ)
  read_loop sb zero dst off tot n s addrs mem = some (s, addrs, mem, tot)
  read_loop sb (suc fuel) dst off tot n s addrs mem =
      let m = turn_size off tot n in
      if ltb tot n
      then elim (bmap sb (off / bsize) s addrs) [
        | none ↦ none
        | some (s1, addrs1, a) ↦
            let mem1 = deliver dst (arrive dst m) (λ i. s1.at a (off % bsize + i)) mem in
            let rest = read_loop sb fuel (dst + m) (add32 off m) (add32 tot m) n s1 addrs1 mem1 in
            if a == 0
            then some (s1, addrs1, mem, tot)
            else if arrive dst m == m
            then rest
            else some (s1, addrs1, mem1, 4294967295)
      ]
      else some (s, addrs, mem, tot)

  -- A turn reads at least one byte, so as many turns as bytes are enough. `none` is a panic.
  unfoldable pub readi :
      Superblock
      → ℕ
      → ℕ
      → ℕ
      → ℕ
      → Volume
      → (ℕ → ℕ)
      → (ℕ → ℕ)
      → Option (Volume × (ℕ → ℕ) × (ℕ → ℕ) × ℕ)
  readi sb dst off n size s addrs mem =
      if out_of_file size off n
      then some (s, addrs, mem, 0)
      else read_loop sb (clipped size off n) dst off 0 (clipped size off n) s addrs mem
