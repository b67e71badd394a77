-- ===== src/Fs/Directory.antt =====
-- src/kernel/fs.c: the entries of a directory. A name is the function of its bytes. The `iget` of what `dirlookup` finds
-- is left to its caller.
pub mod Lookup
use enhanced_xv.Base.{
  ℕ, zero, suc, ◌+◌, ◌*◌, Bool, true, false, Option, none, some, if◌then◌else◌, ◌==◌, ltb, add32,
}
use enhanced_xv.Fs.{dirsiz, Superblock, Volume}
use enhanced_xv.Fs.Content.Io.{readi}

-- `sizeof(de)`
abbrev pub dirent_size : ℕ
dirent_size = 16

-- `de.inum` and `de.name` of an entry whose bytes are given.
abbrev pub de_inum : (ℕ → ℕ) → ℕ
de_inum de = de 0 + 256 * de 1

abbrev pub de_name : (ℕ → ℕ) → ℕ → ℕ
de_name de i = de (2 + i)

-- `namecmp(s, t) == 0`: whether `strncmp` of `n` bytes from `i` on returns 0.
abbrev pub same_from : ℕ → ℕ → (ℕ → ℕ) → (ℕ → ℕ) → Bool
same_from zero i s t = true
same_from (suc n) i s t =
    let rest = same_from n (i + 1) s t in
    if s i == 0 then t i == 0 else if s i == t i then rest else false

abbrev pub is_same_name : (ℕ → ℕ) → (ℕ → ℕ) → Bool
is_same_name = same_from dirsiz 0

-- `readi` into the kernel's memory copies all bytes.
abbrev pub to_kernel : ℕ → ℕ → ℕ
to_kernel dst m = m

-- The loop of `dirlookup` from `off` on: the volume, `dp->addrs`, and the number and the offset of the entry.
unfoldable pub lookup_loop :
    Superblock → ℕ → (ℕ → ℕ) → ℕ → ℕ → Volume → (ℕ → ℕ) → Option (Volume × (ℕ → ℕ) × Option (ℕ × ℕ))
lookup_loop sb zero name off size s addrs = some (s, addrs, none)
lookup_loop sb (suc fuel) name off size s addrs =
    if ltb off size
    then elim (readi to_kernel sb 0 off dirent_size size s addrs (λ _. 0)) [
      | none ↦ none
      | some (s1, addrs1, de, r) ↦
          let rest = lookup_loop sb fuel name (add32 off dirent_size) size s1 addrs1 in
          if r == dirent_size
          then (if de_inum de == 0
              then rest
              else if is_same_name name (de_name de)
              then some (s1, addrs1, some (de_inum de, off))
              else rest)
          else none
    ]
    else some (s, addrs, none)

-- `none` is a panic. A turn passes an entry, so `size` turns are enough.
unfoldable pub dirlookup :
    Superblock → Bool → (ℕ → ℕ) → ℕ → Volume → (ℕ → ℕ) → Option (Volume × (ℕ → ℕ) × Option (ℕ × ℕ))
dirlookup sb is_dir name size s addrs =
    if is_dir then lookup_loop sb size name 0 size s addrs else none
