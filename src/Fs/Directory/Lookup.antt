-- ===== src/Fs/Directory/Lookup.antt =====
-- `dirlookup` finds the first entry with the name (src/kernel/fs.c).
use enhanced_xv.Base.{
  ℕ, zero, suc, ◌+◌, ◌-◌, ◌*◌, ◌/◌, ◌%◌, ◌<◌, ◌≤◌, ◌≡◌, ◌≢◌, refl, sym, ◌∙◌, ap, ap₂, Bool, true,
  false, not, ◌&&◌, Option, none, some, ◌==◌, ltb, add32, arith, Bool-cases, inl, inr, int_mod,
}
use enhanced_xv.Fs.Content.Bmap.{slot}
use enhanced_xv.Fs.{bsize, dirsiz, Superblock, Volume, bsize}
use enhanced_xv.Fs.Content.Owned.{Owns, pointer}
use enhanced_xv.Fs.Content.Bytes.{max_bytes, content}
use enhanced_xv.Fs.Content.Io.{readi}
use enhanced_xv.Fs.Content.Read.{readi_lem}
use enhanced_xv.Fs.Directory.{
  dirent_size, de_inum, de_name, same_from, is_same_name, to_kernel, lookup_loop, dirlookup,
}

-- Whether the entry with the bytes `de` is in use and has the name.
abbrev pub is_entry : (ℕ → ℕ) → (ℕ → ℕ) → Bool
is_entry name de = not (de_inum de == 0) && is_same_name name (de_name de)

-- The bytes of entry `k`.
abbrev pub entry : (ℕ → ℕ) → ℕ → ℕ → ℕ
entry bytes k i = bytes (dirent_size * k + i)

same_from-same :
    (n i : ℕ) (s t u : ℕ → ℕ)
    → ((j : ℕ) → j < i + n → t j ≡ u j)
    → same_from n i s t ≡ same_from n i s u
same_from-same zero i s t u h = refl
same_from-same (suc n) i s t u h =
    let (e, rest) : (t i ≡ u i) × (same_from n (i + 1) s t ≡ same_from n (i + 1) s u) =
      (h i (omega arith), same_from-same n (i + 1) s t u (λ j lt. h j (omega arith))) in
    rw (e, rest) refl

is_entry-same :
    (name t u : ℕ → ℕ)
    → ((j : ℕ) → j < dirent_size → t j ≡ u j)
    → (de_inum t ≡ de_inum u) × (is_entry name t ≡ is_entry name u)
is_entry-same name t u h =
    let e : de_inum t ≡ de_inum u =
      ap₂ (λ a b. a + 256 * b) (h 0 (omega arith)) (h 1 (omega arith)) in
    let q : is_same_name name (de_name t) ≡ is_same_name name (de_name u) =
      same_from-same dirsiz 0 name (de_name t) (de_name u) (λ j lt. h (2 + j) (omega arith)) in
    (e, ap₂ (λ a b. not (a == 0) && b) e q)

module _ (sb : Superblock) (fits : sb.size < int_mod) (name : ℕ → ℕ) (size : ℕ)
    (big : size ≤ max_bytes) (whole : size % 16 ≡ 0) where
  -- The first entry from `k` on that is in use and has the name, or that there is none.
  unfoldable pub Found : (ℕ → ℕ) → ℕ → Option (ℕ × ℕ) → Type 0
  Found bytes k none = (j : ℕ) → k ≤ j → 16 * j < size → is_entry name (entry bytes j) ≡ false
  Found bytes k (some (inum, off)) =
      (j : ℕ) × (k ≤ j)
      × (16 * j < size)
      × (off ≡ 16 * j)
      × (inum ≡ de_inum (entry bytes j))
      × (is_entry name (entry bytes j) ≡ true)
      × ((i : ℕ) → k ≤ i → i < j → is_entry name (entry bytes i) ≡ false)

  -- One more entry that is not the one.
  Found-earlier :
      (bytes : ℕ → ℕ) (k : ℕ) (r : Option (ℕ × ℕ))
      → is_entry name (entry bytes k) ≡ false
      → Found bytes (k + 1) r
      → Found bytes k r
  unfolding Found
  Found-earlier bytes k none isnt all = λ j le lt. elim (Bool-cases (j == k)) [
    | inl e ↦ let here : j ≡ k = ground arith in ap (λ x. is_entry name (entry bytes x)) here ∙ isnt
    | inr e ↦ all j (ground arith) lt
  ]
  Found-earlier bytes k (some (inum, off)) isnt (j, le, lt, at, is_inum, is, before) = (
    j,
    omega arith,
    lt,
    at,
    is_inum,
    is,
    λ i low high. elim (Bool-cases (i == k)) [
      | inl e ↦
          let here : i ≡ k = ground arith in ap (λ x. is_entry name (entry bytes x)) here ∙ isnt
      | inr e ↦ before i (ground arith) high
    ],
  )

  -- The file has a block for each of its bytes.
  abbrev pub NoHole : Volume → (ℕ → ℕ) → Type 0
  NoHole s addrs = (b : ℕ) → bsize * b < size → pointer s addrs (slot b) ≢ 0

  -- How the search over the entries from `k` on ends.
  Searched : ℕ → ℕ → Volume → (ℕ → ℕ) → (ℕ → ℕ) → Type 0
  Searched fuel k s addrs bytes =
      (s' : Volume) × (addrs' : ℕ → ℕ) × (r : Option (ℕ × ℕ)) × (lookup_loop sb fuel name (16 * k)
          size s addrs
        ≡ some (s', addrs', r))
      × Owns sb s' addrs'
      × ((i : ℕ) → i < max_bytes → content s' addrs' i ≡ bytes i)
      × Found bytes k r

  -- A read of an entry gets all its bytes.
  ReadsEntry : ℕ → Volume → (ℕ → ℕ) → Type 0
  ReadsEntry k s addrs =
      (s1 : Volume) × (addrs1 : ℕ → ℕ) × (de : ℕ → ℕ) × (readi to_kernel sb 0 (16 * k) dirent_size
          size s addrs (λ _. 0)
        ≡ some (s1, addrs1, de, dirent_size))
      × Owns sb s1 addrs1
      × NoHole s1 addrs1
      × ((i : ℕ) → i < max_bytes → content s1 addrs1 i ≡ content s addrs i)
      × ((i : ℕ) → i < dirent_size → de i ≡ content s addrs (16 * k + i))

  reads_entry :
      (k : ℕ) (s : Volume) (addrs : ℕ → ℕ)
      → Owns sb s addrs
      → NoHole s addrs
      → 16 * k < size
      → ReadsEntry k s addrs
  unfolding ReadsEntry
  reads_entry k s addrs o full lt =
      elim (readi_lem sb fits to_kernel (λ _ _. omega arith) 0 (16 * k) 16 size s addrs (λ _. 0) o
        (omega arith) (omega arith) big) [
          | inl (why, _) ↦ absurd (elim why [ inl l ↦ omega arith | inr l ↦ omega arith ])
          | inr (len, s1, addrs1, de, d, r, e, q, g, ends) ↦
              let all : len ≡ 16 = ground arith in
              let most = g.count in
              let every : d ≡ 16 = elim (Bool-cases (ltb d 16)) [
                | inr enough ↦ ground arith
                | inl fewer ↦ elim (g.short (ground arith)) [
                  | inl (i, low, high, z) ↦ absurd (full (i / bsize) (omega arith) z)
                  | inr less ↦ absurd (ground arith)
                ]
              ] in
              let got : r ≡ dirent_size = elim ends [
                | inl (p, _) ↦ omega arith
                | inr (_, less) ↦ absurd (ground arith)
              ] in
              (
                s1,
                addrs1,
                de,
                q ∙ rw got refl,
                g.owns,
                λ b blt z. full b blt (sym (g.slots_kept b (omega arith) (full b blt)) ∙ z),
                g.same,
                λ i ilt.
                    let at : 0 + i ≡ i = omega arith in ap de (sym at) ∙ g.arrived i (omega arith),
              )
        ]

  in_file : (k i : ℕ) → 16 * k < size → i < dirent_size → 16 * k + i < max_bytes
  in_file k i lt ilt = omega arith

  -- One entry was read, and the search over those after it is known.
  next :
      (fuel k : ℕ) (s : Volume) (addrs bytes : ℕ → ℕ)
      → 16 * k < size
      → (s1 : Volume) (addrs1 de : ℕ → ℕ)
      → readi to_kernel sb 0 (16 * k) dirent_size size s addrs (λ _. 0)
        ≡ some (s1, addrs1, de, dirent_size)
      → Owns sb s1 addrs1
      → ((i : ℕ) → i < max_bytes → content s1 addrs1 i ≡ bytes i)
      → ((i : ℕ) → i < dirent_size → de i ≡ bytes (16 * k + i))
      → Searched fuel (k + 1) s1 addrs1 bytes
      → Searched (suc fuel) k s addrs bytes
  unfolding Searched lookup_loop Found
  next fuel k s addrs bytes lt s1 addrs1 de q o1 same1 at (s', addrs', r, e, o', same', found) =
      let more : ltb (16 * k) size ≡ true = ground arith in
      let step : add32 (16 * k) dirent_size ≡ 16 * (k + 1) = omega arith in
      let (num, is) : (de_inum de ≡ de_inum (entry bytes k))
          × (is_entry name de ≡ is_entry name (entry bytes k)) =
        is_entry-same name de (entry bytes k) at in
      elim (Bool-cases (de_inum de == 0)) [
        | inl free ↦
            let isnt : is_entry name de ≡ false = rw free refl in
            (
              s',
              addrs',
              r,
              rw (lookup_loop, more, q, free, step) e,
              o',
              same',
              Found-earlier bytes k r (sym is ∙ isnt) found,
            )
        | inr used ↦ elim (Bool-cases (is_same_name name (de_name de))) [
          | inr other ↦
              let isnt : is_entry name de ≡ false = rw (used, other) refl in
              (
                s',
                addrs',
                r,
                rw (lookup_loop, more, q, used, other, step) e,
                o',
                same',
                Found-earlier bytes k r (sym is ∙ isnt) found,
              )
          | inl same ↦
              let it_is : is_entry name de ≡ true = rw (used, same) refl in
              (
                s1,
                addrs1,
                some (de_inum de, 16 * k),
                rw (lookup_loop, more, q, used, same) refl,
                o1,
                same1,
                (k, omega arith, lt, refl, num, sym is ∙ it_is, λ i low high. absurd (omega arith)),
              )
        ]
      ]

  searches :
      (fuel k : ℕ) (s : Volume) (addrs bytes : ℕ → ℕ)
      → Owns sb s addrs
      → NoHole s addrs
      → ((i : ℕ) → i < max_bytes → content s addrs i ≡ bytes i)
      → size - 16 * k ≤ fuel
      → Searched fuel k s addrs bytes
  unfolding Searched lookup_loop Found ReadsEntry
  searches zero k s addrs bytes o full same enough =
      (s, addrs, none, refl, o, same, λ j le lt. absurd (omega arith))
  searches (suc fuel) k s addrs bytes o full same enough = elim (Bool-cases (ltb (16 * k) size)) [
    | inr done ↦
        (s, addrs, none, rw (lookup_loop, done) refl, o, same, λ j le lt. absurd (ground arith))
    | inl more ↦
        let (s1, addrs1, de, q, o1, full1, same1, at) =
          reads_entry k s addrs o full (ground arith) in
        next fuel k s addrs bytes (ground arith) s1 addrs1 de q o1 (λ i lt. same1 i lt ∙ same i lt)
          (λ i lt. at i lt ∙ same (16 * k + i) (in_file k i (ground arith) lt))
          (searches fuel (k + 1) s1 addrs1 bytes o1 full1 (λ i lt. same1 i lt ∙ same i lt)
            (ground arith))
  ]

  -- On a volume where the inode owns its blocks, with fewer than 2^32 blocks, of a directory of whole entries, of at
  -- most MAXFILE blocks and without holes: dirlookup does not panic, leaves the directory's bytes as they are,
  -- and finds the first entry that is in use and has the name, with its offset and its inode number; it finds
  -- nothing only when there is no such entry.
  pub dirlookup_lem :
      (s : Volume) (addrs : ℕ → ℕ)
      → Owns sb s addrs
      → NoHole s addrs
      → (s' : Volume) × (addrs' : ℕ → ℕ) × (r : Option (ℕ × ℕ)) × (dirlookup sb true name size s
            addrs
          ≡ some (s', addrs', r))
        × Owns sb s' addrs'
        × ((i : ℕ) → i < max_bytes → content s' addrs' i ≡ content s addrs i)
        × Found (content s addrs) 0 r
  unfolding dirlookup Searched
  dirlookup_lem s addrs o full =
      searches size 0 s addrs (content s addrs) o full (λ _ _. refl) (omega arith)
