-- ===== src/Fs/Content/Write.antt =====
-- `writei` puts the user's bytes into an inode (src/kernel/fs.c).
use enhanced_xv.Base.{
  ℕ, zero, suc, ◌+◌, ◌-◌, ◌/◌, ◌%◌, ◌<◌, ◌≤◌, ◌≡◌, ◌≢◌, refl, sym, ◌∙◌, ap, true, false, some,
  if◌then◌else◌, ◌==◌, ltb, leb, ◌&&◌, update, arith, Bool-cases, inl, inr, ◌⊎◌, subst, add32,
  int_mod,
}
use enhanced_xv.Fs.{bsize, Superblock, Volume, note_logged}
use enhanced_xv.Fs.Content.{ndirect, bmap}
use enhanced_xv.Fs.Content.Owned.{npointer, pointer, Owns, IsGrown}
use enhanced_xv.Fs.Content.Bmap.{slot, Mapped, bmap_lem}
use enhanced_xv.Fs.Content.Io.{turn_size, put_bytes, fill_block, write_loop, writei, too_far}
use enhanced_xv.Fs.Content.Bytes.{
  max_bytes, content, content-block, store-Owns, store-content, grown-content, note_logged-content,
  note_logged-Owns,
}
use enhanced_xv.Fs.Content.Written.{IsWritten, IsWritten-turn, IsWritten-none}

slot-injective : (x y : ℕ) → slot x ≡ slot y → x ≡ y
slot-injective x y e = ground arith

module _ (sb : Superblock) (fits : sb.size < int_mod) (byte : ℕ → ℕ) (arrive : ℕ → ℕ → ℕ)
    (arrive_le : (src m : ℕ) → arrive src m ≤ m) where
  -- A turn puts `r` bytes from `src` at `off` into the block `a` there.
  put-content :
      (s : Volume) (addrs : ℕ → ℕ) (off src r a : ℕ)
      → Owns sb s addrs
      → off < max_bytes
      → off % bsize + r ≤ bsize
      → pointer s addrs (slot (off / bsize)) ≡ a
      → a ≢ 0
      → Owns sb (fill_block byte a (off % bsize) r src s) addrs
        × ((i : ℕ)
            → i < max_bytes
            → content (fill_block byte a (off % bsize) r src s) addrs i ≡ (
                if leb off i && ltb i (off + r) then byte (src + (i - off)) else content s addrs i))
  put-content s addrs off src r a o lt fit e nz =
      let s' : Volume = fill_block byte a (off % bsize) r src s in
      let bytes : ℕ → ℕ = put_bytes byte (off % bsize) r src (s.at a) in
      let lt' : slot (off / bsize) < npointer = ground arith in
      let nd : slot (off / bsize) ≢ ndirect = ground arith in
      let nz' : pointer s addrs (slot (off / bsize)) ≢ 0 = λ z. nz (sym e ∙ z) in
      let at : s'.at ≡ update s.at (pointer s addrs (slot (off / bsize))) bytes =
        ap (λ p. update s.at p bytes) (sym e) in
      (
        store-Owns sb s addrs o (slot (off / bsize)) lt' nd nz' bytes s' at,
        λ i ilt.
            store-content sb s addrs o (slot (off / bsize)) lt' nd nz' bytes s' at i ilt
            ∙ elim (Bool-cases (slot (i / bsize) == slot (off / bsize))) [
              | inl same ↦
                  let q : i / bsize ≡ off / bsize =
                    slot-injective (i / bsize) (off / bsize) (ground arith) in
                  let c : content s addrs i ≡ s.at a (i % bsize) =
                    content-block s addrs i a (ap (λ b. pointer s addrs (slot b)) q ∙ e) nz in
                  let span : (leb (off % bsize) (i % bsize) && ltb (i % bsize) (off % bsize + r))
                      ≡ (leb off i && ltb i (off + r)) =
                    ground arith in
                  rw (same, span)
                    (elim (Bool-cases (leb off i && ltb i (off + r))) [
                      | inl within ↦
                          let d : i % bsize - off % bsize ≡ i - off = omega arith in
                          rw (within, d) refl
                      | inr out ↦ rw out (sym c)
                    ])
              | inr other ↦
                  let q : i / bsize ≢ off / bsize = λ h.
                    let h' : slot (i / bsize) ≡ slot (off / bsize) = ap slot h in ground arith in
                  let out : (leb off i && ltb i (off + r)) ≡ false = ground arith in
                  rw (other, out) refl
            ],
      )

  -- What the loop does with the bytes from `tot` to `n`.
  Looped : ℕ → ℕ → ℕ → ℕ → ℕ → Volume → (ℕ → ℕ) → Type 0
  Looped fuel src off tot n s addrs =
      (s' : Volume) × (addrs' : ℕ → ℕ) × (d : ℕ) × (write_loop byte arrive sb fuel src off tot n s
          addrs
        ≡ some (s', addrs', off + d, tot + d))
      × IsWritten sb byte arrive src off (n - tot) s addrs s' addrs' d

  -- A turn, once `bmap` found block `a`.
  module _ (fuel src off tot n : ℕ) (s : Volume) (addrs : ℕ → ℕ) (more : ltb tot n ≡ true)
      (small : n < int_mod) (fit : off + (n - tot) ≤ max_bytes) (s1 : Volume) (addrs1 : ℕ → ℕ)
      (a : ℕ) (e : bmap sb (off / bsize) s addrs ≡ some (s1, addrs1, a))
      (g : IsGrown sb (slot (off / bsize)) s addrs s1 addrs1 a)
      (same : (i : ℕ) → i < max_bytes → content s1 addrs1 i ≡ content s addrs i) where
    no_block : (a == 0) ≡ true → Looped (suc fuel) src off tot n s addrs
    unfolding write_loop Looped
    no_block z =
        let (q, q') : (off + 0 ≡ off) × (tot + 0 ≡ tot) = (omega arith, omega arith) in
        (
          s1,
          addrs1,
          0,
          rw (write_loop, more, e, z, q, q') refl,
          IsWritten-none sb byte arrive src off (n - tot) s addrs s1 addrs1 g.owns
              (λ i lt _. same i lt) (λ _. inl (g.full (ground arith))),
        )

    module _ (nz : (a == 0) ≡ false)
        (o2 : Owns sb
          (fill_block byte a (off % bsize) (arrive src (turn_size off tot n)) src s1)
          addrs1)
        (put : (i : ℕ)
          → i < max_bytes
          → content
              (fill_block byte a (off % bsize) (arrive src (turn_size off tot n)) src s1)
              addrs1
              i
            ≡ (if leb off i && ltb i (off + arrive src (turn_size off tot n))
                then byte (src + (i - off))
                else content s1 addrs1 i)) where
      too_few :
          (arrive src (turn_size off tot n) == turn_size off tot n) ≡ false
          → Looped (suc fuel) src off tot n s addrs
      unfolding write_loop Looped
      too_few ne =
          let (q, q') : (off + 0 ≡ off) × (tot + 0 ≡ tot) = (omega arith, omega arith) in
          let few = arrive_le src (turn_size off tot n) in
          let le : turn_size off tot n ≤ n - tot = ground arith in
          (
            fill_block byte a (off % bsize) (arrive src (turn_size off tot n)) src s1,
            addrs1,
            0,
            rw (write_loop, more, e, nz, ne, q, q') refl,
            IsWritten-none sb byte arrive src off (n - tot) s addrs _ addrs1 o2
                (λ i lt side.
                  let out : (leb off i && ltb i (off + arrive src (turn_size off tot n))) ≡ false =
                    elim side [ inl l ↦ ground arith | inr l ↦ ground arith ] in
                  put i lt ∙ rw out (same i lt))
                (λ _. inr (ground arith)),
          )

      goes_on :
          (arrive src (turn_size off tot n) == turn_size off tot n) ≡ true
          → Looped fuel
              (src + turn_size off tot n)
              (off + turn_size off tot n)
              (tot + turn_size off tot n)
              n
              (note_logged a
                (fill_block byte a (off % bsize) (arrive src (turn_size off tot n)) src s1))
              addrs1
          → Looped (suc fuel) src off tot n s addrs
      unfolding write_loop Looped
      goes_on ok (s', addrs', d, q, w) =
          let le : turn_size off tot n ≤ n - tot = ground arith in
          let all : arrive src (turn_size off tot n) ≡ turn_size off tot n = ground arith in
          let going : tot < n = ground arith in
          let (w1, w2) : (add32 off (turn_size off tot n) ≡ off + turn_size off tot n)
              × (add32 tot (turn_size off tot n) ≡ tot + turn_size off tot n) =
            (omega arith, omega arith) in
          let (p1, p2, p3) : (off + turn_size off tot n + d ≡ off + (turn_size off tot n + d))
              × (tot + turn_size off tot n + d ≡ tot + (turn_size off tot n + d))
              × (n - (tot + turn_size off tot n) ≡ n - tot - turn_size off tot n) =
            (omega arith, omega arith, omega arith) in
          (
            s',
            addrs',
            turn_size off tot n + d,
            rw (write_loop, more, e, nz, ok, w1, w2, q, p1, p2) refl,
            IsWritten-turn sb byte arrive src off (n - tot) (turn_size off tot n) d s _ addrs addrs1
                s' addrs' le fit
                (λ i lt. note_logged-content a _ addrs1 i ∙ put i lt ∙ rw (all, same i lt) refl)
                (subst
                  (λ l.
                    IsWritten sb byte arrive (src + turn_size off tot n) (off + turn_size off tot n)
                      l
                      (note_logged a
                        (fill_block byte a (off % bsize) (arrive src (turn_size off tot n)) src s1))
                      addrs1 s' addrs' d)
                  p3 w),
          )

  stops :
      (fuel src off tot n : ℕ) (s : Volume) (addrs : ℕ → ℕ)
      → ltb tot n ≡ false
      → write_loop byte arrive sb fuel src off tot n s addrs ≡ some (s, addrs, off + 0, tot + 0)
  unfolding write_loop
  stops zero src off tot n s addrs done =
      let (q, q') : (off + 0 ≡ off) × (tot + 0 ≡ tot) = (omega arith, omega arith) in
      rw (q, q') refl
  stops (suc fuel) src off tot n s addrs done =
      let (q, q') : (off + 0 ≡ off) × (tot + 0 ≡ tot) = (omega arith, omega arith) in
      rw (write_loop, done, q, q') refl

  -- Everything is written.
  finished :
      (fuel src off tot n : ℕ) (s : Volume) (addrs : ℕ → ℕ)
      → Owns sb s addrs
      → ltb tot n ≡ false
      → Looped fuel src off tot n s addrs
  unfolding write_loop Looped
  finished fuel src off tot n s addrs o done = (
    s,
    addrs,
    0,
    stops fuel src off tot n s addrs done,
    IsWritten-none sb byte arrive src off (n - tot) s addrs s addrs o (λ _ _ _. refl)
        (λ pos. absurd (ground arith)),
  )

  looped :
      (fuel src off tot n : ℕ) (s : Volume) (addrs : ℕ → ℕ)
      → Owns sb s addrs
      → tot ≤ n
      → n < int_mod
      → off + (n - tot) ≤ max_bytes
      → n - tot ≤ fuel
      → Looped fuel src off tot n s addrs
  unfolding Mapped
  looped zero src off tot n s addrs o le small fit enough =
      finished zero src off tot n s addrs o (ground arith)
  looped (suc fuel) src off tot n s addrs o le small fit enough = elim (Bool-cases (ltb tot n)) [
    | inr done ↦ finished (suc fuel) src off tot n s addrs o done
    | inl more ↦ elim (bmap_lem sb fits s addrs (off / bsize) o) [
      | inr (far, _) ↦ absurd (ground arith)
      | inl (_, (s1, addrs1, a, e, g)) ↦
          let same : (i : ℕ) → i < max_bytes → content s1 addrs1 i ≡ content s addrs i =
            grown-content sb s addrs o (off / bsize) s1 addrs1 a g in
          let le' : turn_size off tot n ≤ n - tot = ground arith in
          let few = arrive_le src (turn_size off tot n) in
          let inside : off % bsize + arrive src (turn_size off tot n) ≤ bsize = ground arith in
          elim (Bool-cases (a == 0)) [
            | inl z ↦ no_block fuel src off tot n s addrs more small fit s1 addrs1 a e g same z
            | inr nz ↦
                let (o2, put) =
                  put-content s1 addrs1 off src (arrive src (turn_size off tot n)) a g.owns
                    (ground arith) inside g.found (ground arith) in
                elim (Bool-cases (arrive src (turn_size off tot n) == turn_size off tot n)) [
                  | inr ne ↦
                      too_few fuel src off tot n s addrs more small fit s1 addrs1 a e g same nz o2
                        put ne
                  | inl ok ↦
                      goes_on fuel src off tot n s addrs more small fit s1 addrs1 a e g same nz o2
                        put ok
                        (looped fuel (src + turn_size off tot n) (off + turn_size off tot n)
                          (tot + turn_size off tot n) n
                          (note_logged a (
                            fill_block byte a (off % bsize) (arrive src (turn_size off tot n)) src
                              s1))
                          addrs1
                          (note_logged-Owns sb a
                            (fill_block byte a (off % bsize) (arrive src (turn_size off tot n)) src
                              s1)
                            addrs1 o2)
                          (ground arith) small (ground arith) (ground arith))
                ]
          ]
    ]
  ]

  -- The guards of `writei`, with their sums as numbers.
  too_far_lem :
      (size off n : ℕ)
      → off < int_mod
      → n < int_mod
      → ((too_far size off n ≡ true) × ((size < off) ⊎ (max_bytes < off + n)))
        ⊎ ((too_far size off n ≡ false) × (off ≤ size) × (off + n ≤ max_bytes))
  too_far_lem size off n lt nlt = elim (Bool-cases (ltb size off)) [
    | inl e ↦ inl (rw e refl, inl (ground arith))
    | inr e ↦ elim (Bool-cases (ltb max_bytes (off + n))) [
      | inl e' ↦ inl (ground arith, inr (ground arith))
      | inr e' ↦ inr (ground arith, ground arith, ground arith)
    ]
  ]

  -- On a volume where the inode owns its blocks, with fewer than 2^32 blocks, and an either_copyin that copies no
  -- more than it is asked for: writei of `n` bytes at `off` returns -1 and changes nothing when `off` is past the
  -- size or the end past MAXFILE blocks. Otherwise it does not panic and returns the number `d` of bytes it
  -- wrote, at most `n`. Those bytes of the file are the user's, the bytes before `off` and from `off + n` on
  -- are as they were, the size grows to `off + d` if it was less, and the inode still owns its blocks. Fewer
  -- than `n` bytes are written only when the disk is full or the either_copyin of the next bytes, those for the
  -- block at `off + d`, failed.
  pub writei_lem :
      (src off n size : ℕ) (s : Volume) (addrs : ℕ → ℕ)
      → Owns sb s addrs
      → off < int_mod
      → n < int_mod
      → (((size < off) ⊎ (max_bytes < off + n))
          × (writei byte arrive sb src off n size s addrs ≡ some (s, addrs, size, 4294967295)))
        ⊎ ((off ≤ size)
            × (off + n ≤ max_bytes)
            × (s' : Volume) × (addrs' : ℕ → ℕ) × (d : ℕ) × (writei byte arrive sb src off n size s
                  addrs
                ≡ some (s', addrs', (if ltb size (off + d) then off + d else size), d))
            × IsWritten sb byte arrive src off n s addrs s' addrs' d)
  unfolding writei Looped
  writei_lem src off n size s addrs o lt nlt = elim (too_far_lem size off n lt nlt) [
    | inl (e, why) ↦ inl (why, rw (writei, e) refl)
    | inr (e, start, fit) ↦
        let (s', addrs', d, q, w) =
          looped n src off 0 n s addrs o (omega arith) nlt (omega arith) (omega arith) in
        let (q', q2) : (0 + d ≡ d) × (n - 0 ≡ n) = (omega arith, omega arith) in
        inr (
          start,
          fit,
          s',
          addrs',
          d,
          rw (writei, e, q, q') refl,
          subst (λ l. IsWritten sb byte arrive src off l s addrs s' addrs' d) q2 w,
        )
  ]
