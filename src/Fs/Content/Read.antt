-- ===== src/Fs/Content/Read.antt =====
-- `readi` hands an inode's bytes to the user (src/kernel/fs.c).
use enhanced_xv.Base.{
  ℕ, zero, suc, ◌+◌, ◌-◌, ◌/◌, ◌%◌, ◌<◌, ◌≤◌, ◌≡◌, refl, sym, ◌∙◌, ap, true, false, some,
  if◌then◌else◌, ◌==◌, ltb, leb, ◌&&◌, arith, Bool-cases, inl, inr, ◌⊎◌, subst, add32, int_mod, ◌≢◌,
}
use enhanced_xv.Fs.{bsize, Superblock, Volume}
use enhanced_xv.Fs.Content.{bmap}
use enhanced_xv.Fs.Content.Owned.{pointer, Owns, IsGrown}
use enhanced_xv.Fs.Content.Bmap.{slot, Mapped, bmap_lem}
use enhanced_xv.Fs.Content.Io.{turn_size, deliver, out_of_file, clipped, read_loop, readi}
use enhanced_xv.Fs.Content.Bytes.{max_bytes, content, content-block, grown-content, kept_slot}
use enhanced_xv.Fs.Content.Got.{IsRead, Ends}
use enhanced_xv.Fs.Content.Written.{Fails, Fails-first, Fails-turn}

module _ (sb : Superblock) (fits : sb.size < int_mod) (arrive : ℕ → ℕ → ℕ)
    (arrive_le : (dst m : ℕ) → arrive dst m ≤ m) where
  Looped : ℕ → ℕ → ℕ → ℕ → ℕ → Volume → (ℕ → ℕ) → (ℕ → ℕ) → Type 0
  Looped fuel dst off tot n s addrs mem =
      (s' : Volume) × (addrs' : ℕ → ℕ) × (mem' : ℕ → ℕ) × (d : ℕ) × (r : ℕ) × (read_loop arrive sb
          fuel dst off tot n s addrs mem
        ≡ some (s', addrs', mem', r))
      × IsRead sb arrive dst off (n - tot) s addrs mem s' addrs' mem' d
      × Ends sb arrive dst off tot (n - tot) d s' r

  -- What `bmap` gave for a turn, and the memory after it.
  module _ (fuel dst off tot n : ℕ) (s : Volume) (addrs mem : ℕ → ℕ) (more : ltb tot n ≡ true)
      (small : n < int_mod) (fit : off + (n - tot) ≤ max_bytes) (o : Owns sb s addrs) (s1 : Volume)
      (addrs1 : ℕ → ℕ) (a : ℕ) (e : bmap sb (off / bsize) s addrs ≡ some (s1, addrs1, a))
      (g : IsGrown sb (slot (off / bsize)) s addrs s1 addrs1 a)
      (same : (i : ℕ) → i < max_bytes → content s1 addrs1 i ≡ content s addrs i) where
    abbrev moved : ℕ
    moved = turn_size off tot n

    abbrev delivered : ℕ → ℕ
    delivered = deliver dst (arrive dst moved) (λ i. s1.at a (off % bsize + i)) mem

    -- The slots in use are as they were, and an empty one was empty before.
    slots :
        (b : ℕ)
        → b < 268
        → pointer s addrs (slot b) ≢ 0
        → pointer s1 addrs1 (slot b) ≡ pointer s addrs (slot b)
    slots b lt =
        kept_slot sb s addrs o (off / bsize) s1 addrs1 a g (slot b) (ground arith) (ground arith)

    was_empty : (b : ℕ) → b < 268 → pointer s1 addrs1 (slot b) ≡ 0 → pointer s addrs (slot b) ≡ 0
    was_empty b lt z = elim (Bool-cases (pointer s addrs (slot b) == 0)) [
      | inl e ↦ ground arith
      | inr e ↦
          let nz : pointer s addrs (slot b) ≢ 0 = ground arith in
          absurd (nz (sym (slots b lt nz) ∙ z))
    ]

    no_slot : (a == 0) ≡ true → pointer s addrs (slot (off / bsize)) ≡ 0
    no_slot z =
        let here : a ≡ 0 = ground arith in
        let going : tot < n = ground arith in was_empty (off / bsize) (omega arith) (g.found ∙ here)

    no_block : (a == 0) ≡ true → Looped (suc fuel) dst off tot n s addrs mem
    unfolding read_loop Looped
    no_block z = (
      s1,
      addrs1,
      mem,
      0,
      tot,
      rw (read_loop, more, e, z) refl,
      record {
        owns = g.owns;
        count = omega arith;
        same = same;
        arrived = λ i lt. absurd (omega arith);
        others = λ _ _. refl;
        slots_kept = slots;
        short = λ _. inl (off, omega arith, ground arith, no_slot z);
      },
      inl (omega arith, λ _. g.full (ground arith)),
    )

    moved_le : moved ≤ n - tot
    moved_le = ground arith

    untouched : (x : ℕ) → (x < dst) ⊎ (dst + (n - tot) ≤ x) → delivered x ≡ mem x
    untouched x side =
        let few = arrive_le dst (turn_size off tot n) in
        let le : turn_size off tot n ≤ n - tot = moved_le in
        let out : (leb dst x && ltb x (dst + arrive dst (turn_size off tot n))) ≡ false =
          elim side [ inl l ↦ ground arith | inr l ↦ ground arith ] in
        rw out refl

    too_few :
        (a == 0) ≡ false
        → (arrive dst moved == moved) ≡ false
        → Looped (suc fuel) dst off tot n s addrs mem
    unfolding read_loop Looped
    too_few nz ne =
        let few = arrive_le dst (turn_size off tot n) in
        let failed : Fails arrive (dst + 0) (off + 0) (n - tot - 0) =
          Fails-first arrive dst off (n - tot) (ground arith) in
        (
          s1,
          addrs1,
          delivered,
          0,
          4294967295,
          rw (read_loop, more, e, nz, ne) refl,
          record {
            owns = g.owns;
            count = omega arith;
            same = same;
            arrived = λ i lt. absurd (omega arith);
            others = untouched;
            slots_kept = slots;
            short = λ _. inr failed;
          },
          inr (refl, failed),
        )

    module _ (nz : (a == 0) ≡ false) (ok : (arrive dst moved == moved) ≡ true) where
      -- The bytes of the turn.
      turn_arrived : (i : ℕ) → i < moved → delivered (dst + i) ≡ content s addrs (off + i)
      turn_arrived i lt =
          let all : arrive dst (turn_size off tot n) ≡ turn_size off tot n = ground arith in
          let here : (leb dst (dst + i) && ltb (dst + i) (dst + arrive dst (turn_size off tot n)))
              ≡ true =
            ground arith in
          let (p, q) : (dst + i - dst ≡ i) × (i < bsize - off % bsize) =
            (omega arith, ground arith) in
          let (b, o) : ((off + i) / bsize ≡ off / bsize) × ((off + i) % bsize ≡ off % bsize + i) =
            (omega arith, omega arith) in
          let le : turn_size off tot n ≤ n - tot = moved_le in
          rw (here, p) refl
          ∙ sym (
              content-block s1 addrs1 (off + i) a (ap (λ k. pointer s1 addrs1 (slot k)) b ∙ g.found)
                (ground arith)
              ∙ ap (s1.at a) o)
          ∙ same (off + i) (omega arith)

      later :
          (d : ℕ)
          → Fails arrive (dst + moved + d) (off + moved + d) (n - (tot + moved) - d)
          → Fails arrive (dst + (moved + d)) (off + (moved + d)) (n - tot - (moved + d))
      later d h =
          let p : n - (tot + turn_size off tot n) ≡ n - tot - turn_size off tot n = omega arith in
          Fails-turn arrive dst off (n - tot) (turn_size off tot n) d (
            subst
              (λ l.
                Fails arrive (dst + turn_size off tot n + d) (off + turn_size off tot n + d)
                  (l - d))
              p h)

      goes_on :
          Looped fuel (dst + moved) (off + moved) (tot + moved) n s1 addrs1 delivered
          → Looped (suc fuel) dst off tot n s addrs mem
      unfolding read_loop Looped
      goes_on (s', addrs', mem', d, r, q, w, ends) =
          let le : turn_size off tot n ≤ n - tot = moved_le in
          let going : tot < n = ground arith in
          let few = w.count in
          let (w1, w2) : (add32 off (turn_size off tot n) ≡ off + turn_size off tot n)
              × (add32 tot (turn_size off tot n) ≡ tot + turn_size off tot n) =
            (omega arith, omega arith) in
          (
            s',
            addrs',
            mem',
            turn_size off tot n + d,
            r,
            rw (read_loop, more, e, nz, ok, w1, w2) q,
            record {
              owns = w.owns;
              count = omega arith;
              same = λ i lt. w.same i lt ∙ same i lt;
              arrived = λ i lt. elim (Bool-cases (ltb i (turn_size off tot n))) [
                | inl first ↦
                    w.others (dst + i) (inl (ground arith)) ∙ turn_arrived i (ground arith)
                | inr later ↦
                    let (p, p') : (dst + i ≡ dst + turn_size off tot n + (i - turn_size off tot n))
                        × (off + turn_size off tot n + (i - turn_size off tot n) ≡ off + i) =
                      (ground arith, ground arith) in
                    ap mem' p
                    ∙ w.arrived (i - turn_size off tot n) (ground arith)
                    ∙ ap (content s1 addrs1) p'
                    ∙ same (off + i) (omega arith)
              ];
              others = λ x side.
                  w.others x (elim side [ inl l ↦ inl (omega arith) | inr l ↦ inr (omega arith) ])
                  ∙ untouched x side;
              slots_kept =
                  λ b lt nz. w.slots_kept b lt (λ z. nz (sym (slots b lt nz) ∙ z)) ∙ slots b lt nz;
              short = λ lt. elim (w.short (omega arith)) [
                | inl (i, low, high, z) ↦
                    inl (i, omega arith, omega arith, was_empty (i / bsize) (omega arith) z)
                | inr fails ↦ inr (later d fails)
              ];
            },
            elim ends [
              | inl (p, full) ↦ inl (omega arith, λ lt. full (omega arith))
              | inr (minus, fails) ↦ inr (minus, later d fails)
            ],
          )

  finished :
      (fuel dst off tot n : ℕ) (s : Volume) (addrs mem : ℕ → ℕ)
      → Owns sb s addrs
      → ltb tot n ≡ false
      → read_loop arrive sb fuel dst off tot n s addrs mem ≡ some (s, addrs, mem, tot)
      → Looped fuel dst off tot n s addrs mem
  unfolding Looped
  finished fuel dst off tot n s addrs mem o done e = (
    s,
    addrs,
    mem,
    0,
    tot,
    e,
    record {
      owns = o;
      count = omega arith;
      same = λ _ _. refl;
      arrived = λ i lt. absurd (omega arith);
      others = λ _ _. refl;
      slots_kept = λ _ _ _. refl;
      short = λ lt. absurd (ground arith);
    },
    inl (omega arith, λ lt. absurd (ground arith)),
  )

  looped :
      (fuel dst off tot n : ℕ) (s : Volume) (addrs mem : ℕ → ℕ)
      → Owns sb s addrs
      → tot ≤ n
      → n < int_mod
      → off + (n - tot) ≤ max_bytes
      → n - tot ≤ fuel
      → Looped fuel dst off tot n s addrs mem
  unfolding Mapped read_loop
  looped zero dst off tot n s addrs mem o le small fit enough =
      finished zero dst off tot n s addrs mem o (ground arith) refl
  looped (suc fuel) dst off tot n s addrs mem o le small fit enough =
      elim (Bool-cases (ltb tot n)) [
        | inr done ↦
            finished (suc fuel) dst off tot n s addrs mem o done (rw (read_loop, done) refl)
        | inl more ↦ elim (bmap_lem sb fits s addrs (off / bsize) o) [
          | inr (far, _) ↦ absurd (ground arith)
          | inl (_, (s1, addrs1, a, e, g)) ↦
              let same : (i : ℕ) → i < max_bytes → content s1 addrs1 i ≡ content s addrs i =
                grown-content sb s addrs o (off / bsize) s1 addrs1 a g in
              elim (Bool-cases (a == 0)) [
                | inl z ↦
                    no_block fuel dst off tot n s addrs mem more small fit o s1 addrs1 a e g same z
                | inr nz ↦
                    elim (Bool-cases (arrive dst (turn_size off tot n) == turn_size off tot n)) [
                      | inr ne ↦
                          too_few fuel dst off tot n s addrs mem more small fit o s1 addrs1 a e g
                            same nz ne
                      | inl ok ↦
                          goes_on fuel dst off tot n s addrs mem more small fit o s1 addrs1 a e g
                            same nz ok
                            (looped fuel (dst + turn_size off tot n) (off + turn_size off tot n)
                              (tot + turn_size off tot n) n s1 addrs1
                              (deliver dst (arrive dst (turn_size off tot n))
                                (λ i. s1.at a (off % bsize + i)) mem)
                              g.owns (ground arith) small (ground arith) (ground arith))
                    ]
              ]
        ]
      ]

  -- The guard of `readi`, and what is left to read, with the sum as a number.
  guards :
      (size off n : ℕ)
      → off < int_mod
      → n < int_mod
      → size ≤ max_bytes
      → ((out_of_file size off n ≡ true) × ((size < off) ⊎ (int_mod ≤ off + n)))
        ⊎ ((out_of_file size off n ≡ false)
            × (clipped size off n ≡ (if ltb size (off + n) then size - off else n))
            × (off + clipped size off n ≤ max_bytes))
  unfolding out_of_file clipped
  guards size off n lt nlt big = elim (Bool-cases (ltb size off)) [
    | inl e ↦ inl (rw (out_of_file, e) refl, inl (ground arith))
    | inr e ↦ elim (Bool-cases (ltb (add32 off n) off)) [
      | inl e' ↦ inl (rw (out_of_file, e, e') refl, inr (ground arith))
      | inr e' ↦
          let w : add32 off n ≡ off + n = ground arith in
          inr (rw (out_of_file, e, e') refl, ground arith, ground arith)
    ]
  ]

  -- On a volume where the inode owns its blocks, with fewer than 2^32 blocks, of a file of at most MAXFILE
  -- blocks, and an either_copyout that copies no more than it is asked for: readi of `n` bytes at `off` does not
  -- panic, and the bytes of the file are as they were. It returns 0 when `off` is past the size, or `off + n`
  -- wraps round. Otherwise the bytes from `off` on are put at `dst`, no more than `n` and none past the size, and
  -- no byte is changed outside of where they go. It returns how many there are, fewer than asked
  -- for only when the disk is full, or -1 when the either_copyout of the next bytes, those of the block where
  -- the last ended, failed.
  pub readi_lem :
      (dst off n size : ℕ) (s : Volume) (addrs mem : ℕ → ℕ)
      → Owns sb s addrs
      → off < int_mod
      → n < int_mod
      → size ≤ max_bytes
      → (((size < off) ⊎ (int_mod ≤ off + n))
          × (readi arrive sb dst off n size s addrs mem ≡ some (s, addrs, mem, 0)))
        ⊎ ((len : ℕ) × (s' : Volume) × (addrs' : ℕ → ℕ) × (mem' : ℕ → ℕ) × (d : ℕ) × (r : ℕ) × (len
              ≡ (if ltb size (off + n) then size - off else n))
            × (readi arrive sb dst off n size s addrs mem ≡ some (s', addrs', mem', r))
            × IsRead sb arrive dst off len s addrs mem s' addrs' mem' d
            × Ends sb arrive dst off 0 len d s' r)
  unfolding readi Looped
  readi_lem dst off n size s addrs mem o lt nlt big = elim (guards size off n lt nlt big) [
    | inl (e, why) ↦ inl (why, rw (readi, e) refl)
    | inr (e, at, fit) ↦
        let few : clipped size off n < int_mod = omega arith in
        let (s', addrs', mem', d, r, q, w, ends) =
          looped (clipped size off n) dst off 0 (clipped size off n) s addrs mem o (omega arith) few
            (omega arith) (omega arith) in
        let all : clipped size off n - 0 ≡ clipped size off n = omega arith in
        inr (
          clipped size off n,
          s',
          addrs',
          mem',
          d,
          r,
          at,
          rw (readi, e) q,
          subst (λ l. IsRead sb arrive dst off l s addrs mem s' addrs' mem' d) all w,
          subst (λ l. Ends sb arrive dst off 0 l d s' r) all ends,
        )
  ]
