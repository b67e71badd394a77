-- ===== src/Fs/Content/Bmap.antt =====
-- `bmap` finds the block of an inode's content or gives it one (src/kernel/fs.c).
use enhanced_xv.Base.{
  ℕ, ◌%◌, ◌/◌, ◌+◌, ◌-◌, ◌<◌, ◌≤◌, ◌≡◌, ◌≢◌, refl, sym, ◌∙◌, ap, true, false, none, some,
  if◌then◌else◌, ◌==◌, ltb, update, update_self, update_ne, arith, Bool-cases, inl, inr, int_mod,
  subst, ◌⊎◌, bit,
}
use mathlib.Core.Bool.{false≢true}
use enhanced_xv.Fs.{Superblock, Volume, bblock, bpb, note_logged}
use enhanced_xv.Fs.Scan.{is_used}
use enhanced_xv.Fs.Bitmap.{IsAllocated, balloc_lem}
use enhanced_xv.Fs.Content.{ndirect, nindirect, word, set_word, load_addr, load_entry, bmap}
use enhanced_xv.Fs.Content.Words.{word_self, word_other}
use enhanced_xv.Fs.Content.Owned.{
  npointer, pointer, pointer-addrs, pointer-none, pointer-entry, Owns, IsGrown,
}
use enhanced_xv.Fs.Content.Grow.{
  slot-cases, stays, stays_empty, owned_block, takes, load_addr-pointer,
}

-- The slot of block `bn` of the content.
abbrev pub slot : ℕ → ℕ
slot bn = if ltb bn ndirect then bn else bn + 1

module _ (sb : Superblock) (fits : sb.size < int_mod) where
  load_addr_lem :
      (s : Volume) (addrs : ℕ → ℕ) (i : ℕ)
      → Owns sb s addrs
      → i < 13
      → (s' : Volume) × (addrs' : ℕ → ℕ) × (a : ℕ) × (load_addr sb i s addrs ≡ (s', addrs', a))
        × IsGrown sb i s addrs s' addrs' a
  unfolding load_addr
  load_addr_lem s addrs i o lt =
      let p = pointer-addrs s addrs i lt in
      elim (Bool-cases (addrs i == 0)) [
        | inr e ↦ (
          s,
          addrs,
          addrs i,
          rw (load_addr, e) refl,
          stays sb s addrs o i (addrs i) (ground arith) (sym p),
        )
        | inl e ↦
            let z : addrs i ≡ 0 = ground arith in
            elim (balloc_lem sb s o.map o.boot) [
              | inl (q, all) ↦
                  (s, addrs, 0, rw (load_addr, e, q) refl, stays_empty sb s addrs o i (p ∙ z) all)
              | inr (c, s', q, nz, a, _) ↦
                  let ne : (c == 0) ≡ false = ground arith in
                  (
                    s',
                    update addrs i c,
                    c,
                    rw (load_addr, e, q, ne) refl,
                    (takes sb s addrs o i c s' s' (update addrs i c) (omega arith) (p ∙ z) a
                        (λ d below. refl) (load_addr-pointer sb s addrs o i c s' lt z a nz)
                        (λ n h. refl)).1,
                  )
            ]
      ]

  -- `a[j] = c; log_write(bp);`
  abbrev put_entry : ℕ → ℕ → ℕ → Volume → Volume
  put_entry n j c s = note_logged n (record s { at = update s.at n (set_word j c (s.at n)) })

  module _ (s : Volume) (addrs : ℕ → ℕ) (o : Owns sb s addrs) (ind : addrs ndirect ≢ 0)
      (s' : Volume) (j c : ℕ) where
    pointer-indirect : pointer s addrs ndirect ≡ addrs ndirect
    pointer-indirect = pointer-addrs s addrs ndirect (omega arith)

    in_use : pointer s addrs ndirect ≢ 0
    in_use z = ind (sym pointer-indirect ∙ z)

    put_entry_used :
        (d : ℕ) → d < sb.size → is_used sb (put_entry (addrs ndirect) j c s') d ≡ is_used sb s' d
    put_entry_used d lt =
        let apart : bblock sb d ≢ addrs ndirect =
          λ e. o.apart ndirect (omega arith) in_use d lt (pointer-indirect ∙ sym e) in
        ap (λ f. bit (d % bpb % 8) (f (d % bpb / 8)))
          (update_ne s'.at (addrs ndirect) (set_word j c (s'.at (addrs ndirect))) (bblock sb d)
            apart)

    put_entry_rest :
        (n : ℕ)
        → (n ≢ pointer s addrs ndirect) ⊎ (pointer s addrs ndirect ≡ 0)
        → (put_entry (addrs ndirect) j c s').at n ≡ s'.at n
    put_entry_rest n (inr z) = absurd (in_use z)
    put_entry_rest n (inl ne) =
        update_ne s'.at (addrs ndirect) (set_word j c (s'.at (addrs ndirect))) n
          (λ e. ne (e ∙ sym pointer-indirect))

    put_entry-pointer :
        j < nindirect
        → IsAllocated sb s s' c
        → c ≢ 0
        → (k : ℕ) → k < npointer
        → pointer (put_entry (addrs ndirect) j c s') addrs k ≡ update (pointer s addrs) (13 + j) c k
    put_entry-pointer lt a nz k below = elim (slot-cases k below) [
      | inl low ↦
          pointer-addrs (put_entry (addrs ndirect) j c s') addrs k low
          ∙ sym
              (update_ne (pointer s addrs) (13 + j) c k (omega arith) ∙ pointer-addrs s addrs k low)
      | inr (m, e, mlt) ↦
          ap (pointer (put_entry (addrs ndirect) j c s') addrs) e
          ∙ pointer-entry (put_entry (addrs ndirect) j c s') addrs m ind
          ∙ ap (λ f. word f m)
              (update_self s'.at (addrs ndirect) (set_word j c (s'.at (addrs ndirect))))
          ∙ elim (Bool-cases (m == j)) [
            | inl same ↦
                let here : m ≡ j = ground arith in
                ap (word (set_word j c (s'.at (addrs ndirect)))) here
                ∙ word_self j c (s'.at (addrs ndirect)) (let exists = a.exists in omega arith)
                ∙ sym (
                    ap (λ x. update (pointer s addrs) (13 + j) c (13 + x)) here
                    ∙ update_self (pointer s addrs) (13 + j) c)
            | inr other ↦
                word_other j m c (s'.at (addrs ndirect)) (ground arith)
                ∙ ap (λ f. word f m)
                    (subst (λ n. s'.at n ≡ s.at n) pointer-indirect
                      (owned_block sb s addrs o s' c a ndirect (omega arith) in_use).1)
                ∙ sym (
                    update_ne (pointer s addrs) (13 + j) c (13 + m) (ground arith)
                    ∙ pointer-entry s addrs m ind)
          ]
          ∙ sym (ap (update (pointer s addrs) (13 + j) c) e)
    ]

  load_entry_lem :
      (s : Volume) (addrs : ℕ → ℕ) (j : ℕ)
      → Owns sb s addrs
      → j < nindirect
      → addrs ndirect ≢ 0
      → (s' : Volume) × (a : ℕ) × (load_entry sb (addrs ndirect) j s ≡ (s', a))
        × IsGrown sb (13 + j) s addrs s' addrs a
  unfolding load_entry
  load_entry_lem s addrs j o lt ind =
      let p = pointer-entry s addrs j ind in
      let n : ℕ = addrs ndirect in
      elim (Bool-cases (word (s.at (addrs ndirect)) j == 0)) [
        | inr e ↦ (
          s,
          word (s.at (addrs ndirect)) j,
          rw (load_entry, e) refl,
          stays sb s addrs o (13 + j) (word (s.at (addrs ndirect)) j) (ground arith) (sym p),
        )
        | inl e ↦
            let z : word (s.at (addrs ndirect)) j ≡ 0 = ground arith in
            elim (balloc_lem sb s o.map o.boot) [
              | inl (q, all) ↦
                  (s, 0, rw (load_entry, e, q) refl, stays_empty sb s addrs o (13 + j) (p ∙ z) all)
              | inr (c, s', q, nz, a, _) ↦
                  let ne : (c == 0) ≡ false = ground arith in
                  (
                    put_entry n j c s',
                    c,
                    rw (load_entry, e, q, ne) refl,
                    (takes sb s addrs o (13 + j) c s' (put_entry n j c s') addrs (omega arith)
                        (p ∙ z) a (put_entry_used s addrs o ind s' j c)
                        (put_entry-pointer s addrs o ind s' j c lt a nz)
                        (put_entry_rest s addrs o ind s' j c)).1,
                  )
            ]
      ]

  -- The indirect block is found first, then the entry in it.
  after_indirect :
      (s s1 s2 : Volume) (addrs addrs1 : ℕ → ℕ) (j n a : ℕ)
      → IsGrown sb ndirect s addrs s1 addrs1 n
      → IsGrown sb (13 + j) s1 addrs1 s2 addrs1 a
      → j < nindirect
      → IsGrown sb (13 + j) s addrs s2 addrs1 a
  after_indirect s s1 s2 addrs addrs1 j n a g h lt =
      let same : pointer s1 addrs1 (13 + j) ≡ pointer s addrs (13 + j) =
        g.others (13 + j) (omega arith) (omega arith) (omega arith) in
      record {
        owns = h.owns;
        found = h.found;
        kept = λ nz. h.kept (λ z. nz (sym same ∙ z)) ∙ same;
        others = λ k below ne nd. h.others k below ne nd ∙ g.others k below nd nd;
        indirect = λ nz. h.indirect (λ z. nz (sym (g.indirect nz) ∙ z)) ∙ g.indirect nz;
        full = h.full;
        fresh = λ z nz. elim (Bool-cases (is_used sb s a)) [
          | inr free ↦ free
          | inl used ↦ absurd (
              false≢true (
                sym (h.fresh (same ∙ z) nz)
                ∙ g.taken a
                    (subst (λ q. q < sb.size) h.found
                      (h.owns.inside (13 + j) (omega arith) (λ q. nz (sym h.found ∙ q))))
                    used))
        ];
        zeroed = λ z. h.zeroed (same ∙ z);
        taken = λ d below used. h.taken d below (g.taken d below used);
        data_kept = λ k below nd nz.
            let p : pointer s1 addrs1 k ≡ pointer s addrs k = g.others k below nd nd in
            subst (λ q. s2.at q ≡ s1.at q) p (h.data_kept k below nd (λ z. nz (sym p ∙ z)))
            ∙ g.data_kept k below nd nz;
      }

  -- What `bmap` gives for the block in slot `i`.
  unfoldable pub Mapped : ℕ → ℕ → Volume → (ℕ → ℕ) → Type 0
  Mapped bn i s addrs =
      (s' : Volume) × (addrs' : ℕ → ℕ) × (a : ℕ) × (bmap sb bn s addrs ≡ some (s', addrs', a))
      × IsGrown sb i s addrs s' addrs' a

  module _ (s : Volume) (addrs : ℕ → ℕ) (bn : ℕ) where
    direct :
        ltb bn ndirect ≡ true
        → (s' : Volume) (addrs' : ℕ → ℕ) (a : ℕ) → load_addr sb bn s addrs ≡ (s', addrs', a)
        → IsGrown sb bn s addrs s' addrs' a
        → Mapped bn bn s addrs
    unfolding bmap Mapped
    direct e s' addrs' a q g = (s', addrs', a, rw (bmap, e, q) refl, g)

    module _ (e : ltb bn ndirect ≡ false) (e' : ltb (bn - ndirect) nindirect ≡ true) (s1 : Volume)
        (addrs1 : ℕ → ℕ) (n : ℕ) (q : load_addr sb ndirect s addrs ≡ (s1, addrs1, n))
        (g : IsGrown sb ndirect s addrs s1 addrs1 n) where
      by_entry :
          (n == 0) ≡ false
          → (s2 : Volume) (a : ℕ) → load_entry sb n (bn - ndirect) s1 ≡ (s2, a)
          → IsGrown sb (13 + (bn - ndirect)) s1 addrs1 s2 addrs1 a
          → Mapped bn (13 + (bn - ndirect)) s addrs
      unfolding bmap Mapped
      by_entry nz s2 a q' h = (
        s2,
        addrs1,
        a,
        rw (bmap, e, e', q, nz, q') refl,
        after_indirect s s1 s2 addrs addrs1 (bn - ndirect) n a g h (ground arith),
      )

      no_indirect :
          (n == 0) ≡ true
          → IsGrown sb (13 + (bn - ndirect)) s1 addrs1 s1 addrs1 0
          → Mapped bn (13 + (bn - ndirect)) s addrs
      unfolding bmap Mapped
      no_indirect z h = (
        s1,
        addrs1,
        0,
        rw (bmap, e, e', q, z) refl,
        after_indirect s s1 s1 addrs addrs1 (bn - ndirect) n 0 g h (ground arith),
      )

      by_indirect : Mapped bn (13 + (bn - ndirect)) s addrs
      by_indirect =
          let p : addrs1 ndirect ≡ n =
            sym (pointer-addrs s1 addrs1 ndirect (omega arith)) ∙ g.found in
          elim (Bool-cases (n == 0)) [
            | inl z ↦
                let z' : n ≡ 0 = ground arith in
                no_indirect z (
                  stays_empty sb s1 addrs1 g.owns (13 + (bn - ndirect))
                    (pointer-none s1 addrs1 (bn - ndirect) (p ∙ z')) (g.full z'))
            | inr nz ↦
                let ne : n ≢ 0 = ground arith in
                let (s2, a, q', h) =
                  load_entry_lem s1 addrs1 (bn - ndirect) g.owns (ground arith)
                    (λ z. ne (sym p ∙ z)) in
                by_entry nz s2 a (subst (λ m. load_entry sb m (bn - ndirect) s1 ≡ (s2, a)) p q') h
          ]

  -- On a volume where the inode owns its blocks, with fewer than 2^32 blocks: bmap of a block number below
  -- NDIRECT + NINDIRECT returns the block in its slot, and the inode owns its blocks afterwards. A block that is
  -- there already is returned as it is. Otherwise the block returned was free and is filled with zeros, and 0
  -- is returned only when the disk is full. The other slots stay as they are, but for the indirect block's when it
  -- was empty, and so do the bytes of the blocks that hold the inode's content. Of a greater block number bmap panics.
  pub bmap_lem :
      (s : Volume) (addrs : ℕ → ℕ) (bn : ℕ)
      → Owns sb s addrs
      → ((bn < ndirect + nindirect) × Mapped bn (slot bn) s addrs)
        ⊎ ((ndirect + nindirect ≤ bn) × (bmap sb bn s addrs ≡ none))
  unfolding bmap Mapped
  bmap_lem s addrs bn o = elim (Bool-cases (ltb bn ndirect)) [
    | inl e ↦
        let at : bn ≡ slot bn = ground arith in
        let (s', addrs', a, q, g) = load_addr_lem s addrs bn o (ground arith) in
        inl
          (ground arith, subst (λ i. Mapped bn i s addrs) at (direct s addrs bn e s' addrs' a q g))
    | inr e ↦
        let at : 13 + (bn - ndirect) ≡ slot bn = ground arith in
        elim (Bool-cases (ltb (bn - ndirect) nindirect)) [
          | inr e' ↦ inr (ground arith, rw (bmap, e, e') refl)
          | inl e' ↦
              let (s1, addrs1, n, q, g) = load_addr_lem s addrs ndirect o (omega arith) in
              inl (
                ground arith,
                subst (λ i. Mapped bn i s addrs) at (by_indirect s addrs bn e e' s1 addrs1 n q g),
              )
        ]
  ]
