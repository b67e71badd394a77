-- ===== src/Fs/Inodes.antt =====
-- The table of inodes holds an inode of the disk at most once (src/kernel/fs.c).
use enhanced_xv.Base.{
  ℕ, zero, suc, ◌<◌, ◌≡◌, ◌≢◌, refl, sym, ◌∙◌, ap, true, false, none, some, ◌==◌, update,
  update_self, update_ne, arith, Bool-cases, inl, inr, ◌⊎◌, add32, int_half,
}
use mathlib.Core.Bool.{false≢true}
use enhanced_xv.Base.{IsSingle as Single, IsSingle-update as Single-update}
use enhanced_xv.Fs.{Inode, Itable, ninode, Search, hit, miss, is_inode, search_inode, iget}

-- No two entries in use are the same inode of the disk.
unfoldable pub IsSingle : Itable → Type 0
IsSingle = Single ninode (λ x. 0 < x.ref) (λ x y. (x.dev ≡ y.dev) × (x.inum ≡ y.inum))

-- What the loop finds among the first `n` entries.
Searched : ℕ → ℕ → Itable → ℕ → Search → Type 0
Searched dev inum t n r =
    ((i : ℕ) × (r ≡ hit i) × (i < n) × (is_inode dev inum (t i) ≡ true))
    ⊎ (((i : ℕ) → i < n → is_inode dev inum (t i) ≡ false)
        × (((r ≡ miss none) × ((i : ℕ) → i < n → (t i).ref ≢ 0))
            ⊎ ((i : ℕ) × (r ≡ miss (some i)) × (i < n) × ((t i).ref ≡ 0))))

searches : (dev inum : ℕ) (t : Itable) (n : ℕ) → Searched dev inum t n (search_inode dev inum t n)
unfolding search_inode Searched
searches dev inum t zero = inr (λ i lt. elim lt [ ], inl (refl, λ i lt. elim lt [ ]))
searches dev inum t (suc n) = elim (searches dev inum t n) [
  | inl (i, e, lt, is) ↦ inl (i, rw (search_inode, e) refl, omega arith, is)
  | inr (all, rest) ↦ elim (Bool-cases (is_inode dev inum (t n))) [
    | inl is ↦ elim rest [
      | inl (e, _) ↦ inl (n, rw (search_inode, e, is) refl, omega arith, is)
      | inr (k, e, _, _) ↦ inl (n, rw (search_inode, e, is) refl, omega arith, is)
    ]
    | inr isnt ↦
        let all' : (i : ℕ) → i < suc n → is_inode dev inum (t i) ≡ false = λ i lt.
          elim (Bool-cases (i == n)) [
            | inl last ↦ ap (λ k. is_inode dev inum (t k)) (ground arith) ∙ isnt
            | inr before ↦ all i (ground arith)
          ] in
        elim rest [
          | inr (k, e, lt, free) ↦
              inr (all', inr (k, rw (search_inode, e, isnt) refl, omega arith, free))
          | inl (e, used) ↦ elim (Bool-cases ((t n).ref == 0)) [
            | inl free ↦
                inr
                  (all', inr (n, rw (search_inode, e, isnt, free) refl, omega arith, ground arith))
            | inr busy ↦ inr (
              all',
              inl (
                rw (search_inode, e, isnt, busy) refl,
                λ i lt. elim (Bool-cases (i == n)) [
                  | inl last ↦
                      let same : (t i).ref ≡ (t n).ref = ap (λ k. (t k).ref) (ground arith) in
                      ground arith
                  | inr before ↦ used i (ground arith)
                ],
              ),
            )
          ]
        ]
  ]
]

-- Where the table stands once `iget` returned entry `i`.
pub record IsGot (dev inum : ℕ) (t t' : Itable) (i : ℕ) : Type 0 where
  pub in_table : i < ninode
  pub is_dev : (t' i).dev ≡ dev
  pub is_inum : (t' i).inum ≡ inum
  pub counted : (t' i).ref ≡ suc (t i).ref
  pub others : (j : ℕ) → j ≢ i → t' j ≡ t j
  pub single : IsSingle t'
  -- An entry that was not in use has to be read from the disk.
  pub fresh : (t i).ref ≡ 0 → (t' i).valid ≡ false

-- The table with one entry changed stays without doubles if no other entry in use is its inode.
IsSingle-update :
    (t : Itable) (i : ℕ) (ip : Inode)
    → IsSingle t
    → (0 < ip.ref
        → (j : ℕ) → j < ninode
        → 0 < (t j).ref
        → (t j).dev ≡ ip.dev
        → (t j).inum ≡ ip.inum
        → i ≡ j)
    → IsSingle (update t i ip)
unfolding IsSingle
IsSingle-update t i ip s alone =
    Single-update ninode (λ x. 0 < x.ref) (λ x y. (x.dev ≡ y.dev) × (x.inum ≡ y.inum))
      (λ x y (d, n). (sym d, sym n)) t i ip s
      (λ pos j jlt jref (d, n). alone pos j jlt jref (sym d) (sym n))

-- The entry keeps its inode and changes its count or its validity.
pub recounted :
    (t : Itable) (i : ℕ) (ip : Inode)
    → i < ninode
    → IsSingle t
    → (0 < ip.ref → 0 < (t i).ref)
    → ip.dev ≡ (t i).dev
    → ip.inum ≡ (t i).inum
    → IsSingle (update t i ip)
unfolding IsSingle
recounted t i ip lt s used d n =
    IsSingle-update t i ip s
      (λ pos j jlt jref dj nj. s i j lt jlt (used pos) jref (sym (dj ∙ d), sym (nj ∙ n)))

-- On a table without doubles whose counts are below the largest int: iget panics only when every entry is in
-- use and none is the inode. Otherwise it returns an entry that is the inode and has one reference more than
-- before, changes no other, the table stays without doubles, and an entry that was recycled is marked to
-- be read from the disk.
pub iget_lem :
    (dev inum : ℕ) (t : Itable)
    → IsSingle t
    → ((i : ℕ) → i < ninode → suc (t i).ref < int_half)
    → ((iget dev inum t ≡ none)
        × ((i : ℕ) → i < ninode → ((t i).ref ≢ 0) × (is_inode dev inum (t i) ≡ false)))
      ⊎ ((i : ℕ) × (t' : Itable) × (iget dev inum t ≡ some (t', i)) × IsGot dev inum t t' i)
unfolding iget Searched
iget_lem dev inum t s small = elim (searches dev inum t ninode) [
  | inl (i, e, lt, is) ↦
      let few = small i lt in
      let ip : Inode = record (t i) { ref = add32 (t i).ref 1 } in
      let self : update t i ip i ≡ ip = update_self t i ip in
      let used : 0 < (t i).ref = ground arith in
      inr (
        i,
        update t i ip,
        rw (iget, e) refl,
        record {
          in_table = lt;
          is_dev = ap (λ x. x.dev) self ∙ ground arith;
          is_inum = ap (λ x. x.inum) self ∙ ground arith;
          counted = ap (λ x. x.ref) self ∙ omega arith;
          others = λ j ne. update_ne t i ip j ne;
          single = recounted t i ip lt s (λ _. used) refl refl;
          fresh = λ z. absurd (omega arith);
        },
      )
  | inr (all, inl (e, used)) ↦ inl (rw (iget, e) refl, λ i lt. (used i lt, all i lt))
  | inr (all, inr (i, e, lt, free)) ↦
      let ip : Inode = record (t i) { dev = dev; inum = inum; ref = 1; valid = false } in
      let self : update t i ip i ≡ ip = update_self t i ip in
      inr (
        i,
        update t i ip,
        rw (iget, e) refl,
        record {
          in_table = lt;
          is_dev = ap (λ x. x.dev) self;
          is_inum = ap (λ x. x.inum) self;
          counted = ap (λ x. x.ref) self ∙ omega arith;
          others = λ j ne. update_ne t i ip j ne;
          single = IsSingle-update t i ip s (λ _ j jlt jref d n.
              let few = small j jlt in
              let isnt = all j jlt in
              let is : is_inode dev inum (t j) ≡ true = ground arith in
              absurd (false≢true (sym isnt ∙ is)));
          fresh = λ _. ap (λ x. x.valid) self;
        },
      )
]
