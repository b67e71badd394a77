-- ===== src/Fs/Content/Trunc.antt =====
-- `itrunc` gives back the blocks of an inode (src/kernel/fs.c).
use enhanced_xv.Base.{
  ℕ, zero, suc, ◌+◌, ◌<◌, ◌≤◌, ◌≡◌, ◌≢◌, refl, sym, ◌∙◌, ap, Bool, true, false, some, if◌then◌else◌,
  ◌==◌, ltb, update, update_self, update_ne, update-cases, arith, Bool-cases, inl, inr, subst, each,
}
use mathlib.Core.Bool.{false≢true}
use enhanced_xv.Fs.{Superblock, Volume, bblock, bfree}
use enhanced_xv.Fs.Scan.{is_used}
use enhanced_xv.Fs.Bitmap.{IsMap, bfree_lem}
use enhanced_xv.Fs.Content.{ndirect, nindirect, word, free_addr, free_entry, free_blocks}
use enhanced_xv.Fs.Content.Owned.{
  npointer, pointer, pointer-addrs, pointer-none, pointer-entry, Owns,
}
use enhanced_xv.Fs.Content.Grow.{slot-cases}

grows : (gone : ℕ → Bool) (i k : ℕ) → gone k ≡ true → update gone i true k ≡ true
grows gone i k e = elim (update-cases gone i true k) [ inl (_, q) ↦ q | inr (_, q) ↦ q ∙ e ]

module _ (sb : Superblock) (s : Volume) (addrs : ℕ → ℕ) (o : Owns sb s addrs) where
  -- The blocks in the slots of `gone` are free, the other blocks are as they were, and so are the bytes outside
  -- of the bitmap.
  pub record IsFreed (gone : ℕ → Bool) (s' : Volume) : Type 0 where
    pub freed :
        (k : ℕ)
        → k < npointer
        → gone k ≡ true
        → pointer s addrs k ≢ 0
        → is_used sb s' (pointer s addrs k) ≡ false
    pub left :
        (d : ℕ)
        → d < sb.size
        → ((k : ℕ) → k < npointer → gone k ≡ true → pointer s addrs k ≢ 0 → pointer s addrs k ≢ d)
        → is_used sb s' d ≡ is_used sb s d
    pub bytes : (n : ℕ) → ((b : ℕ) → b < sb.size → n ≢ bblock sb b) → s'.at n ≡ s.at n

  IsFreed-none : IsFreed (λ _. false) s
  IsFreed-none = record {
    freed = λ k _ e. absurd (false≢true e);
    left = λ _ _ _. refl;
    bytes = λ _ _. refl;
  }

  IsFreed-same :
      (g h : ℕ → Bool) (s' : Volume)
      → ((k : ℕ) → k < npointer → pointer s addrs k ≢ 0 → g k ≡ h k)
      → IsFreed g s'
      → IsFreed h s'
  IsFreed-same g h s' same f = record {
    freed = λ k lt e nz. f.freed k lt (same k lt nz ∙ e) nz;
    left = λ d lt free. f.left d lt (λ k klt e nz. free k klt (sym (same k klt nz) ∙ e) nz);
    bytes = f.bytes;
  }

  -- The block of one more slot is freed.
  free_one :
      (gone : ℕ → Bool) (s' : Volume) (i : ℕ)
      → IsFreed gone s'
      → i < npointer
      → gone i ≡ false
      → pointer s addrs i ≢ 0
      → (s'' : Volume) × (bfree sb (pointer s addrs i) s' ≡ some s'')
        × IsFreed (update gone i true) s''
  free_one gone s' i f lt here nz =
      let p : ℕ = pointer s addrs i in
      let still : is_used sb s' (pointer s addrs i) ≡ true =
        f.left (pointer s addrs i) (o.inside i lt nz) (λ k klt e knz same.
          false≢true (sym here ∙ ap gone (sym (o.once k i klt lt knz nz same)) ∙ e))
        ∙ o.used i lt nz in
      elim (bfree_lem sb (pointer s addrs i) s') [
        | inl (free, _) ↦ absurd (false≢true (sym free ∙ still))
        | inr (s'', e, _, bits, rest) ↦ (
          s'',
          e,
          record {
            freed = λ k klt g knz.
                bits (pointer s addrs k)
                ∙ elim (Bool-cases (pointer s addrs i == pointer s addrs k)) [
                  | inl same ↦ rw same refl
                  | inr apart ↦ rw apart (elim (update-cases gone i true k) [
                    | inl (at, _) ↦ let same = ap (pointer s addrs) at in absurd (ground arith)
                    | inr (_, q) ↦ f.freed k klt (sym q ∙ g) knz
                  ])
                ];
            left = λ d below free.
                let apart : (pointer s addrs i == d) ≡ false =
                  let ne : pointer s addrs i ≢ d = free i lt (update_self gone i true) nz in
                  ground arith in
                bits d
                ∙ rw apart (f.left d below (λ k klt g knz. free k klt (grows gone i k g) knz));
            bytes = λ n off. rest n (off p (o.inside i lt nz)) ∙ f.bytes n off;
          },
        )
      ]

  -- One more pointer of `ip->addrs` is freed and cleared.
  free_addr_lem :
      (gone : ℕ → Bool) (s' : Volume) (addrs' : ℕ → ℕ) (i : ℕ)
      → IsFreed gone s'
      → i < npointer
      → gone i ≡ false
      → addrs' i ≡ pointer s addrs i
      → (s'' : Volume) × (addrs'' : ℕ → ℕ) × (free_addr sb i (some (s', addrs'))
          ≡ some (s'', addrs''))
        × IsFreed (update gone i true) s''
        × ((k : ℕ) → addrs'' k ≡ update addrs' i 0 k)
  free_addr_lem gone s' addrs' i f lt here at = elim (Bool-cases (addrs' i == 0)) [
    | inl e ↦
        let z : pointer s addrs i ≡ 0 = ground arith in
        (
          s',
          addrs',
          rw (free_addr, e) refl,
          IsFreed-same gone (update gone i true) s'
              (λ k klt nz. sym (update_ne gone i true k (λ q. nz (ap (pointer s addrs) q ∙ z)))) f,
          λ k. elim (update-cases addrs' i 0 k) [
            | inl (q, u) ↦ ap addrs' (sym q) ∙ at ∙ z ∙ sym u
            | inr (_, u) ↦ sym u
          ],
        )
    | inr e ↦
        let nz : pointer s addrs i ≢ 0 = ground arith in
        let (s'', q, f') = free_one gone s' i f lt here nz in
        let q' : bfree sb (addrs' i) s' ≡ some s'' = ap (λ b. bfree sb b s') at ∙ q in
        (s'', update addrs' i 0, rw (free_addr, e, q') refl, f', λ k. refl)
  ]

  -- The first loop, after `i` turns.
  first_loop :
      (i : ℕ)
      → i ≤ ndirect
      → (s' : Volume) × (addrs' : ℕ → ℕ) × (each (free_addr sb) i (some (s, addrs))
          ≡ some (s', addrs'))
        × IsFreed (λ k. ltb k i) s'
        × ((k : ℕ) → addrs' k ≡ (if ltb k i then 0 else addrs k))
  unfolding each
  first_loop zero le = (
    s,
    addrs,
    refl,
    IsFreed-same (λ _. false) (λ k. ltb k 0) s (λ k _ _. ground arith) IsFreed-none,
    λ k. ground arith,
  )
  first_loop (suc i) le =
      let (s', addrs', e, f, at) = first_loop i (omega arith) in
      let keeps : ltb i i ≡ false = ground arith in
      let (s'', addrs'', q, f', at') =
        free_addr_lem (λ k. ltb k i) s' addrs' i f (omega arith) keeps
          (at i ∙ rw keeps (sym (pointer-addrs s addrs i (omega arith)))) in
      (
        s'',
        addrs'',
        ap (free_addr sb i) e ∙ q,
        IsFreed-same (update (λ k. ltb k i) i true) (λ k. ltb k (suc i)) s'' (λ k _ _. ground arith)
            f',
        λ k. at' k ∙ elim (update-cases addrs' i 0 k) [
          | inl (h, u) ↦ let e1 : ltb k (suc i) ≡ true = ground arith in u ∙ rw e1 refl
          | inr (h, u) ↦ let e1 : ltb k i ≡ ltb k (suc i) = ground arith in u ∙ at k ∙ rw e1 refl
        ],
      )

  -- The slots freed once the loop over the indirect block made `j` turns.
  abbrev freed_to : ℕ → ℕ → Bool
  freed_to j k = if ltb k ndirect then true else if k == ndirect then false else ltb k (13 + j)

  second_loop :
      (s1 : Volume)
      → IsFreed (λ k. ltb k ndirect) s1
      → addrs ndirect ≢ 0
      → (j : ℕ) → j ≤ nindirect
      → (s' : Volume) × (each (free_entry sb (addrs ndirect)) j (some s1) ≡ some s')
        × IsFreed (freed_to j) s'
  unfolding each
  second_loop s1 f ind zero le =
      (s1, refl, IsFreed-same (λ k. ltb k ndirect) (freed_to 0) s1 (λ k _ _. ground arith) f)
  second_loop s1 f ind (suc j) le =
      let (s', e, f') = second_loop s1 f ind j (omega arith) in
      let p : pointer s addrs ndirect ≡ addrs ndirect =
        pointer-addrs s addrs ndirect (omega arith) in
      let off : (b : ℕ) → b < sb.size → addrs ndirect ≢ bblock sb b =
        λ b lt q. o.apart ndirect (omega arith) (λ z. ind (sym p ∙ z)) b lt (p ∙ q) in
      let at : word (s'.at (addrs ndirect)) j ≡ pointer s addrs (13 + j) =
        ap (λ bs. word bs j) (f'.bytes (addrs ndirect) off) ∙ sym (pointer-entry s addrs j ind) in
      let extend : (k : ℕ) → update (freed_to j) (13 + j) true k ≡ freed_to (suc j) k =
        λ k. ground arith in
      elim (Bool-cases (word (s'.at (addrs ndirect)) j == 0)) [
        | inl z ↦
            let z' : pointer s addrs (13 + j) ≡ 0 = ground arith in
            (
              s',
              ap (free_entry sb (addrs ndirect) j) e ∙ rw (free_entry, z) refl,
              IsFreed-same (freed_to j) (freed_to (suc j)) s'
                  (λ k lt nz.
                    sym (
                      update_ne (freed_to j) (13 + j) true k
                        (λ q. nz (ap (pointer s addrs) q ∙ z')))
                    ∙ extend k)
                  f',
            )
        | inr nz ↦
            let nz' : pointer s addrs (13 + j) ≢ 0 = ground arith in
            let (s'', q, g) =
              free_one (freed_to j) s' (13 + j) f' (omega arith) (ground arith) nz' in
            (
              s'',
              ap (free_entry sb (addrs ndirect) j) e
                  ∙ rw (free_entry, nz) (ap (λ b. bfree sb b s') at ∙ q),
              IsFreed-same (update (freed_to j) (13 + j) true) (freed_to (suc j)) s''
                  (λ k _ _. extend k) g,
            )
      ]

  -- Without pointers, the inode owns no block.
  Owns-empty :
      (s' : Volume) (addrs' : ℕ → ℕ)
      → IsFreed (λ _. true) s'
      → ((k : ℕ) → k < 13 → addrs' k ≡ 0)
      → ((k : ℕ) → k < npointer → pointer s' addrs' k ≡ 0) × Owns sb s' addrs'
  unfolding IsMap
  Owns-empty s' addrs' f none_left =
      let empty : (k : ℕ) → k < npointer → pointer s' addrs' k ≡ 0 = λ k lt.
        elim (slot-cases k lt) [
          | inl low ↦ pointer-addrs s' addrs' k low ∙ none_left k low
          | inr (j, e, _) ↦
              ap (pointer s' addrs') e ∙ pointer-none s' addrs' j (none_left ndirect (omega arith))
        ] in
      (
        empty,
        record {
          map = λ b lt.
              let (lt', used) = o.map b lt in
              (lt', f.left (bblock sb b) lt' (λ k klt _ nz. o.apart k klt nz b lt) ∙ used);
          disk = o.disk;
          boot = f.left 0 o.disk (λ k klt _ nz e. nz e) ∙ o.boot;
          inside = λ k lt nz. absurd (nz (empty k lt));
          used = λ k lt nz. absurd (nz (empty k lt));
          apart = λ k lt nz. absurd (nz (empty k lt));
          once = λ i j ilt _ nz. absurd (nz (empty i ilt));
        },
      )

  high_zero :
      addrs ndirect ≡ 0 → (k : ℕ) → k < npointer → ltb k ndirect ≡ false → pointer s addrs k ≡ 0
  high_zero z k lt high = elim (slot-cases k lt) [
    | inl low ↦
        let last : k ≡ ndirect = ground arith in pointer-addrs s addrs k low ∙ ap addrs last ∙ z
    | inr (j, e, _) ↦ ap (pointer s addrs) e ∙ pointer-none s addrs j z
  ]

  -- What `free_blocks` does.
  unfoldable pub Truncated : Type 0
  Truncated =
      (s' : Volume) × (addrs' : ℕ → ℕ) × (free_blocks sb s addrs ≡ some (s', addrs'))
      × IsFreed (λ _. true) s'
      × ((k : ℕ) → k < npointer → pointer s' addrs' k ≡ 0)
      × Owns sb s' addrs'

  module _ (s1 : Volume) (addrs1 : ℕ → ℕ)
      (e : each (free_addr sb) ndirect (some (s, addrs)) ≡ some (s1, addrs1))
      (f : IsFreed (λ k. ltb k ndirect) s1)
      (at : (k : ℕ) → addrs1 k ≡ (if ltb k ndirect then 0 else addrs k)) where
    without_indirect : (addrs1 ndirect == 0) ≡ true → Truncated
    unfolding free_blocks Truncated
    without_indirect z =
        let z' : addrs ndirect ≡ 0 = sym (at ndirect) ∙ ground arith in
        let f' : IsFreed (λ _. true) s1 =
          IsFreed-same (λ k. ltb k ndirect) (λ _. true) s1
            (λ k lt nz. elim (Bool-cases (ltb k ndirect)) [
              | inl low ↦ low
              | inr high ↦ absurd (nz (high_zero z' k lt high))
            ])
            f in
        let (empty, o') = Owns-empty s1 addrs1 f' (λ k lt. elim (Bool-cases (k == ndirect)) [
          | inl q ↦ ap addrs1 (ground arith) ∙ at ndirect ∙ z'
          | inr q ↦ let low : ltb k ndirect ≡ true = ground arith in at k ∙ rw low refl
        ]) in
        (s1, addrs1, rw (free_blocks, e, z) refl, f', empty, o')

    with_indirect : (addrs1 ndirect == 0) ≡ false → Truncated
    unfolding free_blocks Truncated
    with_indirect nz =
        let ind : addrs1 ndirect ≢ 0 = ground arith in
        let ind' : addrs ndirect ≢ 0 = λ z. ind (at ndirect ∙ z) in
        let (s2, e2, f2) = second_loop s1 f ind' nindirect (omega arith) in
        let e2' : each (free_entry sb (addrs1 ndirect)) nindirect (some s1) ≡ some s2 =
          subst (λ n. each (free_entry sb n) nindirect (some s1) ≡ some s2) (sym (at ndirect)) e2 in
        let (s3, addrs3, e3, f3, at3) =
          free_addr_lem (freed_to nindirect) s2 addrs1 ndirect f2 (omega arith) refl
            (at ndirect ∙ sym (pointer-addrs s addrs ndirect (omega arith))) in
        let f' : IsFreed (λ _. true) s3 =
          IsFreed-same (update (freed_to nindirect) ndirect true) (λ _. true) s3
            (λ k lt _. ground arith) f3 in
        let (empty, o') = Owns-empty s3 addrs3 f' (λ k lt.
          at3 k ∙ elim (update-cases addrs1 ndirect 0 k) [
            | inl (_, u) ↦ u
            | inr (ne, u) ↦ let low : ltb k ndirect ≡ true = ground arith in u ∙ at k ∙ rw low refl
          ]) in
        (s3, addrs3, rw (free_blocks, e, nz, e2', e3) refl, f', empty, o')

  -- On a volume where the inode owns its blocks: free_blocks does not panic. It frees the blocks that the inode owns
  -- and no other, changes the bytes of no block but those of the bitmap, and leaves an inode without blocks.
  pub free_blocks_lem : Truncated
  free_blocks_lem =
      let (s1, addrs1, e, f, at) = first_loop ndirect (omega arith) in
      elim (Bool-cases (addrs1 ndirect == 0)) [
        | inl z ↦ without_indirect s1 addrs1 e f at z
        | inr nz ↦ with_indirect s1 addrs1 e f at nz
      ]
