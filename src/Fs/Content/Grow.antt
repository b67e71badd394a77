-- ===== src/Fs/Content/Grow.antt =====
-- `bmap` gives an inode the blocks that it lacks (src/kernel/fs.c).
use enhanced_xv.Base.{
  ℕ, ◌+◌, ◌-◌, ◌*◌, ◌<◌, ◌≡◌, ◌≢◌, refl, sym, ◌∙◌, ap, true, if◌then◌else◌, ◌==◌, ltb, update,
  update_self, update_ne, update-cases, arith, Bool-cases, inl, inr, subst, ◌⊎◌,
}
use mathlib.Core.Bool.{false≢true}
use enhanced_xv.Fs.{Superblock, Volume}
use enhanced_xv.Fs.Scan.{is_used}
use enhanced_xv.Fs.Bitmap.{IsAllocated}
use enhanced_xv.Fs.Content.{ndirect, nindirect, word}
use enhanced_xv.Fs.Content.Owned.{
  npointer, pointer, pointer-addrs, pointer-none, pointer-entry, Owns, IsGrown, grown,
}

pub slot-cases : (k : ℕ) → k < npointer → (k < 13) ⊎ ((j : ℕ) × (k ≡ 13 + j) × (j < nindirect))
slot-cases k lt = elim (Bool-cases (ltb k 13)) [
  | inl e ↦ inl (ground arith)
  | inr e ↦ inr (k - 13, ground arith, ground arith)
]

module _ (sb : Superblock) (s : Volume) (addrs : ℕ → ℕ) (o : Owns sb s addrs) where
  -- A slot that is in use is found as it is.
  pub stays : (i a : ℕ) → a ≢ 0 → a ≡ pointer s addrs i → IsGrown sb i s addrs s addrs a
  stays i a ne e = record {
    owns = o;
    found = sym e;
    kept = λ _. e;
    others = λ _ _ _ _. refl;
    indirect = λ _. refl;
    full = λ z. absurd (ne z);
    fresh = λ z. absurd (ne (e ∙ z));
    zeroed = λ z. absurd (ne (e ∙ z));
    taken = λ _ _ u. u;
    data_kept = λ _ _ _ _. refl;
  }

  -- The disk is full.
  pub stays_empty :
      (i : ℕ)
      → pointer s addrs i ≡ 0
      → ((d : ℕ) → d < sb.size → is_used sb s d ≡ true)
      → IsGrown sb i s addrs s addrs 0
  stays_empty i e all = record {
    owns = o;
    found = e;
    kept = λ ne. absurd (ne e);
    others = λ _ _ _ _. refl;
    indirect = λ _. refl;
    full = λ _. all;
    fresh = λ _ ne. absurd (ne refl);
    zeroed = λ _ ne. absurd (ne refl);
    taken = λ _ _ u. u;
    data_kept = λ _ _ _ _. refl;
  }

  -- A block that the inode owns is not the one that `balloc` gives out, and stays as it is.
  pub owned_block :
      (s' : Volume) (c : ℕ)
      → IsAllocated sb s s' c
      → (k : ℕ) → k < npointer
      → pointer s addrs k ≢ 0
      → (pointer s addrs k ≢ c) × (s'.at (pointer s addrs k) ≡ s.at (pointer s addrs k))
  owned_block s' c a k lt ne =
      let apart : pointer s addrs k ≢ c =
        λ e. false≢true (sym a.was_free ∙ ap (is_used sb s) (sym e) ∙ o.used k lt ne) in
      (apart, a.others (pointer s addrs k) apart (o.apart k lt ne c a.exists))

  new_block :
      (s' : Volume) (c : ℕ)
      → IsAllocated sb s s' c
      → (c ≢ pointer s addrs ndirect) ⊎ (pointer s addrs ndirect ≡ 0)
  new_block s' c a = elim (Bool-cases (pointer s addrs ndirect == 0)) [
    | inl e ↦ inr (ground arith)
    | inr e ↦ inl (λ q. (owned_block s' c a ndirect (omega arith) (ground arith)).0 (sym q))
  ]

  not_indirect :
      (k : ℕ)
      → k < npointer
      → k ≢ ndirect
      → pointer s addrs k ≢ 0
      → (pointer s addrs k ≢ pointer s addrs ndirect) ⊎ (pointer s addrs ndirect ≡ 0)
  not_indirect k below nd nz =
      inl (λ e. nd (o.once k ndirect below (omega arith) nz (λ z. nz (e ∙ z)) e))

  -- `balloc` gave out `c`, which goes into the empty slot `i`.
  pub takes :
      (i c : ℕ) (s' s'' : Volume) (addrs' : ℕ → ℕ)
      → i < npointer
      → pointer s addrs i ≡ 0
      → IsAllocated sb s s' c
      → ((d : ℕ) → d < sb.size → is_used sb s'' d ≡ is_used sb s' d)
      → ((k : ℕ) → k < npointer → pointer s'' addrs' k ≡ update (pointer s addrs) i c k)
      → ((n : ℕ) → n ≢ pointer s addrs ndirect ⊎ (pointer s addrs ndirect ≡ 0) → s''.at n ≡ s'.at n)
      → (c ≢ 0) × IsGrown sb i s addrs s'' addrs' c
  takes i c s' s'' addrs' lt z a used ptr rest =
      let bits : (d : ℕ)
          → d < sb.size
          → is_used sb s'' d ≡ (if c == d then true else is_used sb s d) =
        λ d below. used d below ∙ a.bits d below in
      let (ne, o') = grown sb s s'' addrs addrs' i c o a.exists a.was_free bits ptr in
      (
        ne,
        record {
          owns = o';
          found = ptr i lt ∙ update_self (pointer s addrs) i c;
          kept = λ nz. absurd (nz z);
          others = λ k below apart _. ptr k below ∙ update_ne (pointer s addrs) i c k apart;
          indirect = λ nz.
              ptr ndirect (omega arith)
              ∙ update_ne (pointer s addrs) i c ndirect (λ e. nz (ap (pointer s addrs) e ∙ z));
          full = λ e. absurd (ne e);
          fresh = λ _ _. a.was_free;
          zeroed = λ _ _ b below. ap (λ f. f b) (rest c (new_block s' c a)) ∙ a.zeroed b below;
          taken = λ d below u. bits d below ∙ rw u (ground arith);
          data_kept = λ k below nd nz.
              rest (pointer s addrs k) (not_indirect k below nd nz)
              ∙ (owned_block s' c a k below nz).1;
        },
      )

  -- The pointers once `addrs i` is a fresh block.
  pub load_addr-pointer :
      (i c : ℕ) (s' : Volume)
      → i < 13
      → addrs i ≡ 0
      → IsAllocated sb s s' c
      → c ≢ 0
      → (k : ℕ) → k < npointer
      → pointer s' (update addrs i c) k ≡ update (pointer s addrs) i c k
  load_addr-pointer i c s' lt z a nz k below = elim (slot-cases k below) [
    | inl low ↦ pointer-addrs s' (update addrs i c) k low ∙ elim (update-cases addrs i c k) [
      | inl (here, e) ↦
          e ∙ sym (ap (update (pointer s addrs) i c) (sym here) ∙ update_self (pointer s addrs) i c)
      | inr (ne, e) ↦ e ∙ sym (update_ne (pointer s addrs) i c k ne ∙ pointer-addrs s addrs k low)
    ]
    | inr (j, e, jlt) ↦
        ap (pointer s' (update addrs i c)) e
        ∙ elim (update-cases addrs i c ndirect) [
          | inl (here, q) ↦
              pointer-entry s' (update addrs i c) j (λ e'. nz (sym q ∙ e'))
              ∙ ap (λ n. word (s'.at n) j) q
              ∙ rw
                  (
                    a.zeroed (4 * j) (omega arith),
                    a.zeroed (4 * j + 1) (omega arith),
                    a.zeroed (4 * j + 2) (omega arith),
                    a.zeroed (4 * j + 3) (omega arith),
                  )
                  refl
              ∙ sym (pointer-none s addrs j (ap addrs (sym here) ∙ z))
          | inr (ne, q) ↦ elim (Bool-cases (addrs ndirect == 0)) [
            | inl none_yet ↦
                let z' : addrs ndirect ≡ 0 = ground arith in
                pointer-none s' (update addrs i c) j (q ∙ z') ∙ sym (pointer-none s addrs j z')
            | inr some_yet ↦
                let nz' : addrs ndirect ≢ 0 = ground arith in
                let p : pointer s addrs ndirect ≡ addrs ndirect =
                  pointer-addrs s addrs ndirect (omega arith) in
                pointer-entry s' (update addrs i c) j (λ e'. nz' (sym q ∙ e'))
                ∙ ap (λ n. word (s'.at n) j) q
                ∙ ap (λ f. word f j)
                    (subst (λ n. s'.at n ≡ s.at n) p
                      (owned_block s' c a ndirect (omega arith) (λ e'. nz' (sym p ∙ e'))).1)
                ∙ sym (pointer-entry s addrs j nz')
          ]
        ]
        ∙ sym (
            ap (update (pointer s addrs) i c) e
            ∙ update_ne (pointer s addrs) i c (13 + j) (omega arith))
  ]
