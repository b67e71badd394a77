-- ===== src/Fs/Content/Owned.antt =====
-- The blocks that an inode owns, and how one more is added (src/kernel/fs.c).
use enhanced_xv.Base.{
  ℕ, ◌+◌, ◌-◌, ◌<◌, ◌≡◌, ◌≢◌, refl, sym, ◌∙◌, ap, true, false, if◌then◌else◌, ◌==◌, ltb, update,
  update-cases, IsSingle, IsSingle-update, arith, inl, inr, subst,
}
use mathlib.Core.Bool.{false≢true}
use enhanced_xv.Fs.{bsize, Superblock, Volume, bblock}
use enhanced_xv.Fs.Scan.{is_used}
use enhanced_xv.Fs.Bitmap.{IsMap, IsMap-at, IsMap-kept}
use enhanced_xv.Fs.Content.{ndirect, word}

-- The direct blocks, the indirect block, and its entries.
abbrev pub npointer : ℕ
npointer = 269

-- The pointer in slot `k`: those of `ip->addrs` come first, then the entries of the indirect block, if there is one.
unfoldable pub pointer : Volume → (ℕ → ℕ) → ℕ → ℕ
pointer s addrs k =
    if ltb k 13
    then addrs k
    else if addrs ndirect == 0
    then 0
    else word (s.at (addrs ndirect)) (k - 13)

pub pointer-addrs : (s : Volume) (addrs : ℕ → ℕ) (k : ℕ) → k < 13 → pointer s addrs k ≡ addrs k
unfolding pointer
pointer-addrs s addrs k lt = let e : ltb k 13 ≡ true = ground arith in rw e refl

pub pointer-none :
    (s : Volume) (addrs : ℕ → ℕ) (j : ℕ) → addrs ndirect ≡ 0 → pointer s addrs (13 + j) ≡ 0
unfolding pointer
pointer-none s addrs j z =
    let (e, e') : (ltb (13 + j) 13 ≡ false) × ((addrs ndirect == 0) ≡ true) =
      (ground arith, ground arith) in
    rw (e, e') refl

pub pointer-entry :
    (s : Volume) (addrs : ℕ → ℕ) (j : ℕ)
    → addrs ndirect ≢ 0
    → pointer s addrs (13 + j) ≡ word (s.at (addrs ndirect)) j
unfolding pointer
pointer-entry s addrs j ne =
    let (e, e') : (ltb (13 + j) 13 ≡ false) × ((addrs ndirect == 0) ≡ false) =
      (ground arith, ground arith) in
    let at : 13 + j - 13 ≡ j = omega arith in rw (e, e', at) refl

-- The blocks of the inode are distinct blocks of the disk that are in use and hold no part of the bitmap; the
-- boot block is in use too.
pub record Owns (sb : Superblock) (s : Volume) (addrs : ℕ → ℕ) : Type 0 where
  pub map : IsMap sb s
  pub disk : 0 < sb.size
  pub boot : is_used sb s 0 ≡ true
  pub inside : (k : ℕ) → k < npointer → pointer s addrs k ≢ 0 → pointer s addrs k < sb.size
  pub used :
      (k : ℕ) → k < npointer → pointer s addrs k ≢ 0 → is_used sb s (pointer s addrs k) ≡ true
  pub apart :
      (k : ℕ)
      → k < npointer
      → pointer s addrs k ≢ 0
      → (b : ℕ) → b < sb.size
      → pointer s addrs k ≢ bblock sb b
  pub once : IsSingle npointer (λ a. a ≢ 0) (λ a b. a ≡ b) (pointer s addrs)

-- From `s` and `addrs` to `s'` and `addrs'`, slot `i` was looked up and `a` found there. What is in the slot is
-- left as it is; a new block was free and is filled with zeros. There is none only when the disk is full. The
-- other slots, but for the indirect block's if it has none, stay as they are, as does what the inode's data blocks hold.
pub record IsGrown (sb : Superblock) (i : ℕ) (s : Volume) (addrs : ℕ → ℕ) (s' : Volume)
    (addrs' : ℕ → ℕ) (a : ℕ) : Type 0 where
  pub owns : Owns sb s' addrs'
  pub found : pointer s' addrs' i ≡ a
  pub kept : pointer s addrs i ≢ 0 → a ≡ pointer s addrs i
  pub others :
      (k : ℕ) → k < npointer → k ≢ i → k ≢ ndirect → pointer s' addrs' k ≡ pointer s addrs k
  pub indirect : pointer s addrs ndirect ≢ 0 → pointer s' addrs' ndirect ≡ pointer s addrs ndirect
  pub full : a ≡ 0 → (d : ℕ) → d < sb.size → is_used sb s' d ≡ true
  pub fresh : pointer s addrs i ≡ 0 → a ≢ 0 → is_used sb s a ≡ false
  pub zeroed : pointer s addrs i ≡ 0 → a ≢ 0 → (b : ℕ) → b < bsize → s'.at a b ≡ 0
  pub taken : (d : ℕ) → d < sb.size → is_used sb s d ≡ true → is_used sb s' d ≡ true
  pub data_kept :
      (k : ℕ)
      → k < npointer
      → k ≢ ndirect
      → pointer s addrs k ≢ 0
      → s'.at (pointer s addrs k) ≡ s.at (pointer s addrs k)

-- A free block that is in no slot is put into an empty one.
pub grown :
    (sb : Superblock) (s s' : Volume) (addrs addrs' : ℕ → ℕ) (i c : ℕ)
    → Owns sb s addrs
    → c < sb.size
    → is_used sb s c ≡ false
    → ((d : ℕ) → d < sb.size → is_used sb s' d ≡ (if c == d then true else is_used sb s d))
    → ((k : ℕ) → k < npointer → pointer s' addrs' k ≡ update (pointer s addrs) i c k)
    → (c ≢ 0) × Owns sb s' addrs'
grown sb s s' addrs addrs' i c o lt free bits ptr =
    let kept : (d : ℕ) → d < sb.size → is_used sb s d ≡ true → is_used sb s' d ≡ true =
      λ d below used. bits d below ∙ rw used (ground arith) in
    let ne : c ≢ 0 = λ z. absurd (false≢true (sym free ∙ ap (is_used sb s) z ∙ o.boot)) in
    let self : (c == c) ≡ true = ground arith in
    let off : (b : ℕ) → b < sb.size → c ≢ bblock sb b = λ b below e.
      absurd (false≢true (sym free ∙ ap (is_used sb s) e ∙ (IsMap-at sb s o.map b below))) in
    (
      ne,
      record {
        map = IsMap-kept sb s s' o.map kept;
        disk = o.disk;
        boot = kept 0 (omega arith) o.boot;
        inside = λ k below nz. elim (update-cases (pointer s addrs) i c k) [
          | inl (_, e) ↦ subst (λ p. p < sb.size) (sym (ptr k below ∙ e)) lt
          | inr (_, e) ↦
              let same = ptr k below ∙ e in
              subst (λ p. p < sb.size) (sym same) (o.inside k below (λ z. nz (same ∙ z)))
        ];
        used = λ k below nz. elim (update-cases (pointer s addrs) i c k) [
          | inl (_, e) ↦ ap (is_used sb s') (ptr k below ∙ e) ∙ bits c lt ∙ rw self refl
          | inr (_, e) ↦
              let same = ptr k below ∙ e in
              let nz' : pointer s addrs k ≢ 0 = λ z. nz (same ∙ z) in
              ap (is_used sb s') same
              ∙ kept (pointer s addrs k) (o.inside k below nz') (o.used k below nz')
        ];
        apart = λ k below nz b lt'. elim (update-cases (pointer s addrs) i c k) [
          | inl (_, e) ↦ λ q. off b lt' (sym (ptr k below ∙ e) ∙ q)
          | inr (_, e) ↦
              let same = ptr k below ∙ e in
              λ q. o.apart k below (λ z. nz (same ∙ z)) b lt' (sym same ∙ q)
        ];
        once = λ k j klt jlt kin jin same.
            let single =
              IsSingle-update npointer (λ a. a ≢ 0) (λ a b. a ≡ b) (λ x y e. sym e)
                (pointer s addrs) i c o.once
                (λ _ j jlt jin e.
                  absurd (false≢true (sym free ∙ ap (is_used sb s) e ∙ o.used j jlt jin))) in
            single k j klt jlt (λ z. kin (ptr k klt ∙ z)) (λ z. jin (ptr j jlt ∙ z))
              (sym (ptr k klt) ∙ same ∙ ptr j jlt);
      },
    )
