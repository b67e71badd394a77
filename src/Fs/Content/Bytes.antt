-- ===== src/Fs/Content/Bytes.antt =====
-- The bytes of an inode, and how they change with its blocks (src/kernel/fs.c).
use enhanced_xv.Base.{
  ℕ, ◌/◌, ◌%◌, ◌<◌, ◌≡◌, ◌≢◌, refl, sym, ◌∙◌, ap, false, if◌then◌else◌, ◌==◌, update, update_self,
  update_ne, arith, Bool-cases, inl, inr, subst, bit,
}
use enhanced_xv.Fs.{bsize, bpb, Superblock, Volume, bblock, note_logged}
use enhanced_xv.Fs.Scan.{is_used}
use enhanced_xv.Fs.Bitmap.{IsMap-kept}
use enhanced_xv.Fs.Content.{ndirect, word}
use enhanced_xv.Fs.Content.Owned.{
  npointer, pointer, pointer-addrs, pointer-none, pointer-entry, Owns, IsGrown,
}
use enhanced_xv.Fs.Content.Grow.{slot-cases}
use enhanced_xv.Fs.Content.Bmap.{slot}

-- MAXFILE * BSIZE
abbrev pub max_bytes : ℕ
max_bytes = 274432

unfoldable pub byte_of : Volume → ℕ → ℕ → ℕ
byte_of s p o = if p == 0 then 0 else s.at p o

byte_of-same :
    (s s' : Volume) (p b : ℕ) → (p ≢ 0 → s'.at p ≡ s.at p) → byte_of s' p b ≡ byte_of s p b
unfolding byte_of
byte_of-same s s' p b h = elim (Bool-cases (p == 0)) [
  | inl e ↦ rw e refl
  | inr e ↦ rw e (ap (λ f. f b) (h (ground arith)))
]

byte_of_zero : (s : Volume) (p b : ℕ) → p ≡ 0 → byte_of s p b ≡ 0
unfolding byte_of
byte_of_zero s p b z = ap (λ q. byte_of s q b) z

-- Byte `i` of the inode; where it has no block the byte is 0.
unfoldable pub content : Volume → (ℕ → ℕ) → ℕ → ℕ
content s addrs i = byte_of s (pointer s addrs (slot (i / bsize))) (i % bsize)

pub content-block :
    (s : Volume) (addrs : ℕ → ℕ) (i p : ℕ)
    → pointer s addrs (slot (i / bsize)) ≡ p
    → p ≢ 0
    → content s addrs i ≡ s.at p (i % bsize)
unfolding content byte_of
content-block s addrs i p e nz =
    let q : (p == 0) ≡ false = ground arith in ap (λ k. byte_of s k (i % bsize)) e ∙ rw q refl

-- Only the slots and the bitmap matter.
Owns-same :
    (sb : Superblock) (s s' : Volume) (addrs addrs' : ℕ → ℕ)
    → Owns sb s addrs
    → ((d : ℕ) → d < sb.size → is_used sb s' d ≡ is_used sb s d)
    → ((k : ℕ) → k < npointer → pointer s' addrs' k ≡ pointer s addrs k)
    → Owns sb s' addrs'
Owns-same sb s s' addrs addrs' o used same = record {
  map = IsMap-kept sb s s' o.map (λ d lt u. used d lt ∙ u);
  disk = o.disk;
  boot = used 0 o.disk ∙ o.boot;
  inside = λ k lt nz.
      subst (λ p. p < sb.size) (sym (same k lt)) (o.inside k lt (λ z. nz (same k lt ∙ z)));
  used = λ k lt nz.
      let nz' : pointer s addrs k ≢ 0 = λ z. nz (same k lt ∙ z) in
      ap (is_used sb s') (same k lt)
      ∙ used (pointer s addrs k) (o.inside k lt nz')
      ∙ o.used k lt nz';
  apart = λ k lt nz b blt e. o.apart k lt (λ z. nz (same k lt ∙ z)) b blt (sym (same k lt) ∙ e);
  once = λ i j ilt jlt iin jin e.
      o.once i j ilt jlt (λ z. iin (same i ilt ∙ z)) (λ z. jin (same j jlt ∙ z))
        (sym (same i ilt) ∙ e ∙ same j jlt);
}

pub note_logged-content :
    (n : ℕ) (s : Volume) (addrs : ℕ → ℕ) (i : ℕ)
    → content (note_logged n s) addrs i ≡ content s addrs i
unfolding content byte_of pointer
note_logged-content n s addrs i = refl

pub note_logged-Owns :
    (sb : Superblock) (n : ℕ) (s : Volume) (addrs : ℕ → ℕ)
    → Owns sb s addrs
    → Owns sb (note_logged n s) addrs
unfolding pointer
note_logged-Owns sb n s addrs o =
    Owns-same sb s (note_logged n s) addrs addrs o (λ _ _. refl) (λ _ _. refl)

module _ (sb : Superblock) (s : Volume) (addrs : ℕ → ℕ) (o : Owns sb s addrs) where
  -- The block of a slot but the indirect block's is written.
  module _ (i : ℕ) (lt : i < npointer) (ni : i ≢ ndirect) (nz : pointer s addrs i ≢ 0)
      (bytes : ℕ → ℕ) (s' : Volume) (at : s'.at ≡ update s.at (pointer s addrs i) bytes) where
    store_other : (n : ℕ) → n ≢ pointer s addrs i → s'.at n ≡ s.at n
    store_other n ne = ap (λ f. f n) at ∙ update_ne s.at (pointer s addrs i) bytes n ne

    store-pointer : (k : ℕ) → k < npointer → pointer s' addrs k ≡ pointer s addrs k
    store-pointer k klt = elim (slot-cases k klt) [
      | inl low ↦ pointer-addrs s' addrs k low ∙ sym (pointer-addrs s addrs k low)
      | inr (j, e, jlt) ↦
          ap (pointer s' addrs) e
          ∙ elim (Bool-cases (addrs ndirect == 0)) [
            | inl z ↦
                pointer-none s' addrs j (ground arith) ∙ sym (pointer-none s addrs j (ground arith))
            | inr n ↦
                let ind : addrs ndirect ≢ 0 = ground arith in
                let p : pointer s addrs ndirect ≡ addrs ndirect =
                  pointer-addrs s addrs ndirect (omega arith) in
                pointer-entry s' addrs j ind
                ∙ ap (λ f. word f j)
                    (store_other (addrs ndirect) (λ q. ni (
                      o.once i ndirect lt (omega arith) nz (λ z. ind (sym p ∙ z)) (sym q ∙ sym p))))
                ∙ sym (pointer-entry s addrs j ind)
          ]
          ∙ sym (ap (pointer s addrs) e)
    ]

    pub store-Owns : Owns sb s' addrs
    store-Owns =
        Owns-same sb s s' addrs addrs o
          (λ d dlt.
            ap (λ f. bit (d % bpb % 8) (f (d % bpb / 8)))
              (store_other (bblock sb d) (λ q. o.apart i lt nz d dlt (sym q))))
          store-pointer

    pub store-content :
        (b : ℕ)
        → b < max_bytes
        → content s' addrs b
          ≡ (if slot (b / bsize) == i then bytes (b % bsize) else content s addrs b)
    unfolding content byte_of
    store-content b blt =
        let klt : slot (b / bsize) < npointer = ground arith in
        ap (λ p. byte_of s' p (b % bsize)) (store-pointer (slot (b / bsize)) klt)
        ∙ elim (Bool-cases (slot (b / bsize) == i)) [
          | inl e ↦
              let here : slot (b / bsize) ≡ i = ground arith in
              let nz' : (pointer s addrs i == 0) ≡ false = ground arith in
              ap (λ k. byte_of s' (pointer s addrs k) (b % bsize)) here
              ∙ rw (byte_of, nz', e)
                  (ap (λ f. f (pointer s addrs i) (b % bsize)) at
                    ∙ ap (λ f. f (b % bsize)) (update_self s.at (pointer s addrs i) bytes))
          | inr e ↦
              let ne : slot (b / bsize) ≢ i = ground arith in
              rw e (
                byte_of-same s s' (pointer s addrs (slot (b / bsize))) (b % bsize) (λ kz.
                  store_other (pointer s addrs (slot (b / bsize)))
                    (λ q. ne (o.once (slot (b / bsize)) i klt lt kz nz q))))
        ]

  module _ (bn : ℕ) (s' : Volume) (addrs' : ℕ → ℕ) (a : ℕ)
      (g : IsGrown sb (slot bn) s addrs s' addrs' a) where
    -- A slot that is in use keeps its block.
    pub kept_slot :
        (k : ℕ)
        → k < npointer
        → k ≢ ndirect
        → pointer s addrs k ≢ 0
        → pointer s' addrs' k ≡ pointer s addrs k
    kept_slot k klt nd nz = elim (Bool-cases (k == slot bn)) [
      | inl e ↦
          let here : k ≡ slot bn = ground arith in
          ap (pointer s' addrs') here
          ∙ g.found
          ∙ g.kept (λ z. nz (ap (pointer s addrs) here ∙ z))
          ∙ sym (ap (pointer s addrs) here)
      | inr e ↦ g.others k klt (ground arith) nd
    ]

    -- A slot that was empty reads as zeros.
    empty_slot :
        (k : ℕ)
        → k < npointer
        → k ≢ ndirect
        → pointer s addrs k ≡ 0
        → (b : ℕ) → b < bsize
        → byte_of s' (pointer s' addrs' k) b ≡ 0
    unfolding byte_of
    empty_slot k klt nd z b blt = elim (Bool-cases (k == slot bn)) [
      | inl e ↦
          let here : k ≡ slot bn = ground arith in
          ap (λ p. byte_of s' p b) (ap (pointer s' addrs') here ∙ g.found)
          ∙ elim (Bool-cases (a == 0)) [
            | inl q ↦ rw q refl
            | inr q ↦ rw q (g.zeroed (sym (ap (pointer s addrs) here) ∙ z) (ground arith) b blt)
          ]
      | inr e ↦ byte_of_zero s' (pointer s' addrs' k) b (g.others k klt (ground arith) nd ∙ z)
    ]

    -- A block that `bmap` adds does not change the bytes.
    pub grown-content : (b : ℕ) → b < max_bytes → content s' addrs' b ≡ content s addrs b
    unfolding content
    grown-content b blt =
        let klt : slot (b / bsize) < npointer = ground arith in
        let nd : slot (b / bsize) ≢ ndirect = ground arith in
        elim (Bool-cases (pointer s addrs (slot (b / bsize)) == 0)) [
          | inr e ↦
              let nz : pointer s addrs (slot (b / bsize)) ≢ 0 = ground arith in
              ap (λ p. byte_of s' p (b % bsize)) (kept_slot (slot (b / bsize)) klt nd nz)
              ∙ byte_of-same s s' (pointer s addrs (slot (b / bsize))) (b % bsize)
                  (λ _. g.data_kept (slot (b / bsize)) klt nd nz)
          | inl e ↦
              let z : pointer s addrs (slot (b / bsize)) ≡ 0 = ground arith in
              empty_slot (slot (b / bsize)) klt nd z (b % bsize) (omega arith)
              ∙ sym (byte_of_zero s (pointer s addrs (slot (b / bsize))) (b % bsize) z)
        ]
