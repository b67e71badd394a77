-- ===== src/Fs/Content/Words.antt =====
-- The words of a block.
use enhanced_xv.Base.{
  ℕ, ◌/◌, ◌%◌, ◌+◌, ◌*◌, ◌<◌, ◌≡◌, ◌≢◌, refl, ◌==◌, arith, int_mod, ◌⊎◌, Bool-cases, inl, ltb,
  false, inr,
}
use enhanced_xv.Fs.Content.{word, set_word}

byte_other :
    (i w : ℕ) (bytes : ℕ → ℕ) (p : ℕ)
    → (p < 4 * i) ⊎ (4 * i + 3 < p)
    → set_word i w bytes p ≡ bytes p
byte_other i w bytes p (inl lt) =
    let (e0, e1, e2, e3) : ((p == 4 * i) ≡ false)
        × ((p == 4 * i + 1) ≡ false)
        × ((p == 4 * i + 2) ≡ false)
        × ((p == 4 * i + 3) ≡ false) =
      (ground arith, ground arith, ground arith, ground arith) in
    rw (e0, e1, e2, e3) refl
byte_other i w bytes p (inr lt) =
    let (e0, e1, e2, e3) : ((p == 4 * i) ≡ false)
        × ((p == 4 * i + 1) ≡ false)
        × ((p == 4 * i + 2) ≡ false)
        × ((p == 4 * i + 3) ≡ false) =
      (ground arith, ground arith, ground arith, ground arith) in
    rw (e0, e1, e2, e3) refl

pub word_self : (i w : ℕ) (bytes : ℕ → ℕ) → w < int_mod → word (set_word i w bytes) i ≡ w
word_self i w bytes lt =
    let b0 : set_word i w bytes (4 * i) ≡ w % 256 = ground arith in
    let b1 : set_word i w bytes (4 * i + 1) ≡ w / 256 % 256 = ground arith in
    let b2 : set_word i w bytes (4 * i + 2) ≡ w / 65536 % 256 = ground arith in
    let b3 : set_word i w bytes (4 * i + 3) ≡ w / 16777216 % 256 = ground arith in
    rw (b0, b1, b2, b3) (omega arith)

pub word_other : (i j w : ℕ) (bytes : ℕ → ℕ) → j ≢ i → word (set_word i w bytes) j ≡ word bytes j
word_other i j w bytes ne = elim (Bool-cases (ltb j i)) [
  | inl e ↦
      rw
        (
          byte_other i w bytes (4 * j) (inl (ground arith)),
          byte_other i w bytes (4 * j + 1) (inl (ground arith)),
          byte_other i w bytes (4 * j + 2) (inl (ground arith)),
          byte_other i w bytes (4 * j + 3) (inl (ground arith)),
        )
        refl
  | inr e ↦
      rw
        (
          byte_other i w bytes (4 * j) (inr (ground arith)),
          byte_other i w bytes (4 * j + 1) (inr (ground arith)),
          byte_other i w bytes (4 * j + 2) (inr (ground arith)),
          byte_other i w bytes (4 * j + 3) (inr (ground arith)),
        )
        refl
]
