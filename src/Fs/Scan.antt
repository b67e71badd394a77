-- ===== src/Fs/Scan.antt =====
-- The bits of the bitmap, and the scan of `balloc` for the first one that is 0 (src/kernel/fs.c).
use enhanced_xv.Base.{
  ℕ, zero, suc, ◌+◌, ◌-◌, ◌*◌, ◌/◌, ◌%◌, ◌<◌, ◌≤◌, ◌≡◌, refl, sym, ◌∙◌, ap, Bool, true, false, not,
  Option, none, some, Option-cases, if◌then◌else◌, ◌==◌, ltb, find_first, find_first-none,
  find_first-some, bit, bit-set_bit, arith, Bool-cases, inl, inr, ◌⊎◌, subst,
}
use enhanced_xv.Fs.{bpb, Superblock, Volume, bblock, bzero, bits_from, is_marked, mark, balloc_from}

-- Whether the bitmap says that block `b` is in use.
abbrev pub is_used : Superblock → Volume → ℕ → Bool
is_used sb s b = is_marked s (bblock sb b) (b % bpb)

-- A block within the part of the bitmap that starts at `q * bpb`.
is_used-within :
    (sb : Superblock) (s : Volume) (q bi : ℕ)
    → bi < bpb
    → is_used sb s (q * bpb + bi) ≡ is_marked s (bblock sb (q * bpb)) bi
is_used-within sb s q bi lt =
    let e : (q * bpb + bi) / bpb ≡ (q * bpb) / bpb = omega arith in
    let e' : (q * bpb + bi) % bpb ≡ bi = omega arith in rw (e, e') refl

-- A mark changes what the bitmap says of its block, and of no other.
pub is_used-mark :
    (sb : Superblock) (s : Volume) (b : Bool) (c d : ℕ)
    → is_used sb (mark b (bblock sb c) (c % bpb) s) d ≡ (if c == d then b else is_used sb s d)
is_used-mark sb s b c d = elim (Bool-cases (bblock sb c == bblock sb d)) [
  | inr e ↦ let apart : (c == d) ≡ false = ground arith in rw (e, apart) refl
  | inl e ↦ elim (Bool-cases (c % bpb / 8 == d % bpb / 8)) [
    | inr f ↦
        let apart : (c == d) ≡ false = ground arith in
        let blk : bblock sb c ≡ bblock sb d = ground arith in
        rw (e, f, apart) (ap (λ n. is_marked s n (d % bpb)) blk)
    | inl f ↦
        let blk : bblock sb c ≡ bblock sb d = ground arith in
        let byte : c % bpb / 8 ≡ d % bpb / 8 = ground arith in
        let same : (c % bpb % 8 == d % bpb % 8) ≡ (c == d) = ground arith in
        let here : bit (d % bpb % 8) (s.at (bblock sb c) (c % bpb / 8)) ≡ is_used sb s d =
          ap (λ n. bit (d % bpb % 8) (s.at n (c % bpb / 8))) blk
          ∙ ap (λ i. bit (d % bpb % 8) (s.at (bblock sb d) i)) byte in
        rw (e, f)
          (bit-set_bit b (c % bpb % 8) (d % bpb % 8) (s.at (bblock sb c) (c % bpb / 8))
            ∙ rw (same, here) refl)
  ]
]

not-false : (b : Bool) → not b ≡ false → b ≡ true
not-false true h = refl
not-false false h = cc

not-true : (b : Bool) → not b ≡ true → b ≡ false
not-true true h = cc
not-true false h = refl

-- What the scan from block `b` on finds.
unfoldable pub Scanned : Superblock → Volume → ℕ → Option (Volume × ℕ) → Type 0
Scanned sb s b o =
    ((o ≡ none) × ((d : ℕ) → b ≤ d → d < sb.size → is_used sb s d ≡ true))
    ⊎ ((c : ℕ) × (o ≡ some (bzero c (mark true (bblock sb c) (c % bpb) s), c))
        × (c < sb.size)
        × (is_used sb s c ≡ false)
        × ((d : ℕ) → b ≤ d → d < c → is_used sb s d ≡ true))

-- What the inner loop passed over is in use.
passed :
    (sb : Superblock) (s : Volume) (q k : ℕ)
    → k ≤ bpb
    → ((bi : ℕ) → bi < k → not (is_marked s (bblock sb (q * bpb)) bi) ≡ false)
    → (d : ℕ) → q * bpb ≤ d
    → d < q * bpb + k
    → is_used sb s d ≡ true
passed sb s q k le h d low high =
    let bi : ℕ = d - q * bpb in
    let here : q * bpb + bi ≡ d = omega arith in
    let marked : is_marked s (bblock sb (q * bpb)) bi ≡ true = not-false _ (h bi (omega arith)) in
    ap (is_used sb s) (sym here) ∙ is_used-within sb s q bi (omega arith) ∙ marked

pub balloc_from-scans :
    (sb : Superblock) (s : Volume) (fuel q : ℕ)
    → sb.size ≤ q * bpb + fuel * bpb
    → Scanned sb s (q * bpb) (balloc_from sb s fuel (q * bpb))
unfolding balloc_from Scanned
balloc_from-scans sb s zero q h = inl (refl, λ d le lt. absurd (omega arith))
balloc_from-scans sb s (suc fuel) q h = elim (Bool-cases (ltb (q * bpb) sb.size)) [
  | inr e ↦ inl (rw (balloc_from, e) refl, λ d le lt. absurd (ground arith))
  | inl e ↦
      let n : ℕ = bits_from sb (q * bpb) in
      let test : ℕ → Bool = λ bi. not (is_marked s (bblock sb (q * bpb)) bi) in
      elim (Option-cases (find_first test n)) [
        | inr (bi, f) ↦
            let (lt, free, before) = find_first-some test n bi f in
            let small : bi < bpb = ground arith in
            let c : ℕ = q * bpb + bi in
            let blk : bblock sb c ≡ bblock sb (q * bpb) = omega arith in
            let rem : c % bpb ≡ bi = omega arith in
            inr (
              c,
              rw (balloc_from, e, f, blk, rem) refl,
              ground arith,
              is_used-within sb s q bi small ∙ not-true _ free,
              λ d low high. passed sb s q bi (omega arith) before d low high,
            )
        | inl f ↦
            let all_n = find_first-none test n f in
            let chunk = passed sb s q n (ground arith) all_n in
            let next : suc q * bpb ≡ q * bpb + bpb = omega arith in
            elim (balloc_from-scans sb s fuel (suc q) (omega arith)) [
              | inl (none_found, all) ↦ inl (
                rw (balloc_from, e, f)
                    (subst (λ b. balloc_from sb s fuel b ≡ none) next none_found),
                λ d low high. elim (Bool-cases (ltb d (q * bpb + bpb))) [
                  | inl here ↦ chunk d low (ground arith)
                  | inr there ↦ all d (ground arith) high
                ],
              )
              | inr (c, found, lt, free, before) ↦ inr (
                c,
                rw (balloc_from, e, f)
                    (subst
                      (λ b.
                        balloc_from sb s fuel b
                        ≡ some (bzero c (mark true (bblock sb c) (c % bpb) s), c))
                      next found),
                lt,
                free,
                λ d low high. elim (Bool-cases (ltb d (q * bpb + bpb))) [
                  | inl here ↦ chunk d low (ground arith)
                  | inr there ↦ before d (ground arith) high
                ],
              )
            ]
      ]
]
