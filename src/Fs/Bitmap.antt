-- ===== src/Fs/Bitmap.antt =====
-- `balloc` hands out the first free block, zeroed, and `bfree` takes it back (src/kernel/fs.c).
use enhanced_xv.Base.{
  ℕ, ◌/◌, ◌%◌, ◌<◌, ◌≤◌, ◌≡◌, ◌≢◌, refl, sym, ◌∙◌, ap, Bool, true, false, none, some, ◌∷◌,
  if◌then◌else◌, ◌==◌, ltb, update, update_self, update_ne, bit, set_bit, arith, Bool-cases, inl,
  inr, ◌⊎◌, subst,
}
use mathlib.Core.Bool.{false≢true}
use enhanced_xv.Fs.Scan.{is_used, is_used-mark, Scanned, balloc_from-scans}
use enhanced_xv.Fs.{bsize, bpb, Superblock, Volume, bblock, bzero, mark, balloc, bfree}

-- The bitmap says that the blocks it stands in are in use.
unfoldable pub IsMap : Superblock → Volume → Type 0
IsMap sb s = (b : ℕ) → b < sb.size → (bblock sb b < sb.size) × (is_used sb s (bblock sb b) ≡ true)

pub IsMap-at :
    (sb : Superblock) (s : Volume)
    → IsMap sb s
    → (b : ℕ) → b < sb.size
    → is_used sb s (bblock sb b) ≡ true
unfolding IsMap
IsMap-at sb s m b lt = (m b lt).1

bzero-other : (s : Volume) (c n : ℕ) → n ≢ c → (bzero c s).at n ≡ s.at n
bzero-other s c n ne = update_ne s.at c (λ i. if ltb i bsize then 0 else s.at c i) n ne

bzero_self : (s : Volume) (c i : ℕ) → i < bsize → (bzero c s).at c i ≡ 0
bzero_self s c i lt =
    let inside : ltb i bsize ≡ true = ground arith in
    ap (λ f. f i) (update_self s.at c (λ k. if ltb k bsize then 0 else s.at c k)) ∙ rw inside refl

mark-other :
    (b : Bool) (blk bi : ℕ) (s : Volume) (n : ℕ) → n ≢ blk → (mark b blk bi s).at n ≡ s.at n
mark-other b blk bi s n ne =
    update_ne s.at blk (update (s.at blk) (bi / 8) (set_bit b (bi % 8) (s.at blk (bi / 8)))) n ne

-- Where a volume stands after `balloc` returned block `c`.
pub record IsAllocated (sb : Superblock) (s s' : Volume) (c : ℕ) : Type 0 where
  pub exists : c < sb.size
  pub was_free : is_used sb s c ≡ false
  pub is_first : (d : ℕ) → d < c → is_used sb s d ≡ true
  pub bits : (d : ℕ) → d < sb.size → is_used sb s' d ≡ (if c == d then true else is_used sb s d)
  pub zeroed : (i : ℕ) → i < bsize → s'.at c i ≡ 0
  pub others : (n : ℕ) → n ≢ c → n ≢ bblock sb c → s'.at n ≡ s.at n
  pub logs : s'.logged ≡ c ∷ (bblock sb c ∷ s.logged)

allocated :
    (sb : Superblock) (s : Volume) (c : ℕ)
    → IsMap sb s
    → c < sb.size
    → is_used sb s c ≡ false
    → ((d : ℕ) → 0 ≤ d → d < c → is_used sb s d ≡ true)
    → IsAllocated sb s (bzero c (mark true (bblock sb c) (c % bpb) s)) c
unfolding IsMap
allocated sb s c m lt free before =
    let apart : (d : ℕ) → d < sb.size → bblock sb d ≢ c =
      λ d below e. absurd (false≢true (sym free ∙ ap (is_used sb s) (sym e) ∙ (m d below).1)) in
    record {
      exists = lt;
      was_free = free;
      is_first = λ d below. before d (omega arith) below;
      bits = λ d below.
          ap (λ f. bit (d % bpb % 8) (f (d % bpb / 8)))
            (bzero-other (mark true (bblock sb c) (c % bpb) s) c (bblock sb d) (apart d below))
          ∙ is_used-mark sb s true c d;
      zeroed = λ i below. bzero_self (mark true (bblock sb c) (c % bpb) s) c i below;
      others = λ n ne ne'.
          bzero-other (mark true (bblock sb c) (c % bpb) s) c n ne
          ∙ mark-other true (bblock sb c) (c % bpb) s n ne';
      logs = refl;
    }

pub IsMap-kept :
    (sb : Superblock) (s s' : Volume)
    → IsMap sb s
    → ((d : ℕ) → d < sb.size → is_used sb s d ≡ true → is_used sb s' d ≡ true)
    → IsMap sb s'
unfolding IsMap
IsMap-kept sb s s' m h d lt = let (lt', used) = m d lt in (lt', h (bblock sb d) lt' used)

-- On a volume whose bitmap marks its own blocks and block 0: balloc returns 0 only when every block of the disk is
-- in use, and changes nothing then. Otherwise it returns the first block that is free, marks that block and no other, fills it with zeros,
-- changes no block but that and the one that holds its mark, logs both, and the bitmap still marks its own blocks.
pub balloc_lem :
    (sb : Superblock) (s : Volume)
    → IsMap sb s
    → is_used sb s 0 ≡ true
    → ((balloc sb s ≡ (s, 0)) × ((d : ℕ) → d < sb.size → is_used sb s d ≡ true))
      ⊎ ((c : ℕ) × (s' : Volume) × (balloc sb s ≡ (s', c))
          × (c ≢ 0)
          × IsAllocated sb s s' c
          × IsMap sb s')
unfolding balloc Scanned
balloc_lem sb s m boot = elim (balloc_from-scans sb s sb.size 0 (omega arith)) [
  | inl (e, all) ↦ inl (rw (balloc, e) refl, λ d lt. all d (omega arith) lt)
  | inr (c, e, lt, free, before) ↦
      let s' : Volume = bzero c (mark true (bblock sb c) (c % bpb) s) in
      let a = allocated sb s c m lt free before in
      inr (
        c,
        s',
        rw (balloc, e) refl,
        λ z. false≢true (sym free ∙ ap (is_used sb s) z ∙ boot),
        a,
        IsMap-kept sb s s' m (λ d below used. a.bits d below ∙ rw used (ground arith)),
      )
]

-- bfree of a block that is in use clears its mark and no other and changes no block but the one that holds it;
-- of a block that is free it panics.
pub bfree_lem :
    (sb : Superblock) (b : ℕ) (s : Volume)
    → ((is_used sb s b ≡ false) × (bfree sb b s ≡ none))
      ⊎ ((s' : Volume) × (bfree sb b s ≡ some s')
          × (is_used sb s b ≡ true)
          × ((d : ℕ) → is_used sb s' d ≡ (if b == d then false else is_used sb s d))
          × ((n : ℕ) → n ≢ bblock sb b → s'.at n ≡ s.at n))
unfolding bfree
bfree_lem sb b s = elim (Bool-cases (is_used sb s b)) [
  | inr free ↦ inl (free, rw (bfree, free) refl)
  | inl used ↦ inr (
    mark false (bblock sb b) (b % bpb) s,
    rw (bfree, used) refl,
    used,
    λ d. is_used-mark sb s false b d,
    λ n ne. mark-other false (bblock sb b) (b % bpb) s n ne,
  )
]

freed :
    (sb : Superblock) (s s' : Volume) (c : ℕ)
    → IsAllocated sb s s' c
    → (s'' : Volume) × (bfree sb c s' ≡ some s'')
      × ((d : ℕ) → d < sb.size → is_used sb s'' d ≡ is_used sb s d)
freed sb s s' c a =
    let self : (c == c) ≡ true = ground arith in
    let taken : is_used sb s' c ≡ true = a.bits c a.exists ∙ rw self refl in
    elim (bfree_lem sb c s') [
      | inl (free, _) ↦ absurd (false≢true (sym free ∙ taken))
      | inr (s'', e, _, bits, _) ↦ (
        s'',
        e,
        λ d lt. bits d ∙ elim (Bool-cases (c == d)) [
          | inl same ↦
              let here : c ≡ d = ground arith in rw same (sym a.was_free ∙ ap (is_used sb s) here)
          | inr apart ↦ rw apart (a.bits d lt ∙ rw apart refl)
        ],
      )
    ]

-- On a volume whose bitmap marks its own blocks and block 0: a block other than 0 that balloc returned can be freed,
-- and the marks of the disk's blocks are then as they were before.
pub bfree-balloc :
    (sb : Superblock) (s s' : Volume) (c : ℕ)
    → IsMap sb s
    → is_used sb s 0 ≡ true
    → balloc sb s ≡ (s', c)
    → c ≢ 0
    → (s'' : Volume) × (bfree sb c s' ≡ some s'')
      × ((d : ℕ) → d < sb.size → is_used sb s'' d ≡ is_used sb s d)
bfree-balloc sb s s' c m boot h nz = elim (balloc_lem sb s m boot) [
  | inl (e, _) ↦ let same : (s, 0) ≡ (s', c) = sym e ∙ h in absurd (nz (sym (ap (λ o. o.1) same)))
  | inr (k, t, e, _, a, _) ↦
      let same : (t, k) ≡ (s', c) = sym e ∙ h in
      freed sb s s' c (subst (λ o. IsAllocated sb s o.0 o.1) same a)
]
