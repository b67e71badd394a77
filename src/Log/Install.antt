-- ===== src/Log/Install.antt =====
-- The loops that copy blocks between the log and their homes (src/kernel/log.c).
use enhanced_xv.Base.{
  ℕ, zero, suc, ◌+◌, ◌<◌, ◌≤◌, ◌≡◌, ◌≢◌, refl, ap, ◌∙◌, Bool, true, false, ◌||◌, ◌==◌, arith,
  update, update_self, update_ne, each, All, Bool-cases, inl, inr, ◌⊎◌, subst,
}
use enhanced_xv.Log.{Block, Disk, Log, logsize, install_block, write_head, header}

-- Block `b` is one of the first `k` that the header names.
unfoldable pub logged : ℕ → (ℕ → ℕ) → ℕ → Bool
logged zero block b = false
logged (suc k) block b = logged k block b || block k == b

-- A block outside of the log.
abbrev pub IsHome : ℕ → ℕ → Type 0
IsHome start b = (b < start) ⊎ (start + logsize < b)

pub home_apart : (start b i : ℕ) → IsHome start b → i ≤ logsize → start + i ≢ b
home_apart start b i h le e = omega arith

-- Each block is as in `D0`, or is one of the n named blocks and as in `C`.
abbrev pub Between : Disk → Disk → ℕ → (ℕ → ℕ) → Disk → Type 0
Between C D0 n block D = (b : ℕ) → (D b ≡ D0 b) ⊎ ((logged n block b ≡ true) × (D b ≡ C b))

pub logged_le :
    (k n : ℕ) (block : ℕ → ℕ) (b : ℕ) → k ≤ n → logged k block b ≡ true → logged n block b ≡ true
unfolding logged
logged_le k zero block b le h =
    let e : k ≡ 0 = omega arith in subst (λ j. logged j block b ≡ true) e h
logged_le k (suc n) block b le h = elim (Bool-cases (k == suc n)) [
  | inl e ↦ let e' : k ≡ suc n = ground arith in subst (λ j. logged j block b ≡ true) e' h
  | inr e ↦ let rest = logged_le k n block b (ground arith) h in rw rest refl
]

pub logged_here : (k : ℕ) (block : ℕ → ℕ) → logged (suc k) block (block k) ≡ true
unfolding logged
logged_here k block = ground arith

-- A block outside of the named ones.
pub logged_none :
    (k : ℕ) (block : ℕ → ℕ) (b : ℕ) → ((i : ℕ) → i < k → block i ≢ b) → logged k block b ≡ false
unfolding logged
logged_none zero block b h = refl
logged_none (suc k) block b h =
    let rest = logged_none k block b (λ i lt. h i (omega arith)) in
    let last = h k (omega arith) in ground arith

pub logged_some :
    (k : ℕ) (block : ℕ → ℕ) (b : ℕ) → logged k block b ≡ true → (i : ℕ) × (i < k) × (block i ≡ b)
unfolding logged
logged_some zero block b h = cc
logged_some (suc k) block b h = elim (Bool-cases (logged k block b)) [
  | inl e ↦ let (i, lt, same) = logged_some k block b e in (i, omega arith, same)
  | inr e ↦ (k, omega arith, ground arith)
]

-- Only the first k names count.
pub logged_cong :
    (k : ℕ) (block block' : ℕ → ℕ) (b : ℕ)
    → ((i : ℕ) → i < k → block i ≡ block' i)
    → logged k block b ≡ logged k block' b
unfolding logged
logged_cong zero block block' b h = refl
logged_cong (suc k) block block' b h =
    let rest = logged_cong k block block' b (λ i lt. h i (omega arith)) in
    let last = h k (omega arith) in rw (rest, last)

-- The log `l0` as the loop of `install_trans` meets it: its n data blocks hold what `C` has for the homes.
pub record IsSaved (C : Disk) (n : ℕ) (l0 : Log) : Type 0 where
  pub fits : n ≤ logsize
  pub homes : (i : ℕ) → i < n → IsHome l0.start (l0.block i)
  pub saved : (i : ℕ) → i < n → l0.store.cached (l0.start + i + 1) ≡ C (l0.block i)

-- After k turns: the first k homes have what the log holds for them, and nothing else has changed.
pub record Installed (C : Disk) (k : ℕ) (l0 l : Log) : Type 0 where
  pub start_same : l.start ≡ l0.start
  pub count_same : l.n ≡ l0.n
  pub block_same : l.block ≡ l0.block
  pub written : (b : ℕ) → logged k l0.block b ≡ true → l.store.disk b ≡ C b
  pub kept : (b : ℕ) → logged k l0.block b ≡ false → l.store.disk b ≡ l0.store.disk b
  pub cache_kept : (b : ℕ) → logged k l0.block b ≡ false → l.store.cached b ≡ l0.store.cached b

-- A block that is written through its buffer.
install_write :
    (disk cached : Disk) (home b : ℕ) (content final : Block)
    → (home ≡ b → content ≡ final)
    → (home ≢ b → disk b ≡ final)
    → update disk home (update cached home content home) b ≡ final
install_write disk cached home b content final here elsewhere = elim (Bool-cases (home == b)) [
  | inl e ↦
      let same : home ≡ b = ground arith in
      let own : (home == home) ≡ true = ground arith in rw (e, own) (here same)
  | inr e ↦ rw e (elsewhere (ground arith))
]

module _ (C : Disk) (n : ℕ) (l0 : Log) (s : IsSaved C n l0) where
  pub Installed-Between :
      (k : ℕ) (l : Log)
      → k ≤ n
      → Installed C k l0 l
      → Between C l0.store.disk n l0.block l.store.disk
  Installed-Between k l le h b = elim (Bool-cases (logged k l0.block b)) [
    | inl e ↦ inr (logged_le k n l0.block b le e, h.written b e)
    | inr e ↦ inl (h.kept b e)
  ]

  -- The data blocks of the log are no homes.
  pub data_unlogged : (k i : ℕ) → k ≤ n → i < n → logged k l0.block (l0.start + i + 1) ≡ false
  data_unlogged k i le lt =
      logged_none k l0.block (l0.start + i + 1)
        (λ j jlt e. let h = s.homes j (omega arith) in let f = s.fits in omega arith)

  install_block-Installed :
      (r : Bool) (k : ℕ) (l : Log)
      → k < n
      → Installed C k l0 l
      → Installed C (suc k) l0 (install_block r k l)
  unfolding logged
  install_block-Installed r k l lt h =
      let content : l.store.cached (l.start + k + 1) ≡ C (l0.block k) =
        rw h.start_same
          (h.cache_kept (l0.start + k + 1) (data_unlogged k k (omega arith) lt) ∙ s.saved k lt) in
      let home : l.block k ≡ l0.block k = ap (λ (f : ℕ → ℕ). f k) h.block_same in
      record {
        start_same = h.start_same;
        count_same = h.count_same;
        block_same = h.block_same;
        written = λ b e. rw home (
            install_write l.store.disk l.store.cached (l0.block k) b
              (l.store.cached (l.start + k + 1)) (C b) (λ q. content ∙ ap C q)
              (λ q. h.written b (ground arith)));
        kept = λ b e. rw home (ground (arith, h.kept b));
        cache_kept = λ b e. rw home (ground (arith, h.cache_kept b));
      }

  -- Every disk that a crash may leave is between the one before and the one after.
  pub install_loop :
      (P : Disk → Type 0) (r : Bool) (k : ℕ)
      → k ≤ n
      → ((D : Disk) → Between C l0.store.disk n l0.block D → P D)
      → All P l0.store.past
      → Installed C k l0 (each (install_block r) k l0)
        × All P (each (install_block r) k l0).store.past
  unfolding each logged
  install_loop P r zero le implied past = (
    record {
      start_same = refl;
      count_same = refl;
      block_same = refl;
      written = λ b e. cc;
      kept = λ b e. refl;
      cache_kept = λ b e. refl;
    },
    past,
  )
  install_loop P r (suc k) le implied past =
      let (h, crashes) = install_loop P r k (omega arith) implied past in
      (
        install_block-Installed r k (each (install_block r) k l0) (omega arith) h,
        (
          implied (each (install_block r) k l0).store.disk
              (Installed-Between k (each (install_block r) k l0) (omega arith) h),
          crashes,
        ),
      )

-- What `write_head` writes.
pub write_head_own :
    (l : Log) → (write_head l).store.disk l.start ≡ header l.n l.block (l.store.cached l.start)
unfolding write_head
write_head_own l =
    update_self l.store.disk l.start
      (update l.store.cached l.start (header l.n l.block (l.store.cached l.start)) l.start)
    ∙ update_self l.store.cached l.start (header l.n l.block (l.store.cached l.start))

pub write_head_other :
    (l : Log) (b : ℕ) → b ≢ l.start → (write_head l).store.disk b ≡ l.store.disk b
unfolding write_head
write_head_other l b ne =
    update_ne l.store.disk l.start
      (update l.store.cached l.start (header l.n l.block (l.store.cached l.start)) l.start) b ne
