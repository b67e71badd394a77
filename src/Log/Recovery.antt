-- ===== src/Log/Recovery.antt =====
-- `initlog` (src/kernel/log.c) after a crash: what recovery makes of a disk, also when it crashes itself.
use enhanced_xv.Base.{
  ℕ, ◌+◌, ◌<◌, ◌≤◌, ◌≡◌, sym, ap, ◌∙◌, true, false, ltb, if◌then◌else◌, arith, Bool-cases, inl, inr,
  subst,
}
use enhanced_xv.Log.{Block, Disk, Log, logsize, restart, install_trans, read_head}
use enhanced_xv.Log.Install.{
  logged, logged_none, IsHome, IsSaved, Between, logged_cong, data_unlogged,
}

-- The count and the block numbers in the header block.
abbrev pub count_at : ℕ → Disk → ℕ
count_at start D = D start 0

abbrev pub named_at : ℕ → Disk → ℕ → ℕ
named_at start D i = D start (i + 1)

-- The header on the disk is sound, and the log holds what `C` has for the blocks that it names.
pub record IsCommitted (start : ℕ) (C D : Disk) : Type 0 where
  pub fits : count_at start D ≤ logsize
  pub homes : (i : ℕ) → i < count_at start D → IsHome start (named_at start D i)
  pub saved : (i : ℕ) → i < count_at start D → D (start + i + 1) ≡ C (named_at start D i)

-- What a block reads as once the log on the disk `D` has been installed.
unfoldable pub after_install : ℕ → Disk → Disk → Disk
after_install start C D b = if logged (count_at start D) (named_at start D) b then C b else D b

-- The log after `read_head` at boot.
abbrev pub booted : ℕ → ℕ → Disk → Log
booted start nlog D = read_head (record {
  start = start;
  size = nlog;
  outstanding = 0;
  committing = false;
  n = 0;
  block = λ _. 0;
  pins = λ _. 0;
  store = restart D;
})

module _ (start nlog : ℕ) (C D : Disk) (c : IsCommitted start C D) where
  pub named_lem :
      (i : ℕ) → i < count_at start D → (booted start nlog D).block i ≡ named_at start D i
  unfolding read_head
  named_lem i lt = let below : ltb i (count_at start D) ≡ true = ground arith in rw below

  pub logged_lem :
      (b : ℕ)
      → logged (count_at start D) (booted start nlog D).block b
        ≡ logged (count_at start D) (named_at start D) b
  logged_lem b =
      logged_cong (count_at start D) (booted start nlog D).block (named_at start D) b named_lem

  booted-IsSaved : IsSaved C (count_at start D) (booted start nlog D)
  unfolding read_head
  booted-IsSaved = record {
    fits = c.fits;
    homes = λ i lt. subst (IsHome start) (sym (named_lem i lt)) (c.homes i lt);
    saved = λ i lt. c.saved i lt ∙ ap C (sym (named_lem i lt));
  }

  unlogged_same :
      (D' : Disk)
      → Between C D (count_at start D) (booted start nlog D).block D'
      → (b : ℕ) → logged (count_at start D) (booted start nlog D).block b ≡ false
      → D' b ≡ D b
  unlogged_same D' h b un = elim (h b) [ inl e ↦ e | inr (e, _) ↦ cc ]

  head_unlogged : logged (count_at start D) (booted start nlog D).block start ≡ false
  unfolding read_head
  head_unlogged =
      logged_none (count_at start D) (booted start nlog D).block start
        (λ i lt e. let h = booted-IsSaved.homes i lt in omega arith)

  head_same :
      (D' : Disk)
      → Between C D (count_at start D) (booted start nlog D).block D'
      → D' start ≡ D start
  head_same D' h = unlogged_same D' h start head_unlogged

  count_same :
      (D' : Disk)
      → Between C D (count_at start D) (booted start nlog D).block D'
      → (i : ℕ) → i < count_at start D'
      → i < count_at start D
  count_same D' h i lt = subst (λ (w : Block). i < w 0) (head_same D' h) lt

  after_same :
      (D' : Disk)
      → Between C D (count_at start D) (booted start nlog D).block D'
      → (b : ℕ) → after_install start C D' b ≡ after_install start C D b
  unfolding after_install
  after_same D' h b =
      let names = ap (λ (w : Block). logged (w 0) (λ i. w (i + 1)) b) (head_same D' h) in
      elim (Bool-cases (logged (count_at start D) (named_at start D) b)) [
        | inl e ↦ rw (names, e)
        | inr e ↦ rw (names, e) (unlogged_same D' h b (logged_lem b ∙ e))
      ]

  -- A disk that is between `D` and the end of the installation is as committed as `D`, and has the same
  -- blocks after an installation.
  pub Between-IsCommitted :
      (D' : Disk)
      → Between C D (count_at start D) (booted start nlog D).block D'
      → IsCommitted start C D'
        × ((b : ℕ) → IsHome start b → after_install start C D' b ≡ after_install start C D b)
  unfolding read_head
  Between-IsCommitted D' h = (
    record {
      fits = subst (λ (w : Block). w 0 ≤ logsize) (sym (head_same D' h)) c.fits;
      homes = λ i lt.
          subst (λ (w : Block). IsHome start (w (i + 1))) (sym (head_same D' h))
            (c.homes i (count_same D' h i lt));
      saved = λ i lt.
          unlogged_same D' h (start + i + 1) (
            data_unlogged C (count_at start D) (booted start nlog D) booted-IsSaved
              (count_at start D) i (omega arith) (count_same D' h i lt))
          ∙ c.saved i (count_same D' h i lt)
          ∙ ap (λ (w : Block). C (w (i + 1))) (sym (head_same D' h));
    },
    λ b home. after_same D' h b,
  )

  installed : Log
  installed = install_trans true (booted start nlog D)
