-- ===== src/Log/Save.antt =====
-- `write_log` (src/kernel/log.c): the loop that copies the cached blocks to the log.
use enhanced_xv.Base.{
  ℕ, zero, suc, ◌+◌, ◌<◌, ◌≤◌, ◌≡◌, refl, ap, ◌∙◌, true, ◌==◌, if◌then◌else◌, arith, each, All,
  Bool-cases, inl, inr, ◌⊎◌,
}
use enhanced_xv.Log.{Block, Disk, Log, logsize, save_block}
use enhanced_xv.Log.Install.{IsHome}

-- A block that the first k turns do not write.
abbrev pub Untouched : ℕ → ℕ → ℕ → Type 0
Untouched start k b = (b ≤ start) ⊎ (start + k < b)

-- After k turns from `l0`: the log has the cached contents of the first k blocks.
pub record Saved (k : ℕ) (l0 l : Log) : Type 0 where
  pub start_same : l.start ≡ l0.start
  pub count_same : l.n ≡ l0.n
  pub block_same : l.block ≡ l0.block
  pub written : (i : ℕ) → i < k → l.store.disk (l0.start + i + 1) ≡ l0.store.cached (l0.block i)
  pub cached : (i : ℕ) → i < k → l.store.cached (l0.start + i + 1) ≡ l0.store.cached (l0.block i)
  pub disk_kept : (b : ℕ) → Untouched l0.start k b → l.store.disk b ≡ l0.store.disk b
  pub cache_kept : (b : ℕ) → Untouched l0.start k b → l.store.cached b ≡ l0.store.cached b

last_or_before :
    {new old final : Block} (k i start : ℕ)
    → (k ≡ i → new ≡ final)
    → (i < k → old ≡ final)
    → i < suc k
    → (if start + k + 1 == start + i + 1 then new else old) ≡ final
last_or_before k i start last before lt = elim (Bool-cases (start + k + 1 == start + i + 1)) [
  | inl e ↦ rw e (last (ground arith))
  | inr e ↦ rw e (before (ground arith))
]

module _ (n : ℕ) (l0 : Log) (fits : n ≤ logsize)
    (homes : (i : ℕ) → i < n → IsHome l0.start (l0.block i)) where
  save_block-Saved : (k : ℕ) (l : Log) → k < n → Saved k l0 l → Saved (suc k) l0 (save_block k l)
  save_block-Saved k l lt h =
      let home : l.block k ≡ l0.block k = ap (λ (f : ℕ → ℕ). f k) h.block_same in
      let content : l.store.cached (l0.block k) ≡ l0.store.cached (l0.block k) =
        h.cache_kept (l0.block k) (let g = homes k lt in omega arith) in
      let own : (l0.start + k + 1 == l0.start + k + 1) ≡ true = ground arith in
      record {
        start_same = h.start_same;
        count_same = h.count_same;
        block_same = h.block_same;
        written = λ i ilt.
            rw (h.start_same, home, own)
              (last_or_before k i l0.start (λ e. content ∙ ap (λ j. l0.store.cached (l0.block j)) e)
                (h.written i) ilt);
        cached = λ i ilt.
            rw (h.start_same, home)
              (last_or_before k i l0.start (λ e. content ∙ ap (λ j. l0.store.cached (l0.block j)) e)
                (h.cached i) ilt);
        disk_kept = λ b out. rw (h.start_same, home) (ground (arith, h.disk_kept b));
        cache_kept = λ b out. rw (h.start_same, home) (ground (arith, h.cache_kept b));
      }

  -- A crash leaves every block but those of the log's data.
  pub save_loop :
      (P : Disk → Type 0) (k : ℕ)
      → k ≤ n
      → ((D : Disk) → ((b : ℕ) → Untouched l0.start n b → D b ≡ l0.store.disk b) → P D)
      → All P l0.store.past
      → Saved k l0 (each save_block k l0) × All P (each save_block k l0).store.past
  unfolding each
  save_loop P zero le implied past = (
    record {
      start_same = refl;
      count_same = refl;
      block_same = refl;
      written = λ i lt. elim lt [ ];
      cached = λ i lt. elim lt [ ];
      disk_kept = λ b out. refl;
      cache_kept = λ b out. refl;
    },
    past,
  )
  save_loop P (suc k) le implied past =
      let (h, crashes) = save_loop P k (omega arith) implied past in
      (
        save_block-Saved k (each save_block k l0) (omega arith) h,
        (implied (each save_block k l0).store.disk (λ b out. h.disk_kept b (omega arith)), crashes),
      )
