-- ===== src/Fs/Content/Written.antt =====
-- What a run of `writei` is to have done (src/kernel/fs.c).
use enhanced_xv.Base.{
  ℕ, ◌+◌, ◌-◌, ◌%◌, ◌<◌, ◌≤◌, ◌≡◌, refl, ◌∙◌, ap, true, false, if◌then◌else◌, ltb, leb, ◌&&◌, arith,
  Bool-cases, inl, inr, ◌⊎◌,
}
use enhanced_xv.Fs.{bsize, Superblock, Volume}
use enhanced_xv.Fs.Scan.{is_used}
use enhanced_xv.Fs.Content.Owned.{Owns}
use enhanced_xv.Fs.Content.Bytes.{max_bytes, content}

-- An `either_copyin` or `either_copyout` at `x` did not copy all it was asked for: of `len` bytes at `off`, those in
-- the block there.
abbrev pub piece : ℕ → ℕ → ℕ
piece off len = if ltb len (bsize - off % bsize) then len else bsize - off % bsize

abbrev pub Fails : (ℕ → ℕ → ℕ) → ℕ → ℕ → ℕ → Type 0
Fails arrive x off len = arrive x (piece off len) < piece off len

pub Fails-turn :
    (arrive : ℕ → ℕ → ℕ) (x off len m d : ℕ)
    → Fails arrive (x + m + d) (off + m + d) (len - m - d)
    → Fails arrive (x + (m + d)) (off + (m + d)) (len - (m + d))
Fails-turn arrive x off len m d h =
    let (p, q, r) : (x + (m + d) ≡ x + m + d)
        × (off + (m + d) ≡ off + m + d)
        × (len - (m + d) ≡ len - m - d) =
      (omega arith, omega arith, omega arith) in
    rw (p, q, r) h

pub Fails-first :
    (arrive : ℕ → ℕ → ℕ) (x off len : ℕ)
    → Fails arrive x off len
    → Fails arrive (x + 0) (off + 0) (len - 0)
Fails-first arrive x off len h =
    let (p, q, r) : (x + 0 ≡ x) × (off + 0 ≡ off) × (len - 0 ≡ len) =
      (omega arith, omega arith, omega arith) in
    rw (p, q, r) h

module _ (sb : Superblock) (byte : ℕ → ℕ) (arrive : ℕ → ℕ → ℕ) where
  -- Of the `len` bytes from `src` that go to `off`, `d` were written. The turns end early when the disk is full or
  -- when the `either_copyin` of the next turn, from `src + d`, fails.
  pub record IsWritten (src off len : ℕ) (s : Volume) (addrs : ℕ → ℕ) (s' : Volume) (addrs' : ℕ → ℕ)
      (d : ℕ) : Type 0 where
    pub owns : Owns sb s' addrs'
    pub count : d ≤ len
    pub written : (i : ℕ) → off ≤ i → i < off + d → content s' addrs' i ≡ byte (src + (i - off))
    pub others :
        (i : ℕ)
        → i < max_bytes
        → (i < off) ⊎ (off + len ≤ i)
        → content s' addrs' i ≡ content s addrs i
    pub stop :
        d < len
        → ((b : ℕ) → b < sb.size → is_used sb s' b ≡ true)
          ⊎ Fails arrive (src + d) (off + d) (len - d)

  -- A turn that writes `m` bytes, and the turns after it.
  pub IsWritten-turn :
      (src off len m d : ℕ) (s s2 : Volume) (addrs addrs2 : ℕ → ℕ) (s' : Volume) (addrs' : ℕ → ℕ)
      → m ≤ len
      → off + len ≤ max_bytes
      → ((i : ℕ)
          → i < max_bytes
          → content s2 addrs2 i
            ≡ (if leb off i && ltb i (off + m) then byte (src + (i - off)) else content s addrs i))
      → IsWritten (src + m) (off + m) (len - m) s2 addrs2 s' addrs' d
      → IsWritten src off len s addrs s' addrs' (m + d)
  IsWritten-turn src off len m d s s2 addrs addrs2 s' addrs' le fit turn w =
      let few = w.count in
      record {
        owns = w.owns;
        count = omega arith;
        written = λ i low high. elim (Bool-cases (ltb i (off + m))) [
          | inl e ↦
              let here : (leb off i && ltb i (off + m)) ≡ true = ground arith in
              w.others i (omega arith) (inl (ground arith)) ∙ turn i (omega arith) ∙ rw here refl
          | inr e ↦
              let at : src + m + (i - (off + m)) ≡ src + (i - off) = ground arith in
              w.written i (ground arith) (omega arith) ∙ ap byte at
        ];
        others = λ i lt where_.
            let out : (leb off i && ltb i (off + m)) ≡ false = ground arith in
            w.others i lt (elim where_ [ inl l ↦ inl (omega arith) | inr l ↦ inr (omega arith) ])
            ∙ turn i lt
            ∙ rw out refl;
        stop = λ lt. elim (w.stop (omega arith)) [
          | inl full ↦ inl full
          | inr fails ↦ inr (Fails-turn arrive src off len m d fails)
        ];
      }

  -- No byte was written.
  pub IsWritten-none :
      (src off len : ℕ) (s : Volume) (addrs : ℕ → ℕ) (s' : Volume) (addrs' : ℕ → ℕ)
      → Owns sb s' addrs'
      → ((i : ℕ)
          → i < max_bytes
          → (i < off) ⊎ (off + len ≤ i)
          → content s' addrs' i ≡ content s addrs i)
      → (0 < len → ((b : ℕ) → b < sb.size → is_used sb s' b ≡ true) ⊎ Fails arrive src off len)
      → IsWritten src off len s addrs s' addrs' 0
  IsWritten-none src off len s addrs s' addrs' o same stop = record {
    owns = o;
    count = omega arith;
    written = λ i low high. absurd (omega arith);
    others = same;
    stop = λ lt. elim (stop lt) [
      | inl full ↦ inl full
      | inr fails ↦ inr (Fails-first arrive src off len fails)
    ];
  }
