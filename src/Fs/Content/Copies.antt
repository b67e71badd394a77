-- ===== src/Fs/Content/Copies.antt =====
-- What `writei` wrote, `readi` reads back (src/kernel/fs.c).
use enhanced_xv.Base.{
  ℕ, ◌+◌, ◌-◌, ◌<◌, ◌≤◌, ◌≡◌, sym, ◌∙◌, ap, some, some_inj, if◌then◌else◌, ltb, arith, inl, inr,
  subst, int_mod,
}
use enhanced_xv.Fs.{Superblock, Volume}
use enhanced_xv.Fs.Content.Owned.{Owns}
use enhanced_xv.Fs.Content.Io.{writei, readi}
use enhanced_xv.Fs.Content.Bytes.{max_bytes}
use enhanced_xv.Fs.Content.Written.{IsWritten}
use enhanced_xv.Fs.Content.Write.{writei_lem}
use enhanced_xv.Fs.Content.Got.{Ends}
use enhanced_xv.Fs.Content.Read.{readi_lem}

module _ (sb : Superblock) (fits : sb.size < int_mod) (byte : ℕ → ℕ) (arrive arrive' : ℕ → ℕ → ℕ)
    (arrive_le : (src m : ℕ) → arrive src m ≤ m)
    (arrive_le' : (dst m : ℕ) → arrive' dst m ≤ m) where
  -- The user's memory after `readi` of the `d` bytes that `writei` wrote at `off`.
  reads_back :
      (src dst off d size : ℕ) (s : Volume) (addrs mem : ℕ → ℕ) (s' : Volume) (addrs' : ℕ → ℕ)
      (n : ℕ)
      → IsWritten sb byte arrive src off n s addrs s' addrs' d
      → size ≤ max_bytes
      → off + d ≤ size
      → (s'' : Volume) × (addrs'' : ℕ → ℕ) × (mem' : ℕ → ℕ) × (m : ℕ) × (r : ℕ) × (readi arrive' sb
            dst off d size s' addrs' mem
          ≡ some (s'', addrs'', mem', r))
        × ((i : ℕ) → i < m → mem' (dst + i) ≡ byte (src + i))
        × Ends sb arrive' dst off 0 d m s'' r
  reads_back src dst off d size s addrs mem s' addrs' n w big end =
      let few = w.count in
      elim (readi_lem sb fits arrive' arrive_le' dst off d size s' addrs' mem w.owns (omega arith)
        (omega arith) big) [
          | inl (why, _) ↦ absurd (elim why [ inl l ↦ omega arith | inr l ↦ omega arith ])
          | inr (len, s'', addrs'', mem', m, r, e, q, g, ends) ↦
              let all : len ≡ d = ground arith in
              let most = g.count in
              (
                s'',
                addrs'',
                mem',
                m,
                r,
                q,
                λ i lt.
                    let at : src + (off + i - off) ≡ src + i = omega arith in
                    g.arrived i lt ∙ w.written (off + i) (omega arith) (omega arith) ∙ ap byte at,
                subst (λ l. Ends sb arrive' dst off 0 l m s'' r) all ends,
              )
        ]

  -- With the same conditions as writei and readi: once writei of `n` bytes from `src` at `off`, within the file's
  -- size and MAXFILE blocks, returned `d`, a readi of `d` bytes at `off` into `dst` does not panic, and the bytes it
  -- hands over are those from `src` on. It returns `d`, or less when the disk is full, or -1 when the
  -- either_copyout of the next bytes failed.
  pub readi-writei :
      (src dst off n size : ℕ) (s : Volume) (addrs mem : ℕ → ℕ) (s' : Volume) (addrs' : ℕ → ℕ)
      (size' d : ℕ)
      → Owns sb s addrs
      → n < int_mod
      → off ≤ size
      → size ≤ max_bytes
      → off + n ≤ max_bytes
      → writei byte arrive sb src off n size s addrs ≡ some (s', addrs', size', d)
      → (s'' : Volume) × (addrs'' : ℕ → ℕ) × (mem' : ℕ → ℕ) × (m : ℕ) × (r : ℕ) × (readi arrive' sb
            dst off d size' s' addrs' mem
          ≡ some (s'', addrs'', mem', r))
        × ((i : ℕ) → i < m → mem' (dst + i) ≡ byte (src + i))
        × Ends sb arrive' dst off 0 d m s'' r
  readi-writei src dst off n size s addrs mem s' addrs' size' d o nlt start big fit h =
      elim (writei_lem sb fits byte arrive arrive_le src off n size s addrs o (omega arith) nlt) [
        | inl (why, _) ↦ absurd (elim why [ inl l ↦ omega arith | inr l ↦ omega arith ])
        | inr (_, _, t, taddrs, c, e, w) ↦
            let same : (t, taddrs, (if ltb size (off + c) then off + c else size), c)
                ≡ (s', addrs', size', d) =
              some_inj (sym e ∙ h) in
            let few = w.count in
            subst
              (λ o.
                (s'' : Volume) × (addrs'' : ℕ → ℕ) × (mem' : ℕ → ℕ) × (m : ℕ) × (r : ℕ) × (readi
                    arrive' sb dst off o.3 o.2 o.0 o.1 mem
                  ≡ some (s'', addrs'', mem', r))
                × ((i : ℕ) → i < m → mem' (dst + i) ≡ byte (src + i))
                × Ends sb arrive' dst off 0 o.3 m s'' r)
              same
              (reads_back src dst off c (if ltb size (off + c) then off + c else size) s addrs mem t
                taddrs n w (ground arith) (ground arith))
      ]
