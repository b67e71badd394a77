-- ===== src/File/Loops.antt =====
-- The loops of `fork` and `exit` over the descriptors keep the reference counts right and never panic.
use enhanced_xv.Base.{
  ℕ, ◌<◌, ◌≤◌, ◌≡◌, ◌≢◌, refl, ◌∙◌, ap, Option, none, some, Option-cases, List, [], ◌∷◌, ◌++◌,
  if◌then◌else◌, ◌==◌, update, update_self, update_ne, arith, Bool-cases, inl, inr, each, zero, suc,
}
use enhanced_xv.Proc.{nproc}
use enhanced_xv.File.{
  Files, nofile, set_fd, Closing, keep, fork_fd, fork_files, exit_fd, exit_files, closing,
}
use enhanced_xv.File.Counts.{IsValid, handles, dup_lem, close_lem}

-- After the first `n` turns of the loop of `fork`: the counts are right, the child has no descriptor from
-- `n` on, and the others' descriptors are as before.
Copied : ℕ → ℕ → Files → Option Files → Type 0
Copied np n s o =
    (s' : Files) × (o ≡ some s')
    × IsValid s'
    × ((fd : ℕ) → n ≤ fd → fd < nofile → s'.ofile np fd ≡ none)
    × ((q : ℕ) → q ≢ np → s'.ofile q ≡ s.ofile q)

copies :
    (p np : ℕ) (s : Files)
    → p < nproc
    → np < nproc
    → p ≢ np
    → IsValid s
    → ((fd : ℕ) → fd < nofile → s.ofile np fd ≡ none)
    → (n : ℕ) → n ≤ nofile
    → Copied np n s (each (fork_fd p np) n (some s))
unfolding each Copied
copies p np s lt nlt ne v empty zero h = (s, refl, v, λ fd _ b. empty fd b, λ _ _. refl)
copies p np s lt nlt ne v empty (suc n) h =
    let (s', e, v', rest, others) = copies p np s lt nlt ne v empty n (omega arith) in
    elim (Option-cases (s'.ofile p n)) [
      | inl vacant ↦ (s', rw (e, vacant) refl, v', λ fd le b. rest fd (omega arith) b, others)
      | inr (f, used) ↦
          let (t, d, v'') =
            dup_lem s' p n np n f v' lt (omega arith) used nlt (omega arith)
              (rest n (omega arith) h) in
          (
            record { ftable = t; ofile = set_fd np n (some f) s'.ofile },
            rw (e, used, d) refl,
            v'',
            λ fd le b.
                ap (λ r. r fd) (update_self s'.ofile np (update (s'.ofile np) n (some f)))
                ∙ update_ne (s'.ofile np) n (some f) fd (omega arith)
                ∙ rest fd (omega arith) b,
            λ q apart.
                update_ne s'.ofile np (update (s'.ofile np) n (some f)) q apart ∙ others q apart,
          )
    ]

-- After the first `n` turns of the loop of `exit`.
Closed : ℕ → ℕ → Files → Option (Files × List Closing) → Type 0
Closed p n s o =
    (s' : Files) × (cs : List Closing) × (o ≡ some (s', cs))
    × IsValid s'
    × ((fd : ℕ) → fd < n → s'.ofile p fd ≡ none)
    × ((q : ℕ) → q ≢ p → s'.ofile q ≡ s.ofile q)

closes :
    (p : ℕ) (s : Files)
    → p < nproc
    → IsValid s
    → (n : ℕ) → n ≤ nofile
    → Closed p n s (each (exit_fd p) n (some (s, [])))
unfolding each Closed
closes p s lt v zero h = (s, [], refl, v, λ fd below. elim below [ ], λ _ _. refl)
closes p s lt v (suc n) h =
    let (s', cs, e, v', gone, others) = closes p s lt v n (omega arith) in
    elim (Option-cases (s'.ofile p n)) [
      | inl vacant ↦ (
        s',
        cs,
        rw (e, vacant) refl,
        v',
        λ fd below. elim (Bool-cases (fd == n)) [
          | inl same ↦ ap (s'.ofile p) (ground arith) ∙ vacant
          | inr apart ↦ gone fd (ground arith)
        ],
        others,
      )
      | inr (f, used) ↦
          let (t, d, v'') = close_lem s' p n f v' lt (omega arith) used in
          let row = update_self s'.ofile p (update (s'.ofile p) n none) in
          (
            record { ftable = t; ofile = set_fd p n none s'.ofile },
            cs
                ++ ((if handles (set_fd p n none s'.ofile) f == 0
                      then closing (s'.ftable f)
                      else keep)
                    ∷ []),
            rw (e, used, d) refl,
            v'',
            λ fd below. ap (λ r. r fd) row ∙ elim (Bool-cases (n == fd)) [
              | inl same ↦ rw same refl
              | inr apart ↦ rw apart (gone fd (ground arith))
            ],
            λ q apart. update_ne s'.ofile p (update (s'.ofile p) n none) q apart ∙ others q apart,
          )
    ]

pub fork_files-ends :
    (p np : ℕ) (s : Files)
    → p < nproc
    → np < nproc
    → p ≢ np
    → IsValid s
    → ((fd : ℕ) → fd < nofile → s.ofile np fd ≡ none)
    → (s' : Files) × (fork_files p np s ≡ some s')
      × IsValid s'
      × ((q : ℕ) → q ≢ np → s'.ofile q ≡ s.ofile q)
unfolding fork_files Copied
fork_files-ends p np s lt nlt ne v empty =
    let (s', e, v', rest, others) = copies p np s lt nlt ne v empty nofile (omega arith) in
    (s', e, v', others)

pub exit_files-ends :
    (p : ℕ) (s : Files)
    → p < nproc
    → IsValid s
    → (s' : Files) × (cs : List Closing) × (exit_files p s ≡ some (s', cs))
      × IsValid s'
      × ((fd : ℕ) → fd < nofile → s'.ofile p fd ≡ none)
      × ((q : ℕ) → q ≢ p → s'.ofile q ≡ s.ofile q)
unfolding exit_files Closed
exit_files-ends p s lt v = closes p s lt v nofile (omega arith)
