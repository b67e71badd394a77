-- ===== src/Pipe/Write.antt =====
-- What a run of `pipewrite` (src/kernel/pipe.c) adds to the pipe, and where it stops.
use mathlib.Core.Path.{subst}
use mathlib.Core.List.{append-nil, append_assoc}
use enhanced_xv.Base.{
  ℕ, zero, suc, ◌+◌, ◌≡◌, refl, sym, ap, ◌∙◌, true, false, not, ◌||◌, Option, none, some, List, [],
  ◌∷◌, ◌++◌, arith, Bool-cases, Option-cases, inl, inr,
}
use enhanced_xv.Pipe.{
  Pipe, Shared, Caller, Ending, returned, failed, asleep, put, is_full, write_loop, pipewrite,
  turns,
}
use enhanced_xv.Pipe.Refine.{IsValid, contents, put_lem}

abbrev prepend : Option ℕ → Option (List ℕ) → Option (List ℕ)
prepend none _ = none
prepend (some ch) none = none
prepend (some ch) (some bytes) = some (ch ∷ bytes)

-- The bytes that `copyin` reads at `k` addresses from `at` on.
pub loaded : (ℕ → Option ℕ) → ℕ → ℕ → Option (List ℕ)
loaded copyin at zero = some []
loaded copyin at (suc k) = prepend (copyin at) (loaded copyin (at + 1) k)

-- Why a run that had `todo` bytes left stops after k more of them: it returns -1 as the read end is closed or
-- the writer was killed; it has written all; `copyin` fails at the next address; or the pipe is full.
pub data Ended (copyin : ℕ → Option ℕ) (c : Caller) (at i todo k : ℕ) (p : Pipe)
    : Ending → Type 0 where
  refused : (not p.readopen || c.killed) ≡ true → Ended copyin c at i todo k p failed
  finished : k ≡ todo → Ended copyin c at i todo k p (returned (i + k))
  faulted : copyin (at + k) ≡ none → Ended copyin c at i todo k p (returned (i + k))
  filled : is_full p ≡ true → Ended copyin c at i todo k p (asleep (i + k))

-- A run that starts with `i` bytes done and ends in `s'` has added to the pipe exactly the bytes at the
-- first addresses, as many as it then counts.
pub record Appended (copyin : ℕ → Option ℕ) (c : Caller) (at i todo : ℕ) (s s' : Shared)
    (e : Ending) : Type 0 where
  pub valid : IsValid s'.pipe
  pub bytes :
      (k : ℕ) × (added : List ℕ) × (loaded copyin at k ≡ some added)
      × (contents s'.pipe ≡ contents s.pipe ++ added)
      × Ended copyin c at i todo k s'.pipe e

-- Nothing is added.
stays :
    {copyin : ℕ → Option ℕ} {c : Caller} {at i todo : ℕ} {s s' : Shared} {e : Ending}
    → IsValid s.pipe
    → s'.pipe ≡ s.pipe
    → Ended copyin c at i todo 0 s'.pipe e
    → Appended copyin c at i todo s s' e
unfolding loaded
stays {s = s} v same end = record {
  valid = subst IsValid (sym same) v;
  bytes = (0, [], refl, ap contents same ∙ sym (append-nil (contents s.pipe)), end);
}

load_step :
    (copyin : ℕ → Option ℕ) (at k ch : ℕ) (added : List ℕ)
    → copyin at ≡ some ch
    → loaded copyin (at + 1) k ≡ some added
    → loaded copyin at (suc k) ≡ some (ch ∷ added)
unfolding loaded
load_step copyin at k ch added there load =
    ap (λ o. prepend o (loaded copyin (at + 1) k)) there ∙ ap (prepend (some ch)) load

ended_later :
    {copyin : ℕ → Option ℕ} {c : Caller} {at i todo k : ℕ} {p : Pipe} {e : Ending}
    → Ended copyin c (at + 1) (i + 1) todo k p e
    → Ended copyin c at i (suc todo) (suc k) p e
ended_later (refused h) = refused h
ended_later {i = i} {k = k} (finished h) =
    let count : i + 1 + k ≡ i + suc k = omega arith in rw count (finished (ap suc h))
ended_later {copyin = copyin} {at = at} {i = i} {k = k} (faulted h) =
    let count : i + 1 + k ≡ i + suc k = omega arith in
    let place : at + 1 + k ≡ at + suc k = omega arith in
    rw count (faulted (sym (ap copyin place) ∙ h))
ended_later {i = i} {k = k} (filled h) =
    let count : i + 1 + k ≡ i + suc k = omega arith in rw count (filled h)

-- One byte, and then what the rest of the loop adds.
adds :
    {copyin : ℕ → Option ℕ} {c : Caller} {at i todo ch : ℕ} {s s' : Shared} {e : Ending}
    → IsValid s.pipe
    → is_full s.pipe ≡ false
    → copyin at ≡ some ch
    → Appended copyin c (at + 1) (i + 1) todo (record s { pipe = put ch s.pipe }) s' e
    → Appended copyin c at i (suc todo) s s' e
adds {copyin = copyin} {at = at} {ch = ch} {s = s} v room there a =
    let (k, added, load, grown, end) = a.bytes in
    record {
      valid = a.valid;
      bytes = (
        suc k,
        ch ∷ added,
        load_step copyin at k ch added there load,
        grown
            ∙ ap (λ l. l ++ added) (put_lem ch s.pipe v room).1
            ∙ append_assoc (contents s.pipe) (ch ∷ []) added,
        ended_later end,
      );
    }

abbrev AppendedBy : (ℕ → Option ℕ) → Caller → ℕ → ℕ → ℕ → Shared → Shared × Ending → Type 0
AppendedBy copyin c at i todo s r = Appended copyin c at i todo s r.0 r.1

at_start : (i : ℕ) → i + 0 ≡ i
at_start i = omega arith

write_loop-Appended :
    (copyin : ℕ → Option ℕ) (c : Caller) (todo at i : ℕ) (s : Shared)
    → IsValid s.pipe
    → AppendedBy copyin c at i todo s (write_loop copyin c todo at i s)
unfolding write_loop
write_loop-Appended copyin c zero at i s v =
    stays v refl
      (subst (λ j. Ended copyin c at i zero 0 s.pipe (returned j)) (at_start i) (finished refl))
write_loop-Appended copyin c (suc todo) at i s v =
    elim (Bool-cases (not s.pipe.readopen || c.killed)) [
      | inl shut ↦ rw shut (stays v refl (refused shut))
      | inr opened ↦ elim (Bool-cases (is_full s.pipe)) [
        | inl full ↦
            rw (opened, full)
              (stays v refl (
                subst (λ j. Ended copyin c at i (suc todo) 0 s.pipe (asleep j)) (at_start i)
                  (filled full)))
        | inr room ↦ elim (Option-cases (copyin at)) [
          | inl fault ↦
              rw (opened, room, fault)
                (stays v refl (
                  subst (λ j. Ended copyin c at i (suc todo) 0 s.pipe (returned j)) (at_start i)
                    (faulted (ap copyin (at_start at) ∙ fault))))
          | inr (ch, there) ↦
              rw (opened, room, there)
                (adds v room there (
                  write_loop-Appended copyin c todo (at + 1) (i + 1)
                    (record s { pipe = put ch s.pipe }) (put_lem ch s.pipe v room).0))
        ]
      ]
    ]

-- A run of `pipewrite` on a valid pipe leaves it valid and adds to it, in order, the bytes that `copyin`
-- reads at the first k addresses from `addr` on. It returns -1 only with the read end closed or the writer
-- killed; it returns k only once k is n, or 0 for an int n below 0, or `copyin` fails at the next address; and it
-- sleeps with k bytes written only on a full pipe.
pub pipewrite-Appended :
    (copyin : ℕ → Option ℕ) (c : Caller) (addr n : ℕ) (s : Shared)
    → IsValid s.pipe
    → Appended copyin c addr 0
        (turns n)
        s
        (pipewrite copyin c addr n s).0
        (pipewrite copyin c addr n s).1
unfolding pipewrite
pipewrite-Appended copyin c addr n s v = write_loop-Appended copyin c (turns n) addr 0 s v
