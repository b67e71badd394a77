-- ===== src/Pipe/Read.antt =====
-- What a run of `piperead` (src/kernel/pipe.c) takes from the pipe.
use enhanced_xv.Base.{
  if◌then◌else◌, Bool, ℕ, zero, suc, ◌+◌, ◌≡◌, refl, sym, ap, ◌∙◌, true, false, ◌&&◌, Option, none,
  some, List, [], ◌∷◌, ◌++◌, arith, Bool-cases, Option-cases, inl, inr, length,
}
use enhanced_xv.Pipe.{
  Pipe, Shared, Caller, Ending, returned, failed, asleep, front, drop_front, is_empty, read_loop,
  piperead, go_to_sleep, wake, turns,
}
use enhanced_xv.Pipe.Refine.{IsValid, contents, get_lem}

-- `copyout` stores the bytes one after the other from `at` on, and makes `w` of the memory `u`.
pub data Delivered {ℓ} {U : Type ℓ} (copyout : ℕ → ℕ → U → Option U)
    : ℕ → List ℕ → U → U → Type ℓ where
  nothing : {at : ℕ} {u : U} → Delivered copyout at [] u u
  one_more :
      {at b : ℕ} {bs : List ℕ} {u v w : U}
      → copyout at b u ≡ some v
      → Delivered copyout (at + 1) bs v w
      → Delivered copyout at (b ∷ bs) u w

-- Why a loop that had `todo` bytes left stops after k of them, and what it has taken from the pipe besides:
-- it has read all; the pipe is empty; or `copyout` fails on the next byte, which is lost.
pub data Stopped {ℓ} {U : Type ℓ} (copyout : ℕ → ℕ → U → Option U) (at todo : ℕ) (p : Pipe) (u : U)
    : List ℕ → List ℕ → Type ℓ where
  finished : {sent : List ℕ} → length sent ≡ todo → Stopped copyout at todo p u sent []
  emptied : {sent : List ℕ} → is_empty p ≡ true → Stopped copyout at todo p u sent []
  faulted :
      {sent : List ℕ} {b : ℕ}
      → copyout (at + length sent) b u ≡ none
      → Stopped copyout at todo p u sent (b ∷ [])

-- The bytes `sent` were at the front of the pipe; the reader has them, in order, and the count says how many
-- they are.
pub record Taken {ℓ} {U : Type ℓ} (copyout : ℕ → ℕ → U → Option U) (at i todo : ℕ) (p : Pipe)
    (u : U) (r : Pipe × U × ℕ) : Type ℓ where
  pub valid : IsValid r.0
  pub bytes :
      (sent lost : List ℕ) × (contents p ≡ sent ++ (lost ++ contents r.0))
      × Delivered copyout at sent u r.1
      × (r.2 ≡ i + length sent)
      × Stopped copyout at todo r.0 r.1 sent lost

Taken-first {ℓ} :
    {U : Type ℓ} {copyout : ℕ → ℕ → U → Option U} {at i todo : ℕ} {p : Pipe} {u v : U}
    {r : Pipe × U × ℕ}
    → IsValid p
    → is_empty p ≡ false
    → copyout at (front p) u ≡ some v
    → Taken copyout (at + 1) (i + 1) todo (drop_front p) v r
    → Taken copyout at i (suc todo) p u r
Taken-first {copyout = copyout} {at = at} {i = i} {todo = todo} {p = p} {r = r} v some_left stored
      rest =
    let (sent, lost, split, delivered, count, stop) = rest.bytes in
    record {
      valid = rest.valid;
      bytes = (
        front p ∷ sent,
        lost,
        (get_lem p v some_left).1 ∙ ap (λ (l : List ℕ). front p ∷ l) split,
        one_more stored delivered,
        count ∙ omega arith,
        stopped_later sent stop,
      );
    }
  where
    stopped_later :
        (sent : List ℕ) {lost : List ℕ}
        → Stopped copyout (at + 1) todo r.0 r.1 sent lost
        → Stopped copyout at (suc todo) r.0 r.1 (front p ∷ sent) lost
    stopped_later sent (finished h) = finished (ap suc h)
    stopped_later sent (emptied h) = emptied h
    stopped_later sent (faulted {b = b} h) =
        let place : at + 1 + length sent ≡ at + suc (length sent) = omega arith in
        faulted (sym (ap (λ (a : ℕ). copyout a b r.1) place) ∙ h)

read_loop-Taken {ℓ} :
    {U : Type ℓ} (copyout : ℕ → ℕ → U → Option U) (todo at i : ℕ) (p : Pipe) (u : U)
    → IsValid p
    → Taken copyout at i todo p u (read_loop copyout todo at i p u)
unfolding read_loop
read_loop-Taken copyout zero at i p u v = record {
  valid = v;
  bytes = ([], [], refl, nothing, omega arith, finished refl);
}
read_loop-Taken copyout (suc todo) at i p u v = elim (Bool-cases (is_empty p)) [
  | inl e ↦ rw e (record { valid = v; bytes = ([], [], refl, nothing, omega arith, emptied e) })
  | inr e ↦ elim (Option-cases (copyout at (front p) u)) [
    | inl fault ↦
        rw (e, fault)
          (record {
            valid = (get_lem p v e).0;
            bytes = (
              [],
              front p ∷ [],
              (get_lem p v e).1,
              nothing,
              omega arith,
              let place : at + 0 ≡ at = omega arith in
                  faulted (ap (λ (a : ℕ). copyout a (front p) u) place ∙ fault),
            );
          })
    | inr (w, stored) ↦
        rw (e, stored)
          (Taken-first v e stored
            (read_loop-Taken copyout todo (at + 1) (i + 1) (drop_front p) w (get_lem p v e).0))
  ]
]

and_both : (a b : Bool) → (a && b) ≡ true → (a ≡ true) × (b ≡ true)
and_both a b h = ground arith

-- The outcomes of a run of `piperead`.
pub data ReadSpec {ℓ} {U : Type ℓ} (copyout : ℕ → ℕ → U → Option U) (c : Caller) (addr n : ℕ)
    (s : Shared) (user : U) : Shared × U × Ending → Type ℓ where
  interrupted :
      is_empty s.pipe ≡ true
      → s.pipe.writeopen ≡ true
      → c.killed ≡ true
      → ReadSpec copyout c addr n s user (s, user, failed)
  waiting :
      is_empty s.pipe ≡ true
      → s.pipe.writeopen ≡ true
      → c.killed ≡ false
      → ReadSpec copyout c addr n s user (go_to_sleep c c.read_chan s, user, asleep 0)
  reads :
      (r : Pipe × U × ℕ)
      → (is_empty s.pipe && s.pipe.writeopen) ≡ false
      → Taken copyout addr 0 (turns n) s.pipe user r
      → ReadSpec copyout c addr n s user
          (wake c c.write_chan (record s { pipe = r.0 }), r.1, returned r.2)

nothing_to_read {ℓ} :
    {U : Type ℓ} (copyout : ℕ → ℕ → U → Option U) (c : Caller) (addr n : ℕ) (s : Shared) (user : U)
    (dead : Bool)
    → c.killed ≡ dead
    → is_empty s.pipe ≡ true
    → s.pipe.writeopen ≡ true
    → ReadSpec copyout c addr n s user
        (if dead then (s, user, failed) else (go_to_sleep c c.read_chan s, user, asleep 0))
nothing_to_read copyout c addr n s user true h empty opened = interrupted empty opened h
nothing_to_read copyout c addr n s user false h empty opened = waiting empty opened h

-- On a valid pipe, `piperead` with nothing to read and the write end open returns -1 if the reader was killed
-- and sleeps otherwise. Else it takes bytes from the front of the pipe in their order, stores them from
-- `addr` on and returns their number: all n, of an int n below 0 none, or as many as there are, or those before the first that
-- `copyout` fails on, which is lost.
pub piperead_lem {ℓ} :
    {U : Type ℓ} (copyout : ℕ → ℕ → U → Option U) (c : Caller) (addr n : ℕ) (s : Shared) (user : U)
    → IsValid s.pipe
    → ReadSpec copyout c addr n s user (piperead copyout c addr n s user)
unfolding piperead
piperead_lem copyout c addr n s user v = elim (Bool-cases (is_empty s.pipe && s.pipe.writeopen)) [
  | inr some_bytes ↦ rw some_bytes (
      reads (read_loop copyout (turns n) addr 0 s.pipe user) some_bytes
        (read_loop-Taken copyout (turns n) addr 0 s.pipe user v))
  | inl nothing_yet ↦
      let (empty, opened) = and_both (is_empty s.pipe) s.pipe.writeopen nothing_yet in
      rw nothing_yet (nothing_to_read copyout c addr n s user c.killed refl empty opened)
]
