-- ===== src/Pipe/Refine.antt =====
-- A pipe is a bounded queue of bytes, whatever its two counters are and also where they wrap.
use enhanced_xv.Base.{
  ℕ, suc, ◌+◌, ◌%◌, ◌<◌, ◌≤◌, ◌≡◌, false, List, ◌∷◌, ◌++◌, add32, sub32, arith, int_mod, [], window,
  window-put,
}
use enhanced_xv.Pipe.{Pipe, pipesize, put, front, drop_front, is_full, is_empty}

wraps : (a j : ℕ) → (a % int_mod + j) % pipesize ≡ (a + j) % pipesize
wraps a j = omega arith

-- The bytes in the pipe, oldest first.
pub contents : Pipe → List ℕ
contents p = window pipesize wraps p.data_at p.nread (sub32 p.nwrite p.nread)

pub record IsValid (p : Pipe) : Type 0 where
  pub nread_in : p.nread < int_mod
  pub nwrite_in : p.nwrite < int_mod
  pub bounded : sub32 p.nwrite p.nread ≤ pipesize

-- `put` on a valid pipe that is not full adds a byte at the end and keeps it valid.
pub put_lem :
    (ch : ℕ) (p : Pipe)
    → IsValid p
    → is_full p ≡ false
    → IsValid (put ch p) × (contents (put ch p) ≡ contents p ++ (ch ∷ []))
unfolding put contents
put_lem ch p v h =
    let size : ℕ = sub32 p.nwrite p.nread in
    let a = v.nread_in in
    let b = v.nwrite_in in
    let c = v.bounded in
    let room : size < pipesize = ground arith in
    let grown : sub32 (add32 p.nwrite 1) p.nread ≡ suc size = omega arith in
    let slot : p.nwrite % pipesize ≡ (p.nread + size) % pipesize = omega arith in
    (
      record { nread_in = a; nwrite_in = omega arith; bounded = omega arith },
      rw (grown, slot) (window-put pipesize wraps p.data_at p.nread size ch (λ j lt. omega arith)),
    )

-- Reading a byte of a valid pipe that is not empty takes the oldest one.
pub get_lem :
    (p : Pipe)
    → IsValid p
    → is_empty p ≡ false
    → IsValid (drop_front p) × (contents p ≡ front p ∷ contents (drop_front p))
unfolding drop_front front contents window
get_lem p v h =
    let rest : ℕ = sub32 p.nwrite (add32 p.nread 1) in
    let a = v.nread_in in
    let b = v.nwrite_in in
    let c = v.bounded in
    let shrunk : sub32 p.nwrite p.nread ≡ suc rest = ground arith in
    (record { nread_in = omega arith; nwrite_in = b; bounded = ground arith }, rw shrunk)
