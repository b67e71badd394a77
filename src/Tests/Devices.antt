-- ===== src/Tests/Devices.antt =====
-- Strings, pipes and locks on small inputs.
use enhanced_xv.Base.{
  ℕ, ◌-◌, ◌≡◌, ◌≢◌, refl, Option, none, some, true, false, arith, if◌then◌else◌, ◌==◌, [], ◌∷◌, ◌^◌,
  update, List,
}
use enhanced_xv.Strings.{Bytes}
use enhanced_xv.Pipe.{Pipe, Shared, Caller, pipealloc, pipewrite, piperead, turns}
use enhanced_xv.Pipe.Refine.{IsValid}
use enhanced_xv.Pipe.Write.{Appended, pipewrite-Appended}
use enhanced_xv.Pipe.Read.{ReadSpec, piperead_lem}
use enhanced_xv.Spin.{Cpu, holding}
use enhanced_xv.Spin.Nesting.{IsValid as CpuIsValid}
use enhanced_xv.Spin.Exclusion.{
  System, Phase, inside, outside, swapped, owns, start, Reachable, begin, then_step, enter, swap,
  mutual_exclusion,
}
use enhanced_xv.Tests.Data.{table}

-- A pipe whose write counter wraps at the next byte.
abbrev pipe : Pipe
pipe = record (pipealloc (λ i. i)) { nread = 2 ^ 32 - 3; nwrite = 2 ^ 32 - 1 }

pipe-IsValid : IsValid pipe
pipe-IsValid = record { nread_in = omega arith; nwrite_in = omega arith; bounded = omega arith }

abbrev writer : Caller
writer = record { now = 5; me = 0; killed = false; read_chan = 100; write_chan = 104 }

abbrev shared_pipe : Shared
shared_pipe = record { pipe = pipe; procs = table 1 0 }

-- The bytes 1 to 5 at 10, and 0 elsewhere.
abbrev bytes : Bytes
bytes a = if a == 10 then 1 else if a == 11 then 2 else if a == 12 then 3 else 0

-- User memory that ends at address 12.
abbrev user_bytes : ℕ → Option ℕ
user_bytes a = if a == 12 then none else some (bytes a)

pipewrite_example :
    Appended user_bytes writer 10 0
      (turns 3)
      shared_pipe
      (pipewrite user_bytes writer 10 3 shared_pipe).0
      (pipewrite user_bytes writer 10 3 shared_pipe).1
pipewrite_example = pipewrite-Appended user_bytes writer 10 3 shared_pipe pipe-IsValid

-- A reader whose memory is the list of the bytes stored.
abbrev store_byte : ℕ → ℕ → List ℕ → Option (List ℕ)
store_byte a b stored = some (b ∷ stored)

piperead_example :
    ReadSpec store_byte writer 20 2 shared_pipe [] (piperead store_byte writer 20 2 shared_pipe [])
piperead_example = piperead_lem store_byte writer 20 2 shared_pipe [] pipe-IsValid

abbrev idle : Cpu
idle = record { noff = 0; intena = false; enabled = true }

idle-IsValid : CpuIsValid idle
idle-IsValid = record { off = λ h. elim (h refl) [ ] }

-- Processor 1 has taken the lock, and processor 2 spins.
abbrev contended : System
contended = record {
  lock = record { locked = 1; cpu = 0 };
  at = update (update (update start.at 1 Phase.spinning) 2 Phase.spinning) 1 swapped;
}

contended_reached : Reachable contended
contended_reached =
    then_step (then_step (then_step begin (enter 1 refl refl)) (enter 2 refl refl))
      (swap 1 refl refl)

exclusion_example :
    ((i j : ℕ) → owns (contended.at i) ≡ true → owns (contended.at j) ≡ true → i ≡ j)
    × ((i : ℕ) → contended.at i ≡ inside → holding i contended.lock ≡ true)
    × ((i : ℕ) → i ≢ 0 → contended.at i ≡ outside → holding i contended.lock ≡ false)
exclusion_example = mutual_exclusion contended_reached
