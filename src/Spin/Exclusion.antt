-- ===== src/Spin/Exclusion.antt =====
-- Mutual exclusion: any number of processors acquire and release one lock, each step of `acquire` and
-- `release` interleaved with the others' (src/kernel/spinlock.c).
use enhanced_xv.Base.{ℕ, ◌≡◌, ◌≢◌, refl, sym, true, false, Bool, update, arith}
use enhanced_xv.Spin.{Lock, holding, initlock}

-- Where a processor is: outside; in the spin loop; past the swap that took the lock, with `lk->cpu` not
-- set yet; inside; and in `release` with `lk->cpu` reset.
pub data Phase : Type 0 where
  outside spinning swapped inside leaving : Phase

-- The lock, and where each processor is, by its number plus 1.
pub record System : Type 0 where
  pub lock : Lock
  pub at : ℕ → Phase

abbrev pub goes : ℕ → Phase → System → System
goes i p s = record s { at = update s.at i p }

pub data Step (s : System) : System → Type 0 where
  -- `acquire`: `holding` says no, and the processor enters the spin loop.
  enter : (i : ℕ) → s.at i ≡ outside → holding i s.lock ≡ false → Step s (goes i spinning s)
  -- `__sync_lock_test_and_set` finds the lock taken.
  retry : (i : ℕ) → s.at i ≡ spinning → s.lock.locked ≢ 0 → Step s s
  -- It finds the lock free, and takes it.
  swap :
      (i : ℕ)
      → s.at i ≡ spinning
      → s.lock.locked ≡ 0
      → Step s (record (goes i swapped s) { lock = record s.lock { locked = 1 } })
  -- `lk->cpu = mycpu()`
  record_owner :
      (i : ℕ)
      → s.at i ≡ swapped
      → Step s (record (goes i inside s) { lock = record s.lock { cpu = i } })
  -- `release`: `holding` says yes, and `lk->cpu = 0`.
  clear_owner :
      (i : ℕ)
      → s.at i ≡ inside
      → holding i s.lock ≡ true
      → Step s (record (goes i leaving s) { lock = record s.lock { cpu = 0 } })
  -- `__sync_lock_release`
  unlock :
      (i : ℕ)
      → s.at i ≡ leaving
      → Step s (record (goes i outside s) { lock = record s.lock { locked = 0 } })

abbrev pub start : System
start = record { lock = initlock; at = λ _. outside }

pub data Reachable : System → Type 0 where
  begin : Reachable start
  then_step : {s t : System} → Reachable s → Step s t → Reachable t

-- The processor has the lock word.
abbrev pub owns : Phase → Bool
owns outside = false
owns spinning = false
owns swapped = true
owns inside = true
owns leaving = true

-- The lock word is set while a processor owns it, at most one processor owns it, and its number stands in the
-- lock exactly while it is inside.
pub record IsValid (s : System) : Type 0 where
  pub taken : (i : ℕ) → owns (s.at i) ≡ true → s.lock.locked ≡ 1
  pub alone : (i j : ℕ) → owns (s.at i) ≡ true → owns (s.at j) ≡ true → i ≡ j
  pub named : (i : ℕ) → s.at i ≡ inside → s.lock.cpu ≡ i
  pub names : (i : ℕ) → i ≢ 0 → s.lock.cpu ≡ i → s.at i ≡ inside

start-IsValid : IsValid start
start-IsValid = record {
  taken = λ i h. cc;
  alone = λ i j h. cc;
  named = λ i h. cc;
  names = λ i nz e. elim (nz (sym e)) [ ];
}

-- What a step keeps: the same lock word owner, or none to one, or one to none.
Step-IsValid : {s t : System} → IsValid s → Step s t → IsValid t
Step-IsValid {s = s} v (enter i h free) = record {
  taken = λ j o. ground (v.taken j, h, arith);
  alone = λ j k o p. ground (v.alone j k, h, arith);
  named = λ j o. ground (v.named j, arith);
  names = λ j nz e. ground (v.names j, h, arith);
}
Step-IsValid v (retry i h busy) = v
Step-IsValid {s = s} v (swap i h free) = record {
  taken = λ j o. refl;
  alone = λ j k o p. ground (v.taken j, v.taken k, arith);
  named = λ j o. ground (v.named j, arith);
  names = λ j nz e. ground (v.names j, h, arith);
}
Step-IsValid {s = s} v (record_owner i h) = record {
  taken = λ j o. ground (v.taken j, v.taken i, h, arith);
  alone = λ j k o p. ground (v.alone j k, v.alone i k, v.alone j i, h, arith);
  named = λ j o. ground (v.alone i j, h, arith);
  names = λ j nz e. ground (arith);
}
Step-IsValid {s = s} v (clear_owner i h mine) = record {
  taken = λ j o. ground (v.taken j, v.taken i, h, arith);
  alone = λ j k o p. ground (v.alone j k, v.alone i k, v.alone j i, h, arith);
  named = λ j o. ground (v.alone i j, h, arith);
  names = λ j nz e. elim (nz (sym e)) [ ];
}
Step-IsValid {s = s} v (unlock i h) = record {
  taken = λ j o. ground (v.alone i j, h, arith);
  alone = λ j k o p. ground (v.alone j k, arith);
  named = λ j o. ground (v.named j, arith);
  names = λ j nz e. ground (v.names j, h, arith);
}

Reachable-IsValid : {s : System} → Reachable s → IsValid s
Reachable-IsValid begin = start-IsValid
Reachable-IsValid (then_step r step) = Step-IsValid (Reachable-IsValid r) step

-- In every reachable state at most one processor owns the lock; the check in `release` of a processor that
-- is inside succeeds, and the check in `acquire` of a processor that is outside does, so neither panics.
pub mutual_exclusion :
    {s : System}
    → Reachable s
    → ((i j : ℕ) → owns (s.at i) ≡ true → owns (s.at j) ≡ true → i ≡ j)
      × ((i : ℕ) → s.at i ≡ inside → holding i s.lock ≡ true)
      × ((i : ℕ) → i ≢ 0 → s.at i ≡ outside → holding i s.lock ≡ false)
mutual_exclusion {s = s} r =
    let v = Reachable-IsValid r in
    (
      v.alone,
      λ i h. ground (v.named i, v.taken i, h, arith),
      λ i nz h. ground (v.names i, h, nz, arith),
    )
