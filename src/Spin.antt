-- ===== src/Spin.antt =====
-- src/kernel/spinlock.c: interrupts counted off and on, and a lock as one processor sees it. `none` is a panic.
-- A processor is named by its number plus 1; 0 is the null pointer.
use enhanced_xv.Base.{
  ℕ, ◌+◌, ◌-◌, Bool, true, false, not, ◌&&◌, Option, none, some, if◌then◌else◌, ◌==◌, ltb,
}
pub mod Nesting
pub mod Exclusion

-- The part of `struct cpu` for interrupts, and the interrupt bit of `sstatus`.
pub record Cpu : Type 0 where
  pub noff : ℕ
  pub intena : Bool
  pub enabled : Bool

-- `struct spinlock`
pub record Lock : Type 0 where
  pub locked : ℕ
  pub cpu : ℕ

abbrev pub initlock : Lock
initlock = record { locked = 0; cpu = 0 }

abbrev pub holding : ℕ → Lock → Bool
holding me lk = not (lk.locked == 0) && lk.cpu == me

pub push_off : Cpu → Cpu
push_off c = record {
  noff = c.noff + 1;
  intena = if c.noff == 0 then c.enabled else c.intena;
  enabled = false;
}

pub pop_off : Cpu → Option Cpu
pop_off c =
    if c.enabled
    then none
    else if ltb c.noff 1
    then none
    else some (record c { noff = c.noff - 1; enabled = c.noff - 1 == 0 && c.intena })

-- One round of `acquire`: a panic, the lock taken, or another turn of the spin loop.
pub data Turn : Type 0 where
  panics : Turn
  spins : Cpu → Turn
  takes : Cpu → Lock → Turn

pub acquire : ℕ → Cpu → Lock → Turn
acquire me c lk =
    if holding me lk
    then panics
    else if lk.locked == 0
    then takes (push_off c) (record { locked = 1; cpu = me })
    else spins (push_off c)

pub release : ℕ → Cpu → Lock → Option (Cpu × Lock)
release me c lk =
    if not (holding me lk)
    then none
    else elim (pop_off c) [ none ↦ none | some c' ↦ some (c', record { locked = 0; cpu = 0 }) ]
