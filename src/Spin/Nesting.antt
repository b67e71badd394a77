-- ===== src/Spin/Nesting.antt =====
-- `push_off` and `pop_off` are matched (src/kernel/spinlock.c).
use enhanced_xv.Base.{
  ℕ, zero, suc, ◌-◌, ◌≡◌, ◌≢◌, refl, true, false, ◌&&◌, Option, none, some, arith, if◌then◌else◌,
  ◌==◌, ltb, ap, ◌∙◌,
}
use enhanced_xv.Spin.{Cpu, Lock, takes, push_off, pop_off, acquire, release}

-- Interrupts are off inside of a critical section.
pub record IsValid (c : Cpu) : Type 0 where
  pub off : c.noff ≢ 0 → c.enabled ≡ false

pub push_times : ℕ → Cpu → Cpu
push_times zero c = c
push_times (suc n) c = push_times n (push_off c)

abbrev then_pop : Option Cpu → Option Cpu
then_pop none = none
then_pop (some c) = pop_off c

pub pop_times : ℕ → Cpu → Option Cpu
pop_times zero c = some c
pop_times (suc n) c = then_pop (pop_times n c)

-- One `pop_off` after one `push_off`.
pub record Restored (c d : Cpu) : Type 0 where
  pub noff : d.noff ≡ c.noff
  pub enabled : d.enabled ≡ c.enabled
  pub intena : c.noff ≢ 0 → d.intena ≡ c.intena

push_off-IsValid : (c : Cpu) → IsValid (push_off c)
unfolding push_off
push_off-IsValid c = record { off = λ _. refl }

-- A `pop_off` undoes a `push_off`: the depth and the interrupt bit are as before, and inside of another
-- section the saved bit is kept.
push_off-pop_off :
    (c d : Cpu)
    → IsValid c
    → Restored (push_off c) d
    → (e : Cpu) × (pop_off d ≡ some e) × Restored c e
unfolding push_off pop_off
push_off-pop_off c d v r =
    let off = r.enabled in
    let depth = r.noff in
    let inner = v.off in
    let saved : d.intena ≡ (if c.noff == 0 then c.enabled else c.intena) =
      r.intena (ground arith) in
    let more : ltb d.noff 1 ≡ false = ground arith in
    (
      record d { noff = d.noff - 1; enabled = d.noff - 1 == 0 && d.intena },
      rw (off, more),
      record { noff = omega arith; enabled = ground arith; intena = λ h. ground arith },
    )

-- n calls of `push_off` and then n of `pop_off` never panic, and leave the depth and the interrupt bit as
-- they were.
pub push_times-pop_times :
    (n : ℕ) (c : Cpu)
    → IsValid c
    → (d : Cpu) × (pop_times n (push_times n c) ≡ some d) × Restored c d
unfolding push_times pop_times
push_times-pop_times zero c v =
    (c, refl, record { noff = refl; enabled = refl; intena = λ _. refl })
push_times-pop_times (suc n) c v =
    let (d, e, r) = push_times-pop_times n (push_off c) (push_off-IsValid c) in
    let (d', e', r') = push_off-pop_off c d v r in (d', ap then_pop e ∙ e', r')

-- A free lock is taken at once; its holder can release it, which frees the lock and gives back the depth and
-- the interrupt bit.
pub acquire-release :
    (me : ℕ) (c : Cpu) (lk : Lock)
    → IsValid c
    → lk.locked ≡ 0
    → (acquire me c lk ≡ takes (push_off c) (record { locked = 1; cpu = me }))
      × ((d : Cpu) × (release me (push_off c) (record { locked = 1; cpu = me })
            ≡ some (d, record { locked = 0; cpu = 0 }))
          × Restored c d)
unfolding acquire release
acquire-release me c lk v free =
    let (d, e, r) =
      push_off-pop_off c (push_off c) v
        (record { noff = refl; enabled = refl; intena = λ _. refl }) in
    let own : (me == me) ≡ true = ground arith in (rw free, (d, rw (own, e), r))
