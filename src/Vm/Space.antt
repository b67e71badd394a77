-- ===== src/Vm/Space.antt =====
-- src/kernel/vm.c: growing and freeing a user address space.
use enhanced_xv.Base.{
  ℕ, zero, suc, ◌+◌, ◌-◌, ◌*◌, ◌/◌, true, false, not, ◌&&◌, ◌||◌, Option, none, some, if◌then◌else◌,
  ltb, ◌==◌,
}
use enhanced_xv.Proc.{pgsize}
use enhanced_xv.Kalloc.{Kmem, pgroundup, fill_page, kalloc, kfree}
use enhanced_xv.Kernel.{store}
use enhanced_xv.Vm.{bit, with_bit, without_bit, pte2pa, walk, mappages, uvmunmap, uvmdealloc}

-- The answer of `uvmalloc` after a failure: what was mapped from `start` on is unmapped again.
abbrev give_up : ℕ → ℕ → ℕ → Kmem → Option (ℕ × Kmem)
give_up pagetable a start m = elim (uvmdealloc pagetable a start m) [
  | none ↦ none
  | some (_, m1) ↦ some (0, m1)
]

-- The loop of `uvmalloc`; the fuel is the number of pages from `a` to `newsz`.
alloc_loop : ℕ → ℕ → ℕ → ℕ → ℕ → ℕ → Kmem → Option (ℕ × Kmem)
alloc_loop zero pagetable a start newsz xperm m = some (newsz, m)
alloc_loop (suc fuel) pagetable a start newsz xperm m =
    let (mem, m1) = kalloc m in
    let zeroed = record m1 { word = fill_page mem 0 m1.word } in
    let mapped : Option (ℕ × Kmem) =
      elim (mappages pagetable a pgsize mem (with_bit 1 (with_bit 4 xperm)) zeroed) [
        | none ↦ none
        | some (status, m2) ↦
            (let rest = alloc_loop fuel pagetable (a + pgsize) start newsz xperm m2 in
              if status == 0 then rest else give_up pagetable a start (kfree mem m2))
      ] in
    if ltb a newsz
    then (if mem == 0 then give_up pagetable a start m1 else mapped)
    else some (newsz, m)

pub uvmalloc : ℕ → ℕ → ℕ → ℕ → Kmem → Option (ℕ × Kmem)
uvmalloc pagetable oldsz newsz xperm m =
    let start = pgroundup oldsz in
    if ltb newsz oldsz
    then some (oldsz, m)
    else alloc_loop (newsz / pgsize + 1) pagetable start start newsz xperm m

-- The loop of `freewalk` over the entries of one page-table page, from entry `512 - n` on. `child` frees
-- the page of a lower level.
abbrev free_entries : (ℕ → Kmem → Option Kmem) → ℕ → ℕ → Kmem → Option Kmem
free_entries child pagetable zero m = some m
free_entries child pagetable (suc n) m =
    let at = pagetable + 8 * (512 - suc n) in
    let entry = m.word at in
    let after : Option Kmem = elim (child (pte2pa entry) m) [
      | none ↦ none
      | some m1 ↦ free_entries child pagetable n (store at 0 m1)
    ] in
    let next = free_entries child pagetable n m in
    if bit 0 entry && not (bit 1 entry || bit 2 entry || bit 3 entry)
    then after
    else if bit 0 entry
    then none
    else next

-- `freewalk` on a page of level `level`. A table that `walk` builds has levels 2, 1 and 0; a page below
-- level 0 is taken for a fault.
freewalk : ℕ → ℕ → Kmem → Option Kmem
freewalk zero pagetable m = none
freewalk (suc level) pagetable m = elim (free_entries (freewalk level) pagetable 512 m) [
  | none ↦ none
  | some m1 ↦ some (kfree pagetable m1)
]

pub uvmfree : ℕ → ℕ → Kmem → Option Kmem
uvmfree pagetable sz m =
    let unmapped : Option Kmem =
      if ltb 0 sz then uvmunmap pagetable 0 (pgroundup sz / pgsize) true m else some m in
    elim unmapped [ none ↦ none | some m1 ↦ freewalk 3 pagetable m1 ]

uvmclear : ℕ → ℕ → Kmem → Option Kmem
uvmclear pagetable va m = elim (walk pagetable va false m) [
  | none ↦ none
  | some (pte, m1) ↦ if pte == 0 then none else some (store pte (without_bit 4 (m1.word pte)) m1)
]
