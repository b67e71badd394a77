-- ===== src/Vm.antt =====
-- src/kernel/vm.c: Sv39 page tables in memory, and copy-on-write. A result `none` is a panic, or a read
-- through a null pointer; an `int` result is its bit pattern.
pub mod Pte
pub mod Cow
pub mod Space
pub mod Walk
pub mod Break
use enhanced_xv.Base.{
  ℕ, zero, suc, ◌+◌, ◌-◌, ◌*◌, ◌/◌, ◌%◌, ◌^◌, Bool, true, false, not, ◌&&◌, ◌||◌, Option, none,
  some, if◌then◌else◌, ltb, leb, ◌==◌, minus_one, add32, update,
}
use enhanced_xv.Proc.{pgsize, maxva}
use enhanced_xv.Kalloc.{
  Kmem, pgroundup, pgrounddown, page_index, fill_page, copy_page, kalloc, kfree,
}
use enhanced_xv.Kernel.{store}

abbrev pub word_mod : ℕ
word_mod = 2 ^ 64

-- Single bits: V is 0, R 1, W 2, X 3, U 4, and COW is 8.
abbrev pub bit : ℕ → ℕ → Bool
bit n x = x / 2 ^ n % 2 == 1

-- `x | (1 << n)` and `x & ~(1 << n)`
abbrev pub with_bit : ℕ → ℕ → ℕ
with_bit n x = if bit n x then x else x + 2 ^ n

abbrev pub without_bit : ℕ → ℕ → ℕ
without_bit n x = if bit n x then x - 2 ^ n else x

abbrev pa2pte : ℕ → ℕ
pa2pte pa = pa / 2 ^ 12 * 2 ^ 10 % word_mod

abbrev pub pte2pa : ℕ → ℕ
pte2pa pte = pte / 2 ^ 10 * 2 ^ 12 % word_mod

abbrev pub pte_flags : ℕ → ℕ
pte_flags pte = pte % 2 ^ 10

-- `PA2PTE(pa) | flags`: the low ten bits of the first are 0, and the flags fit them.
abbrev pub pte_of : ℕ → ℕ → ℕ
pte_of pa flags = pa2pte pa + flags

abbrev pub px : ℕ → ℕ → ℕ
px level va = va / 2 ^ (12 + 9 * level) % 512

-- The loop of `walk` from `level` down: the address of the entry for `va`, or 0.
unfoldable pub walk_levels : ℕ → ℕ → ℕ → Bool → Kmem → ℕ × Kmem
walk_levels zero pagetable va alloc m = (pagetable + 8 * px 0 va, m)
walk_levels (suc level) pagetable va alloc m =
    let pte = pagetable + 8 * px (suc level) va in
    let found = walk_levels level (pte2pa (m.word pte)) va alloc m in
    let made =
      (let (page, m1) = kalloc m in
        let deeper =
          walk_levels level page va alloc (
            store pte (with_bit 0 (pa2pte page)) (record m1 { word = fill_page page 0 m1.word })) in
        if page == 0 then (0, m1) else deeper) in
    if bit 0 (m.word pte) then found else if not alloc then (0, m) else made

pub walk : ℕ → ℕ → Bool → Kmem → Option (ℕ × Kmem)
walk pagetable va alloc m = if leb maxva va then none else some (walk_levels 2 pagetable va alloc m)

walkaddr : ℕ → ℕ → Kmem → ℕ
walkaddr pagetable va m =
    let pte = (walk_levels 2 pagetable va false m).0 in
    if leb maxva va
    then 0
    else if pte == 0
    then 0
    else if not (bit 0 (m.word pte))
    then 0
    else if not (bit 4 (m.word pte))
    then 0
    else pte2pa (m.word pte)

-- The loop of `mappages`; the fuel is the number of pages.
map_loop : ℕ → ℕ → ℕ → ℕ → ℕ → ℕ → Kmem → Option (ℕ × Kmem)
map_loop zero pagetable a last pa perm m = none
map_loop (suc fuel) pagetable a last pa perm m = elim (walk pagetable a true m) [
  | none ↦ none
  | some (pte, m1) ↦
      (let m2 = store pte (pte_of pa (with_bit 0 perm)) m1 in
        let rest = map_loop fuel pagetable (a + pgsize) last (pa + pgsize) perm m2 in
        if pte == 0
        then some (minus_one, m1)
        else if bit 0 (m1.word pte)
        then none
        else if a == last
        then some (0, m2)
        else rest)
]

pub mappages : ℕ → ℕ → ℕ → ℕ → ℕ → Kmem → Option (ℕ × Kmem)
mappages pagetable va size pa perm m =
    let a = pgrounddown va in
    let last = pgrounddown ((va + size - 1) % word_mod) in
    if size == 0 then none else map_loop ((last - a) / pgsize + 1) pagetable a last pa perm m

-- The loop of `uvmunmap`, over the pages that are left.
unmap_loop : ℕ → ℕ → ℕ → Bool → Kmem → Option Kmem
unmap_loop zero pagetable a do_free m = some m
unmap_loop (suc npages) pagetable a do_free m = elim (walk pagetable a false m) [
  | none ↦ none
  | some (pte, m1) ↦
      (let entry = m1.word pte in
        let m2 = if do_free then kfree (pte2pa entry) m1 else m1 in
        let rest = unmap_loop npages pagetable (a + pgsize) do_free (store pte 0 m2) in
        if pte == 0
        then none
        else if not (bit 0 entry)
        then none
        else if pte_flags entry == 1
        then none
        else rest)
]

pub uvmunmap : ℕ → ℕ → ℕ → Bool → Kmem → Option Kmem
uvmunmap pagetable va npages do_free m =
    if va % pgsize == 0 then unmap_loop npages pagetable va do_free m else none

-- The new page table, or 0.
pub uvmcreate : Kmem → ℕ × Kmem
uvmcreate m =
    let (pagetable, m1) = kalloc m in
    if pagetable == 0
    then (0, m1)
    else (pagetable, record m1 { word = fill_page pagetable 0 m1.word })

pub uvmdealloc : ℕ → ℕ → ℕ → Kmem → Option (ℕ × Kmem)
uvmdealloc pagetable oldsz newsz m =
    if leb oldsz newsz
    then some (oldsz, m)
    else if ltb (pgroundup newsz) (pgroundup oldsz)
    then elim (uvmunmap pagetable (pgroundup newsz) ((pgroundup oldsz - pgroundup newsz) / pgsize)
        true m) [ none ↦ none | some m1 ↦ some (newsz, m1) ]
    else some (newsz, m)
