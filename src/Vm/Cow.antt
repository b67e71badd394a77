-- ===== src/Vm/Cow.antt =====
-- src/kernel/vm.c: `uvmcopy`, which lets parent and child share their pages, and `removecopy`, which gives a
-- process its own copy on a write; and the page-fault branch of `usertrap` in src/kernel/trap.c.
use enhanced_xv.Base.{
  ℕ, zero, suc, ◌+◌, ◌-◌, ◌/◌, ◌%◌, Bool, true, false, not, ◌&&◌, ◌||◌, Option, none, some,
  if◌then◌else◌, ltb, leb, ◌==◌, minus_one, add32, update,
}
use enhanced_xv.Proc.{pgsize, maxva}
use enhanced_xv.Kalloc.{Kmem, pgrounddown, page_index, copy_page, kalloc, kfree}
use enhanced_xv.Kernel.{Kernel, store, set_proc}
use enhanced_xv.Vm.{
  bit, with_bit, without_bit, word_mod, pte2pa, pte_flags, pte_of, walk, mappages, uvmunmap,
}

-- A writable page is shared read-only and marked.
abbrev share_flags : ℕ → ℕ
share_flags flags = if bit 2 flags then with_bit 8 (without_bit 2 flags) else flags

-- `*pte` is written only if the page was writable.
abbrev share_entry : ℕ → Kmem → Kmem
share_entry pte m =
    let entry = m.word pte in
    if bit 2 (pte_flags entry)
    then store pte (pte_of (pte2pa entry) (share_flags (pte_flags entry))) m
    else m

abbrev add_user : ℕ → Kmem → Kmem
add_user pa m = record m {
  nump_using = update m.nump_using (page_index pa) (add32 (m.nump_using (page_index pa)) 1);
}

-- The body of the loop of `uvmcopy` at address `i`: the status of `mappages`, and the state.
copy_entry : ℕ → ℕ → ℕ → Kmem → Option (ℕ × Kmem)
copy_entry old new i m = elim (walk old i false m) [
  | none ↦ none
  | some (pte, m1) ↦
      (let entry = m1.word pte in
        let mapped =
          mappages new i pgsize (pte2pa entry) (share_flags (pte_flags entry))
            (share_entry pte m1) in
        if pte == 0 then none else if not (bit 0 entry) then none else elim mapped [
          | none ↦ none
          | some (status, m2) ↦
              if status == 0 then some (0, add_user (pte2pa entry) m2) else some (minus_one, m2)
        ])
]

-- The loop of `uvmcopy`; the fuel is the number of pages from `i` to `sz`.
copy_loop : ℕ → ℕ → ℕ → ℕ → ℕ → Kmem → Option (ℕ × Kmem)
copy_loop zero old new i sz m = some (0, m)
copy_loop (suc fuel) old new i sz m =
    let step : Option (ℕ × Kmem) = elim (copy_entry old new i m) [
      | none ↦ none
      | some (status, m1) ↦
          (let rest = copy_loop fuel old new (i + pgsize) sz m1 in
            let undone : Option (ℕ × Kmem) = elim (uvmunmap new 0 (i / pgsize) true m1) [
              | none ↦ none
              | some m2 ↦ some (minus_one, m2)
            ] in
            if status == 0 then rest else undone)
    ] in
    if ltb i sz then step else some (0, m)

pub uvmcopy : ℕ → ℕ → ℕ → Kmem → Option (ℕ × Kmem)
uvmcopy old new sz m = copy_loop (sz / pgsize + 1) old new 0 sz m

-- The new entry of a page that got its own copy.
abbrev pub own_flags : ℕ → ℕ
own_flags flags = with_bit 2 (without_bit 8 flags)

-- `removecopy` from the allocation on.
unfoldable pub copy_out_page : ℕ → Kmem → Option (ℕ × Kmem)
copy_out_page pte m =
    let flags = own_flags (pte_flags (m.word pte)) in
    let (mem, m1) = kalloc m in
    let pa = pte2pa (m1.word pte) in
    if mem == 0
    then none
    else some
        (0, kfree pa (store pte (pte_of mem flags) (record m1 { word = copy_page mem pa m1.word })))

-- `sz` is where the user's stack page begins, rounded down, or 0.
abbrev pub bad_address : ℕ → ℕ → Bool
bad_address va sz = not (sz == 0) && (ltb ((sz + word_mod - pgsize) % word_mod) va && ltb va sz)

unfoldable pub removecopy : ℕ → ℕ → ℕ → Kmem → Option (ℕ × Kmem)
removecopy pagetable va sz m =
    let page_va = pgrounddown va in
    let copied : Option (ℕ × Kmem) = elim (walk pagetable page_va false m) [
      | none ↦ none
      | some (pte, m1) ↦
          if pte == 0
          then none
          else if not (bit 0 (m1.word pte)) || not (bit 8 (m1.word pte))
          then some (1, m1)
          else copy_out_page pte m1
    ] in
    if leb maxva page_va
    then some (1, m)
    else if bad_address page_va sz
    then some (1, m)
    else copied

-- `usertrap` on a store page fault: `p->killed = removecopy(p->pagetable, r_stval(), PGROUNDDOWN(sp))`.
store_fault : ℕ → ℕ → ℕ → Kernel → Option Kernel
store_fault i stval sp k = elim (removecopy (k.procs i).pagetable stval (pgrounddown sp) k.mem) [
  | none ↦ none
  | some (status, m) ↦
      some (record (set_proc i (record (k.procs i) { killed = status }) k) { mem = m })
]
