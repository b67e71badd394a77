-- ===== src/Vm/Break.antt =====
-- What `removecopy` does: a private copy of a shared page, or an error, or a fault.
use enhanced_xv.Base.{
  ℕ, ◌+◌, ◌<◌, ◌≡◌, ◌≢◌, true, false, List, ◌∷◌, some, arith, leb, ◌==◌, sub32, Bool-cases, inl,
  inr, ◌⊎◌,
}
use enhanced_xv.Proc.{pgsize, maxva}
use enhanced_xv.Kalloc.{Kmem, in_page, page_index, pgrounddown, copy_page}
use enhanced_xv.Kalloc.FreeList.{IsValid, IsPage, taken}
use enhanced_xv.Kernel.{store}
use enhanced_xv.Vm.{bit, pte2pa, pte_flags, pte_of, walk_levels}
use enhanced_xv.Vm.Walk.{walk-pure}
use enhanced_xv.Vm.Cow.{own_flags, bad_address, removecopy}

-- The address of the entry of `va`.
abbrev pub entry_of : ℕ → ℕ → Kmem → ℕ
entry_of pagetable va m = (walk_levels 2 pagetable (pgrounddown va) false m).0

-- `pte` is an entry in a page-table page in use; it maps a data page in use, and `page` is free.
pub record IsShared (m : Kmem) (pte page : ℕ) (free : List ℕ) : Type 0 where
  pub valid : IsValid m (page ∷ free)
  pub table : IsPage (pgrounddown pte)
  pub table_used : m.nump_using (page_index (pgrounddown pte)) ≢ 0
  pub frame : IsPage (pte2pa (m.word pte))
  pub frame_used : m.nump_using (page_index (pte2pa (m.word pte))) ≢ 0
  pub apart : pgrounddown pte ≢ pte2pa (m.word pte)

-- The state after: the entry maps the fresh page, writable and no longer marked; the fresh page holds what
-- the old one holds, and has one user; the old page lost one user; no other word outside of the two pages
-- and no other counter has changed.
pub record Owned (m : Kmem) (pte page : ℕ) (m' : Kmem) : Type 0 where
  pub entry : m'.word pte ≡ pte_of page (own_flags (pte_flags (m.word pte)))
  pub copied : (off : ℕ) → off < pgsize → m'.word (page + off) ≡ m.word (pte2pa (m.word pte) + off)
  pub users : m'.nump_using (page_index page) ≡ 1
  pub old_users :
      m'.nump_using (page_index (pte2pa (m.word pte)))
      ≡ sub32 (m.nump_using (page_index (pte2pa (m.word pte)))) 1
  pub memory :
      (a : ℕ)
      → a ≢ pte
      → in_page page a ≡ false
      → in_page (pte2pa (m.word pte)) a ≡ false
      → m'.word a ≡ m.word a
  pub counters :
      (i : ℕ)
      → i ≢ page_index page
      → i ≢ page_index (pte2pa (m.word pte))
      → m'.nump_using i ≡ m.nump_using i

module _ (m : Kmem) (pte page : ℕ) (free : List ℕ) (s : IsShared m pte page free) where
  old : ℕ
  old = pte2pa (m.word pte)

  -- Memory before the old page is given up.
  switched : Kmem
  switched =
      store pte (pte_of page (own_flags (pte_flags (m.word pte))))
        (record (taken page m) { word = copy_page page (pte2pa (m.word pte)) (taken page m).word })

  -- Memory once the fresh page is filled.
  abbrev filled : ℕ → ℕ
  filled = copy_page page (pte2pa (m.word pte)) (taken page m).word

-- An address from MAXVA on, or in the guarded page, or of a page that is not marked: `removecopy` returns 1
-- and changes nothing.
pub removecopy-refuses :
    (pagetable va sz : ℕ) (m : Kmem)
    → (leb maxva (pgrounddown va) ≡ true)
      ⊎ (bad_address (pgrounddown va) sz ≡ true)
      ⊎ ((entry_of pagetable va m ≢ 0) × (bit 8 (m.word (entry_of pagetable va m)) ≡ false))
    → removecopy pagetable va sz m ≡ some (1, m)
unfolding removecopy
removecopy-refuses pagetable va sz m h = elim (Bool-cases (leb maxva (pgrounddown va))) [
  | inl e ↦ rw e
  | inr below ↦ elim (Bool-cases (bad_address (pgrounddown va) sz)) [
    | inl e ↦ rw (below, e)
    | inr good ↦ elim h [
      | inl e ↦ cc
      | inr (inl e) ↦ cc
      | inr (inr (found, e)) ↦
          let nonzero : (entry_of pagetable va m == 0) ≡ false = ground arith in
          elim (Bool-cases (bit 0 (m.word (entry_of pagetable va m)))) [
            | inl valid ↦
                rw (below, good, walk-pure pagetable (pgrounddown va) m below, nonzero, valid, e)
            | inr invalid ↦
                rw (below, good, walk-pure pagetable (pgrounddown va) m below, nonzero, invalid)
          ]
    ]
  ]
]
