-- ===== src/Kalloc/Pages.antt =====
-- `kinit` and `freerange`: after boot the free list holds every whole page above the kernel.
use enhanced_xv.Base.{
  ℕ, ◌*◌, zero, suc, ◌+◌, ◌-◌, ◌/◌, ◌%◌, ◌<◌, ◌≤◌, ◌≡◌, ◌∙◌, true, false, List, [], ◌∷◌, length,
  arith, ltb, leb, update_ne, if◌then◌else◌,
}
use enhanced_xv.Proc.{pgsize}
use enhanced_xv.Kalloc.{
  Kmem, phystop, num_pages, pgroundup, page_index, kfree, free_pages, freerange, kinit,
}
use enhanced_xv.Kalloc.FreeList.{IsValid, IsPage, page_apart, kfree-last, kfree-IsValid}

-- The `n` pages from `p` on, the last first, in front of `free`.
pub stack_pages : ℕ → ℕ → List ℕ → List ℕ
stack_pages p zero free = free
stack_pages p (suc n) free = stack_pages (p + pgsize) n (p ∷ free)

length-stack_pages : (p n : ℕ) (free : List ℕ) → length (stack_pages p n free) ≡ n + length free
unfolding stack_pages
length-stack_pages p zero free = omega arith
length-stack_pages p (suc n) free = omega (arith, length-stack_pages (p + pgsize) n (p ∷ free))

-- Each page from `p` on has one user, as `kinit` sets it.
abbrev OneUser : Kmem → ℕ → Type 0
OneUser m p = (q : ℕ) → p ≤ q → IsPage q → m.nump_using (page_index q) ≡ 1

kfree-OneUser : (m : Kmem) (p : ℕ) → IsPage p → OneUser m p → OneUser (kfree p m) (p + pgsize)
kfree-OneUser m p hp h q le hq = rw (kfree-last m p (h p (omega arith) hp)) (
    update_ne m.nump_using (page_index p) 0 (page_index q)
      (page_apart p q hp hq (λ e. omega arith)).1
    ∙ h q (omega arith) hq)

free_pages-IsValid :
    (n fuel p pa_end : ℕ) (m : Kmem) (free : List ℕ)
    → n < fuel
    → p % pgsize ≡ 0
    → 0 < p
    → pa_end ≤ phystop
    → p + n * pgsize ≤ pa_end
    → pa_end < p + (n + 1) * pgsize
    → OneUser m p
    → IsValid m free
    → IsValid (free_pages fuel p pa_end m) (stack_pages p n free)
unfolding free_pages stack_pages
free_pages-IsValid n zero p pa_end m free lt al pos top lo hi one v = absurd (omega arith)
free_pages-IsValid zero (suc fuel) p pa_end m free lt al pos top lo hi one v =
    let stop : leb (p + pgsize) pa_end ≡ false = ground arith in rw (stop, free_pages) v
free_pages-IsValid (suc n) (suc fuel) p pa_end m free lt al pos top lo hi one v =
    let more : leb (p + pgsize) pa_end ≡ true = ground arith in
    let page : IsPage p = omega arith in
    rw (more, free_pages)
      (free_pages-IsValid n fuel (p + pgsize) pa_end (kfree p m) (p ∷ free) (omega arith)
        (omega arith) (omega arith) top (omega arith) (omega arith) (kfree-OneUser m p page one)
        (kfree-IsValid m p free v page (one p (omega arith) page)))

-- For a kernel that ends above 0 and at or below PHYSTOP, with an empty list at boot, the allocator is
-- well-formed after `kinit`, and its list holds every page from the first page boundary after the kernel
-- up to PHYSTOP.
pub kinit-IsValid :
    (kernel_end : ℕ) (m : Kmem)
    → 0 < kernel_end
    → kernel_end ≤ phystop
    → m.freelist ≡ 0
    → IsValid
        (kinit kernel_end m)
        (stack_pages (pgroundup kernel_end) ((phystop - pgroundup kernel_end) / pgsize) [])
unfolding kinit freerange
kinit-IsValid kernel_end m pos top empty =
    free_pages-IsValid ((phystop - pgroundup kernel_end) / pgsize) (phystop / pgsize + 1)
      (pgroundup kernel_end) phystop
      (record m { nump_using = λ i. if ltb i num_pages then 1 else m.nump_using i }) []
      (omega arith) (omega arith) (omega arith) (omega arith) (omega arith) (omega arith)
      (λ q le hq. let known : ltb (page_index q) num_pages ≡ true = ground arith in rw known)
      (record { chain = empty; distinct = tt; pages = tt; unused = tt })
