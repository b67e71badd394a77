-- ===== src/Kalloc.antt =====
-- src/kernel/kalloc.c: physical pages on a free list threaded through the pages themselves, and for each
-- page the number of its users (`nump_using`), which copy-on-write keeps above 1. Memory is a map from
-- the address of an aligned 8-byte word to its value. Each critical section is one step.
pub mod FreeList
pub mod Pages
use enhanced_xv.Base.{
  ℕ, zero, suc, ◌+◌, ◌-◌, ◌*◌, ◌/◌, ◌%◌, ◌^◌, Bool, true, false, ◌&&◌, if◌then◌else◌, ltb, leb,
  ◌==◌, int_le, int_mod, add32, sub32, update,
}
use enhanced_xv.Proc.{pgsize}

pub record Kmem : Type 0 where
  pub word : ℕ → ℕ
  pub freelist : ℕ
  pub nump_using : ℕ → ℕ

-- KERNBASE and PHYSTOP
abbrev kernbase : ℕ
kernbase = 0x80000000

abbrev pub phystop : ℕ
phystop = kernbase + 128 * 1024 * 1024

abbrev pub pgroundup : ℕ → ℕ
pgroundup a = (a + pgsize - 1) / pgsize * pgsize

abbrev pub pgrounddown : ℕ → ℕ
pgrounddown a = a / pgsize * pgsize

-- The `int` index of a page in `nump_using`.
abbrev pub page_index : ℕ → ℕ
page_index pa = pa / pgsize % int_mod

abbrev pub in_page : ℕ → ℕ → Bool
in_page pa a = leb pa a && ltb a (pa + pgsize)

-- `memset(pa, c, PGSIZE)`, where `v` is the word whose eight bytes are `c`.
abbrev pub fill_page : ℕ → ℕ → (ℕ → ℕ) → ℕ → ℕ
fill_page pa v w a = if in_page pa a then v else w a

-- `memmove(dst, src, PGSIZE)`, for two whole pages.
abbrev pub copy_page : ℕ → ℕ → (ℕ → ℕ) → ℕ → ℕ
copy_page dst src w a = if in_page dst a then w (src + (a - dst)) else w a

abbrev pub free_junk : ℕ
free_junk = 0x0101010101010101

abbrev pub alloc_junk : ℕ
alloc_junk = 0x0505050505050505

pub kfree : ℕ → Kmem → Kmem
kfree pa m =
    let users = sub32 (m.nump_using (page_index pa)) 1 in
    let counted = update m.nump_using (page_index pa) users in
    if int_le 1 users then record m { nump_using = counted } else record {
      word = update (fill_page pa free_junk m.word) pa m.freelist;
      freelist = pa;
      nump_using = counted;
    }

-- The page, or 0, and the state after.
unfoldable pub kalloc : Kmem → ℕ × Kmem
kalloc m =
    let r = m.freelist in
    if r == 0 then (0, m) else (
      r,
      record {
        word = fill_page r alloc_junk m.word;
        freelist = m.word r;
        nump_using = update m.nump_using (page_index r) (add32 (m.nump_using (page_index r)) 1);
      },
    )

-- `for(; p + PGSIZE <= pa_end; p += PGSIZE) kfree(p);` on fuel.
pub free_pages : ℕ → ℕ → ℕ → Kmem → Kmem
free_pages zero p pa_end m = m
free_pages (suc fuel) p pa_end m = elim (leb (p + pgsize) pa_end) [
  | true ↦ free_pages fuel (p + pgsize) pa_end (kfree p m)
  | false ↦ m
]

-- The fuel is enough: there are at most `pa_end / PGSIZE` rounds.
pub freerange : ℕ → ℕ → Kmem → Kmem
freerange pa_start pa_end m = free_pages (pa_end / pgsize + 1) (pgroundup pa_start) pa_end m

-- The length of `nump_using`.
abbrev pub num_pages : ℕ
num_pages = pgroundup phystop / pgsize

-- `kinit`, for a kernel that ends at `kernel_end`.
pub kinit : ℕ → Kmem → Kmem
kinit kernel_end m =
    freerange kernel_end phystop
      (record m { nump_using = λ i. if ltb i num_pages then 1 else m.nump_using i })
