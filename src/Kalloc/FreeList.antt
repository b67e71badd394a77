-- ===== src/Kalloc/FreeList.antt =====
-- The invariant of the allocator, and `kalloc` and `kfree` under it.
use enhanced_xv.Base.{
  ℕ, ◌+◌, ◌-◌, ◌%◌, ◌<◌, ◌≡◌, ◌≢◌, true, false, List, [], ◌∷◌, All, All-map, arith, ◌==◌, update,
  int_le, int_half, add32, sub32, All-both, ap, update_ne, update_self, ◌∙◌, sym, refl, Bool-cases,
  inl, inr,
}
use enhanced_xv.Proc.{pgsize}
use enhanced_xv.Kalloc.{
  Kmem, phystop, page_index, in_page, fill_page, kfree, kalloc, free_junk, alloc_junk,
}

-- From `head` the words at the start of each page lead through `pages` to the null pointer.
abbrev IsChain : (ℕ → ℕ) → ℕ → List ℕ → Type 0
IsChain w head [] = head ≡ 0
IsChain w head (p ∷ ps) = (head ≡ p) × (head ≢ 0) × IsChain w (w p) ps

abbrev Distinct : List ℕ → Type 0
Distinct [] = Unit
Distinct (p ∷ ps) = All (λ q. q ≢ p) ps × Distinct ps

-- A page of RAM that the allocator may hand out.
abbrev pub IsPage : ℕ → Type 0
IsPage p = (p % pgsize ≡ 0) × (0 < p) × (p < phystop)

-- The free list holds distinct pages that nobody uses.
pub record IsValid (m : Kmem) (free : List ℕ) : Type 0 where
  pub chain : IsChain m.word m.freelist free
  pub distinct : Distinct free
  pub pages : All IsPage free
  pub unused : All (λ p. m.nump_using (page_index p) ≡ 0) free

IsChain-frame :
    (w w' : ℕ → ℕ) (head : ℕ) (ps : List ℕ)
    → All (λ q. w' q ≡ w q) ps
    → IsChain w head ps
    → IsChain w' head ps
IsChain-frame w w' head [] h c = c
IsChain-frame w w' head (p ∷ ps) h c = (c.0, c.1, IsChain-frame w w' (w' p) ps h.1 (rw (h.0) c.2))

-- Two pages do not overlap, and have their own counters.
pub page_apart :
    (p q : ℕ) → IsPage p → IsPage q → q ≢ p → (in_page p q ≡ false) × (page_index q ≢ page_index p)
page_apart p q hp hq ne = (ground arith, omega arith)

-- The state that `kalloc` leaves when it hands out page `p`.
abbrev pub taken : ℕ → Kmem → Kmem
taken p m = record {
  word = fill_page p alloc_junk m.word;
  freelist = m.word p;
  nump_using = update m.nump_using (page_index p) (add32 (m.nump_using (page_index p)) 1);
}

pub kalloc-some : (m : Kmem) (p : ℕ) → m.freelist ≡ p → 0 < p → kalloc m ≡ (p, taken p m)
unfolding kalloc
kalloc-some m p e h =
    let some_page : (m.freelist == 0) ≡ false = ground arith in
    rw some_page (ap (λ (q : ℕ). let r : ℕ × Kmem = (q, taken q m) in r) e)

-- What holds when page `p` has been taken off the list `p ∷ ps`.
pub record Allocated (m : Kmem) (p : ℕ) (ps : List ℕ) (r : ℕ × Kmem) : Type 0 where
  pub result : r.0 ≡ p
  pub page : IsPage p
  pub counted : r.1.nump_using (page_index p) ≡ 1
  pub valid : IsValid r.1 ps
  pub memory : (a : ℕ) → in_page p a ≡ false → r.1.word a ≡ m.word a
  pub counters : (i : ℕ) → i ≢ page_index p → r.1.nump_using i ≡ m.nump_using i

-- With a free page, `kalloc` returns the head of the list, a page of RAM; it counts one user of it,
-- takes it off the list, and changes no word and no counter of another page.
pub kalloc_lem : (m : Kmem) (p : ℕ) (ps : List ℕ) → IsValid m (p ∷ ps) → Allocated m p ps (kalloc m)
kalloc_lem m p ps v = rw (kalloc-some m p v.chain.0 (v.pages.0.1)) (record {
  result = refl;
  page = v.pages.0;
  counted = ground (arith, v.unused.0);
  valid = record {
    chain =
        IsChain-frame m.word (fill_page p alloc_junk m.word) (m.word p) ps
          (All-both untouched ps v.distinct.0 v.pages.1) v.chain.2;
    distinct = v.distinct.1;
    pages = v.pages.1;
    unused =
        All-both (λ q ne z. update_ne m.nump_using (page_index p) _ (page_index q) ne ∙ z) ps
          (All-both (λ q ne hq. (page_apart p q v.pages.0 hq ne).1) ps v.distinct.0 v.pages.1)
          v.unused.1;
  };
  memory = λ a out. rw out;
  counters = λ i ne. update_ne m.nump_using (page_index p) _ i ne;
})
  where
    untouched : (q : ℕ) → q ≢ p → IsPage q → fill_page p alloc_junk m.word q ≡ m.word q
    untouched q ne hq = rw (page_apart p q v.pages.0 hq ne).0

-- Without a free page `kalloc` returns the null pointer and changes nothing.
kalloc-empty : (m : Kmem) → IsValid m [] → kalloc m ≡ (0, m)
unfolding kalloc
kalloc-empty m v =
    let none_left : (m.freelist == 0) ≡ true = ground (arith, v.chain) in rw none_left

-- A page with more than one user, counted by an `int` that is not negative, only loses one of them: `kfree` writes no memory and leaves the list alone.
pub kfree-shared :
    (m : Kmem) (pa : ℕ)
    → 1 < m.nump_using (page_index pa)
    → m.nump_using (page_index pa) < int_half
    → kfree pa m ≡ record m {
      nump_using = update m.nump_using (page_index pa) (m.nump_using (page_index pa) - 1);
    }
unfolding kfree
kfree-shared m pa h k =
    let users : sub32 (m.nump_using (page_index pa)) 1 ≡ m.nump_using (page_index pa) - 1 =
      omega arith in
    let still : int_le 1 (m.nump_using (page_index pa) - 1) ≡ true = ground arith in
    rw (users, still)

-- The state that `kfree` leaves when the last user gives up page `pa`.
abbrev pub returned : ℕ → Kmem → Kmem
returned pa m = record {
  word = update (fill_page pa free_junk m.word) pa m.freelist;
  freelist = pa;
  nump_using = update m.nump_using (page_index pa) 0;
}

pub kfree-last : (m : Kmem) (pa : ℕ) → m.nump_using (page_index pa) ≡ 1 → kfree pa m ≡ returned pa m
unfolding kfree
kfree-last m pa h = let users : sub32 (m.nump_using (page_index pa)) 1 ≡ 0 = omega arith in rw users

-- In a well-formed allocator, when the last user of a page of RAM frees it, the page joins the list at its
-- head, and the allocator stays well-formed.
pub kfree-IsValid :
    (m : Kmem) (pa : ℕ) (free : List ℕ)
    → IsValid m free
    → IsPage pa
    → m.nump_using (page_index pa) ≡ 1
    → IsValid (kfree pa m) (pa ∷ free)
kfree-IsValid m pa free v page one = rw (kfree-last m pa one) (record {
  chain = (
    refl,
    omega (arith, page.1),
    IsChain-frame m.word _ _ free (All-both (λ q ne hq. word_of q ne hq) free others v.pages)
        (rw (update_self (fill_page pa free_junk m.word) pa m.freelist) v.chain),
  );
  distinct = (others, v.distinct);
  pages = (page, v.pages);
  unused = (
    update_self m.nump_using (page_index pa) 0,
    All-both (λ q ne z. update_ne m.nump_using (page_index pa) 0 (page_index q) ne ∙ z) free
        (All-both (λ q ne hq. (page_apart pa q page hq ne).1) free others v.pages) v.unused,
  );
})
  where
    others : All (λ q. q ≢ pa) free
    others =
        All-map
          (λ q z e. omega (arith, sym z ∙ ap (λ (k : ℕ). m.nump_using (page_index k)) e ∙ one)) free
          v.unused

    word_of :
        (q : ℕ)
        → q ≢ pa
        → IsPage q
        → update (fill_page pa free_junk m.word) pa m.freelist q ≡ m.word q
    word_of q ne hq =
        update_ne (fill_page pa free_junk m.word) pa m.freelist q ne
        ∙ rw (page_apart pa q page hq ne).0

-- What a page is allocated as, it can be freed as: the free list is the same again.
pub kfree-kalloc :
    (m : Kmem) (p : ℕ) (ps : List ℕ)
    → IsValid m (p ∷ ps)
    → IsValid (kfree (kalloc m).0 (kalloc m).1) (p ∷ ps)
kfree-kalloc m p ps v =
    let a = kalloc_lem m p ps v in
    rw a.result (kfree-IsValid (kalloc m).1 p ps a.valid (v.pages.0) a.counted)

-- A write to a page in use leaves the allocator alone.
pub write-IsValid :
    (m : Kmem) (w : ℕ → ℕ) (pa : ℕ) (free : List ℕ)
    → IsPage pa
    → m.nump_using (page_index pa) ≢ 0
    → ((a : ℕ) → in_page pa a ≡ false → w a ≡ m.word a)
    → IsValid m free
    → IsValid (record m { word = w }) free
write-IsValid m w pa free page used same v = record {
  chain = IsChain-frame m.word w m.freelist free (All-both kept free others v.pages) v.chain;
  distinct = v.distinct;
  pages = v.pages;
  unused = v.unused;
}
  where
    others : All (λ q. q ≢ pa) free
    others =
        All-map (λ q z e. used (sym (ap (λ (k : ℕ). m.nump_using (page_index k)) e) ∙ z)) free
          v.unused

    kept : (q : ℕ) → q ≢ pa → IsPage q → w q ≡ m.word q
    kept q ne hq = same q (page_apart pa q page hq ne).0

-- `kfree` writes to the freed page at most, and to its counter.
pub kfree-memory : (m : Kmem) (pa a : ℕ) → in_page pa a ≡ false → (kfree pa m).word a ≡ m.word a
unfolding kfree
kfree-memory m pa a out = elim (Bool-cases (int_le 1 (sub32 (m.nump_using (page_index pa)) 1))) [
  | inl e ↦ rw e
  | inr e ↦ let ne : (pa == a) ≡ false = ground arith in rw (e, ne, out)
]

pub kfree-counters :
    (m : Kmem) (pa i : ℕ) → i ≢ page_index pa → (kfree pa m).nump_using i ≡ m.nump_using i
unfolding kfree
kfree-counters m pa i ne = elim (Bool-cases (int_le 1 (sub32 (m.nump_using (page_index pa)) 1))) [
  | inl e ↦ rw e (update_ne m.nump_using (page_index pa) _ i ne)
  | inr e ↦ rw e (update_ne m.nump_using (page_index pa) _ i ne)
]

pub kfree-users :
    (m : Kmem) (pa : ℕ)
    → (kfree pa m).nump_using (page_index pa) ≡ sub32 (m.nump_using (page_index pa)) 1
unfolding kfree
kfree-users m pa = elim (Bool-cases (int_le 1 (sub32 (m.nump_using (page_index pa)) 1))) [
  | inl e ↦ rw e (update_self m.nump_using (page_index pa) _)
  | inr e ↦ rw e (update_self m.nump_using (page_index pa) _)
]

pub in_page-other :
    (p q off : ℕ) → IsPage p → IsPage q → p ≢ q → off < pgsize → in_page p (q + off) ≡ false
in_page-other p q off hp hq ne lt = ground arith

pub in_page-own : (p off : ℕ) → off < pgsize → in_page p (p + off) ≡ true
in_page-own p off lt = ground arith
