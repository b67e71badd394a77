-- ===== src/Bio/Lookup.antt =====
-- `bget` finds the buffer of a block, or takes the least recently used one that is free (src/kernel/bio.c).
use mathlib.Core.Bool.{false≢true}
use enhanced_xv.Base.{
  ℕ, suc, ◌<◌, ◌≡◌, ◌≢◌, refl, sym, ◌∙◌, ap, Bool, true, false, none, some, Option-cases, List, ◌∷◌,
  ◌++◌, ◌==◌, update, update_self, update_ne, inl, inr, ◌⊎◌, arith, int_mod, IsSingle,
  IsSingle-update, add32,
}
use enhanced_xv.Bio.Scan.{
  find, reverse, Linked-reverse, has-reverse, length-reverse, scan-find, find-none, find-some,
  reverse-middle, reverse_twice,
}
use enhanced_xv.Bio.{Bcache, Buf, nbuf, head, set_buf, is_block, scan, bget}
use enhanced_xv.Bio.Links.{has, has-append}
use enhanced_xv.Bio.Order.{IsOrder}

-- No two buffers of a device hold the same block. (Device 0 is that of buffers never used.)
abbrev pub OneBuffer : Bcache → Type 0
OneBuffer c =
    IsSingle nbuf (λ x. x.dev ≢ 0) (λ x y. (x.dev ≡ y.dev) × (x.blockno ≡ y.blockno)) c.buf

-- Where the cache stands once `bget` has chosen buffer `b`.
pub record IsChosen (dev blockno : ℕ) (c c' : Bcache) (l : List ℕ) (b : ℕ) : Type 0 where
  pub in_table : b < nbuf
  pub holds : is_block dev blockno (c'.buf b) ≡ true
  pub counted : (c'.buf b).refcnt ≡ suc (c.buf b).refcnt
  pub others : (i : ℕ) → i ≢ b → c'.buf i ≡ c.buf i
  pub order : IsOrder c' l
  pub one : OneBuffer c'

-- The block had a buffer, which keeps its contents.
abbrev pub Hit : ℕ → ℕ → Bcache → List ℕ → Type 0
Hit dev blockno c l =
    (b : ℕ) × (c' : Bcache) × (bget dev blockno c ≡ some (c', b))
    × (is_block dev blockno (c.buf b) ≡ true)
    × ((c'.buf b).valid ≡ (c.buf b).valid)
    × ((c'.buf b).bytes ≡ (c.buf b).bytes)
    × IsChosen dev blockno c c' l b

-- It had none; the buffer is the least recently released one that is free, and has to be read.
abbrev pub Recycled : ℕ → ℕ → Bcache → List ℕ → Type 0
Recycled dev blockno c l =
    (b : ℕ) × (c' : Bcache) × (bget dev blockno c ≡ some (c', b))
    × ((i : ℕ) → i < nbuf → is_block dev blockno (c.buf i) ≡ false)
    × ((c.buf b).refcnt ≡ 0)
    × ((k : List ℕ) × (m : List ℕ) × (l ≡ k ++ (b ∷ m))
        × ((i : ℕ) → has i m ≡ true → (c.buf i).refcnt ≢ 0))
    × ((c'.buf b).valid ≡ false)
    × IsChosen dev blockno c c' l b

abbrev pub Panics : ℕ → ℕ → Bcache → Type 0
Panics dev blockno c =
    (bget dev blockno c ≡ none)
    × ((i : ℕ) → i < nbuf → (is_block dev blockno (c.buf i) ≡ false) × ((c.buf i).refcnt ≢ 0))

block_lem :
    (dev blockno : ℕ) (x : Buf)
    → is_block dev blockno x ≡ true
    → (x.dev ≡ dev) × (x.blockno ≡ blockno)
block_lem dev blockno x h = (ground arith, ground arith)

module _ (dev blockno : ℕ) (c : Bcache) (l : List ℕ) (o : IsOrder c l) (one : OneBuffer c) where
  inside : (b : ℕ) (k m : List ℕ) → l ≡ k ++ (b ∷ m) → b < nbuf
  inside b k m e =
      let h : has b l ≡ true = ground (arith, ap (has b) e, has-append b k (b ∷ m)) in
      ground (arith, o.all b)

  -- A buffer changes so that it holds the block, and no other holds it.
  chosen :
      (b : ℕ) (x : Buf)
      → b < nbuf
      → is_block dev blockno x ≡ true
      → x.refcnt ≡ suc (c.buf b).refcnt
      → (dev ≢ 0 → (j : ℕ) → j < nbuf → is_block dev blockno (c.buf j) ≡ true → b ≡ j)
      → IsChosen dev blockno c (set_buf b x c) l b
  chosen b x lt is counted alone =
      let self : update c.buf b x b ≡ x = update_self c.buf b x in
      record {
        in_table = lt;
        holds = ap (is_block dev blockno) self ∙ is;
        counted = ap (λ y. y.refcnt) self ∙ counted;
        others = λ i ne. update_ne c.buf b x i ne;
        order = record { ring = o.ring; distinct = o.distinct; all = o.all; size = o.size };
        one =
            IsSingle-update nbuf (λ x. x.dev ≢ 0) (λ x y. (x.dev ≡ y.dev) × (x.blockno ≡ y.blockno))
              (λ x y (p, q). (sym p, sym q)) c.buf b x one
              (λ used j jlt jin (p, q).
                let (d, n) = block_lem dev blockno x is in
                let is_j : is_block dev blockno (c.buf j) ≡ true = ground arith in
                alone (λ z. used (d ∙ z)) j jlt is_j);
      }

  -- On buffers in the order of the list `l`, with no block of a device twice and few references, bget takes
  -- the buffer of the block and leaves its contents; if there is none, it takes the free buffer that was
  -- released longest ago and marks it to be read; and it panics only when there is neither. It adds
  -- a reference, changes no other buffer, keeps the order, and still no block has two buffers.
  pub bget_lem :
      ((i : ℕ) → suc (c.buf i).refcnt < int_mod)
      → Hit dev blockno c l ⊎ (Recycled dev blockno c l ⊎ Panics dev blockno c)
  unfolding bget
  bget_lem few =
      let is : ℕ → Bool = λ b. is_block dev blockno (c.buf b) in
      let free : ℕ → Bool = λ b. (c.buf b).refcnt == 0 in
      let out : has head l ≡ false = o.all head in
      let forth : scan is c.next (suc nbuf) (c.next head) ≡ find is l =
        scan-find is c.next c.prev head l (suc nbuf) o.ring out (omega (arith, o.size)) in
      let back : scan free c.prev (suc nbuf) (c.prev head) ≡ find free (reverse l) =
        scan-find free c.prev c.next head (reverse l) (suc nbuf)
          (Linked-reverse c.next c.prev head l head o.ring) (has-reverse head l ∙ out)
          (omega (arith, o.size, length-reverse l)) in
      elim (Option-cases (find is l)) [
        | inr (b, e) ↦
            let (held, k, m, at, before) = find-some is l b e in
            let x : Buf = record (c.buf b) { refcnt = add32 (c.buf b).refcnt 1 } in
            let lt = inside b k m at in
            inl (
              b,
              set_buf b x c,
              rw (bget, forth, e) refl,
              held,
              ap (λ y. y.valid) (update_self c.buf b x),
              ap (λ y. y.bytes) (update_self c.buf b x),
              chosen b x lt held (omega (arith, few b)) (λ used j jlt is_j.
                  let (d, n) = block_lem dev blockno (c.buf b) held in
                  let (d', n') = block_lem dev blockno (c.buf j) is_j in
                  one b j lt jlt (λ z. used (sym d ∙ z)) (λ z. used (sym d' ∙ z))
                    (d ∙ sym d', n ∙ sym n')),
            )
        | inl e ↦ elim (Option-cases (find free (reverse l))) [
          | inr (b, f) ↦
              let (idle, k, m, at, later) = find-some free (reverse l) b f in
              let from : l ≡ reverse m ++ (b ∷ reverse k) =
                sym (reverse_twice l) ∙ ap reverse at ∙ reverse-middle k b m in
              let x : Buf = record (c.buf b) {
                dev = dev;
                blockno = blockno;
                valid = false;
                refcnt = 1;
              } in
              let lt = inside b (reverse m) (reverse k) from in
              let none_is : (i : ℕ) → i < nbuf → is_block dev blockno (c.buf i) ≡ false =
                λ i ilt. find-none is l e i (o.all i ∙ ground arith) in
              let self : is_block dev blockno x ≡ true = ground arith in
              let zero_refs : (c.buf b).refcnt ≡ 0 = ground arith in
              inr (
                inl (
                  b,
                  set_buf b x c,
                  rw (bget, forth, e, back, f) refl,
                  none_is,
                  zero_refs,
                  (
                    reverse m,
                    reverse k,
                    from,
                    λ i hi z. let busy = later i (sym (has-reverse i k) ∙ hi) in ground arith,
                  ),
                  ap (λ y. y.valid) (update_self c.buf b x),
                  chosen b x lt self (omega arith)
                      (λ used j jlt is_j. absurd (false≢true (sym (none_is j jlt) ∙ is_j))),
                ))
          | inl f ↦ inr (
              inr (
                rw (bget, forth, e, back, f) refl,
                λ i lt.
                    let here : has i l ≡ true = ground (arith, o.all i) in
                    let busy = find-none free (reverse l) f i (has-reverse i l ∙ here) in
                    (find-none is l e i here, ground arith),
              ))
        ]
      ]
