-- ===== src/Bio/Order.antt =====
-- The list of buffers is in the order in which they were released, the latest first (src/kernel/bio.c).
use enhanced_xv.Base.{
  length, length-append, ℕ, zero, suc, ◌<◌, ◌≤◌, ◌≡◌, ◌≢◌, refl, sym, ◌∙◌, ap, subst, true, false,
  none, some, List, [], ◌∷◌, ◌++◌, if◌then◌else◌, ◌==◌, ltb, update, update_self, update_ne, each,
  Bool-cases, inl, inr, arith, int_mod, ◌⊎◌, sub32,
}
use enhanced_xv.Proc.{ProcTable, wakeup, proc_ptr}
use enhanced_xv.Sleeplock.{initsleeplock, releasesleep, holdingsleep}
use enhanced_xv.Bio.{
  Bcache, Buf, nbuf, head, link_front, unlink, set_buf, set_next, set_prev, binit, brelse,
  initsleeplock, ProcTable, holdingsleep,
}
use enhanced_xv.Bio.Links.{has, Distinct, Linked, has-append, insert_lem, unlink_lem}

abbrev pub IsRing : Bcache → List ℕ → Type 0
IsRing c l = Linked c.next c.prev head l head

-- The links go through all buffers, each once, in the order of `l`.
pub record IsOrder (c : Bcache) (l : List ℕ) : Type 0 where
  pub ring : IsRing c l
  pub distinct : Distinct l
  pub all : (i : ℕ) → has i l ≡ ltb i nbuf
  pub size : length l ≡ nbuf

unfoldable pub remove : ℕ → List ℕ → List ℕ
remove b [] = []
remove b (x ∷ l) = if x == b then l else x ∷ remove b l

link_front-IsRing :
    (b : ℕ) (c : Bcache) (l : List ℕ)
    → IsRing c l
    → Distinct l
    → has b l ≡ false
    → has head l ≡ false
    → b ≢ head
    → IsRing (link_front b c) (b ∷ l)
link_front-IsRing b c l r d new out ne =
    let same : update c.next b (c.next head) head ≡ c.next head =
      update_ne c.next b (c.next head) head (λ e. ne (sym e)) in
    subst
      (λ n.
        Linked (update (update c.next b (c.next head)) head b) (update (update c.prev b head) n b)
          head (b ∷ l) head)
      (sym same) (insert_lem c.next c.prev head b l head r d new out out ne ne)

unlink-IsRing :
    (b : ℕ) (c : Bcache) (l m : List ℕ)
    → IsRing c (l ++ (b ∷ m))
    → Distinct (l ++ (b ∷ m))
    → has head (l ++ (b ∷ m)) ≡ false
    → IsRing (unlink b c) (l ++ m)
unlink-IsRing b c l m r d out =
    let same : update c.prev (c.next b) (c.prev b) b ≡ c.prev b = ground arith in
    subst
      (λ p.
        Linked (update c.next p (c.next b)) (update c.prev (c.next b) (c.prev b)) head (l ++ m)
          head)
      (sym same) (unlink_lem c.next c.prev head l b m head r d out out)

split : (b : ℕ) (l : List ℕ) → has b l ≡ true → (k : List ℕ) × (m : List ℕ) × (l ≡ k ++ (b ∷ m))
split b [] h = cc
split b (x ∷ l) h = elim (Bool-cases (x == b)) [
  | inl e ↦ let same : x ≡ b = ground arith in ([], l, ap (λ y. y ∷ l) same)
  | inr e ↦ let (k, m, eq) = split b l (ground arith) in (x ∷ k, m, ap (λ t. x ∷ t) eq)
]

-- A list with one member taken out.
module _ (b : ℕ) (m : List ℕ) where
  Distinct-without :
      (k : List ℕ) → Distinct (k ++ (b ∷ m)) → Distinct (k ++ m) × (has b (k ++ m) ≡ false)
  Distinct-without [] d = (d.1, d.0)
  Distinct-without (x ∷ k) d =
      let (d', out) = Distinct-without k d.1 in
      (
        (ground (arith, has-append x k (b ∷ m), has-append x k m, d.0), d'),
        ground (arith, out, d.0, has-append x k (b ∷ m)),
      )

  has-without : (i : ℕ) (k : List ℕ) → has i (b ∷ k ++ m) ≡ has i (k ++ (b ∷ m))
  has-without i k = ground (arith, has-append i k (b ∷ m), has-append i k m)

  length-without : (k : List ℕ) → length (b ∷ k ++ m) ≡ length (k ++ (b ∷ m))
  length-without k = omega (arith, length-append k m, length-append k (b ∷ m))

  remove_lem : (k : List ℕ) → Distinct (k ++ (b ∷ m)) → remove b (k ++ (b ∷ m)) ≡ k ++ m
  unfolding remove
  remove_lem [] d = let self : (b == b) ≡ true = ground arith in rw self refl
  remove_lem (x ∷ k) d =
      let other : (x == b) ≡ false = ground (arith, d.0, has-append x k (b ∷ m)) in
      rw other (ap (λ t. x ∷ t) (remove_lem k d.1))

move_front-IsOrder :
    (b : ℕ) (c : Bcache) (l : List ℕ)
    → IsOrder c l
    → b < nbuf
    → IsOrder (link_front b (unlink b c)) (b ∷ remove b l)
move_front-IsOrder b c l o lt =
    let inside : has b l ≡ true = ground (arith, o.all b) in
    let (k, m, e) = split b l inside in
    let d : Distinct (k ++ (b ∷ m)) = subst Distinct e o.distinct in
    let (d', new) = Distinct-without b m k d in
    let out : has head (k ++ (b ∷ m)) ≡ false = ap (has head) (sym e) ∙ o.all head in
    let out' : has head (k ++ m) ≡ false =
      ground (arith, out, has-append head k (b ∷ m), has-append head k m) in
    let r = unlink-IsRing b c k m (subst (IsRing c) e o.ring) d out in
    let gone : remove b l ≡ k ++ m = ap (remove b) e ∙ remove_lem b m k d in
    subst (λ t. IsOrder (link_front b (unlink b c)) (b ∷ t)) (sym gone)
      (record {
        ring = link_front-IsRing b (unlink b c) (k ++ m) r d' new out' (omega arith);
        distinct = (new, d');
        all = λ i. has-without b m i k ∙ ap (has i) (sym e) ∙ o.all i;
        size = length-without b m k ∙ ap length (sym e) ∙ o.size;
      })

unfoldable pub down : ℕ → List ℕ
down zero = []
down (suc n) = n ∷ down n

has-down : (n i : ℕ) → has i (down n) ≡ ltb i n
unfolding down
has-down zero i = ground arith
has-down (suc n) i = ground (arith, has-down n i)

length-down : (n : ℕ) → length (down n) ≡ n
unfolding down
length-down zero = refl
length-down (suc n) = omega (arith, length-down n)

down-Distinct : (n : ℕ) → Distinct (down n)
unfolding down
down-Distinct zero = tt
down-Distinct (suc n) = (ground (arith, has-down n n), down-Distinct n)

abbrev add_buffer : ℕ → Bcache → Bcache
add_buffer b c = link_front b (set_buf b (record (c.buf b) { lock = initsleeplock }) c)

binit_loop : (c : Bcache) (n : ℕ) → n ≤ nbuf → IsRing c [] → IsRing (each add_buffer n c) (down n)
unfolding each down
binit_loop c zero le r = r
binit_loop c (suc n) le r =
    let before = each add_buffer n c in
    link_front-IsRing n (set_buf n (record (before.buf n) { lock = initsleeplock }) before) (down n)
      (binit_loop c n (omega arith) r) (down-Distinct n) (ground (arith, has-down n n))
      (ground (arith, has-down n head)) (omega arith)

-- binit links all buffers, the last one first.
pub binit-IsOrder : (c : Bcache) → IsOrder (binit c) (down nbuf)
unfolding binit
binit-IsOrder c = record {
  ring = binit_loop (set_next head head (set_prev head head c)) nbuf (omega arith) (refl, refl);
  distinct = down-Distinct nbuf;
  all = has-down nbuf;
  size = length-down nbuf;
}

-- brelse of a locked buffer with references, by the process that holds its lock, on buffers that are in
-- the order of a list: it gives the lock up, takes a reference away, and wakes those who wait for the lock.
-- When no reference is left, the buffer goes to the front of the list and the others keep their order;
-- otherwise the list stays. No other buffer changes. Without the lock it panics.
pub brelse_lem :
    (now me chan : ℕ) (t : ProcTable) (b : ℕ) (c : Bcache) (l : List ℕ)
    → IsOrder c l
    → b < nbuf
    → 0 < (c.buf b).refcnt
    → (c.buf b).refcnt < int_mod
    → ((holdingsleep me (c.buf b).lock t ≡ false) × (brelse now me chan t b c ≡ none))
      ⊎ ((c' : Bcache) × (brelse now me chan t b c ≡ some (c', wakeup now (proc_ptr me) chan t))
          × (suc (c'.buf b).refcnt ≡ (c.buf b).refcnt)
          × ((c'.buf b).lock ≡ initsleeplock)
          × ((i : ℕ) → i ≢ b → c'.buf i ≡ c.buf i)
          × IsOrder c' (if (c.buf b).refcnt == 1 then b ∷ remove b l else l))
unfolding brelse releasesleep
brelse_lem now me chan t b c l o lt pos small =
    elim (Bool-cases (holdingsleep me (c.buf b).lock t)) [
      | inr e ↦ inl (e, rw (brelse, e) refl)
      | inl e ↦
          let x : Buf = record (c.buf b) {
            lock = initsleeplock;
            refcnt = sub32 (c.buf b).refcnt 1;
          } in
          let c1 : Bcache = set_buf b x c in
          let self : c1.buf b ≡ x = update_self c.buf b x in
          let one_less : suc (c1.buf b).refcnt ≡ (c.buf b).refcnt =
            ap (λ y. suc y.refcnt) self ∙ omega arith in
          let o1 : IsOrder c1 l = record {
            ring = o.ring;
            distinct = o.distinct;
            all = o.all;
            size = o.size;
          } in
          elim (Bool-cases ((c.buf b).refcnt == 1)) [
            | inl last ↦
                let zero_left : ((c1.buf b).refcnt == 0) ≡ true = ground arith in
                inr (
                  link_front b (unlink b c1),
                  rw (brelse, e, zero_left) refl,
                  one_less,
                  ap (λ y. y.lock) self,
                  λ i ne. update_ne c.buf b x i ne,
                  rw last (move_front-IsOrder b c1 l o1 lt),
                )
            | inr more ↦
                let some_left : ((c1.buf b).refcnt == 0) ≡ false = ground arith in
                inr (
                  c1,
                  rw (brelse, e, some_left) refl,
                  one_less,
                  ap (λ y. y.lock) self,
                  λ i ne. update_ne c.buf b x i ne,
                  rw more o1,
                )
          ]
    ]
