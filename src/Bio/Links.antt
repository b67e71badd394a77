-- ===== src/Bio/Links.antt =====
-- Doubly linked lists, as `next` and `prev` of the buffers are (src/kernel/bio.c).
use enhanced_xv.Base.{
  ℕ, ◌≡◌, ◌≢◌, refl, sym, ◌∙◌, ap, Bool, true, false, ◌||◌, List, [], ◌∷◌, ◌++◌, ◌==◌, update, inl,
  inr, arith, ◌⊎◌,
}

abbrev pub has : ℕ → List ℕ → Bool
has a [] = false
has a (x ∷ l) = x == a || has a l

abbrev pub Distinct : List ℕ → Type 0
Distinct [] = Unit
Distinct (x ∷ l) = (has x l ≡ false) × Distinct l

-- From `a` the links lead through `l` to `z`, and back.
abbrev pub Linked : (ℕ → ℕ) → (ℕ → ℕ) → ℕ → List ℕ → ℕ → Type 0
Linked nx pv a [] z = (nx a ≡ z) × (pv z ≡ a)
Linked nx pv a (x ∷ l) z = (nx a ≡ x) × (pv x ≡ a) × Linked nx pv x l z

-- The node behind the one that `l` follows, and the one before `z`.
abbrev pub first : List ℕ → ℕ → ℕ
first [] z = z
first (x ∷ l) z = x

pub has-append : (i : ℕ) (l m : List ℕ) → has i (l ++ m) ≡ (has i l || has i m)
has-append i [] m = refl
has-append i (x ∷ l) m = ground (arith, has-append i l m)

apart : (i x : ℕ) (l : List ℕ) → has i l ≡ true → has x l ≡ false → i ≢ x
apart i x l e f q = let c : false ≡ true = sym f ∙ ap (λ k. has k l) (sym q) ∙ e in cc

-- Links that are the same at the nodes.
frame :
    (nx pv nx' pv' : ℕ → ℕ) (a : ℕ) (l : List ℕ) (z : ℕ)
    → nx' a ≡ nx a
    → ((i : ℕ) → has i l ≡ true → nx' i ≡ nx i)
    → ((i : ℕ) → has i l ≡ true → pv' i ≡ pv i)
    → pv' z ≡ pv z
    → Linked nx pv a l z
    → Linked nx' pv' a l z
frame nx pv nx' pv' a [] z ea n p ez (h, k) = (ea ∙ h, ez ∙ k)
frame nx pv nx' pv' a (x ∷ l) z ea n p ez (h, k, rest) =
    let self : (x == x) ≡ true = ground arith in
    (
      ea ∙ h,
      p x (rw self refl) ∙ k,
      frame nx pv nx' pv' x l z (n x (rw self refl)) (λ i e. n i (ground arith))
          (λ i e. p i (ground arith)) ez rest,
    )

pub next_first :
    (nx pv : ℕ → ℕ) (a : ℕ) (l : List ℕ) (z : ℕ) → Linked nx pv a l z → nx a ≡ first l z
next_first nx pv a [] z h = h.0
next_first nx pv a (x ∷ l) z h = h.0

-- A new node behind the first.
pub insert_lem :
    (nx pv : ℕ → ℕ) (a x : ℕ) (l : List ℕ) (z : ℕ)
    → Linked nx pv a l z
    → Distinct l
    → has x l ≡ false
    → has a l ≡ false
    → has z l ≡ false
    → x ≢ a
    → x ≢ z
    → Linked (update (update nx x (nx a)) a x) (update (update pv x a) (nx a) x) a (x ∷ l) z
insert_lem nx pv a x [] z h d xl al zl xa xz =
    (ground arith, ground (arith, h.0), (ground (arith, h.0), ground (arith, h.0)))
insert_lem nx pv a x (y ∷ l) z h d xl al zl xa xz = (
  ground arith,
  ground (arith, h.0),
  (
    ground (arith, h.0),
    ground (arith, h.0),
    frame nx pv (update (update nx x (nx a)) a x) (update (update pv x a) (nx a) x) y l z
        (ground arith) (λ i e. ground (arith, apart i x l e, apart i a l e))
        (λ i e. ground (arith, h.0, apart i x l e, apart i y l e)) (ground (arith, h.0)) h.2,
  ),
)

-- The links of a node stay within the list.
next_in :
    (nx pv : ℕ → ℕ) (a : ℕ) (l : List ℕ) (x : ℕ) (m : List ℕ) (z : ℕ)
    → Linked nx pv a (l ++ (x ∷ m)) z
    → (nx x ≡ z) ⊎ (has (nx x) m ≡ true)
next_in nx pv a [] x [] z h = inl h.2.0
next_in nx pv a [] x (y ∷ m) z h = inr (ground (arith, h.2.0))
next_in nx pv a (w ∷ l) x m z h = next_in nx pv w l x m z h.2

prev_in :
    (nx pv : ℕ → ℕ) (a : ℕ) (l : List ℕ) (x : ℕ) (m : List ℕ) (z : ℕ)
    → Linked nx pv a (l ++ (x ∷ m)) z
    → (pv x ≡ a) ⊎ (has (pv x) l ≡ true)
prev_in nx pv a [] x m z h = inl h.1
prev_in nx pv a (w ∷ l) x m z h = elim (prev_in nx pv w l x m z h.2) [
  | inl e ↦ inr (ground arith)
  | inr e ↦ inr (ground arith)
]

-- A node is taken out.
pub unlink_lem :
    (nx pv : ℕ → ℕ) (a : ℕ) (l : List ℕ) (x : ℕ) (m : List ℕ) (z : ℕ)
    → Linked nx pv a (l ++ (x ∷ m)) z
    → Distinct (l ++ (x ∷ m))
    → has a (l ++ (x ∷ m)) ≡ false
    → has z (l ++ (x ∷ m)) ≡ false
    → Linked (update nx (pv x) (nx x)) (update pv (nx x) (pv x)) a (l ++ m) z
unlink_lem nx pv a [] x [] z h d al zl = (ground (arith, h.1, h.2.0), ground (arith, h.1, h.2.1))
unlink_lem nx pv a [] x (y ∷ m) z h d al zl = (
  ground (arith, h.1, h.2.0),
  ground (arith, h.1, h.2.0),
  frame nx pv (update nx (pv x) (nx x)) (update pv (nx x) (pv x)) y m z (ground (arith, h.1))
      (λ i e. ground (arith, h.1, apart i a m e))
      (λ i e. ground (arith, h.2.0, apart i y m e, d.1.0)) (ground (arith, h.2.0)) h.2.2,
)
unlink_lem nx pv a (w ∷ l) x m z h d al zl =
    let inside = prev_in nx pv w l x m z h.2 in
    let behind = next_in nx pv w l x m z h.2 in
    (
      elim inside [
        | inl e ↦ ground (arith, h.0)
        | inr e ↦
            let out : has a l ≡ false = ground (arith, has-append a l (x ∷ m)) in
            ground (arith, h.0, apart (pv x) a l e out)
      ],
      elim behind [
        | inl e ↦ ground (arith, h.1)
        | inr e ↦
            let out : has w m ≡ false = ground (arith, has-append w l (x ∷ m), d.0) in
            ground (arith, h.1, apart (nx x) w m e out)
      ],
      unlink_lem nx pv w l x m z h.2 d.1 d.0 (ground arith),
    )
