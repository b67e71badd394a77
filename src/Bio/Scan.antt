-- ===== src/Bio/Scan.antt =====
-- The loops of `bget` along the links, as searches in the list (src/kernel/bio.c).
use mathlib.Core.List.{append_assoc}
use enhanced_xv.Base.{
  ℕ, zero, suc, ◌<◌, ◌≡◌, refl, sym, ◌∙◌, ap, Bool, true, false, Option, none, some, List, [], ◌∷◌,
  ◌++◌, length, length-append, if◌then◌else◌, ◌==◌, Bool-cases, inl, inr, arith, some_inj,
}
use enhanced_xv.Bio.{head, scan}
use enhanced_xv.Bio.Links.{has, Linked, has-append}

-- The first member of a list that passes a test.
unfoldable pub find : (ℕ → Bool) → List ℕ → Option ℕ
find test [] = none
find test (x ∷ l) = let rest = find test l in if test x then some x else rest

unfoldable pub reverse : List ℕ → List ℕ
reverse [] = []
reverse (x ∷ l) = reverse l ++ (x ∷ [])

-- A list of links up to a node, and one from there on.
join :
    (nx pv : ℕ → ℕ) (a : ℕ) (l : List ℕ) (x : ℕ) (m : List ℕ) (z : ℕ)
    → Linked nx pv a l x
    → Linked nx pv x m z
    → Linked nx pv a (l ++ (x ∷ m)) z
join nx pv a [] x m z h k = (h.0, h.1, k)
join nx pv a (y ∷ l) x m z h k = (h.0, h.1, join nx pv y l x m z h.2 k)

pub Linked-reverse :
    (nx pv : ℕ → ℕ) (a : ℕ) (l : List ℕ) (z : ℕ) → Linked nx pv a l z → Linked pv nx z (reverse l) a
unfolding reverse
Linked-reverse nx pv a [] z h = (h.1, h.0)
Linked-reverse nx pv a (x ∷ l) z h =
    join pv nx z (reverse l) x [] a (Linked-reverse nx pv x l z h.2) (h.1, h.0)

pub has-reverse : (i : ℕ) (l : List ℕ) → has i (reverse l) ≡ has i l
unfolding reverse
has-reverse i [] = refl
has-reverse i (x ∷ l) = ground (arith, has-append i (reverse l) (x ∷ []), has-reverse i l)

pub length-reverse : (l : List ℕ) → length (reverse l) ≡ length l
unfolding reverse
length-reverse [] = refl
length-reverse (x ∷ l) = omega (arith, length-append (reverse l) (x ∷ []), length-reverse l)

-- A scan along the links goes through the list.
pub scan-find :
    (test : ℕ → Bool) (nx pv : ℕ → ℕ) (a : ℕ) (l : List ℕ) (fuel : ℕ)
    → Linked nx pv a l head
    → has head l ≡ false
    → length l < fuel
    → scan test nx fuel (nx a) ≡ find test l
unfolding scan find
scan-find test nx pv a l zero h out lt = elim lt [ ]
scan-find test nx pv a [] (suc fuel) h out lt = rw h.0 refl
scan-find test nx pv a (x ∷ l) (suc fuel) h out lt =
    let inside : (x == head) ≡ false = ground arith in
    let rest = scan-find test nx pv x l fuel h.2 (ground arith) (omega arith) in
    rw (h.0, inside, rest) refl

pub find-none :
    (test : ℕ → Bool) (l : List ℕ) → find test l ≡ none → (i : ℕ) → has i l ≡ true → test i ≡ false
unfolding find
find-none test [] h i e = cc
find-none test (x ∷ l) h i e = elim (Bool-cases (test x)) [
  | inl t ↦ let c : some x ≡ none = sym (rw (find, t) refl) ∙ h in cc
  | inr t ↦ elim (Bool-cases (x == i)) [
    | inl same ↦ let q : i ≡ x = ground arith in ap test q ∙ t
    | inr other ↦ find-none test l (sym (rw (find, t) refl) ∙ h) i (ground arith)
  ]
]

pub find-some :
    (test : ℕ → Bool) (l : List ℕ) (b : ℕ)
    → find test l ≡ some b
    → (test b ≡ true)
      × (k : List ℕ) × (m : List ℕ) × (l ≡ k ++ (b ∷ m))
      × ((i : ℕ) → has i k ≡ true → test i ≡ false)
unfolding find
find-some test [] b h = cc
find-some test (x ∷ l) b h = elim (Bool-cases (test x)) [
  | inl t ↦
      let same : x ≡ b = some_inj (sym (rw (find, t) refl) ∙ h) in
      (ap test (sym same) ∙ t, [], l, ap (λ y. y ∷ l) same, λ i e. cc)
  | inr t ↦
      let (yes_b, k, m, e, before) = find-some test l b (sym (rw (find, t) refl) ∙ h) in
      (
        yes_b,
        x ∷ k,
        m,
        ap (λ r. x ∷ r) e,
        λ i hi. elim (Bool-cases (x == i)) [
          | inl same ↦ let q : i ≡ x = ground arith in ap test q ∙ t
          | inr other ↦ before i (ground arith)
        ],
      )
]

pub reverse-middle :
    (k : List ℕ) (b : ℕ) (m : List ℕ) → reverse (k ++ (b ∷ m)) ≡ reverse m ++ (b ∷ reverse k)
unfolding reverse
reverse-middle [] b m = refl
reverse-middle (x ∷ k) b m =
    rw (reverse-middle k b m) (append_assoc (reverse m) (b ∷ reverse k) (x ∷ []))

pub reverse_twice : (l : List ℕ) → reverse (reverse l) ≡ l
unfolding reverse
reverse_twice [] = refl
reverse_twice (x ∷ l) = reverse-middle (reverse l) x [] ∙ ap (λ r. x ∷ r) (reverse_twice l)
