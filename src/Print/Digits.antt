-- ===== src/Print/Digits.antt =====
-- The digits that `printint` prints, and `atoi` of them (src/user/printf.c, src/user/ulib.c).
use enhanced_xv.Base.{
  ℕ, zero, suc, ◌+◌, ◌-◌, ◌*◌, ◌/◌, ◌%◌, ◌^◌, ◌<◌, ◌≤◌, ◌≡◌, refl, ◌∙◌, ap, Bool, true, ◌&&◌, List,
  [], ◌∷◌, ◌++◌, if◌then◌else◌, ◌==◌, ltb, leb, length, length-append, All, arith, Bool-cases, inl,
  inr, int_lt, int_mod, sub32, subst,
}
use native.Mathlib.Nat.{pow-zero, pow-suc, div-lt_iff_lt-mul, pow-le-pow_left}
use enhanced_xv.Print.{digits_of, backwards, printint_buf, printint, atoi_from, atoi}

-- A decimal digit.
abbrev IsDigit : ℕ → Type 0
IsDigit c = (48 ≤ c) × (c ≤ 57)

-- One more digit at the end.
atoi-append :
    (n : ℕ) (l : List ℕ) (d : ℕ)
    → All IsDigit l
    → IsDigit d
    → atoi_from n (l ++ (d ∷ [])) ≡ (atoi_from n l * 10 + d - 48) % int_mod
unfolding atoi_from
atoi-append n [] d tt (lo, hi) =
    let e : (leb 48 d && leb d 57) ≡ true = ground arith in rw (atoi_from, e) refl
atoi-append n (c ∷ l) d ((lo, hi), all) dd =
    let e : (leb 48 c && leb c 57) ≡ true = ground arith in
    rw (atoi_from, e) (atoi-append ((n * 10 + c - 48) % int_mod) l d all dd)

All-append : (l : List ℕ) (d : ℕ) → All IsDigit l → IsDigit d → All IsDigit (l ++ (d ∷ []))
All-append [] d tt dd = (dd, tt)
All-append (c ∷ l) d (h, all) dd = (h, All-append l d all dd)

digits-All : (fuel x : ℕ) → All IsDigit (backwards (digits_of fuel 10 x))
unfolding digits_of
digits-All zero x = tt
digits-All (suc fuel) x =
    let e : ltb (x % 10) 10 ≡ true = ground arith in
    elim (Bool-cases (x / 10 == 0)) [
      | inl z ↦ rw (digits_of, z, e) ((omega arith, omega arith), tt)
      | inr nz ↦
          rw (digits_of, nz, e)
            (All-append (backwards (digits_of fuel 10 (x / 10))) (48 + x % 10)
              (digits-All fuel (x / 10)) (omega arith, omega arith))
    ]

smaller : (b base x k : ℕ) → 0 < b → b ≤ base → x < b ^ suc k → x / base < b ^ k
smaller b base x k pos le lt =
    let lt' : x < b ^ k * b = subst (λ y. x < y) (pow-suc b k) lt in
    (div-lt_iff_lt-mul (omega arith)).1 (grind arith)

atoi-digits :
    (fuel x : ℕ) → x < 2 ^ fuel → x < int_mod → atoi_from 0 (backwards (digits_of fuel 10 x)) ≡ x
unfolding digits_of atoi_from
atoi-digits zero x lt small = omega arith
atoi-digits (suc fuel) x lt small =
    let e : ltb (x % 10) 10 ≡ true = ground arith in
    let here : IsDigit (48 + x % 10) = (omega arith, omega arith) in
    let ih : atoi_from 0 (backwards (digits_of fuel 10 (x / 10))) ≡ x / 10 =
      atoi-digits fuel (x / 10) (smaller 2 10 x fuel (omega arith) (omega arith) lt)
        (omega arith) in
    elim (Bool-cases (x / 10 == 0)) [
      | inl z ↦ rw (digits_of, z, e) (atoi-append 0 [] (48 + x % 10) tt here ∙ ground arith)
      | inr nz ↦
          rw (digits_of, nz, e)
            (atoi-append 0 (backwards (digits_of fuel 10 (x / 10))) (48 + x % 10)
                (digits-All fuel (x / 10)) here
              ∙ rw ih (omega arith))
    ]

-- A number below base^k has at most k digits, and it has one.
length-digits :
    (fuel base x k : ℕ) → 2 ≤ base → x < base ^ suc k → length (digits_of fuel base x) ≤ suc k
unfolding digits_of
length-digits zero base x k two lt = omega arith
length-digits (suc fuel) base x zero two lt =
    let few = smaller base base x 0 (omega arith) (omega arith) lt in
    let one : base ^ 0 ≡ 1 = pow-zero base in
    let z : (x / base == 0) ≡ true = ground arith in rw z (omega arith)
length-digits (suc fuel) base x (suc k) two lt =
    let ih =
      length-digits fuel base (x / base) k two
        (smaller base base x (suc k) (omega arith) (omega arith) lt) in
    elim (Bool-cases (x / base == 0)) [ inl z ↦ rw z (omega arith) | inr nz ↦ rw nz (omega arith) ]

backwards-append : (l : List ℕ) (c : ℕ) → backwards (l ++ (c ∷ [])) ≡ c ∷ backwards l
backwards-append [] c = refl
backwards-append (d ∷ l) c = ap (λ m. m ++ (d ∷ [])) (backwards-append l c)

-- For an `int` and a base of at least ten, printint fills at most 11 of the 16 bytes of `buf`.
pub length-printint_buf :
    (xx base : ℕ) (sgn : Bool) → xx < int_mod → 10 ≤ base → length (printint_buf xx base sgn) ≤ 11
unfolding printint_buf
length-printint_buf xx base sgn lt ten =
    let big : 10 ^ 10 ≤ base ^ 10 = pow-le-pow_left ten 10 in
    let few : (x : ℕ) → x < int_mod → length (digits_of 32 base x) ≤ 10 =
      λ x xlt. length-digits 32 base x 9 (omega arith) (omega arith) in
    elim (Bool-cases (sgn && int_lt xx 0)) [
      | inl e ↦
          let n = few (sub32 0 xx) (omega arith) in
          let a = length-append (digits_of 32 base (sub32 0 xx)) (45 ∷ []) in
          rw (printint_buf, e) (omega arith)
      | inr e ↦ let n = few xx lt in rw (printint_buf, e) (omega arith)
    ]

-- atoi of what printint prints in base 10 is the number, whether it is printed as an `int` or as a `uint`; of a
-- negative `int` it is 0, since atoi reads no sign.
pub atoi-printint :
    (xx : ℕ) (sgn : Bool)
    → xx < int_mod
    → atoi (printint xx 10 sgn) ≡ (if sgn && int_lt xx 0 then 0 else xx)
unfolding atoi printint printint_buf atoi_from
atoi-printint xx sgn lt = elim (Bool-cases (sgn && int_lt xx 0)) [
  | inl e ↦
      rw (printint_buf, e) (ap (atoi_from 0) (backwards-append (digits_of 32 10 (sub32 0 xx)) 45))
  | inr e ↦ rw (printint_buf, e) (atoi-digits 32 xx lt lt)
]
