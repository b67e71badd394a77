-- ===== src/Print.antt =====
-- src/user/printf.c and `atoi` of src/user/ulib.c. A string is the list of its characters before the null, and what
-- is printed is a list of characters.
use enhanced_xv.Base.{
  ℕ, zero, suc, ◌+◌, ◌-◌, ◌*◌, ◌/◌, ◌%◌, ◌^◌, Bool, true, false, ◌&&◌, Option, none, some, List, [],
  ◌∷◌, ◌++◌, if◌then◌else◌, ◌==◌, ltb, leb, int_lt, int_mod, sub32,
}
pub mod Digits

-- `digits[d]`
abbrev pub digit : ℕ → ℕ
digit d = if ltb d 10 then 48 + d else 55 + d

-- What the `do` loop puts into `buf`, the lowest digit first.
unfoldable pub digits_of : ℕ → ℕ → ℕ → List ℕ
digits_of zero base x = []
digits_of (suc fuel) base x =
    let rest = digits_of fuel base (x / base) in
    digit (x % base) ∷ (if x / base == 0 then [] else rest)

-- The last loop of `printint`, which prints `buf` from its end.
abbrev pub backwards : List ℕ → List ℕ
backwards [] = []
backwards (c ∷ l) = backwards l ++ (c ∷ [])

-- `buf` when the last loop starts. A `uint` has 32 bits and the base is at least two, so 32 turns are enough.
unfoldable pub printint_buf : ℕ → ℕ → Bool → List ℕ
printint_buf xx base sgn =
    if sgn && int_lt xx 0 then digits_of 32 base (sub32 0 xx) ++ (45 ∷ []) else digits_of 32 base xx

unfoldable pub printint : ℕ → ℕ → Bool → List ℕ
printint xx base sgn = backwards (printint_buf xx base sgn)

-- The loop of `printptr` with `n` digits left: `x <<= 4` on 64 bits.
abbrev pub hex_digits : ℕ → ℕ → List ℕ
hex_digits zero x = []
hex_digits (suc n) x = digit (x / 2 ^ 60) ∷ hex_digits n (x * 16 % 2 ^ 64)

unfoldable pub printptr : ℕ → List ℕ
printptr x = 48 ∷ (120 ∷ hex_digits 16 x)

-- An argument of `vprintf`: a number of 64 bits, or a string, which may be null.
pub data Arg : Type 0 where
  number : ℕ → Arg
  string : Option (List ℕ) → Arg

-- `(null)`
abbrev pub null_text : List ℕ
null_text = 40 ∷ (110 ∷ (117 ∷ (108 ∷ (108 ∷ (41 ∷ [])))))

abbrev pub text_of : Option (List ℕ) → List ℕ
text_of none = null_text
text_of (some s) = s

-- Where `vprintf` stands after a character: the state, and what is printed and which arguments are left; `none`
-- where an argument is missing or of another kind.
abbrev pub with_number : (ℕ → List ℕ) → List Arg → Option (List ℕ × List Arg)
with_number f (number x ∷ args) = some (f x, args)
with_number f (string s ∷ args) = none
with_number f [] = none

abbrev pub with_string : List Arg → Option (List ℕ × List Arg)
with_string (string s ∷ args) = some (text_of s, args)
with_string (number x ∷ args) = none
with_string [] = none

-- The character `c` after a percent sign.
unfoldable pub convert : ℕ → List Arg → Option (List ℕ × List Arg)
convert c args =
    if c == 100
    then with_number (λ x. printint (x % int_mod) 10 true) args
    else if c == 108
    then with_number (λ x. printint (x % int_mod) 10 false) args
    else if c == 120
    then with_number (λ x. printint (x % int_mod) 16 false) args
    else if c == 112
    then with_number printptr args
    else if c == 115
    then with_string args
    else if c == 99
    then with_number (λ x. x % 256 ∷ []) args
    else if c == 37
    then some (37 ∷ [], args)
    else some (37 ∷ (c ∷ []), args)

-- `vprintf` from a character on, with its state: whether a percent sign was read.
unfoldable pub vprintf : Bool → List ℕ → List Arg → Option (List ℕ)
vprintf state [] args = some []
vprintf false (c ∷ fmt) args = elim (vprintf (c == 37) fmt args) [
  | none ↦ none
  | some out ↦ some (if c == 37 then out else c ∷ out)
]
vprintf true (c ∷ fmt) args = elim (convert c args) [
  | none ↦ none
  | some (text, rest) ↦ elim (vprintf false fmt rest) [
    | none ↦ none
    | some out ↦ some (text ++ out)
  ]
]

-- The loop of `atoi` with `n` so far, as the pattern of an `int`.
unfoldable pub atoi_from : ℕ → List ℕ → ℕ
atoi_from n [] = n
atoi_from n (c ∷ s) =
    let rest = atoi_from ((n * 10 + c - 48) % int_mod) s in if leb 48 c && leb c 57 then rest else n

unfoldable pub atoi : List ℕ → ℕ
atoi = atoi_from 0
