-- ===== src/Grep.antt =====
-- src/user/grep.c: the matcher of regular expressions. A string is the list of its characters, up to the
-- NUL.
pub mod Language
pub mod Search
use enhanced_xv.Base.{ℕ, Bool, true, false, ◌||◌, List, [], ◌∷◌, if◌then◌else◌, ◌==◌}

-- '*', '.', '$' and '^'
abbrev pub star_char : ℕ
star_char = 42

abbrev pub dot_char : ℕ
dot_char = 46

abbrev pub dollar_char : ℕ
dollar_char = 36

abbrev pub caret_char : ℕ
caret_char = 94

abbrev pub is_end : List ℕ → Bool
is_end [] = true
is_end (x ∷ text) = false

-- `matchstar(c, re, text)`, where `here` is `matchhere(re, ·)`.
pub matchstar : ℕ → (List ℕ → Bool) → List ℕ → Bool
matchstar c here [] = here []
matchstar c here (x ∷ text) =
    let more = matchstar c here text in
    if here (x ∷ text) then true else if x == c || c == dot_char then more else false

-- The test of one character in `matchhere`.
abbrev pub match_one : ℕ → (List ℕ → Bool) → List ℕ → Bool
match_one c here [] = false
match_one c here (x ∷ text) = if c == dot_char || c == x then here text else false

pub matchhere : List ℕ → List ℕ → Bool
matchhere [] text = true
matchhere (c ∷ []) text = if c == dollar_char then is_end text else match_one c (matchhere []) text
matchhere (c ∷ d ∷ re) text =
    if d == star_char
    then matchstar c (matchhere re) text
    else match_one c (matchhere (d ∷ re)) text

-- The loop of `match`.
pub match_from : List ℕ → List ℕ → Bool
match_from re [] = matchhere re []
match_from re (x ∷ text) =
    let rest = match_from re text in if matchhere re (x ∷ text) then true else rest

pub match : List ℕ → List ℕ → Bool
match [] text = match_from [] text
match (c ∷ re) text = if c == caret_char then matchhere re text else match_from (c ∷ re) text
