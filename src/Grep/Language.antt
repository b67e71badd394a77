-- ===== src/Grep/Language.antt =====
-- The language of a regular expression, with no search order in it, and `matchhere` (src/user/grep.c).
use enhanced_xv.Base.{
  ℕ, ◌≡◌, refl, sym, ap, ◌∙◌, Bool, true, false, ◌||◌, List, [], ◌∷◌, ◌++◌, if◌then◌else◌, ◌==◌,
  arith, Bool-cases, inl, inr, ◌⊎◌, All, subst,
}
use mathlib.Core.Bool.{false≢true}
use mathlib.Core.List.{append_assoc}
use enhanced_xv.Grep.{star_char, dot_char, dollar_char, is_end, matchstar, match_one, matchhere}

-- A character, or any number of it.
pub data Item : Type 0 where
  one many : ℕ → Item

-- The items of an expression, and whether it ends with '$'.
unfoldable pub items : List ℕ → List Item
items [] = []
items (c ∷ []) = if c == dollar_char then [] else one c ∷ []
items (c ∷ d ∷ re) =
    let after = items re in
    let next = items (d ∷ re) in if d == star_char then many c ∷ after else one c ∷ next

unfoldable pub anchored : List ℕ → Bool
anchored [] = false
anchored (c ∷ []) = c == dollar_char
anchored (c ∷ d ∷ re) =
    let after = anchored re in
    let next = anchored (d ∷ re) in if d == star_char then after else next

abbrev pub Fits : ℕ → ℕ → Type 0
Fits c x = (c ≡ dot_char) ⊎ (c ≡ x)

pub data Denotes : List Item → List ℕ → Type 0 where
  nothing : Denotes [] []
  character :
      {c x : ℕ} {is : List Item} {s : List ℕ}
      → Fits c x
      → Denotes is s
      → Denotes (one c ∷ is) (x ∷ s)
  repeated :
      {c : ℕ} {is : List Item} (run : List ℕ) {s : List ℕ}
      → All (Fits c) run
      → Denotes is s
      → Denotes (many c ∷ is) (run ++ s)

-- A text in the language stands at the beginning of `text`, and takes all of it if the expression ends
-- with '$'.
pub record Begins (re text : List ℕ) : Type 0 where
  pub part : List ℕ
  pub rest : List ℕ
  pub split : text ≡ part ++ rest
  pub denotes : Denotes (items re) part
  pub to_end : anchored re ≡ true → rest ≡ []

matchstar_sound :
    (c : ℕ) (here : List ℕ → Bool) (text : List ℕ)
    → matchstar c here text ≡ true
    → (run : List ℕ) × (rest : List ℕ) × (text ≡ run ++ rest)
      × All (Fits c) run
      × (here rest ≡ true)
unfolding matchstar
matchstar_sound c here [] h = ([], [], refl, tt, h)
matchstar_sound c here (x ∷ text) h = elim (Bool-cases (here (x ∷ text))) [
  | inl e ↦ ([], x ∷ text, refl, tt, e)
  | inr e ↦ elim (Bool-cases (x == c || c == dot_char)) [
    | inl f ↦
        let (run, rest, split, all, found) =
          matchstar_sound c here text (sym (rw (e, f) refl) ∙ h) in
        (x ∷ run, rest, ap (λ (t : List ℕ). x ∷ t) split, (ground arith, all), found)
    | inr f ↦ absurd (false≢true (sym (rw (e, f) refl) ∙ h))
  ]
]

matchstar_complete :
    (c : ℕ) (here : List ℕ → Bool) (run rest : List ℕ)
    → All (Fits c) run
    → here rest ≡ true
    → matchstar c here (run ++ rest) ≡ true
unfolding matchstar
matchstar_complete c here [] [] all found = found
matchstar_complete c here [] (x ∷ rest) all found = rw found
matchstar_complete c here (x ∷ run) rest all found = elim (Bool-cases (here (x ∷ run ++ rest))) [
  | inl e ↦ rw e
  | inr e ↦
      let first = all.0 in
      let fits : (x == c || c == dot_char) ≡ true = ground arith in
      rw (e, fits) (matchstar_complete c here run rest all.1 found)
]

match_one_sound :
    (c : ℕ) (here : List ℕ → Bool) (text : List ℕ)
    → match_one c here text ≡ true
    → (x : ℕ) × (after : List ℕ) × (text ≡ x ∷ after) × Fits c x × (here after ≡ true)
match_one_sound c here [] h = cc
match_one_sound c here (x ∷ text) h = elim (Bool-cases (c == dot_char || c == x)) [
  | inl e ↦ (x, text, refl, ground arith, sym (rw e refl) ∙ h)
  | inr e ↦ absurd (false≢true (sym (rw e refl) ∙ h))
]

match_one_complete :
    (c x : ℕ) (here : List ℕ → Bool) (after : List ℕ)
    → Fits c x
    → here after ≡ true
    → match_one c here (x ∷ after) ≡ true
match_one_complete c x here after fits found =
    let e : (c == dot_char || c == x) ≡ true = ground arith in rw e found

at_end : (text : List ℕ) → is_end text ≡ true → text ≡ []
at_end [] h = refl
at_end (x ∷ text) h = cc

nothing_inv : {s : List ℕ} → Denotes [] s → s ≡ []
nothing_inv nothing = refl

character_inv :
    {c : ℕ} {is : List Item} {s : List ℕ}
    → Denotes (one c ∷ is) s
    → (x : ℕ) × (after : List ℕ) × (s ≡ x ∷ after) × Fits c x × Denotes is after
character_inv (character {x = x} {s = s} fits m) = (x, s, refl, fits, m)

repeated_inv :
    {c : ℕ} {is : List Item} {s : List ℕ}
    → Denotes (many c ∷ is) s
    → (run : List ℕ) × (after : List ℕ) × (s ≡ run ++ after) × All (Fits c) run × Denotes is after
repeated_inv (repeated run {s = s} all m) = (run, s, refl, all, m)

pub matchhere_sound : (re text : List ℕ) → matchhere re text ≡ true → Begins re text
unfolding matchhere items anchored
matchhere_sound [] text h = record {
  part = [];
  rest = text;
  split = refl;
  denotes = nothing;
  to_end = λ e. cc;
}
matchhere_sound (c ∷ []) text h = elim (Bool-cases (c == dollar_char)) [
  | inl e ↦ record {
    part = [];
    rest = text;
    split = refl;
    denotes = rw e nothing;
    to_end = λ _. at_end text (sym (rw e refl) ∙ h);
  }
  | inr e ↦
      let (x, after, split, fits, _) =
        match_one_sound c (matchhere []) text (sym (rw e refl) ∙ h) in
      record {
        part = x ∷ [];
        rest = after;
        split = split;
        denotes = rw e (character fits nothing);
        to_end = λ q. cc;
      }
]
matchhere_sound (c ∷ d ∷ re) text h = elim (Bool-cases (d == star_char)) [
  | inl e ↦
      let (run, rest, split, all, found) =
        matchstar_sound c (matchhere re) text (sym (rw e refl) ∙ h) in
      let b = matchhere_sound re rest found in
      record {
        part = run ++ b.part;
        rest = b.rest;
        split =
            split ∙ ap (λ (t : List ℕ). run ++ t) b.split ∙ sym (append_assoc run b.part b.rest);
        denotes = rw e (repeated run all b.denotes);
        to_end = λ q. b.to_end (sym (rw e refl) ∙ q);
      }
  | inr e ↦
      let (x, after, split, fits, found) =
        match_one_sound c (matchhere (d ∷ re)) text (sym (rw e refl) ∙ h) in
      let b = matchhere_sound (d ∷ re) after found in
      record {
        part = x ∷ b.part;
        rest = b.rest;
        split = split ∙ ap (λ (t : List ℕ). x ∷ t) b.split;
        denotes = rw e (character fits b.denotes);
        to_end = λ q. b.to_end (sym (rw e refl) ∙ q);
      }
]

pub matchhere_complete :
    (re part rest : List ℕ)
    → Denotes (items re) part
    → (anchored re ≡ true → rest ≡ [])
    → matchhere re (part ++ rest) ≡ true
unfolding matchhere items anchored
matchhere_complete [] part rest m end = refl
matchhere_complete (c ∷ []) part rest m end = elim (Bool-cases (c == dollar_char)) [
  | inl e ↦
      let empty = nothing_inv (subst (λ is. Denotes is part) (rw e refl) m) in rw (e, empty, end e)
  | inr e ↦
      let (x, s, split, fits, _) =
        character_inv {c = c} {is = []} (subst (λ is. Denotes is part) (rw e refl) m) in
      rw (e, split) (match_one_complete c x (matchhere []) (s ++ rest) fits refl)
]
matchhere_complete (c ∷ d ∷ re) part rest m end = elim (Bool-cases (d == star_char)) [
  | inl e ↦
      let (run, s, split, all, after) =
        repeated_inv {c = c} {is = items re} (subst (λ is. Denotes is part) (rw e refl) m) in
      rw (e, split, append_assoc run s rest)
        (matchstar_complete c (matchhere re) run (s ++ rest) all
          (matchhere_complete re s rest after (λ q. end (rw e q))))
  | inr e ↦
      let (x, s, split, fits, after) =
        character_inv {c = c} {is = items (d ∷ re)} (subst (λ is. Denotes is part) (rw e refl) m) in
      rw (e, split)
        (match_one_complete c x (matchhere (d ∷ re)) (s ++ rest) fits
          (matchhere_complete (d ∷ re) s rest after (λ q. end (rw e q))))
]
