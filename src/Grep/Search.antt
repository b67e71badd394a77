-- ===== src/Grep/Search.antt =====
-- The search of `match` (src/user/grep.c).
use enhanced_xv.Base.{
  ℕ, ◌≡◌, ◌≢◌, refl, sym, ap, ◌∙◌, true, List, [], ◌∷◌, ◌++◌, ◌==◌, arith, Bool-cases, inl, inr,
  ◌⊎◌, ◌↔◌,
}
use enhanced_xv.Grep.{caret_char, matchhere, match_from, match}
use enhanced_xv.Grep.Language.{Begins, matchhere_sound, matchhere_complete}

matchhere_iff : (re text : List ℕ) → (matchhere re text ≡ true) ↔ Begins re text
matchhere_iff re text = (
  matchhere_sound re text,
  λ b. rw b.split (matchhere_complete re b.part b.rest b.denotes b.to_end),
)

-- Some suffix of the text begins with a match.
pub record Occurs (re text : List ℕ) : Type 0 where
  pub before : List ℕ
  pub after : List ℕ
  pub split : text ≡ before ++ after
  pub begins : Begins re after

match_from_sound : (re text : List ℕ) → match_from re text ≡ true → Occurs re text
unfolding match_from
match_from_sound re [] h = record {
  before = [];
  after = [];
  split = refl;
  begins = (matchhere_iff re []).0 h;
}
match_from_sound re (x ∷ text) h = elim (Bool-cases (matchhere re (x ∷ text))) [
  | inl e ↦ record {
    before = [];
    after = x ∷ text;
    split = refl;
    begins = (matchhere_iff re (x ∷ text)).0 e;
  }
  | inr e ↦
      let o = match_from_sound re text (sym (rw e refl) ∙ h) in
      record {
        before = x ∷ o.before;
        after = o.after;
        split = ap (λ (t : List ℕ). x ∷ t) o.split;
        begins = o.begins;
      }
]

match_from_complete :
    (re before after : List ℕ) → Begins re after → match_from re (before ++ after) ≡ true
unfolding match_from
match_from_complete re [] [] b = (matchhere_iff re []).1 b
match_from_complete re [] (x ∷ after) b = rw ((matchhere_iff re (x ∷ after)).1 b)
match_from_complete re (x ∷ before) after b =
    elim (Bool-cases (matchhere re (x ∷ before ++ after))) [
      | inl e ↦ rw e
      | inr e ↦ rw e (match_from_complete re before after b)
    ]

-- A text matches an expression that starts with '^' if it begins with a text in the language of the rest,
-- and any other expression if one of its suffixes does.
pub Matches : List ℕ → List ℕ → Type 0
Matches [] text = Occurs [] text
Matches (c ∷ re) text =
    ((c ≡ caret_char) × Begins re text) ⊎ ((c ≢ caret_char) × Occurs (c ∷ re) text)

-- `match` answers for every expression and text, and says yes exactly on the texts that match.
pub match_iff : (re text : List ℕ) → (match re text ≡ true) ↔ Matches re text
unfolding match Matches
match_iff [] text =
    (match_from_sound [] text, λ o. rw o.split (match_from_complete [] o.before o.after o.begins))
match_iff (c ∷ re) text = elim (Bool-cases (c == caret_char)) [
  | inl e ↦
      let caret : c ≡ caret_char = ground arith in
      (
        λ h. inl (caret, matchhere_sound re text (sym (rw e refl) ∙ h)),
        λ m. elim m [
          | inl (_, b) ↦ rw e ((matchhere_iff re text).1 b)
          | inr (ne, _) ↦ absurd (ne caret)
        ],
      )
  | inr e ↦
      let other : c ≢ caret_char = λ q. ground arith in
      (
        λ h. inr (other, match_from_sound (c ∷ re) text (sym (rw e refl) ∙ h)),
        λ m. elim m [
          | inl (q, _) ↦ absurd (other q)
          | inr (_, o) ↦ rw (e, o.split) (match_from_complete (c ∷ re) o.before o.after o.begins)
        ],
      )
]
