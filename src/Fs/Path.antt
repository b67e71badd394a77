-- ===== src/Fs/Path.antt =====
-- `skipelem` takes a path apart into the names between its slashes (src/kernel/fs.c).
use enhanced_xv.Base.{
  take, ℕ, ◌≡◌, ◌≢◌, refl, sym, ◌∙◌, ap, false, none, some, List, [], ◌∷◌, if◌then◌else◌, ◌==◌,
  arith, Bool-cases, inl, inr, ◌⊎◌,
}
use enhanced_xv.Fs.{slash, dirsiz, skip_slashes, element, skipelem}

abbrev pub push : ℕ → List (List ℕ) → List (List ℕ)
push c [] = (c ∷ []) ∷ []
push c (w ∷ l) = (c ∷ w) ∷ l

-- A path cut at each slash.
unfoldable pub pieces : List ℕ → List (List ℕ)
pieces [] = [] ∷ []
pieces (c ∷ l) = if c == slash then [] ∷ pieces l else push c (pieces l)

abbrev pub keep_name : List ℕ → List (List ℕ) → List (List ℕ)
keep_name [] ws = ws
keep_name (c ∷ w) ws = (c ∷ w) ∷ ws

unfoldable pub names_of : List (List ℕ) → List (List ℕ)
names_of [] = []
names_of (w ∷ l) = keep_name w (names_of l)

-- The names in a path: the pieces that are not empty.
unfoldable pub names : List ℕ → List (List ℕ)
names path = names_of (pieces path)

names-skip_slashes : (path : List ℕ) → names (skip_slashes path) ≡ names path
unfolding names skip_slashes pieces names_of
names-skip_slashes [] = refl
names-skip_slashes (c ∷ l) = elim (Bool-cases (c == slash)) [
  | inl e ↦ rw (skip_slashes, pieces, e) (names-skip_slashes l)
  | inr e ↦ let same : skip_slashes (c ∷ l) ≡ c ∷ l = rw (skip_slashes, e) refl in ap names same
]

-- The pieces behind the first one, for a path that is empty or starts with a slash.
abbrev behind : List ℕ → List (List ℕ)
behind [] = []
behind (c ∷ l) = pieces l

pieces-element : (path : List ℕ) → pieces path ≡ (element path).0 ∷ behind (element path).1
unfolding element pieces
pieces-element [] = refl
pieces-element (c ∷ l) = elim (Bool-cases (c == slash)) [
  | inl e ↦ rw (element, pieces, e) refl
  | inr e ↦ rw (element, pieces, e) (ap (push c) (pieces-element l))
]

names-behind : (path : List ℕ) → names_of (behind (element path).1) ≡ names (element path).1
unfolding element pieces names_of names
names-behind [] = refl
names-behind (c ∷ l) = elim (Bool-cases (c == slash)) [
  | inl e ↦
      let cut : (element (c ∷ l)).1 ≡ c ∷ l = rw (element, e) refl in
      let same : names (c ∷ l) ≡ names_of (pieces l) = rw (pieces, e) refl in rw cut (sym same)
  | inr e ↦ rw (element, e) (names-behind l)
]

-- A path does not start with a slash.
pub Starts : List ℕ → Type 0
Starts l = (c : ℕ) (r : List ℕ) → l ≡ c ∷ r → c ≢ slash

skip_slashes-Starts : (l : List ℕ) → Starts (skip_slashes l)
unfolding skip_slashes Starts
skip_slashes-Starts [] d r h = cc
skip_slashes-Starts (c ∷ l) d r h = elim (Bool-cases (c == slash)) [
  | inl e ↦ skip_slashes-Starts l d r (sym (rw (skip_slashes, e) refl) ∙ h)
  | inr e ↦
      let same : c ∷ l ≡ d ∷ r = sym (rw (skip_slashes, e) refl) ∙ h in
      let first : c ≡ d = cc in ground arith
]

-- What a path that starts with no slash is.
element-first : (c : ℕ) (l : List ℕ) → c ≢ slash → (w : List ℕ) × ((element (c ∷ l)).0 ≡ c ∷ w)
unfolding element
element-first c l ne = let e : (c == slash) ≡ false = ground arith in ((element l).0, rw e refl)

-- The first name of a path that starts with no slash.
names-element :
    (c : ℕ) (l : List ℕ)
    → c ≢ slash
    → names (c ∷ l) ≡ (element (c ∷ l)).0 ∷ names (skip_slashes (element (c ∷ l)).1)
unfolding names names_of
names-element c l ne =
    let (w, first) = element-first c l ne in
    ap names_of (pieces-element (c ∷ l))
    ∙ rw first (
        ap (λ ws. (c ∷ w) ∷ ws)
          (names-behind (c ∷ l) ∙ sym (names-skip_slashes (element (c ∷ l)).1)))

-- skipelem returns 0 exactly when no name is in the path. Otherwise it hands out the first name, cut to
-- DIRSIZ characters, and a path that has the other names and starts with no slash.
pub skipelem_lem :
    (path : List ℕ)
    → ((skipelem path ≡ none) × (names path ≡ []))
      ⊎ ((w : List ℕ) × (rest : List ℕ) × (skipelem path ≡ some (rest, take dirsiz w))
          × (names path ≡ w ∷ names rest)
          × Starts rest)
unfolding skipelem names pieces names_of Starts
skipelem_lem path = split (skip_slashes path) refl
  where
    split :
        (l : List ℕ)
        → skip_slashes path ≡ l
        → ((skipelem path ≡ none) × (names path ≡ []))
          ⊎ ((w : List ℕ) × (rest : List ℕ) × (skipelem path ≡ some (rest, take dirsiz w))
              × (names path ≡ w ∷ names rest)
              × Starts rest)
    split [] e = inl (rw (skipelem, e) refl, sym (names-skip_slashes path) ∙ ap names e)
    split (c ∷ l) e =
        let ne : c ≢ slash = skip_slashes-Starts path c l e in
        let rest : List ℕ = skip_slashes (element (c ∷ l)).1 in
        inr (
          (element (c ∷ l)).0,
          rest,
          rw (skipelem, e) refl,
          sym (names-skip_slashes path) ∙ ap names e ∙ names-element c l ne,
          skip_slashes-Starts (element (c ∷ l)).1,
        )
