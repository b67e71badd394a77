-- ===== src/Console/Line.antt =====
-- What the input of the console is meant to be: the lines that are complete, and the one being edited.
use enhanced_xv.Base.{
  length, ℕ, zero, suc, ◌+◌, ◌%◌, ◌<◌, ◌≤◌, ◌≡◌, ◌≢◌, refl, ap, not, ◌&&◌, ◌||◌, List, [], ◌∷◌,
  ◌++◌, if◌then◌else◌, ◌==◌, ltb, int_mod, add32, sub32, window, window-append, arith,
}
use enhanced_xv.Console.{
  Cons, input_buf_size, newline, carriage_return, ctrl_d, ctrl_h, ctrl_p, ctrl_u, delete,
}

-- The input a reader may have, and the line being edited, oldest first.
pub record Input : Type 0 where
  pub ready : List ℕ
  pub line : List ℕ

unfoldable pub all_but_last : List ℕ → List ℕ
all_but_last [] = []
all_but_last (_ ∷ []) = []
all_but_last (x ∷ (y ∷ l)) = x ∷ all_but_last (y ∷ l)

-- A character joins the line; a newline, an end of file or a full buffer completes it.
abbrev pub typed : ℕ → Input → Input
typed ch i =
    let line = i.line ++ (ch ∷ []) in
    if ch == newline || ch == ctrl_d || length (i.ready ++ line) == input_buf_size
    then record { ready = i.ready ++ line; line = [] }
    else record { ready = i.ready; line = line }

-- A key is pressed.
unfoldable pub keystroke : ℕ → Input → Input
keystroke c i =
    if c == ctrl_p
    then i
    else if c == ctrl_u
    then record { ready = i.ready; line = [] }
    else if c == ctrl_h || c == delete
    then record { ready = i.ready; line = all_but_last i.line }
    else if not (c == 0) && ltb (length (i.ready ++ i.line)) input_buf_size
    then typed (if c == carriage_return then newline else c) i
    else i

pub wraps : (a j : ℕ) → (a % int_mod + j) % input_buf_size ≡ (a + j) % input_buf_size
wraps a j = omega arith

abbrev pub ring : (ℕ → ℕ) → ℕ → ℕ → List ℕ
ring = window input_buf_size wraps

-- The input that the buffer holds.
abbrev pub input : Cons → Input
input s = record { ready = ring s.buf s.r (sub32 s.w s.r); line = ring s.buf s.w (sub32 s.e s.w) }

pub record IsValid (s : Cons) : Type 0 where
  pub r_in : s.r < int_mod
  pub w_in : s.w < int_mod
  pub e_in : s.e < int_mod
  pub ordered : sub32 s.w s.r + sub32 s.e s.w ≡ sub32 s.e s.r
  pub bounded : sub32 s.e s.r ≤ input_buf_size
  -- A full buffer has no line being edited, so a reader can make room.
  pub flushed : sub32 s.e s.r ≡ input_buf_size → s.e ≡ s.w
  pub no_newline : (j : ℕ) → j < sub32 s.e s.w → s.buf ((s.w + j) % input_buf_size) ≢ newline

pub all_but_last_snoc : (l : List ℕ) (x : ℕ) → all_but_last (l ++ (x ∷ [])) ≡ l
unfolding all_but_last
all_but_last_snoc [] x = refl
all_but_last_snoc (y ∷ []) x = refl
all_but_last_snoc (y ∷ (z ∷ l)) x = ap (λ k. y ∷ k) (all_but_last_snoc (z ∷ l) x)

pub length-ring : (d : ℕ → ℕ) (start k : ℕ) → length (ring d start k) ≡ k
unfolding window
length-ring d start zero = refl
length-ring d start (suc k) = ap suc (length-ring d (add32 start 1) k)

-- The whole buffer, one list behind the other.
pub input-whole :
    (s : Cons) → IsValid s → (input s).ready ++ (input s).line ≡ ring s.buf s.r (sub32 s.e s.r)
input-whole s v =
    let a = v.r_in in
    let b = v.w_in in
    let e : add32 s.r (sub32 s.w s.r) ≡ s.w = omega arith in
    rw
      (
        ← v.ordered,
        window-append input_buf_size wraps s.buf s.r (sub32 s.w s.r) (sub32 s.e s.w) v.r_in,
        e,
      )
      refl
