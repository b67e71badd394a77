-- ===== src/Sched/Lex.antt =====
-- Lexicographic comparison of two or three numbers is a strict weak order.
use enhanced_xv.Base.{ℕ, ◌≡◌, Bool, true, false, ◌&&◌, ◌||◌, arith, ltb, ◌==◌}

abbrev lex2 : ℕ → ℕ → ℕ → ℕ → Bool
lex2 a b a' b' = ltb a a' || a == a' && ltb b b'

abbrev lex3 : ℕ → ℕ → ℕ → ℕ → ℕ → ℕ → Bool
lex3 a b c a' b' c' = ltb a a' || a == a' && ltb b b' || a == a' && b == b' && ltb c c'

pub lex2_irrefl : (a b : ℕ) → lex2 a b a b ≡ false
lex2_irrefl a b = ground arith

pub lex3_irrefl : (a b c : ℕ) → lex3 a b c a b c ≡ false
lex3_irrefl a b c = ground arith

module _ (a b c a' b' c' a'' b'' c'' : ℕ) where
  pub lex2_trans : lex2 a b a' b' ≡ true → lex2 a' b' a'' b'' ≡ true → lex2 a b a'' b'' ≡ true
  lex2_trans h k = ground arith

  pub lex2_weak : lex2 a b a' b' ≡ true → lex2 a'' b'' a' b' ≡ false → lex2 a b a'' b'' ≡ true
  lex2_weak h k = ground arith

  pub lex3_trans :
      lex3 a b c a' b' c' ≡ true → lex3 a' b' c' a'' b'' c'' ≡ true → lex3 a b c a'' b'' c'' ≡ true
  lex3_trans h k = ground arith

  pub lex3_weak :
      lex3 a b c a' b' c' ≡ true → lex3 a'' b'' c'' a' b' c' ≡ false → lex3 a b c a'' b'' c'' ≡ true
  lex3_weak h k = ground arith
