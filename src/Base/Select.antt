-- ===== src/Base/Select.antt =====
-- The loop that all three schedulers share: go through the table and keep the better candidate.
use Prim.Native.Nat.{ℕ, zero, suc, ◌<◌}
use mathlib.Core.Path.{◌≡◌, refl}
use mathlib.Core.Logic.{inl, inr}
use mathlib.Core.Bool.{Bool, true, false}
use mathlib.Core.Option.{Option, none, some}
use native.Mathlib.Omega.{arith}
use enhanced_xv.Base.Tests.{if◌then◌else◌, Bool-cases, Option-cases}

module _ {ℓ} {A : Type ℓ} (eligible : A → Bool) (better : A → A → Bool) where
  -- The body of the loop: `i` replaces the candidate if there is none, or if it is better.
  abbrev pub consider : (ℕ → A) → ℕ → Option ℕ → Option ℕ
  consider f i none = if eligible (f i) then some i else none
  consider f i (some k) =
      if eligible (f i) then (if better (f i) (f k) then some i else some k) else some k

  -- The candidate after the first `n` entries.
  unfoldable pub select : (ℕ → A) → Option ℕ → ℕ → Option ℕ
  select f init zero = init
  select f init (suc n) = consider f n (select f init n)

  -- The comparison of a scheduler is a strict weak order.
  pub record IsOrder : Type ℓ where
    pub irreflexive : (a : A) → better a a ≡ false
    pub transitive : (a b c : A) → better a b ≡ true → better b c ≡ true → better a c ≡ true
    pub weak : (a b c : A) → better a b ≡ true → better c b ≡ false → better a c ≡ true

  -- Nothing eligible among the first `n` entries beats entry `i`, and it beats those before it.
  pub record IsBest (f : ℕ → A) (n i : ℕ) : Type 0 where
    pub below : i < n
    pub fits : eligible (f i) ≡ true
    pub unbeaten : (j : ℕ) → j < n → eligible (f j) ≡ true → better (f j) (f i) ≡ false
    pub first : (j : ℕ) → j < i → eligible (f j) ≡ true → better (f i) (f j) ≡ true

  abbrev pub IsChoice : (ℕ → A) → ℕ → Option ℕ → Type 0
  IsChoice f n none = (j : ℕ) → j < n → eligible (f j) ≡ false
  IsChoice f n (some i) = IsBest f n i

  consider-IsChoice :
      IsOrder
      → (f : ℕ → A) (n : ℕ) (o : Option ℕ) → IsChoice f n o
      → IsChoice f (suc n) (consider f n o)
  consider-IsChoice ord f n none h = elim (Bool-cases (eligible (f n))) [
    | inl e ↦ rw e (record {
      below = ground arith;
      fits = e;
      unbeaten = λ j lt el. ground (arith, h j, ord.irreflexive (f j));
      first = λ j lt el. ground (arith, h j);
    })
    | inr e ↦ rw e (λ j lt. ground (arith, h j))
  ]
  consider-IsChoice ord f n (some k) h = elim (Bool-cases (eligible (f n))) [
    | inl e ↦ elim (Bool-cases (better (f n) (f k))) [
      | inl b ↦
          rw (e, b)
            (record {
              below = ground arith;
              fits = e;
              unbeaten = λ j lt el. ground (
                arith,
                b,
                h.unbeaten j,
                ord.irreflexive (f n),
                ord.weak (f n) (f k) (f j),
                ord.transitive (f n) (f j) (f n),
              );
              first = λ j lt el. ord.weak (f n) (f k) (f j) b (h.unbeaten j lt el);
            })
      | inr b ↦
          rw (e, b)
            (record {
              below = ground (arith, h.below);
              fits = h.fits;
              unbeaten = λ j lt el. ground (arith, b, h.unbeaten j);
              first = h.first;
            })
    ]
    | inr e ↦ rw e (record {
      below = ground (arith, h.below);
      fits = h.fits;
      unbeaten = λ j lt el. ground (arith, e, h.unbeaten j);
      first = h.first;
    })
  ]

  pub select-IsChoice : IsOrder → (f : ℕ → A) (n : ℕ) → IsChoice f n (select f none n)
  unfolding select
  select-IsChoice ord f zero = λ j lt. elim lt [ ]
  select-IsChoice ord f (suc n) =
      consider-IsChoice ord f n (select f none n) (select-IsChoice ord f n)

  select-below : (f : ℕ → A) (n i : ℕ) → select f none n ≡ some i → i < n
  unfolding select
  select-below f zero i h = cc
  select-below f (suc n) i h = elim (Option-cases (select f none n)) [
    | inl e ↦ ground (arith, e)
    | inr (k, e) ↦ ground (arith, e, select-below f n k e)
  ]

  -- The loop reads only the entries below its bound.
  pub select_cong :
      (f g : ℕ → A) (n : ℕ) → ((j : ℕ) → j < n → f j ≡ g j) → select f none n ≡ select g none n
  unfolding select
  select_cong f g zero h = refl
  select_cong f g (suc n) h = elim (Option-cases (select f none n)) [
    | inl e ↦ ground (arith, e, h n, select_cong f g n (λ j lt. h j (ground arith)))
    | inr (k, e) ↦
        ground
          (arith, e, h n, h k, select-below f n k e, select_cong f g n (λ j lt. h j (ground arith)))
  ]
