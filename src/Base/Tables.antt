-- ===== src/Base/Tables.antt =====
-- Arrays of a fixed length as functions from the index, and the loops that go over them in order.
use Prim.Native.Nat.{ℕ, zero, suc, ◌<◌}
use mathlib.Core.Path.{◌≡◌, ◌∙◌, refl, fun_ext}
use mathlib.Core.Logic.{◌≢◌, inl, inr}
use mathlib.Core.Bool.{Bool, true, false}
use mathlib.Core.Option.{Option, none, some}
use native.Mathlib.Omega.{arith}
use enhanced_xv.Base.Tests.{ltb, ◌==◌, if◌then◌else◌, Option-cases}

-- A write to one entry.
abbrev pub update {ℓ} : {A : Type ℓ} → (ℕ → A) → ℕ → A → ℕ → A
update f i a j = if i == j then a else f j

-- `for (i = 0; i < n; i++) s = body(i, s);`
unfoldable pub each {ℓ} : {S : Type ℓ} → (ℕ → S → S) → ℕ → S → S
each body zero s = s
each body (suc n) s = body n (each body n s)

-- `for (i = 0; i < n; i++) f[i] = g(i, f[i]);`
unfoldable pub each_entry {ℓ} : {A : Type ℓ} → (ℕ → A → A) → ℕ → (ℕ → A) → ℕ → A
unfolding each
each_entry g = each (λ i f. update f i (g i (f i)))

-- Such a loop changes each entry below the bound once, and no other.
pub each_entry_lem {ℓ} :
    {A : Type ℓ} (g : ℕ → A → A) (n : ℕ) (f : ℕ → A) (j : ℕ)
    → each_entry g n f j ≡ (if ltb j n then g j (f j) else f j)
unfolding each_entry each
each_entry_lem g zero f j = ground arith
each_entry_lem g (suc n) f j = ground (arith, each_entry_lem g n f j, each_entry_lem g n f n)

-- The first index below `n` that passes the test.
unfoldable pub find_first : (ℕ → Bool) → ℕ → Option ℕ
find_first test zero = none
find_first test (suc n) = elim (find_first test n) [
  | some i ↦ some i
  | none ↦ if test n then some n else none
]

pub find_first-none :
    (test : ℕ → Bool) (n : ℕ) → find_first test n ≡ none → (j : ℕ) → j < n → test j ≡ false
unfolding find_first
find_first-none test zero h j lt = elim lt [ ]
find_first-none test (suc n) h j lt = elim (Option-cases (find_first test n)) [
  | inl e ↦ ground (arith, find_first-none test n e j)
  | inr (i, e) ↦ ground (arith, e)
]

-- What it finds passes the test, and nothing before it does.
pub find_first-some :
    (test : ℕ → Bool) (n i : ℕ)
    → find_first test n ≡ some i
    → (i < n) × (test i ≡ true) × ((j : ℕ) → j < i → test j ≡ false)
unfolding find_first
find_first-some test zero i h = cc
find_first-some test (suc n) i h = elim (Option-cases (find_first test n)) [
  | inl e ↦
      (ground (arith, e), ground (arith, e), λ j lt. ground (arith, e, find_first-none test n e j))
  | inr (k, e) ↦
      let e' : k ≡ i = ground (arith, e) in
      let (lt, t, before) = find_first-some test n k e in
      (ground arith, rw (← e') t, λ j jlt. before j (ground arith))
]

pub update_same {ℓ} : {A : Type ℓ} (f : ℕ → A) (i : ℕ) → update f i (f i) ≡ f
update_same f i = fun_ext λ j. ground arith

pub update_self {ℓ} : {A : Type ℓ} (f : ℕ → A) (i : ℕ) (a : A) → update f i a i ≡ a
update_self f i a = ground arith

pub update_ne {ℓ} : {A : Type ℓ} (f : ℕ → A) (i : ℕ) (a : A) (j : ℕ) → j ≢ i → update f i a j ≡ f j
update_ne f i a j ne = ground arith

pub update-update {ℓ} :
    {A : Type ℓ} (f : ℕ → A) (i : ℕ) (a b : A) → update (update f i a) i b ≡ update f i b
update-update f i a b = fun_ext λ j. ground arith

-- What the body of a loop keeps, the loop keeps.
pub each_keeps {ℓ κ} :
    {S : Type ℓ} {B : Type κ} (f : S → B) (body : ℕ → S → S)
    → ((i : ℕ) (s : S) → f (body i s) ≡ f s)
    → (n : ℕ) (s : S) → f (each body n s) ≡ f s
unfolding each
each_keeps f body h zero s = refl
each_keeps f body h (suc n) s = h n (each body n s) ∙ each_keeps f body h n s
