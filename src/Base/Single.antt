-- ===== src/Base/Single.antt =====
-- Tables that hold a thing at most once.
use Prim.Native.Nat.{ℕ, ◌<◌}
use mathlib.Core.Path.{◌≡◌, refl, sym, ◌∙◌, subst}
use mathlib.Core.Logic.{◌≢◌, ◌⊎◌, inl, inr}
use native.Mathlib.Omega.{arith}
use enhanced_xv.Base.Tests.{◌==◌, Bool-cases}
use enhanced_xv.Base.Tables.{update}

pub update-cases {ℓ} :
    {A : Type ℓ} (t : ℕ → A) (i : ℕ) (x : A) (j : ℕ)
    → ((i ≡ j) × (update t i x j ≡ x)) ⊎ ((j ≢ i) × (update t i x j ≡ t j))
update-cases t i x j = elim (Bool-cases (i == j)) [
  | inl e ↦ inl (ground arith, rw e refl)
  | inr e ↦ inr (ground arith, rw e refl)
]

-- `n` is the size of the table, `In` says which entries count, and `Same` which are about one thing.
module _ {ℓ} {A : Type ℓ} (n : ℕ) (In : A → Type 0) (Same : A → A → Type 0) where
  abbrev pub IsSingle : (ℕ → A) → Type 0
  IsSingle t = (i j : ℕ) → i < n → j < n → In (t i) → In (t j) → Same (t i) (t j) → i ≡ j

  -- An entry is changed, and no other that counts is about the same thing.
  pub IsSingle-update :
      ((x y : A) → Same x y → Same y x)
      → (t : ℕ → A) (i : ℕ) (x : A) → IsSingle t
      → (In x → (j : ℕ) → j < n → In (t j) → Same x (t j) → i ≡ j)
      → IsSingle (update t i x)
  IsSingle-update turn t i x s alone j k jlt klt jin kin same = elim (update-cases t i x j) [
    | inl (ej, tj) ↦ elim (update-cases t i x k) [
      | inl (ek, tk) ↦ sym ej ∙ ek
      | inr (nk, tk) ↦
          sym ej
          ∙ alone (subst In tj jin) k klt (subst In tk kin)
              (subst (Same x) tk (subst (λ y. Same y (update t i x k)) tj same))
    ]
    | inr (nj, tj) ↦ elim (update-cases t i x k) [
      | inl (ek, tk) ↦
          sym (
            alone (subst In tk kin) j jlt (subst In tj jin)
              (turn (t j) x (subst (Same (t j)) tk (subst (λ y. Same y (update t i x k)) tj same))))
          ∙ ek
      | inr (nk, tk) ↦
          s j k jlt klt (subst In tj jin) (subst In tk kin)
            (subst (Same (t j)) tk (subst (λ y. Same y (update t i x k)) tj same))
    ]
  ]
