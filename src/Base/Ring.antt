-- ===== src/Base/Ring.antt =====
-- A ring buffer whose 32-bit counters wrap: the bytes between two counters, in order.
use Prim.Native.Nat.{ℕ, zero, suc, ◌+◌, ◌%◌, ◌<◌}
use mathlib.Core.Path.{◌≡◌, ◌∙◌, refl, sym, ap}
use mathlib.Core.Logic.{◌≢◌}
use mathlib.Core.List.{List, [], ◌∷◌, ◌++◌}
use native.Mathlib.Omega.{arith}
use enhanced_xv.Base.Ints.{add32, int_mod}
use enhanced_xv.Base.Tables.{update, update_self, update_ne}

-- `size` is the length of the buffer; it divides 2 ^ 32, so a slot is the same whether or not the counter
-- has wrapped.
module _ (size : ℕ) (wraps : (a j : ℕ) → (a % int_mod + j) % size ≡ (a + j) % size) where
  unfoldable pub window : (ℕ → ℕ) → ℕ → ℕ → List ℕ
  window d start zero = []
  window d start (suc k) = d (start % size) ∷ window d (add32 start 1) k

  slot_next : (start j : ℕ) → (add32 start 1 + j) % size ≡ (start + suc j) % size
  slot_next start j =
      let e : start + 1 + j ≡ start + suc j = omega arith in
      wraps (start + 1) j ∙ ap (λ a. a % size) e

  -- A write to a slot outside the window.
  pub window-update :
      (d : ℕ → ℕ) (start k slot ch : ℕ)
      → ((j : ℕ) → j < k → (start + j) % size ≢ slot)
      → window (update d slot ch) start k ≡ window d start k
  unfolding window
  window-update d start zero slot ch h = refl
  window-update d start (suc k) slot ch h =
      let first : start % size ≢ slot =
        let e : start + 0 ≡ start = omega arith in
        λ q. h 0 (omega arith) (ap (λ x. x % size) e ∙ q) in
      let rest =
        window-update d (add32 start 1) k slot ch
          (λ j lt q. h (suc j) (omega arith) (sym (slot_next start j) ∙ q)) in
      rw (update_ne d slot ch (start % size) first, rest)

  pub window-snoc :
      (d : ℕ → ℕ) (start k : ℕ)
      → window d start (suc k) ≡ window d start k ++ (d ((start + k) % size) ∷ [])
  unfolding window
  window-snoc d start zero = let e : start + 0 ≡ start = omega arith in rw e
  window-snoc d start (suc k) =
      rw (← slot_next start k) (ap (λ l. d (start % size) ∷ l) (window-snoc d (add32 start 1) k))

  -- A write to the slot behind the window.
  pub window-put :
      (d : ℕ → ℕ) (start k ch : ℕ)
      → ((j : ℕ) → j < k → (start + j) % size ≢ (start + k) % size)
      → window (update d ((start + k) % size) ch) start (suc k) ≡ window d start k ++ (ch ∷ [])
  window-put d start k ch apart =
      let slot = (start + k) % size in
      window-snoc (update d slot ch) start k
      ∙ rw (window-update d start k slot ch apart, update_self d slot ch)

  pub window-append :
      (d : ℕ → ℕ) (start k m : ℕ)
      → start < int_mod
      → window d start (k + m) ≡ window d start k ++ window d (add32 start k) m
  unfolding window
  window-append d start zero m lt =
      let e : add32 start 0 ≡ start = omega arith in
      let e' : 0 + m ≡ m = omega arith in rw (e, e') refl
  window-append d start (suc k) m lt =
      let e : add32 (add32 start 1) k ≡ add32 start (suc k) = omega arith in
      let e' : suc k + m ≡ suc (k + m) = omega arith in
      rw (e', ← e)
        (ap (λ l. d (start % size) ∷ l) (window-append d (add32 start 1) k m (omega arith)))
