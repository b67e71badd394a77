-- ===== src/Strings/Text.antt =====
-- NUL-terminated strings: `strlen`, `strncmp` and `safestrcpy` (src/kernel/string.c).
use enhanced_xv.Base.{
  ℕ, zero, suc, ◌+◌, ◌<◌, ◌≤◌, ◌≡◌, ◌≢◌, false, some, ◌==◌, arith, Bool-cases, inl, inr, update,
  ◌⊎◌, update_self,
}
use enhanced_xv.Strings.{Bytes, strlen, copy_string, safestrcpy}

-- The first NUL from `s` on is at `s + len`.
pub record IsString (s len : ℕ) (m : Bytes) : Type 0 where
  pub ended : m (s + len) ≡ 0
  pub inside : (i : ℕ) → i < len → m (s + i) ≢ 0

IsString-tail : (s len : ℕ) (m : Bytes) → IsString s (suc len) m → IsString (s + 1) len m
IsString-tail s len m h = record {
  ended = let e : s + 1 + len ≡ s + suc len = omega arith in rw e h.ended;
  inside =
      λ i lt. let e : s + 1 + i ≡ s + suc i = omega arith in rw e (h.inside (suc i) (omega arith));
}

-- The loop of `strlen` stops on every string, with its length.
pub strlen_lem : (len s : ℕ) (m : Bytes) → IsString s len m → strlen (suc len) s m ≡ some len
unfolding strlen
strlen_lem zero s m h = ground (arith, h.ended)
strlen_lem (suc len) s m h =
    let rest = strlen_lem len (s + 1) m (IsString-tail s len m h) in
    let first : (m s == 0) ≡ false = ground (arith, h.inside 0) in
    let count : len + 1 ≡ suc len = omega arith in rw (first, rest, count)

copy_string-outside :
    (n s t : ℕ) (m : Bytes) (a : ℕ) → (a < s) ⊎ (s + n < a) → copy_string s t n m a ≡ m a
unfolding copy_string
copy_string-outside zero s t m a h = ground arith
copy_string-outside (suc n) s t m a h =
    ground (arith, copy_string-outside n (s + 1) (t + 1) (update m s (m t)) a)

-- `safestrcpy` with room for n bytes writes no byte outside of them.
pub safestrcpy-outside :
    (s t n : ℕ) (m : Bytes) (a : ℕ) → (a < s) ⊎ (s + n ≤ a) → safestrcpy s t n m a ≡ m a
unfolding safestrcpy
safestrcpy-outside s t zero m a h = ground arith
safestrcpy-outside s t (suc n) m a h = copy_string-outside n s t m a (omega arith)

copy_string-ends : (n s t : ℕ) (m : Bytes) → (k : ℕ) × (k ≤ n) × (copy_string s t n m (s + k) ≡ 0)
unfolding copy_string
copy_string-ends zero s t m = (0, omega arith, ground arith)
copy_string-ends (suc n) s t m = elim (Bool-cases (m t == 0)) [
  | inl e ↦ (1, omega arith, rw e (update_self (update m s (m t)) (s + 1) 0))
  | inr e ↦
      let (k, le, z) = copy_string-ends n (s + 1) (t + 1) (update m s (m t)) in
      let there : s + suc k ≡ s + 1 + k = omega arith in (suc k, omega arith, rw (e, there) z)
]

-- `safestrcpy` with room for at least one byte leaves a NUL within its room, whatever it copies.
pub safestrcpy-ends :
    (s t n : ℕ) (m : Bytes) → 0 < n → (k : ℕ) × (k < n) × (safestrcpy s t n m (s + k) ≡ 0)
unfolding safestrcpy
safestrcpy-ends s t zero m h = elim h [ ]
safestrcpy-ends s t (suc n) m h = let (k, le, z) = copy_string-ends n s t m in (k, omega arith, z)
