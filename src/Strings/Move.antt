-- ===== src/Strings/Move.antt =====
-- `memmove`, `memcmp` and `memset` (src/kernel/string.c).
use enhanced_xv.Base.{
  ℕ, zero, suc, ◌+◌, ◌<◌, ◌≤◌, ◌≡◌, false, ◌==◌, arith, ◌↔◌, Bool-cases, inl, inr, ◌⊎◌, ◌∙◌, update,
  sym, update_ne, update_self, refl, sub32, ◌≢◌, ap,
}
use enhanced_xv.Strings.{Bytes, memcmp, memmove, copy_backward, copy_forward}

copy_backward-outside :
    (dst src n : ℕ) (m : Bytes) (a : ℕ)
    → (a < dst) ⊎ (dst + n ≤ a)
    → copy_backward dst src n m a ≡ m a
unfolding copy_backward
copy_backward-outside dst src zero m a h = refl
copy_backward-outside dst src (suc n) m a h =
    copy_backward-outside dst src n _ a (omega arith) ∙ update_ne m (dst + n) _ a (omega arith)

copy_backward-inside :
    (dst src n : ℕ) (m : Bytes) (off : ℕ)
    → src < dst
    → off < n
    → copy_backward dst src n m (dst + off) ≡ m (src + off)
unfolding copy_backward
copy_backward-inside dst src zero m off lt h = elim h [ ]
copy_backward-inside dst src (suc n) m off lt h =
    let m' : Bytes = update m (dst + n) (m (src + n)) in
    elim (Bool-cases (off == n)) [
      | inl e ↦
          let e' : off ≡ n = ground arith in
          rw e'
            (copy_backward-outside dst src n m' (dst + n) (omega arith) ∙ update_self m (dst + n) _)
      | inr e ↦
          copy_backward-inside dst src n m' off lt (ground arith)
          ∙ update_ne m (dst + n) _ (src + off) (ground arith)
    ]

copy_forward-outside :
    (dst src n : ℕ) (m : Bytes) (a : ℕ)
    → (a < dst) ⊎ (dst + n ≤ a)
    → copy_forward dst src n m a ≡ m a
unfolding copy_forward
copy_forward-outside dst src zero m a h = refl
copy_forward-outside dst src (suc n) m a h =
    copy_forward-outside (dst + 1) (src + 1) n _ a (omega arith) ∙ update_ne m dst _ a (omega arith)

copy_forward-inside :
    (dst src n : ℕ) (m : Bytes) (off : ℕ)
    → (dst ≤ src) ⊎ (src + n ≤ dst)
    → off < n
    → copy_forward dst src n m (dst + off) ≡ m (src + off)
unfolding copy_forward
copy_forward-inside dst src zero m off h lt = elim lt [ ]
copy_forward-inside dst src (suc n) m zero h lt =
    let d : dst + 0 ≡ dst = omega arith in
    let s : src + 0 ≡ src = omega arith in
    rw (d, s)
      (copy_forward-outside (dst + 1) (src + 1) n (update m dst (m src)) dst (omega arith)
        ∙ update_self m dst (m src))
copy_forward-inside dst src (suc n) m (suc off) h lt =
    let step =
      copy_forward-inside (dst + 1) (src + 1) n (update m dst (m src)) off (omega arith)
        (omega arith) in
    let there : dst + 1 + off ≡ dst + suc off = omega arith in
    let here : src + 1 + off ≡ src + suc off = omega arith in
    rw (← there, ← here) (step ∙ update_ne m dst (m src) (src + 1 + off) (omega arith))

-- `memmove` gives the destination what the source range held before the call, also when the two ranges
-- overlap, and changes no other byte.
pub memmove_lem :
    (dst src n : ℕ) (m : Bytes)
    → ((off : ℕ) → off < n → memmove dst src n m (dst + off) ≡ m (src + off))
      × ((a : ℕ) → (a < dst) ⊎ (dst + n ≤ a) → memmove dst src n m a ≡ m a)
unfolding memmove
memmove_lem dst src n m = (
  λ off lt.
      ground (arith, copy_backward-inside dst src n m off, copy_forward-inside dst src n m off),
  λ a out. ground (arith, copy_backward-outside dst src n m a, copy_forward-outside dst src n m a),
)

add_one : (a i : ℕ) → a + 1 + i ≡ a + suc i
add_one a i = omega arith

compared_suc :
    (s1 s2 n : ℕ) (m : Bytes)
    → m s1 ≡ m s2
    → ((i : ℕ) → i < n → m (s1 + 1 + i) ≡ m (s2 + 1 + i))
    → (i : ℕ) → i < suc n
    → m (s1 + i) ≡ m (s2 + i)
compared_suc s1 s2 n m same rest zero lt =
    let a : s1 + 0 ≡ s1 = omega arith in let b : s2 + 0 ≡ s2 = omega arith in rw (a, b) same
compared_suc s1 s2 n m same rest (suc i) lt =
    rw (← add_one s1 i, ← add_one s2 i) (rest i (omega arith))

different : (a b : ℕ) → a < 256 → b < 256 → (a == b) ≡ false → sub32 a b ≢ 0
different a b ha hb ne h = ground arith

first_differs :
    (s1 s2 n : ℕ) (m : Bytes)
    → ((i : ℕ) → i < suc n → m (s1 + i) ≡ m (s2 + i))
    → (m s1 == m s2) ≢ false
first_differs s1 s2 n m h =
    let a : s1 + 0 ≡ s1 = omega arith in
    let b : s2 + 0 ≡ s2 = omega arith in
    let same : m s1 ≡ m s2 = sym (ap m a) ∙ h 0 (omega arith) ∙ ap m b in ground arith

-- `memcmp` returns 0 exactly when the two ranges of bytes are equal.
pub memcmp-zero :
    (s1 s2 n : ℕ) (m : Bytes)
    → ((a : ℕ) → m a < 256)
    → (memcmp s1 s2 n m ≡ 0) ↔ ((i : ℕ) → i < n → m (s1 + i) ≡ m (s2 + i))
unfolding memcmp
memcmp-zero s1 s2 zero m bytes = (λ _ i lt. elim lt [ ], λ _. refl)
memcmp-zero s1 s2 (suc n) m bytes = elim (Bool-cases (m s1 == m s2)) [
  | inl e ↦
      let same : m s1 ≡ m s2 = ground arith in
      let rest = memcmp-zero (s1 + 1) (s2 + 1) n m bytes in
      (
        λ h. compared_suc s1 s2 n m same (rest.0 (sym (rw e refl) ∙ h)),
        λ h. rw e (rest.1 (λ i lt. rw (add_one s1 i, add_one s2 i) (h (suc i) (omega arith)))),
      )
  | inr e ↦ (
    λ h i lt. elim (different (m s1) (m s2) (bytes s1) (bytes s2) e (sym (rw e refl) ∙ h)) [ ],
    λ h. elim (first_differs s1 s2 n m h e) [ ],
  )
]
