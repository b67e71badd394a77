-- ===== src/Strings.antt =====
-- src/kernel/string.c: the byte and string routines. Memory is a function from the address to the byte; a
-- `uint` or `int` length is a count of bytes, and no range wraps round the address space.
use enhanced_xv.Base.{
  ℕ, zero, suc, ◌+◌, ◌-◌, ◌%◌, Bool, true, false, not, ◌&&◌, Option, none, some, if◌then◌else◌,
  ◌==◌, ltb, leb, update, each, int_mod, sub32,
}
pub mod Move
pub mod Text

abbrev pub Bytes : Type 0
Bytes = ℕ → ℕ

memset : ℕ → ℕ → ℕ → Bytes → Bytes
memset dst c = each (λ i m. update m (dst + i) (c % 256))

-- `*s1 - *s2` of two bytes, as the pattern of an `int`.
pub memcmp : ℕ → ℕ → ℕ → Bytes → ℕ
memcmp s1 s2 zero m = 0
memcmp s1 s2 (suc n) m =
    let rest = memcmp (s1 + 1) (s2 + 1) n m in if m s1 == m s2 then rest else sub32 (m s1) (m s2)

-- The two loops of `memmove`: from the last byte, and from the first.
pub copy_backward : ℕ → ℕ → ℕ → Bytes → Bytes
copy_backward dst src zero m = m
copy_backward dst src (suc n) m = copy_backward dst src n (update m (dst + n) (m (src + n)))

pub copy_forward : ℕ → ℕ → ℕ → Bytes → Bytes
copy_forward dst src zero m = m
copy_forward dst src (suc n) m = copy_forward (dst + 1) (src + 1) n (update m dst (m src))

pub memmove : ℕ → ℕ → ℕ → Bytes → Bytes
memmove dst src n m =
    if n == 0
    then m
    else if ltb src dst && ltb dst (src + n)
    then copy_backward dst src n m
    else copy_forward dst src n m

strncmp : ℕ → ℕ → ℕ → Bytes → ℕ
strncmp p q zero m = 0
strncmp p q (suc n) m =
    let rest = strncmp (p + 1) (q + 1) n m in
    if not (m p == 0) && m p == m q then rest else sub32 (m p) (m q)

zero_fill : ℕ → ℕ → Bytes → Bytes
zero_fill s zero m = m
zero_fill s (suc n) m = zero_fill (s + 1) n (update m s 0)

strncpy : ℕ → ℕ → ℕ → Bytes → Bytes
strncpy s t zero m = m
strncpy s t (suc n) m =
    let m' = update m s (m t) in
    let rest = strncpy (s + 1) (t + 1) n m' in if m t == 0 then zero_fill (s + 1) n m' else rest

-- `safestrcpy` with room for `n + 1` bytes.
pub copy_string : ℕ → ℕ → ℕ → Bytes → Bytes
copy_string s t zero m = update m s 0
copy_string s t (suc n) m =
    let m' = update m s (m t) in
    let rest = copy_string (s + 1) (t + 1) n m' in if m t == 0 then update m' (s + 1) 0 else rest

pub safestrcpy : ℕ → ℕ → ℕ → Bytes → Bytes
safestrcpy s t zero m = m
safestrcpy s t (suc n) m = copy_string s t n m

-- `strlen` on fuel: none when no NUL is met.
pub strlen : ℕ → ℕ → Bytes → Option ℕ
strlen zero s m = none
strlen (suc fuel) s m =
    if m s == 0
    then some 0
    else elim (strlen fuel (s + 1) m) [ none ↦ none | some k ↦ some (k + 1) ]
