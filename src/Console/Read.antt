-- ===== src/Console/Read.antt =====
-- `consoleread` hands over the input in order, at most a line at a time (src/kernel/console.c).
use enhanced_xv.Base.{
  ℕ, zero, suc, ◌+◌, ◌%◌, ◌<◌, ◌≡◌, ◌≢◌, refl, sym, ◌∙◌, ap, Bool, true, not, List, [], ◌∷◌,
  if◌then◌else◌, ◌==◌, ltb, add32, sub32, window, arith, Bool-cases, inl, inr, subst, int_half,
  int_lt,
}
use enhanced_xv.Console.{
  Cons, input_buf_size, newline, ctrl_d, Reading, returns, sleeps, refused, copied, read_loop,
  consoleread,
}
use enhanced_xv.Console.Line.{input, IsValid}

-- What a reader is to see: how many bytes it lacks as it is done or waits, or -1; the input that remains, and what
-- it got.
pub data Delivery : Type 0 where
  done waits : ℕ → List ℕ → List ℕ → Delivery
  stopped : List ℕ → List ℕ → Delivery

abbrev pub prepend : ℕ → Delivery → Delivery
prepend c (done n l out) = done n l (c ∷ out)
prepend c (waits n l out) = waits n l (c ∷ out)
prepend c (stopped l out) = stopped l (c ∷ out)

-- Reading from a list of bytes: up to a newline, up to an end of file (which stays if bytes were read before
-- it), and up to the first byte that cannot be copied out, which is lost; a reader that was killed (`dead`) stops
-- with -1 where another waits.
unfoldable pub deliver : (ℕ → Bool) → Bool → ℕ → ℕ → ℕ → List ℕ → Delivery
deliver writable dead target dst zero l = done zero l []
deliver writable dead target dst (suc n) [] = if dead then stopped [] [] else waits (suc n) [] []
deliver writable dead target dst (suc n) (c ∷ l) =
    let rest = prepend c (deliver writable dead target (dst + 1) n l) in
    if c == ctrl_d
    then done (suc n) (if ltb (suc n) target then c ∷ l else l) []
    else if not (writable dst)
    then done (suc n) l []
    else if c == newline
    then done n l (c ∷ [])
    else rest

abbrev pub seen : Reading → Delivery
seen (returns n s out) = done n (input s).ready out
seen (sleeps n s out) = waits n (input s).ready out
seen (refused s out) = stopped (input s).ready out

abbrev pub left : Reading → Cons
left (returns n s out) = s
left (sleeps n s out) = s
left (refused s out) = s

seen-copied : (c : ℕ) (r : Reading) → seen (copied c r) ≡ prepend c (seen r)
seen-copied c (returns n s out) = refl
seen-copied c (sleeps n s out) = refl
seen-copied c (refused s out) = refl

left-copied : (c : ℕ) (r : Reading) → left (copied c r) ≡ left r
left-copied c (returns n s out) = refl
left-copied c (sleeps n s out) = refl
left-copied c (refused s out) = refl

abbrev advance : Cons → Cons
advance s = record s { r = add32 s.r 1 }

advance_lem :
    (s : Cons)
    → IsValid s
    → s.r ≢ s.w
    → IsValid (advance s)
      × ((input s).ready ≡ s.buf (s.r % input_buf_size) ∷ (input (advance s)).ready)
unfolding window
advance_lem s v ne =
    let a = v.r_in in
    let b = v.w_in in
    let c = v.e_in in
    let d = v.bounded in
    let o = v.ordered in
    let rest : ℕ = sub32 s.w (add32 s.r 1) in
    let shrunk : sub32 s.w s.r ≡ suc rest = omega arith in
    (
      record {
        r_in = omega arith;
        w_in = b;
        e_in = c;
        ordered = omega arith;
        bounded = omega arith;
        flushed = λ full. absurd (omega arith);
        no_newline = v.no_newline;
      },
      rw shrunk refl,
    )

nothing_ready : (s : Cons) → s.r ≡ s.w → (input s).ready ≡ []
unfolding window
nothing_ready s same = let none_left : sub32 s.w s.r ≡ 0 = omega arith in rw none_left refl

read_loop_lem :
    (writable : ℕ → Bool) (dead : Bool) (target dst n : ℕ) (s : Cons)
    → IsValid s
    → (seen (read_loop writable dead target dst n s)
        ≡ deliver writable dead target dst n (input s).ready)
      × IsValid (left (read_loop writable dead target dst n s))
      × ((input (left (read_loop writable dead target dst n s))).line ≡ (input s).line)
unfolding read_loop deliver
read_loop_lem writable dead target dst zero s v = (refl, v, refl)
read_loop_lem writable dead target dst (suc n) s v = elim (Bool-cases (s.r == s.w)) [
  | inl same ↦
      let dry = nothing_ready s (ground arith) in
      elim (Bool-cases dead) [
        | inl killed ↦ (
          rw (read_loop, same, dry, killed) (ap (λ l. stopped l []) dry),
          rw (read_loop, same, killed) v,
          rw (read_loop, same, killed) refl,
        )
        | inr alive ↦ (
          rw (read_loop, same, dry, alive) (ap (λ l. waits (suc n) l []) dry),
          rw (read_loop, same, alive) v,
          rw (read_loop, same, alive) refl,
        )
      ]
  | inr apart ↦
      let (v', e) = advance_lem s v (ground arith) in
      let c : ℕ = s.buf (s.r % input_buf_size) in
      elim (Bool-cases (c == ctrl_d)) [
        | inl d ↦ elim (Bool-cases (ltb (suc n) target)) [
          | inl some_read ↦ (
            rw (e, read_loop, deliver, apart, d, some_read) (ap (λ l. done (suc n) l []) e),
            rw (read_loop, apart, d, some_read) v,
            rw (read_loop, apart, d, some_read) refl,
          )
          | inr first ↦ (
            rw (e, read_loop, deliver, apart, d, first) refl,
            rw (read_loop, apart, d, first) v',
            rw (read_loop, apart, d, first) refl,
          )
        ]
        | inr d ↦ elim (Bool-cases (writable dst)) [
          | inr bad ↦ (
            rw (e, read_loop, deliver, apart, d, bad) refl,
            rw (read_loop, apart, d, bad) v',
            rw (read_loop, apart, d, bad) refl,
          )
          | inl good ↦ elim (Bool-cases (c == newline)) [
            | inl nl ↦ (
              rw (e, read_loop, deliver, apart, d, good, nl) refl,
              rw (read_loop, apart, d, good, nl) v',
              rw (read_loop, apart, d, good, nl) refl,
            )
            | inr more ↦
                let (l, ok, same_line) =
                  read_loop_lem writable dead target (dst + 1) n (advance s) v' in
                let r = read_loop writable dead target (dst + 1) n (advance s) in
                (
                  rw (e, read_loop, deliver, apart, d, good, more)
                      (seen-copied c r ∙ ap (prepend c) l),
                  rw (read_loop, apart, d, good, more) (subst IsValid (sym (left-copied c r)) ok),
                  rw (read_loop, apart, d, good, more)
                      (ap (λ k. (input k).line) (left-copied c r) ∙ same_line),
                )
          ]
        ]
      ]
]

-- A run of consoleread over a valid buffer ends as reading the list of ready bytes should: it returns with
-- the count of bytes it lacks; or when bytes are lacking and no byte is ready, it returns -1 if the reader was
-- killed and sleeps otherwise; it hands over the oldest ready bytes, in order
-- and up to a newline, an end of file or the first byte that cannot be copied out, and the rest stays
-- ready; it keeps the buffer valid and the line being edited as it is.
pub consoleread_lem :
    (writable : ℕ → Bool) (dead : Bool) (dst n : ℕ) (s : Cons)
    → n < int_half
    → IsValid s
    → (seen (consoleread writable dead dst n s) ≡ deliver writable dead n dst n (input s).ready)
      × IsValid (left (consoleread writable dead dst n s))
      × ((input (left (consoleread writable dead dst n s))).line ≡ (input s).line)
unfolding consoleread deliver
consoleread_lem writable dead dst zero s small v = (refl, v, refl)
consoleread_lem writable dead dst (suc n) s small v =
    let positive : int_lt 0 (suc n) ≡ true = ground arith in
    rw (consoleread, positive) (read_loop_lem writable dead (suc n) dst (suc n) s v)
