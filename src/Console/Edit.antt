-- ===== src/Console/Edit.antt =====
-- `consoleintr` edits the line as a key press should (src/kernel/console.c).
use enhanced_xv.Base.{
  ℕ, zero, suc, ◌+◌, ◌%◌, ◌≡◌, ◌≢◌, refl, sym, ◌∙◌, ap, false, not, ◌&&◌, ◌||◌, [], if◌then◌else◌,
  ◌==◌, ltb, sub32, window, window-snoc, arith, Bool-cases, inl, inr, subst,
}
use enhanced_xv.Console.{
  Cons, Console, input_buf_size, newline, carriage_return, ctrl_h, ctrl_p, ctrl_u, delete, erase,
  kill_line, consoleintr,
}
use enhanced_xv.Console.Store.{store_lem, length-whole}
use enhanced_xv.Console.Line.{
  all_but_last, keystroke, wraps, ring, input, IsValid, all_but_last_snoc,
}

-- The line loses its last character.
erase_lem :
    (s : Cons)
    → IsValid s
    → s.e ≢ s.w
    → IsValid (record s { e = sub32 s.e 1 })
      × (input (record s { e = sub32 s.e 1 })
          ≡ record { ready = (input s).ready; line = all_but_last (input s).line })
erase_lem s v ne =
    let e : ℕ = sub32 s.e 1 in
    let k : ℕ = sub32 e s.w in
    let a = v.r_in in
    let b = v.w_in in
    let c = v.e_in in
    let o = v.ordered in
    let d = v.bounded in
    let fewer : sub32 s.e s.w ≡ suc k = omega arith in
    (
      record {
        r_in = a;
        w_in = b;
        e_in = omega arith;
        ordered = omega arith;
        bounded = omega arith;
        flushed = λ full. absurd (omega arith);
        no_newline = λ j lt. v.no_newline j (omega arith);
      },
      rw
          (
            fewer,
            window-snoc input_buf_size wraps s.buf s.w k,
            all_but_last_snoc (ring s.buf s.w k) (s.buf ((s.w + k) % input_buf_size)),
          )
          refl,
    )

-- The loop of C('U') takes the whole line back, as it holds no newline, and leaves the process table alone.
kill_line_lem :
    (fuel : ℕ) (s : Console)
    → IsValid s.cons
    → sub32 s.cons.e s.cons.w ≡ fuel
    → (kill_line fuel s).cons ≡ record s.cons { e = s.cons.w }
unfolding kill_line
kill_line_lem zero s v h =
    let a = v.e_in in
    let b = v.w_in in
    let same : s.cons.e ≡ s.cons.w = omega arith in ap (λ e. record s.cons { e = e }) same
kill_line_lem (suc fuel) s v h =
    let a = v.r_in in
    let b = v.w_in in
    let c = v.e_in in
    let d = v.bounded in
    let o = v.ordered in
    let apart : (s.cons.e == s.cons.w) ≡ false = ground arith in
    let at_end : (s.cons.w + fuel) % input_buf_size ≡ sub32 s.cons.e 1 % input_buf_size =
      omega arith in
    let not_newline : s.cons.buf (sub32 s.cons.e 1 % input_buf_size) ≢ newline =
      λ q. v.no_newline fuel (omega arith) (ap s.cons.buf at_end ∙ q) in
    let more : (s.cons.buf (sub32 s.cons.e 1 % input_buf_size) == newline) ≡ false = ground arith in
    let (v', _) = erase_lem s.cons v (ground arith) in
    rw (apart, more) (kill_line_lem fuel (erase s) v' (omega arith))

nothing_to_erase :
    (s : Cons)
    → s.e ≡ s.w
    → input s ≡ record { ready = (input s).ready; line = all_but_last (input s).line }
unfolding window all_but_last
nothing_to_erase s same = let none_left : sub32 s.e s.w ≡ 0 = omega arith in rw none_left refl

-- The line is taken back.
killed_lem :
    (s : Cons)
    → IsValid s
    → IsValid (record s { e = s.w })
      × (input (record s { e = s.w }) ≡ record { ready = (input s).ready; line = [] })
unfolding window
killed_lem s v =
    let a = v.r_in in
    let b = v.w_in in
    let c = v.e_in in
    let d = v.bounded in
    let o = v.ordered in
    let zero_long : sub32 s.w s.w ≡ 0 = omega arith in
    (
      record {
        r_in = a;
        w_in = b;
        e_in = b;
        ordered = omega arith;
        bounded = omega arith;
        flushed = λ _. refl;
        no_newline = λ j lt. absurd (omega arith);
      },
      rw zero_long refl,
    )

-- A key press does to the buffer what it should do to the input: C('U') takes the line being edited back,
-- C('H') and delete its last character, C('P') and a null character leave it alone, and any other joins it unless 128
-- characters are held; a newline (or carriage return), an end of file or the 128th character completes
-- the line for readers. It keeps the buffer valid.
pub consoleintr_lem :
    (now me chan c : ℕ) (s : Console)
    → IsValid s.cons
    → IsValid (consoleintr now me chan c s).cons
      × (input (consoleintr now me chan c s).cons ≡ keystroke c (input s.cons))
unfolding consoleintr keystroke
consoleintr_lem now me chan c s v = elim (Bool-cases (c == ctrl_p)) [
  | inl p ↦ (rw (consoleintr, p) v, rw (consoleintr, keystroke, p) refl)
  | inr p ↦ elim (Bool-cases (c == ctrl_u)) [
    | inl u ↦
        let gone = kill_line_lem (sub32 s.cons.e s.cons.w) s v refl in
        let (v', i) = killed_lem s.cons v in
        (
          rw (consoleintr, p, u) (subst IsValid (sym gone) v'),
          rw (consoleintr, keystroke, p, u) (ap input gone ∙ i),
        )
    | inr u ↦ elim (Bool-cases (c == ctrl_h || c == delete)) [
      | inl h ↦ elim (Bool-cases (s.cons.e == s.cons.w)) [
        | inl same ↦ (
          rw (consoleintr, p, u, h, same) v,
          rw (consoleintr, keystroke, p, u, h, same) (nothing_to_erase s.cons (ground arith)),
        )
        | inr apart ↦
            let (v', i) = erase_lem s.cons v (ground arith) in
            (rw (consoleintr, p, u, h, apart) v', rw (consoleintr, keystroke, p, u, h, apart) i)
      ]
      | inr h ↦ elim (Bool-cases (not (c == 0) && ltb (sub32 s.cons.e s.cons.r) input_buf_size)) [
        | inl room ↦
            let (v', i) =
              store_lem now me chan (if c == carriage_return then newline else c) s v
                (ground arith) in
            (
              rw (consoleintr, p, u, h, room) v',
              rw (consoleintr, keystroke, p, u, h, length-whole s.cons v, room) i,
            )
        | inr full ↦ (
          rw (consoleintr, p, u, h, full) v,
          rw (consoleintr, keystroke, p, u, h, length-whole s.cons v, full) refl,
        )
      ]
    ]
  ]
]
