-- ===== src/Console/Store.antt =====
-- A character that `consoleintr` stores in the buffer (src/kernel/console.c).
use mathlib.Core.List.{append_assoc}
use enhanced_xv.Base.{
  length, length-append, ℕ, suc, ◌+◌, ◌%◌, ◌<◌, ◌≡◌, ◌≢◌, refl, sym, ◌∙◌, ap, ◌||◌, [], ◌∷◌, ◌++◌,
  ◌==◌, add32, sub32, window, window-put, window-update, arith, update, update_ne, update_self,
  Bool-cases, inl, inr,
}
use enhanced_xv.Console.{Cons, Console, input_buf_size, newline, ctrl_d, store}
use enhanced_xv.Console.Line.{typed, wraps, ring, input, IsValid, length-ring, input-whole}

-- The buffer with a character behind the line.
abbrev kept : ℕ → Cons → Cons
kept ch s = record s { buf = update s.buf (s.e % input_buf_size) ch; e = add32 s.e 1 }

-- It holds what it held, and the character.
kept_whole :
    (ch : ℕ) (s : Cons)
    → IsValid s
    → sub32 s.e s.r < input_buf_size
    → ring (kept ch s).buf s.r (sub32 (add32 s.e 1) s.r)
      ≡ ring s.buf s.r (sub32 s.e s.r) ++ (ch ∷ [])
kept_whole ch s v room =
    let size : ℕ = sub32 s.e s.r in
    let a = v.r_in in
    let c = v.e_in in
    let grown : sub32 (add32 s.e 1) s.r ≡ suc size = omega arith in
    let slot : s.e % input_buf_size ≡ (s.r + size) % input_buf_size = omega arith in
    rw (grown, slot) (window-put input_buf_size wraps s.buf s.r size ch (λ j lt. omega arith))

kept_ready :
    (ch : ℕ) (s : Cons)
    → IsValid s
    → sub32 s.e s.r < input_buf_size
    → ring (kept ch s).buf s.r (sub32 s.w s.r) ≡ ring s.buf s.r (sub32 s.w s.r)
kept_ready ch s v room =
    let a = v.r_in in
    let b = v.w_in in
    let c = v.e_in in
    let o = v.ordered in
    window-update input_buf_size wraps s.buf s.r (sub32 s.w s.r) (s.e % input_buf_size) ch
      (λ j lt. omega arith)

kept_line :
    (ch : ℕ) (s : Cons)
    → IsValid s
    → sub32 s.e s.r < input_buf_size
    → ring (kept ch s).buf s.w (sub32 (add32 s.e 1) s.w)
      ≡ ring s.buf s.w (sub32 s.e s.w) ++ (ch ∷ [])
kept_line ch s v room =
    let size : ℕ = sub32 s.e s.w in
    let a = v.r_in in
    let b = v.w_in in
    let c = v.e_in in
    let o = v.ordered in
    let grown : sub32 (add32 s.e 1) s.w ≡ suc size = omega arith in
    let slot : s.e % input_buf_size ≡ (s.w + size) % input_buf_size = omega arith in
    rw (grown, slot) (window-put input_buf_size wraps s.buf s.w size ch (λ j lt. omega arith))

-- The line goes on.
kept-IsValid :
    (ch : ℕ) (s : Cons)
    → IsValid s
    → sub32 s.e s.r < input_buf_size
    → ch ≢ newline
    → sub32 (add32 s.e 1) s.r ≢ input_buf_size
    → IsValid (kept ch s)
kept-IsValid ch s v room apart short =
    let a = v.r_in in
    let b = v.w_in in
    let c = v.e_in in
    let o = v.ordered in
    record {
      r_in = a;
      w_in = b;
      e_in = omega arith;
      ordered = omega arith;
      bounded = omega arith;
      flushed = λ full. absurd (short full);
      no_newline = λ j lt. elim (Bool-cases (j == sub32 s.e s.w)) [
        | inl last ↦
            let slot : s.e % input_buf_size ≡ (s.w + j) % input_buf_size = ground arith in
            λ q. apart (
              sym (update_self s.buf (s.e % input_buf_size) ch)
              ∙ ap (update s.buf (s.e % input_buf_size) ch) slot
              ∙ q)
        | inr before ↦
            let other : (s.w + j) % input_buf_size ≢ s.e % input_buf_size = ground arith in
            λ q.
              v.no_newline j (ground arith)
                (sym (update_ne s.buf (s.e % input_buf_size) ch _ other) ∙ q)
      ];
    }

-- The line is complete.
committed-IsValid :
    (ch : ℕ) (s : Cons)
    → IsValid s
    → sub32 s.e s.r < input_buf_size
    → IsValid (record (kept ch s) { w = add32 s.e 1 })
committed-IsValid ch s v room =
    let a = v.r_in in
    let b = v.w_in in
    let c = v.e_in in
    record {
      r_in = a;
      w_in = omega arith;
      e_in = omega arith;
      ordered = omega arith;
      bounded = omega arith;
      flushed = λ _. refl;
      no_newline = λ j lt. absurd (omega arith);
    }

pub length-whole :
    (s : Cons) → IsValid s → length ((input s).ready ++ (input s).line) ≡ sub32 s.e s.r
length-whole s v = ap length (input-whole s v) ∙ length-ring s.buf s.r (sub32 s.e s.r)

length-kept :
    (ch : ℕ) (s : Cons)
    → IsValid s
    → sub32 s.e s.r < input_buf_size
    → length ((input s).ready ++ ((input s).line ++ (ch ∷ []))) ≡ sub32 (add32 s.e 1) s.r
length-kept ch s v room =
    let a = v.r_in in
    let c = v.e_in in
    ap length (sym (append_assoc (input s).ready (input s).line (ch ∷ [])))
    ∙ length-append ((input s).ready ++ (input s).line) (ch ∷ [])
    ∙ ap (λ n. n + 1) (length-whole s v)
    ∙ omega arith

committed-input :
    (ch : ℕ) (s : Cons)
    → IsValid s
    → sub32 s.e s.r < input_buf_size
    → input (record (kept ch s) { w = add32 s.e 1 })
      ≡ record { ready = (input s).ready ++ ((input s).line ++ (ch ∷ [])); line = [] }
unfolding window
committed-input ch s v room =
    let none_left : sub32 (add32 s.e 1) (add32 s.e 1) ≡ 0 = omega arith in
    rw
      (
        none_left,
        kept_whole ch s v room,
        ← input-whole s v,
        append_assoc (input s).ready (input s).line (ch ∷ []),
      )
      refl

-- The default case.
pub store_lem :
    (now me chan ch : ℕ) (s : Console)
    → IsValid s.cons
    → sub32 s.cons.e s.cons.r < input_buf_size
    → IsValid (store now me chan ch s).cons
      × (input (store now me chan ch s).cons ≡ typed ch (input s.cons))
store_lem now me chan ch s v room =
    let k : Cons = s.cons in
    let full = length-kept ch k v room in
    elim (Bool-cases (ch == newline || ch == ctrl_d || sub32 (add32 k.e 1) k.r == input_buf_size)) [
      | inl done ↦
          (rw done (committed-IsValid ch k v room), rw (full, done) (committed-input ch k v room))
      | inr on ↦
          let (apart, short) : (ch ≢ newline) × (sub32 (add32 k.e 1) k.r ≢ input_buf_size) =
            (ground arith, ground arith) in
          (
            rw on (kept-IsValid ch k v room apart short),
            rw (full, on, kept_ready ch k v room, kept_line ch k v room) refl,
          )
    ]
