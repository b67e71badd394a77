-- ===== src/Uart/Queue.antt =====
-- The transmit buffer is a first-in first-out queue between `uartputc` and the device (src/kernel/uart.c).
use enhanced_xv.Base.{
  ℕ, zero, suc, ◌+◌, ◌-◌, ◌%◌, ◌^◌, ◌<◌, ◌≤◌, ◌≡◌, ◌≢◌, refl, sym, ◌∙◌, ap, ap₂, Bool, false, List,
  [], ◌∷◌, ◌++◌, ◌==◌, update, update_self, update_ne, arith, Bool-cases, inl, inr, ◌⊎◌,
}
use mathlib.Core.List.{append_assoc}
use enhanced_xv.Proc.{sleep_enter}
use enhanced_xv.Uart.{
  tx_buf_size, Uart, Context, send, start_loop, uartstart, sleeps, done, uartputc,
}

-- The `n` characters from counter `r` on.
unfoldable pub waiting_from : (ℕ → ℕ) → ℕ → ℕ → List ℕ
waiting_from buf r zero = []
waiting_from buf r (suc n) = buf (r % tx_buf_size) ∷ waiting_from buf (r + 1) n

unfoldable pub waiting : Uart → List ℕ
waiting u = waiting_from u.buf u.r (u.w - u.r)

-- Everything that was put, in order.
abbrev pub history : Uart → List ℕ
history u = u.sent ++ waiting u

-- The counters have not wrapped, and the buffer is not overrun.
pub record IsValid (u : Uart) : Type 0 where
  pub ordered : u.r ≤ u.w
  pub bounded : u.w ≤ u.r + tx_buf_size
  pub counted : u.w < 2 ^ 64

waiting_from-put :
    (buf : ℕ → ℕ) (r n slot ch : ℕ)
    → n < tx_buf_size
    → slot ≡ (r + n) % tx_buf_size
    → waiting_from (update buf slot ch) r (suc n) ≡ waiting_from buf r n ++ (ch ∷ [])
unfolding waiting_from
waiting_from-put buf r zero slot ch lt e =
    let here : slot ≡ r % tx_buf_size = omega arith in
    ap (λ x. x ∷ []) (ap (update buf slot ch) (sym here) ∙ update_self buf slot ch)
waiting_from-put buf r (suc n) slot ch lt e =
    ap₂ (λ x l. x ∷ l) (update_ne buf slot ch (r % tx_buf_size) (λ q. omega arith))
      (waiting_from-put buf (r + 1) n slot ch (omega arith) (omega arith))

-- A turn of `uartstart` sends the oldest character.
send_lem :
    (c : Context) (u : Uart)
    → IsValid u
    → u.w ≢ u.r
    → IsValid (send c u) × (history (send c u) ≡ history u) × (u.w - (send c u).r < u.w - u.r)
unfolding waiting waiting_from
send_lem c u v ne =
    let (a, b, d) : (u.r ≤ u.w) × (u.w ≤ u.r + tx_buf_size) × (u.w < 2 ^ 64) =
      (v.ordered, v.bounded, v.counted) in
    let next : (u.r + 1) % 2 ^ 64 ≡ u.r + 1 = omega arith in
    let left : u.w - u.r ≡ suc (u.w - (u.r + 1)) = omega arith in
    (
      record { ordered = omega arith; bounded = omega arith; counted = d },
      rw (next, left)
          (append_assoc u.sent (u.buf (u.r % tx_buf_size) ∷ [])
            (waiting_from u.buf (u.r + 1) (u.w - (u.r + 1)))),
      omega arith,
    )

-- How `uartstart` leaves the queue: with nothing added or lost, and not before the buffer is empty or the device said
-- that it is busy.
pub record IsStarted (ready : ℕ → Bool) (u u' : Uart) : Type 0 where
  pub valid : IsValid u'
  pub same : history u' ≡ history u
  pub stopped : (waiting u' ≡ []) ⊎ ((i : ℕ) × (u'.reads ≡ suc i) × (ready i ≡ false))

start_loop_lem :
    (ready : ℕ → Bool) (c : Context) (fuel : ℕ) (u : Uart)
    → IsValid u
    → u.w - u.r < fuel
    → IsStarted ready u (start_loop ready c fuel u)
unfolding start_loop waiting waiting_from
start_loop_lem ready c zero u v lt = absurd (omega arith)
start_loop_lem ready c (suc fuel) u v lt = elim (Bool-cases (u.w == u.r)) [
  | inl e ↦
      let none_left : u.w - u.r ≡ 0 = ground arith in
      rw (start_loop, e) (record { valid = v; same = refl; stopped = inl (rw none_left refl) })
  | inr e ↦ elim (Bool-cases (ready u.reads)) [
    | inr busy ↦
        rw (start_loop, e, busy)
          (record {
            valid = record { ordered = v.ordered; bounded = v.bounded; counted = v.counted };
            same = refl;
            stopped = inr (u.reads, omega arith, busy);
          })
    | inl idle ↦
        let (v', h, less) = send_lem c u v (ground arith) in
        let rest = start_loop_lem ready c fuel (send c u) v' (omega arith) in
        rw (start_loop, e, idle)
          (record { valid = rest.valid; same = rest.same ∙ h; stopped = rest.stopped })
  ]
]

-- On a buffer whose counters have not wrapped round: uartputc of a character sleeps only when 32 characters wait, and
-- then changes nothing of the queue. Otherwise the character comes after all that were put before it, and the
-- device has been given all of them, in that order, but for those that wait; characters wait only when the device said
-- that it was busy.
pub uartputc_lem :
    (ready : ℕ → Bool) (c : Context) (slot ch : ℕ) (u : Uart)
    → IsValid u
    → suc u.w < 2 ^ 64
    → ((u' : Uart) × (uartputc ready c slot ch u ≡ sleeps u')
        × (u.w ≡ u.r + tx_buf_size)
        × (history u' ≡ history u))
      ⊎ ((u' : Uart) × (uartputc ready c slot ch u ≡ done u')
          × IsValid u'
          × (history u' ≡ history u ++ (ch % 256 ∷ []))
          × ((waiting u' ≡ []) ⊎ ((i : ℕ) × (u'.reads ≡ suc i) × (ready i ≡ false))))
unfolding uartputc uartstart waiting
uartputc_lem ready c slot ch u v room =
    let (a, b, d) : (u.r ≤ u.w) × (u.w ≤ u.r + tx_buf_size) × (u.w < 2 ^ 64) =
      (v.ordered, v.bounded, v.counted) in
    elim (Bool-cases (u.w == (u.r + tx_buf_size) % 2 ^ 64)) [
      | inl full ↦ inl (
        record u { procs = sleep_enter c.chan slot u.procs },
        rw (uartputc, full) refl,
        ground arith,
        refl,
      )
      | inr free ↦
          let u1 : Uart = record u {
            buf = update u.buf (u.w % tx_buf_size) (ch % 256);
            w = (u.w + 1) % 2 ^ 64;
          } in
          let next : (u.w + 1) % 2 ^ 64 ≡ u.w + 1 = omega arith in
          let apart : u.w ≢ u.r + tx_buf_size = ground arith in
          let v1 : IsValid u1 = record {
            ordered = omega arith;
            bounded = omega arith;
            counted = omega arith;
          } in
          let s = start_loop_lem ready c 33 u1 v1 (omega arith) in
          let (at, long) : (u.w ≡ u.r + (u.w - u.r)) × (u.w + 1 - u.r ≡ suc (u.w - u.r)) =
            (omega arith, omega arith) in
          let added : history u1 ≡ history u ++ (ch % 256 ∷ []) =
            ap (λ l. u.sent ++ l)
              (rw (next, long)
                (waiting_from-put u.buf u.r (u.w - u.r) (u.w % tx_buf_size) (ch % 256) (omega arith)
                  (omega arith)))
            ∙ sym (append_assoc u.sent (waiting_from u.buf u.r (u.w - u.r)) (ch % 256 ∷ [])) in
          inr
            (start_loop ready c 33 u1, rw (uartputc, free) refl, s.valid, s.same ∙ added, s.stopped)
    ]
