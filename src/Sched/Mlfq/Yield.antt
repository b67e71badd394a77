-- ===== src/Sched/Mlfq/Yield.antt =====
-- `mlfq_yield` has one of the outcomes on every timer interrupt.
use enhanced_xv.Base.{
  ℕ, ◌+◌, ◌<◌, ◌≡◌, ◌≢◌, inl, inr, sym, ap, ◌∙◌, Bool, some, true, false, arith, Bool-cases, ltb,
  int_lt, int_half, add32, update, leb, if◌then◌else◌, get_elem?,
}
use enhanced_xv.Proc.{Proc, ProcTable, is_runnable, is_running, nproc, yield}
use enhanced_xv.Sched.Mlfq.{scan, ticklim, tick, demote, requeue, numq, mlfq_yield}
use enhanced_xv.Sched.Mlfq.Aging.{aged}
use enhanced_xv.Sched.Mlfq.Quantum.{rivals, rivals-le, rivals-pos, rivals-zero, scan-rivals}
use enhanced_xv.Sched.Mlfq.Outcome.{
  exhausted, preempted, goes_on, YieldSpec, ticklim_bounds, not_runnable, ticked, ticked_self,
  ticked-outranks, after, after_self, after_other, yield_self, yield_other, decide_yield_lem,
}

module _ (now me limit : ℕ) (t : ProcTable) (runs : is_running (t me).state ≡ true)
    (quantum : get_elem? ticklim (t me).queue_level ≡ some limit)
    (counter : (t me).tick_ctr + 1 < int_half) where
  u : ProcTable
  u = after now me limit t runs

  ti : ℕ
  ti = (scan now me nproc (ticked now me limit t runs)).1

  ti_lem : ti ≡ rivals now (t me).queue_level nproc (ticked now me limit t runs)
  unfolding ti
  ti_lem =
      scan-rivals now me nproc (ticked now me limit t runs)
        (ap (λ (p : Proc). is_runnable p.state) (ticked_self now me limit t runs)
          ∙ not_runnable now me limit t runs)
        (omega arith)
      ∙ ap (λ (p : Proc). rivals now p.queue_level nproc (ticked now me limit t runs))
          (ticked_self now me limit t runs)

  limit_small : limit < 16
  limit_small = (ticklim_bounds (t me).queue_level limit quantum).1

  count : add32 (t me).tick_ctr 1 ≡ (t me).tick_ctr + 1
  count = omega arith

  next_level :
      (if int_lt (t me).queue_level numq then add32 (t me).queue_level 1 else (t me).queue_level)
      ≡ (t me).queue_level + 1
  next_level = ground (arith, ticklim_bounds (t me).queue_level limit quantum)

  run_decide :
      mlfq_yield now me t
      ≡ some (
          if leb limit (add32 (t me).tick_ctr 1)
          then (yield me (update u me (demote now (tick (t me)))), true)
          else if ltb 0 ti
          then (yield me (update u me (requeue now (tick (t me)))), true)
          else (u, false))
  unfolding mlfq_yield u ti after ticked
  run_decide =
      decide_yield_lem now me limit ti u (tick (t me)) (after_self now me limit t runs) quantum
        (omega (arith, limit_small)) (omega (arith, count))
        (omega (arith, ti_lem, rivals-le now (t me).queue_level nproc (ticked now me limit t runs)))

  yields_others :
      (p : Proc) (j : ℕ)
      → j ≢ me
      → yield me (update u me p) j ≡ (if ltb j nproc then aged now (t j) else t j)
  unfolding u
  yields_others p j ne =
      yield_other me (after now me limit t runs) p j ne ∙ after_other now me limit t runs j ne

  -- A timer interrupt on a running process on one of the four levels, whose tick count plus 1 does not
  -- overflow, returns. If the process has used up the level's limit, it is put on the next level, runnable
  -- and with a new count, and yields; if not, but after aging some runnable process is on a better level,
  -- it yields with a new count on its own level; otherwise it counts the tick and runs on. Every other
  -- process in the table is aged, and nothing else happens to it.
  pub mlfq_yield_lem :
      (r : ProcTable × Bool) × (mlfq_yield now me t ≡ some r) × YieldSpec now me limit t r
  unfolding u
  mlfq_yield_lem = elim (Bool-cases (leb limit (add32 (t me).tick_ctr 1))) [
    | inl used ↦ (
      (yield me (update u me (demote now (tick (t me)))), true),
      run_decide ∙ rw used,
      record {
        others = yields_others (demote now (tick (t me)));
        own =
            rw (yield_self me u (demote now (tick (t me))), next_level)
              (exhausted (ground (arith, used, count)));
      },
    )
    | inr left ↦ elim (Bool-cases (ltb 0 ti)) [
      | inl some_rival ↦
          let (j, lt, o) =
            rivals-pos now (t me).queue_level nproc (ticked now me limit t runs)
              (ground (arith, ti_lem, some_rival)) in
          (
            (yield me (update u me (requeue now (tick (t me)))), true),
            run_decide ∙ rw (left, some_rival),
            record {
              others = yields_others (requeue now (tick (t me)));
              own = rw (yield_self me u (requeue now (tick (t me)))) (
                  preempted j (ground (arith, left, count)) lt
                    (sym (ticked-outranks now me limit t runs (t me).queue_level j) ∙ o));
            },
          )
      | inr no_rival ↦ (
        (u, false),
        run_decide ∙ rw (left, no_rival),
        record {
          others = after_other now me limit t runs;
          own =
              rw (after_self now me limit t runs, count)
                (goes_on (ground (arith, left, count)) (λ j lt.
                  sym (ticked-outranks now me limit t runs (t me).queue_level j)
                  ∙ rivals-zero now (t me).queue_level nproc (ticked now me limit t runs)
                      (ground (arith, ti_lem, no_rival)) j lt));
        },
      )
    ]
  ]
