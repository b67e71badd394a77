-- ===== src/Sleeplock/Exclusion.antt =====
-- Any number of processes acquire and release one sleep lock (src/kernel/sleeplock.c): one holds it at a
-- time, and no wakeup is lost.
use mathlib.Core.Bool.{false≢true}
use enhanced_xv.Base.{
  ℕ, ◌<◌, ◌≡◌, ◌≢◌, refl, sym, ◌∙◌, ap, true, false, ◌&&◌, update, update_self, update_ne, ◌==◌,
  ltb, arith, Bool-cases, inl, inr, subst,
}
use enhanced_xv.Proc.{ProcTable, nproc, proc_ptr, is_sleeping, wakeup, sleep_enter}
use enhanced_xv.Proc.Wake.{wakeup_lem, sleep_enter_other}
use enhanced_xv.Sleeplock.System.{
  System, Step, enter, take, sleep, resume, release, other, Reachable, begin, then_step, IsValid,
  waits, goes, retries, takes_inv, sleeps_inv, goes_inv, goes_same, goes_in_table, inside, outside,
  trying, asleep,
}
use enhanced_xv.Sleeplock.{Sleeplock, releasesleep, holdingsleep}

-- No process sleeps on the lock after a `wakeup` of it by one that does not.
woken :
    (now me chan : ℕ) (t : ProcTable) (j : ℕ)
    → j < nproc
    → waits chan me t ≡ false
    → waits chan j (wakeup now (proc_ptr me) chan t) ≡ false
woken now me chan t j lt out =
    let below : ltb j nproc ≡ true = ground arith in
    ap (λ p. is_sleeping p.state && p.chan == chan) (wakeup_lem now (proc_ptr me) chan t j)
    ∙ elim (Bool-cases (proc_ptr j == proc_ptr me)) [
      | inl e ↦
          let same : me ≡ j = ground arith in
          rw (below, e) (subst (λ k. waits chan k t ≡ false) same out)
      | inr e ↦ elim (Bool-cases (waits chan j t)) [
        | inl w ↦ rw (below, e, w) refl
        | inr w ↦ rw (below, e, w) w
      ]
    ]

wakeup-pid : (now me chan : ℕ) (t : ProcTable) (j : ℕ) → (wakeup now me chan t j).pid ≡ (t j).pid
wakeup-pid now me chan t j =
    ap (λ p. p.pid) (wakeup_lem now me chan t j) ∙ elim (Bool-cases (ltb j nproc)) [
      | inl b ↦ elim (Bool-cases (proc_ptr j == me)) [
        | inl e ↦ rw (b, e) refl
        | inr e ↦ elim (Bool-cases (waits chan j t)) [
          | inl w ↦ rw (b, e, w) refl
          | inr w ↦ rw (b, e, w) refl
        ]
      ]
      | inr b ↦ rw b refl
    ]

wakeup-beyond :
    (now me chan : ℕ) (t : ProcTable) (j : ℕ) → ltb j nproc ≡ false → wakeup now me chan t j ≡ t j
wakeup-beyond now me chan t j e = wakeup_lem now me chan t j ∙ rw (e)

released :
    (chan now : ℕ) (s : System) (i : ℕ)
    → s.at i ≡ inside
    → IsValid chan s
    → (j : ℕ) → waits chan j (releasesleep now chan i s.procs).1 ≡ false
unfolding releasesleep
released chan now s i h v j =
    let calm : waits chan i s.procs ≡ false = elim (Bool-cases (waits chan i s.procs)) [
      | inl e ↦ let clash : inside ≡ asleep = sym h ∙ v.asleep_lem i e in cc
      | inr e ↦ e
    ] in
    elim (Bool-cases (ltb j nproc)) [
      | inl e ↦ woken now i chan s.procs j (ground arith) calm
      | inr e ↦ elim (Bool-cases (waits chan j s.procs)) [
        | inl w ↦
            let lt : j < nproc =
              v.in_table j (λ o. let clash : outside ≡ asleep = sym o ∙ v.asleep_lem j w in cc) in
            ground arith
        | inr w ↦
            ap (λ p. is_sleeping p.state && p.chan == chan)
              (wakeup-beyond now (proc_ptr i) chan s.procs j e)
            ∙ w
      ]
    ]

Step-enter :
    (chan : ℕ) (s : System) (i : ℕ)
    → i < nproc
    → s.at i ≡ outside
    → IsValid chan s
    → IsValid chan (goes i trying s)
Step-enter chan s i lt h v =
    retries chan s i lt (λ o. let c : outside ≡ inside = sym h ∙ o in cc)
      (elim (Bool-cases (waits chan i s.procs)) [
        | inl w ↦ let c : outside ≡ asleep = sym h ∙ v.asleep_lem i w in cc
        | inr w ↦ w
      ])
      v

Step-take :
    (chan : ℕ) (s : System) (i : ℕ) (lk : Sleeplock)
    → s.at i ≡ trying
    → (s.lock.locked ≡ 0) × (lk ≡ record { locked = 1; pid = (s.procs i).pid })
    → IsValid chan s
    → IsValid chan (record (goes i inside s) { lock = lk })
Step-take chan s i lk h (free, e) v =
    let only : (j : ℕ) → update s.at i inside j ≡ inside → j ≡ i = λ j hj.
      elim (Bool-cases (i == j)) [
        | inl same ↦ ground arith
        | inr apart ↦
            let held : s.lock.locked ≡ 1 =
              (v.held j (sym (update_ne s.at i inside j (ground arith)) ∙ hj)).0 in
            ground arith
      ] in
    record {
      alone = λ j k hj hk. only j hj ∙ sym (only k hk);
      held = λ j hj.
          (ap (λ l. l.locked) e, ap (λ l. l.pid) e ∙ ap (λ k. (s.procs k).pid) (sym (only j hj)));
      owned = λ _. (i, update_self s.at i inside);
      asleep_lem = λ j w. absurd (v.no_lost_wakeup j w free);
      no_lost_wakeup = λ j w. absurd (v.no_lost_wakeup j w free);
      in_table =
          goes_in_table s.at i inside
            (v.in_table i (λ o. let c : trying ≡ outside = sym h ∙ o in cc)) v.in_table;
    }

Step-sleep :
    (chan : ℕ) (s : System) (i : ℕ) (t : ProcTable)
    → s.at i ≡ trying
    → (s.lock.locked ≢ 0) × (t ≡ sleep_enter chan i s.procs)
    → IsValid chan s
    → IsValid chan (record (goes i asleep s) { procs = t })
Step-sleep chan s i t h (taken, e) v = record {
  alone = λ j k hj hk.
      v.alone j k (goes_inv s.at i asleep inside j hj (λ c. cc)).1
        (goes_inv s.at i asleep inside k hk (λ c. cc)).1;
  held = λ j hj.
      let (apart, was) = goes_inv s.at i asleep inside j hj (λ c. cc) in
      let (l, p) = v.held j was in
      (
        l,
        p
            ∙ sym (
                ap (λ f. (f j).pid) e ∙ ap (λ q. q.pid) (sleep_enter_other chan i s.procs j apart)),
      );
  owned = λ ne.
      let (k, hk) = v.owned ne in
      (k, goes_same s.at i asleep inside k hk (λ o. let c : trying ≡ inside = sym h ∙ o in cc));
  asleep_lem = λ j w. elim (Bool-cases (i == j)) [
    | inl same ↦ rw same refl
    | inr apart ↦
        let apart' : j ≢ i = ground arith in
        update_ne s.at i asleep j apart'
        ∙ v.asleep_lem j (
            sym (
              ap (λ p. is_sleeping p.state && p.chan == chan)
                (ap (λ f. f j) e ∙ sleep_enter_other chan i s.procs j apart'))
            ∙ w)
  ];
  no_lost_wakeup = λ _ _. taken;
  in_table =
      goes_in_table s.at i asleep (v.in_table i (λ o. let c : trying ≡ outside = sym h ∙ o in cc))
        v.in_table;
}

Step-release :
    (chan : ℕ) (s : System) (i now : ℕ)
    → s.at i ≡ inside
    → IsValid chan s
    → IsValid chan (record (goes i outside s) {
      lock = (releasesleep now chan i s.procs).0;
      procs = (releasesleep now chan i s.procs).1;
    })
unfolding releasesleep
Step-release chan s i now h v =
    let calm = released chan now s i h v in
    let gone : (j : ℕ) → update s.at i outside j ≢ inside = λ j hj.
      let (apart, was) = goes_inv s.at i outside inside j hj (λ c. cc) in
      apart (v.alone j i was h) in
    record {
      alone = λ j k hj hk. absurd (gone j hj);
      held = λ j hj. absurd (gone j hj);
      owned = λ ne. absurd (ne refl);
      asleep_lem = λ j w. absurd (false≢true (sym (calm j) ∙ w));
      no_lost_wakeup = λ j w. absurd (false≢true (sym (calm j) ∙ w));
      in_table =
          goes_in_table s.at i outside
            (v.in_table i (λ o. let c : inside ≡ outside = sym h ∙ o in cc)) v.in_table;
    }

Step-IsValid : (chan : ℕ) (s s' : System) → IsValid chan s → Step chan s s' → IsValid chan s'
Step-IsValid chan s s' v (enter i lt h) = Step-enter chan s i lt h v
Step-IsValid chan s s' v (take i lk h e) =
    Step-take chan s i lk h (takes_inv chan i s.lock lk s.procs e) v
Step-IsValid chan s s' v (sleep i t h e) =
    Step-sleep chan s i t h (sleeps_inv chan i s.lock s.procs t e) v
Step-IsValid chan s s' v (resume i h w) =
    retries chan s i (v.in_table i (λ o. let c : asleep ≡ outside = sym h ∙ o in cc))
      (λ o. let c : asleep ≡ inside = sym h ∙ o in cc) w v
Step-IsValid chan s s' v (release i now h) = Step-release chan s i now h v
Step-IsValid chan s s' v (other t calm pids) = record {
  alone = v.alone;
  held = λ i h.
      let (l, p) = v.held i h in
      (l, p ∙ sym (pids i (λ o. let c : inside ≡ outside = sym h ∙ o in cc)));
  owned = v.owned;
  asleep_lem = λ i w. v.asleep_lem i (calm i w);
  no_lost_wakeup = λ i w. v.no_lost_wakeup i (calm i w);
  in_table = v.in_table;
}

Reachable-IsValid : (chan : ℕ) (s : System) → Reachable chan s → IsValid chan s
Reachable-IsValid chan s (begin t calm) = record {
  alone = λ j k hj hk. cc;
  held = λ j hj. cc;
  owned = λ ne. absurd (ne refl);
  asleep_lem = λ j w. absurd (false≢true (sym (calm j) ∙ w));
  no_lost_wakeup = λ j w. absurd (false≢true (sym (calm j) ∙ w));
  in_table = λ j ne. absurd (ne refl);
}
Reachable-IsValid chan s (then_step {s = before} r st) =
    Step-IsValid chan before s (Reachable-IsValid chan before r) st

-- However processes acquire and release a sleep lock and whatever the others do to the process table: no
-- two processes are between acquiresleep and releasesleep; the one that is finds by holdingsleep that it
-- holds the lock; the lock is taken only if there is such a process; and as long as a process sleeps on
-- the lock there is one too, so the wakeup of its releasesleep is still to come.
pub Reachable-exclusive :
    (chan : ℕ) (s : System)
    → Reachable chan s
    → ((i j : ℕ) → s.at i ≡ inside → s.at j ≡ inside → i ≡ j)
      × ((i : ℕ) → s.at i ≡ inside → holdingsleep i s.lock s.procs ≡ true)
      × (s.lock.locked ≢ 0 → (i : ℕ) × (s.at i ≡ inside))
      × ((j : ℕ) → waits chan j s.procs ≡ true → (i : ℕ) × (s.at i ≡ inside))
unfolding holdingsleep
Reachable-exclusive chan s r =
    let v = Reachable-IsValid chan s r in
    (
      v.alone,
      λ i h. let (l, p) = v.held i h in ground arith,
      v.owned,
      λ j w. v.owned (v.no_lost_wakeup j w),
    )
