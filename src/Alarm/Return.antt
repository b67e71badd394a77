-- ===== src/Alarm/Return.antt =====
-- What the alarm saves, and that `sigreturn` brings it back.
use enhanced_xv.Base.{
  ℕ, ◌+◌, ◌-◌, ◌<◌, ◌≡◌, ◌≢◌, ap, ◌∙◌, true, false, List, ◌∷◌, arith, ◌==◌, update_self, update_ne,
  update-update,
}
use enhanced_xv.Proc.{Proc, pgsize}
use enhanced_xv.Kalloc.{Kmem, in_page, page_index, copy_page, fill_page, kfree, free_junk}
use enhanced_xv.Kalloc.FreeList.{
  IsValid, IsPage, kalloc-some, taken, kfree-IsValid, kfree-last, write-IsValid,
}
use enhanced_xv.Kernel.{Kernel, set_proc, tf_epc, tf_a0}
use enhanced_xv.Alarm.{fire, count_tick, save_frame, sys_sigreturn}

-- The trap frame of `p` is a page in use, and page `page` is at the head of the free list.
pub record IsReady (k : Kernel) (p : Proc) (page : ℕ) (free : List ℕ) : Type 0 where
  pub valid : IsValid k.mem (page ∷ free)
  pub frame : IsPage p.trapframe
  pub in_use : k.mem.nump_using (page_index p.trapframe) ≢ 0

frame-ne-page :
    {k : Kernel} {p : Proc} {page : ℕ} {free : List ℕ} → IsReady k p page free → p.trapframe ≢ page
frame-ne-page {k} r e =
    r.in_use (ap (λ (q : ℕ). k.mem.nump_using (page_index q)) e ∙ r.valid.unused.0)

-- The memory when the handler starts.
abbrev pub saved : Kmem → Proc → ℕ → Kmem
saved m p page = save_frame p page (taken page m)

-- What the alarm leaves: the handler's address is the user's program counter, the fresh page holds the
-- trap frame as it was, and the rest of the trap frame stands.
pub record Fired (k : Kernel) (p : Proc) (page : ℕ) (k' : Kernel) (i : ℕ) : Type 0 where
  pub process : k'.procs i ≡ record (count_tick p) { sigalarm = page }
  pub handler : k'.mem.word (p.trapframe + tf_epc) ≡ p.handler
  pub copied : (off : ℕ) → off < pgsize → k'.mem.word (page + off) ≡ k.mem.word (p.trapframe + off)
  pub frame :
      (off : ℕ)
      → off < pgsize
      → off ≢ tf_epc
      → k'.mem.word (p.trapframe + off) ≡ k.mem.word (p.trapframe + off)
  pub users : k'.mem.nump_using (page_index page) ≡ 1

module _ (i : ℕ) (k : Kernel) (p : Proc) (page : ℕ) (free : List ℕ)
    (r : IsReady k p page free) where
  apart_word : (off : ℕ) → off < pgsize → in_page page (p.trapframe + off) ≡ false
  apart_word off lt =
      let ne = frame-ne-page r in let h = r.valid.pages.0 in let g = r.frame in ground arith

  page_word : (off : ℕ) → off < pgsize → (page + off) ≢ p.trapframe + tf_epc
  page_word off lt e =
      let ne = frame-ne-page r in let h = r.valid.pages.0 in let g = r.frame in omega arith

  inside : (off : ℕ) → off < pgsize → in_page page (page + off) ≡ true
  inside off lt = ground arith

  pub fire_state :
      fire i (set_proc i p k) ≡ record (set_proc i (record (count_tick p) { sigalarm = page }) k) {
        mem = saved k.mem p page;
      }
  fire_state =
      let nonzero : (page == 0) ≡ false = ground (arith, r.valid.pages.0) in
      rw (
        update_self k.procs i p,
        kalloc-some k.mem page r.valid.chain.0 r.valid.pages.0.1,
        nonzero,
        update-update k.procs i p (record (count_tick p) { sigalarm = page }),
      )

  -- The memory but for the new program counter.
  abbrev image : ℕ → ℕ
  image = copy_page page p.trapframe (fill_page page 0 (taken page k.mem).word)

  -- Words of the saved memory.
  saved_copy :
      (off : ℕ)
      → off < pgsize
      → (saved k.mem p page).word (page + off) ≡ k.mem.word (p.trapframe + off)
  saved_copy off lt =
      let e : page + off - page ≡ off = omega arith in
      update_ne image (p.trapframe + tf_epc) p.handler (page + off) (page_word off lt)
      ∙ rw (inside off lt, e, apart_word off lt)

  saved_frame :
      (off : ℕ)
      → off < pgsize
      → off ≢ tf_epc
      → (saved k.mem p page).word (p.trapframe + off) ≡ k.mem.word (p.trapframe + off)
  saved_frame off lt ne =
      update_ne image (p.trapframe + tf_epc) p.handler (p.trapframe + off) (λ e. ne (omega arith))
      ∙ rw (apart_word off lt)

  -- When the alarm goes off with a free page at hand, `usertrap` saves the trap frame in that page, counts
  -- the tick, and sends the process to its handler.
  pub fire_lem : Fired k p page (fire i (set_proc i p k)) i
  fire_lem = rw fire_state (record {
    process = update_self k.procs i (record (count_tick p) { sigalarm = page });
    handler = update_self image (p.trapframe + tf_epc) p.handler;
    copied = saved_copy;
    frame = saved_frame;
    users = update_self k.mem.nump_using (page_index page) _ ∙ rw r.valid.unused.0;
  })

-- The copy back and the release of the saved page.
abbrev give_back : ℕ → ℕ → Kmem → Kmem
give_back frame page m = kfree page (record m { word = copy_page frame page m.word })

module _ (m : Kmem) (frame page : ℕ) (free : List ℕ) (hf : IsPage frame) (hp : IsPage page)
    (ne : frame ≢ page) (one : m.nump_using (page_index page) ≡ 1) where
  give_back-word :
      (off : ℕ) → off < pgsize → (give_back frame page m).word (frame + off) ≡ m.word (page + off)
  give_back-word off lt =
      let here : in_page frame (frame + off) ≡ true = ground arith in
      let away : in_page page (frame + off) ≡ false = ground arith in
      let e : frame + off - frame ≡ off = omega arith in
      rw (kfree-last (record m { word = copy_page frame page m.word }) page one) (
        update_ne (fill_page page free_junk (copy_page frame page m.word)) page m.freelist
          (frame + off) (λ q. omega arith)
        ∙ rw (away, here, e))

  give_back-IsValid :
      m.nump_using (page_index frame) ≢ 0
      → IsValid m free
      → IsValid (give_back frame page m) (page ∷ free)
  give_back-IsValid used v =
      kfree-IsValid (record m { word = copy_page frame page m.word }) page free
        (write-IsValid m (copy_page frame page m.word) frame free hf used (λ a out. rw out) v) hp
        one

-- `sigreturn` after the handler: `k2` is any state in which the process has the same trap frame, still in
-- use, and in which the saved page still holds what the alarm put there and has one user. The trap frame
-- is as it was when the alarm went off, program counter included, the call returns the a0 of that moment,
-- the tick count starts again, and the saved page is free again.
pub sigreturn-restores :
    (i : ℕ) (k : Kernel) (p : Proc) (page : ℕ) (free : List ℕ)
    → IsReady k p page free
    → (k2 : Kernel) (free2 : List ℕ) → IsValid k2.mem free2
    → (k2.procs i).trapframe ≡ p.trapframe
    → (k2.procs i).sigalarm ≡ page
    → k2.mem.nump_using (page_index p.trapframe) ≢ 0
    → k2.mem.nump_using (page_index page) ≡ 1
    → ((off : ℕ)
        → off < pgsize
        → k2.mem.word (page + off) ≡ (fire i (set_proc i p k)).mem.word (page + off))
    → ((off : ℕ)
        → off < pgsize
        → (sys_sigreturn i k2).0.mem.word (p.trapframe + off) ≡ k.mem.word (p.trapframe + off))
      × ((sys_sigreturn i k2).1 ≡ k.mem.word (p.trapframe + tf_a0))
      × (((sys_sigreturn i k2).0.procs i).current_ticks ≡ 0)
      × IsValid (sys_sigreturn i k2).0.mem (page ∷ free2)
unfolding sys_sigreturn
sigreturn-restores i k p page free r k2 free2 v2 frame saved_at used one kept = (
  λ off lt. rw (frame, saved_at) (restored off lt),
  rw (frame, saved_at) (restored tf_a0 (omega arith)),
  ap (λ (q : Proc). q.current_ticks)
      (update_self k2.procs i (record (k2.procs i) { current_ticks = 0 })),
  rw (frame, saved_at)
      (give_back-IsValid k2.mem p.trapframe page free2 r.frame r.valid.pages.0 (frame-ne-page r) one
        used v2),
)
  where
    restored :
        (off : ℕ)
        → off < pgsize
        → (give_back p.trapframe page k2.mem).word (p.trapframe + off)
          ≡ k.mem.word (p.trapframe + off)
    restored off lt =
        give_back-word k2.mem p.trapframe page free2 r.frame r.valid.pages.0 (frame-ne-page r) one
          off lt
        ∙ kept off lt
        ∙ (fire_lem i k p page free r).copied off lt
