-- ===== src/Life/Fork.antt =====
-- src/kernel/proc.c: `fork`, without the copy of the name. The table of files and the table of inodes are in it.
use enhanced_xv.Base.{
  ℕ, ◌+◌, ◌-◌, ◌<◌, ◌≤◌, ◌≡◌, ◌≢◌, refl, sym, ◌∙◌, ap, true, false, ◌&&◌, Option, none, some,
  Option-cases, if◌then◌else◌, ◌==◌, ltb, leb, update, update_self, update_ne, minus_one, arith,
  Bool-cases, inl, inr, ◌⊎◌,
}
use enhanced_xv.Proc.{Proc, proc_ptr, runnable}
use enhanced_xv.Kalloc.{Kmem}
use enhanced_xv.Kernel.{Kernel, set_proc, store, tf_a0}
use enhanced_xv.Vm.Cow.{uvmcopy}
use enhanced_xv.File.{Files, fork_files}
use enhanced_xv.Fs.{Itable, idup}
use enhanced_xv.Life.{allocproc, freeproc}
use enhanced_xv.Life.Free.{IsFreed, freeproc-IsFreed_memory}

-- The kernel with the tables of files and of inodes, and which inode is a process's `cwd`.
pub record World : Type 0 where
  pub kernel : Kernel
  pub nextpid : ℕ
  pub files : Files
  pub itable : Itable
  pub cwd : ℕ → ℕ

-- The bytes of `struct trapframe`.
abbrev pub frame_size : ℕ
frame_size = 288

-- `*(np->trapframe) = *(p->trapframe);`
abbrev pub copy_frame : ℕ → ℕ → (ℕ → ℕ) → ℕ → ℕ
copy_frame dst src w a = if leb dst a && ltb a (dst + frame_size) then w (src + (a - dst)) else w a

-- Once the memory is copied: the frame, then the rest of the child, which becomes runnable last.
abbrev pub child_memory : Proc → Proc → Kmem → Kmem
child_memory p np m =
    store (np.trapframe + tf_a0) 0 (record m { word = copy_frame np.trapframe p.trapframe m.word })

abbrev pub set_child : ℕ → ℕ → Proc → Kmem → Kernel → Kernel
set_child me j np m k =
    record (set_proc j (record np { sz = (k.procs me).sz; parent = proc_ptr me; state = runnable })
      k) { mem = child_memory (k.procs me) np m }

-- `fork` from `allocproc` on, for the child in slot `j`: what it returns, and the state. `none` is a panic.
unfoldable pub fork_child : ℕ → ℕ → World → Option (ℕ × World)
fork_child me j w =
    let k = w.kernel in
    let np = k.procs j in
    elim (uvmcopy (k.procs me).pagetable np.pagetable (k.procs me).sz k.mem) [
      | none ↦ none
      | some (status, m) ↦
          let undone : Option (ℕ × World) = elim (freeproc j (record k { mem = m })) [
            | none ↦ none
            | some k' ↦ some (minus_one, record w { kernel = k' })
          ] in
          let copied : Option (ℕ × World) = elim (fork_files me j w.files) [
            | none ↦ none
            | some files ↦ some (
              np.pid,
              record w {
                kernel = set_child me j np m k;
                files = files;
                itable = idup (w.cwd me) w.itable;
                cwd = update w.cwd j (w.cwd me);
              },
            )
          ] in
          if status == 0 then copied else undone
    ]

unfoldable pub fork : ℕ → ℕ → World → Option (ℕ × World)
fork code me w = elim (allocproc code w.nextpid w.kernel) [
  | none ↦ none
  | some (ptr, nextpid, k) ↦
      let w' = record w { kernel = k; nextpid = nextpid } in
      if ptr == 0 then some (minus_one, w') else fork_child me (ptr - 1) w'
]

-- What `fork` made of the child in slot `j`, seen from the state `w` in which it was allocated.
pub record IsForked (me j : ℕ) (w w' : World) : Type 0 where
  pub is_runnable_child : (w'.kernel.procs j).state ≡ runnable
  pub is_parent : (w'.kernel.procs j).parent ≡ proc_ptr me
  pub same_size : (w'.kernel.procs j).sz ≡ (w.kernel.procs me).sz
  pub returns_zero : w'.kernel.mem.word ((w.kernel.procs j).trapframe + tf_a0) ≡ 0
  pub same_registers :
      (a : ℕ)
      → a < frame_size
      → a ≢ tf_a0
      → w'.kernel.mem.word ((w.kernel.procs j).trapframe + a)
        ≡ w'.kernel.mem.word ((w.kernel.procs me).trapframe + a)
  pub others : (i : ℕ) → i ≢ j → w'.kernel.procs i ≡ w.kernel.procs i

-- The frames of parent and child do not overlap.
unfoldable pub Apart : ℕ → ℕ → Type 0
Apart f g = (f + frame_size ≤ g) ⊎ (g + frame_size ≤ f)

frames :
    (p np : Proc) (m : Kmem)
    → Apart np.trapframe p.trapframe
    → (a : ℕ) → a < frame_size
    → a ≢ tf_a0
    → (child_memory p np m).word (np.trapframe + a) ≡ (child_memory p np m).word (p.trapframe + a)
unfolding Apart
frames p np m apart a lt ne =
    let w1 : ℕ → ℕ = copy_frame np.trapframe p.trapframe m.word in
    let within : (leb np.trapframe (np.trapframe + a)
          && ltb (np.trapframe + a) (np.trapframe + frame_size))
        ≡ true =
      ground arith in
    let at : np.trapframe + a - np.trapframe ≡ a = omega arith in
    let out : (leb np.trapframe (p.trapframe + a)
          && ltb (p.trapframe + a) (np.trapframe + frame_size))
        ≡ false =
      elim apart [ inl l ↦ ground arith | inr l ↦ ground arith ] in
    let inside : w1 (np.trapframe + a) ≡ m.word (p.trapframe + a) = rw (within, at) refl in
    let outside : w1 (p.trapframe + a) ≡ m.word (p.trapframe + a) = rw out refl in
    let off : p.trapframe + a ≢ np.trapframe + tf_a0 = elim apart [
      | inl l ↦ λ q. omega arith
      | inr l ↦ λ q. omega arith
    ] in
    update_ne w1 (np.trapframe + tf_a0) 0 (np.trapframe + a) (λ q. omega arith)
    ∙ inside
    ∙ sym (update_ne w1 (np.trapframe + tf_a0) 0 (p.trapframe + a) off ∙ outside)

child :
    (me j : ℕ) (w w' : World) (m : Kmem)
    → me ≢ j
    → Apart (w.kernel.procs j).trapframe (w.kernel.procs me).trapframe
    → w'.kernel ≡ set_child me j (w.kernel.procs j) m w.kernel
    → IsForked me j w w'
child me j w w' m ne apart e =
    let p : Proc = w.kernel.procs me in
    let np : Proc = w.kernel.procs j in
    let np' : Proc = record np { sz = p.sz; parent = proc_ptr me; state = runnable } in
    let procs : w'.kernel.procs ≡ update w.kernel.procs j np' = ap (λ k. k.procs) e in
    let self : w'.kernel.procs j ≡ np' = ap (λ t. t j) procs ∙ update_self w.kernel.procs j np' in
    let words : w'.kernel.mem.word ≡ (child_memory p np m).word = ap (λ k. k.mem.word) e in
    record {
      is_runnable_child = ap (λ x. x.state) self;
      is_parent = ap (λ x. x.parent) self;
      same_size = ap (λ x. x.sz) self;
      returns_zero =
          ap (λ f. f (np.trapframe + tf_a0)) words
          ∙ update_self (copy_frame np.trapframe p.trapframe m.word) (np.trapframe + tf_a0) 0;
      same_registers = λ a lt na.
          ap (λ f. f (np.trapframe + a)) words
          ∙ frames p np m apart a lt na
          ∙ ap (λ f. f (p.trapframe + a)) (sym words);
      others = λ i ni. ap (λ t. t i) procs ∙ update_ne w.kernel.procs j np' i ni;
    }

-- The memory outside of the child's frame is as `uvmcopy` left it.
child_rest :
    (p np : Proc) (m : Kmem) (a : ℕ)
    → (a < np.trapframe) ⊎ (np.trapframe + frame_size ≤ a)
    → (child_memory p np m).word a ≡ m.word a
child_rest p np m a side =
    let out : (leb np.trapframe a && ltb a (np.trapframe + frame_size)) ≡ false = elim side [
      | inl l ↦ ground arith
      | inr l ↦ ground arith
    ] in
    let off : a ≢ np.trapframe + tf_a0 = elim side [
      | inl l ↦ λ q. omega arith
      | inr l ↦ λ q. omega arith
    ] in
    update_ne (copy_frame np.trapframe p.trapframe m.word) (np.trapframe + tf_a0) 0 a off
    ∙ rw out refl

-- The outcomes of `fork_child`: `uvmcopy` succeeds and so does every `filedup`, or one panics; `uvmcopy` fails and the
-- child is given back, or `freeproc` panics; or `uvmcopy` panics.
pub data ForkSpec (me j : ℕ) (w : World) : Option (ℕ × World) → Type 0 where
  forks :
      (m : Kmem) (w' : World)
      → uvmcopy
          (w.kernel.procs me).pagetable
          (w.kernel.procs j).pagetable
          (w.kernel.procs me).sz
          w.kernel.mem
        ≡ some (0, m)
      → fork_files me j w.files ≡ some w'.files
      → w'.itable ≡ idup (w.cwd me) w.itable
      → w'.cwd j ≡ w.cwd me
      → ((a : ℕ)
          → (a < (w.kernel.procs j).trapframe) ⊎ ((w.kernel.procs j).trapframe + frame_size ≤ a)
          → w'.kernel.mem.word a ≡ m.word a)
      → w'.kernel.mem.nump_using ≡ m.nump_using
      → IsForked me j w w'
      → ForkSpec me j w (some ((w.kernel.procs j).pid, w'))
  cannot_dup :
      (m : Kmem)
      → uvmcopy
          (w.kernel.procs me).pagetable
          (w.kernel.procs j).pagetable
          (w.kernel.procs me).sz
          w.kernel.mem
        ≡ some (0, m)
      → fork_files me j w.files ≡ none
      → ForkSpec me j w none
  gives_back :
      (status : ℕ) (m : Kmem) (k' : Kernel)
      → uvmcopy
          (w.kernel.procs me).pagetable
          (w.kernel.procs j).pagetable
          (w.kernel.procs me).sz
          w.kernel.mem
        ≡ some (status, m)
      → status ≢ 0
      → freeproc j (record w.kernel { mem = m }) ≡ some k'
      → IsFreed j w.kernel k'
      → ForkSpec me j w (some (minus_one, record w { kernel = k' }))
  cannot_free :
      (status : ℕ) (m : Kmem)
      → uvmcopy
          (w.kernel.procs me).pagetable
          (w.kernel.procs j).pagetable
          (w.kernel.procs me).sz
          w.kernel.mem
        ≡ some (status, m)
      → status ≢ 0
      → freeproc j (record w.kernel { mem = m }) ≡ none
      → ForkSpec me j w none
  cannot_copy :
      uvmcopy
          (w.kernel.procs me).pagetable
          (w.kernel.procs j).pagetable
          (w.kernel.procs me).sz
          w.kernel.mem
        ≡ none
      → ForkSpec me j w none

-- fork_child, for a child in another slot than the caller's whose trap frame does not overlap the caller's. When
-- uvmcopy succeeds and no filedup panics, it returns the child's pid: the child is runnable, has the caller as its
-- parent and its size, returns 0 from fork, has its other registers as the caller has them, and shares the caller's
-- files and directory, whose counts are those of fork_files and idup; no other process is changed, and the
-- memory outside of the child's frame is as uvmcopy left it. When uvmcopy fails it frees the child's slot and
-- no other and returns -1. It panics only where uvmcopy, freeproc or a filedup does.
pub fork_child_lem :
    (me j : ℕ) (w : World)
    → me ≢ j
    → Apart (w.kernel.procs j).trapframe (w.kernel.procs me).trapframe
    → ForkSpec me j w (fork_child me j w)
unfolding fork_child
fork_child_lem me j w ne apart =
    let k = w.kernel in
    elim (Option-cases
      (uvmcopy (k.procs me).pagetable (k.procs j).pagetable (k.procs me).sz k.mem)) [
        | inl e ↦ rw (fork_child, e) (cannot_copy e)
        | inr ((status, m), e) ↦ elim (Bool-cases (status == 0)) [
          | inr bad ↦
              let failed : status ≢ 0 = ground arith in
              elim (Option-cases (freeproc j (record k { mem = m }))) [
                | inl f ↦ rw (fork_child, e, bad, f) (cannot_free status m e failed f)
                | inr (k', f) ↦
                    rw (fork_child, e, bad, f)
                      (gives_back status m k' e failed f (freeproc-IsFreed_memory j k k' m f))
              ]
          | inl good ↦
              let zero_status : status ≡ 0 = ground arith in
              let e0 = e ∙ ap (λ x. some (x, m)) zero_status in
              elim (Option-cases (fork_files me j w.files)) [
                | inl f ↦ rw (fork_child, e, good, f) (cannot_dup m e0 f)
                | inr (files, f) ↦
                    let w' : World = record w {
                      kernel = set_child me j (k.procs j) m k;
                      files = files;
                      itable = idup (w.cwd me) w.itable;
                      cwd = update w.cwd j (w.cwd me);
                    } in
                    rw (fork_child, e, good, f)
                      (forks m w' e0 f refl (update_self w.cwd j (w.cwd me))
                        (child_rest (k.procs me) (k.procs j) m) refl
                        (child me j w w' m ne apart refl))
              ]
        ]
      ]
