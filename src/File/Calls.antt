-- ===== src/File/Calls.antt =====
-- The calls that change descriptors keep the reference counts right and never panic.
use enhanced_xv.Base.{
  ◌||◌, ℕ, ◌<◌, ◌≡◌, ◌≢◌, refl, sym, ◌∙◌, ap, Option, none, some, some_inj, Option-cases, true,
  false, List, [], ◌∷◌, if◌then◌else◌, ◌==◌, update, update_self, update_ne, arith, Bool-cases, inl,
  inr, find_first, find_first-some, int_lt, minus_one, int_mod, ◌⊎◌, int_le, subst, update-update,
}
use enhanced_xv.Proc.{nproc}
use enhanced_xv.File.{
  File, Ftable, Ofile, Files, nfile, nofile, filealloc, fileclose, set_fd, Closing, keep, argfd,
  fdalloc, is_null, sys_dup, sys_close, open_file, Outcome, set_file, fd_none, closing,
}
use enhanced_xv.File.Counts.{
  IsValid, handles, dup_lem, close_lem, settle, refers, self, recount, refers_other,
}

-- A call by process `p` ends, keeps the counts right, and changes no other process's descriptors.
unfoldable pub Ends : ℕ → Files → Option Outcome → Type 0
Ends p s o =
    (s' : Files) × (cs : List Closing) × (r : ℕ) × (o ≡ some (s', cs, r))
    × IsValid s'
    × ((q : ℕ) → q ≢ p → s'.ofile q ≡ s.ofile q)

in_range : (fd : ℕ) → fd < int_mod → (int_lt fd 0 || int_le nofile fd) ≡ false → fd < nofile
in_range fd small e = ground arith

argfd-cases :
    (fd : ℕ) (table : Ofile)
    → fd < int_mod
    → (argfd fd table ≡ none)
      ⊎ ((f : ℕ) × (fd < nofile) × (table fd ≡ some f) × (argfd fd table ≡ some f))
unfolding argfd
argfd-cases fd table small = elim (Bool-cases (int_lt fd 0 || int_le nofile fd)) [
  | inl e ↦ inl (rw (argfd, e) refl)
  | inr e ↦ elim (Option-cases (table fd)) [
    | inl n ↦ inl (rw (argfd, e) n)
    | inr (f, h) ↦ inr (f, in_range fd small e, h, rw (argfd, e) h)
  ]
]

is_null_lem : (o : Option ℕ) → is_null o ≡ true → o ≡ none
is_null_lem none h = refl
is_null_lem (some f) h = cc

fdalloc-cases :
    (f : ℕ) (table : Ofile)
    → (fdalloc f table ≡ none)
      ⊎ ((fd : ℕ) × (fd < nofile)
          × (table fd ≡ none)
          × (fdalloc f table ≡ some (update table fd (some f), fd)))
unfolding fdalloc
fdalloc-cases f table = elim (Option-cases (find_first (λ fd. is_null (table fd)) nofile)) [
  | inl e ↦ inl (rw (fdalloc, e) refl)
  | inr (k, e) ↦
      let (lt, free, _) = find_first-some (λ fd. is_null (table fd)) nofile k e in
      inr (k, lt, is_null_lem (table k) free, rw (fdalloc, e) refl)
]

pub sys_dup-Ends :
    (p fd : ℕ) (s : Files) → p < nproc → fd < int_mod → IsValid s → Ends p s (sys_dup p fd s)
unfolding sys_dup Ends
sys_dup-Ends p fd s lt small v = elim (argfd-cases fd (s.ofile p) small) [
  | inl e ↦ (s, [], minus_one, rw (sys_dup, e) refl, v, λ _ _. refl)
  | inr (f, lt', at_fd, e) ↦ elim (fdalloc-cases f (s.ofile p)) [
    | inl a ↦ (s, [], minus_one, rw (sys_dup, e, a) refl, v, λ _ _. refl)
    | inr (new, nlt, empty, a) ↦
        let (t, d, v') = dup_lem s p fd p new f v lt lt' at_fd lt nlt empty in
        (
          record { ftable = t; ofile = set_fd p new (some f) s.ofile },
          [],
          new,
          rw (sys_dup, e, a, d) refl,
          v',
          λ q ne. update_ne s.ofile p (update (s.ofile p) new (some f)) q ne,
        )
  ]
]

pub sys_close-Ends :
    (p fd : ℕ) (s : Files) → p < nproc → fd < int_mod → IsValid s → Ends p s (sys_close p fd s)
unfolding sys_close Ends
sys_close-Ends p fd s lt small v = elim (argfd-cases fd (s.ofile p) small) [
  | inl e ↦ (s, [], minus_one, rw (sys_close, e) refl, v, λ _ _. refl)
  | inr (f, lt', at_fd, e) ↦
      let (t, c, v') = close_lem s p fd f v lt lt' at_fd in
      (
        record { ftable = t; ofile = set_fd p fd none s.ofile },
        (if handles (set_fd p fd none s.ofile) f == 0 then closing (s.ftable f) else keep) ∷ [],
        0,
        rw (sys_close, e, c) refl,
        v',
        λ q ne. update_ne s.ofile p (update (s.ofile p) fd none) q ne,
      )
]

filealloc-cases :
    (t : Ftable)
    → (filealloc t ≡ none)
      ⊎ ((f : ℕ) × (f < nfile)
          × ((t f).ref ≡ 0)
          × (filealloc t ≡ some (update t f (record (t f) { ref = 1 }), f)))
unfolding filealloc
filealloc-cases t = elim (Option-cases (find_first (λ f. (t f).ref == 0) nfile)) [
  | inl e ↦ inl (rw (filealloc, e) refl)
  | inr (f, e) ↦
      let (lt, free, _) = find_first-some (λ f. (t f).ref == 0) nfile f e in
      inr (f, lt, ground arith, rw (filealloc, e) refl)
]

-- A file that was just allocated is closed again: the counts are as before.
undo :
    (t : Ftable) (f : ℕ)
    → (t f).ref ≡ 0
    → (t' : Ftable) × (c : Closing) × (fileclose f (update t f (record (t f) { ref = 1 }))
        ≡ some (t', c))
      × ((g : ℕ) → (t' g).ref ≡ (t g).ref)
unfolding fileclose
undo t f free =
    let x : File = record (t f) { ref = 1 } in
    let y : File = record x { ref = 0; ftype = fd_none } in
    let same : (g : ℕ) → (update (update t f x) f y g).ref ≡ (t g).ref = λ g.
      elim (Bool-cases (f == g)) [
        | inl e ↦
            let eq : (t f).ref ≡ (t g).ref = ap (λ k. (t k).ref) (ground arith) in
            rw e (sym free ∙ eq)
        | inr e ↦ rw e refl
      ] in
    (update (update t f x) f y, closing x, rw (update_self t f x) refl, same)

set_file-ref :
    (device : Option ℕ) (ip omode : ℕ) (f : File) → (set_file device ip omode f).ref ≡ f.ref
set_file-ref none ip omode f = refl
set_file-ref (some major) ip omode f = refl

-- The new file gets its first descriptor.
pub first :
    (s : Files) (p new f : ℕ) (z : File)
    → IsValid s
    → p < nproc
    → new < nofile
    → f < nfile
    → s.ofile p new ≡ none
    → (s.ftable f).ref ≡ 0
    → z.ref ≡ 1
    → IsValid (record { ftable = update s.ftable f z; ofile = set_fd p new (some f) s.ofile })
first s p new f z v lt nlt flt empty free one =
    let zero_new : (g : ℕ) → refers g (s.ofile p new) ≡ 0 = λ g. rw empty refl in
    let zero_f = zero_new f in
    let one_f : refers f (some f) ≡ 1 = rw (self f) refl in
    settle s p new (some f) (update s.ftable f z) lt nlt
      (λ g _.
        recount s.ftable f z (s.ofile p new) (some f) (omega arith)
          (λ k ne. zero_new k ∙ sym (refers_other f k ne)) g)
      (λ g eq. subst (λ k. k < nfile) (some_inj eq) flt) v

pub sys_open-Ends :
    (device : Option ℕ) (ip omode p : ℕ) (s : Files)
    → p < nproc
    → IsValid s
    → Ends p s (open_file device ip omode p s)
unfolding open_file Ends
sys_open-Ends device ip omode p s lt v = elim (filealloc-cases s.ftable) [
  | inl e ↦ (s, [], minus_one, rw (open_file, e) refl, v, λ _ _. refl)
  | inr (f, flt, free, e) ↦ elim (fdalloc-cases f (s.ofile p)) [
    | inl a ↦
        let (t, c, closed, same) = undo s.ftable f free in
        let s' : Files = record { ftable = t; ofile = s.ofile } in
        let v' : IsValid s' = record {
          counted = λ g lt. same g ∙ v.counted g lt;
          in_table = v.in_table;
        } in
        (s', c ∷ [], minus_one, rw (open_file, e, a, closed) refl, v', λ _ _. refl)
    | inr (new, nlt, empty, a) ↦
        let t : Ftable = update s.ftable f (record (s.ftable f) { ref = 1 }) in
        let z : File = set_file device ip omode (t f) in
        let one : z.ref ≡ 1 =
          set_file-ref device ip omode (t f)
          ∙ ap (λ g. g.ref) (update_self s.ftable f (record (s.ftable f) { ref = 1 })) in
        let v' = first s p new f z v lt nlt flt empty free one in
        (
          record { ftable = update t f z; ofile = set_fd p new (some f) s.ofile },
          [],
          new,
          rw (open_file, e, a) refl,
          subst (λ h. IsValid (record { ftable = h; ofile = set_fd p new (some f) s.ofile }))
              (sym (update-update s.ftable f (record (s.ftable f) { ref = 1 }) z)) v',
          λ q ne. update_ne s.ofile p (update (s.ofile p) new (some f)) q ne,
        )
  ]
]
