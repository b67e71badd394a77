-- ===== src/File/Counts.antt =====
-- The reference count of an open file is the number of descriptors on it.
use enhanced_xv.Base.{
  ℕ, ◌+◌, ◌*◌, ◌<◌, ◌≤◌, ◌≡◌, ◌≢◌, refl, sym, ◌∙◌, ap, Option, none, some, true, false,
  if◌then◌else◌, ◌==◌, update, update_self, update_ne, total, total_change, total_bound,
  total_entry, arith, Bool-cases, inl, inr, int_lt, add32, sub32, subst, some_inj,
}
use enhanced_xv.Proc.{nproc}
use enhanced_xv.File.{
  File, Ftable, Ofile, Files, nfile, nofile, filedup, fileclose, set_fd, keep, closing, fd_none,
}

abbrev pub refers : ℕ → Option ℕ → ℕ
refers f none = 0
refers f (some g) = if g == f then 1 else 0

-- The number of descriptors on a file.
unfoldable pub handles : (ℕ → Ofile) → ℕ → ℕ
handles tables f = total (λ p. total (λ fd. refers f (tables p fd)) nofile) nproc

pub record IsValid (s : Files) : Type 0 where
  pub counted : (f : ℕ) → f < nfile → (s.ftable f).ref ≡ handles s.ofile f
  pub in_table : (p fd f : ℕ) → s.ofile p fd ≡ some f → f < nfile

pub handles_set :
    (tables : ℕ → Ofile) (p fd : ℕ) (entry : Option ℕ) (f : ℕ)
    → p < nproc
    → fd < nofile
    → handles (set_fd p fd entry tables) f + refers f (tables p fd)
      ≡ handles tables f + refers f entry
unfolding handles
handles_set tables p fd entry f lt lt' =
    let row = update (tables p) fd entry in
    let inner =
      total_change (λ k. refers f (tables p k)) (λ k. refers f (row k)) nofile fd lt'
        (λ k ne. ap (refers f) (sym (update_ne (tables p) fd entry k ne))) in
    let outer =
      total_change (λ q. total (λ k. refers f (tables q k)) nofile)
        (λ q. total (λ k. refers f (update tables p row q k)) nofile) nproc p lt
        (λ q ne.
          ap (λ r. total (λ k. refers f (r k)) nofile) (sym (update_ne tables p row q ne))) in
    let at_p : total (λ k. refers f (update tables p row p k)) nofile
        ≡ total (λ k. refers f (row k)) nofile =
      ap (λ r. total (λ k. refers f (r k)) nofile) (update_self tables p row) in
    let at_fd : refers f (row fd) ≡ refers f entry =
      ap (refers f) (update_self (tables p) fd entry) in
    omega arith

pub self : (f : ℕ) → (f == f) ≡ true
self f = ground arith

refers_bound : (f : ℕ) (o : Option ℕ) → refers f o ≤ 1
refers_bound f none = omega arith
refers_bound f (some g) = ground arith

pub handles_bound : (tables : ℕ → Ofile) (f : ℕ) → handles tables f ≤ nproc * nofile
unfolding handles
handles_bound tables f =
    total_bound (λ p. total (λ fd. refers f (tables p fd)) nofile) nproc nofile
      (λ p _.
        total_bound (λ fd. refers f (tables p fd)) nofile 1 (λ fd _. refers_bound f (tables p fd)))

pub handles-some :
    (tables : ℕ → Ofile) (p fd f : ℕ)
    → p < nproc
    → fd < nofile
    → tables p fd ≡ some f
    → 1 ≤ handles tables f
unfolding handles
handles-some tables p fd f lt lt' e =
    let inner = total_entry (λ k. refers f (tables p k)) nofile fd lt' in
    let outer = total_entry (λ q. total (λ k. refers f (tables q k)) nofile) nproc p lt in
    let one : refers f (tables p fd) ≡ 1 = rw e (rw (self f) refl) in omega arith

-- A descriptor is set, and the counts change by as much as the references.
pub settle :
    (s : Files) (p fd : ℕ) (entry : Option ℕ) (t : Ftable)
    → p < nproc
    → fd < nofile
    → ((f : ℕ)
        → f < nfile
        → (t f).ref + refers f (s.ofile p fd) ≡ (s.ftable f).ref + refers f entry)
    → ((f : ℕ) → entry ≡ some f → f < nfile)
    → IsValid s
    → IsValid (record { ftable = t; ofile = set_fd p fd entry s.ofile })
settle s p fd entry t lt lt' balance real v = record {
  counted = λ f below.
      let change = handles_set s.ofile p fd entry f lt lt' in
      let was = v.counted f below in let now = balance f below in omega arith;
  in_table = λ q k f e. elim (Bool-cases (p == q)) [
    | inr other ↦ v.in_table q k f (sym (rw other refl) ∙ e)
    | inl same ↦
        let row : update (s.ofile p) fd entry k ≡ some f = sym (rw same refl) ∙ e in
        elim (Bool-cases (fd == k)) [
          | inl here ↦ real f (sym (rw here refl) ∙ row)
          | inr there ↦ v.in_table p k f (sym (rw there refl) ∙ row)
        ]
  ];
}

-- One file's count makes up for one file's references.
pub recount :
    (t : Ftable) (f : ℕ) (x : File) (o entry : Option ℕ)
    → x.ref + refers f o ≡ (t f).ref + refers f entry
    → ((g : ℕ) → f ≢ g → refers g o ≡ refers g entry)
    → (g : ℕ) → (update t f x g).ref + refers g o ≡ (t g).ref + refers g entry
recount t f x o entry at_f apart g = elim (Bool-cases (f == g)) [
  | inl e ↦
      let same : f ≡ g = ground arith in
      rw e (subst (λ k. x.ref + refers k o ≡ (t k).ref + refers k entry) same at_f)
  | inr e ↦ rw e (ap (λ r. (t g).ref + r) (apart g (ground arith)))
]

pub refers_other : (f g : ℕ) → f ≢ g → refers g (some f) ≡ 0
refers_other f g ne = ground arith

-- A further descriptor on a file that has one.
pub dup_lem :
    (s : Files) (p fd q new f : ℕ)
    → IsValid s
    → p < nproc
    → fd < nofile
    → s.ofile p fd ≡ some f
    → q < nproc
    → new < nofile
    → s.ofile q new ≡ none
    → (t : Ftable) × (filedup f s.ftable ≡ some t)
      × IsValid (record { ftable = t; ofile = set_fd q new (some f) s.ofile })
unfolding filedup
dup_lem s p fd q new f v lt lt' e qlt nlt empty =
    let below = v.in_table p fd f e in
    let count = v.counted f below in
    let low = handles-some s.ofile p fd f lt lt' e in
    let high = handles_bound s.ofile f in
    let open_still : int_lt (s.ftable f).ref 1 ≡ false = ground arith in
    let x : File = record (s.ftable f) { ref = add32 (s.ftable f).ref 1 } in
    let one : refers f (some f) ≡ 1 = rw (self f) refl in
    let zero_new : (g : ℕ) → refers g (s.ofile q new) ≡ 0 = λ g. rw empty refl in
    let zero_f = zero_new f in
    (
      update s.ftable f x,
      rw open_still refl,
      settle s q new (some f) (update s.ftable f x) qlt nlt
          (λ g _.
            recount s.ftable f x (s.ofile q new) (some f) (omega arith)
              (λ k ne. zero_new k ∙ sym (refers_other f k ne)) g)
          (λ g eq. subst (λ k. k < nfile) (some_inj eq) below) v,
    )

-- The release of a descriptor; the object is let go of exactly when it was the last one on the file.
pub close_lem :
    (s : Files) (p fd f : ℕ)
    → IsValid s
    → p < nproc
    → fd < nofile
    → s.ofile p fd ≡ some f
    → (t : Ftable) × (fileclose f s.ftable
        ≡ some
            (t, if handles (set_fd p fd none s.ofile) f == 0 then closing (s.ftable f) else keep))
      × IsValid (record { ftable = t; ofile = set_fd p fd none s.ofile })
unfolding fileclose
close_lem s p fd f v lt lt' e =
    let below = v.in_table p fd f e in
    let count = v.counted f below in
    let low = handles-some s.ofile p fd f lt lt' e in
    let high = handles_bound s.ofile f in
    let change = handles_set s.ofile p fd none f lt lt' in
    let one : refers f (s.ofile p fd) ≡ 1 = rw e (rw (self f) refl) in
    let open_still : int_lt (s.ftable f).ref 1 ≡ false = ground arith in
    let apart : (g : ℕ) → f ≢ g → refers g (s.ofile p fd) ≡ refers g none =
      λ g ne. ap (refers g) e ∙ refers_other f g ne in
    let nothing_left : File = record (s.ftable f) { ref = 0; ftype = fd_none } in
    let one_less : File = record (s.ftable f) { ref = sub32 (s.ftable f).ref 1 } in
    elim (Bool-cases (handles (set_fd p fd none s.ofile) f == 0)) [
      | inl last ↦
          let was : (s.ftable f).ref ≡ 1 = ground arith in
          let down : int_lt 0 (sub32 (s.ftable f).ref 1) ≡ false = ground arith in
          (
            update s.ftable f nothing_left,
            rw (open_still, down, last) refl,
            settle s p fd none (update s.ftable f nothing_left) lt lt'
                (λ g _. recount s.ftable f nothing_left (s.ofile p fd) none (ground arith) apart g)
                (λ g eq. cc) v,
          )
      | inr more ↦
          let down : int_lt 0 (sub32 (s.ftable f).ref 1) ≡ true = ground arith in
          (
            update s.ftable f one_less,
            rw (open_still, down, more) refl,
            settle s p fd none (update s.ftable f one_less) lt lt'
                (λ g _. recount s.ftable f one_less (s.ofile p fd) none (ground arith) apart g)
                (λ g eq. cc) v,
          )
    ]
