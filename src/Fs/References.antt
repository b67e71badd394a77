-- ===== src/Fs/References.antt =====
-- References to an inode in memory are added and taken away (src/kernel/fs.c).
use enhanced_xv.Base.{
  ℕ, suc, ◌<◌, ◌≡◌, ◌≢◌, refl, sym, ◌∙◌, ap, Bool, true, false, ◌&&◌, ◌==◌, update, update_self,
  update_ne, arith, Bool-cases, inl, inr, add32, int_half, sub32, ◌↔◌, update-update, update_same,
}
use mathlib.Core.Bool.{false≢true}
use enhanced_xv.Fs.Inodes.{IsSingle, recounted}
use enhanced_xv.Fs.{Inode, Itable, ninode, idup, iput}

-- idup of an entry in use adds one reference; the iput that follows takes it away, frees nothing, and the
-- count and the inode of every entry are as before.
pub iput-idup :
    (t : Itable) (i : ℕ)
    → 0 < (t i).ref
    → suc (t i).ref < int_half
    → ((idup i t i).ref ≡ suc (t i).ref)
      × ((iput i (idup i t)).1 ≡ false)
      × ((iput i (idup i t)).0 ≡ t)
unfolding idup iput
iput-idup t i pos small =
    let ip : Inode = record (t i) { ref = add32 (t i).ref 1 } in
    let self : update t i ip i ≡ ip = update_self t i ip in
    let two : ((add32 (t i).ref 1) == 1) ≡ false = ground arith in
    let back : sub32 (add32 (t i).ref 1) 1 ≡ (t i).ref = omega arith in
    (
      ap (λ x. x.ref) self ∙ omega arith,
      rw (self, two) refl,
      rw (self, two, back) (update-update t i ip (t i) ∙ update_same t i),
    )

dropped :
    (t : Itable) (i : ℕ) (ip : Inode)
    → i < ninode
    → IsSingle t
    → 0 < (t i).ref
    → (t i).ref < int_half
    → ip.ref ≡ (t i).ref
    → ip.dev ≡ (t i).dev
    → ip.inum ≡ (t i).inum
    → (suc (update t i (record ip { ref = sub32 ip.ref 1 }) i).ref ≡ (t i).ref)
      × ((j : ℕ) → j ≢ i → update t i (record ip { ref = sub32 ip.ref 1 }) j ≡ t j)
      × IsSingle (update t i (record ip { ref = sub32 ip.ref 1 }))
dropped t i ip lt s pos small r d n =
    let one_less : Inode = record ip { ref = sub32 ip.ref 1 } in
    (
      ap (λ x. suc x.ref) (update_self t i one_less) ∙ omega arith,
      λ j ne. update_ne t i one_less j ne,
      recounted t i one_less lt s (λ _. pos) d n,
    )

-- iput of an entry with references takes one away, keeps the table without doubles, and truncates and frees
-- the inode exactly when it was the last reference to an inode that was read and has no links; the entry
-- is then to be read from the disk again.
pub iput_lem :
    (t : Itable) (i : ℕ)
    → i < ninode
    → IsSingle t
    → 0 < (t i).ref
    → (t i).ref < int_half
    → (suc ((iput i t).0 i).ref ≡ (t i).ref)
      × ((j : ℕ) → j ≢ i → (iput i t).0 j ≡ t j)
      × IsSingle (iput i t).0
      × (((iput i t).1 ≡ true) ↔ (((t i).ref ≡ 1) × ((t i).valid ≡ true) × ((t i).nlink ≡ 0)))
      × ((iput i t).1 ≡ true → ((iput i t).0 i).valid ≡ false)
unfolding iput
iput_lem t i lt s pos small =
    let frees : Bool = (t i).ref == 1 && (t i).valid && (t i).nlink == 0 in
    elim (Bool-cases frees) [
      | inl f ↦
          let out : Inode = record (t i) { valid = false } in
          let (a, b, c) = dropped t i out lt s pos small refl refl refl in
          (
            rw f a,
            rw f b,
            rw f c,
            (λ _. (ground arith, ground arith, ground arith), λ _. f),
            λ _. rw f (ap (λ x. x.valid) (update_self t i (record out { ref = sub32 out.ref 1 }))),
          )
      | inr f ↦
          let (a, b, c) = dropped t i (t i) lt s pos small refl refl refl in
          (
            rw f a,
            rw f b,
            rw f c,
            (λ g. absurd (false≢true (sym f ∙ g)), λ (x, y, z). rw (x, y, z) refl),
            λ g. absurd (false≢true (sym f ∙ g)),
          )
    ]
