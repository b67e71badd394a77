-- ===== src/Vm/Walk.antt =====
-- `walk` without allocation reads only.
use enhanced_xv.Base.{ℕ, zero, suc, ◌+◌, ◌*◌, ◌≡◌, refl, false, Bool-cases, inl, inr, some, leb}
use enhanced_xv.Proc.{maxva}
use enhanced_xv.Kalloc.{Kmem}
use enhanced_xv.Vm.{bit, px, pte2pa, walk_levels, walk}

walk_levels-pure :
    (level pagetable va : ℕ) (m : Kmem) → (walk_levels level pagetable va false m).1 ≡ m
unfolding walk_levels
walk_levels-pure zero pagetable va m = refl
walk_levels-pure (suc level) pagetable va m =
    elim (Bool-cases (bit 0 (m.word (pagetable + 8 * px (suc level) va)))) [
      | inl e ↦
          rw e (walk_levels-pure level (pte2pa (m.word (pagetable + 8 * px (suc level) va))) va m)
      | inr e ↦ rw e
    ]

-- Below MAXVA, `walk` without allocation answers, and changes nothing.
pub walk-pure :
    (pagetable va : ℕ) (m : Kmem)
    → leb maxva va ≡ false
    → walk pagetable va false m ≡ some ((walk_levels 2 pagetable va false m).0, m)
unfolding walk
walk-pure pagetable va m below = rw (below, walk_levels-pure 2 pagetable va m)
