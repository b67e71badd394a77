-- ===== src/Vm/Pte.antt =====
-- The parts of a page-table entry do not disturb one another.
use enhanced_xv.Base.{ℕ, ◌%◌, ◌^◌, ◌<◌, ◌≡◌, arith}
use enhanced_xv.Proc.{pgsize}
use enhanced_xv.Vm.{pte2pa, pte_flags, pte_of}

-- The entry made of a page address below 2 ^ 56 and ten flag bits gives both back.
pte_of-parts :
    (pa flags : ℕ)
    → pa % pgsize ≡ 0
    → pa < 2 ^ 56
    → flags < 2 ^ 10
    → (pte2pa (pte_of pa flags) ≡ pa) × (pte_flags (pte_of pa flags) ≡ flags)
pte_of-parts pa flags al small fits = omega arith
