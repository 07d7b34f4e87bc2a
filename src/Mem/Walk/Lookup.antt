-- ===== src/Mem/Walk/Lookup.antt =====
-- Lookups by `walk` of kernel/vm.c change nothing.
use cow_pbs_cofee_cafe_icecr.Base.{
  ℕ, ◌≤◌, ◌<◌, ◌≡◌, refl, arith, ap, ◌∙◌, false, true, leb, Option, none, some, panic, ret,
}
use cow_pbs_cofee_cafe_icecr.Mem.Pages.{Mem}
use cow_pbs_cofee_cafe_icecr.Mem.Pte.{maxva}
use cow_pbs_cofee_cafe_icecr.Mem.Walk.{walk, descend, middle_table, last_table}

-- The word of the entry for `va`, where both tables above it are there.
unfoldable pub lookup : ℕ → ℕ → Mem → Option ℕ
unfolding descend middle_table last_table
lookup pagetable va m = (middle_table false va (descend 2 false pagetable va m)).0

descend-mem : (level pagetable va : ℕ) (m : Mem) → (descend level false pagetable va m).1 ≡ m
unfolding descend
descend-mem level pagetable va m = ground arith

last_table-mem : (va : ℕ) (r : Option ℕ × Mem) → (last_table va r).1 ≡ r.1
unfolding last_table
last_table-mem va (none, m) = refl
last_table-mem va (some t, m) = refl

middle_table-mem : (va : ℕ) (r : Option ℕ × Mem) → (middle_table false va r).1 ≡ r.1
unfolding middle_table
middle_table-mem va (none, m) = refl
middle_table-mem va (some t, m) = last_table-mem va (descend 1 false t va m) ∙ descend-mem 1 t va m

-- A lookup below MAXVA returns, and leaves the memory as it was; at MAXVA or above it panics.
pub walk-lookup :
    (pagetable va : ℕ) (m : Mem)
    → (va < maxva → walk pagetable va false m ≡ ret (lookup pagetable va m, m))
      × (maxva ≤ va → walk pagetable va false m ≡ panic)
unfolding walk lookup
walk-lookup pagetable va m = (
  λ h. rw (below va h) (
      ap ret (
        pair _ m
          (middle_table-mem va (descend 2 false pagetable va m) ∙ descend-mem 2 pagetable va m))),
  λ h. rw (above va h),
)
  where
    below : (va : ℕ) → va < maxva → leb maxva va ≡ false
    below va h = ground arith

    above : (va : ℕ) → maxva ≤ va → leb maxva va ≡ true
    above va h = ground arith

    pair : (r : Option ℕ × Mem) (m : Mem) → r.1 ≡ m → r ≡ (r.0, m)
    pair r m e = cc
