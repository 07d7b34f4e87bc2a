-- ===== src/Proc/Priority/Frame.antt =====
-- What `dp_calc` of kernel/proc.c changes of a process: the stored `rbi`, which it does not read.
use cow_pbs_cofee_cafe_icecr.Base.{ℤ, ◌≡◌, refl}
use cow_pbs_cofee_cafe_icecr.Proc.Defs.{Proc}
use cow_pbs_cofee_cafe_icecr.Proc.Priority.{dp_calc, rbi_calculator}

-- The two entries differ in the stored `rbi` at most.
abbrev pub SameButRbi : Proc → Proc → Type 0
SameButRbi p q = (x : ℤ) × (p ≡ record q { rbi = x })

pub dp_calc-rbi : (p : Proc) (x : ℤ) → (dp_calc (record p { rbi = x })).0 ≡ (dp_calc p).0
unfolding dp_calc rbi_calculator
dp_calc-rbi p x = refl

pub dp_calc-SameButRbi : (p q : Proc) → SameButRbi p q → SameButRbi (dp_calc p).1 q
unfolding dp_calc rbi_calculator
dp_calc-SameButRbi p q (x, e) = ((dp_calc p).1.rbi, rw e refl)
