-- ===== src/Proc/Priority.antt =====
-- kernel/proc.c: `max`, `min`, `rbi_calculator` and `dp_calc`, as they are written.
pub mod Bounds
pub mod Frame
use cow_pbs_cofee_cafe_icecr.Base.{ℤ, pos, ◌+ℤ◌, ◌-ℤ◌, ◌*ℤ◌, ltb_ℤ, quot, int32, if◌then◌else◌}
use cow_pbs_cofee_cafe_icecr.Proc.Defs.{Proc}

pub max : ℤ → ℤ → ℤ
max a b = if ltb_ℤ b a then a else b

-- Both branches of the source return `a`.
pub min : ℤ → ℤ → ℤ
min a b = if ltb_ℤ a b then a else a

-- The expression assigned to the local variable `rbi`, each `int` operation wrapped.
pub rbi_formula : ℤ → ℤ → ℤ → ℤ
rbi_formula running sleeping waiting = int32 (
    quot (int32 (int32 (int32 (int32 (pos 3 *ℤ running) -ℤ sleeping) -ℤ waiting) *ℤ pos 50))
      (int32 (int32 (int32 (running +ℤ waiting) +ℤ sleeping) +ℤ pos 1)))

-- The value returned, and the process with the value stored in `p->rbi`.
pub rbi_calculator : Proc → ℤ × Proc
rbi_calculator p =
    let rbi = rbi_formula p.running_time p.sleep_time p.wait_time in
    (max rbi (pos 0), record p { rbi = max rbi (pos 0) })

pub dp_calc : Proc → ℤ × Proc
dp_calc p = let (rbi, p') = rbi_calculator p in (min (int32 (p.st_priority +ℤ rbi)) (pos 100), p')
