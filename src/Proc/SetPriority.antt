-- ===== src/Proc/SetPriority.antt =====
-- kernel/sysproc.c: `change_priority`, `check_valid_newp`, `check_valid_pid` and `sys_setpriority`
-- as the PBS build has it, on its two arguments as `argint` returns them.
pub mod Laws
use cow_pbs_cofee_cafe_icecr.Base.{
  ℕ, Bool, ◌||◌, Option, none, some, ℤ, pos, negsuc, ltb_ℤ, eqb_ℤ, if◌then◌else◌, update,
}
use cow_pbs_cofee_cafe_icecr.Proc.Defs.{Proc, Table, nproc}
use cow_pbs_cofee_cafe_icecr.Proc.Table.{find}
use cow_pbs_cofee_cafe_icecr.Proc.Sleep.{yield}

-- 1, here `true`, says that the argument is not valid.
pub check_valid_newp : ℤ → Bool
check_valid_newp new = ltb_ℤ new (pos 0) || ltb_ℤ (pos 100) new

pub check_valid_pid : ℤ → Bool
check_valid_pid pid = ltb_ℤ pid (pos 0)

pub reprioritise : ℤ → Proc → Proc
reprioritise new p = record p { running_time = pos 0; sleep_time = pos 0; st_priority = new }

-- The value returned and the table, at the switch if the caller `me` yields.
pub change_priority : ℕ → ℤ → ℕ → Table → ℤ × Table
change_priority me new i t =
    let op = (t i).st_priority in
    let t' = update t i (reprioritise new (t i)) in (op, if ltb_ℤ new op then yield me t' else t')

pub set_found : ℕ → ℤ → Table → Option ℕ → ℤ × Table
set_found me new t none = (negsuc 0, t)
set_found me new t (some i) = change_priority me new i t

pub sys_setpriority : ℕ → ℤ → ℤ → Table → ℤ × Table
sys_setpriority me pid new t =
    if check_valid_newp new || check_valid_pid pid
    then (negsuc 0, t)
    else set_found me new t (find nproc 0 (λ p. eqb_ℤ p.pid pid) t)
