-- ===== src/Proc/Tests.antt =====
-- The process table at concrete tables: tests of the operations and instances of their theorems.
use cow_pbs_cofee_cafe_icecr.Base.{
  ℕ, ◌+◌, ◌-◌, ◌*◌, ◌/◌, ◌<◌, ◌≡◌, ◌≢◌, ◌⊎◌, refl, arith, Option, none, some, pos, ◌==◌,
  if◌then◌else◌,
}
use cow_pbs_cofee_cafe_icecr.Proc.Defs.{
  Proc, ProcState, unused, sleeping, runnable, running, Chan, null, of_proc, of_ticks, Table, nproc,
}
use cow_pbs_cofee_cafe_icecr.Proc.Priority.{dp_calc}
use cow_pbs_cofee_cafe_icecr.Proc.Priority.Bounds.{dp_calc-sum}
use cow_pbs_cofee_cafe_icecr.Proc.Scheduler.{scheduler}
use cow_pbs_cofee_cafe_icecr.Proc.Scheduler.Pick.{
  IsPick, IsSwitch, scheduler-IsPick, scheduler-IsSwitch,
}
use cow_pbs_cofee_cafe_icecr.Proc.SetPriority.{sys_setpriority}
use cow_pbs_cofee_cafe_icecr.Proc.SetPriority.Laws.{
  IsRequest, IsRefused, IsReprioritised, sys_setpriority-cases,
}
use cow_pbs_cofee_cafe_icecr.Proc.Exit.{exit}
use cow_pbs_cofee_cafe_icecr.Proc.Exit.Zombie.{IsExited, exit-IsExited}
use cow_pbs_cofee_cafe_icecr.Proc.Machine.{Step, yields, here, next}
use cow_pbs_cofee_cafe_icecr.Proc.Machine.Entry.{InRange}
use cow_pbs_cofee_cafe_icecr.Proc.Machine.States.{Reach-InRange}
use cow_pbs_cofee_cafe_icecr.Proc.Sleep.{yield}

-- An entry with a state, a number and a parent.
abbrev entry : ProcState → Chan → ℕ → Option ℕ → Proc
entry s c n parent = record {
  state = s;
  chan = c;
  killed = pos 0;
  xstate = pos 0;
  pid = pos n;
  parent = parent;
  sz = 0;
  pagetable = 0;
  trapframe = 0;
  rtime = 0;
  ctime = n;
  etime = 0;
  wait_time = pos 1;
  running_time = pos 1;
  sleep_time = pos 0;
  st_priority = pos 50;
  rbi = pos 25;
  schedule_count = pos 0;
}

-- init waits for its child 1, which runs; 2 sleeps on `ticks`; 3 and 4 may run, 4 with the lower
-- priority value.
abbrev demo : Table
demo i =
    if i == 0
    then entry sleeping (of_proc 0) 1 none
    else if i == 1
    then entry running null 2 (some 0)
    else if i == 2
    then entry sleeping of_ticks 3 (some 1)
    else if i == 3
    then entry runnable null 4 (some 1)
    else if i == 4
    then record (entry runnable null 5 (some 1)) { st_priority = pos 20 }
    else entry unused null 0 none

dp_calc-sum_example :
    (dp_calc (record (demo 1) { st_priority = pos 90 })).0
    ≡ pos (90 + (3 * 1 - (0 + 1)) * 50 / (1 + 1 + 0 + 1))
dp_calc-sum_example =
    dp_calc-sum (record (demo 1) { st_priority = pos 90 }) 90 1 0 1 refl refl refl refl
      (omega arith) (omega arith) (omega arith) (omega arith)

scheduler-IsPick_example : IsPick demo (scheduler demo).1
scheduler-IsPick_example = scheduler-IsPick demo

scheduler-IsSwitch_example : IsSwitch demo (scheduler demo).0 (scheduler demo).1
scheduler-IsSwitch_example = scheduler-IsSwitch demo

sys_setpriority-cases_example :
    (¬ IsRequest (pos 4) (pos 10) × IsRefused demo (sys_setpriority 1 (pos 4) (pos 10) demo))
    ⊎ (IsRequest (pos 4) (pos 10)
        × ((j : ℕ) → j < nproc → (demo j).pid ≢ pos 4)
        × IsRefused demo (sys_setpriority 1 (pos 4) (pos 10) demo))
    ⊎ (IsRequest (pos 4) (pos 10)
        × IsReprioritised 1 (pos 4) (pos 10) demo (sys_setpriority 1 (pos 4) (pos 10) demo))
sys_setpriority-cases_example = sys_setpriority-cases 1 (pos 4) (pos 10) demo

exit-IsExited_example :
    ((◌≡◌ {A = ℕ} 1 0) × (exit 0 9 (pos 3) 1 demo ≡ none))
    ⊎ ((◌≢◌ {A = ℕ} 1 0)
        × ((u : Table) × (exit 0 9 (pos 3) 1 demo ≡ some u) × IsExited 0 9 (pos 3) 1 demo u))
exit-IsExited_example = exit-IsExited 0 9 (pos 3) 1 demo (omega arith)

demo-yield : Step 0 demo (yield 1 demo)
demo-yield = yields 1 refl refl

demo-InRange : (j : ℕ) → j < nproc → InRange (demo j)
demo-InRange j h = ground arith

Reach-InRange_example : InRange (yield 1 demo 1)
Reach-InRange_example = Reach-InRange demo-InRange (next here demo-yield) 1 (omega arith)
