-- ===== src/Proc/Machine.antt =====
-- The operations of kernel/proc.c and kernel/sysproc.c as steps of one table, in any order: each
-- runs under the locks of the source, so they interleave whole. An operation of a process is taken
-- only while it is RUNNING. The creation of a process and `wait` are not among them: Proc.Life adds
-- them.
pub mod Entry
pub mod States
use cow_pbs_cofee_cafe_icecr.Base.{ℕ, ◌<◌, ◌≡◌, Option, some, ℤ}
use cow_pbs_cofee_cafe_icecr.Proc.Defs.{Chan, running, Table, nproc}
use cow_pbs_cofee_cafe_icecr.Proc.Scheduler.{scheduler}
use cow_pbs_cofee_cafe_icecr.Proc.Clock.{clockintr}
use cow_pbs_cofee_cafe_icecr.Proc.Sleep.{sleep, sleep_return, yield, wakeup, kill, setkilled}
use cow_pbs_cofee_cafe_icecr.Proc.SetPriority.{sys_setpriority}
use cow_pbs_cofee_cafe_icecr.Proc.Exit.{exit}

pub data Step (initproc : ℕ) (t u : Table) : Type 0 where
  schedules : u ≡ (scheduler t).0 → Step initproc t u
  ticks_over : (me : Option ℕ) (ticks : ℕ) → u ≡ (clockintr me (ticks, t)).1 → Step initproc t u
  sleeps : (me : ℕ) (c : Chan) → (t me).state ≡ running → u ≡ sleep me c t → Step initproc t u
  returns : (me : ℕ) → (t me).state ≡ running → u ≡ sleep_return me t → Step initproc t u
  yields : (me : ℕ) → (t me).state ≡ running → u ≡ yield me t → Step initproc t u
  wakes : (me : Option ℕ) (c : Chan) → u ≡ wakeup me c t → Step initproc t u
  kills : (pid : ℤ) → u ≡ (kill pid t).1 → Step initproc t u
  marks : (i : ℕ) → u ≡ setkilled i t → Step initproc t u
  sets :
      (me : ℕ) (pid new : ℤ)
      → (t me).state ≡ running
      → u ≡ (sys_setpriority me pid new t).1
      → Step initproc t u
  exits :
      (p ticks : ℕ) (status : ℤ)
      → p < nproc
      → (t p).state ≡ running
      → exit initproc ticks status p t ≡ some u
      → Step initproc t u

pub data Reach (initproc : ℕ) (t : Table) : Table → Type 0 where
  here : Reach initproc t t
  next : {u v : Table} → Reach initproc t u → Step initproc u v → Reach initproc t v
