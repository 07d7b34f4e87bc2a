-- ===== src/Proc/Machine/States.antt =====
-- The life of a process under the steps of kernel/proc.c and kernel/sysproc.c.
use cow_pbs_cofee_cafe_icecr.Base.{ℕ, ◌<◌, ◌≡◌, ◌⊎◌, refl, ◌∙◌, arith}
use cow_pbs_cofee_cafe_icecr.Proc.Defs.{ProcState, unused, used, zombie, Table, nproc}
use cow_pbs_cofee_cafe_icecr.Proc.Machine.{
  Step, schedules, ticks_over, sleeps, returns, yields, wakes, kills, marks, sets, exits, Reach,
  here, next,
}
use cow_pbs_cofee_cafe_icecr.Proc.Scheduler.Pick.{scheduler-IsPick, scheduler-IsSwitch}
use cow_pbs_cofee_cafe_icecr.Proc.Sleep.Own.{
  yield-at, yield-other, sleep-at, sleep-other, sleep_return-at, sleep_return-other, setkilled-at,
  setkilled-other,
}
use cow_pbs_cofee_cafe_icecr.Proc.Sleep.Frame.{wakeup-IsWoken}
use cow_pbs_cofee_cafe_icecr.Proc.Machine.Entry.{
  Allowed, stay, wake, run, preempt, block, die, InRange, IsStep, at_one, IsSwitch-IsStep,
  IsWoken-IsStep, clockintr-IsStep, kill-IsStep, sys_setpriority-IsStep, exit-IsStep,
}

pub step :
    {initproc : ℕ} {t u : Table} → Step initproc t u → (j : ℕ) → j < nproc → IsStep (t j) (u j)
step {t = t} (schedules e) j h =
    rw e (IsSwitch-IsStep t _ _ (scheduler-IsPick t) (scheduler-IsSwitch t) j)
step {t = t} (ticks_over me ticks e) j h = rw e (clockintr-IsStep me ticks t j h)
step {t = t} (sleeps me c r e) j h = rw e (
    at_one t _ me _ (sleep-at me c t) (sleep-other me c t)
      (record { moves = rw r block; keeps = λ k. k; pid = refl }) j)
step {t = t} (returns me r e) j h = rw e (
    at_one t _ me _ (sleep_return-at me t) (sleep_return-other me t)
      (record { moves = stay; keeps = λ k. k; pid = refl }) j)
step {t = t} (yields me r e) j h = rw e (
    at_one t _ me _ (yield-at me t) (yield-other me t)
      (record { moves = rw r preempt; keeps = λ k. k; pid = refl }) j)
step {t = t} (wakes me c e) j h = rw e (IsWoken-IsStep _ _ (wakeup-IsWoken me c t j))
step {t = t} (kills pid e) j h = rw e (kill-IsStep pid t j)
step {t = t} (marks i e) j h = rw e (
    at_one t _ i _ (setkilled-at i t) (setkilled-other i t)
      (record { moves = stay; keeps = λ k. k; pid = refl }) j)
step {t = t} (sets me pid new r e) j h = rw e (sys_setpriority-IsStep me pid new t r j)
step {initproc} {t} {u} (exits p ticks status lt r e) j h =
    exit-IsStep initproc p ticks status t u lt r e j h

-- In any step each entry of the table keeps its state or goes from SLEEPING to RUNNABLE, from
-- RUNNABLE to RUNNING, or from RUNNING to RUNNABLE, SLEEPING or ZOMBIE.
pub Step-Allowed :
    {initproc : ℕ} {t u : Table}
    → Step initproc t u
    → (j : ℕ) → j < nproc
    → Allowed (t j).state (u j).state
Step-Allowed s j h = (step s j h).moves

-- In whatever order the steps come, static priorities that lie in 0 to 100 stay there.
pub Reach-InRange :
    {initproc : ℕ} {t u : Table}
    → ((j : ℕ) → j < nproc → InRange (t j))
    → Reach initproc t u
    → (j : ℕ) → j < nproc
    → InRange (u j)
Reach-InRange safe here j h = safe j h
Reach-InRange safe (next r s) j h = (step s j h).keeps (Reach-InRange safe r j h)

pub final :
    (s : ProcState)
    → (s ≡ unused) ⊎ (s ≡ used) ⊎ (s ≡ zombie)
    → {s' : ProcState} → Allowed s s'
    → s' ≡ s
final s e stay = refl
final s e wake = ground arith
final s e run = ground arith
final s e preempt = ground arith
final s e block = ground arith
final s e die = ground arith

-- In whatever order the steps come, an entry that is UNUSED, USED or ZOMBIE stays so: only
-- `allocproc`, `fork` and `wait` move it on.
pub Reach-final :
    {initproc : ℕ} {t u : Table}
    → Reach initproc t u
    → (j : ℕ) → j < nproc
    → ((t j).state ≡ unused) ⊎ ((t j).state ≡ used) ⊎ ((t j).state ≡ zombie)
    → (u j).state ≡ (t j).state
Reach-final here j h e = refl
Reach-final {t = t} (next {u = u} r s) j h e =
    let same = Reach-final r j h e in final (u j).state (rw same e) (step s j h).moves ∙ same
