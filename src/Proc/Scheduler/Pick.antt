-- ===== src/Proc/Scheduler/Pick.antt =====
-- The pass of `scheduler` in kernel/proc.c as a whole: the choice, and the table at the switch.
use cow_pbs_cofee_cafe_icecr.Base.{
  ℕ, ◌<◌, ◌≡◌, ◌≢◌, arith, refl, Option, none, some, ℤ, pos, ◌+ℤ◌, int32, update_self, update_other,
}
use cow_pbs_cofee_cafe_icecr.Proc.Defs.{Proc, runnable, running, nproc, Table}
use cow_pbs_cofee_cafe_icecr.Proc.Priority.Frame.{SameButRbi}
use cow_pbs_cofee_cafe_icecr.Proc.Scheduler.{rank, select, switch_to, scheduler, dispatch}
use cow_pbs_cofee_cafe_icecr.Proc.Scheduler.Order.{Precedes, before_iff}
use cow_pbs_cofee_cafe_icecr.Proc.Scheduler.Choice.{IsScan, select-IsScan}

-- `b` is runnable, no runnable entry precedes it, and it precedes those of lower index.
pub record IsMinimum (t : Table) (b : ℕ) : Type 0 where
  pub below : b < nproc
  pub is_runnable : (t b).state ≡ runnable
  pub least : (j : ℕ) → j < nproc → (t j).state ≡ runnable → ¬ Precedes (rank (t j)) (rank (t b))
  pub lowest : (j : ℕ) → j < b → (t j).state ≡ runnable → Precedes (rank (t b)) (rank (t j))

-- What a pass over `t` may choose.
abbrev pub IsPick : Table → Option ℕ → Type 0
IsPick t none = (j : ℕ) → j < nproc → (t j).state ≢ runnable
IsPick t (some b) = IsMinimum t b

scan : (t : Table) → IsScan t nproc (select nproc 0 t none)
scan t =
    select-IsScan nproc 0 nproc t t none (omega arith)
      (record { same = λ j. ((t j).rbi, refl); choice = λ j lt. absurd (omega arith) })

pick : (t₀ t : Table) (c : Option ℕ) → IsScan t₀ nproc (t, c) → IsPick t₀ (switch_to t c).1
unfolding switch_to
pick t₀ t none s = s.choice
pick t₀ t (some b) s = record {
  below = s.choice.below;
  is_runnable = s.choice.is_runnable;
  least = λ j lt r p. cc ((before_iff _ _).1 p, s.choice.least j lt r);
  lowest = λ j lt r. (before_iff _ _).0 (s.choice.lowest j lt r);
}

-- The pass chooses no entry only if none is runnable, and otherwise the least of the runnable
-- entries by dynamic priority, then schedule count, then creation time, the one of lowest index
-- among equals.
pub scheduler-IsPick : (t : Table) → IsPick t (scheduler t).1
unfolding scheduler
scheduler-IsPick t = pick t _ _ (scan t)

-- The chosen entry runs, counted once more and with its running time reset.
abbrev pub IsDispatched : Proc → Proc → Type 0
IsDispatched p q =
    (x : ℤ) × (p ≡ record q {
      rbi = x;
      schedule_count = int32 (q.schedule_count +ℤ pos 1);
      running_time = pos 0;
      state = running;
    })

abbrev pub IsSwitch : Table → Table → Option ℕ → Type 0
IsSwitch t₀ t none = (j : ℕ) → SameButRbi (t j) (t₀ j)
IsSwitch t₀ t (some b) = IsDispatched (t b) (t₀ b) × ((j : ℕ) → b ≢ j → SameButRbi (t j) (t₀ j))

dispatch-IsDispatched : (p q : Proc) → SameButRbi p q → IsDispatched (dispatch p) q
unfolding dispatch
dispatch-IsDispatched p q (x, e) = (x, rw e refl)

switch :
    (t₀ t : Table) (c : Option ℕ)
    → IsScan t₀ nproc (t, c)
    → IsSwitch t₀ (switch_to t c).0 (switch_to t c).1
unfolding switch_to
switch t₀ t none s = s.same
switch t₀ t (some b) s = (
  rw (update_self t b (dispatch (t b))) (dispatch-IsDispatched (t b) (t₀ b) (s.same b)),
  λ j n. rw (update_other t b (dispatch (t b)) j n) (s.same j),
)

-- At the switch the chosen entry is RUNNING, its schedule count one higher and its running time 0,
-- every other entry is as before the pass but for its stored `rbi`, and with no choice that holds
-- of all.
pub scheduler-IsSwitch : (t : Table) → IsSwitch t (scheduler t).0 (scheduler t).1
unfolding scheduler
scheduler-IsSwitch t = switch t _ _ (scan t)
