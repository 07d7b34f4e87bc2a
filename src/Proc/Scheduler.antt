-- ===== src/Proc/Scheduler.antt =====
-- kernel/proc.c: the priority based branch (PBS) of `scheduler`, one pass of its outer loop up to
-- the switch. The pass runs with the locks of the entries it compares, so it is one step.
pub mod Order
pub mod Choice
pub mod Pick
use cow_pbs_cofee_cafe_icecr.Base.{
  ℕ, zero, suc, ◌+◌, Bool, true, ◌&&◌, ◌||◌, Option, none, some, ℤ, pos, ◌+ℤ◌, ltb_ℤ, eqb_ℤ, int32,
  ltb, ◌==◌, if◌then◌else◌, update,
}
use cow_pbs_cofee_cafe_icecr.Proc.Defs.{Proc, runnable, running, state_eq, nproc, Table}
use cow_pbs_cofee_cafe_icecr.Proc.Priority.{dp_calc}

-- What the loop compares of an entry: its dynamic priority and its two tie breakers.
pub record Rank : Type 0 where
  pub dp : ℤ
  pub count : ℤ
  pub ctime : ℕ

pub rank : Proc → Rank
rank p = record { dp = (dp_calc p).0; count = p.schedule_count; ctime = p.ctime }

-- The three disjuncts of the test behind `!pri_pro`, for `p` against `pri_pro`.
pub before : Rank → Rank → Bool
before p q =
    ltb_ℤ p.dp q.dp
    || ((eqb_ℤ p.dp q.dp && ltb_ℤ p.count q.count)
        || (eqb_ℤ p.dp q.dp && (eqb_ℤ p.count q.count && ltb p.ctime q.ctime)))

-- The body of the loop over the table at a runnable entry `i`. Evaluating the test stores the `rbi`
-- of both entries; against a null `pri_pro` it is not evaluated.
pub compare_with : Table → ℕ → Option ℕ → Table × Option ℕ
compare_with t i none = (t, some i)
compare_with t i (some b) =
    let t' = update t i (dp_calc (t i)).1 in
    let t'' = update t' b (dp_calc (t' b)).1 in
    (t'', if before (rank (t i)) (rank (t b)) then some i else some b)

pub examine : Table → ℕ → Option ℕ → Table × Option ℕ
examine t i best = if state_eq (t i).state runnable then compare_with t i best else (t, best)

-- The loop over the entries from `i` on, `n` of them.
pub select : ℕ → ℕ → Table → Option ℕ → Table × Option ℕ
select zero i t best = (t, best)
select (suc n) i t best = let (t', best') = examine t i best in select n (i + 1) t' best'

-- What happens to the chosen entry before `swtch`.
pub dispatch : Proc → Proc
dispatch p = record p {
  schedule_count = int32 (p.schedule_count +ℤ pos 1);
  running_time = pos 0;
  state = running;
}

-- What follows the loop: with no choice the outer loop goes round again.
pub switch_to : Table → Option ℕ → Table × Option ℕ
switch_to t none = (t, none)
switch_to t (some b) = (update t b (dispatch (t b)), some b)

-- One pass: the table at the switch, and the process that `c->proc` is set to.
pub scheduler : Table → Table × Option ℕ
scheduler t = let (t', chosen) = select nproc 0 t none in switch_to t' chosen
