-- ===== src/Proc/Wait.antt =====
-- kernel/proc.c: `wait` and `waitx`, from one sleep to the next. What copyout answers is an
-- argument.
pub mod Laws
pub mod Children
use cow_pbs_cofee_cafe_icecr.Base.{
  ℕ, zero, suc, ◌+◌, ◌-◌, ◌*◌, ◌%◌, ◌^◌, Bool, true, false, ◌&&◌, ◌||◌, not, ℤ, pos, negsuc, ltb_ℤ,
  eqb_ℤ, ◌==◌, if◌then◌else◌,
}
use cow_pbs_cofee_cafe_icecr.Proc.Defs.{Proc, of_proc, zombie, state_eq, Table, nproc}
use cow_pbs_cofee_cafe_icecr.Proc.Sleep.{sleep, killed}
use cow_pbs_cofee_cafe_icecr.Proc.Exit.{is_parent}
use cow_pbs_cofee_cafe_icecr.Proc.Create.{freeproc}

-- How the loop over the table ends: at a zombie, or at the end with `havekids`.
pub data Scan : Type 0 where
  reached : ℕ → Scan
  passed : Bool → Scan

pub find_zombie : ℕ → ℕ → Bool → ℕ → Table → Scan
find_zombie zero pp havekids me t = passed havekids
find_zombie (suc n) pp havekids me t =
    let kin = is_parent (t pp).parent me in
    let rest = find_zombie n (pp + 1) (kin || havekids) me t in
    if kin && state_eq (t pp).state zombie then reached pp else rest

-- The call returns, or it sleeps.
pub data Waited : Type 0 where
  returned : ℤ → Table → Waited
  sleeps : Table → Waited

-- At the zombie `pp`.
pub reap : ℕ → ℤ → ℕ → Table → Waited
reap addr copied pp t =
    if not (addr == 0) && ltb_ℤ copied (pos 0)
    then returned (negsuc 0) t
    else returned (t pp).pid (freeproc pp t)

pub wait_end : ℕ → ℤ → ℕ → Table → Scan → Waited
wait_end addr copied me t (reached pp) = reap addr copied pp t
wait_end addr copied me t (passed havekids) =
    if not havekids || not (eqb_ℤ (killed me t) (pos 0))
    then returned (negsuc 0) t
    else sleeps (sleep me (of_proc me) t)

-- One round of the outer loop.
pub wait : ℕ → ℤ → ℕ → Table → Waited
wait addr copied me t = wait_end addr copied me t (find_zombie nproc 0 false me t)

-- `*wtime` and `*rtime`, as waitx finds and leaves them.
pub record Times : Type 0 where
  pub wtime : ℕ
  pub rtime : ℕ

pub times_of : Proc → Times
times_of p = record { wtime = (p.etime + 2 ^ 33 - p.ctime - p.rtime) % 2 ^ 32; rtime = p.rtime }

pub times_at : Times → Table → Scan → Times
times_at before t (reached pp) = times_of (t pp)
times_at before t (passed havekids) = before

pub waitx : ℕ → ℤ → ℕ → Times → Table → Waited × Times
waitx addr copied me before t =
    let s = find_zombie nproc 0 false me t in (wait_end addr copied me t s, times_at before t s)
