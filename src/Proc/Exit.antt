-- ===== src/Proc/Exit.antt =====
-- kernel/proc.c: `reparent`, and the part of `exit` that changes the process table. The files and
-- the directory that `exit` closes first are left out.
pub mod Laws
pub mod Zombie
use cow_pbs_cofee_cafe_icecr.Base.{
  ℕ, zero, suc, ◌+◌, Bool, true, false, Option, none, some, ℤ, ◌==◌, if◌then◌else◌, update,
}
use cow_pbs_cofee_cafe_icecr.Proc.Defs.{Proc, Chan, null, of_proc, zombie, Table, nproc}
use cow_pbs_cofee_cafe_icecr.Proc.Sleep.{wakeup}

-- The test `p->parent == i`.
abbrev pub is_parent : Option ℕ → ℕ → Bool
is_parent none i = false
is_parent (some j) i = j == i

-- The body of the loop at the entry `pp`, for the caller `me` and the process `p` that exits.
pub pass_to_init : ℕ → Option ℕ → ℕ → ℕ → Table → Table
pass_to_init initproc me p pp t =
    if is_parent (t pp).parent p
    then wakeup me (of_proc initproc) (update t pp (record (t pp) { parent = some initproc }))
    else t

pub reparent_from : ℕ → ℕ → ℕ → Option ℕ → ℕ → Table → Table
reparent_from zero pp initproc me p t = t
reparent_from (suc n) pp initproc me p t =
    reparent_from n (pp + 1) initproc me p (pass_to_init initproc me p pp t)

pub reparent : ℕ → Option ℕ → ℕ → Table → Table
reparent = reparent_from nproc 0

-- The address that a pointer to a process is, as a channel.
abbrev pub chan_of : Option ℕ → Chan
chan_of none = null
chan_of (some i) = of_proc i

pub become_zombie : ℤ → ℕ → Proc → Proc
become_zombie status ticks p = record p { xstate = status; state = zombie; etime = ticks }

-- The table at the last switch of the process `p`; `none` is the panic of "init exiting".
unfoldable pub exit : ℕ → ℕ → ℤ → ℕ → Table → Option Table
exit initproc ticks status p t =
    if p == initproc
    then none
    else let t' = reparent initproc (some p) p t in
      let t'' = wakeup (some p) (chan_of (t' p).parent) t' in
      some (update t'' p (become_zombie status ticks (t'' p)))
