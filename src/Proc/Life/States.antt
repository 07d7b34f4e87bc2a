-- ===== src/Proc/Life/States.antt =====
-- The life cycle of an entry of the process table of kernel/proc.c, from `fork` to `wait`.
use cow_pbs_cofee_cafe_icecr.Base.{ℕ, ◌<◌, ◌≡◌, ◌⊎◌, inl, inr, ap, ℤ, Bool-cases, ℕ_discrete}
use cow_pbs_cofee_cafe_icecr.Proc.Defs.{
  Proc, ProcState, Chan, of_proc, unused, runnable, running, zombie, state_eq, Table, nproc,
}
use cow_pbs_cofee_cafe_icecr.Proc.Sleep.{sleep}
use cow_pbs_cofee_cafe_icecr.Proc.Sleep.Own.{sleep-at, sleep-other}
use cow_pbs_cofee_cafe_icecr.Proc.Create.{Kernel, freeproc}
use cow_pbs_cofee_cafe_icecr.Proc.Create.Alloc.{
  IsUntouched, freeproc-state, freeproc-other, state_of_eq, eq_of_state,
}
use cow_pbs_cofee_cafe_icecr.Proc.Create.Fork.{IsBorn, IsFork, fork-IsFork}
use cow_pbs_cofee_cafe_icecr.Proc.Wait.{Waited}
use cow_pbs_cofee_cafe_icecr.Proc.Wait.Laws.{IsWait, reaps, faults, gives_up, waits, wait-IsWait}
use cow_pbs_cofee_cafe_icecr.Proc.Machine.Entry.{Allowed, stay, block}
use cow_pbs_cofee_cafe_icecr.Proc.Machine.States.{Step-Allowed}
use cow_pbs_cofee_cafe_icecr.Proc.Life.{table_of, Event, runs, waits, Fork}
use cow_pbs_cofee_cafe_icecr.Proc.Life.Pids.{in_use}

-- The changes of state, with those of creation and release.
pub data Turn : ProcState → ProcState → Type 0 where
  moves : {s s' : ProcState} → Allowed s s' → Turn s s'
  born : Turn unused runnable
  freed : Turn zombie unused

stays : (t u : Table) (j : ℕ) → u j ≡ t j → Turn (t j).state (u j).state
stays t u j e = rw e (moves stay)

freeproc-Turn :
    (t : Table) (k : ℕ) → (t k).state ≡ zombie → (j : ℕ) → Turn (t j).state (freeproc k t j).state
freeproc-Turn t k e j = elim (ℕ_discrete k j) [
  | yes q ↦ rw (← q) (rw (e, freeproc-state k t) freed)
  | no n ↦ stays t (freeproc k t) j (freeproc-other k t j n)
]

sleep-Turn :
    (me : ℕ) (c : Chan) (t : Table)
    → (t me).state ≡ running
    → (j : ℕ) → Turn (t j).state (sleep me c t j).state
sleep-Turn me c t e j = elim (ℕ_discrete me j) [
  | yes q ↦ rw (← q) (rw (e, ap (λ (p : Proc). p.state) (sleep-at me c t)) (moves block))
  | no n ↦ stays t (sleep me c t) j (sleep-other me c t j n)
]

wait-Turn :
    (addr : ℕ) (copied : ℤ) (me : ℕ) (t : Table) (w : Waited)
    → (t me).state ≡ running
    → IsWait addr copied me t w
    → (j : ℕ) → Turn (t j).state (table_of w j).state
wait-Turn addr copied me t w e (reaps k f g) j = freeproc-Turn t k f.found.dead j
wait-Turn addr copied me t w e (faults k f g h) j = moves stay
wait-Turn addr copied me t w e (gives_up f g) j = moves stay
wait-Turn addr copied me t w e (waits f g) j = sleep-Turn me (of_proc me) t e j

untouched-Turn : (t u : Table) → IsUntouched t u → (j : ℕ) → Turn (t j).state (u j).state
untouched-Turn t u w j = elim (Bool-cases (state_eq (t j).state unused)) [
  | inl e ↦ let z = state_of_eq (t j).state e in rw (z, w.free j z) (moves stay)
  | inr e ↦ stays t u j (w.in_use j (eq_of_state (t j).state e))
]

born-Turn :
    (me ticks frame table i : ℕ) (copied : ℤ) (k k' : Kernel) (r : ℤ)
    → IsBorn me ticks frame table i copied k k' r
    → (j : ℕ) → Turn (k.procs j).state (k'.procs j).state
born-Turn me ticks frame table i copied k k' r w j = elim (ℕ_discrete i j) [
  | yes q ↦ rw (← q) (rw (w.was_free, w.state) born)
  | no n ↦ stays k.procs k'.procs j (w.others j n)
]

fork-Turn :
    (me ticks frame table : ℕ) (copied : ℤ) (k : Kernel) (r : ℤ × Kernel)
    → IsFork me ticks frame table copied k r
    → (j : ℕ) → Turn (k.procs j).state (r.1.procs j).state
unfolding IsFork
fork-Turn me ticks frame table copied k (r, k') (inl (i, w)) j =
    born-Turn me ticks frame table i copied k k' r w j
fork-Turn me ticks frame table copied k (r, k') (inr w) j =
    untouched-Turn k.procs k'.procs w.untouched j

-- In any step of a process, in any `fork` and in any round of `wait`, each entry of the table keeps
-- its state or follows the cycle: UNUSED to RUNNABLE, RUNNABLE to RUNNING, RUNNING to RUNNABLE,
-- SLEEPING or ZOMBIE, SLEEPING to RUNNABLE, and ZOMBIE to UNUSED.
pub Life-Turn :
    {initproc : ℕ} {k k' : Kernel}
    → Event initproc k k' ⊎ Fork k k'
    → (j : ℕ) → j < nproc
    → Turn (k.procs j).state (k'.procs j).state
Life-Turn (inl (runs u a e)) j h = rw e (moves (Step-Allowed a j h))
Life-Turn {k = k} (inl (waits me addr copied r e)) j h =
    rw e (wait-Turn addr copied me k.procs _ r (wait-IsWait addr copied me k.procs) j)
Life-Turn {k = k} (inr f) j h = rw f.forked (
    fork-Turn f.me f.ticks f.frame f.table f.copied k _
      (fork-IsFork f.me f.ticks f.frame f.table f.copied k (in_use _ f.runs)) j)
