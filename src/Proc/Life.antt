-- ===== src/Proc/Life.antt =====
-- The whole life of the processes of kernel/proc.c: the steps of Proc.Machine, and `fork`, `wait`
-- and `waitx`, on the process table and `nextpid`, in any order.
pub mod Numbered
pub mod Pids
pub mod States
mod Tests
use cow_pbs_cofee_cafe_icecr.Base.{ℕ, zero, suc, ◌+◌, ◌<◌, ◌≡◌, ℤ}
use cow_pbs_cofee_cafe_icecr.Proc.Defs.{running, Table, nproc}
use cow_pbs_cofee_cafe_icecr.Proc.Create.{Kernel, fork}
use cow_pbs_cofee_cafe_icecr.Proc.Wait.{Waited, returned, sleeps, wait}
use cow_pbs_cofee_cafe_icecr.Proc.Machine.{Step}

-- The table at the end of a round of `wait`.
abbrev pub table_of : Waited → Table
table_of (returned r t) = t
table_of (sleeps t) = t

pub data Event (initproc : ℕ) (k k' : Kernel) : Type 0 where
  runs :
      (u : Table)
      → Step initproc k.procs u
      → k' ≡ record { procs = u; nextpid = k.nextpid }
      → Event initproc k k'
  waits :
      (me addr : ℕ) (copied : ℤ)
      → (k.procs me).state ≡ running
      → k' ≡ record { procs = table_of (wait addr copied me k.procs); nextpid = k.nextpid }
      → Event initproc k k'

-- `copied` is what uvmcopy answers; `frame` and `table` what the allocations do, 0 on failure.
pub record Fork (k k' : Kernel) : Type 0 where
  pub me : ℕ
  pub ticks : ℕ
  pub frame : ℕ
  pub table : ℕ
  pub copied : ℤ
  pub runs : (k.procs me).state ≡ running
  pub forked : k' ≡ (fork me ticks frame table copied k).1

-- The states that are reached with `n` calls of `fork`.
pub data Life (initproc : ℕ) (k : Kernel) : ℕ → Kernel → Type 0 where
  here : Life initproc k 0 k
  next : {n : ℕ} {u v : Kernel} → Life initproc k n u → Event initproc u v → Life initproc k n v
  forks : {n : ℕ} {u v : Kernel} → Life initproc k n u → Fork u v → Life initproc k (suc n) v
