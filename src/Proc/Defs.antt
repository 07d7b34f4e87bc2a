-- ===== src/Proc/Defs.antt =====
-- kernel/proc.h: `enum procstate` and `struct proc`, and the table `proc[NPROC]` of proc.c.
use cow_pbs_cofee_cafe_icecr.Base.{ℕ, Bool, true, false, ◌==◌, ℤ, Option}

pub data ProcState : Type 0 where
  unused used sleeping runnable running zombie : ProcState

-- The test `a == b` on states.
abbrev pub state_eq : ProcState → ProcState → Bool
state_eq unused unused = true
state_eq used used = true
state_eq sleeping sleeping = true
state_eq runnable runnable = true
state_eq running running = true
state_eq zombie zombie = true
state_eq _ _ = false

-- A channel is an address: null, that of an entry of the table, that of `ticks`, or another.
pub data Chan : Type 0 where
  null : Chan
  of_proc : ℕ → Chan
  of_ticks : Chan
  other : ℕ → Chan

abbrev pub chan_eq : Chan → Chan → Bool
chan_eq null null = true
chan_eq (of_proc i) (of_proc j) = i == j
chan_eq of_ticks of_ticks = true
chan_eq (other a) (other b) = a == b
chan_eq _ _ = false

-- `struct proc`, less its lock, its saved registers, its files and its name. A pointer to a process
-- is its index in the table; `int` fields are integers and `uint` fields are numbers.
pub record Proc : Type 0 where
  pub state : ProcState
  pub chan : Chan
  pub killed : ℤ
  pub xstate : ℤ
  pub pid : ℤ
  pub parent : Option ℕ
  pub sz : ℕ
  pub pagetable : ℕ
  pub trapframe : ℕ
  pub rtime : ℕ
  pub ctime : ℕ
  pub etime : ℕ
  pub wait_time : ℤ
  pub running_time : ℤ
  pub sleep_time : ℤ
  pub st_priority : ℤ
  pub rbi : ℤ
  pub schedule_count : ℤ

-- NPROC of param.h
abbrev pub nproc : ℕ
nproc = 64

-- `struct proc proc[NPROC]`
abbrev pub Table : Type 0
Table = ℕ → Proc
