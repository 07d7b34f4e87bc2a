-- ===== src/Locks.antt =====
-- kernel/spinlock.c: the interrupts of a CPU under push_off and pop_off, and acquire and release of
-- one lock by several CPUs. An instruction that others can see is a step of its own: the atomic
-- swap, the writes of `cpu` and of `locked`. A panic is `none`.
pub mod Nesting
pub mod Exclusion
pub mod Safety
pub mod Returns
mod Tests
use cow_pbs_cofee_cafe_icecr.Base.{
  ℕ, ◌≡◌, Bool, true, false, ◌&&◌, not, Option, none, some, ℤ, pos, ◌+ℤ◌, ◌-ℤ◌, int32, ltb_ℤ, eqb_ℤ,
  ◌==◌, if◌then◌else◌, update, and_then,
}

-- `struct cpu`, with the interrupt flag that intr_get reads and intr_on and intr_off write.
pub record Cpu : Type 0 where
  pub sie : Bool
  pub noff : ℤ
  pub intena : Bool

-- `struct spinlock`, less its name. `cpu` is the index of a CPU, or none.
pub record Spinlock : Type 0 where
  pub locked : Bool
  pub cpu : Option ℕ

pub push_off : Cpu → Cpu
push_off c = record {
  sie = false;
  noff = int32 (c.noff +ℤ pos 1);
  intena = if eqb_ℤ c.noff (pos 0) then c.sie else c.intena;
}

pub pop_off : Cpu → Option Cpu
pop_off c =
    if c.sie
    then none
    else if ltb_ℤ c.noff (pos 1)
    then none
    else let n = int32 (c.noff -ℤ pos 1) in
      some (record c { noff = n; sie = eqb_ℤ n (pos 0) && c.intena })

abbrev pub is_cpu : Option ℕ → ℕ → Bool
is_cpu none i = false
is_cpu (some j) i = j == i

unfoldable pub holding : ℕ → Spinlock → Bool
holding i lk = lk.locked && is_cpu lk.cpu i

unfoldable pub initlock : Spinlock
initlock = record { locked = false; cpu = none }

-- Where a CPU stands in acquire and release: before the swap, before and after the write of `cpu`,
-- and in release after that write and after the write of `locked`.
pub data Pc : Type 0 where
  outside spinning taken held dropped unlocked : Pc

pub record System : Type 0 where
  pub lock : Spinlock
  pub pc : ℕ → Pc
  pub cpus : ℕ → Cpu

-- acquire up to the loop.
unfoldable pub acquire_begins : ℕ → System → Option System
acquire_begins i s =
    if holding i s.lock
    then none
    else some
        (record s { pc = update s.pc i spinning; cpus = update s.cpus i (push_off (s.cpus i)) })

-- One round of the loop.
pub test_and_set : ℕ → System → System
test_and_set i s =
    if s.lock.locked
    then s
    else record s { pc = update s.pc i taken; lock = record s.lock { locked = true } }

pub acquire_ends : ℕ → System → System
acquire_ends i s = record s { pc = update s.pc i held; lock = record s.lock { cpu = some i } }

pub release_begins : ℕ → System → Option System
release_begins i s =
    if not (holding i s.lock)
    then none
    else some (record s { pc = update s.pc i dropped; lock = record s.lock { cpu = none } })

pub release_clears : ℕ → System → System
release_clears i s = record s {
  pc = update s.pc i unlocked;
  lock = record s.lock { locked = false };
}

pub release_ends : ℕ → System → Option System
release_ends i s =
    and_then (pop_off (s.cpus i))
      (λ (c : Cpu). some (record s { pc = update s.pc i outside; cpus = update s.cpus i c }))

-- A step of one CPU, in any order.
pub data Step (s t : System) : Type 0 where
  acquires : (i : ℕ) → s.pc i ≡ outside → acquire_begins i s ≡ some t → Step s t
  spins : (i : ℕ) → s.pc i ≡ spinning → t ≡ test_and_set i s → Step s t
  enters : (i : ℕ) → s.pc i ≡ taken → t ≡ acquire_ends i s → Step s t
  releases : (i : ℕ) → s.pc i ≡ held → release_begins i s ≡ some t → Step s t
  clears : (i : ℕ) → s.pc i ≡ dropped → t ≡ release_clears i s → Step s t
  leaves : (i : ℕ) → s.pc i ≡ unlocked → release_ends i s ≡ some t → Step s t

pub data Reach (s : System) : System → Type 0 where
  start : Reach s s
  step : {t u : System} → Reach s t → Step t u → Reach s u
