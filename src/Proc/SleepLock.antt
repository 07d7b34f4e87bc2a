-- ===== src/Proc/SleepLock.antt =====
-- kernel/sleeplock.c on the process table. The spin lock inside makes each function a step;
-- acquiresleep is taken from one sleep to the next, or to its return.
pub mod Waiting
mod Tests
use cow_pbs_cofee_cafe_icecr.Base.{ℕ, Bool, true, false, ◌&&◌, some, ℤ, pos, eqb_ℤ, if◌then◌else◌}
use cow_pbs_cofee_cafe_icecr.Proc.Defs.{Chan, Table}
use cow_pbs_cofee_cafe_icecr.Proc.Sleep.{sleep, wakeup}

-- `struct sleeplock`, less its spin lock and its name.
pub record SleepLock : Type 0 where
  pub locked : Bool
  pub pid : ℤ

abbrev pub initsleeplock : SleepLock
initsleeplock = record { locked = false; pid = pos 0 }

-- A round by `me`; `lk` is the address of the lock.
pub acquiresleep : ℕ → Chan → SleepLock × Table → SleepLock × Table
acquiresleep me lk (l, t) =
    if l.locked then (l, sleep me lk t) else (record { locked = true; pid = (t me).pid }, t)

pub releasesleep : ℕ → Chan → SleepLock × Table → SleepLock × Table
releasesleep me lk (l, t) = (record { locked = false; pid = pos 0 }, wakeup (some me) lk t)

pub holdingsleep : ℕ → SleepLock × Table → Bool
holdingsleep me (l, t) = l.locked && eqb_ℤ l.pid (t me).pid
