-- ===== src/Proc/SleepLock/Tests.antt =====
-- A sleep lock that one process takes and releases.
use cow_pbs_cofee_cafe_icecr.Base.{ℕ, ◌<◌, ◌≡◌, refl, ltb, if◌then◌else◌, none, true, pos}
use cow_pbs_cofee_cafe_icecr.Proc.Defs.{null, other, running, unused, Table, nproc}
use cow_pbs_cofee_cafe_icecr.Proc.SleepLock.{
  SleepLock, initsleeplock, acquiresleep, releasesleep, holdingsleep,
}
use cow_pbs_cofee_cafe_icecr.Proc.SleepLock.Waiting.{
  Waits, acquires, releases, here, next, Reach-Waits,
}

abbrev two_running : Table
two_running i = record {
  state = if ltb i 2 then running else unused;
  chan = null;
  killed = pos 0;
  xstate = pos 0;
  pid = pos i;
  parent = none;
  sz = 0;
  pagetable = 0;
  trapframe = 0;
  rtime = 0;
  ctime = 0;
  etime = 0;
  wait_time = pos 0;
  running_time = pos 0;
  sleep_time = pos 0;
  st_priority = pos 60;
  rbi = pos 25;
  schedule_count = pos 0;
}

-- What the lock is after the process 1 has taken it, and after it has released it.
abbrev taken : SleepLock × Table
taken = acquiresleep 1 (other 9) (initsleeplock, two_running)

Reach-Waits_example :
    ((j : ℕ) → j < nproc → ¬ Waits (other 9) (releasesleep 1 (other 9) taken).1 j)
    × ((me : ℕ)
        → holdingsleep me
            (acquiresleep me (other 9) (initsleeplock, (releasesleep 1 (other 9) taken).1))
          ≡ true)
unfolding acquiresleep releasesleep
Reach-Waits_example =
    Reach-Waits (other 9) two_running (releasesleep 1 (other 9) taken).1 initsleeplock
      (λ j h w. absurd (cc w.1)) (next (next here (acquires 1 refl)) (releases 1 refl)) refl
