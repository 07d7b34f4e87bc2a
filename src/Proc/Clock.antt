-- ===== src/Proc/Clock.antt =====
-- kernel/proc.c: `update_time`, and kernel/trap.c: `clockintr`. The listing that `update_time`
-- prints is left out.
pub mod Laws
use cow_pbs_cofee_cafe_icecr.Base.{ℕ, ◌+◌, ◌%◌, ◌^◌, Option, ℤ, pos, ◌+ℤ◌, int32, if◌then◌else◌}
use cow_pbs_cofee_cafe_icecr.Proc.Defs.{
  Proc, running, runnable, sleeping, state_eq, Table, nproc, of_ticks,
}
use cow_pbs_cofee_cafe_icecr.Proc.Table.{for_each}
use cow_pbs_cofee_cafe_icecr.Proc.Sleep.{wakeup}

-- The three tests of the body, one after the other.
pub count_running : Proc → Proc
count_running p =
    if state_eq p.state running
    then record p {
      rtime = (p.rtime + 1) % 2 ^ 32;
      running_time = int32 (p.running_time +ℤ pos 1);
      sleep_time = pos 0;
    }
    else p

pub count_waiting : Proc → Proc
count_waiting p =
    if state_eq p.state runnable then record p { wait_time = int32 (p.wait_time +ℤ pos 1) } else p

pub count_sleeping : Proc → Proc
count_sleeping p =
    if state_eq p.state sleeping then record p { sleep_time = int32 (p.sleep_time +ℤ pos 1) } else p

pub update_time : Table → Table
update_time = for_each nproc 0 (λ _ p. count_sleeping (count_waiting (count_running p)))

-- `ticks` and the table after a clock interrupt; `me` is the process that it interrupts, if any.
pub clockintr : Option ℕ → ℕ × Table → ℕ × Table
clockintr me (ticks, t) = ((ticks + 1) % 2 ^ 32, wakeup me of_ticks (update_time t))
