-- ===== src/Proc/Sleep.antt =====
-- kernel/proc.c: `sleep`, `wakeup`, `yield`, `kill`, `setkilled` and `killed`. Where the source
-- calls `sched`, the operation ends with the table at the switch; what follows when the process
-- runs again is a function of its own.
pub mod Laws
pub mod Own
pub mod Frame
use cow_pbs_cofee_cafe_icecr.Base.{
  ℕ, Bool, true, false, ◌&&◌, Option, none, some, ℤ, pos, negsuc, eqb_ℤ, ◌==◌, if◌then◌else◌,
  update,
}
use cow_pbs_cofee_cafe_icecr.Proc.Defs.{
  Proc, Chan, null, chan_eq, sleeping, runnable, state_eq, Table, nproc,
}
use cow_pbs_cofee_cafe_icecr.Proc.Table.{for_each, find}

-- `p == myproc()` for the entry of index `i`; there is no process while the scheduler runs.
abbrev pub is_me : Option ℕ → ℕ → Bool
is_me none i = false
is_me (some m) i = m == i

pub wake : Option ℕ → Chan → ℕ → Proc → Proc
wake me chan i p =
    if is_me me i
    then p
    else if state_eq p.state sleeping && chan_eq p.chan chan
    then record p { state = runnable }
    else p

pub wakeup : Option ℕ → Chan → Table → Table
wakeup me chan = for_each nproc 0 (wake me chan)

-- `sleep` up to the switch, and after it. The lock `lk` is released before and acquired after.
pub sleep : ℕ → Chan → Table → Table
sleep me chan t = update t me (record (t me) { chan = chan; state = sleeping })

pub sleep_return : ℕ → Table → Table
sleep_return me t = update t me (record (t me) { chan = null })

-- `yield` up to the switch; nothing of the table changes after it.
pub yield : ℕ → Table → Table
yield me t = update t me (record (t me) { state = runnable })

-- What `kill` does to its victim.
pub kill_entry : Proc → Proc
kill_entry p =
    if state_eq p.state sleeping
    then record p { killed = pos 1; state = runnable }
    else record p { killed = pos 1 }

pub kill_found : Table → Option ℕ → ℤ × Table
kill_found t none = (negsuc 0, t)
kill_found t (some i) = (pos 0, update t i (kill_entry (t i)))

pub kill : ℤ → Table → ℤ × Table
kill pid t = kill_found t (find nproc 0 (λ p. eqb_ℤ p.pid pid) t)

pub setkilled : ℕ → Table → Table
setkilled i t = update t i (record (t i) { killed = pos 1 })

pub killed : ℕ → Table → ℤ
killed i t = (t i).killed
