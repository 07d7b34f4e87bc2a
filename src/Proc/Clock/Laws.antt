-- ===== src/Proc/Clock/Laws.antt =====
-- The counters that a clock interrupt advances, in kernel/proc.c and kernel/trap.c.
use cow_pbs_cofee_cafe_icecr.Base.{
  ℕ, ◌+◌, ◌%◌, ◌^◌, ◌<◌, ◌≡◌, arith, refl, sym, ◌∙◌, subst, Option, pos, ◌+ℤ◌, int32,
}
use cow_pbs_cofee_cafe_icecr.Proc.Defs.{
  Proc, ProcState, running, runnable, sleeping, unused, of_ticks, Table, nproc,
}
use cow_pbs_cofee_cafe_icecr.Proc.Table.{for_each-at}
use cow_pbs_cofee_cafe_icecr.Proc.Sleep.{wakeup}
use cow_pbs_cofee_cafe_icecr.Proc.Sleep.Frame.{IsWoken, wakeup-IsWoken}
use cow_pbs_cofee_cafe_icecr.Proc.Sleep.Laws.{IsWaiting, wakeup-exact}
use cow_pbs_cofee_cafe_icecr.Proc.Clock.{
  count_running, count_waiting, count_sleeping, update_time, clockintr,
}

-- What one tick makes of an entry, by its state.
abbrev pub ticked : ProcState → Proc → Proc
ticked running p = record p {
  rtime = (p.rtime + 1) % 2 ^ 32;
  running_time = int32 (p.running_time +ℤ pos 1);
  sleep_time = pos 0;
}
ticked runnable p = record p { wait_time = int32 (p.wait_time +ℤ pos 1) }
ticked sleeping p = record p { sleep_time = int32 (p.sleep_time +ℤ pos 1) }
ticked _ p = p

count-ticked :
    (s : ProcState) (p : Proc)
    → p.state ≡ s
    → count_sleeping (count_waiting (count_running p)) ≡ ticked s p
unfolding count_sleeping count_waiting count_running
count-ticked unused p e = ground arith
count-ticked _ p e = ground arith

-- A tick counts each entry of the table once, by the state that it has: RUNNING adds to `rtime` and
-- `running_time` and resets `sleep_time`, RUNNABLE adds to `wait_time`, SLEEPING adds to
-- `sleep_time`, and in any other state nothing changes.
pub update_time-ticked :
    (t : Table) (j : ℕ) → j < nproc → update_time t j ≡ ticked (t j).state (t j)
unfolding update_time
update_time-ticked t j h =
    for_each-at nproc 0 _ t j (omega arith) h ∙ count-ticked (t j).state (t j) refl

ticked-chan : (s : ProcState) (p : Proc) → (ticked s p).chan ≡ p.chan
ticked-chan unused p = refl
ticked-chan _ p = refl

ticked-state : (s : ProcState) (p : Proc) → (ticked s p).state ≡ p.state
ticked-state unused p = refl
ticked-state _ p = refl

-- After a clock interrupt an entry that slept on `ticks`, other than the interrupted process, is
-- RUNNABLE with its sleep counted, and any other entry is as the tick left it; `ticks` is one more,
-- wrapped to 32 bits.
pub clockintr-wakes :
    (me : Option ℕ) (ticks : ℕ) (t : Table) (j : ℕ)
    → j < nproc
    → ((clockintr me (ticks, t)).0 ≡ (ticks + 1) % 2 ^ 32)
      × (IsWaiting me of_ticks t j
          → (clockintr me (ticks, t)).1 j
            ≡ record (t j) { state = runnable; sleep_time = int32 ((t j).sleep_time +ℤ pos 1) })
      × (¬ IsWaiting me of_ticks t j → (clockintr me (ticks, t)).1 j ≡ ticked (t j).state (t j))
unfolding clockintr
clockintr-wakes me ticks t j h = (
  refl,
  λ w.
      (wakeup-exact me of_ticks (update_time t) j h).0 (record {
        not_me = w.not_me;
        asleep = rw at_j (ticked-state (t j).state (t j) ∙ w.asleep);
        on_chan = rw at_j (ticked-chan (t j).state (t j) ∙ w.on_chan);
      })
      ∙ rw (at_j, w.asleep),
  λ n.
      (wakeup-exact me of_ticks (update_time t) j h).1 (λ w. n (record {
        not_me = w.not_me;
        asleep = sym (ticked-state (t j).state (t j)) ∙ (rw at_j at w.asleep);
        on_chan = sym (ticked-chan (t j).state (t j)) ∙ (rw at_j at w.on_chan);
      }))
      ∙ at_j,
)
  where
    at_j : update_time t j ≡ ticked (t j).state (t j)
    at_j = update_time-ticked t j h

pub clockintr-IsWoken :
    (me : Option ℕ) (ticks : ℕ) (t : Table) (j : ℕ)
    → j < nproc
    → IsWoken (ticked (t j).state (t j)) ((clockintr me (ticks, t)).1 j)
unfolding clockintr
clockintr-IsWoken me ticks t j h =
    subst (λ p. IsWoken p (wakeup me of_ticks (update_time t) j)) (update_time-ticked t j h)
      (wakeup-IsWoken me of_ticks (update_time t) j)
