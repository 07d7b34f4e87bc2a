-- ===== src/Proc/Life/Tests.antt =====
-- `fork`, `wait` and the life of the processes of kernel/proc.c at concrete tables.
use cow_pbs_cofee_cafe_icecr.Base.{
  ℕ, ◌≡◌, ◌≢◌, inl, inr, refl, sym, ◌∙◌, arith, Option, none, some, pos, ◌==◌, ==_iff, Bool-cases,
  if◌then◌else◌, update,
}
use cow_pbs_cofee_cafe_icecr.Proc.Defs.{
  Proc, ProcState, unused, sleeping, running, Chan, null, of_proc, Table,
}
use cow_pbs_cofee_cafe_icecr.Proc.Sleep.{wakeup}
use cow_pbs_cofee_cafe_icecr.Proc.Exit.{exit, reparent, chan_of, become_zombie}
use cow_pbs_cofee_cafe_icecr.Proc.Create.{Kernel, fork}
use cow_pbs_cofee_cafe_icecr.Proc.Create.Fork.{IsFork, fork-IsFork}
use cow_pbs_cofee_cafe_icecr.Proc.Wait.{wait}
use cow_pbs_cofee_cafe_icecr.Proc.Wait.Laws.{IsWait, IsReaped, wait-IsWait, exit-wait}
use cow_pbs_cofee_cafe_icecr.Proc.Life.{Fork, here, forks}
use cow_pbs_cofee_cafe_icecr.Proc.Life.Pids.{in_use, Life-IsNumbered}
use cow_pbs_cofee_cafe_icecr.Proc.Life.Numbered.{IsNumbered}
use cow_pbs_cofee_cafe_icecr.Proc.Life.States.{Turn, Life-Turn}

-- An entry with a state, a pid and a parent.
abbrev entry : ProcState → Chan → ℕ → Option ℕ → Proc
entry s c n parent = record {
  state = s;
  chan = c;
  killed = pos 0;
  xstate = pos 0;
  pid = pos n;
  parent = parent;
  sz = 4096;
  pagetable = 0;
  trapframe = 0;
  rtime = 0;
  ctime = 0;
  etime = 0;
  wait_time = pos 0;
  running_time = pos 0;
  sleep_time = pos 0;
  st_priority = pos 70;
  rbi = pos 25;
  schedule_count = pos 3;
}

-- Only init, which runs.
abbrev solo : Kernel
solo = record {
  procs = λ i. if i == 0 then entry running null 1 none else entry unused null 0 none;
  nextpid = pos 2;
}

fork-IsFork_example : IsFork 0 7 4096 8192 (pos 0) solo (fork 0 7 4096 8192 (pos 0) solo)
fork-IsFork_example = fork-IsFork 0 7 4096 8192 (pos 0) solo (in_use running refl)

abbrev born : Fork solo (fork 0 7 4096 8192 (pos 0) solo).1
born = record {
  me = 0;
  ticks = 7;
  frame = 4096;
  table = 8192;
  copied = pos 0;
  runs = refl;
  forked = refl;
}

solo_zero : (j : ℕ) → (solo.procs j).state ≢ unused → j ≡ 0
solo_zero j n = elim (Bool-cases (j == 0)) [ inl e ↦ (==_iff j 0).0 e | inr e ↦ absurd (n (rw e)) ]

solo-IsNumbered : IsNumbered 2 solo
solo-IsNumbered = record {
  count = 2;
  is_next = refl;
  started = omega arith;
  bound = omega arith;
  below = λ j h n. rw (solo_zero j n) (omega arith);
  positive = λ j h n. rw (solo_zero j n) (omega arith);
  distinct = λ i j h k m n e. solo_zero i m ∙ sym (solo_zero j n);
}

Life-IsNumbered_example : IsNumbered 3 (fork 0 7 4096 8192 (pos 0) solo).1
Life-IsNumbered_example =
    Life-IsNumbered {initproc = 0} 2 solo-IsNumbered (omega arith) (forks here born)

Life-Turn_example : Turn unused ((fork 0 7 4096 8192 (pos 0) solo).1.procs 1).state
Life-Turn_example = Life-Turn {initproc = 0} {k = solo} (inr born) 1 (omega arith)

-- init, its child 1, which waits, and its child 2, which runs.
abbrev family : Table
family i =
    if i == 0
    then entry sleeping (of_proc 0) 1 none
    else if i == 1
    then entry sleeping (of_proc 1) 2 (some 0)
    else if i == 2
    then entry running null 3 (some 1)
    else entry unused null 0 none

wait-IsWait_example : IsWait 0 (pos 0) 1 family (wait 0 (pos 0) 1 family)
wait-IsWait_example = wait-IsWait 0 (pos 0) 1 family

abbrev before_zombie : Table
before_zombie =
    wakeup (some 2) (chan_of (reparent 0 (some 2) 2 family 2).parent) (reparent 0 (some 2) 2 family)

abbrev after_exit : Table
after_exit = update before_zombie 2 (become_zombie (pos 5) 9 (before_zombie 2))

exits : exit 0 9 (pos 5) 2 family ≡ some after_exit
unfolding exit
exits = refl

exit-wait_example : IsReaped 1 after_exit (wait 0 (pos 0) 1 after_exit)
exit-wait_example =
    exit-wait 0 9 (pos 5) 2 1 family after_exit 0 (pos 0) (omega arith) (omega arith) refl exits
      (inl refl)
