-- ===== src/Proc/Sleep/Laws.antt =====
-- Sleeping, waking and killing in kernel/proc.c.
use cow_pbs_cofee_cafe_icecr.Base.{
  ℕ, ◌<◌, ◌≡◌, ◌≢◌, ◌⊎◌, ◌↔◌, inl, inr, arith, refl, ◌∙◌, Bool, true, ◌&&◌, Option, none, some, ℤ,
  pos, negsuc, eqb_ℤ, update, update_self, update_other, Bool-cases,
}
use cow_pbs_cofee_cafe_icecr.Proc.Defs.{
  Proc, ProcState, Chan, null, chan_eq, sleeping, runnable, state_eq, Table, nproc,
}
use cow_pbs_cofee_cafe_icecr.Proc.Table.{find, for_each-at, IsSearch, find-IsSearch}
use cow_pbs_cofee_cafe_icecr.Proc.Sleep.Own.{sleep-at, sleep_return-at}
use cow_pbs_cofee_cafe_icecr.Proc.Sleep.{
  is_me, wake, wakeup, sleep, sleep_return, kill_entry, kill_found, kill,
}

chan_eq_iff : (a b : Chan) → (chan_eq a b ≡ true) ↔ (a ≡ b)
chan_eq_iff a b = ground arith

pub wakeup-at :
    (me : Option ℕ) (chan : Chan) (t : Table) (j : ℕ)
    → j < nproc
    → wakeup me chan t j ≡ wake me chan j (t j)
unfolding wakeup
wakeup-at me chan t j h = for_each-at nproc 0 (wake me chan) t j (omega arith) h

-- The entry sleeps on the channel, and is not the caller.
pub record IsWaiting (me : Option ℕ) (chan : Chan) (t : Table) (j : ℕ) : Type 0 where
  pub not_me : me ≢ some j
  pub asleep : (t j).state ≡ sleeping
  pub on_chan : (t j).chan ≡ chan

is_me_iff : (me : Option ℕ) (j : ℕ) → (is_me me j ≡ true) ↔ (me ≡ some j)
is_me_iff me j = ground arith

and_right : (a b : Bool) → (a && b) ≡ true → b ≡ true
and_right a b h = ground arith

asleep_of : (s : ProcState) (b : Bool) → (state_eq s sleeping && b) ≡ true → s ≡ sleeping
asleep_of s b h = ground arith

wake-hit :
    (me : Option ℕ) (chan : Chan) (t : Table) (j : ℕ)
    → IsWaiting me chan t j
    → wake me chan j (t j) ≡ record (t j) { state = runnable }
unfolding wake
wake-hit me chan t j w = elim (Bool-cases (is_me me j)) [
  | inl e ↦ absurd (w.not_me ((is_me_iff me j).0 e))
  | inr e ↦
      let c : chan_eq (t j).chan chan ≡ true = (chan_eq_iff _ _).1 w.on_chan in rw (e, w.asleep, c)
]

wake-miss :
    (me : Option ℕ) (chan : Chan) (t : Table) (j : ℕ)
    → ¬ IsWaiting me chan t j
    → wake me chan j (t j) ≡ t j
unfolding wake
wake-miss me chan t j n = elim (Bool-cases (is_me me j)) [
  | inl e ↦ rw e
  | inr e ↦ elim (Bool-cases (state_eq (t j).state sleeping && chan_eq (t j).chan chan)) [
    | inl w ↦ absurd (
        n (record {
          not_me = λ q. cc (e, (is_me_iff me j).1 q);
          asleep = asleep_of (t j).state _ w;
          on_chan = (chan_eq_iff _ _).0 (and_right _ _ w);
        }))
    | inr w ↦ rw (e, w)
  ]
]

-- Of the entries of the table, `wakeup` makes RUNNABLE those that wait on the channel, the caller
-- excepted, and leaves every other entry as it is.
pub wakeup-exact :
    (me : Option ℕ) (chan : Chan) (t : Table) (j : ℕ)
    → j < nproc
    → (IsWaiting me chan t j → wakeup me chan t j ≡ record (t j) { state = runnable })
      × (¬ IsWaiting me chan t j → wakeup me chan t j ≡ t j)
wakeup-exact me chan t j h = (
  λ w. wakeup-at me chan t j h ∙ wake-hit me chan t j w,
  λ n. wakeup-at me chan t j h ∙ wake-miss me chan t j n,
)

-- A process that has gone to sleep on a channel is made RUNNABLE by the next `wakeup` of that
-- channel by another process, and stands with no channel after it has returned from `sleep`.
pub wakeup-sleep :
    (me : ℕ) (waker : Option ℕ) (chan : Chan) (t : Table)
    → me < nproc
    → waker ≢ some me
    → (wakeup waker chan (sleep me chan t) me ≡ record (t me) { chan = chan; state = runnable })
      × (sleep_return me (wakeup waker chan (sleep me chan t)) me
          ≡ record (t me) { chan = null; state = runnable })
wakeup-sleep me waker chan t h n =
    let woken = (wakeup-exact waker chan (sleep me chan t) me h).0 (record {
      not_me = n;
      asleep = rw (sleep-at me chan t);
      on_chan = rw (sleep-at me chan t);
    }) in
    let e : wakeup waker chan (sleep me chan t) me
        ≡ record (t me) { chan = chan; state = runnable } =
      woken ∙ rw (sleep-at me chan t) in
    (e, sleep_return-at me (wakeup waker chan (sleep me chan t)) ∙ rw e)

-- The entry that `kill` finds.
pub record IsVictim (pid : ℤ) (t : Table) (i : ℕ) : Type 0 where
  pub below : i < nproc
  pub has_pid : (t i).pid ≡ pid
  pub earliest : (j : ℕ) → j < i → (t j).pid ≢ pid

pub eqb_ℤ_iff : (a b : ℤ) → (eqb_ℤ a b ≡ true) ↔ (a ≡ b)
eqb_ℤ_iff a b = ground arith

-- The search of `kill` and of `sys_setpriority`, for the first entry with the number.
abbrev pub IsFound : ℤ → Table → Option ℕ → Type 0
IsFound pid t none = (j : ℕ) → j < nproc → (t j).pid ≢ pid
IsFound pid t (some i) = IsVictim pid t i

IsSearch-IsFound :
    (pid : ℤ) (t : Table) (r : Option ℕ)
    → IsSearch (λ p. eqb_ℤ p.pid pid) t 0 nproc r
    → IsFound pid t r
IsSearch-IsFound pid t none s = λ j lt e. cc (s j (omega arith) lt, (eqb_ℤ_iff (t j).pid pid).1 e)
IsSearch-IsFound pid t (some i) s = record {
  below = s.below;
  has_pid = (eqb_ℤ_iff _ _).0 s.passes;
  earliest = λ j lt e. cc (s.earliest j (omega arith) lt, (eqb_ℤ_iff (t j).pid pid).1 e);
}

pub find-IsFound : (pid : ℤ) (t : Table) → IsFound pid t (find nproc 0 (λ p. eqb_ℤ p.pid pid) t)
find-IsFound pid t =
    IsSearch-IsFound pid t _ (find-IsSearch nproc 0 nproc (λ p. eqb_ℤ p.pid pid) t (omega arith))

-- `kill` returns -1 and changes nothing.
abbrev pub IsMissed : ℤ → Table → ℤ × Table → Type 0
IsMissed pid t r = ((j : ℕ) → j < nproc → (t j).pid ≢ pid) × (r ≡ (negsuc 0, t))

-- `kill` returns 0, having marked one entry and woken it if it slept.
pub record IsKilled (pid : ℤ) (t : Table) (r : ℤ × Table) : Type 0 where
  pub victim : ℕ
  pub found : IsVictim pid t victim
  pub returned : r.0 ≡ pos 0
  pub marked : (r.1 victim).killed ≡ pos 1
  pub woken : (t victim).state ≡ sleeping → (r.1 victim).state ≡ runnable
  pub unwoken : (t victim).state ≢ sleeping → (r.1 victim).state ≡ (t victim).state
  pub rest :
      (s : ProcState) (k : ℤ)
      → record (r.1 victim) { state = s; killed = k } ≡ record (t victim) { state = s; killed = k }
  pub others : (j : ℕ) → victim ≢ j → r.1 j ≡ t j

kill_entry-killed : (p : Proc) → (kill_entry p).killed ≡ pos 1
unfolding kill_entry
kill_entry-killed p = ground arith

kill_entry-asleep : (p : Proc) → p.state ≡ sleeping → (kill_entry p).state ≡ runnable
unfolding kill_entry
kill_entry-asleep p h = ground arith

kill_entry-awake : (p : Proc) → p.state ≢ sleeping → (kill_entry p).state ≡ p.state
unfolding kill_entry
kill_entry-awake p h = ground arith

kill_entry-rest :
    (p : Proc) (s : ProcState) (k : ℤ)
    → record (kill_entry p) { state = s; killed = k } ≡ record p { state = s; killed = k }
unfolding kill_entry
kill_entry-rest p s k = ground arith

kill_found-cases :
    (pid : ℤ) (t : Table) (r : Option ℕ)
    → IsFound pid t r
    → IsMissed pid t (kill_found t r) ⊎ IsKilled pid t (kill_found t r)
unfolding kill_found
kill_found-cases pid t none s = inl (s, refl)
kill_found-cases pid t (some i) s =
    let e : update t i (kill_entry (t i)) i ≡ kill_entry (t i) = update_self t i _ in
    inr (record {
      victim = i;
      found = s;
      returned = refl;
      marked = rw e (kill_entry-killed (t i));
      woken = λ a. rw e (kill_entry-asleep (t i) a);
      unwoken = λ a. rw e (kill_entry-awake (t i) a);
      rest = λ s k. rw e (kill_entry-rest (t i) s k);
      others = λ j n. update_other t i _ j n;
    })

-- `kill` returns -1 and changes nothing if no entry of the table has the number; otherwise it
-- returns 0, sets `killed` in the first entry that has it, makes that entry RUNNABLE if it slept
-- and leaves its state otherwise, and changes nothing else of it and no other entry.
pub kill-cases : (pid : ℤ) (t : Table) → IsMissed pid t (kill pid t) ⊎ IsKilled pid t (kill pid t)
unfolding kill
kill-cases pid t = kill_found-cases pid t _ (find-IsFound pid t)
