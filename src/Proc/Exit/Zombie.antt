-- ===== src/Proc/Exit/Zombie.antt =====
-- The table that `exit` of kernel/proc.c leaves at its switch.
use cow_pbs_cofee_cafe_icecr.Base.{
  ℕ, ◌<◌, ◌≡◌, ◌≢◌, ◌⊎◌, inl, inr, sym, ◌∙◌, ap, arith, Option, none, some, ℤ, update, update_self,
  update_other, update-keeps, ◌==◌, ==_iff, Bool-cases,
}
use cow_pbs_cofee_cafe_icecr.Proc.Defs.{Proc, of_proc, sleeping, runnable, zombie, Table, nproc}
use cow_pbs_cofee_cafe_icecr.Proc.Sleep.{wakeup}
use cow_pbs_cofee_cafe_icecr.Proc.Sleep.Frame.{IsWoken, wakeup-IsWoken}
use cow_pbs_cofee_cafe_icecr.Proc.Sleep.Laws.{wakeup-exact}
use cow_pbs_cofee_cafe_icecr.Proc.Exit.{reparent, chan_of, become_zombie, exit}
use cow_pbs_cofee_cafe_icecr.Proc.Exit.Laws.{
  new_parent, IsPassed, IsPassed-trans, IsWoken-IsPassed, reparent-IsPassed,
}

-- The table after `exit`: the process is a zombie, its children are those of `initproc`, and its
-- parent is awake.
pub record IsExited (initproc ticks : ℕ) (status : ℤ) (p : ℕ) (t u : Table) : Type 0 where
  pub dead : (u p).state ≡ zombie
  pub told : (u p).xstate ≡ status
  pub ended : (u p).etime ≡ ticks
  pub parents : (j : ℕ) → j < nproc → (u j).parent ≡ new_parent initproc p (t j).parent
  pub no_orphan : (j : ℕ) → j < nproc → (u j).parent ≢ some p
  pub kept : (u p).st_priority ≡ (t p).st_priority
  pub same_pid : (u p).pid ≡ (t p).pid
  pub others : (j : ℕ) → j < nproc → p ≢ j → IsPassed (t j) (u j)
  pub parent_awake :
      (q : ℕ)
      → q < nproc
      → q ≢ p
      → (t p).parent ≡ some q
      → (t q).state ≡ sleeping
      → (t q).chan ≡ of_proc q
      → (u q).state ≡ runnable

not-new_parent : (initproc p : ℕ) (o : Option ℕ) → initproc ≢ p → new_parent initproc p o ≢ some p
not-new_parent initproc p o n = ground arith

pub new_parent-other : (initproc p q : ℕ) → q ≢ p → new_parent initproc p (some q) ≡ some q
new_parent-other initproc p q n = ground arith

still_runnable : (x y : Proc) → IsWoken x y → x.state ≡ runnable → y.state ≡ runnable
still_runnable x y w e = ground (arith, w.state)

module _ (initproc ticks : ℕ) (status : ℤ) (p : ℕ) (t : Table) where
  passed : Table
  passed = reparent initproc (some p) p t

  woken : Table
  unfolding passed
  woken = wakeup (some p) (chan_of (passed p).parent) passed

  final : Table
  unfolding woken
  final = update woken p (become_zombie status ticks (woken p))

  parent-final : (j : ℕ) → (final j).parent ≡ (passed j).parent
  unfolding final become_zombie
  parent-final = update-keeps (λ j q. q.parent ≡ (passed j).parent) woken p _ (λ j. same j) (same p)
    where
      same : (j : ℕ) → (woken j).parent ≡ (passed j).parent
      same j =
          ap (λ (x : Proc). x.parent)
            ((wakeup-IsWoken (some p) (chan_of (passed p).parent) passed j).rest sleeping)

  parents-final : (j : ℕ) → j < nproc → (final j).parent ≡ new_parent initproc p (t j).parent
  unfolding passed
  parents-final j h = parent-final j ∙ (reparent-IsPassed initproc (some p) p t j h).0

  -- A parent that sleeps on its own entry is awake after the two calls of `wakeup`.
  awake :
      (q : ℕ)
      → q < nproc
      → p < nproc
      → q ≢ p
      → (t p).parent ≡ some q
      → (t q).state ≡ sleeping
      → (t q).chan ≡ of_proc q
      → (woken q).state ≡ runnable
  unfolding woken
  awake q hq hp n par asleep on = go r.state
    where
      r : IsPassed (t q) (passed q)
      r = (reparent-IsPassed initproc (some p) p t q hq).1

      par' : (passed p).parent ≡ some q
      par' =
          (reparent-IsPassed initproc (some p) p t p hp).0
          ∙ rw par (new_parent-other initproc p q n)

      chan' : (passed q).chan ≡ of_proc q
      chan' = ap (λ (x : Proc). x.chan) (r.rest sleeping none) ∙ on

      go :
          ((passed q).state ≡ (t q).state)
            ⊎ (((t q).state ≡ sleeping) × ((passed q).state ≡ runnable))
          → (wakeup (some p) (chan_of (passed p).parent) passed q).state ≡ runnable
      go (inl e) = rw par' (
          ap (λ (x : Proc). x.state)
            ((wakeup-exact (some p) (of_proc q) passed q hq).0
              (record { not_me = ground arith; asleep = e ∙ asleep; on_chan = chan' })))
      go (inr e) = still_runnable _ _ (wakeup-IsWoken (some p) _ passed q) e.1

  woken-IsPassed : (j : ℕ) → j < nproc → IsPassed (t j) (woken j)
  unfolding woken
  woken-IsPassed j h =
      IsPassed-trans (t j) (passed j) _ (reparent-IsPassed initproc (some p) p t j h).1
        (IsWoken-IsPassed _ _ (wakeup-IsWoken (some p) (chan_of (passed p).parent) passed j))

  final-IsExited : p < nproc → initproc ≢ p → IsExited initproc ticks status p t final
  unfolding final become_zombie
  final-IsExited hp n = record {
    dead = rw at_p;
    told = rw at_p;
    ended = rw at_p;
    parents = parents-final;
    no_orphan = λ j h e. not-new_parent initproc p (t j).parent n (sym (parents-final j h) ∙ e);
    kept = rw at_p (ap (λ (x : Proc). x.st_priority) ((woken-IsPassed p hp).rest sleeping none));
    same_pid = rw at_p (ap (λ (x : Proc). x.pid) ((woken-IsPassed p hp).rest sleeping none));
    others = λ j h m.
        rw (update_other woken p (become_zombie status ticks (woken p)) j m) (woken-IsPassed j h);
    parent_awake = λ q hq m par asleep on.
        rw (update_other woken p (become_zombie status ticks (woken p)) q (λ e. m (sym e)))
          (awake q hq hp m par asleep on);
  }
    where
      at_p :
          update woken p (become_zombie status ticks (woken p)) p
          ≡ become_zombie status ticks (woken p)
      at_p = update_self woken p _

-- `exit` panics exactly for `initproc`; for any other process it leaves a zombie with the status
-- and the time, every child handed to `initproc` and so no entry with the dead parent, and a parent
-- that was in `wait` RUNNABLE.
pub exit-IsExited :
    (initproc ticks : ℕ) (status : ℤ) (p : ℕ) (t : Table)
    → p < nproc
    → ((p ≡ initproc) × (exit initproc ticks status p t ≡ none))
      ⊎ ((p ≢ initproc)
          × ((u : Table) × (exit initproc ticks status p t ≡ some u)
              × IsExited initproc ticks status p t u))
unfolding exit final
exit-IsExited initproc ticks status p t h = elim (Bool-cases (p == initproc)) [
  | inl e ↦ inl ((==_iff p initproc).0 e, rw e)
  | inr e ↦
      let n : p ≢ initproc = λ q. cc (e, (==_iff p initproc).1 q) in
      inr (
        n,
        (
          final initproc ticks status p t,
          rw e,
          final-IsExited initproc ticks status p t h (λ q. n (sym q)),
        ),
      )
]
