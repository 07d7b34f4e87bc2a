-- ===== src/Proc/Sleep/Frame.antt =====
-- What `wakeup` of kernel/proc.c changes of an entry: its state, from SLEEPING to RUNNABLE.
use cow_pbs_cofee_cafe_icecr.Base.{ℕ, ◌≡◌, ◌⊎◌, inl, refl, arith, ◌∙◌, Option}
use cow_pbs_cofee_cafe_icecr.Proc.Defs.{Proc, ProcState, Chan, sleeping, runnable, Table, nproc}
use cow_pbs_cofee_cafe_icecr.Proc.Table.{for_each-keeps}
use cow_pbs_cofee_cafe_icecr.Proc.Sleep.{wake, wakeup}

-- `q` is `p`, but it may have been woken.
pub record IsWoken (p q : Proc) : Type 0 where
  pub rest : (s : ProcState) → record q { state = s } ≡ record p { state = s }
  pub state : (q.state ≡ p.state) ⊎ ((p.state ≡ sleeping) × (q.state ≡ runnable))

pub IsWoken-refl : (p : Proc) → IsWoken p p
IsWoken-refl p = record { rest = λ s. refl; state = inl refl }

pub IsWoken-trans : (p q r : Proc) → IsWoken p q → IsWoken q r → IsWoken p r
IsWoken-trans p q r h k = record {
  rest = λ s. k.rest s ∙ h.rest s;
  state = ground (arith, h.state, k.state);
}

wake-state :
    (me : Option ℕ) (chan : Chan) (i : ℕ) (p : Proc)
    → ((wake me chan i p).state ≡ p.state)
      ⊎ ((p.state ≡ sleeping) × ((wake me chan i p).state ≡ runnable))
unfolding wake
wake-state me chan i p = ground arith

wake-rest :
    (me : Option ℕ) (chan : Chan) (i : ℕ) (p : Proc) (s : ProcState)
    → record (wake me chan i p) { state = s } ≡ record p { state = s }
unfolding wake
wake-rest me chan i p s = ground arith

pub wakeup-IsWoken :
    (me : Option ℕ) (chan : Chan) (t : Table) (j : ℕ) → IsWoken (t j) (wakeup me chan t j)
unfolding wakeup
wakeup-IsWoken me chan t =
    for_each-keeps (λ j p. IsWoken (t j) p) nproc 0 (wake me chan) t
      (λ j p h.
        IsWoken-trans (t j) p _ h
          (record { rest = wake-rest me chan j p; state = wake-state me chan j p }))
      (λ j. IsWoken-refl (t j))
