-- ===== src/Proc/Exit/Laws.antt =====
-- What `reparent` and `exit` of kernel/proc.c do to each entry of the process table.
use cow_pbs_cofee_cafe_icecr.Base.{
  ℕ, zero, suc, ◌+◌, ◌<◌, ◌≤◌, ◌≡◌, ◌≢◌, ◌⊎◌, inl, inr, arith, refl, ◌∙◌, ap, Option, some, update,
  update_self, update_other, update-keeps, if◌then◌else◌, Bool-cases, ℕ_discrete,
}
use cow_pbs_cofee_cafe_icecr.Proc.Defs.{Proc, ProcState, of_proc, sleeping, runnable, Table, nproc}
use cow_pbs_cofee_cafe_icecr.Proc.Sleep.Frame.{IsWoken, wakeup-IsWoken}
use cow_pbs_cofee_cafe_icecr.Proc.Exit.{is_parent, pass_to_init, reparent_from, reparent}

-- The parent of an entry after `reparent`.
abbrev pub new_parent : ℕ → ℕ → Option ℕ → Option ℕ
new_parent initproc p parent = if is_parent parent p then some initproc else parent

-- `q` is `p`, but for the parent and for having been woken.
pub record IsPassed (p q : Proc) : Type 0 where
  pub rest :
      (s : ProcState) (o : Option ℕ)
      → record q { state = s; parent = o } ≡ record p { state = s; parent = o }
  pub state : (q.state ≡ p.state) ⊎ ((p.state ≡ sleeping) × (q.state ≡ runnable))

IsPassed-refl : (p : Proc) → IsPassed p p
IsPassed-refl p = record { rest = λ s o. refl; state = inl refl }

pub IsPassed-trans : (p q r : Proc) → IsPassed p q → IsPassed q r → IsPassed p r
IsPassed-trans p q r h k = record {
  rest = λ s o. k.rest s o ∙ h.rest s o;
  state = ground (arith, h.state, k.state);
}

pub IsWoken-IsPassed : (p q : Proc) → IsWoken p q → IsPassed p q
IsWoken-IsPassed p q w = record {
  rest = λ s o. ap (λ (x : Proc). record x { parent = o }) (w.rest s);
  state = w.state;
}

woken_parent : (p q : Proc) → IsWoken p q → q.parent ≡ p.parent
woken_parent p q w = ap (λ (x : Proc). x.parent) (w.rest sleeping)

module _ (initproc : ℕ) (me : Option ℕ) (p : ℕ) where
  pass_to_init-IsPassed :
      (pp : ℕ) (t : Table) (j : ℕ) → IsPassed (t j) (pass_to_init initproc me p pp t j)
  unfolding pass_to_init
  pass_to_init-IsPassed pp t j = elim (Bool-cases (is_parent (t pp).parent p)) [
    | inl e ↦ rw e (
        IsPassed-trans (t j) (t' j) _ (moved j)
          (IsWoken-IsPassed _ _ (wakeup-IsWoken me (of_proc initproc) t' j)))
    | inr e ↦ rw e (IsPassed-refl (t j))
  ]
    where
      t' : Table
      t' = update t pp (record (t pp) { parent = some initproc })

      moved : (j : ℕ) → IsPassed (t j) (t' j)
      moved =
          update-keeps (λ j q. IsPassed (t j) q) t pp _ (λ j. IsPassed-refl (t j))
            (record { rest = λ s o. refl; state = inl refl })

  pass_to_init-parent_other :
      (pp : ℕ) (t : Table) (j : ℕ)
      → pp ≢ j
      → (pass_to_init initproc me p pp t j).parent ≡ (t j).parent
  unfolding pass_to_init
  pass_to_init-parent_other pp t j n = elim (Bool-cases (is_parent (t pp).parent p)) [
    | inl e ↦ rw e (
        woken_parent _ _ (wakeup-IsWoken me (of_proc initproc) _ j)
        ∙ ap (λ (x : Proc). x.parent) (update_other t pp _ j n))
    | inr e ↦ rw e
  ]

  pass_to_init-parent_self :
      (pp : ℕ) (t : Table)
      → (pass_to_init initproc me p pp t pp).parent ≡ new_parent initproc p (t pp).parent
  unfolding pass_to_init
  pass_to_init-parent_self pp t = elim (Bool-cases (is_parent (t pp).parent p)) [
    | inl e ↦ rw e (
        woken_parent _ _ (wakeup-IsWoken me (of_proc initproc) _ pp)
        ∙ ap (λ (x : Proc). x.parent) (update_self t pp (record (t pp) { parent = some initproc })))
    | inr e ↦ rw e
  ]

  reparent_from-parent_out :
      (n i : ℕ) (t : Table) (j : ℕ)
      → (j < i) ⊎ (i + n ≤ j)
      → (reparent_from n i initproc me p t j).parent ≡ (t j).parent
  unfolding reparent_from
  reparent_from-parent_out zero i t j h = refl
  reparent_from-parent_out (suc n) i t j h =
      reparent_from-parent_out n (i + 1) (pass_to_init initproc me p i t) j (omega arith)
      ∙ pass_to_init-parent_other i t j (omega arith)

  reparent_from-parent :
      (n i : ℕ) (t : Table) (j : ℕ)
      → i ≤ j
      → j < i + n
      → (reparent_from n i initproc me p t j).parent ≡ new_parent initproc p (t j).parent
  unfolding reparent_from
  reparent_from-parent zero i t j h k = absurd (omega arith)
  reparent_from-parent (suc n) i t j h k = elim (ℕ_discrete i j) [
    | yes e ↦ rw (← e) (
        reparent_from-parent_out n (i + 1) (pass_to_init initproc me p i t) i (omega arith)
        ∙ pass_to_init-parent_self i t)
    | no e ↦
        reparent_from-parent n (i + 1) (pass_to_init initproc me p i t) j (omega arith)
          (omega arith)
        ∙ ap (new_parent initproc p) (pass_to_init-parent_other i t j e)
  ]

  reparent_from-IsPassed :
      (n i : ℕ) (t : Table) (j : ℕ) → IsPassed (t j) (reparent_from n i initproc me p t j)
  unfolding reparent_from
  reparent_from-IsPassed zero i t j = IsPassed-refl (t j)
  reparent_from-IsPassed (suc n) i t j =
      IsPassed-trans (t j) _ _ (pass_to_init-IsPassed i t j)
        (reparent_from-IsPassed n (i + 1) (pass_to_init initproc me p i t) j)

  -- `reparent` gives each child of the process to `initproc`, changes the parent of no other entry,
  -- and of every entry nothing else but that it may have been woken.
  pub reparent-IsPassed :
      (t : Table) (j : ℕ)
      → j < nproc
      → ((reparent initproc me p t j).parent ≡ new_parent initproc p (t j).parent)
        × IsPassed (t j) (reparent initproc me p t j)
  unfolding reparent
  reparent-IsPassed t j h =
      (reparent_from-parent nproc 0 t j (omega arith) h, reparent_from-IsPassed nproc 0 t j)
