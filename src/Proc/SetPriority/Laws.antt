-- ===== src/Proc/SetPriority/Laws.antt =====
-- Every branch of `sys_setpriority` in kernel/sysproc.c.
use cow_pbs_cofee_cafe_icecr.Base.{
  ℕ, ◌<◌, ◌≡◌, ◌≢◌, ◌⊎◌, inl, inr, arith, refl, ◌∙◌, ap, true, false, ◌||◌, Option, none, some, ℤ,
  pos, negsuc, ltb_ℤ, ◌≤ℤ◌, ◌<ℤ◌, eqb_ℤ, update, update_self, update_other, update-keeps,
  Bool-cases,
}
use cow_pbs_cofee_cafe_icecr.Proc.Defs.{Proc, ProcState, runnable, Table, nproc}
use cow_pbs_cofee_cafe_icecr.Proc.Table.{find}
use cow_pbs_cofee_cafe_icecr.Proc.Sleep.Own.{yield-other, yield-me, yield-SameButState}
use cow_pbs_cofee_cafe_icecr.Proc.Sleep.Laws.{IsVictim, IsFound, find-IsFound}
use cow_pbs_cofee_cafe_icecr.Proc.SetPriority.{
  check_valid_newp, check_valid_pid, reprioritise, change_priority, set_found, sys_setpriority,
}

-- The arguments that the call accepts.
abbrev pub IsRequest : ℤ → ℤ → Type 0
IsRequest pid new = (pos 0 ≤ℤ new) × (new ≤ℤ pos 100) × (pos 0 ≤ℤ pid)

-- The call returns -1 and changes nothing.
abbrev pub IsRefused : Table → ℤ × Table → Type 0
IsRefused t r = r ≡ (negsuc 0, t)

-- The first entry with the number gets the priority and has two of its times reset, with its `rbi`
-- as it was; the old priority is returned. The caller turns RUNNABLE if the new priority is the
-- lower, and no other entry changes otherwise.
pub record IsReprioritised (me : ℕ) (pid new : ℤ) (t : Table) (r : ℤ × Table) : Type 0 where
  pub target : ℕ
  pub found : IsVictim pid t target
  pub returned : r.0 ≡ (t target).st_priority
  pub changed :
      record (r.1 target) { state = (t target).state }
      ≡ record (t target) { running_time = pos 0; sleep_time = pos 0; st_priority = new }
  pub kept_rbi : (r.1 target).rbi ≡ (t target).rbi
  pub yields : new <ℤ (t target).st_priority → (r.1 me).state ≡ runnable
  pub stays : (t target).st_priority ≤ℤ new → (r.1 me).state ≡ (t me).state
  pub other_states : (j : ℕ) → me ≢ j → (r.1 j).state ≡ (t j).state
  pub others :
      (j : ℕ) (s : ProcState)
      → target ≢ j
      → record (r.1 j) { state = s } ≡ record (t j) { state = s }

reprioritise-state :
    (new : ℤ) (t : Table) (i : ℕ) (j : ℕ)
    → (update t i (reprioritise new (t i)) j).state ≡ (t j).state
unfolding reprioritise
reprioritise-state new t i = update-keeps (λ j p. p.state ≡ (t j).state) t i _ (λ j. refl) refl

not_lt : (a b : ℤ) → ltb_ℤ a b ≡ false → a <ℤ b → ⊥
not_lt a b h k = ground arith

not_ge : (a b : ℤ) → ltb_ℤ a b ≡ true → b ≤ℤ a → ⊥
not_ge a b h k = ground arith

change_priority-IsReprioritised :
    (me : ℕ) (pid new : ℤ) (i : ℕ) (t : Table)
    → IsVictim pid t i
    → IsReprioritised me pid new t (change_priority me new i t)
unfolding change_priority reprioritise
change_priority-IsReprioritised me pid new i t v = elim (Bool-cases (ltb_ℤ new (t i).st_priority)) [
  | inl e ↦ rw e (record {
    target = i;
    found = v;
    returned = refl;
    changed = yield-SameButState me t' (t i).state i ∙ rw at_i;
    kept_rbi = ap (λ (p : Proc). p.rbi) (yield-SameButState me t' (t i).state i) ∙ rw at_i;
    yields = λ _. yield-me me t';
    stays = λ k. absurd (not_ge new (t i).st_priority e k);
    other_states = λ j m. rw (yield-other me t' j m) (reprioritise-state new t i j);
    others =
        λ j s n. yield-SameButState me t' s j ∙ rw (update_other t i (reprioritise new (t i)) j n);
  })
  | inr e ↦ rw e (record {
    target = i;
    found = v;
    returned = refl;
    changed = rw at_i;
    kept_rbi = rw at_i;
    yields = λ k. absurd (not_lt new (t i).st_priority e k);
    stays = λ _. reprioritise-state new t i me;
    other_states = λ j m. reprioritise-state new t i j;
    others = λ j s n. rw (update_other t i (reprioritise new (t i)) j n);
  })
]
  where
    t' : Table
    t' = update t i (reprioritise new (t i))

    at_i : update t i (reprioritise new (t i)) i ≡ reprioritise new (t i)
    at_i = update_self t i _

set_found-cases :
    (me : ℕ) (pid new : ℤ) (t : Table) (r : Option ℕ)
    → IsFound pid t r
    → (((j : ℕ) → j < nproc → (t j).pid ≢ pid) × IsRefused t (set_found me new t r))
      ⊎ IsReprioritised me pid new t (set_found me new t r)
unfolding set_found
set_found-cases me pid new t none s = inl (s, refl)
set_found-cases me pid new t (some i) s = inr (change_priority-IsReprioritised me pid new i t s)

valid_args :
    (pid new : ℤ) → (check_valid_newp new || check_valid_pid pid) ≡ false → IsRequest pid new
unfolding check_valid_newp check_valid_pid
valid_args pid new h = ground arith

invalid_args :
    (pid new : ℤ) → (check_valid_newp new || check_valid_pid pid) ≡ true → ¬ IsRequest pid new
unfolding check_valid_newp check_valid_pid
invalid_args pid new h v = ground arith

-- `sys_setpriority` returns -1 and changes nothing if the priority is not in 0 to 100, the number
-- is negative, or no entry of the table has it; otherwise the first entry that has it gets the
-- priority and loses its running and sleep times, the call returns the old priority, and the caller
-- yields exactly if the new one is the lower. The stored `rbi` stays.
pub sys_setpriority-cases :
    (me : ℕ) (pid new : ℤ) (t : Table)
    → (¬ IsRequest pid new × IsRefused t (sys_setpriority me pid new t))
      ⊎ (IsRequest pid new
          × ((j : ℕ) → j < nproc → (t j).pid ≢ pid)
          × IsRefused t (sys_setpriority me pid new t))
      ⊎ (IsRequest pid new × IsReprioritised me pid new t (sys_setpriority me pid new t))
unfolding sys_setpriority
sys_setpriority-cases me pid new t =
    elim (Bool-cases (check_valid_newp new || check_valid_pid pid)) [
      | inl e ↦ rw e (inl (invalid_args pid new e, refl))
      | inr e ↦
          rw e
            (elim (set_found-cases me pid new t (find nproc 0 (λ p. eqb_ℤ p.pid pid) t)
              (find-IsFound pid t)) [
                | inl q ↦ inr (inl (valid_args pid new e, q.0, q.1))
                | inr q ↦ inr (inr (valid_args pid new e, q))
              ])
    ]
