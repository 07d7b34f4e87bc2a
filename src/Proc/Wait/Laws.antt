-- ===== src/Proc/Wait/Laws.antt =====
-- The ways that `wait` and `waitx` of kernel/proc.c end, and what `exit` of a child means for them.
use cow_pbs_cofee_cafe_icecr.Base.{
  ℕ, ◌+◌, ◌^◌, ◌<◌, ◌≤◌, ◌≡◌, ◌≢◌, ◌⊎◌, inl, inr, refl, sym, ◌∙◌, subst, arith, Bool, true, false,
  ◌&&◌, ◌||◌, not, some, ℤ, pos, negsuc, ltb_ℤ, eqb_ℤ, ◌==◌, if_keeps,
}
use cow_pbs_cofee_cafe_icecr.Proc.Defs.{Proc, of_proc, Table, nproc}
use cow_pbs_cofee_cafe_icecr.Proc.Sleep.{sleep, killed}
use cow_pbs_cofee_cafe_icecr.Proc.Create.{freeproc}
use cow_pbs_cofee_cafe_icecr.Proc.Exit.{exit}
use cow_pbs_cofee_cafe_icecr.Proc.Exit.Zombie.{IsExited, exit-IsExited, new_parent-other}
use cow_pbs_cofee_cafe_icecr.Proc.Wait.{
  Scan, reached, passed, Waited, returned, sleeps, reap, wait_end, wait, times_of,
}
use cow_pbs_cofee_cafe_icecr.Proc.Wait.Children.{IsDead, IsFirst, IsScan, find_zombie-IsScan}

-- The call has a child, all children live, and it has not been killed.
pub record IsPatient (me : ℕ) (t : Table) : Type 0 where
  pub kid : (j : ℕ) × (j < nproc) × ((t j).parent ≡ some me)
  pub unkilled : eqb_ℤ (killed me t) (pos 0) ≡ true

-- How a round of `wait` ends: the first zombie child is freed and its pid returned; or its status
-- cannot be copied; or there is no child, or the call has been killed; or it sleeps on its own
-- entry.
pub data IsWait (addr : ℕ) (copied : ℤ) (me : ℕ) (t : Table) : Waited → Type 0 where
  reaps :
      (k : ℕ)
      → IsFirst me t 0 nproc k
      → (addr ≡ 0) ⊎ (ltb_ℤ copied (pos 0) ≡ false)
      → IsWait addr copied me t (returned (t k).pid (freeproc k t))
  faults :
      (k : ℕ)
      → IsFirst me t 0 nproc k
      → addr ≢ 0
      → ltb_ℤ copied (pos 0) ≡ true
      → IsWait addr copied me t (returned (negsuc 0) t)
  gives_up :
      ((j : ℕ) → j < nproc → ¬ IsDead me (t j))
      → ((j : ℕ) → j < nproc → (t j).parent ≢ some me) ⊎ (eqb_ℤ (killed me t) (pos 0) ≡ false)
      → IsWait addr copied me t (returned (negsuc 0) t)
  waits :
      ((j : ℕ) → j < nproc → ¬ IsDead me (t j))
      → IsPatient me t
      → IsWait addr copied me t (sleeps (sleep me (of_proc me) t))

faulty : (addr : ℕ) (b : Bool) → (not (addr == 0) && b) ≡ true → (addr ≢ 0) × (b ≡ true)
faulty addr b e = ground arith

sound : (addr : ℕ) (b : Bool) → (not (addr == 0) && b) ≡ false → (addr ≡ 0) ⊎ (b ≡ false)
sound addr b e = ground arith

ending : (h b : Bool) → (not h || not b) ≡ true → (h ≡ false) ⊎ (b ≡ false)
ending h b e = ground arith

going_on : (h b : Bool) → (not h || not b) ≡ false → (h ≡ true) × (b ≡ true)
going_on h b e = ground arith

kid_of : {P : Type 0} {h : Bool} → h ≡ true → (h ≡ true → (false ≡ true) ⊎ P) → P
kid_of e f = elim (f e) [ inl z ↦ absurd (ground arith) | inr p ↦ p ]

wait_end-IsWait :
    (addr : ℕ) (copied : ℤ) (me : ℕ) (t : Table) (s : Scan)
    → IsScan me t 0 nproc false s
    → IsWait addr copied me t (wait_end addr copied me t s)
unfolding wait_end reap
wait_end-IsWait addr copied me t (reached k) s =
    if_keeps (IsWait addr copied me t) (not (addr == 0) && ltb_ℤ copied (pos 0)) _ _
      (λ e. let f = faulty addr _ e in faults k s f.0 f.1) (λ e. reaps k s (sound addr _ e))
wait_end-IsWait addr copied me t (passed h) s =
    let alive : (j : ℕ) → j < nproc → ¬ IsDead me (t j) = λ j m. s.alive j (omega arith) m in
    if_keeps (IsWait addr copied me t) (not h || not (eqb_ℤ (killed me t) (pos 0))) _ _
      (λ e. gives_up alive (elim (ending h _ e) [
        | inl a ↦ inl (λ j m. s.childless a j (omega arith) m)
        | inr b ↦ inr b
      ]))
      (λ e.
        let g = going_on h _ e in waits alive (record { kid = kid_of g.0 s.kids; unkilled = g.1 }))

-- A round of `wait` frees the first child that is a zombie and returns its pid, unless the status
-- is asked for and cannot be copied; without a zombie child it returns -1 if there is no child at
-- all or the caller has been killed, and otherwise sleeps on the caller's entry. Where it returns
-- -1 the table is as before.
pub wait-IsWait :
    (addr : ℕ) (copied : ℤ) (me : ℕ) (t : Table) → IsWait addr copied me t (wait addr copied me t)
unfolding wait
wait-IsWait addr copied me t =
    wait_end-IsWait addr copied me t _ (find_zombie-IsScan nproc 0 nproc false me t refl)

-- The round frees a zombie child of `me` and returns its pid.
pub record IsReaped (me : ℕ) (t : Table) (w : Waited) : Type 0 where
  pub victim : ℕ
  pub in_table : victim < nproc
  pub found : IsDead me (t victim)
  pub result : w ≡ returned (t victim).pid (freeproc victim t)

reaped :
    (addr : ℕ) (copied : ℤ) (me : ℕ) (t : Table) (p : ℕ) (w : Waited)
    → p < nproc
    → IsDead me (t p)
    → (addr ≡ 0) ⊎ (ltb_ℤ copied (pos 0) ≡ false)
    → IsWait addr copied me t w
    → IsReaped me t w
reaped addr copied me t p w h d ok (reaps k f _) = record {
  victim = k;
  in_table = f.below;
  found = f.found;
  result = refl;
}
reaped addr copied me t p w h d ok (faults k f a c) =
    absurd (elim ok [ inl z ↦ a z | inr z ↦ ground arith ])
reaped addr copied me t p w h d ok (gives_up alive _) = absurd (alive p h d)
reaped addr copied me t p w h d ok (waits alive _) = absurd (alive p h d)

exited :
    (initproc ticks : ℕ) (status : ℤ) (p me : ℕ) (t u : Table)
    → p < nproc
    → p ≢ me
    → (t p).parent ≡ some me
    → IsExited initproc ticks status p t u
    → IsDead me (u p)
exited initproc ticks status p me t u h n e x = record {
  child = x.parents p h ∙ rw e (new_parent-other initproc p me (λ q. n (sym q)));
  dead = x.dead;
}

-- After the exit of a child the next round of the parent's `wait` does not sleep: it frees a zombie
-- child and returns its pid, provided that the status is not asked for or can be copied.
pub exit-wait :
    (initproc ticks : ℕ) (status : ℤ) (p me : ℕ) (t u : Table) (addr : ℕ) (copied : ℤ)
    → p < nproc
    → p ≢ me
    → (t p).parent ≡ some me
    → exit initproc ticks status p t ≡ some u
    → (addr ≡ 0) ⊎ (ltb_ℤ copied (pos 0) ≡ false)
    → IsReaped me u (wait addr copied me u)
exit-wait initproc ticks status p me t u addr copied h n e q ok =
    elim (exit-IsExited initproc ticks status p t h) [
      | inl (_, z) ↦ cc
      | inr (_, (v, z, x)) ↦
          let same : v ≡ u = cc in
          let d = exited initproc ticks status p me t v h n e x in
          reaped addr copied me u p _ h (subst (λ w. IsDead me (w p)) same d) ok
            (wait-IsWait addr copied me u)
    ]

-- The times that waitx writes for a child add up to those of its life.
times_of-sum :
    (p : Proc)
    → p.etime < 2 ^ 32
    → p.ctime + p.rtime ≤ p.etime
    → p.ctime + (times_of p).wtime + (times_of p).rtime ≡ p.etime
unfolding times_of
times_of-sum p h k = omega arith
