-- ===== src/Locks/Returns.antt =====
-- No call of acquire or release of kernel/spinlock.c panics in a state that is reached.
use cow_pbs_cofee_cafe_icecr.Base.{
  ℕ, ◌≡◌, ◌≢◌, ◌↔◌, inl, inr, refl, ap, arith, Bool, true, false, ◌&&◌, not, Option, none, some,
  pos, ◌==◌, ==_iff, Bool-cases, if◌then◌else◌, update,
}
use cow_pbs_cofee_cafe_icecr.Locks.{
  Cpu, Spinlock, is_cpu, holding, outside, held, unlocked, System, acquire_begins, release_begins,
  release_ends, Reach,
}
use cow_pbs_cofee_cafe_icecr.Locks.Nesting.{pop_off-at}
use cow_pbs_cofee_cafe_icecr.Locks.Exclusion.{inside, IsSafe}
use cow_pbs_cofee_cafe_icecr.Locks.Safety.{not_held, not_outside, Reach-IsSafe}

not_cpu : (o : Option ℕ) (i : ℕ) → is_cpu o i ≡ true → o ≡ some i
not_cpu none i e = ground arith
not_cpu (some j) i e = ap some ((==_iff j i).0 e)

both : (a b : Bool) → (a && b) ≡ true → (a ≡ true) × (b ≡ true)
both a b e = ground arith

holding_cpu : (i : ℕ) (lk : Spinlock) → holding i lk ≡ true → lk.cpu ≡ some i
unfolding holding
holding_cpu i lk e = not_cpu lk.cpu i (both lk.locked _ e).1

holding_of : (i : ℕ) (lk : Spinlock) → lk.locked ≡ true → lk.cpu ≡ some i → holding i lk ≡ true
unfolding holding
holding_of i lk e f = rw (e, f, (==_iff i i).1 refl)

safe-holding : (i : ℕ) (s : System) → IsSafe s → (holding i s.lock ≡ true) ↔ (s.pc i ≡ held)
safe-holding i s h = (
  (λ e. h.naming.holder i (holding_cpu i s.lock e)),
  (λ e. holding_of i s.lock (h.guarded.closed i (ap inside e)) (h.naming.named i e)),
)

returns_unless :
    {A : Type 0} (b : Bool) (x : A) → b ≡ false → (t : A) × ((if b then none else some x) ≡ some t)
returns_unless b x e = (x, rw e)

acquire_begins-returns :
    (i : ℕ) (s : System) → holding i s.lock ≢ true → (t : System) × (acquire_begins i s ≡ some t)
unfolding acquire_begins
acquire_begins-returns i s n = elim (Bool-cases (holding i s.lock)) [
  | inl e ↦ absurd (n e)
  | inr e ↦ returns_unless (holding i s.lock) _ e
]

release_begins-returns :
    (i : ℕ) (s : System) → holding i s.lock ≡ true → (t : System) × (release_begins i s ≡ some t)
unfolding release_begins
release_begins-returns i s e = returns_unless (not (holding i s.lock)) _ (ap not e)

release_ends-returns :
    (i : ℕ) (s : System)
    → ((s.cpus i).noff ≡ pos 1) × ((s.cpus i).sie ≡ false)
    → (t : System) × (release_ends i s ≡ some t)
unfolding release_ends
release_ends-returns i s (e, f) =
    let c : Cpu = record (s.cpus i) { noff = pos 0; sie = (0 == 0) && (s.cpus i).intena } in
    (
      record s { pc = update s.pc i outside; cpus = update s.cpus i c },
      rw (pop_off-at 0 (s.cpus i) f e (omega arith)),
    )

-- In every state that is reached `holding` is true for exactly the CPU that has the lock, and no
-- call panics: not acquire outside, not release by the holder, not the pop_off at the end of
-- release.
pub Reach-returns :
    {s t : System}
    → IsSafe s
    → Reach s t
    → (i : ℕ)
    → ((holding i t.lock ≡ true) ↔ (t.pc i ≡ held))
      × (t.pc i ≡ outside → (u : System) × (acquire_begins i t ≡ some u))
      × (t.pc i ≡ held → (u : System) × (release_begins i t ≡ some u))
      × (t.pc i ≡ unlocked → (u : System) × (release_ends i t ≡ some u))
Reach-returns {s} {t} h r i =
    let g : IsSafe t = Reach-IsSafe h r in
    let m = safe-holding i t g in
    (
      m,
      (λ e. acquire_begins-returns i t (λ z. not_held _ outside e (ground arith) (m.0 z))),
      (λ e. release_begins-returns i t (m.1 e)),
      (λ e. release_ends-returns i t (g.quiet.busy i (not_outside _ unlocked e (ground arith)))),
    )
