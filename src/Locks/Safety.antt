-- ===== src/Locks/Safety.antt =====
-- Every step of acquire and release of kernel/spinlock.c keeps the lock safe.
use cow_pbs_cofee_cafe_icecr.Base.{
  ℕ, ◌≡◌, ◌≢◌, refl, sym, ◌∙◌, ap, subst, arith, Bool, true, false, ◌&&◌, not, none, some, pos,
  ◌==◌, if_keeps, ℕ_discrete, if◌then◌else◌, update, update_self, update_other, and_then_some,
}
use cow_pbs_cofee_cafe_icecr.Locks.{
  Cpu, push_off, pop_off, holding, Pc, outside, spinning, taken, held, dropped, unlocked, System,
  acquire_begins, test_and_set, acquire_ends, release_begins, release_clears, release_ends, Step,
  acquires, spins, enters, releases, clears, leaves, Reach, start, step,
}
use cow_pbs_cofee_cafe_icecr.Locks.Nesting.{pushed-noff, push_off-sie, pop_off-at}
use cow_pbs_cofee_cafe_icecr.Locks.Exclusion.{
  inside, IsQuiet, IsSafe, at_self, same-IsGuarded, enter-IsGuarded, leave-IsGuarded, pass-IsNamed,
  take-IsNamed, drop-IsNamed, pass-IsQuiet,
}

unless_some : {A : Type 0} (b : Bool) (x t : A) → (if b then none else some x) ≡ some t → x ≡ t
unless_some true x t e = absurd (cc e)
unless_some false x t e = cc e

set-IsQuiet :
    (pc : ℕ → Pc) (cpus : ℕ → Cpu) (i : ℕ) (x : Pc) (c : Cpu)
    → (x ≡ outside → c.noff ≡ pos 0)
    → (x ≢ outside → (c.noff ≡ pos 1) × (c.sie ≡ false))
    → IsQuiet pc cpus
    → IsQuiet (update pc i x) (update cpus i c)
set-IsQuiet pc cpus i x c m n g = record {
  idle = λ j e. elim (ℕ_discrete i j) [
    | yes q ↦
        ap (λ k. (update cpus i c k).noff) (sym q)
        ∙ ap (λ (d : Cpu). d.noff) (update_self cpus i c)
        ∙ m (sym (at_self pc i j x q) ∙ e)
    | no k ↦
        ap (λ (d : Cpu). d.noff) (update_other cpus i c j k)
        ∙ g.idle j (sym (update_other pc i x j k) ∙ e)
  ];
  busy = λ j e. elim (ℕ_discrete i j) [
    | yes q ↦
        let v = n (λ z. e (at_self pc i j x q ∙ z)) in
        let w : update cpus i c j ≡ c = ap (update cpus i c) (sym q) ∙ update_self cpus i c in
        (ap (λ (d : Cpu). d.noff) w ∙ v.0, ap (λ (d : Cpu). d.sie) w ∙ v.1)
    | no k ↦
        let v = g.busy j (λ z. e (update_other pc i x j k ∙ z)) in
        let w = update_other cpus i c j k in
        (ap (λ (d : Cpu). d.noff) w ∙ v.0, ap (λ (d : Cpu). d.sie) w ∙ v.1)
  ];
}

pub not_held : (p x : Pc) → p ≡ x → x ≢ held → p ≢ held
not_held p x e n z = n (sym e ∙ z)

pub not_outside : (p x : Pc) → p ≡ x → x ≢ outside → p ≢ outside
not_outside p x e n z = n (sym e ∙ z)

pushed : (c : Cpu) → c.noff ≡ pos 0 → ((push_off c).noff ≡ pos 1) × ((push_off c).sie ≡ false)
pushed c e = (pushed-noff 0 c e (omega arith), push_off-sie c)

acquires-IsSafe :
    (i : ℕ) (s : System)
    → s.pc i ≡ outside
    → IsSafe s
    → IsSafe
        (record s { pc = update s.pc i spinning; cpus = update s.cpus i (push_off (s.cpus i)) })
acquires-IsSafe i s e h = record {
  guarded = same-IsGuarded s.lock.locked s.pc i spinning (sym (ap inside e)) h.guarded;
  naming =
      pass-IsNamed s.lock.cpu s.pc i spinning (not_held _ outside e (ground arith)) (ground arith)
        h.naming;
  quiet =
      set-IsQuiet s.pc s.cpus i spinning (push_off (s.cpus i)) (λ z. absurd (ground arith))
        (λ z. pushed (s.cpus i) (h.quiet.idle i e)) h.quiet;
}

spins-IsSafe : (i : ℕ) (s : System) → s.pc i ≡ spinning → IsSafe s → IsSafe (test_and_set i s)
unfolding test_and_set
spins-IsSafe i s e h =
    if_keeps IsSafe s.lock.locked _ _ (λ z. h)
      (λ z. record {
        guarded = enter-IsGuarded s.lock.locked s.pc i z h.guarded;
        naming =
            pass-IsNamed s.lock.cpu s.pc i taken (not_held _ spinning e (ground arith))
              (ground arith) h.naming;
        quiet =
            pass-IsQuiet s.pc s.cpus i taken (not_outside _ spinning e (ground arith))
              (ground arith) h.quiet;
      })

enters-IsSafe : (i : ℕ) (s : System) → s.pc i ≡ taken → IsSafe s → IsSafe (acquire_ends i s)
unfolding acquire_ends
enters-IsSafe i s e h = record {
  guarded = same-IsGuarded s.lock.locked s.pc i held (sym (ap inside e)) h.guarded;
  naming = take-IsNamed s.lock.locked s.pc i h.guarded (ap inside e);
  quiet =
      pass-IsQuiet s.pc s.cpus i held (not_outside _ taken e (ground arith)) (ground arith) h.quiet;
}

releases-IsSafe :
    (i : ℕ) (s : System)
    → s.pc i ≡ held
    → IsSafe s
    → IsSafe (record s { pc = update s.pc i dropped; lock = record s.lock { cpu = none } })
releases-IsSafe i s e h = record {
  guarded = same-IsGuarded s.lock.locked s.pc i dropped (sym (ap inside e)) h.guarded;
  naming = drop-IsNamed s.lock.locked s.pc i h.guarded (ap inside e);
  quiet =
      pass-IsQuiet s.pc s.cpus i dropped (not_outside _ held e (ground arith)) (ground arith)
        h.quiet;
}

clears-IsSafe : (i : ℕ) (s : System) → s.pc i ≡ dropped → IsSafe s → IsSafe (release_clears i s)
unfolding release_clears
clears-IsSafe i s e h = record {
  guarded = leave-IsGuarded s.lock.locked s.pc i (ap inside e) h.guarded;
  naming =
      pass-IsNamed s.lock.cpu s.pc i unlocked (not_held _ dropped e (ground arith)) (ground arith)
        h.naming;
  quiet =
      pass-IsQuiet s.pc s.cpus i unlocked (not_outside _ dropped e (ground arith)) (ground arith)
        h.quiet;
}

popped-noff : (c d : Cpu) → (c.noff ≡ pos 1) × (c.sie ≡ false) → pop_off c ≡ some d → d.noff ≡ pos 0
popped-noff c d (e, f) q =
    let r = pop_off-at 0 c f e (omega arith) in
    let w : (record c { noff = pos 0; sie = (0 == 0) && c.intena }) ≡ d = cc in
    ap (λ (x : Cpu). x.noff) (sym w)

leaves-IsSafe :
    (i : ℕ) (s : System) (c : Cpu)
    → s.pc i ≡ unlocked
    → pop_off (s.cpus i) ≡ some c
    → IsSafe s
    → IsSafe (record s { pc = update s.pc i outside; cpus = update s.cpus i c })
leaves-IsSafe i s c e q h =
    let off = h.quiet.busy i (not_outside _ unlocked e (ground arith)) in
    record {
      guarded = same-IsGuarded s.lock.locked s.pc i outside (sym (ap inside e)) h.guarded;
      naming =
          pass-IsNamed s.lock.cpu s.pc i outside (not_held _ unlocked e (ground arith))
            (ground arith) h.naming;
      quiet =
          set-IsQuiet s.pc s.cpus i outside c (λ z. popped-noff (s.cpus i) c off q)
            (λ z. absurd (z refl)) h.quiet;
    }

Step-IsSafe : (s t : System) → Step s t → IsSafe s → IsSafe t
unfolding acquire_begins release_begins release_ends
Step-IsSafe s t (acquires i e r) h =
    subst IsSafe (unless_some (holding i s.lock) _ t r) (acquires-IsSafe i s e h)
Step-IsSafe s t (spins i e r) h = subst IsSafe (sym r) (spins-IsSafe i s e h)
Step-IsSafe s t (enters i e r) h = subst IsSafe (sym r) (enters-IsSafe i s e h)
Step-IsSafe s t (releases i e r) h =
    subst IsSafe (unless_some (not (holding i s.lock)) _ t r) (releases-IsSafe i s e h)
Step-IsSafe s t (clears i e r) h = subst IsSafe (sym r) (clears-IsSafe i s e h)
Step-IsSafe s t (leaves i e r) h =
    and_then_some (IsSafe t) (pop_off (s.cpus i)) _ t r
      (λ (c : Cpu) q f. subst IsSafe (cc f) (leaves-IsSafe i s c e q h))

-- In whatever order the CPUs take their steps, at most one is between the swap of acquire that
-- succeeds and the write of release that frees the lock; `locked` tells whether one is; `cpu` names
-- the holder; and interrupts are off on each CPU that is in acquire or release or between them.
pub Reach-IsSafe : {s t : System} → IsSafe s → Reach s t → IsSafe t
Reach-IsSafe h start = h
Reach-IsSafe h (step r a) = Step-IsSafe _ _ a (Reach-IsSafe h r)
