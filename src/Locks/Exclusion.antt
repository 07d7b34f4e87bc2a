-- ===== src/Locks/Exclusion.antt =====
-- acquire and release of kernel/spinlock.c by several CPUs: mutual exclusion, and no panic.
use cow_pbs_cofee_cafe_icecr.Base.{
  ℕ, ◌≡◌, ◌≢◌, refl, sym, ◌∙◌, ap, arith, Bool, true, false, Option, none, some, pos, ℕ_discrete,
  update, update_self, update_other,
}
use cow_pbs_cofee_cafe_icecr.Locks.{Cpu, Pc, outside, taken, held, dropped, unlocked, System}
use cow_pbs_cofee_cafe_icecr.Locks.Nesting.{truth_apart}

-- From the swap that succeeds to the write of `locked`.
abbrev pub inside : Pc → Bool
inside taken = true
inside held = true
inside dropped = true
inside _ = false

-- At most one CPU is inside, and `locked` tells whether one is.
pub record IsGuarded (locked : Bool) (pc : ℕ → Pc) : Type 0 where
  pub exclusive : (i j : ℕ) → inside (pc i) ≡ true → inside (pc j) ≡ true → i ≡ j
  pub closed : (i : ℕ) → inside (pc i) ≡ true → locked ≡ true
  pub owned : locked ≡ true → (i : ℕ) × (inside (pc i) ≡ true)

-- `cpu` names the CPU that holds the lock.
pub record IsNamed (cpu : Option ℕ) (pc : ℕ → Pc) : Type 0 where
  pub named : (i : ℕ) → pc i ≡ held → cpu ≡ some i
  pub holder : (i : ℕ) → cpu ≡ some i → pc i ≡ held

-- A CPU that is in acquire or release, or between them, has its interrupts off.
pub record IsQuiet (pc : ℕ → Pc) (cpus : ℕ → Cpu) : Type 0 where
  pub idle : (i : ℕ) → pc i ≡ outside → (cpus i).noff ≡ pos 0
  pub busy : (i : ℕ) → pc i ≢ outside → ((cpus i).noff ≡ pos 1) × ((cpus i).sie ≡ false)

pub record IsSafe (s : System) : Type 0 where
  pub guarded : IsGuarded s.lock.locked s.pc
  pub naming : IsNamed s.lock.cpu s.pc
  pub quiet : IsQuiet s.pc s.cpus

dropped_held : dropped ≢ held
dropped_held e = ground arith

pub at_self : (pc : ℕ → Pc) (i j : ℕ) (x : Pc) → i ≡ j → update pc i x j ≡ x
at_self pc i j x e = ap (update pc i x) (sym e) ∙ update_self pc i x

-- Nobody enters or leaves.
pub same-IsGuarded :
    (b : Bool) (pc : ℕ → Pc) (i : ℕ) (x : Pc)
    → inside x ≡ inside (pc i)
    → IsGuarded b pc
    → IsGuarded b (update pc i x)
same-IsGuarded b pc i x e g =
    let same : (j : ℕ) → inside (update pc i x j) ≡ inside (pc j) = λ j. elim (ℕ_discrete i j) [
      | yes q ↦ ap inside (at_self pc i j x q) ∙ e ∙ ap (λ k. inside (pc k)) q
      | no n ↦ ap inside (update_other pc i x j n)
    ] in
    record {
      exclusive = λ j k a c. g.exclusive j k (sym (same j) ∙ a) (sym (same k) ∙ c);
      closed = λ j a. g.closed j (sym (same j) ∙ a);
      owned = λ a. let o = g.owned a in (o.0, same o.0 ∙ o.1);
    }

-- The swap finds the lock free.
pub enter-IsGuarded :
    (b : Bool) (pc : ℕ → Pc) (i : ℕ)
    → b ≡ false
    → IsGuarded b pc
    → IsGuarded true (update pc i taken)
enter-IsGuarded b pc i e g =
    let alone : (j : ℕ) → inside (update pc i taken j) ≡ true → i ≡ j = λ j a.
      elim (ℕ_discrete i j) [
        | yes q ↦ q
        | no n ↦
            absurd (
              truth_apart
                (sym (g.closed j (sym (ap inside (update_other pc i taken j n)) ∙ a)) ∙ e))
      ] in
    record {
      exclusive = λ j k a c. sym (alone j a) ∙ alone k c;
      closed = λ j a. refl;
      owned = λ a. (i, ap inside (update_self pc i taken));
    }

pub leave-IsGuarded :
    (b : Bool) (pc : ℕ → Pc) (i : ℕ)
    → inside (pc i) ≡ true
    → IsGuarded b pc
    → IsGuarded false (update pc i unlocked)
leave-IsGuarded b pc i e g =
    let nobody : (j : ℕ) → inside (update pc i unlocked j) ≢ true = λ j a. elim (ℕ_discrete i j) [
      | yes q ↦ truth_apart (sym a ∙ ap inside (at_self pc i j unlocked q))
      | no n ↦ n (g.exclusive i j e (sym (ap inside (update_other pc i unlocked j n)) ∙ a))
    ] in
    record {
      exclusive = λ j k a c. absurd (nobody j a);
      closed = λ j a. absurd (nobody j a);
      owned = λ a. absurd (truth_apart (sym a));
    }

-- A CPU moves between places where it does not hold the lock.
pub pass-IsNamed :
    (o : Option ℕ) (pc : ℕ → Pc) (i : ℕ) (x : Pc)
    → pc i ≢ held
    → x ≢ held
    → IsNamed o pc
    → IsNamed o (update pc i x)
pass-IsNamed o pc i x m n g = record {
  named = λ j e. elim (ℕ_discrete i j) [
    | yes q ↦ absurd (n (sym (at_self pc i j x q) ∙ e))
    | no k ↦ g.named j (sym (update_other pc i x j k) ∙ e)
  ];
  holder = λ j e. elim (ℕ_discrete i j) [
    | yes q ↦ absurd (m (ap pc q ∙ g.holder j e))
    | no k ↦ update_other pc i x j k ∙ g.holder j e
  ];
}

-- The CPU `i` is the one inside when it writes its name or takes it off.
only :
    (b : Bool) (pc : ℕ → Pc) (i j : ℕ) → IsGuarded b pc → inside (pc i) ≡ true → pc j ≡ held → i ≡ j
only b pc i j g e h = g.exclusive i j e (ap inside h)

pub take-IsNamed :
    (b : Bool) (pc : ℕ → Pc) (i : ℕ)
    → IsGuarded b pc
    → inside (pc i) ≡ true
    → IsNamed (some i) (update pc i held)
take-IsNamed b pc i g e = record {
  named = λ j h. elim (ℕ_discrete i j) [
    | yes q ↦ ap some q
    | no n ↦ absurd (n (only b pc i j g e (sym (update_other pc i held j n) ∙ h)))
  ];
  holder = λ j h. at_self pc i j held (cc h);
}

pub drop-IsNamed :
    (b : Bool) (pc : ℕ → Pc) (i : ℕ)
    → IsGuarded b pc
    → inside (pc i) ≡ true
    → IsNamed none (update pc i dropped)
drop-IsNamed b pc i g e = record {
  named = λ j h. elim (ℕ_discrete i j) [
    | yes q ↦ absurd (dropped_held (sym (at_self pc i j dropped q) ∙ h))
    | no n ↦ absurd (n (only b pc i j g e (sym (update_other pc i dropped j n) ∙ h)))
  ];
  holder = λ j h. absurd (cc h);
}

pub pass-IsQuiet :
    (pc : ℕ → Pc) (cpus : ℕ → Cpu) (i : ℕ) (x : Pc)
    → pc i ≢ outside
    → x ≢ outside
    → IsQuiet pc cpus
    → IsQuiet (update pc i x) cpus
pass-IsQuiet pc cpus i x m n g = record {
  idle = λ j e. elim (ℕ_discrete i j) [
    | yes q ↦ absurd (n (sym (at_self pc i j x q) ∙ e))
    | no k ↦ g.idle j (sym (update_other pc i x j k) ∙ e)
  ];
  busy = λ j e. elim (ℕ_discrete i j) [
    | yes q ↦ g.busy j (λ z. m (ap pc q ∙ z))
    | no k ↦ g.busy j (λ z. e (update_other pc i x j k ∙ z))
  ];
}
