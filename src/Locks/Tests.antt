-- ===== src/Locks/Tests.antt =====
-- Concrete runs of kernel/spinlock.c: nested sections, and two CPUs at one lock.
use cow_pbs_cofee_cafe_icecr.Base.{◌≡◌, ◌↔◌, inl, refl, arith, true, false, some, pos, update}
use cow_pbs_cofee_cafe_icecr.Locks.{
  Cpu, initlock, holding, outside, spinning, held, unlocked, System, acquire_begins, test_and_set,
  release_begins, release_ends, acquires, spins, Reach, start, step, push_off,
}
use cow_pbs_cofee_cafe_icecr.Locks.Nesting.{
  Calls, done, nest, depth, run, IsRestored, run-IsRestored,
}
use cow_pbs_cofee_cafe_icecr.Locks.Exclusion.{IsSafe}
use cow_pbs_cofee_cafe_icecr.Locks.Safety.{Reach-IsSafe}
use cow_pbs_cofee_cafe_icecr.Locks.Returns.{Reach-returns}

abbrev idle_cpu : Cpu
idle_cpu = record { sie = true; noff = pos 0; intena = false }

abbrev two_deep : Calls
two_deep = nest (nest done done) done

run-IsRestored_example : (d : Cpu) × ((run two_deep idle_cpu ≡ some d) × IsRestored idle_cpu d)
unfolding depth
run-IsRestored_example = run-IsRestored two_deep 0 idle_cpu (refl, inl refl) (omega arith)

-- No CPU is at the lock.
abbrev released : System
released = record { lock = initlock; pc = λ i. outside; cpus = λ i. idle_cpu }

released-IsSafe : IsSafe released
unfolding initlock
released-IsSafe = record {
  guarded = record {
    exclusive = λ i j e f. absurd (ground arith);
    closed = λ i e. absurd (ground arith);
    owned = λ e. absurd (ground arith);
  };
  naming = record { named = λ i e. absurd (ground arith); holder = λ i e. absurd (cc e) };
  quiet = record { idle = λ i e. refl; busy = λ i e. absurd (e refl) };
}

-- CPU 0 is before the swap, and behind it.
abbrev waiting : System
waiting = record {
  lock = initlock;
  pc = update released.pc 0 spinning;
  cpus = update released.cpus 0 (push_off idle_cpu);
}

abbrev locking : System
locking = test_and_set 0 waiting

first : Reach released locking
unfolding acquire_begins holding initlock
first = step (step start (acquires 0 refl refl)) (spins 0 refl refl)

Reach-IsSafe_example : IsSafe locking
Reach-IsSafe_example = Reach-IsSafe released-IsSafe first

Reach-returns_example :
    ((holding 1 locking.lock ≡ true) ↔ (locking.pc 1 ≡ held))
    × (locking.pc 1 ≡ outside → (u : System) × (acquire_begins 1 locking ≡ some u))
    × (locking.pc 1 ≡ held → (u : System) × (release_begins 1 locking ≡ some u))
    × (locking.pc 1 ≡ unlocked → (u : System) × (release_ends 1 locking ≡ some u))
Reach-returns_example = Reach-returns released-IsSafe first 1
