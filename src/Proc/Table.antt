-- ===== src/Proc/Table.antt =====
-- Loops over the process table, `for (p = proc; p < &proc[NPROC]; p++)`, of kernel/proc.c.
use cow_pbs_cofee_cafe_icecr.Base.{
  ℕ, zero, suc, ◌+◌, ◌<◌, ◌≤◌, ◌≡◌, inl, inr, arith, Bool, true, false, Option, none, some, update,
  update_self, update_other, update-keeps, Bool-cases, ℕ_discrete, refl, ◌∙◌, ap,
}
use cow_pbs_cofee_cafe_icecr.Proc.Defs.{Proc, Table}

-- A loop that treats the `n` entries from `i` on, one after the other.
unfoldable pub for_each : ℕ → ℕ → (ℕ → Proc → Proc) → Table → Table
for_each zero i f t = t
for_each (suc n) i f t = for_each n (i + 1) f (update t i (f i (t i)))

-- A loop that stops at the first entry that passes the test.
unfoldable pub find : ℕ → ℕ → (Proc → Bool) → Table → Option ℕ
find zero i test t = none
find (suc n) i test t = elim (test (t i)) [ true ↦ some i | false ↦ find n (i + 1) test t ]

pub for_each-below :
    (n i : ℕ) (f : ℕ → Proc → Proc) (t : Table) (j : ℕ) → j < i → for_each n i f t j ≡ t j
unfolding for_each
for_each-below zero i f t j h = refl
for_each-below (suc n) i f t j h =
    for_each-below n (i + 1) f (update t i (f i (t i))) j (omega arith)
    ∙ update_other t i _ j (omega arith)

pub for_each-above :
    (n i : ℕ) (f : ℕ → Proc → Proc) (t : Table) (j : ℕ) → i + n ≤ j → for_each n i f t j ≡ t j
unfolding for_each
for_each-above zero i f t j h = refl
for_each-above (suc n) i f t j h =
    for_each-above n (i + 1) f (update t i (f i (t i))) j (omega arith)
    ∙ update_other t i _ j (omega arith)

-- Each entry in the range is treated once.
pub for_each-at :
    (n i : ℕ) (f : ℕ → Proc → Proc) (t : Table) (j : ℕ)
    → i ≤ j
    → j < i + n
    → for_each n i f t j ≡ f j (t j)
unfolding for_each
for_each-at zero i f t j h k = absurd (omega arith)
for_each-at (suc n) i f t j h k = elim (ℕ_discrete i j) [
  | yes e ↦ rw (← e) (
      for_each-below n (i + 1) f (update t i (f i (t i))) i (omega arith)
      ∙ update_self t i (f i (t i)))
  | no e ↦
      for_each-at n (i + 1) f (update t i (f i (t i))) j (omega arith) (omega arith)
      ∙ ap (f j) (update_other t i (f i (t i)) j e)
]

-- The first entry that passes.
pub record IsHit (test : Proc → Bool) (t : Table) (lo hi k : ℕ) : Type 0 where
  pub from : lo ≤ k
  pub below : k < hi
  pub passes : test (t k) ≡ true
  pub earliest : (j : ℕ) → lo ≤ j → j < k → test (t j) ≡ false

abbrev pub IsSearch : (Proc → Bool) → Table → ℕ → ℕ → Option ℕ → Type 0
IsSearch test t lo hi none = (j : ℕ) → lo ≤ j → j < hi → test (t j) ≡ false
IsSearch test t lo hi (some k) = IsHit test t lo hi k

IsSearch-later :
    (test : Proc → Bool) (t : Table) (i hi : ℕ) (r : Option ℕ)
    → test (t i) ≡ false
    → IsSearch test t (i + 1) hi r
    → IsSearch test t i hi r
IsSearch-later test t i hi none e s =
    λ j h k. elim (ℕ_discrete i j) [ yes q ↦ rw (← q) e | no q ↦ s j (omega arith) k ]
IsSearch-later test t i hi (some k) e s = record {
  from = omega (arith, s.from);
  below = s.below;
  passes = s.passes;
  earliest =
      λ j h l. elim (ℕ_discrete i j) [ yes q ↦ rw (← q) e | no q ↦ s.earliest j (omega arith) l ];
}

pub find-IsSearch :
    (n i hi : ℕ) (test : Proc → Bool) (t : Table)
    → i + n ≡ hi
    → IsSearch test t i hi (find n i test t)
unfolding find
find-IsSearch zero i hi test t e = λ j h k. absurd (omega arith)
find-IsSearch (suc n) i hi test t e = elim (Bool-cases (test (t i))) [
  | inl p ↦
      rw (p, find)
        (record {
          from = omega arith;
          below = omega arith;
          passes = p;
          earliest = λ j h k. absurd (omega arith);
        })
  | inr p ↦
      rw (p, find)
        (IsSearch-later test t i hi _ p (find-IsSearch n (i + 1) hi test t (omega arith)))
]

-- What the treatment of an entry keeps, the loop keeps.
pub for_each-keeps {κ} :
    (P : ℕ → Proc → Type κ) (n i : ℕ) (f : ℕ → Proc → Proc) (t : Table)
    → ((j : ℕ) (p : Proc) → P j p → P j (f j p))
    → ((j : ℕ) → P j (t j))
    → (j : ℕ) → P j (for_each n i f t j)
unfolding for_each
for_each-keeps P zero i f t keep h = h
for_each-keeps P (suc n) i f t keep h =
    for_each-keeps P n (i + 1) f (update t i (f i (t i))) keep
      (update-keeps P t i (f i (t i)) h (keep i (t i) (h i)))
