-- ===== src/Proc/Scheduler/Choice.antt =====
-- Which process the pass of `scheduler` in kernel/proc.c chooses.
use cow_pbs_cofee_cafe_icecr.Base.{
  ℕ, zero, suc, ◌+◌, ◌<◌, ◌≡◌, ◌≢◌, ◌↔◌, arith, sym, ap, ◌∙◌, true, false, Option, none, some,
  update, inl, inr, Bool-cases, dec_lt, update-keeps,
}
use cow_pbs_cofee_cafe_icecr.Proc.Defs.{Proc, runnable, state_eq, Table, ProcState}
use cow_pbs_cofee_cafe_icecr.Proc.Priority.{dp_calc}
use cow_pbs_cofee_cafe_icecr.Proc.Priority.Frame.{SameButRbi, dp_calc-rbi, dp_calc-SameButRbi}
use cow_pbs_cofee_cafe_icecr.Proc.Scheduler.{Rank, rank, before, compare_with, examine, select}
use cow_pbs_cofee_cafe_icecr.Proc.Scheduler.Order.{before_trans, before_neg_trans}

module _ (t₀ : Table) where
  -- `b` is first in the order among the runnable entries below `i`, and the lowest such index.
  pub record IsFirst (i b : ℕ) : Type 0 where
    pub below : b < i
    pub is_runnable : (t₀ b).state ≡ runnable
    pub least :
        (j : ℕ) → j < i → (t₀ j).state ≡ runnable → before (rank (t₀ j)) (rank (t₀ b)) ≡ false
    pub lowest :
        (j : ℕ) → j < b → (t₀ j).state ≡ runnable → before (rank (t₀ b)) (rank (t₀ j)) ≡ true

  abbrev pub IsChoice : ℕ → Option ℕ → Type 0
  IsChoice i none = (j : ℕ) → j < i → (t₀ j).state ≢ runnable
  IsChoice i (some b) = IsFirst i b

state_eq_iff : (s : ProcState) → (state_eq s runnable ≡ true) ↔ (s ≡ runnable)
state_eq_iff s = ground arith

rank-SameButRbi : (p q : Proc) → SameButRbi p q → rank p ≡ rank q
unfolding rank
rank-SameButRbi p q (x, e) = rw (e, dp_calc-rbi q x)

before_irrefl : (p : Rank) → before p p ≡ false
unfolding before
before_irrefl p = ground arith

compare_with-SameButRbi :
    (t₀ t : Table) (i : ℕ) (best : Option ℕ)
    → ((j : ℕ) → SameButRbi (t j) (t₀ j))
    → (j : ℕ) → SameButRbi ((compare_with t i best).0 j) (t₀ j)
unfolding compare_with
compare_with-SameButRbi t₀ t i none h = h
compare_with-SameButRbi t₀ t i (some b) h =
    update-keeps Same t' b (dp_calc (t' b)).1 h' (dp_calc-SameButRbi (t' b) (t₀ b) (h' b))
  where
    Same : ℕ → Proc → Type 0
    Same j p = SameButRbi p (t₀ j)

    t' : Table
    t' = update t i (dp_calc (t i)).1

    h' : (j : ℕ) → SameButRbi (t' j) (t₀ j)
    h' = update-keeps Same t i (dp_calc (t i)).1 h (dp_calc-SameButRbi (t i) (t₀ i) (h i))

-- The scan goes on past an entry that is not runnable.
IsChoice-skip :
    (t₀ : Table) (i : ℕ) (best : Option ℕ)
    → (t₀ i).state ≢ runnable
    → IsChoice t₀ i best
    → IsChoice t₀ (i + 1) best
IsChoice-skip t₀ i none n h = λ j lt e. elim (dec_lt j i) [
  | yes l ↦ h j l e
  | no g ↦ let q : i ≡ j = omega arith in n (rw q e)
]
IsChoice-skip t₀ i (some b) n h = record {
  below = omega (arith, h.below);
  is_runnable = h.is_runnable;
  least = λ j lt e. elim (dec_lt j i) [
    | yes l ↦ h.least j l e
    | no g ↦ let q : i ≡ j = omega arith in absurd (n (rw q e))
  ];
  lowest = h.lowest;
}

-- An entry that comes first among those before it is the new choice.
IsChoice-take :
    (t₀ : Table) (i b : ℕ)
    → (t₀ i).state ≡ runnable
    → before (rank (t₀ i)) (rank (t₀ b)) ≡ true
    → IsFirst t₀ i b
    → IsFirst t₀ (i + 1) i
IsChoice-take t₀ i b r h f = record {
  below = omega arith;
  is_runnable = r;
  least = λ j lt e. elim (dec_lt j i) [
    | yes l ↦ elim (Bool-cases (before (rank (t₀ j)) (rank (t₀ i)))) [
      | inl up ↦ cc (before_trans _ _ _ up h, f.least j l e)
      | inr down ↦ down
    ]
    | no g ↦ let q : j ≡ i = omega arith in rw q (before_irrefl (rank (t₀ i)))
  ];
  lowest = λ j lt e. before_neg_trans _ _ _ h (f.least j lt e);
}

-- An entry that does not come first leaves the choice.
IsChoice-keep :
    (t₀ : Table) (i b : ℕ)
    → before (rank (t₀ i)) (rank (t₀ b)) ≡ false
    → IsFirst t₀ i b
    → IsFirst t₀ (i + 1) b
IsChoice-keep t₀ i b h f = record {
  below = omega (arith, f.below);
  is_runnable = f.is_runnable;
  least = λ j lt e. elim (dec_lt j i) [
    | yes l ↦ f.least j l e
    | no g ↦ let q : j ≡ i = omega arith in rw q h
  ];
  lowest = f.lowest;
}

-- The first runnable entry is the choice.
IsChoice-IsFirst :
    (t₀ : Table) (i : ℕ) → (t₀ i).state ≡ runnable → IsChoice t₀ i none → IsFirst t₀ (i + 1) i
IsChoice-IsFirst t₀ i r h = record {
  below = omega arith;
  is_runnable = r;
  least = λ j lt e. elim (dec_lt j i) [
    | yes l ↦ absurd (h j l e)
    | no g ↦ let q : j ≡ i = omega arith in rw q (before_irrefl (rank (t₀ i)))
  ];
  lowest = λ j lt e. absurd (h j lt e);
}

compare_with-IsChoice :
    (t₀ t : Table) (i : ℕ) (best : Option ℕ)
    → ((j : ℕ) → SameButRbi (t j) (t₀ j))
    → (t₀ i).state ≡ runnable
    → IsChoice t₀ i best
    → IsChoice t₀ (i + 1) (compare_with t i best).1
unfolding compare_with
compare_with-IsChoice t₀ t i none same r h = IsChoice-IsFirst t₀ i r h
compare_with-IsChoice t₀ t i (some b) same r h =
    rw (rank-SameButRbi (t i) (t₀ i) (same i), rank-SameButRbi (t b) (t₀ b) (same b))
      (elim (Bool-cases (before (rank (t₀ i)) (rank (t₀ b)))) [
        | inl e ↦ rw e (IsChoice-take t₀ i b r e h)
        | inr e ↦ rw e (IsChoice-keep t₀ i b e h)
      ])

-- What the scan keeps, with the table as it was at the start.
pub record IsScan (t₀ : Table) (i : ℕ) (s : Table × Option ℕ) : Type 0 where
  pub same : (j : ℕ) → SameButRbi (s.0 j) (t₀ j)
  pub choice : IsChoice t₀ i s.1

examine-IsScan :
    (t₀ t : Table) (i : ℕ) (best : Option ℕ)
    → IsScan t₀ i (t, best)
    → IsScan t₀ (i + 1) (examine t i best)
unfolding examine
examine-IsScan t₀ t i best s = elim (Bool-cases (state_eq (t i).state runnable)) [
  | inl e ↦ rw e (record {
    same = compare_with-SameButRbi t₀ t i best s.same;
    choice =
        compare_with-IsChoice t₀ t i best s.same (sym (state i) ∙ (state_eq_iff (t i).state).0 e)
          s.choice;
  })
  | inr e ↦ rw e (record {
    same = s.same;
    choice =
        IsChoice-skip t₀ i best (λ r. cc (e, (state_eq_iff (t i).state).1 (state i ∙ r))) s.choice;
  })
]
  where
    state : (j : ℕ) → (t j).state ≡ (t₀ j).state
    state j = ap (λ (p : Proc). p.state) (s.same j).1

pub select-IsScan :
    (n i k : ℕ) (t₀ t : Table) (best : Option ℕ)
    → i + n ≡ k
    → IsScan t₀ i (t, best)
    → IsScan t₀ k (select n i t best)
unfolding select
select-IsScan zero i k t₀ t best e s = let q : k ≡ i = omega arith in rw q s
select-IsScan (suc n) i k t₀ t best e s =
    select-IsScan n (i + 1) k t₀ _ _ (omega arith) (examine-IsScan t₀ t i best s)
