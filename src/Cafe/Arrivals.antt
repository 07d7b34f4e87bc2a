-- ===== src/Cafe/Arrivals.antt =====
-- concurrency/1.c: `to_enter_customer`, and the loop of `main` that links the customers who arrive.
use cow_pbs_cofee_cafe_icecr.Base.{
  ℕ, zero, suc, ◌+◌, ◌-◌, ◌<◌, ◌≤◌, ◌≡◌, ◌≢◌, inl, inr, refl, arith, Bool, true, false, ◌==◌,
  ==_iff, Option, none, some, ℤ, eqb_ℤ, Bool-cases, ℕ_discrete, ◌∙◌, ap, sym,
}
use cow_pbs_cofee_cafe_icecr.Cafe.Defs.{Customer}

-- The loop: the `no`-th place that passes the test, among the `n` places from `i` on.
unfoldable pub nth_from : ℕ → ℕ → ℕ → (ℕ → Bool) → Option ℕ
nth_from zero number i test = none
nth_from (suc n) number i test = elim (test i) [
  | true ↦ elim (number == 1) [ true ↦ some i | false ↦ nth_from n (number - 1) (i + 1) test ]
  | false ↦ nth_from n number (i + 1) test
]

-- `cust[i].cust_arrival == tmr`
pub arrives : (ℕ → Customer) → ℤ → ℕ → Bool
arrives cust tmr i = eqb_ℤ (cust i).cust_arrival tmr

unfoldable pub to_enter_customer : (ℕ → Customer) → ℤ → ℕ → ℕ → Option ℕ
to_enter_customer cust tmr number cust_cnt = nth_from cust_cnt number 1 (arrives cust tmr)

-- The first place that passes the test, at or after `i` and below `hi`.
pub first_from : ℕ → ℕ → (ℕ → Bool) → Option ℕ
first_from hi i test = nth_from (hi - i) 1 i test

abbrev pub after : ℕ → (ℕ → Bool) → Option ℕ → Option ℕ
after hi test none = none
after hi test (some k) = first_from hi (k + 1) test

pub ==_false : {a b : ℕ} → a ≢ b → (a == b) ≡ false
==_false h = ground arith

-- The first place that passes, or that none does.
abbrev pub IsFirst : ℕ → ℕ → (ℕ → Bool) → Option ℕ → Type 0
IsFirst hi i test none = (j : ℕ) → i ≤ j → j < hi → test j ≡ false
IsFirst hi i test (some k) =
    (i ≤ k) × (k < hi) × (test k ≡ true) × ((j : ℕ) → i ≤ j → j < k → test j ≡ false)

IsFirst-later :
    (hi i : ℕ) (test : ℕ → Bool) (r : Option ℕ)
    → test i ≡ false
    → IsFirst hi (i + 1) test r
    → IsFirst hi i test r
IsFirst-later hi i test none e h =
    λ j a b. elim (ℕ_discrete i j) [ yes q ↦ rw (← q) e | no q ↦ h j (omega arith) b ]
IsFirst-later hi i test (some k) e (a, b, c, d) = (
  omega (arith, a),
  b,
  c,
  λ j h l. elim (ℕ_discrete i j) [ yes q ↦ rw (← q) e | no q ↦ d j (omega arith) l ],
)

pub nth_from-IsFirst :
    (n i hi : ℕ) (test : ℕ → Bool) → i + n ≡ hi → IsFirst hi i test (nth_from n 1 i test)
unfolding nth_from
nth_from-IsFirst zero i hi test e = λ j a b. absurd (omega arith)
nth_from-IsFirst (suc n) i hi test e = elim (Bool-cases (test i)) [
  | inl p ↦ rw (p, nth_from) (omega arith, omega arith, p, λ j a b. absurd (omega arith))
  | inr p ↦
      rw (p, nth_from)
        (IsFirst-later hi i test _ p (nth_from-IsFirst n (i + 1) hi test (omega arith)))
]

pub first_from-IsFirst :
    (hi i : ℕ) (test : ℕ → Bool) → i ≤ hi → IsFirst hi i test (first_from hi i test)
unfolding first_from
first_from-IsFirst hi i test h = nth_from-IsFirst (hi - i) i hi test (omega arith)

pub first_from-eq :
    (n i hi : ℕ) (test : ℕ → Bool) → i + n ≡ hi → nth_from n 1 i test ≡ first_from hi i test
unfolding first_from
first_from-eq n i hi test e = ap (λ m. nth_from m 1 i test) (omega arith)

pub nth_from-hit :
    (n number i : ℕ) (test : ℕ → Bool)
    → test i ≡ true
    → number ≡ 1
    → nth_from (suc n) number i test ≡ some i
unfolding nth_from
nth_from-hit n number i test p e = rw (p, nth_from) (rw ((==_iff number 1).1 e) refl)

pub nth_from-pass :
    (n number i : ℕ) (test : ℕ → Bool)
    → test i ≡ true
    → number ≢ 1
    → nth_from (suc n) number i test ≡ nth_from n (number - 1) (i + 1) test
unfolding nth_from
nth_from-pass n number i test p e = rw (p, nth_from) (rw (==_false e) refl)

pub nth_from-miss :
    (n number i : ℕ) (test : ℕ → Bool)
    → test i ≡ false
    → nth_from (suc n) number i test ≡ nth_from n number (i + 1) test
unfolding nth_from
nth_from-miss n number i test p = rw (p, nth_from) refl

-- The next one is the first that follows.
pub nth_from-suc :
    (n number i hi : ℕ) (test : ℕ → Bool)
    → 1 ≤ number
    → i + n ≡ hi
    → nth_from n (number + 1) i test ≡ after hi test (nth_from n number i test)
unfolding nth_from
nth_from-suc zero number i hi test h e = refl
nth_from-suc (suc n) number i hi test h e = elim (Bool-cases (test i)) [
  | inr p ↦ rw (p, nth_from) (nth_from-suc n number (i + 1) hi test h (omega arith))
  | inl p ↦ elim (ℕ_discrete number 1) [
    | yes q ↦
        nth_from-pass n (number + 1) i test p (omega arith)
        ∙ ap (λ m. nth_from n m (i + 1) test) (omega arith)
        ∙ first_from-eq n (i + 1) hi test (omega arith)
        ∙ ap (after hi test) (sym (nth_from-hit n number i test p q))
    | no q ↦
        nth_from-pass n (number + 1) i test p (omega arith)
        ∙ ap (λ m. nth_from n m (i + 1) test) (omega arith)
        ∙ nth_from-suc n (number - 1) (i + 1) hi test (omega arith) (omega arith)
        ∙ ap (after hi test) (sym (nth_from-pass n number i test p q))
  ]
]
