-- ===== src/Cafe/Links.antt =====
-- concurrency/1.c: the chain of wake-ups that `main` links, for customers and for baristas.
use cow_pbs_cofee_cafe_icecr.Base.{
  ℕ, zero, suc, ◌+◌, ◌<◌, ◌≤◌, ◌≡◌, ◌≢◌, ◌⊎◌, inl, inr, refl, arith, Bool, true, false, Option,
  none, some, Option-cases, ℕ_discrete, update, update_self, update_other, ◌∙◌, ap, sym, subst,
  dec_lt,
}
use cow_pbs_cofee_cafe_icecr.Cafe.Arrivals.{
  first_from, IsFirst, first_from-IsFirst, nth_from-IsFirst, nth_from-suc, nth_from, after,
}

-- The loop of `main` on `temp_cust` with at most `fuel` rounds; none if they are not enough.
unfoldable pub link_customers :
    ℕ → (ℕ → Option ℕ) → ℕ → Option ℕ → (ℕ → Option ℕ) → Option (ℕ → Option ℕ)
link_customers fuel nth count_cust none wake = some wake
link_customers zero nth count_cust (some temp_cust) wake = none
link_customers (suc fuel) nth count_cust (some temp_cust) wake =
    link_customers fuel nth (count_cust + 1) (nth count_cust)
      (update wake temp_cust (nth count_cust))

-- Every place that passes the test names the next that does, from the place `first` on; nothing
-- else is written.
pub record IsLinked (hi first : ℕ) (test : ℕ → Bool) (wake wake' : ℕ → Option ℕ) : Type 0 where
  pub linked : (j : ℕ) → first ≤ j → j < hi → test j ≡ true → wake' j ≡ first_from hi (j + 1) test
  pub kept : (j : ℕ) → (j < first) ⊎ (hi ≤ j) ⊎ (test j ≡ false) → wake' j ≡ wake j

pub true-≢-false : (b : Bool) → b ≡ true → b ≢ false
true-≢-false b e q = cc (e, q)

not_kept :
    (hi i j : ℕ) (test : ℕ → Bool)
    → i ≡ j
    → i < hi
    → test i ≡ true
    → ¬ ((j < i) ⊎ (hi ≤ j) ⊎ (test j ≡ false))
not_kept hi i j test r h p (inl a) = omega arith
not_kept hi i j test r h p (inr (inl a)) = omega arith
not_kept hi i j test r h p (inr (inr a)) = true-≢-false (test i) p (ap test r ∙ a)

pub kept-later :
    {hi i j k : ℕ} (test : ℕ → Bool)
    → (j < i) ⊎ (hi ≤ j) ⊎ (test j ≡ false)
    → i ≤ k
    → (j < k) ⊎ (hi ≤ j) ⊎ (test j ≡ false)
kept-later test (inl a) h = inl (omega arith)
kept-later test (inr a) h = inr a

IsLinked-cons :
    (hi i : ℕ) (test : ℕ → Bool) (wake wake' : ℕ → Option ℕ) (k : ℕ)
    → i < hi
    → test i ≡ true
    → first_from hi (i + 1) test ≡ some k
    → IsLinked hi k test (update wake i (some k)) wake'
    → IsLinked hi i test wake wake'
IsLinked-cons hi i test wake wake' k h p e l =
    let f : IsFirst hi (i + 1) test (some k) =
      subst (IsFirst hi (i + 1) test) e (first_from-IsFirst hi (i + 1) test (omega arith)) in
    record {
      linked = λ j a b q. elim (ℕ_discrete i j) [
        | yes r ↦
            rw (← r) (l.kept i (inl (omega (arith, f.0))) ∙ update_self wake i (some k) ∙ sym e)
        | no r ↦ elim (dec_lt j k) [
          | yes c ↦ absurd (true-≢-false _ q (f.3 j (omega arith) c))
          | no c ↦ l.linked j (omega arith) b q
        ]
      ];
      kept = λ j a. elim (ℕ_discrete i j) [
        | yes r ↦ absurd (not_kept hi i j test r h p a)
        | no r ↦
            l.kept j (kept-later test a (omega (arith, f.0))) ∙ update_other wake i (some k) j r
      ];
    }

IsLinked-last :
    (hi i : ℕ) (test : ℕ → Bool) (wake : ℕ → Option ℕ)
    → i < hi
    → test i ≡ true
    → first_from hi (i + 1) test ≡ none
    → IsLinked hi i test wake (update wake i none)
IsLinked-last hi i test wake h p e =
    let f : IsFirst hi (i + 1) test none =
      subst (IsFirst hi (i + 1) test) e (first_from-IsFirst hi (i + 1) test (omega arith)) in
    record {
      linked = λ j a b q. elim (ℕ_discrete i j) [
        | yes r ↦ rw (← r) (update_self wake i none ∙ sym e)
        | no r ↦ absurd (true-≢-false _ q (f j (omega arith) b))
      ];
      kept = λ j a. elim (ℕ_discrete i j) [
        | yes r ↦ absurd (not_kept hi i j test r h p a)
        | no r ↦ update_other wake i none j r
      ];
    }

abbrev pub IsChain : (ℕ → Option ℕ) → ℕ → (ℕ → Bool) → Type 0
IsChain nth hi test = (m : ℕ) → 1 ≤ m → nth (m + 1) ≡ after hi test (nth m)

-- The loop, entered with the `m`-th place, links them all, if it may make a round for each place
-- left.
pub link-IsLinked :
    (fuel hi : ℕ) (test : ℕ → Bool) (nth : ℕ → Option ℕ)
    → IsChain nth hi test
    → (m i : ℕ) → 1 ≤ m
    → nth m ≡ some i
    → i < hi
    → hi ≤ i + fuel
    → test i ≡ true
    → (wake : ℕ → Option ℕ)
    → (wake' : ℕ → Option ℕ) × (link_customers fuel nth (m + 1) (some i) wake ≡ some wake')
      × IsLinked hi i test wake wake'
unfolding link_customers
link-IsLinked zero hi test nth chain m i a e h f t wake = absurd (omega arith)
link-IsLinked (suc fuel) hi test nth chain m i a e h f t wake =
    let q : nth (m + 1) ≡ first_from hi (i + 1) test = chain m a ∙ ap (after hi test) e in
    elim (Option-cases (first_from hi (i + 1) test)) [
      | inl c ↦
          (update wake i none, rw (q ∙ c, link_customers) refl, IsLinked-last hi i test wake h t c)
      | inr (k, c) ↦
          let g : IsFirst hi (i + 1) test (some k) =
            subst (IsFirst hi (i + 1) test) c (first_from-IsFirst hi (i + 1) test (omega arith)) in
          let (w, r, l) =
            link-IsLinked fuel hi test nth chain (m + 1) k (omega arith) (q ∙ c) g.1
              (omega (arith, g.0)) g.2 (update wake i (some k)) in
          (w, rw (q ∙ c, link_customers) r, IsLinked-cons hi i test wake w k h t c l)
    ]

-- Links from the first that passes are links from the start.
pub IsLinked-start :
    (hi lo i : ℕ) (test : ℕ → Bool) (wake wake' : ℕ → Option ℕ)
    → IsFirst hi lo test (some i)
    → IsLinked hi i test wake wake'
    → IsLinked hi lo test wake wake'
IsLinked-start hi lo i test wake wake' f l = record {
  linked = λ j a b q. elim (dec_lt j i) [
    | yes c ↦ absurd (true-≢-false _ q (f.3 j a c))
    | no c ↦ l.linked j (omega arith) b q
  ];
  kept = λ j a. l.kept j (kept-later test a f.0);
}

pub IsLinked-none :
    (hi lo : ℕ) (test : ℕ → Bool) (wake : ℕ → Option ℕ)
    → IsFirst hi lo test none
    → IsLinked hi lo test wake wake
IsLinked-none hi lo test wake f = record {
  linked = λ j a b q. absurd (true-≢-false _ q (f j a b));
  kept = λ j a. refl;
}

link_from_first :
    (n lo : ℕ) (test : ℕ → Bool) (wake : ℕ → Option ℕ) (o : Option ℕ)
    → nth_from n 1 lo test ≡ o
    → IsFirst (lo + n) lo test o
    → (wake' : ℕ → Option ℕ) × (link_customers n (λ (m : ℕ). nth_from n m lo test) 2 o wake
        ≡ some wake')
      × IsLinked (lo + n) lo test wake wake'
unfolding link_customers
link_from_first n lo test wake none e f = (wake, refl, IsLinked-none (lo + n) lo test wake f)
link_from_first n lo test wake (some i) e f =
    let (w, q, l) =
      link-IsLinked n (lo + n) test (λ (m : ℕ). nth_from n m lo test)
        (λ m h. nth_from-suc n m lo (lo + n) test h refl) 1 i (omega arith) e f.1
        (omega (arith, f.0)) f.2 wake in
    (w, q, IsLinked-start (lo + n) lo i test wake w f l)

-- The loop over the places that pass a test, from the first, ends and links them all.
pub link_customers-IsLinked :
    (n lo : ℕ) (test : ℕ → Bool) (wake : ℕ → Option ℕ)
    → (wake' : ℕ → Option ℕ) × (link_customers n
          (λ (m : ℕ). nth_from n m lo test)
          2
          (nth_from n 1 lo test)
          wake
        ≡ some wake')
      × IsLinked (lo + n) lo test wake wake'
link_customers-IsLinked n lo test wake =
    link_from_first n lo test wake (nth_from n 1 lo test) refl
      (nth_from-IsFirst n lo (lo + n) test refl)
