-- ===== src/Parlour/Checks/Laws.antt =====
-- concurrency/2.c: what the checks of orders and stock answer.
use cow_pbs_cofee_cafe_icecr.Base.{
  ℕ, zero, suc, ◌+◌, ◌<◌, ◌≤◌, ◌≡◌, ◌≢◌, ◌⊎◌, ◌↔◌, inl, inr, refl, arith, Bool, true, false, ◌&&◌,
  not, ◌==◌, ==_iff, ℤ, pos, negsuc, ◌≤ℤ◌, eqb_ℤ, Bool-cases, ℕ_discrete, ◌∙◌, ap, sym, subst,
}
use cow_pbs_cofee_cafe_icecr.Parlour.Defs.{Order}
use cow_pbs_cofee_cafe_icecr.Parlour.Checks.{
  leb_ℤ, exhausted_from, ingredient_exhausted, none_prepared_from, any_order_being_prepared,
}

-- The topping has no limit, or nothing is left of it.
abbrev pub IsSpent : ℤ → Type 0
IsSpent s = (s ≡ negsuc 0) ⊎ (s ≤ℤ pos 0)

-- Each topping from `i` up to `hi` is spent, and one of them has a limit, or `count` others had.
abbrev pub IsExhausted : (ℤ → ℤ) → ℕ → ℕ → ℕ → Type 0
IsExhausted stock count i hi =
    ((j : ℕ) → i ≤ j → j < hi → IsSpent (stock (pos j)))
    × ((0 < count) ⊎ ((j : ℕ) × (i ≤ j) × (j < hi) × (stock (pos j) ≢ negsuc 0)))

eq-ℤ : (a b : ℤ) → (eqb_ℤ a b ≡ true) ↔ (a ≡ b)
eq-ℤ (pos a) (pos b) = ground arith
eq-ℤ (pos a) (negsuc b) = ground arith
eq-ℤ (negsuc a) (pos b) = ground arith
eq-ℤ (negsuc a) (negsuc b) = ground arith

ne-ℤ : (a b : ℤ) → eqb_ℤ a b ≡ false → a ≢ b
ne-ℤ a b e q = cc ((eq-ℤ a b).1 q, e)

pub le-ℤ : (a b : ℤ) → (leb_ℤ a b ≡ true) ↔ (a ≤ℤ b)
le-ℤ a b = ground arith

not_le-ℤ : (a b : ℤ) → leb_ℤ a b ≡ false → ¬ (a ≤ℤ b)
not_le-ℤ a b e h = cc ((le-ℤ a b).1 h, e)

-- What holds at `i` and from `i + 1` on holds from `i` on.
IsSpent-all :
    (stock : ℤ → ℤ) (i hi : ℕ)
    → IsSpent (stock (pos i))
    → ((j : ℕ) → i + 1 ≤ j → j < hi → IsSpent (stock (pos j)))
    → (j : ℕ) → i ≤ j
    → j < hi
    → IsSpent (stock (pos j))
IsSpent-all stock i hi s h j a b = elim (ℕ_discrete i j) [
  | yes q ↦ subst (λ k. IsSpent (stock (pos k))) q s
  | no q ↦ h j (omega arith) b
]

-- Some topping from `i` up to `hi` has a limit, or `count` others had.
abbrev IsLimited : (ℤ → ℤ) → ℕ → ℕ → ℕ → Type 0
IsLimited stock count i hi =
    (0 < count) ⊎ ((j : ℕ) × (i ≤ j) × (j < hi) × (stock (pos j) ≢ negsuc 0))

IsLimited-later :
    (stock : ℤ → ℤ) (count i hi : ℕ) → IsLimited stock count (i + 1) hi → IsLimited stock count i hi
IsLimited-later stock count i hi (inl h) = inl h
IsLimited-later stock count i hi (inr (j, h, k, n)) = inr (j, omega arith, k, n)

IsLimited-earlier :
    (stock : ℤ → ℤ) (count i hi : ℕ)
    → stock (pos i) ≡ negsuc 0
    → IsLimited stock count i hi
    → IsLimited stock count (i + 1) hi
IsLimited-earlier stock count i hi e (inl h) = inl h
IsLimited-earlier stock count i hi e (inr (j, h, k, n)) = elim (ℕ_discrete i j) [
  | yes q ↦ absurd (n (ap (λ x. stock (pos x)) (sym q) ∙ e))
  | no q ↦ inr (j, omega arith, k, n)
]

-- What the loop answers, by cases.
abbrev IsAnswer : Bool → Type 0 → Type 0
IsAnswer true P = P
IsAnswer false P = ¬ P

IsAnswer-map : (b : Bool) {P Q : Type 0} → (P → Q) → (Q → P) → IsAnswer b P → IsAnswer b Q
IsAnswer-map true f g p = f p
IsAnswer-map false f g n = λ q. n (g q)

none-IsLimited :
    (count i hi : ℕ) (stock : ℤ → ℤ) → count ≡ 0 → i + 0 ≡ hi → ¬ IsLimited stock count i hi
none-IsLimited count i hi stock e h (inl k) = omega arith
none-IsLimited count i hi stock e h (inr (j, a, b, n)) = omega arith

nonzero : (count : ℕ) → (count == 0) ≡ false → 0 < count
nonzero count e = ground arith

not-IsSpent : (s : ℤ) → eqb_ℤ s (negsuc 0) ≡ false → leb_ℤ s (pos 0) ≡ false → ¬ IsSpent s
not-IsSpent s e h (inl q) = ne-ℤ s (negsuc 0) e q
not-IsSpent s e h (inr q) = not_le-ℤ s (pos 0) h q

exhausted_from-IsAnswer :
    (n i hi count : ℕ) (stock : ℤ → ℤ)
    → i + n ≡ hi
    → IsAnswer (exhausted_from n i count stock) (IsExhausted stock count i hi)
unfolding exhausted_from
exhausted_from-IsAnswer zero i hi count stock e = elim (Bool-cases (count == 0)) [
  | inl p ↦ rw p (λ (a, s). none-IsLimited count i hi stock ((==_iff count 0).0 p) e s)
  | inr p ↦ rw p (λ j h k. absurd (omega arith), inl (nonzero count p))
]
exhausted_from-IsAnswer (suc n) i hi count stock e =
    elim (Bool-cases (eqb_ℤ (stock (pos i)) (negsuc 0))) [
      | inl p ↦
          let q = (eq-ℤ _ _).0 p in
          rw (p, exhausted_from)
            (IsAnswer-map (exhausted_from n (i + 1) count stock)
              (λ (a, s). (IsSpent-all stock i hi (inl q) a, IsLimited-later stock count i hi s))
              (λ (a, s). (λ j h k. a j (omega arith) k, IsLimited-earlier stock count i hi q s))
              (exhausted_from-IsAnswer n (i + 1) hi count stock (omega arith)))
      | inr p ↦ elim (Bool-cases (leb_ℤ (stock (pos i)) (pos 0))) [
        | inl r ↦
            rw (p, exhausted_from)
              (rw r (
                IsAnswer-map (exhausted_from n (i + 1) (count + 1) stock)
                  (λ (a, s). (
                    IsSpent-all stock i hi (inr ((le-ℤ (stock (pos i)) (pos 0)).0 r)) a,
                    inr (i, omega arith, omega arith, ne-ℤ _ _ p),
                  ))
                  (λ (a, s). (λ j h k. a j (omega arith) k, inl (omega arith)))
                  (exhausted_from-IsAnswer n (i + 1) hi (count + 1) stock (omega arith))))
        | inr r ↦
            rw (p, exhausted_from)
              (rw r (λ (a, s). not-IsSpent (stock (pos i)) p r (a i (omega arith) (omega arith))))
      ]
    ]

answer_iff : (b : Bool) (P : Type 0) → IsAnswer b P → (b ≡ true) ↔ P
answer_iff true P p = (λ e. p, λ q. refl)
answer_iff false P n = (λ e. absurd (cc e), λ q. absurd (n q))

pub IsExhausted-iff :
    (total : ℕ) (stock : ℤ → ℤ)
    → (ingredient_exhausted total stock ≡ true) ↔ IsExhausted stock 0 0 total
unfolding ingredient_exhausted
IsExhausted-iff total stock =
    answer_iff _ _ (exhausted_from-IsAnswer total 0 total 0 stock (omega arith))

-- No order from `i` up to `hi` is taken and not finished.
abbrev pub IsNonePrepared : (ℕ → Order) → ℕ → ℕ → Type 0
IsNonePrepared orders i hi =
    (j : ℕ) → i ≤ j → j < hi → (orders j).order_taken_status ≡ true → (orders j).orderstatus ≡ true

prepared_now : (a b : Bool) → (a && not b) ≡ true → (a ≡ true) × (b ≡ false)
prepared_now a b e = ground arith

not_prepared : (a b : Bool) → (a && not b) ≡ false → a ≡ true → b ≡ true
not_prepared a b e h = ground arith

none_prepared_from-IsAnswer :
    (n i hi : ℕ) (orders : ℕ → Order)
    → i + n ≡ hi
    → IsAnswer (none_prepared_from n i orders) (IsNonePrepared orders i hi)
unfolding none_prepared_from
none_prepared_from-IsAnswer zero i hi orders e = λ j h k. absurd (omega arith)
none_prepared_from-IsAnswer (suc n) i hi orders e =
    elim (Bool-cases ((orders i).order_taken_status && not (orders i).orderstatus)) [
      | inl p ↦
          let (a, b) = prepared_now _ _ p in
          rw (p, none_prepared_from) (λ h. absurd (cc (b, h i (omega arith) (omega arith) a)))
      | inr p ↦
          rw (p, none_prepared_from)
            (IsAnswer-map (none_prepared_from n (i + 1) orders)
              (λ h j a b. elim (ℕ_discrete i j) [
                | yes q ↦
                    subst
                      (λ k. (orders k).order_taken_status ≡ true → (orders k).orderstatus ≡ true) q
                      (not_prepared _ _ p)
                | no q ↦ h j (omega arith) b
              ])
              (λ h j a b. h j (omega arith) b)
              (none_prepared_from-IsAnswer n (i + 1) hi orders (omega arith)))
    ]

pub IsNonePrepared-iff :
    (n : ℕ) (orders : ℕ → Order)
    → (any_order_being_prepared n orders ≡ true) ↔ IsNonePrepared orders 0 n
unfolding any_order_being_prepared
IsNonePrepared-iff n orders =
    answer_iff _ _ (none_prepared_from-IsAnswer n 0 n orders (omega arith))
