-- ===== src/Cafe/Baristas/Order.antt =====
-- concurrency/1.c: the searches of one second go forwards, so that the loop of `main` over the free
-- baristas ends.
use cow_pbs_cofee_cafe_icecr.Base.{
  ℕ, zero, suc, ◌+◌, ◌-◌, ◌<◌, ◌≤◌, ◌≡◌, inl, inr, refl, arith, Bool, true, false, Option, none,
  some, Bool-cases, ℕ_discrete, update, update_self, update_other, ◌∙◌, ap, sym,
}
use cow_pbs_cofee_cafe_icecr.Cafe.Arrivals.{nth_from, nth_from-hit, nth_from-pass, nth_from-miss}
use cow_pbs_cofee_cafe_icecr.Cafe.Baristas.{is_free, free_from, link_baristas}
use cow_pbs_cofee_cafe_icecr.Cafe.Baristas.Scan.{
  free_from-nth, free_from-hit, free_from-pass, free_from-miss,
}

-- A search finds a place in its range.
nth_from_range :
    (n number i k : ℕ) (test : ℕ → Bool) → nth_from n number i test ≡ some k → (i ≤ k) × (k < i + n)
unfolding nth_from
nth_from_range zero number i k test e = absurd (cc e)
nth_from_range (suc n) number i k test e = elim (Bool-cases (test i)) [
  | inl p ↦ elim (ℕ_discrete number 1) [
    | yes q ↦ let r : i ≡ k = cc (nth_from-hit n number i test p q, e) in (omega arith, omega arith)
    | no q ↦
        let r =
          nth_from_range n (number - 1) (i + 1) k test
            (sym (nth_from-pass n number i test p q) ∙ e) in
        (omega (arith, r.0), omega (arith, r.1))
  ]
  | inr p ↦
      let r = nth_from_range n number (i + 1) k test (sym (nth_from-miss n number i test p) ∙ e) in
      (omega (arith, r.0), omega (arith, r.1))
]

-- A search that wants more places, by a test that passes no more of them, comes further.
nth_from-further :
    (n a b i r k : ℕ) (f g : ℕ → Bool)
    → 1 ≤ a
    → a < b
    → ((j : ℕ) → g j ≡ true → f j ≡ true)
    → nth_from n a i f ≡ some r
    → nth_from n b i g ≡ some k
    → r < k
unfolding nth_from
nth_from-further zero a b i r k f g h l s e d = absurd (cc e)
nth_from-further (suc n) a b i r k f g h l s e d = elim (Bool-cases (g i)) [
  | inl p ↦
      let d' = sym (nth_from-pass n b i g p (omega arith)) ∙ d in
      elim (ℕ_discrete a 1) [
        | yes q ↦
            let t : i ≡ r = cc (nth_from-hit n a i f (s i p) q, e) in
            omega (arith, (nth_from_range n (b - 1) (i + 1) k g d').0)
        | no q ↦
            nth_from-further n (a - 1) (b - 1) (i + 1) r k f g (omega arith) (omega arith) s
              (sym (nth_from-pass n a i f (s i p) q) ∙ e) d'
      ]
  | inr p ↦
      let d' = sym (nth_from-miss n b i g p) ∙ d in
      elim (Bool-cases (f i)) [
        | inl t ↦ elim (ℕ_discrete a 1) [
          | yes q ↦
              let u : i ≡ r = cc (nth_from-hit n a i f t q, e) in
              omega (arith, (nth_from_range n b (i + 1) k g d').0)
          | no q ↦
              nth_from-further n (a - 1) b (i + 1) r k f g (omega arith) (omega arith) s
                (sym (nth_from-pass n a i f t q) ∙ e) d'
        ]
        | inr t ↦
            nth_from-further n a b (i + 1) r k f g h l s (sym (nth_from-miss n a i f t) ∙ e) d'
      ]
]

update_clears : (i j : ℕ) (special : ℕ → Bool) → update special i false j ≡ true → special j ≡ true
update_clears i j special e = elim (ℕ_discrete i j) [
  | yes q ↦ absurd (cc (ap (update special i false) q, update_self special i false, e))
  | no q ↦ sym (update_other special i false j q) ∙ e
]

-- A search sets no flag.
free_from-clears :
    (n number i : ℕ) (free : ℕ → Bool → Bool) (special : ℕ → Bool) (j : ℕ)
    → (free_from n number i free special).1 j ≡ true
    → special j ≡ true
unfolding free_from
free_from-clears zero number i free special j e = e
free_from-clears (suc n) number i free special j e = elim (Bool-cases (is_free free special i)) [
  | inl p ↦ elim (ℕ_discrete number 1) [
    | yes q ↦
        update_clears i j special
          (sym (ap (λ r. r.1 j) (free_from-hit n number i free special p q)) ∙ e)
    | no q ↦ update_clears i j special (
        free_from-clears n (number - 1) (i + 1) free (update special i false) j
          (sym (ap (λ r. r.1 j) (free_from-pass n number i free special p q)) ∙ e))
  ]
  | inr p ↦
      free_from-clears n number (i + 1) free special j
        (sym (ap (λ r. r.1 j) (free_from-miss n number i free special p)) ∙ e)
]

abbrev pub IsMonotone : (ℕ → Bool → Bool) → Type 0
IsMonotone free = (i : ℕ) → free i false ≡ true → free i true ≡ true

mono_at :
    (f : Bool → Bool) (x y : Bool)
    → (f false ≡ true → f true ≡ true)
    → (x ≡ true → y ≡ true)
    → f x ≡ true
    → f y ≡ true
mono_at f true true m h e = e
mono_at f true false m h e = absurd (cc (h refl))
mono_at f false true m h e = m e
mono_at f false false m h e = e

-- Any condition that a flag can only make true, for `b` places.
module _ (free : ℕ → Bool → Bool) (mono : IsMonotone free) (b : ℕ) where
  abbrev search : ℕ → (ℕ → Bool) → Option ℕ × (ℕ → Bool)
  search number special = free_from b number 0 free special

  search_range : (m : ℕ) (s : ℕ → Bool) (i : ℕ) → (search m s).0 ≡ some i → i < b
  search_range m s i e =
      omega (arith, (nth_from_range b m 0 i _ (sym (free_from-nth b m 0 free s) ∙ e)).1)

  search_further :
      (m : ℕ) (s : ℕ → Bool) (i k : ℕ)
      → 1 ≤ m
      → (search m s).0 ≡ some i
      → (search (m + 1) (search m s).1).0 ≡ some k
      → i < k
  search_further m s i k h e d =
      nth_from-further b m (m + 1) 0 i k _ _ h (omega arith)
        (λ j. mono_at (free j) _ _ (mono j) (free_from-clears b m 0 free s j))
        (sym (free_from-nth b m 0 free s) ∙ e)
        (sym (free_from-nth b (m + 1) 0 free (search m s).1) ∙ d)

  -- The loop ends, if it may make a round for each barista from the one found on.
  pub link_baristas-ends :
      (fuel m : ℕ) (s : ℕ → Bool) (o : Option ℕ)
      → 1 ≤ m
      → (search m s).0 ≡ o
      → ((i : ℕ) → o ≡ some i → b ≤ i + fuel)
      → (wake : ℕ → Option ℕ)
      → (r : (ℕ → Bool) × (ℕ → Option ℕ)) × (link_baristas fuel search (m + 1) o (search m s).1 wake
          ≡ some r)
  unfolding link_baristas
  link_baristas-ends zero m s none a e h wake = (_, refl)
  link_baristas-ends (suc fuel) m s none a e h wake = (_, refl)
  link_baristas-ends zero m s (some i) a e h wake =
      let q = search_range m s i e in absurd (omega (arith, h i refl))
  link_baristas-ends (suc fuel) m s (some i) a e h wake =
      let s' = (search m s).1 in
      link_baristas-ends fuel (m + 1) s' (search (m + 1) s').0 (omega arith) refl
        (λ k q. omega (arith, h i refl, search_further m s i k a e q))
        (update wake i (search (m + 1) s').0)
