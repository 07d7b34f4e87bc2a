-- ===== src/Cafe/Baristas/Skip.antt =====
-- concurrency/1.c: `free_barista` called again, after its first call has cleared a flag.
use cow_pbs_cofee_cafe_icecr.Base.{
  ℕ, zero, suc, ◌+◌, ◌-◌, ◌<◌, ◌≤◌, ◌≡◌, ◌≢◌, ◌⊎◌, inl, inr, arith, Bool, true, false, ◌||◌, some,
  ℤ, Bool-cases, ℕ_discrete, update, update_self, update_other, ◌∙◌, ap, sym, subst,
}
use cow_pbs_cofee_cafe_icecr.Cafe.Arrivals.{
  nth_from, nth_from-miss, nth_from-suc, IsFirst, nth_from-IsFirst, first_from, after,
}
use cow_pbs_cofee_cafe_icecr.Cafe.Baristas.{
  is_idle, idle_or_special, is_free, free_barista, free_from,
}
use cow_pbs_cofee_cafe_icecr.Cafe.Baristas.Scan.{nth_from-cong, free_from-nth, free_from-first}

-- Places that do not pass may be left out at the start.
nth_from-drop :
    (n number i m hi : ℕ) (test : ℕ → Bool)
    → i + n ≡ hi
    → i ≤ m
    → m ≤ hi
    → ((j : ℕ) → i ≤ j → j < m → test j ≡ false)
    → nth_from n number i test ≡ nth_from (hi - m) number m test
nth_from-drop zero number i m hi test e a b h =
    let q : 0 ≡ hi - m = omega arith in
    ap (λ x. nth_from x number i test) q ∙ ap (λ x. nth_from (hi - m) number x test) (omega arith)
nth_from-drop (suc n) number i m hi test e a b h = elim (ℕ_discrete i m) [
  | yes q ↦
      ap (λ x. nth_from x number i test) (omega arith) ∙ ap (λ x. nth_from (hi - m) number x test) q
  | no q ↦
      nth_from-miss n number i test (h i (omega arith) (omega arith))
      ∙ nth_from-drop n number (i + 1) m hi test (omega arith) (omega arith) b
          (λ j x y. h j (omega arith) y)
]

abbrev idle_or : (ℕ → Bool) → ℕ → Bool → Bool
idle_or idle i special = idle i || special

or_false : (b : Bool) → (b || false) ≡ b
or_false b = ground arith

or_same : (a x y : Bool) → a ≡ true → (a || x) ≡ (a || y)
or_same a x y e = ground arith

-- Without its flag, barista `r` is free only if it is idle.
cleared :
    (idle special : ℕ → Bool) (r : ℕ) → is_free (idle_or idle) (update special r false) r ≡ idle r
cleared idle special r = ap (λ b. idle r || b) (update_self special r false) ∙ or_false (idle r)

kept :
    (idle special : ℕ → Bool) (r j : ℕ)
    → r ≢ j
    → is_free (idle_or idle) (update special r false) j ≡ is_free (idle_or idle) special j
kept idle special r j n = ap (λ b. idle j || b) (update_other special r false j n)

after_idle :
    (b r : ℕ) (idle special : ℕ → Bool)
    → nth_from b 1 0 (is_free (idle_or idle) special) ≡ some r
    → idle r ≡ true
    → nth_from b 2 0 (is_free (idle_or idle) (update special r false))
      ≡ first_from b (r + 1) (is_free (idle_or idle) special)
after_idle b r idle special e h =
    nth_from-cong b 2 0 _ _ (λ j l. elim (ℕ_discrete r j) [
      | yes q ↦ or_same (idle j) _ _ (ap idle (sym q) ∙ h)
      | no q ↦ kept idle special r j q
    ])
    ∙ nth_from-suc b 1 0 b (is_free (idle_or idle) special) (omega arith) (omega arith)
    ∙ ap (after b (is_free (idle_or idle) special)) e

after_busy :
    (b r : ℕ) (idle special : ℕ → Bool)
    → nth_from b 1 0 (is_free (idle_or idle) special) ≡ some r
    → idle r ≡ false
    → nth_from b 2 0 (is_free (idle_or idle) (update special r false))
      ≡ nth_from (b - (r + 1)) 2 (r + 1) (is_free (idle_or idle) special)
after_busy b r idle special e h =
    let f : IsFirst b 0 (is_free (idle_or idle) special) (some r) =
      subst (IsFirst b 0 (is_free (idle_or idle) special)) e
        (nth_from-IsFirst b 0 b (is_free (idle_or idle) special) (omega arith)) in
    nth_from-drop b 2 0 (r + 1) b _ (omega arith) (omega arith) (omega (arith, f.1)) (λ j x y.
      elim (ℕ_discrete r j) [
        | yes q ↦
            subst (λ k. is_free (idle_or idle) (update special r false) k ≡ false) q
              (cleared idle special r ∙ h)
        | no q ↦ kept idle special r j q ∙ f.3 j x (omega arith)
      ])
    ∙ nth_from-cong (b - (r + 1)) 2 (r + 1) _ _ (λ j l. kept idle special r j (omega arith))

abbrev pub free_now : (ℕ → ℤ) → ℤ → (ℕ → Bool) → ℕ → Bool
free_now finish tmr special = is_free (idle_or_special finish tmr) special

-- Let the first search of a second find barista `r`. If the finish time of `r` is past, the second
-- search finds the first free barista after `r`. If `r` is free by its special flag alone, the
-- second search leaves the first free barista after `r` out, and finds the second one after `r`, if
-- any.
pub free_barista-second :
    (finish : ℕ → ℤ) (tmr : ℤ) (b r : ℕ) (special : ℕ → Bool)
    → (free_barista finish tmr 1 b special).0 ≡ some r
    → ((is_idle finish tmr r ≡ true)
        × ((free_barista finish tmr 2 b (free_barista finish tmr 1 b special).1).0
            ≡ first_from b (r + 1) (free_now finish tmr special)))
      ⊎ ((is_idle finish tmr r ≡ false)
          × ((free_barista finish tmr 2 b (free_barista finish tmr 1 b special).1).0
              ≡ nth_from (b - (r + 1)) 2 (r + 1) (free_now finish tmr special)))
unfolding free_barista
free_barista-second finish tmr b r special e =
    let idle = is_idle finish tmr in
    let e' = sym (free_from-nth b 1 0 (idle_or idle) special) ∙ e in
    let s =
      ap (λ x. (free_from b 2 0 (idle_or idle) x).0)
        (free_from-first b 0 r (idle_or idle) special e)
      ∙ free_from-nth b 2 0 (idle_or idle) (update special r false) in
    elim (Bool-cases (idle r)) [
      | inl h ↦ inl (h, s ∙ after_idle b r idle special e' h)
      | inr h ↦ inr (h, s ∙ after_busy b r idle special e' h)
    ]
