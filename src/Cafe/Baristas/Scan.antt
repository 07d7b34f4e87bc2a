-- ===== src/Cafe/Baristas/Scan.antt =====
-- concurrency/1.c: one run of `free_barista`, whose changes of the flags do not change its result.
use cow_pbs_cofee_cafe_icecr.Base.{
  ℕ, zero, suc, ◌+◌, ◌-◌, ◌≤◌, ◌≡◌, ◌≢◌, inl, inr, refl, arith, Bool, true, false, ==_iff, some,
  Bool-cases, ℕ_discrete, update, update_other, ◌∙◌, ap, sym,
}
use cow_pbs_cofee_cafe_icecr.Cafe.Arrivals.{
  nth_from, nth_from-hit, nth_from-pass, nth_from-miss, ==_false,
}
use cow_pbs_cofee_cafe_icecr.Cafe.Baristas.{is_free, free_from}

pub free_from-hit :
    (n number i : ℕ) (free : ℕ → Bool → Bool) (special : ℕ → Bool)
    → is_free free special i ≡ true
    → number ≡ 1
    → free_from (suc n) number i free special ≡ (some i, update special i false)
unfolding free_from
free_from-hit n number i free special p e = rw (p, free_from) (rw ((==_iff number 1).1 e) refl)

pub free_from-pass :
    (n number i : ℕ) (free : ℕ → Bool → Bool) (special : ℕ → Bool)
    → is_free free special i ≡ true
    → number ≢ 1
    → free_from (suc n) number i free special
      ≡ free_from n (number - 1) (i + 1) free (update special i false)
unfolding free_from
free_from-pass n number i free special p e = rw (p, free_from) (rw (==_false e) refl)

pub free_from-miss :
    (n number i : ℕ) (free : ℕ → Bool → Bool) (special : ℕ → Bool)
    → is_free free special i ≡ false
    → free_from (suc n) number i free special ≡ free_from n number (i + 1) free special
unfolding free_from
free_from-miss n number i free special p = rw (p, free_from) refl

-- Tests that agree from `i` on find the same.
pub nth_from-cong :
    (n number i : ℕ) (f g : ℕ → Bool)
    → ((j : ℕ) → i ≤ j → f j ≡ g j)
    → nth_from n number i f ≡ nth_from n number i g
unfolding nth_from
nth_from-cong zero number i f g h = refl
nth_from-cong (suc n) number i f g h = elim (Bool-cases (g i)) [
  | inl p ↦ elim (ℕ_discrete number 1) [
    | yes q ↦
        nth_from-hit n number i f (h i (omega arith) ∙ p) q ∙ sym (nth_from-hit n number i g p q)
    | no q ↦
        nth_from-pass n number i f (h i (omega arith) ∙ p) q
        ∙ nth_from-cong n (number - 1) (i + 1) f g (λ j l. h j (omega arith))
        ∙ sym (nth_from-pass n number i g p q)
  ]
  | inr p ↦
      nth_from-miss n number i f (h i (omega arith) ∙ p)
      ∙ nth_from-cong n number (i + 1) f g (λ j l. h j (omega arith))
      ∙ sym (nth_from-miss n number i g p)
]

is_free-update :
    (i j : ℕ) (free : ℕ → Bool → Bool) (special : ℕ → Bool)
    → i ≢ j
    → is_free free (update special i false) j ≡ is_free free special j
is_free-update i j free special n = ap (free j) (update_other special i false j n)

-- The result is that of a search whose flags stay as they were.
pub free_from-nth :
    (n number i : ℕ) (free : ℕ → Bool → Bool) (special : ℕ → Bool)
    → (free_from n number i free special).0 ≡ nth_from n number i (is_free free special)
unfolding free_from nth_from
free_from-nth zero number i free special = refl
free_from-nth (suc n) number i free special = elim (Bool-cases (is_free free special i)) [
  | inl p ↦ elim (ℕ_discrete number 1) [
    | yes q ↦
        ap (λ r. r.0) (free_from-hit n number i free special p q)
        ∙ sym (nth_from-hit n number i (is_free free special) p q)
    | no q ↦
        ap (λ r. r.0) (free_from-pass n number i free special p q)
        ∙ free_from-nth n (number - 1) (i + 1) free (update special i false)
        ∙ nth_from-cong n (number - 1) (i + 1) _ _
            (λ j l. is_free-update i j free special (omega arith))
        ∙ sym (nth_from-pass n number i (is_free free special) p q)
  ]
  | inr p ↦
      ap (λ r. r.0) (free_from-miss n number i free special p)
      ∙ free_from-nth n number (i + 1) free special
      ∙ sym (nth_from-miss n number i (is_free free special) p)
]

-- The first search clears the flag of the barista that it finds, and only that.
pub free_from-first :
    (n i r : ℕ) (free : ℕ → Bool → Bool) (special : ℕ → Bool)
    → (free_from n 1 i free special).0 ≡ some r
    → (free_from n 1 i free special).1 ≡ update special r false
unfolding free_from
free_from-first zero i r free special e = absurd (cc e)
free_from-first (suc n) i r free special e = elim (Bool-cases (is_free free special i)) [
  | inl p ↦
      let h = free_from-hit n 1 i free special p refl in
      let q : i ≡ r = cc (ap (λ x. x.0) h, e) in
      ap (λ x. x.1) h ∙ ap (λ m. update special m false) q
  | inr p ↦
      let h = free_from-miss n 1 i free special p in
      ap (λ x. x.1) h ∙ free_from-first n (i + 1) r free special (sym (ap (λ x. x.0) h) ∙ e)
]
