-- ===== src/Strings/Compare.antt =====
-- kernel/string.c: strncmp tells two strings apart within their first bytes.
use cow_pbs_cofee_cafe_icecr.Base.{
  ℕ, zero, suc, ◌+◌, ◌-◌, ◌<◌, ◌≡◌, ◌≢◌, ◌↔◌, refl, arith, true, false, ◌&&◌, ◌==◌, not, if_keeps,
  ℕ_discrete, pos, ◌-ℤ◌, ◌∙◌, ap,
}
use cow_pbs_cofee_cafe_icecr.Strings.{strncmp}

-- The first `n` bytes of the strings at `p` and `q` agree, up to a byte 0 in both.
pub IsSame : ℕ → ℕ → ℕ → (ℕ → ℕ) → Type 0
IsSame p q n mem = (i : ℕ) → i < n → ((j : ℕ) → j < i → mem (p + j) ≢ 0) → mem (p + i) ≡ mem (q + i)

diff_iff : (a b : ℕ) → (pos a -ℤ pos b ≡ pos 0) ↔ (a ≡ b)
unfolding ◌-ℤ◌
diff_iff a b = ((λ e. ground arith), (λ e. ground arith))

goes_on : (a b : ℕ) → (not (a == 0) && a == b) ≡ true → (a ≢ 0) × (a ≡ b)
goes_on a b e = ground arith

ends : (a b : ℕ) → (not (a == 0) && a == b) ≡ false → a ≡ b → a ≡ 0
ends a b e h = ground arith

IsSame-first : (p q n : ℕ) (mem : ℕ → ℕ) → IsSame p q (suc n) mem → mem p ≡ mem q
unfolding IsSame
IsSame-first p q n mem h =
    ap mem (omega arith) ∙ h 0 (omega arith) (λ j k. absurd (omega arith)) ∙ ap mem (omega arith)

IsSame-rest :
    (p q n : ℕ) (mem : ℕ → ℕ) → mem p ≢ 0 → IsSame p q (suc n) mem → IsSame (p + 1) (q + 1) n mem
unfolding IsSame
IsSame-rest p q n mem h₀ h i k f =
    ap mem (omega arith)
    ∙ h (i + 1) (omega arith) (λ j m. elim (ℕ_discrete j 0) [
      | yes e ↦ λ z. h₀ (ap mem (omega arith) ∙ z)
      | no e ↦ λ z. f (j - 1) (omega arith) (ap mem (omega arith) ∙ z)
    ])
    ∙ ap mem (omega arith)

IsSame-grown :
    (p q n : ℕ) (mem : ℕ → ℕ)
    → mem p ≢ 0
    → mem p ≡ mem q
    → IsSame (p + 1) (q + 1) n mem
    → IsSame p q (suc n) mem
unfolding IsSame
IsSame-grown p q n mem h₀ e h i k f = elim (ℕ_discrete i 0) [
  | yes z ↦ ap mem (omega arith) ∙ e ∙ ap mem (omega arith)
  | no z ↦
      ap mem (omega arith)
      ∙ h (i - 1) (omega arith) (λ j m w. f (j + 1) (omega arith) (ap mem (omega arith) ∙ w))
      ∙ ap mem (omega arith)
]

IsSame-end : (p q n : ℕ) (mem : ℕ → ℕ) → mem p ≡ mem q → mem p ≡ 0 → IsSame p q (suc n) mem
unfolding IsSame
IsSame-end p q n mem e h₀ i k f = elim (ℕ_discrete i 0) [
  | yes z ↦ ap mem (omega arith) ∙ e ∙ ap mem (omega arith)
  | no z ↦ absurd (f 0 (omega arith) (ap mem (omega arith) ∙ h₀))
]

-- strncmp returns 0 exactly if the strings agree on their first `n` bytes, up to a byte 0 in both.
pub strncmp_iff : (p q n : ℕ) (mem : ℕ → ℕ) → (strncmp p q n mem ≡ pos 0) ↔ IsSame p q n mem
unfolding strncmp IsSame
strncmp_iff p q zero mem = ((λ e i k. absurd (omega arith)), (λ h. refl))
strncmp_iff p q (suc n) mem =
    if_keeps (λ r. (r ≡ pos 0) ↔ IsSame p q (suc n) mem) (not (mem p == 0) && mem p == mem q) _ _
      (λ e.
        let g = goes_on (mem p) (mem q) e in
        let r = strncmp_iff (p + 1) (q + 1) n mem in
        ((λ z. IsSame-grown p q n mem g.0 g.1 (r.0 z)), (λ h. r.1 (IsSame-rest p q n mem g.0 h))))
      (λ e.
        let d = diff_iff (mem p) (mem q) in
        (
          (λ z. IsSame-end p q n mem (d.0 z) (ends _ _ e (d.0 z))),
          (λ h. d.1 (IsSame-first p q n mem h)),
        ))
