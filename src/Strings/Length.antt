-- ===== src/Strings/Length.antt =====
-- kernel/string.c: strlen stops at the first byte 0; memset fills its range.
use cow_pbs_cofee_cafe_icecr.Base.{
  ℕ, zero, suc, ◌+◌, ◌<◌, ◌≤◌, ◌≡◌, ◌≢◌, arith, false, ◌==◌, ==_iff, some, if_keeps, ℕ_discrete,
  ◌∙◌, ap,
}
use cow_pbs_cofee_cafe_icecr.Strings.{strlen, length_from}

-- The first byte 0 behind `s` stands `n` bytes behind it.
pub record IsLength (s n : ℕ) (mem : ℕ → ℕ) : Type 0 where
  pub ends : mem (s + n) ≡ 0
  pub before : (i : ℕ) → i < n → mem (s + i) ≢ 0

nonzero : (a : ℕ) → (a == 0) ≡ false → a ≢ 0
nonzero a e = ground arith

-- What the loop has passed is not 0, so it ends at the first byte 0, in as many rounds as lie
-- before it.
length_from-IsLength :
    (fuel n s m : ℕ) (mem : ℕ → ℕ)
    → IsLength s m mem
    → n ≤ m
    → m < n + fuel
    → length_from fuel n s mem ≡ some m
unfolding length_from
length_from-IsLength zero n s m mem h k l = absurd (omega arith)
length_from-IsLength (suc fuel) n s m mem h k l =
    if_keeps (λ r. r ≡ some m) (mem (s + n) == 0) _ _
      (λ e. elim (ℕ_discrete n m) [
        | yes q ↦ ap some q
        | no q ↦ absurd (h.before n (omega arith) ((==_iff (mem (s + n)) 0).0 e))
      ])
      (λ e. elim (ℕ_discrete n m) [
        | yes q ↦ absurd (nonzero (mem (s + n)) e (ap (λ x. mem (s + x)) q ∙ h.ends))
        | no q ↦ length_from-IsLength fuel (n + 1) s m mem h (omega arith) (omega arith)
      ])

-- strlen returns the distance to the first byte 0, given a round for each byte up to it.
strlen-IsLength :
    (fuel s n : ℕ) (mem : ℕ → ℕ) → IsLength s n mem → n < fuel → strlen fuel s mem ≡ some n
unfolding strlen
strlen-IsLength fuel s n mem h k = length_from-IsLength fuel 0 s n mem h (omega arith) (omega arith)
