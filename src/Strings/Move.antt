-- ===== src/Strings/Move.antt =====
-- kernel/string.c: memmove copies, also where the two ranges overlap.
use cow_pbs_cofee_cafe_icecr.Base.{
  ℕ, zero, suc, ◌+◌, ◌-◌, ◌<◌, ◌≤◌, ◌≡◌, ◌≢◌, ◌⊎◌, inl, inr, refl, arith, true, false, ◌&&◌, ◌==◌,
  ==_iff, ltb, if_keeps, ℕ_discrete, update, update_self, update_other, ◌∙◌, ap, sym,
}
use cow_pbs_cofee_cafe_icecr.Strings.{move_down, move_up, memmove}

-- The `n` bytes at `dst` are those that were at `src`, and no other byte has changed.
pub record IsCopied (dst src n : ℕ) (mem mem' : ℕ → ℕ) : Type 0 where
  pub copied : (i : ℕ) → i < n → mem' (dst + i) ≡ mem (src + i)
  pub kept : (a : ℕ) → (a < dst) ⊎ (dst + n ≤ a) → mem' a ≡ mem a

shorter : (d n : ℕ) {a : ℕ} → (a < d) ⊎ (d + suc n ≤ a) → (a < d) ⊎ (d + n ≤ a)
shorter d n (inl h) = inl h
shorter d n (inr h) = inr (omega arith)

apart_last : (d n : ℕ) {a : ℕ} → (a < d) ⊎ (d + suc n ≤ a) → d + n ≢ a
apart_last d n (inl h) = omega arith
apart_last d n (inr h) = omega arith

next_apart : (d s n : ℕ) → (d ≤ s) ⊎ (s + suc n ≤ d) → (d + 1 ≤ s + 1) ⊎ (s + 1 + n ≤ d + 1)
next_apart d s n (inl h) = inl (omega arith)
next_apart d s n (inr h) = inr (omega arith)

next_range : (d n : ℕ) {a : ℕ} → (a < d) ⊎ (d + suc n ≤ a) → (a < d + 1) ⊎ (d + 1 + n ≤ a)
next_range d n (inl h) = inl (omega arith)
next_range d n (inr h) = inr (omega arith)

apart_first : (d n : ℕ) {a : ℕ} → (a < d) ⊎ (d + suc n ≤ a) → d ≢ a
apart_first d n (inl h) = omega arith
apart_first d n (inr h) = omega arith

-- The bytes behind the first of the source are not the first of the destination.
apart_source : (d s n i : ℕ) → (d ≤ s) ⊎ (s + suc n ≤ d) → i < n → d ≢ s + 1 + i
apart_source d s n i (inl h) k = omega arith
apart_source d s n i (inr h) k = omega arith

move_down-IsCopied : (d s n : ℕ) (mem : ℕ → ℕ) → s ≤ d → IsCopied d s n mem (move_down d s n mem)
unfolding move_down
move_down-IsCopied d s zero mem h = record {
  copied = λ i k. absurd (omega arith);
  kept = λ a k. refl;
}
move_down-IsCopied d s (suc n) mem h =
    let mem₁ = update mem (d + n) (mem (s + n)) in
    let r = move_down-IsCopied d s n mem₁ h in
    record {
      copied = λ i k. elim (ℕ_discrete i n) [
        | yes q ↦
            r.kept (d + i) (inr (omega arith))
            ∙ ap (λ x. mem₁ (d + x)) q
            ∙ update_self mem (d + n) (mem (s + n))
            ∙ ap (λ x. mem (s + x)) (sym q)
        | no q ↦
            r.copied i (omega arith) ∙ update_other mem (d + n) (mem (s + n)) (s + i) (omega arith)
      ];
      kept = λ a k.
          r.kept a (shorter d n k) ∙ update_other mem (d + n) (mem (s + n)) a (apart_last d n k);
    }

move_up-IsCopied :
    (d s n : ℕ) (mem : ℕ → ℕ) → (d ≤ s) ⊎ (s + n ≤ d) → IsCopied d s n mem (move_up d s n mem)
unfolding move_up
move_up-IsCopied d s zero mem h = record {
  copied = λ i k. absurd (omega arith);
  kept = λ a k. refl;
}
move_up-IsCopied d s (suc n) mem h =
    let mem₁ = update mem d (mem s) in
    let r = move_up-IsCopied (d + 1) (s + 1) n mem₁ (next_apart d s n h) in
    record {
      copied = λ i k. elim (ℕ_discrete i 0) [
        | yes q ↦
            ap (λ x. move_up (d + 1) (s + 1) n mem₁ (d + x)) q
            ∙ r.kept (d + 0) (inl (omega arith))
            ∙ ap mem₁ (omega arith)
            ∙ update_self mem d (mem s)
            ∙ ap mem (omega arith)
        | no q ↦
            ap (λ x. move_up (d + 1) (s + 1) n mem₁ x) {x = d + i} {y = d + 1 + (i - 1)}
              (omega arith)
            ∙ r.copied (i - 1) (omega arith)
            ∙ update_other mem d (mem s) (s + 1 + (i - 1))
                (apart_source d s n (i - 1) h (omega arith))
            ∙ ap mem (omega arith)
      ];
      kept = λ a k. r.kept a (next_range d n k) ∙ update_other mem d (mem s) a (apart_first d n k);
    }

-- The test of memmove: the source begins before the destination and reaches into it.
below : (dst src n : ℕ) → (ltb src dst && ltb dst (src + n)) ≡ true → src ≤ dst
below dst src n e = ground arith

not_below :
    (dst src n : ℕ) → (ltb src dst && ltb dst (src + n)) ≡ false → (dst ≤ src) ⊎ (src + n ≤ dst)
not_below dst src n e = ground arith

none-IsCopied : (d s n : ℕ) (mem : ℕ → ℕ) → n ≡ 0 → IsCopied d s n mem mem
none-IsCopied d s n mem h = record { copied = λ i k. absurd (omega arith); kept = λ a k. refl }

-- memmove leaves at `dst` the bytes that were at `src` before the call, also where the two ranges
-- overlap on either side, and changes no other byte.
pub memmove-IsCopied :
    (dst src n : ℕ) (mem : ℕ → ℕ) → IsCopied dst src n mem (memmove dst src n mem)
unfolding memmove
memmove-IsCopied dst src n mem =
    if_keeps (IsCopied dst src n mem) (n == 0) _ _
      (λ e. none-IsCopied dst src n mem ((==_iff n 0).0 e))
      (λ e₁.
        if_keeps (IsCopied dst src n mem) (ltb src dst && ltb dst (src + n)) _ _
          (λ e. move_down-IsCopied dst src n mem (below dst src n e))
          (λ e. move_up-IsCopied dst src n mem (not_below dst src n e)))
