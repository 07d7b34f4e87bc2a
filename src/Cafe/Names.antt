-- ===== src/Cafe/Names.antt =====
-- concurrency/1.c: `give_index`, the position of a name in a list of names.
use cow_pbs_cofee_cafe_icecr.Base.{
  ℕ, zero, suc, ◌+◌, ◌<◌, ◌≤◌, ◌≡◌, ◌≢◌, ◌↔◌, inl, inr, refl, arith, Bool, true, false, ◌&&◌, ◌==◌,
  [], ◌∷◌, ℤ, pos, negsuc, Bool-cases, ℕ_discrete,
}
use cow_pbs_cofee_cafe_icecr.Cafe.Defs.{Name}

-- `strcmp(a, b) == 0`
unfoldable pub name_eq : Name → Name → Bool
name_eq [] [] = true
name_eq (a ∷ as₁) (b ∷ bs) = a == b && name_eq as₁ bs
name_eq _ _ = false

-- The loop, for the `n` places from `i` on.
unfoldable pub index_from : ℕ → ℕ → (ℕ → Name) → Name → ℤ
index_from zero i array string = negsuc 0
index_from (suc n) i array string = elim (name_eq (array i) string) [
  | true ↦ pos i
  | false ↦ index_from n (i + 1) array string
]

unfoldable pub give_index : (ℕ → Name) → ℕ → Name → ℤ
give_index array size string = index_from size 0 array string

name_eq_iff : (a b : Name) → (name_eq a b ≡ true) ↔ (a ≡ b)
unfolding name_eq
name_eq_iff [] [] = ground arith
name_eq_iff [] (b ∷ bs) = ground arith
name_eq_iff (a ∷ as₁) [] = ground arith
name_eq_iff (a ∷ as₁) (b ∷ bs) = ground (arith, name_eq_iff as₁ bs)

-- The result is -1 and the name stands nowhere in the range, or it is the first place of the name.
abbrev pub IsIndex : ℕ → ℕ → (ℕ → Name) → Name → ℤ → Type 0
IsIndex i hi array string (pos k) =
    (i ≤ k) × (k < hi) × (array k ≡ string) × ((j : ℕ) → i ≤ j → j < k → array j ≢ string)
IsIndex i hi array string (negsuc m) = (m ≡ 0) × ((j : ℕ) → i ≤ j → j < hi → array j ≢ string)

IsIndex-later :
    (i hi : ℕ) (array : ℕ → Name) (string : Name) (r : ℤ)
    → array i ≢ string
    → IsIndex (i + 1) hi array string r
    → IsIndex i hi array string r
IsIndex-later i hi array string (pos k) e (a, b, c, d) = (
  omega (arith, a),
  b,
  c,
  λ j h l. elim (ℕ_discrete i j) [ yes q ↦ rw (← q) e | no q ↦ d j (omega arith) l ],
)
IsIndex-later i hi array string (negsuc m) e (a, b) =
    (a, λ j h l. elim (ℕ_discrete i j) [ yes q ↦ rw (← q) e | no q ↦ b j (omega arith) l ])

name_eq-≢ : (a b : Name) → name_eq a b ≡ false → a ≢ b
name_eq-≢ a b e q = cc ((name_eq_iff a b).1 q, e)

index_from-IsIndex :
    (n i hi : ℕ) (array : ℕ → Name) (string : Name)
    → i + n ≡ hi
    → IsIndex i hi array string (index_from n i array string)
unfolding index_from
index_from-IsIndex zero i hi array string e = (refl, λ j h l. absurd (omega arith))
index_from-IsIndex (suc n) i hi array string e = elim (Bool-cases (name_eq (array i) string)) [
  | inl p ↦
      rw (p, index_from)
        (omega arith, omega arith, (name_eq_iff _ _).0 p, λ j h l. absurd (omega arith))
  | inr p ↦
      rw (p, index_from)
        (IsIndex-later i hi array string _ (name_eq-≢ _ _ p)
          (index_from-IsIndex n (i + 1) hi array string (omega arith)))
]

-- give_index gives the first place of the name among the first `size` places of the array, and -1
-- exactly if the name stands at none of them.
pub give_index-IsIndex :
    (array : ℕ → Name) (size : ℕ) (string : Name)
    → IsIndex 0 size array string (give_index array size string)
unfolding give_index
give_index-IsIndex array size string = index_from-IsIndex size 0 size array string (omega arith)
