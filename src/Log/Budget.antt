-- ===== src/Log/Budget.antt =====
-- Numbers of blocks that the running operations of kernel/log.c may still write.
use cow_pbs_cofee_cafe_icecr.Base.{ℕ, ◌+◌, ◌*◌, ◌≤◌, ◌≡◌, refl, ap, arith, List, [], ◌∷◌, ◌++◌}
use cow_pbs_cofee_cafe_icecr.Log.{maxopblocks}

-- What the running operations may still write, one number for each.
unfoldable pub count : List ℕ → ℕ
count [] = 0
count (r ∷ rs) = count rs + 1

unfoldable pub total : List ℕ → ℕ
total [] = 0
total (r ∷ rs) = r + total rs

unfoldable pub IsSmall : List ℕ → Type 0
IsSmall [] = Unit
IsSmall (r ∷ rs) = (r ≤ maxopblocks) × IsSmall rs

pub count_split : (us : List ℕ) (r : ℕ) (vs : List ℕ) → count (us ++ r ∷ vs) ≡ count (us ++ vs) + 1
unfolding count
count_split [] r vs = refl
count_split (u ∷ us) r vs = ap (λ (k : ℕ). k + 1) (count_split us r vs)

pub total_split : (us : List ℕ) (r : ℕ) (vs : List ℕ) → total (us ++ r ∷ vs) ≡ r + total (us ++ vs)
unfolding total
total_split [] r vs = refl
total_split (u ∷ us) r vs = let e = total_split us r vs in omega arith

pub IsSmall-split :
    (us : List ℕ) (r : ℕ) (vs : List ℕ)
    → IsSmall (us ++ r ∷ vs)
    → (r ≤ maxopblocks) × IsSmall (us ++ vs)
unfolding IsSmall
IsSmall-split [] r vs h = h
IsSmall-split (u ∷ us) r vs (a, h) = let (b, k) = IsSmall-split us r vs h in (b, (a, k))

pub IsSmall-join :
    (us : List ℕ) (r : ℕ) (vs : List ℕ)
    → r ≤ maxopblocks
    → IsSmall (us ++ vs)
    → IsSmall (us ++ r ∷ vs)
unfolding IsSmall
IsSmall-join [] r vs h k = (h, k)
IsSmall-join (u ∷ us) r vs h (a, k) = (a, IsSmall-join us r vs h k)

pub total_small : (rs : List ℕ) → IsSmall rs → total rs ≤ count rs * maxopblocks
unfolding IsSmall total count
total_small [] h = omega arith
total_small (r ∷ rs) (a, h) = let k = total_small rs h in omega arith
