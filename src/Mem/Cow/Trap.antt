-- ===== src/Mem/Cow/Trap.antt =====
-- All the ways that `write_trap` of kernel/trap.c ends.
use cow_pbs_cofee_cafe_icecr.Base.{
  ℕ, test_bit, ◌%◌, ◌≤◌, ◌<◌, ◌≡◌, ◌≢◌, ◌⊎◌, List, [], ◌∷◌, true, false, Outcome, panic, ret, ℤ,
  pos, negsuc,
}
use cow_pbs_cofee_cafe_icecr.Mem.Pages.{Mem, phystop, pg_round_down}
use cow_pbs_cofee_cafe_icecr.Mem.Pte.{cw_bit, pte2pa, maxva}
use cow_pbs_cofee_cafe_icecr.Mem.Pte.Flags.{IsUnshared}
use cow_pbs_cofee_cafe_icecr.Mem.Walk.Path.{IsPath, IsAbsent}

-- The entry `i` for the address is there.
abbrev pub Entry : ℕ → ℕ → ℕ → Mem → Type 0
Entry add pg i m = (0 < add) × (add < maxva) × IsPath pg (pg_round_down add) i m

-- The ways that a write fault ends, with the free pages `free`.
pub data IsTrapped (kend add pg : ℕ) (m : Mem) (free : List ℕ) : Outcome (ℤ × Mem) → Type 0 where
  outside : (add ≡ 0) ⊎ (maxva ≤ add) → IsTrapped kend add pg m free (ret (negsuc 0, m))
  absent :
      0 < add
      → add < maxva
      → IsAbsent pg (pg_round_down add) m
      → IsTrapped kend add pg m free (ret (negsuc 0, m))
  not_shared :
      (i : ℕ)
      → Entry add pg i m
      → test_bit (m.word i) cw_bit ≡ false
      → IsTrapped kend add pg m free (ret (pos 0, m))
  no_page :
      (i : ℕ)
      → Entry add pg i m
      → test_bit (m.word i) cw_bit ≡ true
      → free ≡ []
      → IsTrapped kend add pg m free (ret (negsuc 0, m))
  bad_address :
      (i x : ℕ) (xs : List ℕ)
      → Entry add pg i m
      → test_bit (m.word i) cw_bit ≡ true
      → free ≡ x ∷ xs
      → (pte2pa (m.word i) % 4096 ≢ 0) ⊎ (pte2pa (m.word i) < kend) ⊎ (phystop ≤ pte2pa (m.word i))
      → IsTrapped kend add pg m free panic
  copied :
      (i x : ℕ) (xs : List ℕ) (u : Mem)
      → Entry add pg i m
      → test_bit (m.word i) cw_bit ≡ true
      → free ≡ x ∷ xs
      → IsUnshared x (m.word i) (u.word i)
      → IsTrapped kend add pg m free (ret (pos 0, u))
