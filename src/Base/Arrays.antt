-- ===== src/Base/Arrays.antt =====
-- A C array as a function of its index, and the write of one element.
use Prim.Native.Nat.{ℕ}
use mathlib.Core.Path.{◌≡◌, refl, subst}
use mathlib.Core.Logic.{◌≢◌, inl, inr}
use cow_pbs_cofee_cafe_icecr.Base.Tests.{◌==◌, if◌then◌else◌, Bool-cases, ==_iff}

module _ {ℓ} {A : Type ℓ} where
  abbrev pub update : (ℕ → A) → ℕ → A → ℕ → A
  update f i v j = if i == j then v else f j

  pub update_self : (f : ℕ → A) (i : ℕ) (v : A) → update f i v i ≡ v
  update_self f i v = rw ((==_iff i i).1 refl)

  pub update_other : (f : ℕ → A) (i : ℕ) (v : A) (j : ℕ) → i ≢ j → update f i v j ≡ f j
  update_other f i v j h = elim (Bool-cases (i == j)) [
    | inl e ↦ absurd (h ((==_iff i j).0 e))
    | inr e ↦ rw e
  ]

-- What holds of each element, and of the one written, holds after the write.
pub update-keeps {ℓ κ} :
    {A : Type ℓ} (P : ℕ → A → Type κ) (f : ℕ → A) (i : ℕ) (v : A)
    → ((j : ℕ) → P j (f j))
    → P i v
    → (j : ℕ) → P j (update f i v j)
update-keeps P f i v h hv j = elim (Bool-cases (i == j)) [
  | inl e ↦ rw e (subst (λ k. P k v) ((==_iff i j).0 e) hv)
  | inr e ↦ rw e (h j)
]
