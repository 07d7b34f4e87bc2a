-- ===== src/Parlour/Threads/Stock.antt =====
-- concurrency/2.c: taking the toppings of an order from the stock.
use cow_pbs_cofee_cafe_icecr.Base.{
  ℕ, zero, suc, ◌+◌, ◌≡◌, inl, inr, arith, true, ℤ, pos, negsuc, ◌-ℤ◌, ◌≤ℤ◌, ltb_ℤ, eqb_ℤ,
  if◌then◌else◌, Bool-cases, ap, subst,
}
use cow_pbs_cofee_cafe_icecr.Parlour.Defs.{Menu, Order}
use cow_pbs_cofee_cafe_icecr.Parlour.Checks.{tindex}
use cow_pbs_cofee_cafe_icecr.Parlour.Effects.{IsUsed, IsUsed-refl, IsUsed-trans}
use cow_pbs_cofee_cafe_icecr.Parlour.Threads.{update_ℤ, use_toppings}

eqb_ℤ-true : (a b : ℤ) → eqb_ℤ a b ≡ true → a ≡ b
eqb_ℤ-true (pos a) (pos b) e = ground arith
eqb_ℤ-true (pos a) (negsuc b) e = ground arith
eqb_ℤ-true (negsuc a) (pos b) e = ground arith
eqb_ℤ-true (negsuc a) (negsuc b) e = ground arith

less_one :
    (v : ℤ)
    → ltb_ℤ (pos 0) v ≡ true
    → (v ≡ negsuc 0 → v -ℤ pos 1 ≡ negsuc 0)
      × (pos 0 ≤ℤ v → (pos 0 ≤ℤ v -ℤ pos 1) × (v -ℤ pos 1 ≤ℤ v))
unfolding ◌-ℤ◌
less_one (pos v) h = ground arith
less_one (negsuc v) h = ground arith

-- One topping less, where there is a limit that is not reached.
update-IsUsed :
    (s : ℤ → ℤ) (x : ℤ) → ltb_ℤ (pos 0) (s x) ≡ true → IsUsed s (update_ℤ s x (s x -ℤ pos 1))
update-IsUsed s x h y = elim (Bool-cases (eqb_ℤ x y)) [
  | inl e ↦ rw e (
      subst
        (λ v.
          (v ≡ negsuc 0 → s x -ℤ pos 1 ≡ negsuc 0)
          × (pos 0 ≤ℤ v → (pos 0 ≤ℤ s x -ℤ pos 1) × (s x -ℤ pos 1 ≤ℤ v)))
        (ap s (eqb_ℤ-true x y e)) (less_one (s x) h))
  | inr e ↦ rw e (λ q. q, λ l. (l, omega arith))
]

use_one :
    (s : ℤ → ℤ) (x : ℤ)
    → IsUsed s (
        if eqb_ℤ (s x) (negsuc 0)
        then s
        else if ltb_ℤ (pos 0) (s x)
        then update_ℤ s x (s x -ℤ pos 1)
        else s)
use_one s x = elim (Bool-cases (eqb_ℤ (s x) (negsuc 0))) [
  | inl e ↦ rw e (IsUsed-refl s)
  | inr e ↦ elim (Bool-cases (ltb_ℤ (pos 0) (s x))) [
    | inl h ↦ rw (e, h) (update-IsUsed s x h)
    | inr h ↦ rw (e, h) (IsUsed-refl s)
  ]
]

pub use_toppings-IsUsed :
    (n j : ℕ) (menu : Menu) (order : Order) (s : ℤ → ℤ) → IsUsed s (use_toppings n j menu order s)
unfolding use_toppings
use_toppings-IsUsed zero j menu order s = IsUsed-refl s
use_toppings-IsUsed (suc n) j menu order s =
    IsUsed-trans s _ _ (use_one s (tindex menu order j))
      (use_toppings-IsUsed n (j + 1) menu order _)
