-- ===== src/Parlour/Main/Closing.antt =====
-- concurrency/2.c: when the loop of `main` goes on.
use cow_pbs_cofee_cafe_icecr.Base.{
  ℕ, ◌≡◌, ◌↔◌, inl, inr, refl, Bool, true, false, ◌&&◌, not, ◌≤ℤ◌, Bool-cases,
}
use cow_pbs_cofee_cafe_icecr.Parlour.Defs.{Menu, Parlour}
use cow_pbs_cofee_cafe_icecr.Parlour.Checks.{
  leb_ℤ, any_order_being_prepared, ingredient_exhausted, ingredient_exhausted_checker,
}
use cow_pbs_cofee_cafe_icecr.Parlour.Checks.Laws.{
  IsExhausted, IsExhausted-iff, IsNonePrepared, IsNonePrepared-iff, le-ℤ,
}
use cow_pbs_cofee_cafe_icecr.Parlour.Main.{last_second, goes_on}

loop_iff :
    (v a x y : Bool) {A X Y : Type 0}
    → v ≡ (a && not (x && y))
    → (a ≡ true) ↔ A
    → (x ≡ true) ↔ X
    → (y ≡ true) ↔ Y
    → (v ≡ true) ↔ (A × ¬ (X × Y))
loop_iff v false x y e f g h = (λ q. absurd (cc (e, q)), λ (p, n). absurd (cc (f.1 p)))
loop_iff v true true true e f g h =
    (λ q. absurd (cc (e, q)), λ (p, n). absurd (n (g.0 refl, h.0 refl)))
loop_iff v true true false e f g h = (λ q. (f.0 refl, λ (p, r). cc (h.1 r)), λ z. e)
loop_iff v true false y e f g h = (λ q. (f.0 refl, λ (p, r). cc (g.1 p)), λ z. e)

goes_on_value :
    (menu : Menu) (order_cnt : ℕ) (c : Parlour)
    → (goes_on menu order_cnt c).0 ≡ (
        leb_ℤ c.tmr (last_second menu)
        && not (
            ingredient_exhausted menu.t c.topping_stock
            && any_order_being_prepared order_cnt c.order_list))
unfolding goes_on ingredient_exhausted_checker
goes_on_value menu order_cnt c = elim (Bool-cases (leb_ℤ c.tmr (last_second menu))) [
  | inl e ↦ rw (e, goes_on) refl
  | inr e ↦ rw (e, goes_on) refl
]

-- The loop of `main` goes on exactly as long as the clock has not passed the end of the last
-- machine and it is not so that every topping is without limit or spent, one of them has a limit,
-- and each order that was taken is finished.
pub goes_on_iff :
    (menu : Menu) (order_cnt : ℕ) (c : Parlour)
    → ((goes_on menu order_cnt c).0 ≡ true) ↔ (
        (c.tmr ≤ℤ last_second menu)
        × ¬ (IsExhausted c.topping_stock 0 0 menu.t × IsNonePrepared c.order_list 0 order_cnt))
goes_on_iff menu order_cnt c =
    loop_iff (goes_on menu order_cnt c).0 (leb_ℤ c.tmr (last_second menu))
      (ingredient_exhausted menu.t c.topping_stock)
      (any_order_being_prepared order_cnt c.order_list) (goes_on_value menu order_cnt c)
      (le-ℤ c.tmr (last_second menu)) (IsExhausted-iff menu.t c.topping_stock)
      (IsNonePrepared-iff order_cnt c.order_list)
