-- ===== src/Parlour/Machine/Laws.antt =====
-- concurrency/2.c: the orders and the stock, through steps in any order.
use cow_pbs_cofee_cafe_icecr.Base.{ℕ, refl, ℤ}
use cow_pbs_cofee_cafe_icecr.Cafe.Claims.{IsFair, IsExclusive, IsExclusive-none, IsFair-IsExclusive}
use cow_pbs_cofee_cafe_icecr.Parlour.Defs.{Menu, Order, Customer, Parlour}
use cow_pbs_cofee_cafe_icecr.Parlour.Effects.{
  claims, IsUsed, IsUsed-refl, IsUsed-trans, IsMove, IsSame-IsFair, IsSame-IsUsed, IsQuiet,
  IsQuiet-trans,
}
use cow_pbs_cofee_cafe_icecr.Parlour.Threads.Machines.{
  machine_starts-IsMove, machine_woken-IsMove, machine_looks-IsMove, machine_completes-IsMove,
}
use cow_pbs_cofee_cafe_icecr.Parlour.Threads.Guests.{
  IsVisit, guest_arrives-IsVisit, guest_called-IsVisit, guest_collects-IsVisit,
}
use cow_pbs_cofee_cafe_icecr.Parlour.Main.{initial, goes_on}
use cow_pbs_cofee_cafe_icecr.Parlour.Main.Frame.{
  main_second-IsQuiet, main_ticks-IsQuiet, goes_on-IsQuiet, main_closes-IsQuiet,
}
use cow_pbs_cofee_cafe_icecr.Parlour.Machine.{
  IsGuest, Step, starts, wakes, looks, completes, arrives, called, collects, second, ticks, closes,
  Run, here, next,
}

-- A step is a machine's, a guest's, or one of the main thread.
data Effect (menu : Menu) (cust_cnt : ℕ) (c d : Parlour) : Type 0 where
  by_machine : (i : ℕ) → IsMove i c d → Effect menu cust_cnt c d
  by_guest : (i : ℕ) → IsGuest cust_cnt i → IsVisit menu i c d → Effect menu cust_cnt c d
  by_main : IsQuiet c d → Effect menu cust_cnt c d

Step-Effect :
    {menu : Menu} {cust_cnt order_cnt : ℕ} {c d : Parlour}
    → Step menu cust_cnt order_cnt c d
    → Effect menu cust_cnt c d
Step-Effect {menu} {cust_cnt} {order_cnt} {c} (starts i _ _ _) =
    by_machine i (machine_starts-IsMove i c)
Step-Effect {menu} {cust_cnt} {order_cnt} {c} (wakes i _ _ _) =
    by_machine i (machine_woken-IsMove i c)
Step-Effect {menu} {cust_cnt} {order_cnt} {c} (looks i _ _ _) =
    by_machine i (machine_looks-IsMove menu i c)
Step-Effect {menu} {cust_cnt} {order_cnt} {c} (completes i order _ _ _ _) =
    by_machine i (machine_completes-IsMove i order c)
Step-Effect {menu} {cust_cnt} {order_cnt} {c} (arrives i g a _) =
    by_guest i g (guest_arrives-IsVisit menu i c a)
Step-Effect {menu} {cust_cnt} {order_cnt} {c} (called i g a _) =
    by_guest i g (guest_called-IsVisit menu i c a)
Step-Effect {menu} {cust_cnt} {order_cnt} {c} (collects i g a _) =
    by_guest i g (guest_collects-IsVisit menu i c a)
Step-Effect {menu} {cust_cnt} {order_cnt} {c} {d} (second _ _ _ _ _ e) =
    let c₁ = (goes_on menu order_cnt c).1 in
    by_main (
      IsQuiet-trans c c₁ d (goes_on-IsQuiet menu order_cnt c)
        (main_second-IsQuiet menu cust_cnt c₁ d e))
Step-Effect {menu} {cust_cnt} {order_cnt} {c} (ticks _) = by_main (main_ticks-IsQuiet c)
Step-Effect {menu} {cust_cnt} {order_cnt} {c} (closes _ _ _) =
    let c₁ = (goes_on menu order_cnt c).1 in
    by_main (
      IsQuiet-trans c c₁ _ (goes_on-IsQuiet menu order_cnt c)
        (main_closes-IsQuiet menu cust_cnt c₁))

module _ {menu : Menu} {cust_cnt : ℕ} where
  Effect-IsFair :
      {c d : Parlour} → Effect menu cust_cnt c d → (b : ℕ) × IsFair b (claims c) (claims d)
  Effect-IsFair (by_machine i m) = (i, m.fair)
  Effect-IsFair {c} {d} (by_guest i g v) = (0, IsSame-IsFair 0 c d v.same)
  Effect-IsFair {c} {d} (by_main q) = (0, IsSame-IsFair 0 c d q.same)

  Effect-IsUsed :
      {c d : Parlour} → Effect menu cust_cnt c d → IsUsed c.topping_stock d.topping_stock
  Effect-IsUsed (by_machine i m) = m.used
  Effect-IsUsed {c} {d} (by_guest i g v) = IsSame-IsUsed c d v.same
  Effect-IsUsed {c} {d} (by_main q) = IsSame-IsUsed c d q.same

-- From the start on, whatever the order of the steps, each order that a machine holds is marked as
-- taken, and no other machine holds it.
pub Run-IsExclusive :
    {menu : Menu} {cust_cnt order_cnt : ℕ} (orders : ℕ → Order) (cust : ℕ → Customer)
    (stock : ℤ → ℤ) {d : Parlour}
    → Run menu cust_cnt order_cnt (initial orders cust stock) d
    → IsExclusive (claims d)
unfolding initial
Run-IsExclusive orders cust stock here = IsExclusive-none _ (λ i. refl)
Run-IsExclusive orders cust stock (next {d} {e} r s) =
    let (b, f) = Effect-IsFair (Step-Effect s) in
    IsFair-IsExclusive b (claims d) (claims e) f (Run-IsExclusive orders cust stock r)

-- Through steps in any order, a topping without a limit (-1) keeps none, and the stock of a topping
-- with a limit only falls and never below 0: it never turns into -1.
pub Run-IsUsed :
    {menu : Menu} {cust_cnt order_cnt : ℕ} {c d : Parlour}
    → Run menu cust_cnt order_cnt c d
    → IsUsed c.topping_stock d.topping_stock
Run-IsUsed {c} here = IsUsed-refl c.topping_stock
Run-IsUsed {c} (next {d} {e} r s) =
    IsUsed-trans c.topping_stock d.topping_stock e.topping_stock (Run-IsUsed r)
      (Effect-IsUsed (Step-Effect s))
