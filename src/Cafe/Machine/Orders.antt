-- ===== src/Cafe/Machine/Orders.antt =====
-- concurrency/1.c: the baristas never share an order, whatever the order of their steps.
use cow_pbs_cofee_cafe_icecr.Base.{ℕ, ◌≡◌, true, none}
use cow_pbs_cofee_cafe_icecr.Cafe.Claims.{IsExclusive, IsExclusive-none, IsFair-IsExclusive}
use cow_pbs_cofee_cafe_icecr.Cafe.Defs.{Menu, Cafe}
use cow_pbs_cofee_cafe_icecr.Cafe.Threads.Orders.{
  held, is_taken, claims, IsFair, IsFair-same, barista_woken-IsFair, barista_looks-IsFair,
  complete-IsFair, customer_enters-same, customer_leaves-same,
}
use cow_pbs_cofee_cafe_icecr.Cafe.Main.{main_ticks, main_closes}
use cow_pbs_cofee_cafe_icecr.Cafe.Main.Frame.{
  main_second-IsSame, main_ticks-IsSame, main_closes-IsSame,
}
use cow_pbs_cofee_cafe_icecr.Cafe.Machine.{
  Step, wakes, looks, completes, enters, leaves, starts, ticks, closes, Reach, here, next,
}

-- Each step is fair to all but one barista.
Step-IsFair : {menu : Menu} {c d : Cafe} → Step menu c d → (b : ℕ) × IsFair b c d
Step-IsFair {menu} {c} (wakes i _ _ _) = (i, barista_woken-IsFair i c)
Step-IsFair {menu} {c} (looks i _ _ _) = (i, barista_looks-IsFair menu i c)
Step-IsFair {menu} {c} (completes i order _ _ _ _) = (i, complete-IsFair i order c)
Step-IsFair {menu} {c} (enters i _ _ _ _) =
    let (p, q) = customer_enters-same i c in (0, IsFair-same 0 c _ p q)
Step-IsFair {menu} {c} (leaves i _ _ _ _) =
    let (p, q) = customer_leaves-same menu i c in (0, IsFair-same 0 c _ p q)
Step-IsFair {menu} {c} {d} (starts _ _ _ _ e) =
    let (p, q) = main_second-IsSame menu.b menu.n c d e in (0, IsFair-same 0 c d p q)
Step-IsFair {menu} {c} (ticks _) =
    let (p, q) = main_ticks-IsSame c in (0, IsFair-same 0 c (main_ticks c) p q)
Step-IsFair {menu} {c} (closes _ _) =
    let (p, q) = main_closes-IsSame menu.n c in (0, IsFair-same 0 c (main_closes menu.n c) p q)

-- From a state in which nobody holds an order, the threads reach, by steps in any order, only
-- states in which each order that a barista holds is marked as taken and is held by no other
-- barista.
pub Reach-IsExclusive :
    {menu : Menu} {c d : Cafe}
    → ((i : ℕ) → held c i ≡ none)
    → Reach menu c d
    → IsExclusive (claims d)
unfolding IsFair
Reach-IsExclusive {c} e here = IsExclusive-none (claims c) e
Reach-IsExclusive e (next {d} {e = d'} r s) =
    let (b, f) = Step-IsFair s in
    IsFair-IsExclusive b (claims d) (claims d') f (Reach-IsExclusive e r)

-- An order that is marked as taken stays so, through steps of the threads in any order.
pub Reach-taken :
    {menu : Menu} {c d : Cafe}
    → Reach menu c d
    → (k : ℕ) → is_taken c k ≡ true
    → is_taken d k ≡ true
unfolding IsFair
Reach-taken here k t = t
Reach-taken (next r s) k t = (Step-IsFair s).1.taken k (Reach-taken r k t)
