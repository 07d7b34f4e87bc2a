-- ===== src/Parlour/Main/Frame.antt =====
-- concurrency/2.c: the main thread changes neither orders nor stock, and lets nobody in or out.
use cow_pbs_cofee_cafe_icecr.Base.{
  ℕ, ◌-◌, ◌≡◌, refl, Bool, true, false, Option, none, some, and_then_some, subst, if_keeps,
}
use cow_pbs_cofee_cafe_icecr.Parlour.Defs.{Menu, Parlour}
use cow_pbs_cofee_cafe_icecr.Parlour.Checks.{leb_ℤ, ingredient_exhausted_checker}
use cow_pbs_cofee_cafe_icecr.Parlour.Effects.{IsQuiet, IsQuiet-trans, quiet}
use cow_pbs_cofee_cafe_icecr.Parlour.Main.{
  last_second, goes_on, wake_customer, nth_arrival, admit_customers, start_machines, wake_machine,
  nth_free, wake_machines, wake_order, nth_done, wake_orders, main_second, main_ticks, main_closes,
}

to_some :
    (c : Parlour) {d e : Parlour}
    → IsQuiet c d
    → ◌≡◌ {A = Option Parlour} (some d) (some e)
    → IsQuiet c e
to_some c {d} {e} s q = subst (IsQuiet c) {x = d} {y = e} (cc q) s

wake_customer-IsQuiet : (o : Option ℕ) (c : Parlour) → IsQuiet c (wake_customer o c)
unfolding wake_customer
wake_customer-IsQuiet none c = quiet c _ refl refl refl refl refl
wake_customer-IsQuiet (some i) c = quiet c _ refl refl refl refl refl

wake_machine-IsQuiet : (o : Option ℕ) (c : Parlour) → IsQuiet c (wake_machine o c)
unfolding wake_machine
wake_machine-IsQuiet none c = quiet c c refl refl refl refl refl
wake_machine-IsQuiet (some i) c = quiet c _ refl refl refl refl refl

wake_order-IsQuiet : (o : Option ℕ) (c : Parlour) → IsQuiet c (wake_order o c)
unfolding wake_order
wake_order-IsQuiet none c = quiet c c refl refl refl refl refl
wake_order-IsQuiet (some i) c = quiet c _ refl refl refl refl refl

admit_customers-IsQuiet : (n : ℕ) (c d : Parlour) → admit_customers n c ≡ some d → IsQuiet c d
unfolding admit_customers
admit_customers-IsQuiet n c d e = and_then_some (IsQuiet c d) _ _ d e (λ w _ f.
    let c₁ = record c { wake_up_index_cust = w } in
    to_some c
      (IsQuiet-trans c c₁ _ (quiet c c₁ refl refl refl refl refl)
        (wake_customer-IsQuiet (nth_arrival n c 1) c₁))
      f)

wake_machines-IsQuiet : (menu : Menu) (c d : Parlour) → wake_machines menu c ≡ some d → IsQuiet c d
unfolding wake_machines
wake_machines-IsQuiet menu c d e =
    and_then_some {A = (ℕ → Bool) × (ℕ → Option ℕ)} (IsQuiet c d) _ _ d e (λ x _ f.
      let c₁ = record c { special_flag = x.0; wake_up_index = x.1 } in
      to_some c
        (IsQuiet-trans c c₁ _ (quiet c c₁ refl refl refl refl refl)
          (wake_machine-IsQuiet (nth_free menu c 1 c.special_flag).0 c₁))
        f)

wake_orders-IsQuiet : (n : ℕ) (c d : Parlour) → wake_orders n c ≡ some d → IsQuiet c d
unfolding wake_orders
wake_orders-IsQuiet n c d e = and_then_some (IsQuiet c d) _ _ d e (λ w _ f.
    let c₁ = record c { wake_up_order_comp = w } in
    to_some c
      (IsQuiet-trans c c₁ _ (quiet c c₁ refl refl refl refl refl)
        (wake_order-IsQuiet (nth_done n c 1) c₁))
      f)

start_machines-IsQuiet : (menu : Menu) (c : Parlour) → IsQuiet c (start_machines menu c)
unfolding start_machines
start_machines-IsQuiet menu c = quiet c _ refl refl refl refl refl

pub main_second-IsQuiet :
    (menu : Menu) (n : ℕ) (c d : Parlour) → main_second menu n c ≡ some d → IsQuiet c d
unfolding main_second
main_second-IsQuiet menu n c d e =
    let c₀ = record c { machine_lock = c.machine_lock - 1 } in
    and_then_some (IsQuiet c d) (admit_customers n c₀) _ d e (λ c₁ p₁ e₁.
      and_then_some (IsQuiet c d) (wake_machines menu (start_machines menu c₁)) _ d e₁ (λ c₂ p₂ e₂.
        and_then_some (IsQuiet c d) (wake_orders menu.n c₂) _ d e₂ (λ c₃ p₃ e₃.
          let f₁ =
            IsQuiet-trans c c₀ c₁ (quiet c c₀ refl refl refl refl refl)
              (admit_customers-IsQuiet n c₀ c₁ p₁) in
          let f₂ = IsQuiet-trans c c₁ _ f₁ (start_machines-IsQuiet menu c₁) in
          let f₃ =
            IsQuiet-trans c _ c₂ f₂ (wake_machines-IsQuiet menu (start_machines menu c₁) c₂ p₂) in
          let f₄ = IsQuiet-trans c c₂ c₃ f₃ (wake_orders-IsQuiet menu.n c₂ c₃ p₃) in
          let c₄ = record c₃ { main_sleeps = true } in
          to_some c (IsQuiet-trans c c₃ c₄ f₄ (quiet c₃ c₄ refl refl refl refl refl)) e₃)))

pub main_ticks-IsQuiet : (c : Parlour) → IsQuiet c (main_ticks c)
unfolding main_ticks
main_ticks-IsQuiet c = quiet c _ refl refl refl refl refl

checker-IsQuiet : (t : ℕ) (c : Parlour) → IsQuiet c (ingredient_exhausted_checker t c).1
unfolding ingredient_exhausted_checker
checker-IsQuiet t c = quiet c _ refl refl refl refl refl

pub goes_on-IsQuiet :
    (menu : Menu) (order_cnt : ℕ) (c : Parlour) → IsQuiet c (goes_on menu order_cnt c).1
unfolding goes_on
goes_on-IsQuiet menu order_cnt c =
    if_keeps (λ (x : Bool × Parlour). IsQuiet c x.1) (leb_ℤ c.tmr (last_second menu)) _ (false, c)
      (λ e. checker-IsQuiet menu.t c) (λ e. quiet c c refl refl refl refl refl)

pub main_closes-IsQuiet : (menu : Menu) (n : ℕ) (c : Parlour) → IsQuiet c (main_closes menu n c)
unfolding main_closes ingredient_exhausted_checker
main_closes-IsQuiet menu n c = quiet c _ refl refl refl refl refl
