-- ===== src/Parlour/Main/Seconds.antt =====
-- concurrency/2.c: a second of the main thread.
use cow_pbs_cofee_cafe_icecr.Base.{
  ℕ, ◌+◌, ◌-◌, ◌≡◌, refl, arith, Bool, true, false, ◌&&◌, ◌||◌, Option, none, some, ℤ, eqb_ℤ, ltb_ℤ,
  and_then, ◌∙◌, ap, sym, subst,
}
use cow_pbs_cofee_cafe_icecr.Cafe.Links.{IsLinked, link_customers-IsLinked}
use cow_pbs_cofee_cafe_icecr.Cafe.Baristas.Order.{IsMonotone, link_baristas-ends}
use cow_pbs_cofee_cafe_icecr.Parlour.Defs.{Menu, Parlour}
use cow_pbs_cofee_cafe_icecr.Parlour.Checks.{leb_ℤ}
use cow_pbs_cofee_cafe_icecr.Parlour.Effects.{IsQuiet}
use cow_pbs_cofee_cafe_icecr.Parlour.Main.{
  to_enter_customer, order_comp_machine, wake_customer, nth_arrival, admit_customers,
  start_machines, machine_is_free, free_machine, wake_machine, nth_free, wake_machines, wake_order,
  nth_done, wake_orders, main_second,
}
use cow_pbs_cofee_cafe_icecr.Parlour.Main.Frame.{main_second-IsQuiet}

-- A customer arrives, or the order of a machine is ready, in this second.
abbrev pub arrives_now : Parlour → ℕ → Bool
arrives_now c i = eqb_ℤ (c.cust i).cust_arrival c.tmr

abbrev pub done_now : Parlour → ℕ → Bool
done_now c i = eqb_ℤ (c.finish_time_order i) c.tmr

-- The clock and the links of the orders are as before.
record IsTimed (c d : Parlour) : Type 0 where
  tmr : d.tmr ≡ c.tmr
  finish_time_order : d.finish_time_order ≡ c.finish_time_order
  wake_up_order_comp : d.wake_up_order_comp ≡ c.wake_up_order_comp

IsTimed-trans : (c d e : Parlour) → IsTimed c d → IsTimed d e → IsTimed c e
IsTimed-trans c d e f g = record {
  tmr = g.tmr ∙ f.tmr;
  finish_time_order = g.finish_time_order ∙ f.finish_time_order;
  wake_up_order_comp = g.wake_up_order_comp ∙ f.wake_up_order_comp;
}

wake_customer-IsTimed :
    (o : Option ℕ) (c : Parlour)
    → IsTimed c (wake_customer o c)
      × ((wake_customer o c).wake_up_index_cust ≡ c.wake_up_index_cust)
unfolding wake_customer
wake_customer-IsTimed none c =
    (record { tmr = refl; finish_time_order = refl; wake_up_order_comp = refl }, refl)
wake_customer-IsTimed (some i) c =
    (record { tmr = refl; finish_time_order = refl; wake_up_order_comp = refl }, refl)

wake_machine-IsTimed :
    (o : Option ℕ) (c : Parlour)
    → IsTimed c (wake_machine o c) × ((wake_machine o c).wake_up_index_cust ≡ c.wake_up_index_cust)
unfolding wake_machine
wake_machine-IsTimed none c =
    (record { tmr = refl; finish_time_order = refl; wake_up_order_comp = refl }, refl)
wake_machine-IsTimed (some i) c =
    (record { tmr = refl; finish_time_order = refl; wake_up_order_comp = refl }, refl)

wake_order_kept :
    (o : Option ℕ) (c : Parlour)
    → ((wake_order o c).wake_up_index_cust ≡ c.wake_up_index_cust)
      × ((wake_order o c).wake_up_order_comp ≡ c.wake_up_order_comp)
unfolding wake_order
wake_order_kept none c = (refl, refl)
wake_order_kept (some i) c = (refl, refl)

customers_linked :
    (n : ℕ) (c : Parlour)
    → (d : Parlour) × (admit_customers n c ≡ some d)
      × IsTimed c d
      × IsLinked (1 + n) 1 (arrives_now c) c.wake_up_index_cust d.wake_up_index_cust
unfolding admit_customers to_enter_customer
customers_linked n c =
    let (w, e, l) = link_customers-IsLinked n 1 (arrives_now c) c.wake_up_index_cust in
    let c₁ = record c { wake_up_index_cust = w } in
    let (t, k) = wake_customer-IsTimed (nth_arrival n c 1) c₁ in
    (
      wake_customer (nth_arrival n c 1) c₁,
      ap
          (λ (o : Option (ℕ → Option ℕ)). and_then o (λ (v : ℕ → Option ℕ).
            some (wake_customer (nth_arrival n c 1) (record c { wake_up_index_cust = v }))))
          e,
      IsTimed-trans c c₁ _
          (record { tmr = refl; finish_time_order = refl; wake_up_order_comp = refl }) t,
      subst (IsLinked (1 + n) 1 (arrives_now c) c.wake_up_index_cust) (sym k) l,
    )

and_or : (a b : Bool) → (a && (b || false)) ≡ true → (a && (b || true)) ≡ true
and_or a b e = ground arith

machine_is_free-IsMonotone :
    (menu : Menu) (finish : ℕ → ℤ) (tmr : ℤ) → IsMonotone (machine_is_free menu finish tmr)
machine_is_free-IsMonotone menu finish tmr i e =
    and_or (leb_ℤ (menu.machine_start i) tmr && leb_ℤ tmr (menu.machine_end i))
      (ltb_ℤ (finish i) tmr) e

machines_linked :
    (menu : Menu) (c : Parlour)
    → (d : Parlour) × (wake_machines menu c ≡ some d)
      × IsTimed c d
      × (d.wake_up_index_cust ≡ c.wake_up_index_cust)
unfolding wake_machines free_machine
machines_linked menu c =
    let o = (nth_free menu c 1 c.special_flag).0 in
    let (r, e) =
      link_baristas-ends (machine_is_free menu c.finish_time_order c.tmr)
        (machine_is_free-IsMonotone menu c.finish_time_order c.tmr) menu.n menu.n 1 c.special_flag o
        (omega arith) refl (λ i q. omega arith) c.wake_up_index in
    let c₁ = record c { special_flag = r.0; wake_up_index = r.1 } in
    let (t, k) = wake_machine-IsTimed o c₁ in
    (
      wake_machine o c₁,
      ap
          (λ (x : Option ((ℕ → Bool) × (ℕ → Option ℕ))).
            and_then x (λ (y : (ℕ → Bool) × (ℕ → Option ℕ)).
              some (wake_machine o (record c { special_flag = y.0; wake_up_index = y.1 }))))
          e,
      IsTimed-trans c c₁ _
          (record { tmr = refl; finish_time_order = refl; wake_up_order_comp = refl }) t,
      k,
    )

orders_linked :
    (n : ℕ) (c : Parlour)
    → (d : Parlour) × (wake_orders n c ≡ some d)
      × (d.wake_up_index_cust ≡ c.wake_up_index_cust)
      × IsLinked (0 + n) 0 (done_now c) c.wake_up_order_comp d.wake_up_order_comp
unfolding wake_orders order_comp_machine
orders_linked n c =
    let (w, e, l) = link_customers-IsLinked n 0 (done_now c) c.wake_up_order_comp in
    let c₁ = record c { wake_up_order_comp = w } in
    let (k, q) = wake_order_kept (nth_done n c 1) c₁ in
    (
      wake_order (nth_done n c 1) c₁,
      ap
          (λ (o : Option (ℕ → Option ℕ)). and_then o (λ (v : ℕ → Option ℕ).
            some (wake_order (nth_done n c 1) (record c { wake_up_order_comp = v }))))
          e,
      k,
      subst (IsLinked (0 + n) 0 (done_now c) c.wake_up_order_comp) (sym q) l,
    )

done_later :
    (n : ℕ) (c d : Parlour) (wake' : ℕ → Option ℕ)
    → IsTimed c d
    → IsLinked (0 + n) 0 (done_now d) d.wake_up_order_comp wake'
    → IsLinked (0 + n) 0 (done_now c) c.wake_up_order_comp wake'
done_later n c d wake' t l =
    subst (λ f. IsLinked (0 + n) 0 (λ i. eqb_ℤ (f i) c.tmr) c.wake_up_order_comp wake')
      t.finish_time_order
      (subst
        (λ x. IsLinked (0 + n) 0 (λ i. eqb_ℤ (d.finish_time_order i) x) c.wake_up_order_comp wake')
        t.tmr (subst (λ w. IsLinked (0 + n) 0 (done_now d) w wake') t.wake_up_order_comp l))

-- What the main thread does in a second before it sleeps.
pub record IsSecond (menu : Menu) (cust_cnt : ℕ) (c d : Parlour) : Type 0 where
  pub customers :
      IsLinked (1 + cust_cnt) 1 (arrives_now c) c.wake_up_index_cust d.wake_up_index_cust
  pub orders : IsLinked (0 + menu.n) 0 (done_now c) c.wake_up_order_comp d.wake_up_order_comp
  pub quiet : IsQuiet c d
  pub sleeps : d.main_sleeps ≡ true

second_linked :
    (menu : Menu) (cust_cnt : ℕ) (c : Parlour)
    → (d : Parlour) × (main_second menu cust_cnt c ≡ some d)
      × IsLinked (1 + cust_cnt) 1 (arrives_now c) c.wake_up_index_cust d.wake_up_index_cust
      × IsLinked (0 + menu.n) 0 (done_now c) c.wake_up_order_comp d.wake_up_order_comp
      × (d.main_sleeps ≡ true)
unfolding main_second start_machines
second_linked menu n c =
    let c₀ = record c { machine_lock = c.machine_lock - 1 } in
    let (c₁, e₁, t₁, l₁) = customers_linked n c₀ in
    let s₁ = start_machines menu c₁ in
    let (c₂, e₂, t₂, k₂) = machines_linked menu s₁ in
    let (c₃, e₃, k₃, l₃) = orders_linked menu.n c₂ in
    let t₀ : IsTimed c s₁ = record {
      tmr = t₁.tmr;
      finish_time_order = t₁.finish_time_order;
      wake_up_order_comp = t₁.wake_up_order_comp;
    } in
    let t = IsTimed-trans c s₁ c₂ t₀ t₂ in
    (
      record c₃ { main_sleeps = true },
      ap
            (λ (o : Option Parlour). and_then o (λ (x : Parlour).
              and_then (wake_machines menu (start_machines menu x)) (λ (y : Parlour).
                and_then (wake_orders menu.n y)
                  (λ (z : Parlour). some (record z { main_sleeps = true })))))
            e₁
          ∙ ap
              (λ (o : Option Parlour). and_then o (λ (y : Parlour).
                and_then (wake_orders menu.n y)
                  (λ (z : Parlour). some (record z { main_sleeps = true }))))
              e₂
          ∙ ap
              (λ (o : Option Parlour).
                and_then o (λ (z : Parlour). some (record z { main_sleeps = true })))
              e₃,
      subst (IsLinked (1 + n) 1 (arrives_now c) c.wake_up_index_cust) (sym (k₃ ∙ k₂)) l₁,
      done_later menu.n c c₂ c₃.wake_up_order_comp t l₃,
      refl,
    )

-- A second of the main thread ends, with as many rounds of its linking loops as there are customers
-- and machines. Every customer who arrives in this second then names the next who does, and every
-- machine whose order is ready in it names the next such machine, the last of each none, and no
-- other of these links changes. Orders, stock and what the machines hold are as before, and nobody
-- comes in or leaves.
pub main_second-IsSecond :
    (menu : Menu) (cust_cnt : ℕ) (c : Parlour)
    → (d : Parlour) × (main_second menu cust_cnt c ≡ some d) × IsSecond menu cust_cnt c d
main_second-IsSecond menu n c =
    let (d, e, l, m, s) = second_linked menu n c in
    (
      d,
      e,
      record { customers = l; orders = m; quiet = main_second-IsQuiet menu n c d e; sleeps = s },
    )
