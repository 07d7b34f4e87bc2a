-- ===== src/Parlour/Threads/Machines.antt =====
-- concurrency/2.c: what the machines change of the orders and the stock.
use cow_pbs_cofee_cafe_icecr.Base.{
  ℕ, zero, suc, ◌+◌, ◌-◌, ◌≡◌, ◌⊎◌, inl, inr, refl, arith, Bool, true, false, ◌&&◌, not, Option,
  none, some, eqb_ℤ, if◌then◌else◌, update, update_self, update_other, Bool-cases, if_keeps,
  Option-cases, ◌∙◌, ap, sym, subst,
}
use cow_pbs_cofee_cafe_icecr.Parlour.Defs.{
  Menu, Order, Machine, MachinePc, Parlour, ready, locking, preparing, returned,
}
use cow_pbs_cofee_cafe_icecr.Parlour.Checks.{shortage, order_status_checker}
use cow_pbs_cofee_cafe_icecr.Parlour.Effects.{
  held, is_taken, IsUsed, IsUsed-refl, IsMove, IsMove-trans, IsMove-same, IsFair-own, write_taken,
  IsSame,
}
use cow_pbs_cofee_cafe_icecr.Cafe.Threads.{wait}
use cow_pbs_cofee_cafe_icecr.Parlour.Threads.{
  customer_of, wake_next_machine, wake_next_order, fits, reject_order, take_order, Verdict, skip,
  reject, take, judge, look, go_to, machine_starts, proceed, react, machine_woken, after_look,
  machine_looks, call_customer, finish_order, machine_completes,
}
use cow_pbs_cofee_cafe_icecr.Parlour.Threads.Stock.{use_toppings-IsUsed}

-- The entry of one machine is written, and the orders stay.
IsMove-own :
    (i : ℕ) (c d : Parlour) (b : Machine)
    → d.order_list ≡ c.order_list
    → d.topping_stock ≡ c.topping_stock
    → d.guests ≡ c.guests
    → d.current_customers ≡ c.current_customers
    → d.staff ≡ update c.staff i b
    → (b.flag ≡ none) ⊎ (b.flag ≡ held c i)
    → IsMove i c d
IsMove-own i c d b o s g n t h = record {
  fair = IsFair-own i c d b (λ k e. ap (λ l. (l k).order_taken_status) o ∙ e) t h;
  used = subst (IsUsed c.topping_stock) (sym s) (IsUsed-refl c.topping_stock);
  guests = g;
  current = n;
}

go_to-IsMove : (pc : MachinePc) (i : ℕ) (c : Parlour) → IsMove i c (go_to pc i c)
go_to-IsMove pc i c =
    IsMove-own i c _ (record (c.staff i) { pc = pc }) refl refl refl refl refl (inr refl)

IsSame-record :
    (c d : Parlour)
    → d.order_list ≡ c.order_list
    → d.staff ≡ c.staff
    → d.topping_stock ≡ c.topping_stock
    → IsSame c d
IsSame-record c d o t s = record { order_list = o; staff = t; topping_stock = s }

wake_next-IsMove : (i : ℕ) (c : Parlour) → IsMove i c (wake_next_machine i c)
unfolding wake_next_machine
wake_next-IsMove i c = elim (Option-cases (c.wake_up_index i)) [
  | inl e ↦
      rw (e, wake_next_machine) (IsMove-same i c c (IsSame-record c c refl refl refl) refl refl)
  | inr (k, e) ↦
      rw (e, wake_next_machine) (IsMove-same i c _ (IsSame-record c _ refl refl refl) refl refl)
]

wake_next_order-IsMove : (i : ℕ) (c : Parlour) → IsMove i c (wake_next_order i c)
unfolding wake_next_order
wake_next_order-IsMove i c = elim (Option-cases (c.wake_up_order_comp i)) [
  | inl e ↦ rw (e, wake_next_order) (IsMove-same i c c (IsSame-record c c refl refl refl) refl refl)
  | inr (k, e) ↦
      rw (e, wake_next_order) (IsMove-same i c _ (IsSame-record c _ refl refl refl) refl refl)
]

reject_order-IsMove : (i order : ℕ) (c : Parlour) → IsMove i c (reject_order order c)
unfolding reject_order
reject_order-IsMove i order c = record {
  fair = record {
    taken = λ k t. write_taken c.order_list 0 k _ (λ a. refl) t;
    own = λ k e. inl e;
    others = λ j n. refl;
  };
  used = IsUsed-refl c.topping_stock;
  guests = refl;
  current = refl;
}

-- Writing an order as taken does so.
marked :
    (l : ℕ → Order) (cst k : ℕ) (o : Order)
    → cst ≡ k
    → o.order_taken_status ≡ true
    → (update l cst o k).order_taken_status ≡ true
marked l cst k o q t =
    ap (λ r. r.order_taken_status) (ap (update l cst o) (sym q) ∙ update_self l cst o) ∙ t

take_order-IsMove :
    (menu : Menu) (i cst : ℕ) (c : Parlour)
    → is_taken c cst ≡ false
    → IsMove i c (take_order menu i cst c)
unfolding take_order
take_order-IsMove menu i cst c e = record {
  fair = record {
    taken = λ k t. write_taken c.order_list cst k _ (λ a. refl) t;
    own = λ k h.
        let q : cst ≡ k = cc (
          ap (λ s. s.flag)
              (update_self c.staff i (record (c.staff i) { flag = some cst; cst = cst + 1 })),
          h,
        ) in
        inr (ap (is_taken c) (sym q) ∙ e, marked c.order_list cst k _ q refl);
    others = λ j n. ap (λ s. s.flag) (update_other c.staff i _ j n);
  };
  used =
      use_toppings-IsUsed (c.order_list cst).totaltoppings 0 menu (c.order_list cst)
        c.topping_stock;
  guests = refl;
  current = refl;
}

-- Only an order that is not taken is taken.
judge_value :
    (a b s f : Bool)
    → (if not a && not b then (if s then reject else if f then take else skip) else skip) ≡ take
    → b ≡ false
judge_value a b s f h = ground arith

judge-free :
    (menu : Menu) (i cst : ℕ) (c : Parlour) → judge menu i cst c ≡ take → is_taken c cst ≡ false
unfolding judge
judge-free menu i cst c h =
    judge_value (customer_of c cst).order_completion_status (is_taken c cst)
      (shortage menu (c.order_list cst) c.topping_stock) (fits menu i cst c) h

look-step :
    (menu : Menu) (i n cst : ℕ) (c : Parlour) (v : Verdict)
    → judge menu i cst c ≡ v
    → ((d : Parlour) → IsMove i d (look menu i n (cst + 1) d))
    → IsMove i c (look menu i (suc n) cst c)
unfolding look
look-step menu i n cst c skip e h = rw (e, look) (h c)
look-step menu i n cst c reject e h =
    rw (e, look) (IsMove-trans i c _ _ (reject_order-IsMove i cst c) (h (reject_order cst c)))
look-step menu i n cst c take e h =
    rw (e, look) (take_order-IsMove menu i cst c (judge-free menu i cst c e))

look-IsMove : (menu : Menu) (i n cst : ℕ) (c : Parlour) → IsMove i c (look menu i n cst c)
unfolding look
look-IsMove menu i zero cst c =
    IsMove-own i c _ (record (c.staff i) { cst = cst }) refl refl refl refl refl (inr refl)
look-IsMove menu i (suc n) cst c =
    look-step menu i n cst c (judge menu i cst c) refl (λ d. look-IsMove menu i n (cst + 1) d)

pub machine_starts-IsMove : (i : ℕ) (c : Parlour) → IsMove i c (machine_starts i c)
unfolding machine_starts
machine_starts-IsMove i c =
    IsMove-own i c _ (record (c.staff i) { pc = if c.close_sig then returned else ready }) refl refl
      refl refl refl (inr refl)

prepare-IsMove : (i : ℕ) (c : Parlour) → IsMove i c (go_to preparing i (wake_next_machine i c))
prepare-IsMove i c =
    IsMove-trans i c _ _ (wake_next-IsMove i c) (go_to-IsMove preparing i (wake_next_machine i c))

proceed-IsMove : (i : ℕ) (o : Option ℕ) (c : Parlour) → IsMove i c (proceed i o c)
unfolding proceed
proceed-IsMove i none c = go_to-IsMove (if c.ingredient_over then ready else locking) i c
proceed-IsMove i (some order) c = prepare-IsMove i c

react-IsMove : (i : ℕ) (b : Bool) (c : Parlour) → IsMove i c (react i b c)
unfolding react
react-IsMove i true c = go_to-IsMove returned i c
react-IsMove i false c = proceed-IsMove i (c.staff i).flag c

pub machine_woken-IsMove : (i : ℕ) (c : Parlour) → IsMove i c (machine_woken i c)
unfolding machine_woken
machine_woken-IsMove i c =
    let c₁ = record c { machines = wait c.machines i } in
    IsMove-trans i c c₁ _ (IsMove-same i c c₁ (IsSame-record c c₁ refl refl refl) refl refl)
      (react-IsMove i c.close_sig c₁)

after_look-IsMove : (i : ℕ) (o : Option ℕ) (c : Parlour) → IsMove i c (after_look i o c)
unfolding after_look
after_look-IsMove i none c = go_to-IsMove ready i c
after_look-IsMove i (some order) c =
    elim (Bool-cases (eqb_ℤ (customer_of c order).cust_arrival c.tmr)) [
      | inl e ↦ rw (e, after_look) (go_to-IsMove ready i c)
      | inr e ↦ rw (e, after_look) (prepare-IsMove i c)
    ]

pub machine_looks-IsMove : (menu : Menu) (i : ℕ) (c : Parlour) → IsMove i c (machine_looks menu i c)
unfolding machine_looks
machine_looks-IsMove menu i c =
    let c₁ = wake_next_machine i c in
    let c₂ = look menu i (c.totalorders - (c.staff i).cst) (c.staff i).cst c₁ in
    IsMove-trans i c c₁ _ (wake_next-IsMove i c) (
      IsMove-trans i c₁ c₂ _
        (look-IsMove menu i (c.totalorders - (c.staff i).cst) (c.staff i).cst c₁)
        (after_look-IsMove i (c₂.staff i).flag c₂))

call_customer-IsMove :
    (i customer : ℕ) (b : Bool) (c : Parlour) → IsMove i c (call_customer customer b c)
unfolding call_customer
call_customer-IsMove i customer true c =
    IsMove-same i c _ (IsSame-record c _ refl refl refl) refl refl
call_customer-IsMove i customer false c =
    IsMove-same i c c (IsSame-record c c refl refl refl) refl refl

done-IsMove :
    (i order : ℕ) (c : Parlour)
    → IsMove i c (record c {
      order_list = update c.order_list order (record (c.order_list order) { orderstatus = true });
    })
done-IsMove i order c = record {
  fair = record {
    taken = λ k t. write_taken c.order_list order k _ (λ a. a) t;
    own = λ k e. inl e;
    others = λ j n. refl;
  };
  used = IsUsed-refl c.topping_stock;
  guests = refl;
  current = refl;
}

finish_order-IsMove : (i order : ℕ) (c : Parlour) → IsMove i c (finish_order i order c)
unfolding finish_order
finish_order-IsMove i order c =
    let c₀ = record c {
      order_list = update c.order_list order (record (c.order_list order) { orderstatus = true });
    } in
    let c₁ = wake_next_order i c₀ in
    let customer = (c₁.order_list order).cust_no in
    let c₂ = call_customer customer (order_status_checker c₁ customer) c₁ in
    IsMove-trans i c c₀ _ (done-IsMove i order c) (
      IsMove-trans i c₀ c₁ _ (wake_next_order-IsMove i c₀) (
        IsMove-trans i c₁ c₂ _
          (call_customer-IsMove i customer (order_status_checker c₁ customer) c₁)
          (IsMove-own i c₂ _ (record (c₂.staff i) { flag = none; pc = ready }) refl refl refl refl
            refl (inl refl))))

pub machine_completes-IsMove :
    (i order : ℕ) (c : Parlour) → IsMove i c (machine_completes i order c)
unfolding machine_completes
machine_completes-IsMove i order c =
    let c₁ = record c { order_comp = wait c.order_comp i } in
    IsMove-trans i c c₁ _ (IsMove-same i c c₁ (IsSame-record c c₁ refl refl refl) refl refl) (
      if_keeps (IsMove i c₁) c.close_sig (go_to returned i c₁) (finish_order i order c₁)
        (λ e. go_to-IsMove returned i c₁) (λ e. finish_order-IsMove i order c₁))
