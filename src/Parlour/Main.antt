-- ===== src/Parlour/Main.antt =====
-- concurrency/2.c: the main thread, from the start values, second by second, to the closing.
pub mod Frame
pub mod Closing
pub mod Seconds
use cow_pbs_cofee_cafe_icecr.Base.{
  ℕ, zero, suc, ◌+◌, ◌-◌, ◌≡◌, ◌==◌, Bool, true, false, ◌&&◌, ◌||◌, not, Option, none, some, List,
  [], ◌∷◌, ℤ, pos, negsuc, ◌+ℤ◌, ltb_ℤ, eqb_ℤ, if◌then◌else◌, update, and_then,
}
use cow_pbs_cofee_cafe_icecr.Cafe.Defs.{Name}
use cow_pbs_cofee_cafe_icecr.Cafe.Arrivals.{nth_from}
use cow_pbs_cofee_cafe_icecr.Cafe.Links.{link_customers}
use cow_pbs_cofee_cafe_icecr.Cafe.Baristas.{free_from, link_baristas}
use cow_pbs_cofee_cafe_icecr.Cafe.Threads.{post}
use cow_pbs_cofee_cafe_icecr.Cafe.Main.{post_each}
use cow_pbs_cofee_cafe_icecr.Parlour.Defs.{Menu, Customer, Order, Machine, Parlour, off, arriving}
use cow_pbs_cofee_cafe_icecr.Parlour.Checks.{
  leb_ℤ, any_order_being_prepared, ingredient_exhausted, ingredient_exhausted_checker,
}

-- The place of a topping in an order, and the empty name beyond the last.
pub nth_name : List Name → ℕ → Name
nth_name [] j = []
nth_name (x ∷ xs) zero = x
nth_name (x ∷ xs) (suc j) = nth_name xs j

pub count_names : List Name → ℕ
count_names [] = 0
count_names (x ∷ xs) = count_names xs + 1

-- populate_order, with the words into which strtok_r splits the line: the flavour, then the
-- toppings.
pub populate_order : Name → List Name → ℕ → ℕ → (ℕ → Order) → ℕ → Order
populate_order flavour toppings order_index cust orders = update orders order_index (record {
  order_taken_status = false;
  orderstatus = false;
  cust_no = cust;
  order_no_cust =
      if order_index == 0
      then 1
      else if cust == (orders (order_index - 1)).cust_no
      then (orders (order_index - 1)).order_no_cust + 1
      else 1;
  totaltoppings = count_names toppings;
  flavour = flavour;
  toppings = nth_name toppings;
})

-- The orders of one customer, from place `order_cnt` on.
pub populate_orders : List (Name × List Name) → ℕ → ℕ → (ℕ → Order) → ℕ → Order
populate_orders [] order_cnt cust orders = orders
populate_orders ((flavour, toppings) ∷ lines) order_cnt cust orders =
    populate_orders lines (order_cnt + 1) cust
      (populate_order flavour toppings order_cnt cust orders)

-- The state when the threads start, with what was read.
unfoldable pub initial : (ℕ → Order) → (ℕ → Customer) → (ℤ → ℤ) → Parlour
initial orders cust stock = record {
  tmr = pos 0;
  totalorders = 0;
  current_customers = pos 0;
  returned_count = 0;
  close_sig = false;
  some_ing_exh = false;
  ingredient_over = false;
  order_list = orders;
  cust = cust;
  topping_stock = stock;
  special_flag = λ i. false;
  rejection_cust = λ i. false;
  finish_time_order = λ i. negsuc 0;
  wake_up_index = λ i. none;
  wake_up_index_cust = λ i. none;
  wake_up_order_comp = λ i. none;
  machine_lock = 1;
  machines = λ i. 0;
  customers = λ i. 0;
  rej_customers = λ i. 0;
  order_comp = λ i. 0;
  staff = λ i. record { pc = off; cst = 0; flag = none };
  guests = λ i. arriving;
  main_sleeps = false;
}

-- `max`, the latest end of a machine.
unfoldable pub latest_end : ℕ → ℕ → (ℕ → ℤ) → ℤ → ℤ
latest_end zero i machine_end max = max
latest_end (suc n) i machine_end max =
    latest_end n (i + 1) machine_end (if ltb_ℤ max (machine_end i) then machine_end i else max)

abbrev pub last_second : Menu → ℤ
last_second menu = latest_end menu.n 0 menu.machine_end (pos 0)

-- The condition of the loop, whose check of the stock may set ingredient_over.
unfoldable pub goes_on : Menu → ℕ → Parlour → Bool × Parlour
goes_on menu order_cnt c =
    if leb_ℤ c.tmr (last_second menu)
    then (let r = ingredient_exhausted_checker menu.t c in
        (not (r.0 && any_order_being_prepared order_cnt c.order_list), r.1))
    else (false, c)

unfoldable pub to_enter_customer : (ℕ → Customer) → ℤ → ℕ → ℕ → Option ℕ
to_enter_customer cust tmr number cust_cnt =
    nth_from cust_cnt number 1 (λ i. eqb_ℤ (cust i).cust_arrival tmr)

unfoldable pub wake_customer : Option ℕ → Parlour → Parlour
wake_customer none c = record c { machine_lock = c.machine_lock + 1 }
wake_customer (some i) c = record c { customers = post c.customers i }

abbrev pub nth_arrival : ℕ → Parlour → ℕ → Option ℕ
nth_arrival cust_cnt c number = to_enter_customer c.cust c.tmr number cust_cnt

-- The customers who arrive in this second are linked, and the first is woken.
unfoldable pub admit_customers : ℕ → Parlour → Option Parlour
admit_customers cust_cnt c =
    and_then
      (link_customers cust_cnt (nth_arrival cust_cnt c) 2 (nth_arrival cust_cnt c 1)
        c.wake_up_index_cust)
      (λ (wake : ℕ → Option ℕ).
        some (wake_customer (nth_arrival cust_cnt c 1) (record c { wake_up_index_cust = wake })))

-- The machines that begin to work in this second.
unfoldable pub start_machines : Menu → Parlour → Parlour
start_machines menu c = record c {
  machines = post_each menu.n 0 (λ i. eqb_ℤ (menu.machine_start i) c.tmr) c.machines;
}

-- The condition of free_machine, by the machine and its special flag.
abbrev pub machine_is_free : Menu → (ℕ → ℤ) → ℤ → ℕ → Bool → Bool
machine_is_free menu finish tmr i special =
    leb_ℤ (menu.machine_start i) tmr
    && leb_ℤ tmr (menu.machine_end i)
    && (ltb_ℤ (finish i) tmr || special)

unfoldable pub free_machine : Menu → (ℕ → ℤ) → ℤ → ℕ → (ℕ → Bool) → Option ℕ × (ℕ → Bool)
free_machine menu finish tmr number special =
    free_from menu.n number 0 (machine_is_free menu finish tmr) special

unfoldable pub wake_machine : Option ℕ → Parlour → Parlour
wake_machine none c = c
wake_machine (some i) c = record c { machines = post c.machines i }

abbrev pub nth_free : Menu → Parlour → ℕ → (ℕ → Bool) → Option ℕ × (ℕ → Bool)
nth_free menu c number special = free_machine menu c.finish_time_order c.tmr number special

-- The free machines are linked, and the first is woken.
unfoldable pub wake_machines : Menu → Parlour → Option Parlour
wake_machines menu c =
    let r = nth_free menu c 1 c.special_flag in
    and_then (link_baristas menu.n (nth_free menu c) 2 r.0 r.1 c.wake_up_index)
      (λ (x : (ℕ → Bool) × (ℕ → Option ℕ)).
        some (wake_machine r.0 (record c { special_flag = x.0; wake_up_index = x.1 })))

unfoldable pub order_comp_machine : (ℕ → ℤ) → ℤ → ℕ → ℕ → Option ℕ
order_comp_machine finish tmr number n = nth_from n number 0 (λ i. eqb_ℤ (finish i) tmr)

unfoldable pub wake_order : Option ℕ → Parlour → Parlour
wake_order none c = c
wake_order (some i) c = record c { order_comp = post c.order_comp i }

abbrev pub nth_done : ℕ → Parlour → ℕ → Option ℕ
nth_done n c number = order_comp_machine c.finish_time_order c.tmr number n

-- The machines whose order is ready in this second are linked, and the first is woken.
unfoldable pub wake_orders : ℕ → Parlour → Option Parlour
wake_orders n c =
    and_then (link_customers n (nth_done n c) 2 (nth_done n c 1) c.wake_up_order_comp)
      (λ (wake : ℕ → Option ℕ).
        some (wake_order (nth_done n c 1) (record c { wake_up_order_comp = wake })))

-- After `sem_wait(&machine_lock)`, to the call of `sleep`.
unfoldable pub main_second : Menu → ℕ → Parlour → Option Parlour
main_second menu cust_cnt c =
    and_then (admit_customers cust_cnt (record c { machine_lock = c.machine_lock - 1 }))
      (λ (c₁ : Parlour). and_then (wake_machines menu (start_machines menu c₁)) (λ (c₂ : Parlour).
        and_then (wake_orders menu.n c₂)
          (λ (c₃ : Parlour). some (record c₃ { main_sleeps = true }))))

-- After `sleep`.
pub main_ticks : Parlour → Parlour
main_ticks c = record c { tmr = c.tmr +ℤ pos 1; main_sleeps = false }

-- After the loop: every thread that may still wait is woken.
pub main_closes : Menu → ℕ → Parlour → Parlour
main_closes menu cust_cnt c =
    let r = ingredient_exhausted_checker menu.t c in
    let c₁ = r.1 in
    record c₁ {
      some_ing_exh = c.some_ing_exh || (r.0 && leb_ℤ c.tmr (last_second menu));
      close_sig = true;
      machines =
          post_each menu.n 0 (λ i. leb_ℤ c.tmr (menu.machine_start i))
            (post_each menu.n 0 (λ i. true) c.machines);
      order_comp = post_each menu.n 0 (λ i. leb_ℤ c.tmr (c.finish_time_order i)) c.order_comp;
      rej_customers =
          post_each cust_cnt 1 (λ i. not (c.cust i).order_completion_status) c.rej_customers;
      customers = post_each cust_cnt 1 (λ i. leb_ℤ c.tmr (c.cust i).cust_arrival) c.customers;
    }
