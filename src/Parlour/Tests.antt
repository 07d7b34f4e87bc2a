-- ===== src/Parlour/Tests.antt =====
-- Concrete inputs of concurrency/2.c: one machine, one topping, and two customers.
use cow_pbs_cofee_cafe_icecr.Base.{
  ℕ, ◌+◌, ◌<◌, ◌≡◌, refl, arith, true, false, Option, none, some, [], ◌∷◌, ℤ, pos, ◌-ℤ◌, ◌+ℤ◌,
}
use cow_pbs_cofee_cafe_icecr.Cafe.Defs.{Name}
use cow_pbs_cofee_cafe_icecr.Cafe.Claims.{IsExclusive}
use cow_pbs_cofee_cafe_icecr.Cafe.Arrivals.{nth_from}
use cow_pbs_cofee_cafe_icecr.Cafe.Links.{link_customers}
use cow_pbs_cofee_cafe_icecr.Cafe.Names.{name_eq, index_from, give_index}
use cow_pbs_cofee_cafe_icecr.Cafe.Baristas.{free_from, link_baristas}
use cow_pbs_cofee_cafe_icecr.Parlour.Checks.{
  ingredient_exhausted_checker, ingredient_exhausted, exhausted_from, any_order_being_prepared,
  none_prepared_from, shortage_from, tindex,
}
use cow_pbs_cofee_cafe_icecr.Parlour.Defs.{Menu, Customer, Order, Parlour, locking, arriving}
use cow_pbs_cofee_cafe_icecr.Parlour.Effects.{claims, IsUsed}
use cow_pbs_cofee_cafe_icecr.Parlour.Threads.{
  machine_looks, guest_arrives, look, judge, fits, take_order, after_look, wake_next_machine,
  use_toppings, ftime,
}
use cow_pbs_cofee_cafe_icecr.Parlour.Main.{
  initial, goes_on, main_second, latest_end, admit_customers, to_enter_customer, wake_customer,
  start_machines, wake_machines, free_machine, wake_machine, wake_orders, order_comp_machine,
  wake_order,
}
use cow_pbs_cofee_cafe_icecr.Parlour.Main.Seconds.{IsSecond, main_second-IsSecond}
use cow_pbs_cofee_cafe_icecr.Parlour.Machine.{Step, second, looks, arrives, here, next}
use cow_pbs_cofee_cafe_icecr.Parlour.Machine.Laws.{Run-IsExclusive, Run-IsUsed}

abbrev names : ℕ → Name
names i = 99 ∷ []

abbrev menu : Menu
menu = record {
  flavour_list = names;
  flavour_time = λ i. pos 2;
  topping_list = names;
  machine_start = λ i. pos 0;
  machine_end = λ i. pos 9;
  f = 1;
  t = 1;
  k = 1;
  n = 1;
}

abbrev orders : ℕ → Order
orders i = record {
  order_taken_status = false;
  orderstatus = false;
  cust_no = i + 1;
  order_no_cust = 1;
  totaltoppings = 1;
  flavour = 99 ∷ [];
  toppings = names;
}

abbrev people : ℕ → Customer
people i = record {
  cust_no = i;
  total_orders = 1;
  cust_arrival = pos 0;
  order_completion_status = false;
}

abbrev stock : ℤ → ℤ
stock i = pos 1

abbrev start : Parlour
start = initial orders people stock

main_second-IsSecond_example :
    (d : Parlour) × (main_second menu 2 start ≡ some d) × IsSecond menu 2 start d
main_second-IsSecond_example = main_second-IsSecond menu 2 start

-- The first second, with what the check of the stock has set.
abbrev opened : Parlour
opened = (goes_on menu 2 start).1

abbrev some_or : Option Parlour → Parlour → Parlour
some_or none c = c
some_or (some d) c = d

abbrev after_second : Parlour
after_second = some_or (main_second menu 2 opened) start

goes_on-start : (goes_on menu 2 start).0 ≡ true
unfolding goes_on initial latest_end ingredient_exhausted_checker ingredient_exhausted
    exhausted_from any_order_being_prepared none_prepared_from
goes_on-start = refl

second_done : main_second menu 2 opened ≡ some after_second
unfolding main_second goes_on initial latest_end ingredient_exhausted_checker admit_customers
    link_customers to_enter_customer nth_from wake_customer start_machines wake_machines
    free_machine free_from link_baristas wake_machine wake_orders order_comp_machine wake_order
second_done = refl

awake : start.main_sleeps ≡ false
unfolding initial
awake = refl

unlocked : 0 < start.machine_lock
unfolding initial
unlocked = omega arith

still_open : start.close_sig ≡ false
unfolding initial
still_open = refl

first_second : Step menu 2 2 start after_second
first_second = second after_second awake still_open goes_on-start unlocked second_done

guest_1 : (after_second.guests 1 ≡ arriving) × (0 < after_second.customers 1)
unfolding main_second goes_on initial latest_end ingredient_exhausted_checker admit_customers
    link_customers to_enter_customer nth_from wake_customer start_machines wake_machines
    free_machine free_from link_baristas wake_machine wake_orders order_comp_machine wake_order
guest_1 = (refl, omega arith)

guest_1-arrives : Step menu 2 2 after_second (guest_arrives menu 1 after_second)
guest_1-arrives = arrives 1 (omega arith) guest_1.0 guest_1.1

Run-IsExclusive_example : IsExclusive (claims (guest_arrives menu 1 after_second))
Run-IsExclusive_example =
    Run-IsExclusive orders people stock (next (next here first_second) guest_1-arrives)

-- A machine at the lock, with an order to look at.
abbrev at_lock : Parlour
at_lock = record start {
  totalorders = 1;
  machine_lock = 1;
  staff = λ i. record { pc = locking; cst = 0; flag = none };
}

at_lock-looks : Step menu 2 2 at_lock (machine_looks menu 0 at_lock)
at_lock-looks = looks 0 (omega arith) refl (omega arith)

Run-IsUsed_example : IsUsed at_lock.topping_stock (machine_looks menu 0 at_lock).topping_stock
Run-IsUsed_example = Run-IsUsed (next here at_lock-looks)

-- The machine takes the only topping there is.
topping_taken : (machine_looks menu 0 at_lock).topping_stock (pos 0) ≡ pos 0
unfolding machine_looks look judge fits take_order after_look wake_next_machine use_toppings ftime
    initial shortage_from tindex give_index index_from name_eq ◌-ℤ◌ ◌+ℤ◌
topping_taken = refl
