-- ===== src/Cafe/Tests.antt =====
-- Concrete inputs of concurrency/1.c: two baristas and three customers, two of whom arrive at once.
use cow_pbs_cofee_cafe_icecr.Base.{
  ℕ, ◌+◌, ◌≡◌, refl, arith, Bool, true, false, none, some, [], ◌∷◌, ℤ, pos, negsuc, ◌==◌,
  if◌then◌else◌,
}
use cow_pbs_cofee_cafe_icecr.Cafe.Defs.{Name, Menu, Cafe, ready, arriving}
use cow_pbs_cofee_cafe_icecr.Cafe.Claims.{IsExclusive}
use cow_pbs_cofee_cafe_icecr.Cafe.Baristas.{is_idle, free_from, free_barista}
use cow_pbs_cofee_cafe_icecr.Cafe.Threads.{barista_woken, react, proceed, barista_looks}
use cow_pbs_cofee_cafe_icecr.Cafe.Threads.Orders.{claims}
use cow_pbs_cofee_cafe_icecr.Cafe.Main.Frame.{IsSame}
use cow_pbs_cofee_cafe_icecr.Cafe.Main.Seconds.{main_second-ends}
use cow_pbs_cofee_cafe_icecr.Cafe.Main.{main_second, admit_customers}
use cow_pbs_cofee_cafe_icecr.Cafe.Main.Admission.{IsAdmitted, admit_customers-IsAdmitted}
use cow_pbs_cofee_cafe_icecr.Cafe.Machine.{Step, wakes, looks, here, next}
use cow_pbs_cofee_cafe_icecr.Cafe.Machine.Orders.{Reach-IsExclusive}

abbrev names : ℕ → Name
names i = if i == 0 then 101 ∷ [] else 99 ∷ 97 ∷ []

abbrev menu : Menu
menu = record { cofee_list = names; cofee_time = λ i. pos 3; b = 2; k = 2; n = 3 }

-- Customers 1 and 3 arrive at second 0, customer 2 at second 1. Barista 0 has a coin in its
-- semaphore.
abbrev opening : Cafe
opening = record {
  tmr = pos 0;
  totalorders = 2;
  coffee_wasted = pos 0;
  wait_time = pos 0;
  close_sig = false;
  order_list = λ i. record {
    order_taken_status = false;
    orderstatus = false;
    cust_no = i + 1;
    cofee = 99 ∷ 97 ∷ [];
  };
  cust = λ i. record {
    tol_time = pos 5;
    cust_arrival = if i == 2 then pos 1 else pos 0;
    order_completion_status = false;
  };
  special_flag = λ i. false;
  finish_time_order = λ i. negsuc 0;
  tol_time = λ i. negsuc 0;
  wake_up_index = λ i. none;
  wake_up_index_cust = λ i. none;
  machine_lock = 1;
  baristas = λ i. 1;
  customers = λ i. 0;
  order_comp = λ i. 0;
  staff = λ i. record { pc = ready; cst = 0; flag = none };
  guests = λ i. arriving;
  main_sleeps = false;
}

admit_customers-IsAdmitted_example :
    (d : Cafe) × (admit_customers 3 opening ≡ some d) × IsAdmitted 3 opening d
admit_customers-IsAdmitted_example = admit_customers-IsAdmitted 3 opening

-- Barista 0 is busy to second 5 and has just taken an order.
abbrev busy : ℕ → ℤ
busy i = if i == 0 then pos 5 else negsuc 0

abbrev flagged : ℕ → Bool
flagged i = i == 0

first_found : (free_barista busy (pos 1) 1 3 flagged).0 ≡ some 0
unfolding free_barista free_from is_idle
first_found = refl

opening-wakes : Step menu opening (barista_woken 0 opening)
opening-wakes = wakes 0 (omega arith) refl (omega arith)

opening-looks : Step menu (barista_woken 0 opening) (barista_looks menu 0 (barista_woken 0 opening))
unfolding barista_woken react proceed
opening-looks = looks 0 (omega arith) refl (omega arith)

Reach-IsExclusive_example : IsExclusive (claims (barista_looks menu 0 (barista_woken 0 opening)))
Reach-IsExclusive_example =
    Reach-IsExclusive (λ i. refl) (next (next here opening-wakes) opening-looks)

abbrev second_round : Cafe
second_round = record opening {
  order_list = λ i. record (opening.order_list i) { order_taken_status = true };
}

second_round-wakes : Step menu second_round (barista_woken 0 second_round)
second_round-wakes = wakes 0 (omega arith) refl (omega arith)

main_second-ends_example :
    (d : Cafe) × (main_second 2 3 opening ≡ some d) × IsSame opening d × (d.main_sleeps ≡ true)
main_second-ends_example = main_second-ends 2 3 opening
