-- ===== src/Cafe/Threads.antt =====
-- concurrency/1.c: the barista and the customer threads. Each function is the code of one thread
-- from the return of a `sem_wait` to the call of the next.
pub mod Orders
use cow_pbs_cofee_cafe_icecr.Base.{
  ℕ, zero, suc, ◌+◌, ◌-◌, ◌≡◌, Bool, true, false, ◌&&◌, not, Option, none, some, ℤ, pos, negsuc,
  ◌+ℤ◌, ◌-ℤ◌, if◌then◌else◌, update,
}
use cow_pbs_cofee_cafe_icecr.Cafe.Defs.{
  Menu, Customer, Order, Barista, Cafe, BaristaPc, ready, locking, preparing, returned, CustomerPc,
  arriving, waiting, left,
}
use cow_pbs_cofee_cafe_icecr.Cafe.Names.{give_index}

abbrev pub post : (ℕ → ℕ) → ℕ → ℕ → ℕ
post sem i = update sem i (sem i + 1)

abbrev pub wait : (ℕ → ℕ) → ℕ → ℕ → ℕ
wait sem i = update sem i (sem i - 1)

-- `order_completion_status` of the customer of an order
abbrev pub is_served : Cafe → ℕ → Bool
is_served c order = (c.cust (c.order_list order).cust_no).order_completion_status

abbrev pub serve : (ℕ → Customer) → ℕ → ℕ → Customer
serve cust i = update cust i (record (cust i) { order_completion_status = true })

-- The order is nobody's yet, and its customer is still there.
abbrev pub is_open : Cafe → ℕ → Bool
is_open c order = not (is_served c order) && not (c.order_list order).order_taken_status

-- A barista passes the wake-up on to the next free one.
pub wake_next_barista : ℕ → Cafe → Cafe
wake_next_barista i c = elim (c.wake_up_index i) [
  | none ↦ c
  | some temp ↦ record c {
    wake_up_index = update c.wake_up_index i none;
    baristas = post c.baristas temp;
  }
]

-- The time that a coffee takes.
pub ftime : Menu → Cafe → ℕ → ℤ
ftime menu c order = menu.cofee_time (give_index menu.cofee_list menu.k (c.order_list order).cofee)

pub take_order : Menu → ℕ → ℕ → Cafe → Cafe
take_order menu i cst c = record c {
  order_list = update c.order_list cst (record (c.order_list cst) { order_taken_status = true });
  finish_time_order = update c.finish_time_order i (c.tmr +ℤ ftime menu c cst +ℤ pos 1);
  special_flag = update c.special_flag i true;
  staff = update c.staff i (record (c.staff i) { flag = some cst; cst = cst + 1 });
}

-- The `for` loop with `n` orders left to look at.
pub look : Menu → ℕ → ℕ → ℕ → Cafe → Cafe
look menu i zero cst c = record c { staff = update c.staff i (record (c.staff i) { cst = cst }) }
look menu i (suc n) cst c = elim (is_open c cst) [
  | true ↦ take_order menu i cst c
  | false ↦ look menu i n (cst + 1) c
]

abbrev pub go_to : BaristaPc → ℕ → Cafe → Cafe
go_to pc i c = record c { staff = update c.staff i (record (c.staff i) { pc = pc }) }

-- A barista with an order starts to prepare it, unless the customer has left.
pub start_preparing : ℕ → ℕ → Cafe → Cafe
start_preparing i order c =
    if is_served c order
    then record c {
      finish_time_order = update c.finish_time_order i (negsuc 0);
      staff = update c.staff i (record (c.staff i) { flag = none });
    }
    else go_to preparing i c

unfoldable pub proceed : ℕ → Option ℕ → Cafe → Cafe
proceed i none c = go_to locking i c
proceed i (some order) c = start_preparing i order (wake_next_barista i c)

-- A barista returns once the cafe is closed.
unfoldable pub react : ℕ → Bool → Cafe → Cafe
react i true c = go_to returned i c
react i false c = proceed i (c.staff i).flag c

-- After `sem_wait(&baristas[i])`.
unfoldable pub barista_woken : ℕ → Cafe → Cafe
barista_woken i c = react i c.close_sig (record c { baristas = wait c.baristas i })

-- After `sem_wait(&machine_lock)`, to the release of the lock.
pub barista_looks : Menu → ℕ → Cafe → Cafe
barista_looks menu i c =
    go_to ready i
      (look menu i (c.totalorders - (c.staff i).cst) (c.staff i).cst (wake_next_barista i c))

-- After `sem_wait(&order_comp[i])`.
pub complete : ℕ → ℕ → Cafe → Cafe
complete i order c =
    let customer = (c.order_list order).cust_no in
    record c {
      order_comp = wait c.order_comp i;
      order_list = update c.order_list order (record (c.order_list order) { orderstatus = true });
      coffee_wasted = if is_served c order then c.coffee_wasted +ℤ pos 1 else c.coffee_wasted;
      cust = serve c.cust customer;
      customers = post c.customers customer;
      staff = update c.staff i (record (c.staff i) { flag = none; pc = ready });
    }

-- A customer comes in, and wakes the next or releases the lock.
pub admit_next : ℕ → Cafe → Cafe
admit_next i c = elim (c.wake_up_index_cust i) [
  | none ↦ record c { machine_lock = c.machine_lock + 1 }
  | some temp ↦ record c {
    wake_up_index_cust = update c.wake_up_index_cust i none;
    customers = post c.customers temp;
  }
]

-- After the first `sem_wait(&customers[i])`.
pub customer_enters : ℕ → Cafe → Cafe
customer_enters i c =
    let c₁ =
      admit_next i (record c { customers = wait c.customers i; totalorders = c.totalorders + 1 }) in
    record c₁ {
      tol_time = update c₁.tol_time i ((c₁.cust i).cust_arrival +ℤ (c₁.cust i).tol_time +ℤ pos 1);
      guests = update c₁.guests i waiting;
    }

-- After the second `sem_wait(&customers[i])`.
pub customer_leaves : Menu → ℕ → Cafe → Cafe
customer_leaves menu i c =
    let c₁ = record c { customers = wait c.customers i; guests = update c.guests i left } in
    if (c.cust i).order_completion_status
    then record c₁ {
      wait_time = c.wait_time +ℤ (c.tmr -ℤ (c.cust i).cust_arrival -ℤ ftime menu c (i - 1));
    }
    else record c₁ {
      wait_time = c.wait_time +ℤ ((c.cust i).tol_time +ℤ pos 1);
      cust = serve c.cust i;
    }
