-- ===== src/Parlour/Threads.antt =====
-- concurrency/2.c: the machine and the customer threads. Each function is the code of one thread
-- from the return of a `sem_wait` to the call of the next.
pub mod Stock
pub mod Machines
pub mod Guests
use cow_pbs_cofee_cafe_icecr.Base.{
  ℕ, zero, suc, ◌+◌, ◌-◌, ◌≡◌, ◌==◌, Bool, true, false, ◌&&◌, ◌||◌, not, Option, none, some, ℤ, pos,
  negsuc, ◌+ℤ◌, ◌-ℤ◌, ltb_ℤ, eqb_ℤ, if◌then◌else◌, update,
}
use cow_pbs_cofee_cafe_icecr.Cafe.Names.{give_index}
use cow_pbs_cofee_cafe_icecr.Cafe.Threads.{post, wait}
use cow_pbs_cofee_cafe_icecr.Parlour.Defs.{
  Menu, Customer, Order, Machine, Parlour, MachinePc, off, ready, locking, preparing, returned,
  CustomerPc, arriving, waiting, collecting, left, unserved,
}
use cow_pbs_cofee_cafe_icecr.Parlour.Checks.{
  leb_ℤ, order_status_checker, tindex, shortage, ingreadient_checker,
}

-- The write of one entry of an array that is indexed by an `int`.
abbrev pub update_ℤ : (ℤ → ℤ) → ℤ → ℤ → ℤ → ℤ
update_ℤ f i v j = if eqb_ℤ i j then v else f j

-- `cust[order_list[order].cust_no]`
abbrev pub customer_of : Parlour → ℕ → Customer
customer_of c order = c.cust (c.order_list order).cust_no

abbrev pub is_open : Parlour → ℕ → Bool
is_open c order =
    not (customer_of c order).order_completion_status && not (c.order_list order).order_taken_status

-- A machine passes the wake-up on to the next free one.
unfoldable pub wake_next_machine : ℕ → Parlour → Parlour
wake_next_machine i c = elim (c.wake_up_index i) [
  | none ↦ c
  | some temp ↦ record c {
    wake_up_index = update c.wake_up_index i none;
    machines = post c.machines temp;
  }
]

pub wake_next_order : ℕ → Parlour → Parlour
wake_next_order i c = elim (c.wake_up_order_comp i) [
  | none ↦ c
  | some temp ↦ record c {
    wake_up_order_comp = update c.wake_up_order_comp i none;
    order_comp = post c.order_comp temp;
  }
]

-- The time that an ice cream takes.
unfoldable pub ftime : Menu → Parlour → ℕ → ℤ
ftime menu c order =
    menu.flavour_time (give_index menu.flavour_list menu.f (c.order_list order).flavour)

-- A customer who has come before or in this second, and the machine has the time left.
unfoldable pub fits : Menu → ℕ → ℕ → Parlour → Bool
fits menu i order c =
    let arrival = (customer_of c order).cust_arrival in
    let rest = menu.machine_end i -ℤ c.tmr in
    let time = ftime menu c order in
    (eqb_ℤ arrival c.tmr && leb_ℤ (time +ℤ pos 1) rest) || (ltb_ℤ arrival c.tmr && leb_ℤ time rest)

-- The toppings from `j` on are taken from the stock, `n` of them.
unfoldable pub use_toppings : ℕ → ℕ → Menu → Order → (ℤ → ℤ) → ℤ → ℤ
use_toppings zero j menu order stock = stock
use_toppings (suc n) j menu order stock =
    let x = tindex menu order j in
    use_toppings n (j + 1) menu order (
      if eqb_ℤ (stock x) (negsuc 0)
      then stock
      else if ltb_ℤ (pos 0) (stock x)
      then update_ℤ stock x (stock x -ℤ pos 1)
      else stock)

-- The source marks the first order of the list, `order_list->`, and not the one that is short.
pub reject_order : ℕ → Parlour → Parlour
reject_order order c =
    let customer = (c.order_list order).cust_no in
    record c {
      order_list =
          update c.order_list 0
            (record (c.order_list 0) { order_taken_status = true; orderstatus = true });
      rejection_cust = update c.rejection_cust customer true;
      rej_customers = post c.rej_customers customer;
    }

unfoldable pub take_order : Menu → ℕ → ℕ → Parlour → Parlour
take_order menu i cst c =
    let order = c.order_list cst in
    let now = eqb_ℤ (customer_of c cst).cust_arrival c.tmr in
    let finish = c.tmr +ℤ ftime menu c cst in
    record c {
      order_list = update c.order_list cst (record order { order_taken_status = true });
      topping_stock = use_toppings order.totaltoppings 0 menu order c.topping_stock;
      finish_time_order = update c.finish_time_order i (if now then finish +ℤ pos 1 else finish);
      special_flag = update c.special_flag i (if now then true else c.special_flag i);
      staff = update c.staff i (record (c.staff i) { flag = some cst; cst = cst + 1 });
    }

-- What the body of the `for` loop does with an order: it is not open, a topping is short, it is
-- taken, or there is no time for it.
pub data Verdict : Type 0 where
  skip reject take : Verdict

unfoldable pub judge : Menu → ℕ → ℕ → Parlour → Verdict
judge menu i cst c =
    if is_open c cst
    then (if shortage menu (c.order_list cst) c.topping_stock
        then reject
        else if fits menu i cst c
        then take
        else skip)
    else skip

-- The `for` loop with `n` orders left to look at.
unfoldable pub look : Menu → ℕ → ℕ → ℕ → Parlour → Parlour
look menu i zero cst c = record c { staff = update c.staff i (record (c.staff i) { cst = cst }) }
look menu i (suc n) cst c = elim (judge menu i cst c) [
  | skip ↦ look menu i n (cst + 1) c
  | reject ↦ look menu i n (cst + 1) (reject_order cst c)
  | take ↦ take_order menu i cst c
]

abbrev pub go_to : MachinePc → ℕ → Parlour → Parlour
go_to pc i c = record c { staff = update c.staff i (record (c.staff i) { pc = pc }) }

-- After the first `sem_wait(&machines[i])`.
pub machine_starts : ℕ → Parlour → Parlour
machine_starts i c =
    go_to (if c.close_sig then returned else ready) i (record c { machines = wait c.machines i })

abbrev pub start_preparing : ℕ → Parlour → Parlour
start_preparing i c = go_to preparing i (wake_next_machine i c)

-- A machine with no order goes for the lock, unless the ingredients are over.
pub proceed : ℕ → Option ℕ → Parlour → Parlour
proceed i none c = go_to (if c.ingredient_over then ready else locking) i c
proceed i (some order) c = start_preparing i c

pub react : ℕ → Bool → Parlour → Parlour
react i true c = go_to returned i c
react i false c = proceed i (c.staff i).flag c

-- After the `sem_wait(&machines[i])` of the loop.
pub machine_woken : ℕ → Parlour → Parlour
machine_woken i c = react i c.close_sig (record c { machines = wait c.machines i })

-- An order of a customer who came earlier is prepared at once, one of this second in the next.
unfoldable pub after_look : ℕ → Option ℕ → Parlour → Parlour
after_look i none c = go_to ready i c
after_look i (some order) c =
    if eqb_ℤ (customer_of c order).cust_arrival c.tmr then go_to ready i c else start_preparing i c

-- After `sem_wait(&machine_lock)`; the lock is released when the loop is over.
unfoldable pub machine_looks : Menu → ℕ → Parlour → Parlour
machine_looks menu i c =
    let c₁ =
      look menu i (c.totalorders - (c.staff i).cst) (c.staff i).cst (wake_next_machine i c) in
    after_look i (c₁.staff i).flag c₁

-- The customer of a finished order is called if all its orders are done.
pub call_customer : ℕ → Bool → Parlour → Parlour
call_customer customer true c = record c {
  rej_customers = post c.rej_customers customer;
  customers = post c.customers customer;
}
call_customer customer false c = c

pub finish_order : ℕ → ℕ → Parlour → Parlour
finish_order i order c =
    let c₁ = wake_next_order i (record c {
      order_list = update c.order_list order (record (c.order_list order) { orderstatus = true });
    }) in
    let customer = (c₁.order_list order).cust_no in
    let c₂ = call_customer customer (order_status_checker c₁ customer) c₁ in
    record c₂ { staff = update c₂.staff i (record (c₂.staff i) { flag = none; pc = ready }) }

-- After `sem_wait(&order_comp[i])`.
pub machine_completes : ℕ → ℕ → Parlour → Parlour
machine_completes i order c =
    let c₁ = record c { order_comp = wait c.order_comp i } in
    if c.close_sig then go_to returned i c₁ else finish_order i order c₁

-- A customer who is done at the door wakes the next or releases the lock.
unfoldable pub admit_next : ℕ → Parlour → Parlour
admit_next i c = elim (c.wake_up_index_cust i) [
  | none ↦ record c { machine_lock = c.machine_lock + 1 }
  | some temp ↦ record c {
    wake_up_index_cust = update c.wake_up_index_cust i none;
    customers = post c.customers temp;
  }
]

abbrev pub guest_goes : CustomerPc → ℕ → Parlour → Parlour
guest_goes pc i c = record c { guests = update c.guests i pc }

abbrev pub serve : (ℕ → Customer) → ℕ → ℕ → Customer
serve cust i = update cust i (record (cust i) { order_completion_status = true })

-- The parlour is full, the stock does not do, or the customer comes in.
unfoldable pub turn_away_full : ℕ → Parlour → Parlour
turn_away_full i c =
    guest_goes left i
      (admit_next i (record c { cust = serve c.cust i; returned_count = c.returned_count + 1 }))

unfoldable pub turn_away_short : ℕ → Parlour → Parlour
turn_away_short i c = guest_goes left i (admit_next i (record c { cust = serve c.cust i }))

unfoldable pub come_in : ℕ → Parlour → Parlour
come_in i c =
    guest_goes waiting i
      (admit_next i (record c { current_customers = c.current_customers +ℤ pos 1 }))

unfoldable pub at_door : Menu → ℕ → Parlour → Parlour
at_door menu i c =
    if eqb_ℤ c.current_customers (pos menu.k)
    then turn_away_full i c
    else if eqb_ℤ (ingreadient_checker menu c (c.cust i).cust_no) (pos 1)
    then come_in i c
    else turn_away_short i c

-- After the first `sem_wait(&customers[i])`.
unfoldable pub guest_arrives : Menu → ℕ → Parlour → Parlour
guest_arrives menu i c =
    let c₁ = record c { customers = wait c.customers i } in
    if c.close_sig
    then guest_goes left i c₁
    else at_door menu i (record c₁ { totalorders = c.totalorders + (c.cust i).total_orders })

-- A customer goes, and there is room for another. The source takes no lock for the decrement, so
-- that it may race with the increment of another thread; here it is one step.
pub guest_leaves : ℕ → Parlour → Parlour
guest_leaves i c = record c {
  cust = serve c.cust i;
  current_customers = c.current_customers -ℤ pos 1;
  guests = update c.guests i left;
}

-- After `sem_wait(&rej_customers[i])`.
pub guest_called : ℕ → Parlour → Parlour
guest_called i c =
    let c₁ = record c { rej_customers = wait c.rej_customers i } in
    if c.close_sig
    then guest_goes unserved i c₁
    else if c.rejection_cust i
    then guest_leaves i c₁
    else guest_goes collecting i c₁

-- After the second `sem_wait(&customers[i])`.
pub guest_collects : ℕ → Parlour → Parlour
guest_collects i c = guest_leaves i (record c { customers = wait c.customers i })
