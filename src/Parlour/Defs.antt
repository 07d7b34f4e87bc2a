-- ===== src/Parlour/Defs.antt =====
-- concurrency/2.c: the structures and the global variables. A semaphore is its count, an index that
-- may be -1 is an option, and a name is the list of its characters, as for the cafe.
use cow_pbs_cofee_cafe_icecr.Base.{ℕ, Bool, Option, ℤ}
use cow_pbs_cofee_cafe_icecr.Cafe.Defs.{Name}

-- `struct customernode`; the number of a customer is the index, but for `cust_no`
pub record Customer : Type 0 where
  pub cust_no : ℕ
  pub total_orders : ℕ
  pub cust_arrival : ℤ
  pub order_completion_status : Bool

-- `struct ordernode`
pub record Order : Type 0 where
  pub order_taken_status : Bool
  pub orderstatus : Bool
  pub cust_no : ℕ
  pub order_no_cust : ℕ
  pub totaltoppings : ℕ
  pub flavour : Name
  pub toppings : ℕ → Name

-- `struct arglist`, less the index of the thread and the stock: what never changes after the input
pub record Menu : Type 0 where
  pub flavour_list : ℕ → Name
  pub flavour_time : ℤ → ℤ
  pub topping_list : ℕ → Name
  pub machine_start : ℕ → ℤ
  pub machine_end : ℕ → ℤ
  pub f : ℕ
  pub t : ℕ
  pub k : ℕ
  pub n : ℕ

-- Where a machine stands: before its first `sem_wait`, at the one of its loop, at the machine lock,
-- at `order_comp`; or it has returned.
pub data MachinePc : Type 0 where
  off ready locking preparing returned : MachinePc

-- A customer is to arrive, waits on `rej_customers`, waits to collect, has left, or was inside and
-- went away when the parlour closed.
pub data CustomerPc : Type 0 where
  arriving waiting collecting left unserved : CustomerPc

-- A machine thread: its place and its local variables `cst` and `flag`.
pub record Machine : Type 0 where
  pub pc : MachinePc
  pub cst : ℕ
  pub flag : Option ℕ

pub record Parlour : Type 0 where
  pub tmr : ℤ
  pub totalorders : ℕ
  pub current_customers : ℤ
  pub returned_count : ℕ
  pub close_sig : Bool
  pub some_ing_exh : Bool
  pub ingredient_over : Bool
  pub order_list : ℕ → Order
  pub cust : ℕ → Customer
  -- topping_stock, by the index that give_index returns
  pub topping_stock : ℤ → ℤ
  pub special_flag : ℕ → Bool
  pub rejection_cust : ℕ → Bool
  pub finish_time_order : ℕ → ℤ
  pub wake_up_index : ℕ → Option ℕ
  pub wake_up_index_cust : ℕ → Option ℕ
  pub wake_up_order_comp : ℕ → Option ℕ
  pub machine_lock : ℕ
  pub machines : ℕ → ℕ
  pub customers : ℕ → ℕ
  pub rej_customers : ℕ → ℕ
  pub order_comp : ℕ → ℕ
  pub staff : ℕ → Machine
  pub guests : ℕ → CustomerPc
  -- the main thread is in `sleep(1)`
  pub main_sleeps : Bool
