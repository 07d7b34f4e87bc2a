-- ===== src/Cafe/Defs.antt =====
-- concurrency/1.c: the structures, the global variables and the menu. A semaphore is its count, an
-- index that may be -1 is an option, and a name is the list of its characters.
use cow_pbs_cofee_cafe_icecr.Base.{ℕ, Bool, List, Option, ℤ}

abbrev pub Name : Type 0
Name = List ℕ

-- `struct customernode`
pub record Customer : Type 0 where
  pub tol_time : ℤ
  pub cust_arrival : ℤ
  pub order_completion_status : Bool

-- `struct ordernode`
pub record Order : Type 0 where
  pub order_taken_status : Bool
  pub orderstatus : Bool
  pub cust_no : ℕ
  pub cofee : Name

-- `struct arglist`, less the index of the thread: what is read from the input and never changes
pub record Menu : Type 0 where
  pub cofee_list : ℕ → Name
  pub cofee_time : ℤ → ℤ
  pub b : ℕ
  pub k : ℕ
  pub n : ℕ

-- Where a barista stands: before `sem_wait` on its own semaphore, on `machine_lock`, or on
-- `order_comp`; or it has returned.
pub data BaristaPc : Type 0 where
  ready locking preparing returned : BaristaPc

-- A customer waits to enter, waits for the order, or has left.
pub data CustomerPc : Type 0 where
  arriving waiting left : CustomerPc

-- A barista thread: its place and its local variables `cst` and `flag`.
pub record Barista : Type 0 where
  pub pc : BaristaPc
  pub cst : ℕ
  pub flag : Option ℕ

pub record Cafe : Type 0 where
  pub tmr : ℤ
  pub totalorders : ℕ
  pub coffee_wasted : ℤ
  pub wait_time : ℤ
  pub close_sig : Bool
  pub order_list : ℕ → Order
  pub cust : ℕ → Customer
  pub special_flag : ℕ → Bool
  pub finish_time_order : ℕ → ℤ
  pub tol_time : ℕ → ℤ
  pub wake_up_index : ℕ → Option ℕ
  pub wake_up_index_cust : ℕ → Option ℕ
  pub machine_lock : ℕ
  pub baristas : ℕ → ℕ
  pub customers : ℕ → ℕ
  pub order_comp : ℕ → ℕ
  pub staff : ℕ → Barista
  pub guests : ℕ → CustomerPc
  -- the main thread is in `sleep(1)`
  pub main_sleeps : Bool
