-- ===== src/Parlour/Machine.antt =====
-- concurrency/2.c: the threads together. A step is what one thread does between two calls of
-- `sem_wait`, once the semaphore lets it pass; the threads take steps in any order.
pub mod Laws
use cow_pbs_cofee_cafe_icecr.Base.{ℕ, ◌<◌, ◌≤◌, ◌≡◌, true, false, some}
use cow_pbs_cofee_cafe_icecr.Parlour.Defs.{
  Menu, Parlour, off, ready, locking, preparing, arriving, waiting, collecting,
}
use cow_pbs_cofee_cafe_icecr.Parlour.Threads.{
  machine_starts, machine_woken, machine_looks, machine_completes, guest_arrives, guest_called,
  guest_collects,
}
use cow_pbs_cofee_cafe_icecr.Parlour.Main.{goes_on, main_second, main_ticks, main_closes}

-- A guest is one of the customers of the input.
abbrev pub IsGuest : ℕ → ℕ → Type 0
IsGuest cust_cnt i = (1 ≤ i) × (i ≤ cust_cnt)

pub data Step (menu : Menu) (cust_cnt order_cnt : ℕ) (c : Parlour) : Parlour → Type 0 where
  starts :
      (i : ℕ)
      → i < menu.n
      → (c.staff i).pc ≡ off
      → 0 < c.machines i
      → Step menu cust_cnt order_cnt c (machine_starts i c)
  wakes :
      (i : ℕ)
      → i < menu.n
      → (c.staff i).pc ≡ ready
      → 0 < c.machines i
      → Step menu cust_cnt order_cnt c (machine_woken i c)
  looks :
      (i : ℕ)
      → i < menu.n
      → (c.staff i).pc ≡ locking
      → 0 < c.machine_lock
      → Step menu cust_cnt order_cnt c (machine_looks menu i c)
  completes :
      (i order : ℕ)
      → i < menu.n
      → (c.staff i).pc ≡ preparing
      → (c.staff i).flag ≡ some order
      → 0 < c.order_comp i
      → Step menu cust_cnt order_cnt c (machine_completes i order c)
  arrives :
      (i : ℕ)
      → IsGuest cust_cnt i
      → c.guests i ≡ arriving
      → 0 < c.customers i
      → Step menu cust_cnt order_cnt c (guest_arrives menu i c)
  called :
      (i : ℕ)
      → IsGuest cust_cnt i
      → c.guests i ≡ waiting
      → 0 < c.rej_customers i
      → Step menu cust_cnt order_cnt c (guest_called i c)
  collects :
      (i : ℕ)
      → IsGuest cust_cnt i
      → c.guests i ≡ collecting
      → 0 < c.customers i
      → Step menu cust_cnt order_cnt c (guest_collects i c)
  second :
      (d : Parlour)
      → c.main_sleeps ≡ false
      → c.close_sig ≡ false
      → (goes_on menu order_cnt c).0 ≡ true
      → 0 < c.machine_lock
      → main_second menu cust_cnt (goes_on menu order_cnt c).1 ≡ some d
      → Step menu cust_cnt order_cnt c d
  ticks : c.main_sleeps ≡ true → Step menu cust_cnt order_cnt c (main_ticks c)
  closes :
      c.main_sleeps ≡ false
      → c.close_sig ≡ false
      → (goes_on menu order_cnt c).0 ≡ false
      → Step menu cust_cnt order_cnt c (main_closes menu cust_cnt (goes_on menu order_cnt c).1)

pub data Run (menu : Menu) (cust_cnt order_cnt : ℕ) (c : Parlour) : Parlour → Type 0 where
  here : Run menu cust_cnt order_cnt c c
  next :
      {d e : Parlour}
      → Run menu cust_cnt order_cnt c d
      → Step menu cust_cnt order_cnt d e
      → Run menu cust_cnt order_cnt c e
