-- ===== src/Cafe/Machine.antt =====
-- concurrency/1.c: the threads together. A step is what one thread does between two calls of
-- `sem_wait`, once the semaphore lets it pass; the threads take steps in any order.
pub mod Orders
use cow_pbs_cofee_cafe_icecr.Base.{ℕ, ◌+◌, ◌<◌, ◌≤◌, ◌≡◌, Bool, true, false, Option, none, some}
use cow_pbs_cofee_cafe_icecr.Cafe.Defs.{Menu, Cafe, ready, locking, preparing, arriving, waiting}
use cow_pbs_cofee_cafe_icecr.Cafe.Threads.{
  barista_woken, barista_looks, complete, customer_enters, customer_leaves,
}
use cow_pbs_cofee_cafe_icecr.Cafe.Main.{customer_remaining, main_second, main_ticks, main_closes}

pub data Step (menu : Menu) (c : Cafe) : Cafe → Type 0 where
  wakes :
      (i : ℕ)
      → i < menu.b
      → (c.staff i).pc ≡ ready
      → 0 < c.baristas i
      → Step menu c (barista_woken i c)
  looks :
      (i : ℕ)
      → i < menu.b
      → (c.staff i).pc ≡ locking
      → 0 < c.machine_lock
      → Step menu c (barista_looks menu i c)
  completes :
      (i order : ℕ)
      → i < menu.b
      → (c.staff i).pc ≡ preparing
      → (c.staff i).flag ≡ some order
      → 0 < c.order_comp i
      → Step menu c (complete i order c)
  enters :
      (i : ℕ)
      → 1 ≤ i
      → i ≤ menu.n
      → c.guests i ≡ arriving
      → 0 < c.customers i
      → Step menu c (customer_enters i c)
  leaves :
      (i : ℕ)
      → 1 ≤ i
      → i ≤ menu.n
      → c.guests i ≡ waiting
      → 0 < c.customers i
      → Step menu c (customer_leaves menu i c)
  starts :
      (c' : Cafe)
      → c.main_sleeps ≡ false
      → customer_remaining menu.n c.cust ≡ true
      → 0 < c.machine_lock
      → main_second menu.b menu.n c ≡ some c'
      → Step menu c c'
  ticks : c.main_sleeps ≡ true → Step menu c (main_ticks c)
  closes :
      c.main_sleeps ≡ false
      → customer_remaining menu.n c.cust ≡ false
      → Step menu c (main_closes menu.n c)

pub data Reach (menu : Menu) (c : Cafe) : Cafe → Type 0 where
  here : Reach menu c c
  next : {d e : Cafe} → Reach menu c d → Step menu d e → Reach menu c e
