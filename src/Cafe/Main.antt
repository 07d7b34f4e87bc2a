-- ===== src/Cafe/Main.antt =====
-- concurrency/1.c: the main thread, second by second.
pub mod Frame
pub mod Seconds
pub mod Admission
use cow_pbs_cofee_cafe_icecr.Base.{
  ℕ, zero, suc, ◌+◌, ◌-◌, ◌≡◌, Bool, true, false, Option, none, some, ℤ, pos, ◌+ℤ◌, eqb_ℤ,
  if◌then◌else◌, update,
}
use cow_pbs_cofee_cafe_icecr.Cafe.Defs.{Customer, Cafe}
use cow_pbs_cofee_cafe_icecr.Cafe.Arrivals.{to_enter_customer}
use cow_pbs_cofee_cafe_icecr.Cafe.Links.{link_customers}
use cow_pbs_cofee_cafe_icecr.Cafe.Baristas.{free_barista, link_baristas}
use cow_pbs_cofee_cafe_icecr.Cafe.Threads.{post}

-- `customer_remaining`, for the `n` customers from `i` on.
pub remaining_from : ℕ → ℕ → (ℕ → Customer) → Bool
remaining_from zero i cust = false
remaining_from (suc n) i cust =
    if (cust i).order_completion_status then remaining_from n (i + 1) cust else true

pub customer_remaining : ℕ → (ℕ → Customer) → Bool
customer_remaining n cust = remaining_from n 1 cust

pub wake_customer : Option ℕ → Cafe → Cafe
wake_customer none c = record c { machine_lock = c.machine_lock + 1 }
wake_customer (some i) c = record c { customers = post c.customers i }

abbrev pub nth_arrival : ℕ → Cafe → ℕ → Option ℕ
nth_arrival n c number = to_enter_customer c.cust c.tmr number n

pub admit_linked : Option ℕ → Option (ℕ → Option ℕ) → Cafe → Option Cafe
admit_linked first none c = none
admit_linked first (some wake) c =
    some (wake_customer first (record c { wake_up_index_cust = wake }))

-- The customers who arrive in this second are linked, and the first is woken.
pub admit_customers : ℕ → Cafe → Option Cafe
admit_customers n c =
    admit_linked (nth_arrival n c 1)
      (link_customers n (nth_arrival n c) 2 (nth_arrival n c 1) c.wake_up_index_cust) c

pub wake_barista : Option ℕ → Cafe → Cafe
wake_barista none c = c
wake_barista (some i) c = record c { baristas = post c.baristas i }

abbrev pub nth_free : ℕ → Cafe → ℕ → (ℕ → Bool) → Option ℕ × (ℕ → Bool)
nth_free b c number special = free_barista c.finish_time_order c.tmr number b special

pub wake_linked : Option ℕ → Option ((ℕ → Bool) × (ℕ → Option ℕ)) → Cafe → Option Cafe
wake_linked first none c = none
wake_linked first (some (special, wake)) c =
    some (wake_barista first (record c { special_flag = special; wake_up_index = wake }))

-- The free baristas are linked, and the first is woken.
pub wake_baristas : ℕ → Cafe → Option Cafe
wake_baristas b c =
    let r = nth_free b c 1 c.special_flag in
    wake_linked r.0 (link_baristas b (nth_free b c) 2 r.0 r.1 c.wake_up_index) c

-- A `for` loop that posts the semaphores whose number passes the test.
unfoldable pub post_each : ℕ → ℕ → (ℕ → Bool) → (ℕ → ℕ) → ℕ → ℕ
post_each zero i test sem = sem
post_each (suc n) i test sem = post_each n (i + 1) test (if test i then post sem i else sem)

-- The coffees that are ready in this second, then the customers whose patience ends in it.
pub post_times : ℕ → ℕ → Cafe → Cafe
post_times b n c = record c {
  order_comp = post_each b 0 (λ i. eqb_ℤ (c.finish_time_order i) c.tmr) c.order_comp;
  customers = post_each n 1 (λ i. eqb_ℤ (c.tol_time i) c.tmr) c.customers;
  main_sleeps = true;
}

pub then_sleep : ℕ → ℕ → Option Cafe → Option Cafe
then_sleep b n none = none
then_sleep b n (some c) = some (post_times b n c)

pub then_wake : ℕ → ℕ → Option Cafe → Option Cafe
then_wake b n none = none
then_wake b n (some c) = then_sleep b n (wake_baristas b c)

-- After `sem_wait(&machine_lock)`, to the call of `sleep`.
pub main_second : ℕ → ℕ → Cafe → Option Cafe
main_second b n c =
    then_wake b n (admit_customers n (record c { machine_lock = c.machine_lock - 1 }))

-- After `sleep`.
pub main_ticks : Cafe → Cafe
main_ticks c = record c { tmr = c.tmr +ℤ pos 1; main_sleeps = false }

-- After the loop: the source posts `n` semaphores of baristas.
pub main_closes : ℕ → Cafe → Cafe
main_closes n c = record c { close_sig = true; baristas = post_each n 0 (λ i. true) c.baristas }
