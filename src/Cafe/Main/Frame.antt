-- ===== src/Cafe/Main/Frame.antt =====
-- concurrency/1.c: the main thread changes neither the orders nor what the baristas hold.
use cow_pbs_cofee_cafe_icecr.Base.{ℕ, ◌-◌, ◌≡◌, refl, Option, none, some, ◌∙◌, subst, Bool}
use cow_pbs_cofee_cafe_icecr.Cafe.Defs.{Cafe}
use cow_pbs_cofee_cafe_icecr.Cafe.Main.{
  wake_customer, admit_customers, wake_barista, wake_baristas, post_times, main_second,
  admit_linked, wake_linked, then_sleep, then_wake, main_ticks, main_closes,
}

abbrev pub IsSame : Cafe → Cafe → Type 0
IsSame c d = (d.order_list ≡ c.order_list) × (d.staff ≡ c.staff)

IsSame-all : Cafe → Option Cafe → Type 0
IsSame-all c r = (d : Cafe) → r ≡ some d → IsSame c d

wake_customer-IsSame : (o : Option ℕ) (c : Cafe) → IsSame c (wake_customer o c)
unfolding wake_customer
wake_customer-IsSame none c = (refl, refl)
wake_customer-IsSame (some i) c = (refl, refl)

wake_barista-IsSame : (o : Option ℕ) (c : Cafe) → IsSame c (wake_barista o c)
unfolding wake_barista
wake_barista-IsSame none c = (refl, refl)
wake_barista-IsSame (some i) c = (refl, refl)

post_times-IsSame : (b n : ℕ) (c d : Cafe) → IsSame c d → IsSame c (post_times b n d)
unfolding post_times
post_times-IsSame b n c d s = s

some-IsSame :
    (c : Cafe) {d e : Cafe} → IsSame c d → ◌≡◌ {A = Option Cafe} (some d) (some e) → IsSame c e
some-IsSame c {d} {e} s q = subst (IsSame c) {x = d} {y = e} (cc q) s

IsSame-trans : (c d e : Cafe) → IsSame c d → IsSame d e → IsSame c e
IsSame-trans c d e (a, b) (x, y) = (x ∙ a, y ∙ b)

admit_linked-IsSame :
    (o : Option ℕ) (r : Option (ℕ → Option ℕ)) (c d : Cafe)
    → admit_linked o r c ≡ some d
    → IsSame c d
unfolding admit_linked
admit_linked-IsSame o none c d e = absurd (cc e)
admit_linked-IsSame o (some w) c d e =
    some-IsSame c (wake_customer-IsSame o (record c { wake_up_index_cust = w })) e

admit_customers-IsSame : (n : ℕ) (c d : Cafe) → admit_customers n c ≡ some d → IsSame c d
unfolding admit_customers
admit_customers-IsSame n c d e = admit_linked-IsSame _ _ c d e

wake_linked-IsSame :
    (o : Option ℕ) (r : Option ((ℕ → Bool) × (ℕ → Option ℕ))) (c d : Cafe)
    → wake_linked o r c ≡ some d
    → IsSame c d
unfolding wake_linked
wake_linked-IsSame o none c d e = absurd (cc e)
wake_linked-IsSame o (some (s, w)) c d e =
    some-IsSame c (wake_barista-IsSame o (record c { special_flag = s; wake_up_index = w })) e

wake_baristas-IsSame : (b : ℕ) (c d : Cafe) → wake_baristas b c ≡ some d → IsSame c d
unfolding wake_baristas
wake_baristas-IsSame b c d e = wake_linked-IsSame _ _ c d e

then_sleep-IsSame :
    (b n : ℕ) (c : Cafe) (o : Option Cafe)
    → ((d : Cafe) → o ≡ some d → IsSame c d)
    → (e : Cafe) → then_sleep b n o ≡ some e
    → IsSame c e
unfolding then_sleep
then_sleep-IsSame b n c none h e q = absurd (cc q)
then_sleep-IsSame b n c (some d) h e q = some-IsSame c (post_times-IsSame b n c d (h d refl)) q

then_wake-IsSame :
    (b n : ℕ) (c : Cafe) (o : Option Cafe)
    → ((d : Cafe) → o ≡ some d → IsSame c d)
    → (e : Cafe) → then_wake b n o ≡ some e
    → IsSame c e
unfolding then_wake
then_wake-IsSame b n c none h e q = absurd (cc q)
then_wake-IsSame b n c (some d) h e q =
    then_sleep-IsSame b n c (wake_baristas b d)
      (λ d' r. IsSame-trans c d d' (h d refl) (wake_baristas-IsSame b d d' r)) e q

pub main_second-IsSame : (b n : ℕ) (c d : Cafe) → main_second b n c ≡ some d → IsSame c d
unfolding main_second
main_second-IsSame b n c d q =
    then_wake-IsSame b n c _
      (λ d' r. admit_customers-IsSame n (record c { machine_lock = c.machine_lock - 1 }) d' r) d q

pub main_ticks-IsSame : (c : Cafe) → IsSame c (main_ticks c)
unfolding main_ticks
main_ticks-IsSame c = (refl, refl)

pub main_closes-IsSame : (n : ℕ) (c : Cafe) → IsSame c (main_closes n c)
unfolding main_closes
main_closes-IsSame n c = (refl, refl)
