-- ===== src/Cafe/Main/Admission.antt =====
-- concurrency/1.c: the customers who arrive in a second, linked by `main`.
use cow_pbs_cofee_cafe_icecr.Base.{
  ℕ, ◌+◌, ◌≡◌, refl, arith, Bool, Option, none, some, sym, ap, subst,
}
use cow_pbs_cofee_cafe_icecr.Cafe.Defs.{Cafe}
use cow_pbs_cofee_cafe_icecr.Cafe.Arrivals.{
  arrives, to_enter_customer, first_from, IsFirst, first_from-IsFirst, nth_from-suc, first_from-eq,
}
use cow_pbs_cofee_cafe_icecr.Cafe.Links.{
  link_customers, IsLinked, IsLinked-start, IsLinked-none, IsChain, link-IsLinked,
}
use cow_pbs_cofee_cafe_icecr.Cafe.Threads.{post}
use cow_pbs_cofee_cafe_icecr.Cafe.Main.{admit_customers, admit_linked, nth_arrival, wake_customer}

-- The first customer is woken, or with none the lock is released.
abbrev pub IsWoken : Option ℕ → Cafe → Cafe → Type 0
IsWoken none c d = (d.machine_lock ≡ c.machine_lock + 1) × (d.customers ≡ c.customers)
IsWoken (some i) c d = (d.machine_lock ≡ c.machine_lock) × (d.customers ≡ post c.customers i)

abbrev pub arriving_now : Cafe → ℕ → Bool
arriving_now c = arrives c.cust c.tmr

pub record IsAdmitted (n : ℕ) (c d : Cafe) : Type 0 where
  pub linked : IsLinked (n + 1) 1 (arriving_now c) c.wake_up_index_cust d.wake_up_index_cust
  pub woken : IsWoken (first_from (n + 1) 1 (arriving_now c)) c d

nth_arrival-first : (n : ℕ) (c : Cafe) → nth_arrival n c 1 ≡ first_from (n + 1) 1 (arriving_now c)
unfolding to_enter_customer
nth_arrival-first n c = first_from-eq n 1 (n + 1) (arriving_now c) (omega arith)

nth_arrival-IsChain : (n : ℕ) (c : Cafe) → IsChain (nth_arrival n c) (n + 1) (arriving_now c)
unfolding to_enter_customer
nth_arrival-IsChain n c m h = nth_from-suc n m 1 (n + 1) (arriving_now c) h (omega arith)

admit_linked-IsAdmitted :
    (n : ℕ) (c : Cafe) (o : Option ℕ)
    → nth_arrival n c 1 ≡ o
    → first_from (n + 1) 1 (arriving_now c) ≡ o
    → (d : Cafe) × (admit_linked o (link_customers n (nth_arrival n c) 2 o c.wake_up_index_cust) c
        ≡ some d)
      × IsAdmitted n c d
unfolding admit_linked link_customers wake_customer
admit_linked-IsAdmitted n c none e g =
    let f : IsFirst (n + 1) 1 (arriving_now c) none =
      subst (IsFirst (n + 1) 1 (arriving_now c)) g
        (first_from-IsFirst (n + 1) 1 (arriving_now c) (omega arith)) in
    let d = wake_customer none (record c { wake_up_index_cust = c.wake_up_index_cust }) in
    (
      d,
      refl,
      record {
        linked = IsLinked-none (n + 1) 1 (arriving_now c) c.wake_up_index_cust f;
        woken = subst (λ o. IsWoken o c d) (sym g) (refl, refl);
      },
    )
admit_linked-IsAdmitted n c (some i) e g =
    let f : IsFirst (n + 1) 1 (arriving_now c) (some i) =
      subst (IsFirst (n + 1) 1 (arriving_now c)) g
        (first_from-IsFirst (n + 1) 1 (arriving_now c) (omega arith)) in
    let (w, q, l) =
      link-IsLinked n (n + 1) (arriving_now c) (nth_arrival n c) (nth_arrival-IsChain n c) 1 i
        (omega arith) e f.1 (omega (arith, f.0)) f.2 c.wake_up_index_cust in
    let d = wake_customer (some i) (record c { wake_up_index_cust = w }) in
    (
      d,
      ap (λ r. admit_linked (some i) r c) q,
      record {
        linked = IsLinked-start (n + 1) 1 i (arriving_now c) c.wake_up_index_cust w f l;
        woken = subst (λ o. IsWoken o c d) (sym g) (refl, refl);
      },
    )

-- The loops of `main` that admit customers end within as many rounds as there are customers. Then
-- every customer who arrives in this second names the next who does, the last of them none, and no
-- other entry of wake_up_index_cust is changed; the first of them is woken, or with none the
-- machine lock is released.
pub admit_customers-IsAdmitted :
    (n : ℕ) (c : Cafe) → (d : Cafe) × (admit_customers n c ≡ some d) × IsAdmitted n c d
unfolding admit_customers
admit_customers-IsAdmitted n c =
    admit_linked-IsAdmitted n c (nth_arrival n c 1) refl (sym (nth_arrival-first n c))
