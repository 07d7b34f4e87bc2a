-- ===== src/Cafe/Threads/Orders.antt =====
-- concurrency/1.c: what each thread does to the orders that the baristas hold.
use cow_pbs_cofee_cafe_icecr.Base.{
  ℕ, zero, suc, ◌+◌, ◌≡◌, ◌⊎◌, inl, inr, refl, arith, Bool, true, false, ◌&&◌, not, Option, none,
  some, update, update_self, update_other, Bool-cases, Option-cases, ℕ_discrete, ◌∙◌, ap, sym,
}
use cow_pbs_cofee_cafe_icecr.Cafe.Claims.{Claims}
use cow_pbs_cofee_cafe_icecr.Cafe.Claims as Claims
use cow_pbs_cofee_cafe_icecr.Cafe.Defs.{
  Menu, Order, Barista, BaristaPc, Cafe, ready, locking, preparing, returned,
}
use cow_pbs_cofee_cafe_icecr.Cafe.Threads.{
  is_open, is_served, wake_next_barista, take_order, look, start_preparing, proceed, react,
  barista_woken, barista_looks, complete, admit_next, customer_enters, customer_leaves, go_to, wait,
}

-- The order that a barista holds.
abbrev pub held : Cafe → ℕ → Option ℕ
held c i = (c.staff i).flag

abbrev pub is_taken : Cafe → ℕ → Bool
is_taken c order = (c.order_list order).order_taken_status

abbrev pub claims : Cafe → Claims
claims c = record { is_taken = is_taken c; held = held c }

-- What barista `i` may change.
unfoldable pub IsFair : ℕ → Cafe → Cafe → Type 0
IsFair i c d = Claims.IsFair i (claims c) (claims d)

pub IsFair-same :
    (i : ℕ) (c d : Cafe) → d.order_list ≡ c.order_list → d.staff ≡ c.staff → IsFair i c d
unfolding IsFair
IsFair-same i c d p q = record {
  taken = λ k e. ap (λ l. (l k).order_taken_status) p ∙ e;
  own = λ k e. inl (ap (λ s. (s i).flag) (sym q) ∙ e);
  others = λ j h. ap (λ s. (s j).flag) q;
}

pub IsFair-trans : (i : ℕ) (c d e : Cafe) → IsFair i c d → IsFair i d e → IsFair i c e
unfolding IsFair
IsFair-trans i c d e f g = Claims.IsFair-trans i (claims c) (claims d) (claims e) f g

own-kept :
    {P : Type 0} (i : ℕ) (c : Cafe) (b : Barista)
    → (b.flag ≡ none) ⊎ (b.flag ≡ held c i)
    → (k : ℕ) → (update c.staff i b i).flag ≡ some k
    → (held c i ≡ some k) ⊎ P
own-kept i c b (inl e) k h = absurd (cc (e, h, ap (λ s. s.flag) (update_self c.staff i b)))
own-kept i c b (inr e) k h = inl (cc (e, h, ap (λ s. s.flag) (update_self c.staff i b)))

-- The entry of one barista is written, with the order it held or none.
pub IsFair-own :
    (i : ℕ) (c d : Cafe) (b : Barista)
    → d.order_list ≡ c.order_list
    → d.staff ≡ update c.staff i b
    → (b.flag ≡ none) ⊎ (b.flag ≡ held c i)
    → IsFair i c d
unfolding IsFair
IsFair-own i c d b p q h = record {
  taken = λ k e. ap (λ l. (l k).order_taken_status) p ∙ e;
  own = λ k e. own-kept i c b h k (ap (λ s. (s i).flag) (sym q) ∙ e);
  others = λ j n. ap (λ s. (s j).flag) q ∙ ap (λ s. s.flag) (update_other c.staff i b j n);
}

write_taken :
    (c : Cafe) (order k : ℕ) (o : Order)
    → (is_taken c order ≡ true → o.order_taken_status ≡ true)
    → is_taken c k ≡ true
    → (update c.order_list order o k).order_taken_status ≡ true
write_taken c order k o h t = elim (ℕ_discrete order k) [
  | yes q ↦
      ap (λ r. r.order_taken_status)
        (ap (update c.order_list order o) (sym q) ∙ update_self c.order_list order o)
      ∙ h (ap (is_taken c) q ∙ t)
  | no q ↦ ap (λ r. r.order_taken_status) (update_other c.order_list order o k q) ∙ t
]

take_order-taken :
    (menu : Menu) (i cst k : ℕ) (c : Cafe)
    → is_taken c cst ≡ false
    → held (take_order menu i cst c) i ≡ some k
    → (is_taken c k ≡ false) × (is_taken (take_order menu i cst c) k ≡ true)
unfolding take_order
take_order-taken menu i cst k c e h =
    let q : cst ≡ k = cc (
      ap (λ s. s.flag)
          (update_self c.staff i (record (c.staff i) { flag = some cst; cst = cst + 1 })),
      h,
    ) in
    (
      ap (is_taken c) (sym q) ∙ e,
      ap (λ r. r.order_taken_status)
          (ap (update c.order_list cst (record (c.order_list cst) { order_taken_status = true }))
              (sym q)
            ∙ update_self c.order_list cst _),
    )

take_order-IsFair :
    (menu : Menu) (i cst : ℕ) (c : Cafe)
    → is_taken c cst ≡ false
    → IsFair i c (take_order menu i cst c)
unfolding take_order IsFair
take_order-IsFair menu i cst c e = record {
  taken = λ k t. write_taken c cst k _ (λ a. refl) t;
  own = λ k h. inr (take_order-taken menu i cst k c e h);
  others = λ j n. ap (λ s. s.flag) (update_other c.staff i _ j n);
}

open-free : (a b : Bool) → (not a && not b) ≡ true → b ≡ false
open-free a b h = ground arith

is_open-free : (c : Cafe) (order : ℕ) → is_open c order ≡ true → is_taken c order ≡ false
is_open-free c order h = open-free (is_served c order) (is_taken c order) h

look-IsFair : (menu : Menu) (i n cst : ℕ) (c : Cafe) → IsFair i c (look menu i n cst c)
unfolding look
look-IsFair menu i zero cst c =
    IsFair-own i c _ (record (c.staff i) { cst = cst }) refl refl (inr refl)
look-IsFair menu i (suc n) cst c = elim (Bool-cases (is_open c cst)) [
  | inl p ↦ rw (p, look) (take_order-IsFair menu i cst c (is_open-free c cst p))
  | inr p ↦ rw (p, look) (look-IsFair menu i n (cst + 1) c)
]

go_to-IsFair : (pc : BaristaPc) (i : ℕ) (c : Cafe) → IsFair i c (go_to pc i c)
go_to-IsFair pc i c = IsFair-own i c _ (record (c.staff i) { pc = pc }) refl refl (inr refl)

wake_next-IsFair : (i : ℕ) (c : Cafe) → IsFair i c (wake_next_barista i c)
unfolding wake_next_barista
wake_next-IsFair i c = elim (Option-cases (c.wake_up_index i)) [
  | inl e ↦ rw (e, wake_next_barista) (IsFair-same i c c refl refl)
  | inr (k, e) ↦ rw (e, wake_next_barista) (IsFair-same i c _ refl refl)
]

start-IsFair : (i order : ℕ) (c : Cafe) → IsFair i c (start_preparing i order c)
unfolding start_preparing
start-IsFair i order c = elim (Bool-cases (is_served c order)) [
  | inl e ↦
      rw (e, start_preparing)
        (IsFair-own i c _ (record (c.staff i) { flag = none }) refl refl (inl refl))
  | inr e ↦ rw (e, start_preparing) (go_to-IsFair preparing i c)
]

proceed-IsFair : (i : ℕ) (o : Option ℕ) (c : Cafe) → IsFair i c (proceed i o c)
unfolding proceed
proceed-IsFair i none c = go_to-IsFair locking i c
proceed-IsFair i (some order) c =
    IsFair-trans i c _ _ (wake_next-IsFair i c) (start-IsFair i order (wake_next_barista i c))

react-IsFair : (i : ℕ) (b : Bool) (c : Cafe) → IsFair i c (react i b c)
unfolding react
react-IsFair i true c = go_to-IsFair returned i c
react-IsFair i false c = proceed-IsFair i (c.staff i).flag c

pub barista_woken-IsFair : (i : ℕ) (c : Cafe) → IsFair i c (barista_woken i c)
unfolding barista_woken
barista_woken-IsFair i c =
    IsFair-trans i c _ _ (IsFair-same i c (record c { baristas = wait c.baristas i }) refl refl)
      (react-IsFair i c.close_sig (record c { baristas = wait c.baristas i }))

pub barista_looks-IsFair : (menu : Menu) (i : ℕ) (c : Cafe) → IsFair i c (barista_looks menu i c)
unfolding barista_looks
barista_looks-IsFair menu i c =
    IsFair-trans i c _ _ (wake_next-IsFair i c) (
      IsFair-trans i _ _ _ (look-IsFair menu i _ _ (wake_next_barista i c))
        (go_to-IsFair ready i _))

pub complete-IsFair : (i order : ℕ) (c : Cafe) → IsFair i c (complete i order c)
unfolding complete IsFair
complete-IsFair i order c = record {
  taken = λ k t. write_taken c order k _ (λ a. a) t;
  own = λ k h. own-kept i c (record (c.staff i) { flag = none; pc = ready }) (inl refl) k h;
  others = λ j n. ap (λ s. s.flag) (update_other c.staff i _ j n);
}

admit_next-same :
    (i : ℕ) (c : Cafe)
    → ((admit_next i c).order_list ≡ c.order_list) × ((admit_next i c).staff ≡ c.staff)
unfolding admit_next
admit_next-same i c = elim (Option-cases (c.wake_up_index_cust i)) [
  | inl e ↦ rw (e, admit_next) (refl, refl)
  | inr (k, e) ↦ rw (e, admit_next) (refl, refl)
]

pub customer_enters-same :
    (i : ℕ) (c : Cafe)
    → ((customer_enters i c).order_list ≡ c.order_list) × ((customer_enters i c).staff ≡ c.staff)
unfolding customer_enters
customer_enters-same i c =
    admit_next-same i (record c { customers = wait c.customers i; totalorders = c.totalorders + 1 })

pub customer_leaves-same :
    (menu : Menu) (i : ℕ) (c : Cafe)
    → ((customer_leaves menu i c).order_list ≡ c.order_list)
      × ((customer_leaves menu i c).staff ≡ c.staff)
unfolding customer_leaves
customer_leaves-same menu i c = elim (Bool-cases (c.cust i).order_completion_status) [
  | inl e ↦ rw (e, customer_leaves) (refl, refl)
  | inr e ↦ rw (e, customer_leaves) (refl, refl)
]
