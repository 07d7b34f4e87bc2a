-- ===== src/Parlour/Threads/Guests.antt =====
-- concurrency/2.c: what the customers change, and who is inside.
use cow_pbs_cofee_cafe_icecr.Base.{
  ℕ, ◌+◌, ◌≡◌, inl, inr, refl, false, pos, ◌+ℤ◌, ◌-ℤ◌, eqb_ℤ, update, if_keeps, Option-cases, ◌∙◌,
  ap, sym,
}
use cow_pbs_cofee_cafe_icecr.Cafe.Threads.{wait}
use cow_pbs_cofee_cafe_icecr.Parlour.Defs.{
  Menu, Parlour, CustomerPc, arriving, waiting, collecting, left, unserved,
}
use cow_pbs_cofee_cafe_icecr.Parlour.Checks.{ingreadient_checker}
use cow_pbs_cofee_cafe_icecr.Parlour.Effects.{IsSame, IsSame-trans, IsQuiet}
use cow_pbs_cofee_cafe_icecr.Parlour.Threads.{
  admit_next, guest_goes, serve, turn_away_full, turn_away_short, come_in, at_door, guest_arrives,
  guest_leaves, guest_called, guest_collects,
}

-- A guest who has come in and not left.
abbrev pub inside : CustomerPc → ℕ
inside arriving = 0
inside waiting = 1
inside collecting = 1
inside left = 0
inside unserved = 1

-- What a step of guest `i` does to the number of those inside: it stays, one comes into a
-- parlour that is not full, or one leaves.
pub data IsDoor (menu : Menu) (i : ℕ) (c d : Parlour) : Type 0 where
  stays :
      (pc : CustomerPc)
      → d.guests ≡ update c.guests i pc
      → inside pc ≡ inside (c.guests i)
      → d.current_customers ≡ c.current_customers
      → IsDoor menu i c d
  comes_in :
      d.guests ≡ update c.guests i waiting
      → inside (c.guests i) ≡ 0
      → eqb_ℤ c.current_customers (pos menu.k) ≡ false
      → d.current_customers ≡ c.current_customers +ℤ pos 1
      → IsDoor menu i c d
  leaves :
      d.guests ≡ update c.guests i left
      → inside (c.guests i) ≡ 1
      → d.current_customers ≡ c.current_customers -ℤ pos 1
      → IsDoor menu i c d

pub record IsVisit (menu : Menu) (i : ℕ) (c d : Parlour) : Type 0 where
  pub same : IsSame c d
  pub door : IsDoor menu i c d

admit_next-IsQuiet : (i : ℕ) (c : Parlour) → IsQuiet c (admit_next i c)
unfolding admit_next
admit_next-IsQuiet i c = elim (Option-cases (c.wake_up_index_cust i)) [
  | inl e ↦
      rw (e, admit_next)
        (record {
          same = record { order_list = refl; staff = refl; topping_stock = refl };
          guests = refl;
          current = refl;
        })
  | inr (k, e) ↦
      rw (e, admit_next)
        (record {
          same = record { order_list = refl; staff = refl; topping_stock = refl };
          guests = refl;
          current = refl;
        })
]

IsSame-after :
    (i : ℕ) (c d : Parlour)
    → d.order_list ≡ c.order_list
    → d.staff ≡ c.staff
    → d.topping_stock ≡ c.topping_stock
    → IsSame c (admit_next i d)
IsSame-after i c d o t s =
    IsSame-trans c d (admit_next i d) (record { order_list = o; staff = t; topping_stock = s })
      (admit_next-IsQuiet i d).same

-- A customer is sent away at the door.
turned_away :
    (menu : Menu) (i : ℕ) (c d : Parlour)
    → c.guests i ≡ arriving
    → d.order_list ≡ c.order_list
    → d.staff ≡ c.staff
    → d.topping_stock ≡ c.topping_stock
    → d.guests ≡ c.guests
    → d.current_customers ≡ c.current_customers
    → IsVisit menu i c (guest_goes left i (admit_next i d))
turned_away menu i c d a o t s g n =
    let q = admit_next-IsQuiet i d in
    record {
      same = record {
        order_list = (IsSame-after i c d o t s).order_list;
        staff = (IsSame-after i c d o t s).staff;
        topping_stock = (IsSame-after i c d o t s).topping_stock;
      };
      door =
          stays left (ap (λ f. update f i left) (q.guests ∙ g)) (ap inside (sym a)) (q.current ∙ n);
    }

-- A customer comes in.
came_in :
    (menu : Menu) (i : ℕ) (c d : Parlour)
    → c.guests i ≡ arriving
    → eqb_ℤ c.current_customers (pos menu.k) ≡ false
    → d.order_list ≡ c.order_list
    → d.staff ≡ c.staff
    → d.topping_stock ≡ c.topping_stock
    → d.guests ≡ c.guests
    → d.current_customers ≡ c.current_customers +ℤ pos 1
    → IsVisit menu i c (guest_goes waiting i (admit_next i d))
came_in menu i c d a e o t s g n =
    let q = admit_next-IsQuiet i d in
    record {
      same = record {
        order_list = (IsSame-after i c d o t s).order_list;
        staff = (IsSame-after i c d o t s).staff;
        topping_stock = (IsSame-after i c d o t s).topping_stock;
      };
      door = comes_in (ap (λ f. update f i waiting) (q.guests ∙ g)) (ap inside a) e (q.current ∙ n);
    }

at_door-IsVisit :
    (menu : Menu) (i : ℕ) (c d : Parlour)
    → c.guests i ≡ arriving
    → d.order_list ≡ c.order_list
    → d.staff ≡ c.staff
    → d.topping_stock ≡ c.topping_stock
    → d.guests ≡ c.guests
    → d.current_customers ≡ c.current_customers
    → IsVisit menu i c (at_door menu i d)
unfolding at_door turn_away_full turn_away_short come_in
at_door-IsVisit menu i c d a o t s g n =
    if_keeps (IsVisit menu i c) (eqb_ℤ d.current_customers (pos menu.k)) _ _
      (λ e.
        turned_away menu i c
          (record d { cust = serve d.cust i; returned_count = d.returned_count + 1 }) a o t s g n)
      (λ e.
        if_keeps (IsVisit menu i c) (eqb_ℤ (ingreadient_checker menu d (d.cust i).cust_no) (pos 1))
          _ _
          (λ f.
            came_in menu i c (record d { current_customers = d.current_customers +ℤ pos 1 }) a
              (ap (λ m. eqb_ℤ m (pos menu.k)) (sym n) ∙ e) o t s g (ap (λ m. m +ℤ pos 1) n))
          (λ f. turned_away menu i c (record d { cust = serve d.cust i }) a o t s g n))

-- A guest goes on to another place, inside or outside as before.
goes_to :
    (menu : Menu) (i : ℕ) (c d : Parlour) (pc : CustomerPc)
    → inside pc ≡ inside (c.guests i)
    → d.order_list ≡ c.order_list
    → d.staff ≡ c.staff
    → d.topping_stock ≡ c.topping_stock
    → d.guests ≡ c.guests
    → d.current_customers ≡ c.current_customers
    → IsVisit menu i c (guest_goes pc i d)
goes_to menu i c d pc e o t s g n = record {
  same = record { order_list = o; staff = t; topping_stock = s };
  door = stays pc (ap (λ f. update f i pc) g) e n;
}

pub guest_arrives-IsVisit :
    (menu : Menu) (i : ℕ) (c : Parlour)
    → c.guests i ≡ arriving
    → IsVisit menu i c (guest_arrives menu i c)
unfolding guest_arrives
guest_arrives-IsVisit menu i c a =
    if_keeps (IsVisit menu i c) c.close_sig _ _
      (λ e.
        goes_to menu i c (record c { customers = wait c.customers i }) left (ap inside (sym a)) refl
          refl refl refl refl)
      (λ e.
        at_door-IsVisit menu i c
          (record c {
            customers = wait c.customers i;
            totalorders = c.totalorders + (c.cust i).total_orders;
          })
          a refl refl refl refl refl)

leaving :
    (menu : Menu) (i : ℕ) (c d : Parlour)
    → inside (c.guests i) ≡ 1
    → d.order_list ≡ c.order_list
    → d.staff ≡ c.staff
    → d.topping_stock ≡ c.topping_stock
    → d.guests ≡ c.guests
    → d.current_customers ≡ c.current_customers
    → IsVisit menu i c (guest_leaves i d)
unfolding guest_leaves
leaving menu i c d e o t s g n = record {
  same = record { order_list = o; staff = t; topping_stock = s };
  door = leaves (ap (λ f. update f i left) g) e (ap (λ m. m -ℤ pos 1) n);
}

pub guest_called-IsVisit :
    (menu : Menu) (i : ℕ) (c : Parlour) → c.guests i ≡ waiting → IsVisit menu i c (guest_called i c)
unfolding guest_called
guest_called-IsVisit menu i c a =
    let c₁ = record c { rej_customers = wait c.rej_customers i } in
    if_keeps (IsVisit menu i c) c.close_sig _ _
      (λ e. goes_to menu i c c₁ unserved (ap inside (sym a)) refl refl refl refl refl)
      (λ e.
        if_keeps (IsVisit menu i c) (c.rejection_cust i) _ _
          (λ f. leaving menu i c c₁ (ap inside a) refl refl refl refl refl)
          (λ f. goes_to menu i c c₁ collecting (ap inside (sym a)) refl refl refl refl refl))

pub guest_collects-IsVisit :
    (menu : Menu) (i : ℕ) (c : Parlour)
    → c.guests i ≡ collecting
    → IsVisit menu i c (guest_collects i c)
unfolding guest_collects
guest_collects-IsVisit menu i c a =
    leaving menu i c (record c { customers = wait c.customers i }) (ap inside a) refl refl refl refl
      refl
