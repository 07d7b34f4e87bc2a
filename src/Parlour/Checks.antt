-- ===== src/Parlour/Checks.antt =====
-- concurrency/2.c: the checks of orders and of the stock of toppings.
pub mod Laws
use cow_pbs_cofee_cafe_icecr.Base.{
  ℕ, zero, suc, ◌+◌, ◌-◌, ◌≡◌, ◌==◌, Bool, true, false, ◌&&◌, ◌||◌, not, ℤ, pos, negsuc, ◌-ℤ◌,
  ltb_ℤ, eqb_ℤ, if◌then◌else◌,
}
use cow_pbs_cofee_cafe_icecr.Cafe.Defs.{Name}
use cow_pbs_cofee_cafe_icecr.Cafe.Names.{give_index}
use cow_pbs_cofee_cafe_icecr.Parlour.Defs.{Menu, Customer, Order, Parlour}

-- `a <= b` on `int`
abbrev pub leb_ℤ : ℤ → ℤ → Bool
leb_ℤ a b = not (ltb_ℤ b a)

-- order_status_checker: no order of the customer among the `n` from `i` on is unfinished.
pub orders_done_from : ℕ → ℕ → (ℕ → Order) → ℕ → Bool
orders_done_from zero i orders cust_no = true
orders_done_from (suc n) i orders cust_no =
    elim ((orders i).cust_no == cust_no && not (orders i).orderstatus) [
      | true ↦ false
      | false ↦ orders_done_from n (i + 1) orders cust_no
    ]

pub order_status_checker : Parlour → ℕ → Bool
order_status_checker c cust_no = orders_done_from c.totalorders 0 c.order_list cust_no

-- The index of the topping `j` of an order.
unfoldable pub tindex : Menu → Order → ℕ → ℤ
tindex menu order j = give_index menu.topping_list menu.t (order.toppings j)

-- A stock of 0, or one below -1; -1 stands for no limit.
abbrev pub is_short : ℤ → Bool
is_short s = eqb_ℤ s (pos 0) || ltb_ℤ s (negsuc 0)

-- Whether one of the `n` toppings of the order from `j` on is short.
unfoldable pub shortage_from : ℕ → ℕ → Menu → Order → (ℤ → ℤ) → Bool
shortage_from zero j menu order stock = false
shortage_from (suc n) j menu order stock = elim (is_short (stock (tindex menu order j))) [
  | true ↦ true
  | false ↦ shortage_from n (j + 1) menu order stock
]

abbrev pub shortage : Menu → Order → (ℤ → ℤ) → Bool
shortage menu order stock = shortage_from order.totaltoppings 0 menu order stock

-- The loop of ingreadient_checker over the `n` orders from `i` on. The number of toppings is that
-- of order `i`, their names are those of order `cst`, as in the source.
unfoldable pub stock_suffices_from : ℕ → ℕ → ℕ → Menu → (ℕ → Order) → (ℤ → ℤ) → Bool
stock_suffices_from zero i cst menu orders stock = true
stock_suffices_from (suc n) i cst menu orders stock =
    elim ((orders i).cust_no == cst
      && shortage_from (orders i).totaltoppings 0 menu (orders cst) stock) [
        | true ↦ false
        | false ↦ stock_suffices_from n (i + 1) cst menu orders stock
      ]

-- -1 for a customer who is done, else 1 or 0.
unfoldable pub ingreadient_checker : Menu → Parlour → ℕ → ℤ
ingreadient_checker menu c cst =
    if (c.cust cst).order_completion_status
    then negsuc 0
    else if stock_suffices_from c.totalorders 0 cst menu c.order_list c.topping_stock
    then pos 1
    else pos 0

-- any_order_being_prepared: 1 if none is.
unfoldable pub none_prepared_from : ℕ → ℕ → (ℕ → Order) → Bool
none_prepared_from zero i orders = true
none_prepared_from (suc n) i orders =
    elim ((orders i).order_taken_status && not (orders i).orderstatus) [
      | true ↦ false
      | false ↦ none_prepared_from n (i + 1) orders
    ]

unfoldable pub any_order_being_prepared : ℕ → (ℕ → Order) → Bool
any_order_being_prepared order_cnt orders = none_prepared_from order_cnt 0 orders

-- ingredient_exhausted_checker: the loop with its `count`, and the result.
unfoldable pub exhausted_from : ℕ → ℕ → ℕ → (ℤ → ℤ) → Bool
exhausted_from zero i count stock = not (count == 0)
exhausted_from (suc n) i count stock = elim (eqb_ℤ (stock (pos i)) (negsuc 0)) [
  | true ↦ exhausted_from n (i + 1) count stock
  | false ↦ elim (leb_ℤ (stock (pos i)) (pos 0)) [
    | true ↦ exhausted_from n (i + 1) (count + 1) stock
    | false ↦ false
  ]
]

unfoldable pub ingredient_exhausted : ℕ → (ℤ → ℤ) → Bool
ingredient_exhausted total stock = exhausted_from total 0 0 stock

-- The checker also sets ingredient_over when it answers 1.
unfoldable pub ingredient_exhausted_checker : ℕ → Parlour → Bool × Parlour
ingredient_exhausted_checker total c =
    let r = ingredient_exhausted total c.topping_stock in
    (r, record c { ingredient_over = c.ingredient_over || r })
