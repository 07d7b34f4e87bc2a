-- ===== src/Parlour/Effects.antt =====
-- concurrency/2.c: what a step may change of the orders, the stock and the guests.
use cow_pbs_cofee_cafe_icecr.Base.{
  ℕ, ◌≡◌, ◌⊎◌, inl, inr, arith, Bool, true, Option, none, some, ℤ, pos, negsuc, ◌≤ℤ◌, update,
  update_self, update_other, ℕ_discrete, ◌∙◌, ap, sym, subst,
}
use cow_pbs_cofee_cafe_icecr.Cafe.Claims.{Claims, IsFair, IsFair-trans}
use cow_pbs_cofee_cafe_icecr.Parlour.Defs.{Order, Machine, Parlour}

abbrev pub held : Parlour → ℕ → Option ℕ
held c i = (c.staff i).flag

abbrev pub is_taken : Parlour → ℕ → Bool
is_taken c order = (c.order_list order).order_taken_status

abbrev pub claims : Parlour → Claims
claims c = record { is_taken = is_taken c; held = held c }

-- A stock without limit stays so, and a limited one falls, but not below 0.
abbrev pub IsUsed : (ℤ → ℤ) → (ℤ → ℤ) → Type 0
IsUsed s s' =
    (x : ℤ) → (s x ≡ negsuc 0 → s' x ≡ negsuc 0) × (pos 0 ≤ℤ s x → (pos 0 ≤ℤ s' x) × (s' x ≤ℤ s x))

pub IsUsed-refl : (s : ℤ → ℤ) → IsUsed s s
IsUsed-refl s x = (λ e. e, λ h. (h, omega arith))

pub IsUsed-trans : (s s' s'' : ℤ → ℤ) → IsUsed s s' → IsUsed s' s'' → IsUsed s s''
IsUsed-trans s s' s'' h k x = (
  λ e. (k x).0 ((h x).0 e),
  λ l. let (a, b) = (h x).1 l in let (a', b') = (k x).1 a in (a', omega (arith, b, b')),
)

-- What machine `i` may change.
pub record IsMove (i : ℕ) (c d : Parlour) : Type 0 where
  pub fair : IsFair i (claims c) (claims d)
  pub used : IsUsed c.topping_stock d.topping_stock
  pub guests : d.guests ≡ c.guests
  pub current : d.current_customers ≡ c.current_customers

pub IsMove-trans : (i : ℕ) (c d e : Parlour) → IsMove i c d → IsMove i d e → IsMove i c e
IsMove-trans i c d e f g = record {
  fair = IsFair-trans i (claims c) (claims d) (claims e) f.fair g.fair;
  used = IsUsed-trans c.topping_stock d.topping_stock e.topping_stock f.used g.used;
  guests = g.guests ∙ f.guests;
  current = g.current ∙ f.current;
}

-- Neither the orders nor the stock change, nor what the machines hold.
pub record IsSame (c d : Parlour) : Type 0 where
  pub order_list : d.order_list ≡ c.order_list
  pub staff : d.staff ≡ c.staff
  pub topping_stock : d.topping_stock ≡ c.topping_stock

pub IsSame-IsFair : (i : ℕ) (c d : Parlour) → IsSame c d → IsFair i (claims c) (claims d)
IsSame-IsFair i c d s = record {
  taken = λ k e. ap (λ l. (l k).order_taken_status) s.order_list ∙ e;
  own = λ k e. inl (ap (λ t. (t i).flag) (sym s.staff) ∙ e);
  others = λ j h. ap (λ t. (t j).flag) s.staff;
}

pub IsSame-IsUsed : (c d : Parlour) → IsSame c d → IsUsed c.topping_stock d.topping_stock
IsSame-IsUsed c d s =
    subst (IsUsed c.topping_stock) (sym s.topping_stock) (IsUsed-refl c.topping_stock)

pub IsSame-trans : (c d e : Parlour) → IsSame c d → IsSame d e → IsSame c e
IsSame-trans c d e f g = record {
  order_list = g.order_list ∙ f.order_list;
  staff = g.staff ∙ f.staff;
  topping_stock = g.topping_stock ∙ f.topping_stock;
}

-- Besides, nobody comes in or leaves.
pub record IsQuiet (c d : Parlour) : Type 0 where
  pub same : IsSame c d
  pub guests : d.guests ≡ c.guests
  pub current : d.current_customers ≡ c.current_customers

pub IsQuiet-trans : (c d e : Parlour) → IsQuiet c d → IsQuiet d e → IsQuiet c e
IsQuiet-trans c d e f g = record {
  same = IsSame-trans c d e f.same g.same;
  guests = g.guests ∙ f.guests;
  current = g.current ∙ f.current;
}

-- Each of the fields is as it was.
pub quiet :
    (c d : Parlour)
    → d.order_list ≡ c.order_list
    → d.staff ≡ c.staff
    → d.topping_stock ≡ c.topping_stock
    → d.guests ≡ c.guests
    → d.current_customers ≡ c.current_customers
    → IsQuiet c d
quiet c d o t s g n = record {
  same = record { order_list = o; staff = t; topping_stock = s };
  guests = g;
  current = n;
}

pub IsMove-same :
    (i : ℕ) (c d : Parlour)
    → IsSame c d
    → d.guests ≡ c.guests
    → d.current_customers ≡ c.current_customers
    → IsMove i c d
IsMove-same i c d s g h = record {
  fair = IsSame-IsFair i c d s;
  used = IsSame-IsUsed c d s;
  guests = g;
  current = h;
}

own_kept :
    {P : Type 0} (i : ℕ) (c : Parlour) (b : Machine)
    → (b.flag ≡ none) ⊎ (b.flag ≡ held c i)
    → (k : ℕ) → (update c.staff i b i).flag ≡ some k
    → (held c i ≡ some k) ⊎ P
own_kept i c b (inl e) k h = absurd (cc (e, h, ap (λ s. s.flag) (update_self c.staff i b)))
own_kept i c b (inr e) k h = inl (cc (e, h, ap (λ s. s.flag) (update_self c.staff i b)))

-- The entry of one machine is written, with the order it held or none; taken orders stay so.
pub IsFair-own :
    (i : ℕ) (c d : Parlour) (b : Machine)
    → ((k : ℕ) → is_taken c k ≡ true → is_taken d k ≡ true)
    → d.staff ≡ update c.staff i b
    → (b.flag ≡ none) ⊎ (b.flag ≡ held c i)
    → IsFair i (claims c) (claims d)
IsFair-own i c d b t q h = record {
  taken = t;
  own = λ k e. own_kept i c b h k (ap (λ s. (s i).flag) (sym q) ∙ e);
  others = λ j n. ap (λ s. (s j).flag) q ∙ ap (λ s. s.flag) (update_other c.staff i b j n);
}

-- Writing an order that is then taken, if it was, keeps the others.
pub write_taken :
    (l : ℕ → Order) (order k : ℕ) (o : Order)
    → ((l order).order_taken_status ≡ true → o.order_taken_status ≡ true)
    → (l k).order_taken_status ≡ true
    → (update l order o k).order_taken_status ≡ true
write_taken l order k o h t = elim (ℕ_discrete order k) [
  | yes q ↦
      ap (λ r. r.order_taken_status) (ap (update l order o) (sym q) ∙ update_self l order o)
      ∙ h (ap (λ j. (l j).order_taken_status) q ∙ t)
  | no q ↦ ap (λ r. r.order_taken_status) (update_other l order o k q) ∙ t
]
