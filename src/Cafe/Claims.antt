-- ===== src/Cafe/Claims.antt =====
-- Orders that threads claim, for both simulations of concurrency: which orders are marked as taken,
-- and which one each thread holds.
use cow_pbs_cofee_cafe_icecr.Base.{
  ℕ, ◌≡◌, ◌≢◌, ◌⊎◌, inl, inr, Bool, true, false, Option, none, some, ℕ_discrete, Bool-cases, refl,
  ◌∙◌, sym, ap,
}

pub record Claims : Type 0 where
  pub is_taken : ℕ → Bool
  pub held : ℕ → Option ℕ

-- A thread that holds an order afterwards held it before, or it was not taken before and is now.
abbrev pub IsOwn : Claims → Claims → ℕ → Type 0
IsOwn c d i =
    (k : ℕ)
    → d.held i ≡ some k
    → (c.held i ≡ some k) ⊎ ((c.is_taken k ≡ false) × (d.is_taken k ≡ true))

-- What thread `i` may change: its own order; taken orders stay taken.
pub record IsFair (i : ℕ) (c d : Claims) : Type 0 where
  pub taken : (k : ℕ) → c.is_taken k ≡ true → d.is_taken k ≡ true
  pub own : IsOwn c d i
  pub others : (j : ℕ) → i ≢ j → d.held j ≡ c.held j

pub IsFair-refl : (i : ℕ) (c : Claims) → IsFair i c c
IsFair-refl i c = record { taken = λ k e. e; own = λ k e. inl e; others = λ j h. refl }

own_trans :
    (i : ℕ) (c d e : Claims)
    → IsFair i c d
    → IsFair i d e
    → (k : ℕ) → (d.held i ≡ some k) ⊎ ((d.is_taken k ≡ false) × (e.is_taken k ≡ true))
    → (c.held i ≡ some k) ⊎ ((c.is_taken k ≡ false) × (e.is_taken k ≡ true))
own_trans i c d e f g k (inl h) = elim (f.own k h) [
  | inl a ↦ inl a
  | inr (a, b) ↦ inr (a, g.taken k b)
]
own_trans i c d e f g k (inr (a, b)) = elim (Bool-cases (c.is_taken k)) [
  | inl t ↦ absurd (cc (a, f.taken k t))
  | inr t ↦ inr (t, b)
]

pub IsFair-trans : (i : ℕ) (c d e : Claims) → IsFair i c d → IsFair i d e → IsFair i c e
IsFair-trans i c d e f g = record {
  taken = λ k t. g.taken k (f.taken k t);
  own = λ k h. own_trans i c d e f g k (g.own k h);
  others = λ j n. g.others j n ∙ f.others j n;
}

-- An order that a thread holds is marked as taken, and no other thread holds it.
pub record IsExclusive (c : Claims) : Type 0 where
  pub marked : (i k : ℕ) → c.held i ≡ some k → c.is_taken k ≡ true
  pub apart : (i j k : ℕ) → i ≢ j → c.held i ≡ some k → c.held j ≢ some k

pub IsExclusive-none : (c : Claims) → ((i : ℕ) → c.held i ≡ none) → IsExclusive c
IsExclusive-none c e = record {
  marked = λ i k h. absurd (cc (e i, h));
  apart = λ i j k n h. absurd (cc (e i, h));
}

IsFair-marked :
    (b : ℕ) (c d : Claims)
    → IsFair b c d
    → IsExclusive c
    → (i k : ℕ) → d.held i ≡ some k
    → d.is_taken k ≡ true
IsFair-marked b c d f x i k h = elim (ℕ_discrete b i) [
  | yes q ↦ elim (f.own k (ap d.held q ∙ h)) [ inl a ↦ f.taken k (x.marked b k a) | inr (a, t) ↦ t ]
  | no q ↦ f.taken k (x.marked i k (sym (f.others i q) ∙ h))
]

-- The thread that moves takes no order that another one holds.
IsFair-apart :
    (b : ℕ) (c d : Claims)
    → IsFair b c d
    → IsExclusive c
    → (j k : ℕ) → b ≢ j
    → d.held b ≡ some k
    → d.held j ≢ some k
IsFair-apart b c d f x j k n h g =
    let g' : c.held j ≡ some k = sym (f.others j n) ∙ g in
    elim (f.own k h) [ inl a ↦ x.apart b j k n a g' | inr (a, t) ↦ cc (a, x.marked j k g') ]

pub IsFair-IsExclusive : (b : ℕ) (c d : Claims) → IsFair b c d → IsExclusive c → IsExclusive d
IsFair-IsExclusive b c d f x = record {
  marked = IsFair-marked b c d f x;
  apart = λ i j k n h g. elim (ℕ_discrete b i) [
    | yes q ↦ IsFair-apart b c d f x j k (λ r. n (sym q ∙ r)) (ap d.held q ∙ h) g
    | no q ↦ elim (ℕ_discrete b j) [
      | yes r ↦ IsFair-apart b c d f x i k q (ap d.held r ∙ g) h
      | no r ↦ x.apart i j k n (sym (f.others i q) ∙ h) (sym (f.others j r) ∙ g)
    ]
  ];
}
