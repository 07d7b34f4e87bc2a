-- ===== src/Proc/Scheduler/Order.antt =====
-- The order by which `scheduler` of kernel/proc.c compares two entries.
use cow_pbs_cofee_cafe_icecr.Base.{
  ◌<◌, ◌≡◌, ◌⊎◌, ◌↔◌, arith, true, false, ◌<ℤ◌, ◌≤ℤ◌, ◌≤◌, inl, inr,
}
use cow_pbs_cofee_cafe_icecr.Proc.Scheduler.{Rank, before}

-- The lexicographic order on ranks.
abbrev pub Precedes : Rank → Rank → Type 0
Precedes p q =
    (p.dp <ℤ q.dp)
    ⊎ ((p.dp ≡ q.dp) × (p.count <ℤ q.count))
    ⊎ ((p.dp ≡ q.dp) × (p.count ≡ q.count) × (p.ctime < q.ctime))

pub before_iff : (p q : Rank) → (before p q ≡ true) ↔ Precedes p q
unfolding before
before_iff p q = ground arith

-- The order over the parts of its integers, strict and not.
abbrev Lt : Rank → Rank → Type 0
Lt p q =
    (p.dp <ℤ q.dp)
    ⊎ ((p.dp ≤ℤ q.dp) × (p.count <ℤ q.count))
    ⊎ ((p.dp ≤ℤ q.dp) × (p.count ≤ℤ q.count) × (p.ctime < q.ctime))

abbrev Le : Rank → Rank → Type 0
Le p q =
    (p.dp <ℤ q.dp)
    ⊎ ((p.dp ≤ℤ q.dp) × (p.count <ℤ q.count))
    ⊎ ((p.dp ≤ℤ q.dp) × (p.count ≤ℤ q.count) × (p.ctime ≤ q.ctime))

before→Lt : (p q : Rank) → before p q ≡ true → Lt p q
unfolding before
before→Lt p q h = ground arith

Lt→before : (p q : Rank) → Lt p q → before p q ≡ true
unfolding before
Lt→before p q h = ground arith

not_before→Le : (p q : Rank) → before p q ≡ false → Le q p
unfolding before
not_before→Le p q h = ground arith

Lt→Le : (p q : Rank) → Lt p q → Le p q
Lt→Le p q (inl h) = inl h
Lt→Le p q (inr (inl h)) = inr (inl h)
Lt→Le p q (inr (inr h)) = inr (inr (omega arith))

Lt-Le : (p q r : Rank) → Lt p q → Le q r → Lt p r
Lt-Le p q r (inl h) (inl k) = inl (omega arith)
Lt-Le p q r (inl h) (inr (inl k)) = inl (omega arith)
Lt-Le p q r (inl h) (inr (inr k)) = inl (omega arith)
Lt-Le p q r (inr (inl h)) (inl k) = inl (omega arith)
Lt-Le p q r (inr (inl h)) (inr (inl k)) = inr (inl (omega arith))
Lt-Le p q r (inr (inl h)) (inr (inr k)) = inr (inl (omega arith))
Lt-Le p q r (inr (inr h)) (inl k) = inl (omega arith)
Lt-Le p q r (inr (inr h)) (inr (inl k)) = inr (inl (omega arith))
Lt-Le p q r (inr (inr h)) (inr (inr k)) = inr (inr (omega arith))

pub before_trans : (p q r : Rank) → before p q ≡ true → before q r ≡ true → before p r ≡ true
before_trans p q r h k = Lt→before p r (Lt-Le p q r (before→Lt p q h) (Lt→Le q r (before→Lt q r k)))

pub before_neg_trans : (p q r : Rank) → before p q ≡ true → before r q ≡ false → before p r ≡ true
before_neg_trans p q r h k = Lt→before p r (Lt-Le p q r (before→Lt p q h) (not_before→Le r q k))
