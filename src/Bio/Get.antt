-- ===== src/Bio/Get.antt =====
-- bget of kernel/bio.c: the buffer that holds a block, or else the least recently used one that is
-- free.
use cow_pbs_cofee_cafe_icecr.Base.{
  ℕ, zero, suc, ◌+◌, ◌-◌, ◌<◌, ◌≤◌, ◌≡◌, ◌≢◌, inl, inr, sym, ◌∙◌, ap, subst, arith, true, false,
  ◌==◌, ==_iff, Bool-cases, if_keeps, ℕ_discrete, Option, none, some,
}
use cow_pbs_cofee_cafe_icecr.Bio.{
  Cache, nbuf, holds_block, find_block, find_unused, set_buf, recycled, recycle, bpin, get_found,
  bget,
}
use cow_pbs_cofee_cafe_icecr.Bio.Ring.{IsRing}

module _ (n : ℕ) (order : ℕ → ℕ) (dev blockno : ℕ) (c : Cache) where
  -- No buffer in the places from `i` to before `j` holds the block.
  abbrev pub Missing : ℕ → ℕ → Type 0
  Missing i j = (m : ℕ) → i ≤ m → m < j → holds_block dev blockno (c.buf (order m)) ≡ false

  -- All buffers in the places behind `i`, up to `j`, are in use.
  abbrev pub InUse : ℕ → ℕ → Type 0
  InUse i j = (m : ℕ) → i < m → m ≤ j → (c.buf (order m)).refcnt ≢ 0

  -- What a search from the place `i` on finds.
  data IsFound (i : ℕ) : Option ℕ → Type 0 where
    at :
        (j : ℕ)
        → i ≤ j
        → j ≤ n
        → holds_block dev blockno (c.buf (order j)) ≡ true
        → Missing i j
        → IsFound i (some (order j))
    nowhere : Missing i (n + 1) → IsFound i none

  data IsUnused (i : ℕ) : Option ℕ → Type 0 where
    free_at :
        (j : ℕ)
        → 0 < j
        → j ≤ i
        → (c.buf (order j)).refcnt ≡ 0
        → InUse j i
        → IsUnused i (some (order j))
    all_used : InUse 0 i → IsUnused i none

  -- The ways that bget ends, in the words of the code.
  pub data IsGot : Option (ℕ × Cache) → Type 0 where
    hit :
        (j : ℕ)
        → 0 < j
        → j ≤ n
        → holds_block dev blockno (c.buf (order j)) ≡ true
        → Missing 1 j
        → IsGot (some (order j, bpin (order j) c))
    recycles :
        (j : ℕ)
        → Missing 1 (n + 1)
        → 0 < j
        → j ≤ n
        → (c.buf (order j)).refcnt ≡ 0
        → InUse j n
        → IsGot (some (order j, set_buf (order j) (recycled dev blockno) c))
    full : Missing 1 (n + 1) → InUse 0 n → IsGot none

  further :
      (i : ℕ) (o : Option ℕ)
      → holds_block dev blockno (c.buf (order i)) ≡ false
      → IsFound (i + 1) o
      → IsFound i o
  further i o e (at j h k f m) = at j (omega arith) k f (λ x p q. elim (ℕ_discrete i x) [
    | yes y ↦ ap (λ z. holds_block dev blockno (c.buf (order z))) (sym y) ∙ e
    | no y ↦ m x (omega arith) q
  ])
  further i o e (nowhere m) = nowhere (λ x p q. elim (ℕ_discrete i x) [
    | yes y ↦ ap (λ z. holds_block dev blockno (c.buf (order z))) (sym y) ∙ e
    | no y ↦ m x (omega arith) q
  ])

  back :
      (i : ℕ) (o : Option ℕ)
      → 0 < i
      → (c.buf (order i)).refcnt ≢ 0
      → IsUnused (i - 1) o
      → IsUnused i o
  back i o p e (free_at j k h f u) = free_at j k (omega arith) f (λ x a b. elim (ℕ_discrete i x) [
    | yes y ↦ λ q. e (ap (λ z. (c.buf (order z)).refcnt) y ∙ q)
    | no y ↦ u x a (omega arith)
  ])
  back i o p e (all_used u) = all_used (λ x a b. elim (ℕ_discrete i x) [
    | yes y ↦ λ q. e (ap (λ z. (c.buf (order z)).refcnt) y ∙ q)
    | no y ↦ u x a (omega arith)
  ])

  IsGot-unused : (o : Option ℕ) → Missing 1 (n + 1) → IsUnused n o → IsGot (recycle dev blockno c o)
  unfolding recycle
  IsGot-unused o m (free_at j p h e u) = recycles j m p h e u
  IsGot-unused o m (all_used u) = full m u

  IsGot-found :
      (o : Option ℕ)
      → IsUnused n (find_unused (nbuf + 1) (c.prev nbuf) c)
      → IsFound 1 o
      → IsGot (get_found dev blockno c o)
  unfolding get_found
  IsGot-found o u (at j p h e m) = hit j (omega arith) h e m
  IsGot-found o u (nowhere m) = IsGot-unused _ m u

  module _ (r : IsRing n order c) where
    not_nbuf : (i : ℕ) → 0 < i → i ≤ n → (order i == nbuf) ≡ false
    not_nbuf i p h = elim (Bool-cases (order i == nbuf)) [
      | inl q ↦ absurd (r.distinct 0 i p h (r.starts ∙ sym ((==_iff (order i) nbuf).0 q)))
      | inr q ↦ q
    ]

    find_block-IsFound :
        (k i : ℕ)
        → 0 < i
        → i ≤ n + 1
        → n + 1 < i + k
        → IsFound i (find_block k (order i) dev blockno c)
    unfolding find_block
    find_block-IsFound zero i p h l = absurd (omega arith)
    find_block-IsFound (suc k) i p h l = elim (ℕ_discrete i (n + 1)) [
      | yes e ↦
          if_keeps (IsFound i) (order i == nbuf) none _
            (λ q. nowhere (λ m x y. absurd (omega arith)))
            (λ q. absurd (cc (q, (==_iff (order i) nbuf).1 (ap order e ∙ r.closes))))
      | no e ↦
          let head : (order i == nbuf) ≡ false = not_nbuf i p (omega arith) in
          let rest : IsFound (i + 1) (find_block k (order (i + 1)) dev blockno c) =
            find_block-IsFound k (i + 1) (omega arith) (omega arith) (omega arith) in
          if_keeps (IsFound i) (order i == nbuf) _ _ (λ q. absurd (cc (q, head)))
            (λ q.
              if_keeps (IsFound i) (holds_block dev blockno (c.buf (order i))) _ _
                (λ f. at i (omega arith) (omega arith) f (λ m x y. absurd (omega arith)))
                (λ f. further i _ f (
                  subst (λ x. IsFound (i + 1) (find_block k x dev blockno c))
                    (sym (r.forward i (omega arith))) rest)))
    ]

    find_unused-IsUnused : (k i : ℕ) → i ≤ n → i < k → IsUnused i (find_unused k (order i) c)
    unfolding find_unused
    find_unused-IsUnused zero i h l = absurd (omega arith)
    find_unused-IsUnused (suc k) i h l = elim (ℕ_discrete i 0) [
      | yes e ↦
          if_keeps (IsUnused i) (order i == nbuf) none _
            (λ q. all_used (λ m x y. absurd (omega arith)))
            (λ q. absurd (cc (q, (==_iff (order i) nbuf).1 (ap order e ∙ r.starts))))
      | no e ↦
          let head : (order i == nbuf) ≡ false = not_nbuf i (omega arith) h in
          let rest : IsUnused (i - 1) (find_unused k (order (i - 1)) c) =
            find_unused-IsUnused k (i - 1) (omega arith) (omega arith) in
          let before : c.prev (order i) ≡ order (i - 1) =
            ap (λ x. c.prev (order x)) (omega arith) ∙ r.backward (i - 1) (omega arith) in
          if_keeps (IsUnused i) (order i == nbuf) _ _ (λ q. absurd (cc (q, head)))
            (λ q.
              if_keeps (IsUnused i) ((c.buf (order i)).refcnt == 0) _ _
                (λ f.
                  free_at i (omega arith) (omega arith) ((==_iff _ 0).0 f)
                    (λ m x y. absurd (omega arith)))
                (λ f.
                  back i _ (omega arith) (λ z. cc (f, (==_iff (c.buf (order i)).refcnt 0).1 z))
                    (subst (λ x. IsUnused (i - 1) (find_unused k x c)) (sym before) rest)))
    ]

pub bget-ends :
    (order : ℕ → ℕ) (dev blockno : ℕ) (c : Cache)
    → IsRing nbuf order c
    → IsGot nbuf order dev blockno c (bget dev blockno c)
unfolding bget
bget-ends order dev blockno c r =
    let first : c.next nbuf ≡ order 1 = ap c.next (sym r.starts) ∙ r.forward 0 (omega arith) in
    let last : c.prev nbuf ≡ order nbuf =
      ap c.prev (sym r.closes) ∙ r.backward nbuf (omega arith) in
    IsGot-found nbuf order dev blockno c _
      (subst (λ x. IsUnused nbuf order dev blockno c nbuf (find_unused (nbuf + 1) x c)) (sym last)
        (find_unused-IsUnused nbuf order dev blockno c r (nbuf + 1) nbuf (omega arith)
          (omega arith)))
      (subst (λ x. IsFound nbuf order dev blockno c 1 (find_block (nbuf + 1) x dev blockno c))
        (sym first)
        (find_block-IsFound nbuf order dev blockno c r (nbuf + 1) 1 (omega arith) (omega arith)
          (omega arith)))
