-- ===== src/Bio/Single.antt =====
-- bget of kernel/bio.c keeps one buffer at most for each block.
use cow_pbs_cofee_cafe_icecr.Base.{
  ℕ, ◌<◌, ◌≤◌, ◌≡◌, ◌≢◌, refl, sym, ◌∙◌, ap, subst, arith, Bool, true, false, ◌&&◌, ◌==◌, ==_iff,
  dec_lt, ℕ_discrete, Option, some, update_self, update_other,
}
use cow_pbs_cofee_cafe_icecr.Bio.{Buf, Cache, nbuf, holds_block, set_buf, recycled, bpin, bget}
use cow_pbs_cofee_cafe_icecr.Bio.Ring.{IsRing, set_buf-IsRing}
use cow_pbs_cofee_cafe_icecr.Bio.Get.{IsGot, hit, recycles, full, bget-ends}

-- No two buffers hold the same block of a device other than 0.
unfoldable pub IsSingle : (ℕ → ℕ) → Cache → Type 0
IsSingle order c =
    (i j dev blockno : ℕ)
    → 0 < dev
    → 0 < i
    → i ≤ nbuf
    → 0 < j
    → j ≤ nbuf
    → holds_block dev blockno (c.buf (order i)) ≡ true
    → holds_block dev blockno (c.buf (order j)) ≡ true
    → i ≡ j

-- The cache `d` and the buffer `b` that bget returns.
pub record IsKept (order : ℕ → ℕ) (dev blockno b : ℕ) (d : Cache) : Type 0 where
  pub ring : IsRing nbuf order d
  pub single : IsSingle order d
  pub holds : holds_block dev blockno (d.buf b) ≡ true

both : (a b : Bool) → (a && b) ≡ true → (a ≡ true) × (b ≡ true)
both true b h = (refl, h)
both false b h = absurd (cc h)

itself : (dev blockno : ℕ) → holds_block dev blockno (recycled dev blockno) ≡ true
itself dev blockno = rw ((==_iff dev dev).1 refl, (==_iff blockno blockno).1 refl) refl

module _ (order : ℕ → ℕ) (c : Cache) (r : IsRing nbuf order c) where
  apart : (i j : ℕ) → i ≤ nbuf → j ≤ nbuf → i ≢ j → order i ≢ order j
  apart i j h k n q = elim (dec_lt i j) [
    | yes l ↦ r.distinct i j l k q
    | no l ↦ r.distinct j i (omega arith) h (sym q)
  ]

  other_buf :
      (k i : ℕ) (v : Buf)
      → k ≤ nbuf
      → i ≤ nbuf
      → k ≢ i
      → (set_buf (order k) v c).buf (order i) ≡ c.buf (order i)
  unfolding set_buf
  other_buf k i v h m n = update_other c.buf (order k) v (order i) (apart k i h m n)

  same_buf : (k : ℕ) (v : Buf) → (set_buf (order k) v c).buf (order k) ≡ v
  unfolding set_buf
  same_buf k v = update_self c.buf (order k) v

  module _ (k : ℕ) (v : Buf) (m : k ≤ nbuf)
      (alone : (dev blockno j : ℕ)
        → 0 < dev
        → 0 < j
        → j ≤ nbuf
        → k ≢ j
        → holds_block dev blockno v ≡ true
        → holds_block dev blockno (c.buf (order j)) ≡ true
        → ⊥) where
    -- A buffer with another place than `k` does not hold the new block of that place.
    set_alone :
        (dev blockno j : ℕ)
        → 0 < dev
        → 0 < j
        → j ≤ nbuf
        → holds_block dev blockno ((set_buf (order k) v c).buf (order k)) ≡ true
        → holds_block dev blockno ((set_buf (order k) v c).buf (order j)) ≡ true
        → k ≡ j
    set_alone dev blockno j p a b x y = elim (ℕ_discrete k j) [
      | yes e ↦ e
      | no e ↦ absurd (
          alone dev blockno j p a b e (ap (holds_block dev blockno) (sym (same_buf k v)) ∙ x)
            (ap (holds_block dev blockno) (sym (other_buf k j v m b e)) ∙ y))
    ]

    set_buf-IsSingle : IsSingle order c → IsSingle order (set_buf (order k) v c)
    unfolding IsSingle
    set_buf-IsSingle s i j dev blockno p a b e f x y = elim (ℕ_discrete k i) [
      | yes q ↦
          sym q
          ∙ set_alone dev blockno j p e f
              (ap (λ z. holds_block dev blockno ((set_buf (order k) v c).buf (order z))) q ∙ x) y
      | no q ↦ elim (ℕ_discrete k j) [
        | yes w ↦ sym (
            sym w
            ∙ set_alone dev blockno i p a b
                (ap (λ z. holds_block dev blockno ((set_buf (order k) v c).buf (order z))) w ∙ y) x)
        | no w ↦
            s i j dev blockno p a b e f
              (ap (holds_block dev blockno) (sym (other_buf k i v m b q)) ∙ x)
              (ap (holds_block dev blockno) (sym (other_buf k j v m f w)) ∙ y)
      ]
    ]

  set_buf-IsKept :
      (k dev blockno : ℕ) (v : Buf)
      → k ≤ nbuf
      → IsSingle order c
      → holds_block dev blockno v ≡ true
      → ((dev blockno j : ℕ)
          → 0 < dev
          → 0 < j
          → j ≤ nbuf
          → k ≢ j
          → holds_block dev blockno v ≡ true
          → holds_block dev blockno (c.buf (order j)) ≡ true
          → ⊥)
      → IsKept order dev blockno (order k) (set_buf (order k) v c)
  set_buf-IsKept k dev blockno v m s e alone = record {
    ring = set_buf-IsRing nbuf order c (order k) v r;
    single = set_buf-IsSingle k v m alone s;
    holds = ap (holds_block dev blockno) (same_buf k v) ∙ e;
  }

  found_alone :
      (k dev blockno j : ℕ)
      → IsSingle order c
      → 0 < k
      → k ≤ nbuf
      → 0 < dev
      → 0 < j
      → j ≤ nbuf
      → k ≢ j
      → holds_block dev blockno (c.buf (order k)) ≡ true
      → holds_block dev blockno (c.buf (order j)) ≡ true
      → ⊥
  unfolding IsSingle
  found_alone k dev blockno j s p h d q b n x y = n (s k j dev blockno d p h q b x y)

  -- A recycled buffer holds no block that another one held.
  recycled_alone :
      (dev blockno dev' blockno' j : ℕ)
      → holds_block dev blockno (c.buf (order j)) ≡ false
      → holds_block dev' blockno' (recycled dev blockno) ≡ true
      → holds_block dev' blockno' (c.buf (order j)) ≡ true
      → ⊥
  recycled_alone dev blockno dev' blockno' j f x y =
      let (a, b) = both (dev == dev') (blockno == blockno') x in
      let a' = (==_iff dev dev').0 a in
      let b' = (==_iff blockno blockno').0 b in
      cc (
        sym f
        ∙ ap (λ z. holds_block z blockno (c.buf (order j))) a'
        ∙ ap (λ z. holds_block dev' z (c.buf (order j))) b'
        ∙ y)

  got-IsKept :
      (dev blockno b : ℕ) (d : Cache) (o : Option (ℕ × Cache))
      → IsSingle order c
      → IsGot nbuf order dev blockno c o
      → o ≡ some (b, d)
      → IsKept order dev blockno b d
  unfolding bpin
  got-IsKept dev blockno b d o s (hit j p h e m) q =
      let at_b : order j ≡ b = cc q in
      let at_d : bpin (order j) c ≡ d = cc q in
      subst (λ x. IsKept order dev blockno x d) at_b
        (subst (IsKept order dev blockno (order j)) at_d (
          set_buf-IsKept j dev blockno _ h s e
            (λ x y k f g a n. found_alone j x y k s p h f g a n)))
  got-IsKept dev blockno b d o s (recycles j m p h e u) q =
      let at_b : order j ≡ b = cc q in
      let at_d : set_buf (order j) (recycled dev blockno) c ≡ d = cc q in
      subst (λ x. IsKept order dev blockno x d) at_b
        (subst (IsKept order dev blockno (order j)) at_d (
          set_buf-IsKept j dev blockno (recycled dev blockno) h s (itself dev blockno)
            (λ x y k f g a n. recycled_alone dev blockno x y k (m k (omega arith) (omega arith)))))
  got-IsKept dev blockno b d o s (full m u) q = absurd (cc q)

-- For a list that is a ring of all the buffers, in which no two buffers hold the same block of a
-- device other than 0, a call of bget that returns keeps the list and that no two buffers hold the
-- same such block, and the buffer that it returns holds the block that was asked for.
pub bget-IsKept :
    (order : ℕ → ℕ) (dev blockno b : ℕ) (c d : Cache)
    → IsRing nbuf order c
    → IsSingle order c
    → bget dev blockno c ≡ some (b, d)
    → IsKept order dev blockno b d
bget-IsKept order dev blockno b c d r s e =
    got-IsKept order c r dev blockno b d _ s (bget-ends order dev blockno c r) e
