-- ===== src/Bio/Release.antt =====
-- binit, brelse and bpin of kernel/bio.c on the list of the buffers.
use cow_pbs_cofee_cafe_icecr.Base.{
  ℕ, zero, suc, ◌+◌, ◌-◌, ◌%◌, ◌^◌, ◌<◌, ◌≤◌, ◌≡◌, ◌≢◌, refl, sym, ◌∙◌, ap, subst, arith, true,
  ◌==◌, ==_iff, if_keeps, dec_lt, ℕ_discrete, some, update_self, update_other,
}
use cow_pbs_cofee_cafe_icecr.Bio.{
  Buf, Cache, nbuf, push_front, unlink, binit_from, binit, set_buf, bunpin, brelse,
}
use cow_pbs_cofee_cafe_icecr.Bio.Ring.{
  IsRing, without, in_front, in_front-far, in_front-first, without-below, without-above,
  unlink-IsRing, set_buf-IsRing, push_front-IsRing,
}

-- The buffers below `b` in the order in which binit leaves them, the last one first.
pub IsCounting : ℕ → (ℕ → ℕ) → Type 0
IsCounting b order = (i : ℕ) → 0 < i → i ≤ b → order i ≡ b - i

IsCounting-in_front :
    (b : ℕ) (order : ℕ → ℕ) → IsCounting b order → IsCounting (b + 1) (in_front b order)
unfolding IsCounting
IsCounting-in_front b order h i p m = elim (ℕ_discrete i 1) [
  | yes e ↦ in_front-first b order i e ∙ omega arith
  | no e ↦
      in_front-far b order i (omega arith) ∙ h (i - 1) (omega arith) (omega arith) ∙ omega arith
]

binit_from-IsRing :
    (k b : ℕ) (order : ℕ → ℕ) (c : Cache)
    → b + k ≡ nbuf
    → IsRing b order c
    → IsCounting b order
    → (order' : ℕ → ℕ) × IsRing nbuf order' (binit_from k b c) × IsCounting nbuf order'
unfolding binit_from IsCounting
binit_from-IsRing zero b order c e r h =
    let q : b ≡ nbuf = omega arith in
    (order, subst (λ x. IsRing x order c) q r, subst (λ x. IsCounting x order) q h)
binit_from-IsRing (suc k) b order c e r h =
    binit_from-IsRing k (b + 1) (in_front b order) (push_front b c) (omega arith)
      (push_front-IsRing b order c r b (λ i m. fresh i m)) (IsCounting-in_front b order h)
  where
    fresh : (i : ℕ) → i ≤ b → order i ≢ b
    fresh i m q = elim (ℕ_discrete i 0) [
      | yes z ↦ let s = sym (r.starts) ∙ ap order (sym z) ∙ q in omega arith
      | no z ↦ let s = h i (omega arith) m in omega arith
    ]

-- binit links all the buffers, the last one in front.
pub binit-IsRing :
    (c : Cache) → (order : ℕ → ℕ) × IsRing nbuf order (binit c) × IsCounting nbuf order
unfolding binit IsCounting
binit-IsRing c =
    binit_from-IsRing nbuf 0 (λ i. nbuf) _ refl
      (record {
        starts = refl;
        closes = refl;
        forward = λ i m. update_self c.next nbuf nbuf;
        backward = λ i m. update_self c.prev nbuf nbuf;
        distinct = λ i j l m. absurd (omega arith);
      })
      (λ i p m. absurd (omega arith))

-- The cache `d` behind the release of the buffer in the place k + 1.
pub record IsReleased (n : ℕ) (order : ℕ → ℕ) (k : ℕ) (c d : Cache) : Type 0 where
  pub counted :
      d.buf (order (k + 1))
      ≡ record (c.buf (order (k + 1))) { refcnt = (c.buf (order (k + 1))).refcnt - 1 }
  pub others : (j : ℕ) → order (k + 1) ≢ j → d.buf j ≡ c.buf j
  pub unused :
      (c.buf (order (k + 1))).refcnt ≡ 1
      → IsRing n (in_front (order (k + 1)) (without (k + 1) order)) d
  pub in_use : (c.buf (order (k + 1))).refcnt ≢ 1 → IsRing n order d

module _ (n : ℕ) (order : ℕ → ℕ) (c : Cache) (k : ℕ) (r : IsRing n order c) (h : k < n)
    (held : 0 < (c.buf (order (k + 1))).refcnt)
    (small : (c.buf (order (k + 1))).refcnt < 2 ^ 32) where
  less :
      ((c.buf (order (k + 1))).refcnt + (2 ^ 32 - 1)) % 2 ^ 32 ≡ (c.buf (order (k + 1))).refcnt - 1
  less = omega arith

  taken_out : (i : ℕ) → i ≤ n - 1 → without (k + 1) order i ≢ order (k + 1)
  taken_out i m q = elim (dec_lt i (k + 1)) [
    | yes l ↦ r.distinct i (k + 1) l (omega arith) (sym (without-below (k + 1) order i l) ∙ q)
    | no l ↦
        r.distinct (k + 1) (i + 1) (omega arith) (omega arith)
          (sym q ∙ without-above (k + 1) order i (omega arith))
  ]

  moved-IsRing :
      (d : Cache)
      → IsRing n order d
      → IsRing n
          (in_front (order (k + 1)) (without (k + 1) order))
          (push_front (order (k + 1)) (unlink (order (k + 1)) d))
  moved-IsRing d s =
      subst
        (λ x.
          IsRing x (in_front (order (k + 1)) (without (k + 1) order))
            (push_front (order (k + 1)) (unlink (order (k + 1)) d)))
        (omega arith)
        (push_front-IsRing (n - 1) (without (k + 1) order) (unlink (order (k + 1)) d)
          (unlink-IsRing n order d s k h) (order (k + 1)) taken_out)

  bunpin-counted :
      (bunpin (order (k + 1)) c).buf (order (k + 1))
      ≡ record (c.buf (order (k + 1))) { refcnt = (c.buf (order (k + 1))).refcnt - 1 }
  unfolding bunpin set_buf
  bunpin-counted =
      update_self c.buf (order (k + 1)) _
      ∙ ap (λ x. record (c.buf (order (k + 1))) { refcnt = x }) less

  -- For a list that is a ring of `n` buffers, brelse of a held buffer in it, whose count is from 1
  -- to 2 ^ 32 - 1, returns: its count is one less and the rest of the buffer and the other buffers
  -- are as before. If the count was 1 the list is a ring with the buffer in front and the others in
  -- their old order, and else it is the same ring.
  pub brelse-IsReleased :
      (d : Cache) × (brelse true (order (k + 1)) c ≡ some d) × IsReleased n order k c d
  unfolding brelse bunpin set_buf push_front unlink
  brelse-IsReleased =
      let d = bunpin (order (k + 1)) c in
      let e = ap (λ (x : Buf). x.refcnt) bunpin-counted in
      if_keeps (λ o. (d : Cache) × (o ≡ some d) × IsReleased n order k c d)
        (((bunpin (order (k + 1)) c).buf (order (k + 1))).refcnt == 0)
        (some (push_front (order (k + 1)) (unlink (order (k + 1)) d))) (some d)
        (λ q. (
          _,
          refl,
          record {
            counted = bunpin-counted;
            others = λ j a. update_other c.buf (order (k + 1)) _ j a;
            unused = λ u. moved-IsRing d (set_buf-IsRing n order c (order (k + 1)) _ r);
            in_use = λ u. let z = (==_iff _ 0).0 q in absurd (u (omega arith));
          },
        ))
        (λ q. (
          _,
          refl,
          record {
            counted = bunpin-counted;
            others = λ j a. update_other c.buf (order (k + 1)) _ j a;
            unused = λ u.
                let z : (d.buf (order (k + 1))).refcnt ≡ 0 = e ∙ ap (λ (x : ℕ). x - 1) u in
                absurd (cc (q, (==_iff (d.buf (order (k + 1))).refcnt 0).1 z));
            in_use = λ u. set_buf-IsRing n order c (order (k + 1)) _ r;
          },
        ))
