-- ===== src/Bio/Ring.antt =====
-- The list of kernel/bio.c as a ring: `order` numbers the buffers from the most recently used on,
-- with `head` in the places 0 and n + 1.
use cow_pbs_cofee_cafe_icecr.Base.{
  ℕ, ◌+◌, ◌-◌, ◌<◌, ◌≤◌, ◌≡◌, ◌≢◌, refl, sym, ◌∙◌, ap, arith, false, ◌==◌, ltb, if◌then◌else◌,
  dec_lt, ℕ_discrete, update, update_self, update_other,
}
use cow_pbs_cofee_cafe_icecr.Bio.{Buf, Cache, nbuf, push_front, unlink, set_buf}

pub record IsRing (n : ℕ) (order : ℕ → ℕ) (c : Cache) : Type 0 where
  pub starts : order 0 ≡ nbuf
  pub closes : order (n + 1) ≡ nbuf
  pub forward : (i : ℕ) → i ≤ n → c.next (order i) ≡ order (i + 1)
  pub backward : (i : ℕ) → i ≤ n → c.prev (order (i + 1)) ≡ order i
  pub distinct : (i j : ℕ) → i < j → j ≤ n → order i ≢ order j

-- The order with the place `k` left out.
pub without : ℕ → (ℕ → ℕ) → ℕ → ℕ
without k order i = if ltb i k then order i else order (i + 1)

-- The order with `b` in front.
pub in_front : ℕ → (ℕ → ℕ) → ℕ → ℕ
in_front b order i = if i == 0 then nbuf else if i == 1 then b else order (i - 1)

pub without-below : (k : ℕ) (order : ℕ → ℕ) (i : ℕ) → i < k → without k order i ≡ order i
unfolding without
without-below k order i h = ground arith

pub without-above : (k : ℕ) (order : ℕ → ℕ) (i : ℕ) → k ≤ i → without k order i ≡ order (i + 1)
unfolding without
without-above k order i h = ground arith

in_front-later : (b : ℕ) (order : ℕ → ℕ) (i : ℕ) → 0 < i → in_front b order (i + 1) ≡ order i
unfolding in_front
in_front-later b order i h = rw (away i, still i h) (ap order (omega arith))
  where
    away : (i : ℕ) → (i + 1 == 0) ≡ false
    away i = ground arith

    still : (i : ℕ) → 0 < i → (i + 1 == 1) ≡ false
    still i h = ground arith

pub in_front-far : (b : ℕ) (order : ℕ → ℕ) (i : ℕ) → 1 < i → in_front b order i ≡ order (i - 1)
in_front-far b order i h =
    ap (in_front b order) (omega arith) ∙ in_front-later b order (i - 1) (omega arith)

in_front-head : (b : ℕ) (order : ℕ → ℕ) (i : ℕ) → i ≡ 0 → in_front b order i ≡ nbuf
unfolding in_front
in_front-head b order i e = ap (in_front b order) e

pub in_front-first : (b : ℕ) (order : ℕ → ℕ) (i : ℕ) → i ≡ 1 → in_front b order i ≡ b
unfolding in_front
in_front-first b order i e = ap (in_front b order) e

module _ (n : ℕ) (order : ℕ → ℕ) (c : Cache) (r : IsRing n order c) where
  -- The same for the places 1 to n + 1.
  pub later_distinct : (i j : ℕ) → 0 < i → i < j → j ≤ n + 1 → order i ≢ order j
  later_distinct i j p l h = elim (ℕ_discrete j (n + 1)) [
    | yes e ↦
        λ q. r.distinct 0 i p (omega arith) (r.starts ∙ sym r.closes ∙ ap order (sym e) ∙ sym q)
    | no e ↦ r.distinct i j l (omega arith)
  ]

  unlink-prev :
      (k : ℕ)
      → k < n
      → (unlink (order (k + 1)) c).prev ≡ update c.prev (order (k + 1 + 1)) (order k)
  unfolding unlink
  unlink-prev k h =
      ap (λ x. update c.prev x (c.prev (order (k + 1)))) (r.forward (k + 1) (omega arith))
      ∙ ap (update c.prev (order (k + 1 + 1))) (r.backward k (omega arith))

  unlink-next :
      (k : ℕ)
      → k < n
      → (unlink (order (k + 1)) c).next ≡ update c.next (order k) (order (k + 1 + 1))
  unfolding unlink
  unlink-next k h =
      ap (λ f. update c.next (f (order (k + 1))) (c.next (order (k + 1)))) (unlink-prev k h)
      ∙ ap (λ x. update c.next x (c.next (order (k + 1))))
          (update_other c.prev (order (k + 1 + 1)) (order k) (order (k + 1)) (λ q.
              later_distinct (k + 1) (k + 1 + 1) (omega arith) (omega arith) (omega arith) (sym q))
            ∙ r.backward k (omega arith))
      ∙ ap (update c.next (order k)) (r.forward (k + 1) (omega arith))

  module _ (k : ℕ) (h : k < n) where
    next_at :
        (i : ℕ)
        → i ≤ n - 1
        → update c.next (order k) (order (k + 1 + 1)) (without (k + 1) order i)
          ≡ without (k + 1) order (i + 1)
    next_at i m = elim (dec_lt i k) [
      | yes l ↦
          ap (update c.next (order k) (order (k + 1 + 1)))
            (without-below (k + 1) order i (omega arith))
          ∙ update_other c.next (order k) _ (order i) (λ q. r.distinct i k l (omega arith) (sym q))
          ∙ r.forward i (omega arith)
          ∙ sym (without-below (k + 1) order (i + 1) (omega arith))
      | no l ↦ elim (ℕ_discrete i k) [
        | yes e ↦
            ap (update c.next (order k) (order (k + 1 + 1)))
              (without-below (k + 1) order i (omega arith) ∙ ap order e)
            ∙ update_self c.next (order k) (order (k + 1 + 1))
            ∙ ap order (omega arith)
            ∙ sym (without-above (k + 1) order (i + 1) (omega arith))
        | no e ↦
            ap (update c.next (order k) (order (k + 1 + 1)))
              (without-above (k + 1) order i (omega arith))
            ∙ update_other c.next (order k) _ (order (i + 1))
                (r.distinct k (i + 1) (omega arith) (omega arith))
            ∙ r.forward (i + 1) (omega arith)
            ∙ sym (without-above (k + 1) order (i + 1) (omega arith))
      ]
    ]

    prev_at :
        (i : ℕ)
        → i ≤ n - 1
        → update c.prev (order (k + 1 + 1)) (order k) (without (k + 1) order (i + 1))
          ≡ without (k + 1) order i
    prev_at i m = elim (dec_lt i k) [
      | yes l ↦
          ap (update c.prev (order (k + 1 + 1)) (order k))
            (without-below (k + 1) order (i + 1) (omega arith))
          ∙ update_other c.prev (order (k + 1 + 1)) _ (order (i + 1)) (λ q.
            later_distinct (i + 1) (k + 1 + 1) (omega arith) (omega arith) (omega arith) (sym q))
          ∙ r.backward i (omega arith)
          ∙ sym (without-below (k + 1) order i (omega arith))
      | no l ↦ elim (ℕ_discrete i k) [
        | yes e ↦
            ap (update c.prev (order (k + 1 + 1)) (order k))
              (without-above (k + 1) order (i + 1) (omega arith) ∙ ap order (omega arith))
            ∙ update_self c.prev (order (k + 1 + 1)) (order k)
            ∙ ap order (sym e)
            ∙ sym (without-below (k + 1) order i (omega arith))
        | no e ↦
            ap (update c.prev (order (k + 1 + 1)) (order k))
              (without-above (k + 1) order (i + 1) (omega arith))
            ∙ update_other c.prev (order (k + 1 + 1)) _ (order (i + 1 + 1))
                (later_distinct (k + 1 + 1) (i + 1 + 1) (omega arith) (omega arith) (omega arith))
            ∙ r.backward (i + 1) (omega arith)
            ∙ sym (without-above (k + 1) order i (omega arith))
      ]
    ]

    apart_at : (i j : ℕ) → i < j → j ≤ n - 1 → without (k + 1) order i ≢ without (k + 1) order j
    apart_at i j l m q = elim (dec_lt j (k + 1)) [
      | yes y ↦
          r.distinct i j l (omega arith) (
            sym (without-below (k + 1) order i (omega arith)) ∙ q ∙ without-below (k + 1) order j y)
      | no y ↦ elim (dec_lt i (k + 1)) [
        | yes x ↦ r.distinct i (j + 1) (omega arith) (omega arith) (
            sym (without-below (k + 1) order i x) ∙ q ∙ without-above (k + 1) order j (omega arith))
        | no x ↦ r.distinct (i + 1) (j + 1) (omega arith) (omega arith) (
            sym (without-above (k + 1) order i (omega arith))
            ∙ q
            ∙ without-above (k + 1) order j (omega arith))
      ]
    ]

    -- The buffer in the place k + 1 is taken out.
    pub unlink-IsRing : IsRing (n - 1) (without (k + 1) order) (unlink (order (k + 1)) c)
    unlink-IsRing = record {
      starts = without-below (k + 1) order 0 (omega arith) ∙ r.starts;
      closes =
          without-above (k + 1) order (n - 1 + 1) (omega arith) ∙ ap order (omega arith) ∙ r.closes;
      forward = λ i m. ap (λ f. f (without (k + 1) order i)) (unlink-next k h) ∙ next_at i m;
      backward = λ i m. ap (λ f. f (without (k + 1) order (i + 1))) (unlink-prev k h) ∙ prev_at i m;
      distinct = apart_at;
    }

  module _ (b : ℕ) (new : (i : ℕ) → i ≤ n → order i ≢ b) where
    not_head : nbuf ≢ b
    not_head q = new 0 (omega arith) (r.starts ∙ q)

    front-next : (push_front b c).next ≡ update (update c.next b (order 1)) nbuf b
    unfolding push_front
    front-next =
        ap (λ x. update (update c.next b x) nbuf b)
          (ap c.next (sym r.starts) ∙ r.forward 0 (omega arith))

    front-prev : (push_front b c).prev ≡ update (update c.prev b nbuf) (order 1) b
    unfolding push_front
    front-prev =
        ap (λ x. update (update c.prev b nbuf) x b)
          (update_other c.next b _ nbuf (λ q. not_head (sym q))
            ∙ ap c.next (sym r.starts)
            ∙ r.forward 0 (omega arith))

    later_new : (i : ℕ) → 0 < i → i ≤ n + 1 → b ≢ order i
    later_new i p m q = elim (ℕ_discrete i (n + 1)) [
      | yes e ↦ not_head (sym r.closes ∙ ap order (sym e) ∙ sym q)
      | no e ↦ new i (omega arith) (sym q)
    ]

    front_at :
        (i : ℕ)
        → i ≤ n + 1
        → update (update c.next b (order 1)) nbuf b (in_front b order i) ≡ in_front b order (i + 1)
    front_at i m = elim (ℕ_discrete i 0) [
      | yes e ↦
          ap (update (update c.next b (order 1)) nbuf b) (in_front-head b order i e)
          ∙ update_self (update c.next b (order 1)) nbuf b
          ∙ sym (in_front-first b order (i + 1) (omega arith))
      | no e ↦ elim (ℕ_discrete i 1) [
        | yes f ↦
            ap (update (update c.next b (order 1)) nbuf b) (in_front-first b order i f)
            ∙ update_other (update c.next b (order 1)) nbuf b b not_head
            ∙ update_self c.next b (order 1)
            ∙ ap order (sym f)
            ∙ sym (in_front-later b order i (omega arith))
        | no f ↦
            ap (update (update c.next b (order 1)) nbuf b) (in_front-far b order i (omega arith))
            ∙ update_other (update c.next b (order 1)) nbuf b (order (i - 1))
                (λ q. r.distinct 0 (i - 1) (omega arith) (omega arith) (r.starts ∙ q))
            ∙ update_other c.next b (order 1) (order (i - 1))
                (later_new (i - 1) (omega arith) (omega arith))
            ∙ r.forward (i - 1) (omega arith)
            ∙ ap order (omega arith)
            ∙ sym (in_front-later b order i (omega arith))
      ]
    ]

    back_at :
        (i : ℕ)
        → i ≤ n + 1
        → update (update c.prev b nbuf) (order 1) b (in_front b order (i + 1)) ≡ in_front b order i
    back_at i m = elim (ℕ_discrete i 0) [
      | yes e ↦
          ap (update (update c.prev b nbuf) (order 1) b)
            (in_front-first b order (i + 1) (omega arith))
          ∙ update_other (update c.prev b nbuf) (order 1) b b
              (λ q. later_new 1 (omega arith) (omega arith) (sym q))
          ∙ update_self c.prev b nbuf
          ∙ sym (in_front-head b order i e)
      | no e ↦ elim (ℕ_discrete i 1) [
        | yes f ↦
            ap (update (update c.prev b nbuf) (order 1) b)
              (in_front-later b order i (omega arith) ∙ ap order f)
            ∙ update_self (update c.prev b nbuf) (order 1) b
            ∙ sym (in_front-first b order i f)
        | no f ↦
            ap (update (update c.prev b nbuf) (order 1) b) (in_front-later b order i (omega arith))
            ∙ update_other (update c.prev b nbuf) (order 1) b (order i)
                (later_distinct 1 i (omega arith) (omega arith) m)
            ∙ update_other c.prev b nbuf (order i) (later_new i (omega arith) m)
            ∙ ap (λ x. c.prev (order x)) (omega arith)
            ∙ r.backward (i - 1) (omega arith)
            ∙ sym (in_front-far b order i (omega arith))
      ]
    ]

    front_apart : (i j : ℕ) → i < j → j ≤ n + 1 → in_front b order i ≢ in_front b order j
    front_apart i j l m q = elim (ℕ_discrete j 1) [
      | yes e ↦
          not_head (sym (in_front-head b order i (omega arith)) ∙ q ∙ in_front-first b order j e)
      | no e ↦
          let at_j = q ∙ in_front-far b order j (omega arith) in
          elim (ℕ_discrete i 0) [
            | yes f ↦
                r.distinct 0 (j - 1) (omega arith) (omega arith)
                  (r.starts ∙ sym (in_front-head b order i f) ∙ at_j)
            | no f ↦ elim (ℕ_discrete i 1) [
              | yes g ↦
                  later_new (j - 1) (omega arith) (omega arith)
                    (sym (in_front-first b order i g) ∙ at_j)
              | no g ↦
                  r.distinct (i - 1) (j - 1) (omega arith) (omega arith)
                    (sym (in_front-far b order i (omega arith)) ∙ at_j)
            ]
          ]
    ]

    -- A buffer that is not in the list is put in front.
    pub push_front-IsRing : IsRing (n + 1) (in_front b order) (push_front b c)
    unfolding in_front
    push_front-IsRing = record {
      starts = refl;
      closes = in_front-later b order (n + 1) (omega arith) ∙ r.closes;
      forward = λ i m. ap (λ f. f (in_front b order i)) front-next ∙ front_at i m;
      backward = λ i m. ap (λ f. f (in_front b order (i + 1))) front-prev ∙ back_at i m;
      distinct = front_apart;
    }

pub set_buf-IsRing :
    (n : ℕ) (order : ℕ → ℕ) (c : Cache) (b : ℕ) (v : Buf)
    → IsRing n order c
    → IsRing n order (set_buf b v c)
unfolding set_buf
set_buf-IsRing n order c b v r = record {
  starts = r.starts;
  closes = r.closes;
  forward = r.forward;
  backward = r.backward;
  distinct = r.distinct;
}
