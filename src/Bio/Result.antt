-- ===== src/Bio/Result.antt =====
-- What bget of kernel/bio.c returns, by the fields of the buffers.
use cow_pbs_cofee_cafe_icecr.Base.{
  ℕ, ◌+◌, ◌^◌, ◌<◌, ◌≤◌, ◌≡◌, ◌≢◌, refl, ◌∙◌, ap, arith, Bool, true, false, ◌&&◌, ◌==◌, ==_iff,
  Option, none, some, update_self, update_other,
}
use cow_pbs_cofee_cafe_icecr.Bio.{Buf, Cache, nbuf, holds_block, set_buf, recycled, bpin, bget}
use cow_pbs_cofee_cafe_icecr.Bio.Ring.{IsRing}
use cow_pbs_cofee_cafe_icecr.Bio.Get.{IsGot, hit, recycles, full, bget-ends}

-- The buffer holds the block.
abbrev pub Holds : ℕ → ℕ → Buf → Type 0
Holds dev blockno b = (b.dev ≡ dev) × (b.blockno ≡ blockno)

-- The cache `d` is `c` but for the fields of the buffer `b`.
pub record IsBeside (b : ℕ) (c d : Cache) : Type 0 where
  pub others : (j : ℕ) → b ≢ j → d.buf j ≡ c.buf j
  pub next : d.next ≡ c.next
  pub prev : d.prev ≡ c.prev

-- The buffer `b` is found, and has one reference more.
pub record IsPinned (b : ℕ) (c d : Cache) : Type 0 where
  pub counted : (d.buf b).refcnt ≡ (c.buf b).refcnt + 1
  pub valid : (d.buf b).valid ≡ (c.buf b).valid
  pub dev : (d.buf b).dev ≡ (c.buf b).dev
  pub blockno : (d.buf b).blockno ≡ (c.buf b).blockno
  pub beside : IsBeside b c d

-- The buffer `b` is made over to a block.
pub record IsRecycled (dev blockno b : ℕ) (c d : Cache) : Type 0 where
  pub counted : (d.buf b).refcnt ≡ 1
  pub valid : (d.buf b).valid ≡ false
  pub holds : Holds dev blockno (d.buf b)
  pub beside : IsBeside b c d

-- No buffer in the places from 1 to before `j` holds the block.
abbrev pub NoneHolds : (ℕ → ℕ) → ℕ → ℕ → Cache → ℕ → Type 0
NoneHolds order dev blockno c j = (m : ℕ) → 0 < m → m < j → ¬ Holds dev blockno (c.buf (order m))

-- The buffers in the places behind `j` have references.
abbrev pub AllUsed : (ℕ → ℕ) → Cache → ℕ → Type 0
AllUsed order c j = (m : ℕ) → j < m → m ≤ nbuf → 0 < (c.buf (order m)).refcnt

-- The ways that bget ends.
pub data IsReturned (order : ℕ → ℕ) (dev blockno : ℕ) (c : Cache)
    : Option (ℕ × Cache) → Type 0 where
  finds :
      (j : ℕ) (d : Cache)
      → 0 < j
      → j ≤ nbuf
      → Holds dev blockno (c.buf (order j))
      → NoneHolds order dev blockno c j
      → IsPinned (order j) c d
      → IsReturned order dev blockno c (some (order j, d))
  reuses :
      (j : ℕ) (d : Cache)
      → 0 < j
      → j ≤ nbuf
      → NoneHolds order dev blockno c (nbuf + 1)
      → (c.buf (order j)).refcnt ≡ 0
      → AllUsed order c j
      → IsRecycled dev blockno (order j) c d
      → IsReturned order dev blockno c (some (order j, d))
  panics :
      NoneHolds order dev blockno c (nbuf + 1)
      → AllUsed order c 0
      → IsReturned order dev blockno c none

both : (a b : Bool) → (a && b) ≡ true → (a ≡ true) × (b ≡ true)
both true b h = (refl, h)
both false b h = absurd (cc h)

holds_block-Holds :
    (dev blockno : ℕ) (b : Buf) → holds_block dev blockno b ≡ true → Holds dev blockno b
holds_block-Holds dev blockno b h =
    let (x, y) = both (b.dev == dev) (b.blockno == blockno) h in
    ((==_iff b.dev dev).0 x, (==_iff b.blockno blockno).0 y)

Holds-holds_block :
    (dev blockno : ℕ) (b : Buf) → Holds dev blockno b → holds_block dev blockno b ≡ true
Holds-holds_block dev blockno b (x, y) =
    rw ((==_iff b.dev dev).1 x, (==_iff b.blockno blockno).1 y) refl

missing-Holds :
    (dev blockno : ℕ) (b : Buf) → holds_block dev blockno b ≡ false → ¬ Holds dev blockno b
missing-Holds dev blockno b e h = cc (e, Holds-holds_block dev blockno b h)

set_buf-IsBeside : (b : ℕ) (v : Buf) (c : Cache) → IsBeside b c (set_buf b v c)
unfolding set_buf
set_buf-IsBeside b v c = record {
  others = λ j n. update_other c.buf b v j n;
  next = refl;
  prev = refl;
}

set_buf_self : (b : ℕ) (v : Buf) (c : Cache) → (set_buf b v c).buf b ≡ v
unfolding set_buf
set_buf_self b v c = update_self c.buf b v

bpin-IsPinned : (b : ℕ) (c : Cache) → (c.buf b).refcnt + 1 < 2 ^ 32 → IsPinned b c (bpin b c)
unfolding bpin
bpin-IsPinned b c h = record {
  counted = ap (λ (x : Buf). x.refcnt) (set_buf_self b _ c) ∙ omega arith;
  valid = ap (λ (x : Buf). x.valid) (set_buf_self b _ c);
  dev = ap (λ (x : Buf). x.dev) (set_buf_self b _ c);
  blockno = ap (λ (x : Buf). x.blockno) (set_buf_self b _ c);
  beside = set_buf-IsBeside b _ c;
}

recycled-IsRecycled :
    (dev blockno b : ℕ) (c : Cache)
    → IsRecycled dev blockno b c (set_buf b (recycled dev blockno) c)
recycled-IsRecycled dev blockno b c = record {
  counted = ap (λ (x : Buf). x.refcnt) (set_buf_self b _ c);
  valid = ap (λ (x : Buf). x.valid) (set_buf_self b _ c);
  holds = (
    ap (λ (x : Buf). x.dev) (set_buf_self b _ c),
    ap (λ (x : Buf). x.blockno) (set_buf_self b _ c),
  );
  beside = set_buf-IsBeside b _ c;
}

positive : (k : ℕ) → k ≢ 0 → 0 < k
positive k h = ground arith

ends-IsReturned :
    (order : ℕ → ℕ) (dev blockno : ℕ) (c : Cache) (o : Option (ℕ × Cache))
    → ((b : ℕ) → (c.buf b).refcnt + 1 < 2 ^ 32)
    → IsGot nbuf order dev blockno c o
    → IsReturned order dev blockno c o
ends-IsReturned order dev blockno c o s (hit j p h e m) =
    finds j _ p h (holds_block-Holds dev blockno (c.buf (order j)) e)
      (λ x a b. missing-Holds dev blockno (c.buf (order x)) (m x (omega arith) b))
      (bpin-IsPinned (order j) c (s (order j)))
ends-IsReturned order dev blockno c o s (recycles j m p h e u) =
    reuses j _ p h (λ x a b. missing-Holds dev blockno (c.buf (order x)) (m x (omega arith) b)) e
      (λ x a b. positive _ (u x a b)) (recycled-IsRecycled dev blockno (order j) c)
ends-IsReturned order dev blockno c o s (full m u) =
    panics (λ x a b. missing-Holds dev blockno (c.buf (order x)) (m x (omega arith) b))
      (λ x a b. positive _ (u x a b))

-- For a list that is a ring of all the buffers, with counts below 2 ^ 32 - 1, bget ends in one of
-- three ways: with the first buffer in the list that holds the block, which then has one reference
-- more; or, if none holds it, with the last buffer in the list that has no references, which then
-- holds the block, is not valid and has one reference; or, if none holds it and all have
-- references, with the panic. It changes no other buffer and no link.
pub bget-IsReturned :
    (order : ℕ → ℕ) (dev blockno : ℕ) (c : Cache)
    → IsRing nbuf order c
    → ((b : ℕ) → (c.buf b).refcnt + 1 < 2 ^ 32)
    → IsReturned order dev blockno c (bget dev blockno c)
bget-IsReturned order dev blockno c r s =
    ends-IsReturned order dev blockno c _ s (bget-ends order dev blockno c r)
