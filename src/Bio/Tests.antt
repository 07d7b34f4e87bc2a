-- ===== src/Bio/Tests.antt =====
-- The cache as binit leaves it, with one block in the buffer 27.
use cow_pbs_cofee_cafe_icecr.Base.{
  ℕ, ◌+◌, ◌^◌, ◌<◌, ◌-◌, ◌≡◌, refl, arith, true, false, ◌==◌, if◌then◌else◌, some,
}
use cow_pbs_cofee_cafe_icecr.Bio.{
  Cache, nbuf, bget, brelse, set_buf, recycled, find_block, find_unused, get_found, recycle,
}
use cow_pbs_cofee_cafe_icecr.Bio.Ring.{IsRing}
use cow_pbs_cofee_cafe_icecr.Bio.Release.{IsReleased, brelse-IsReleased}
use cow_pbs_cofee_cafe_icecr.Bio.Result.{IsReturned, bget-IsReturned}
use cow_pbs_cofee_cafe_icecr.Bio.Single.{IsSingle, IsKept, bget-IsKept}

abbrev in_order : ℕ → ℕ
in_order i = if i == 31 then 30 else 30 - i

abbrev one_cached : Cache
one_cached = record {
  buf = λ b.
      if b == 27
      then record { valid = true; dev = 1; blockno = 5; refcnt = 1 }
      else record { valid = false; dev = 0; blockno = 0; refcnt = 0 };
  next = λ b. if b == 0 then 30 else b - 1;
  prev = λ b. if b == 30 then 0 else b + 1;
}

one_cached-IsRing : IsRing nbuf in_order one_cached
one_cached-IsRing = record {
  starts = refl;
  closes = refl;
  forward = λ i m. ground arith;
  backward = λ i m. ground arith;
  distinct = λ i j l m q. ground arith;
}

one_cached-IsSingle : IsSingle in_order one_cached
unfolding IsSingle
one_cached-IsSingle i j dev blockno p a b e f x y = ground arith

brelse-IsReleased_example :
    (d : Cache) × (brelse true 27 one_cached ≡ some d) × IsReleased nbuf in_order 2 one_cached d
brelse-IsReleased_example =
    brelse-IsReleased nbuf in_order one_cached 2 one_cached-IsRing (omega arith) (omega arith)
      (omega arith)

one_cached-small : (b : ℕ) → (one_cached.buf b).refcnt + 1 < 2 ^ 32
one_cached-small b = ground arith

bget-IsReturned_example : IsReturned in_order 1 5 one_cached (bget 1 5 one_cached)
bget-IsReturned_example = bget-IsReturned in_order 1 5 one_cached one_cached-IsRing one_cached-small

-- Block 6 goes to the least recently used buffer.
test_recycled : bget 1 6 one_cached ≡ some (0, set_buf 0 (recycled 1 6) one_cached)
unfolding bget find_block find_unused get_found recycle
test_recycled = refl

bget-IsKept_example : IsKept in_order 1 6 0 (set_buf 0 (recycled 1 6) one_cached)
bget-IsKept_example =
    bget-IsKept in_order 1 6 0 one_cached (set_buf 0 (recycled 1 6) one_cached) one_cached-IsRing
      one_cached-IsSingle test_recycled
