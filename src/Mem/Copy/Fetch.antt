-- ===== src/Mem/Copy/Fetch.antt =====
-- `copyin` of kernel/vm.c against a description byte by byte.
use cow_pbs_cofee_cafe_icecr.Base.{
  ℕ, zero, suc, ◌+◌, ◌-◌, ◌%◌, ◌<◌, ◌≤◌, ◌≡◌, ◌≢◌, ◌⊎◌, inl, inr, refl, sym, ◌∙◌, ap, subst, arith,
  true, false, ◌&&◌, ◌==◌, ==_iff, ltb, leb, if_keeps, if◌then◌else◌, Bool-cases, dec_lt, Outcome,
  ret, ℤ, pos, negsuc,
}
use cow_pbs_cofee_cafe_icecr.Mem.Pages.{Mem, pg_round_down}
use cow_pbs_cofee_cafe_icecr.Mem.Pte.{maxva}
use cow_pbs_cofee_cafe_icecr.Mem.Walk.{user_page, walkaddr}
use cow_pbs_cofee_cafe_icecr.Mem.Walk.Lookup.{lookup, walk-lookup}
use cow_pbs_cofee_cafe_icecr.Mem.Copy.{byte_at, read_bytes, chunk, copyin_loop, copyin}

-- The page of the process at a virtual address, 0 if the user has none there.
pub page_at : ℕ → ℕ → Mem → ℕ
page_at pagetable va m = if leb maxva va then 0 else user_page (lookup pagetable va m) m

pub walkaddr-page_at :
    (pagetable va : ℕ) (m : Mem) → walkaddr pagetable va m ≡ ret (page_at pagetable va m)
unfolding walkaddr page_at
walkaddr-page_at pagetable va m = elim (Bool-cases (leb maxva va)) [
  | inl e ↦ rw e
  | inr e ↦ rw (e, (walk-lookup pagetable va m).0 (below va e))
]
  where
    below : (va : ℕ) → leb maxva va ≡ false → va < maxva
    below va e = ground arith

-- The page of the byte at the virtual address `a`, and the byte.
abbrev pub page_of_byte : ℕ → ℕ → Mem → ℕ
page_of_byte pagetable a m = page_at pagetable (pg_round_down a) m

abbrev pub user_byte : ℕ → ℕ → Mem → ℕ
user_byte pagetable a m = byte_at m.word (page_of_byte pagetable a m + a % 4096)

-- The bytes `from` to `to` of the process stand in the buffer, and the rest of it is as before.
pub record IsFetched (pagetable dst srcva n : ℕ) (m : Mem) (k k' : ℕ → ℕ) : Type 0 where
  pub mapped : (i : ℕ) → i < n → page_of_byte pagetable (srcva + i) m ≢ 0
  pub fetched : (i : ℕ) → i < n → k' (dst + i) ≡ user_byte pagetable (srcva + i) m
  pub others : (j : ℕ) → (j < dst) ⊎ (dst + n ≤ j) → k' j ≡ k j

-- The ways that `copyin` ends.
pub data IsCopyin (pagetable dst srcva len : ℕ) (m : Mem) (k : ℕ → ℕ)
    : Outcome (ℤ × (ℕ → ℕ)) → Type 0 where
  copies :
      (k' : ℕ → ℕ)
      → IsFetched pagetable dst srcva len m k k'
      → IsCopyin pagetable dst srcva len m k (ret (pos 0, k'))
  faults :
      (n : ℕ) (k' : ℕ → ℕ)
      → n < len
      → page_of_byte pagetable (srcva + n) m ≡ 0
      → IsFetched pagetable dst srcva n m k k'
      → IsCopyin pagetable dst srcva len m k (ret (negsuc 0, k'))

nothing-IsFetched :
    (pagetable dst srcva n : ℕ) (m : Mem) (k : ℕ → ℕ)
    → n ≡ 0
    → IsFetched pagetable dst srcva n m k k
nothing-IsFetched pagetable dst srcva n m k e = record {
  mapped = λ i h. absurd (omega arith);
  fetched = λ i h. absurd (omega arith);
  others = λ j h. refl;
}

-- Within a chunk the page stays the same.
chunk-page :
    (srcva len i : ℕ) → i < chunk srcva len → pg_round_down (srcva + i) ≡ pg_round_down srcva
chunk-page srcva len i h = ground arith

chunk-place :
    (srcva len i : ℕ) → i < chunk srcva len → (srcva + i) % 4096 ≡ srcva - pg_round_down srcva + i
chunk-place srcva len i h = ground arith

read_bytes-in :
    (dst src n i : ℕ) (w k : ℕ → ℕ)
    → i < n
    → read_bytes dst src n w k (dst + i) ≡ byte_at w (src + i)
read_bytes-in dst src n i w k h =
    rw (inside dst n i h) (ap (λ x. byte_at w (src + x)) (omega arith))
  where
    inside : (dst n i : ℕ) → i < n → (leb dst (dst + i) && ltb (dst + i) (dst + n)) ≡ true
    inside dst n i h = ground arith

read_bytes-out :
    (dst src n j : ℕ) (w k : ℕ → ℕ) → (j < dst) ⊎ (dst + n ≤ j) → read_bytes dst src n w k j ≡ k j
read_bytes-out dst src n j w k h = rw (outside dst n j h)
  where
    outside : (dst n j : ℕ) → (j < dst) ⊎ (dst + n ≤ j) → (leb dst j && ltb j (dst + n)) ≡ false
    outside dst n j h = ground arith

first-IsFetched :
    (pagetable dst srcva len : ℕ) (m : Mem) (k : ℕ → ℕ)
    → page_of_byte pagetable srcva m ≢ 0
    → IsFetched pagetable dst srcva (chunk srcva len) m k (
        read_bytes dst
          (page_of_byte pagetable srcva m + (srcva - pg_round_down srcva))
          (chunk srcva len)
          m.word
          k)
first-IsFetched pagetable dst srcva len m k z =
    let pa = page_of_byte pagetable srcva m in
    let same : (i : ℕ) → i < chunk srcva len → page_of_byte pagetable (srcva + i) m ≡ pa =
      λ i h. ap (λ a. page_at pagetable a m) (chunk-page srcva len i h) in
    record {
      mapped = λ i h e. z (sym (same i h) ∙ e);
      fetched = λ i h.
          read_bytes-in dst (pa + (srcva - pg_round_down srcva)) (chunk srcva len) i m.word k h
          ∙ ap (byte_at m.word) (omega (arith, chunk-place srcva len i h))
          ∙ ap (λ p. byte_at m.word (p + (srcva + i) % 4096)) (sym (same i h));
      others = λ j h. read_bytes-out dst _ (chunk srcva len) j m.word k h;
    }

shift :
    (n l i srcva next : ℕ)
    → (l ≡ 0) ⊎ (srcva + n ≡ next)
    → ¬ (i < n)
    → i < n + l
    → srcva + i ≡ next + (i - n)
shift n l i srcva next e q h = omega arith

outer : (dst n l j : ℕ) → (j < dst) ⊎ (dst + (n + l) ≤ j) → (j < dst + n) ⊎ (dst + n + l ≤ j)
outer dst n l j (inl h) = inl (omega arith)
outer dst n l j (inr h) = inr (omega arith)

inner : (dst n l j : ℕ) → (j < dst) ⊎ (dst + (n + l) ≤ j) → (j < dst) ⊎ (dst + n ≤ j)
inner dst n l j (inl h) = inl h
inner dst n l j (inr h) = inr (omega arith)

-- A chunk and what follows it.
join :
    (pagetable dst srcva next n l : ℕ) (m : Mem) (k k₁ k₂ : ℕ → ℕ)
    → (l ≡ 0) ⊎ (srcva + n ≡ next)
    → IsFetched pagetable dst srcva n m k k₁
    → IsFetched pagetable (dst + n) next l m k₁ k₂
    → IsFetched pagetable dst srcva (n + l) m k k₂
join pagetable dst srcva next n l m k k₁ k₂ e f g = record {
  mapped = λ i h. elim (dec_lt i n) [
    | yes q ↦ f.mapped i q
    | no q ↦
        subst (λ a. page_of_byte pagetable a m ≢ 0) (sym (shift n l i srcva next e q h))
          (g.mapped (i - n) (omega arith))
  ];
  fetched = λ i h. elim (dec_lt i n) [
    | yes q ↦ g.others (dst + i) (inl (omega arith)) ∙ f.fetched i q
    | no q ↦
        ap k₂ (omega arith)
        ∙ g.fetched (i - n) (omega arith)
        ∙ ap (λ a. user_byte pagetable a m) (sym (shift n l i srcva next e q h))
  ];
  others = λ j h. g.others j (outer dst n l j h) ∙ f.others j (inner dst n l j h);
}

later :
    (n c len srcva next : ℕ)
    → (len - n ≡ 0) ⊎ (srcva + n ≡ next)
    → c < len - n
    → srcva + (n + c) ≡ next + c
later n c len srcva next e l = omega arith

still :
    (n c len srcva next : ℕ)
    → (len - n ≡ 0) ⊎ (srcva + n ≡ next)
    → c < len - n
    → (c ≡ 0) ⊎ (srcva + n ≡ next)
still n c len srcva next (inl e) l = absurd (omega arith)
still n c len srcva next (inr e) l = inr e

positive : (len : ℕ) → (len == 0) ≡ false → 0 < len
positive len e = ground arith

joined :
    (pagetable dst srcva next n len : ℕ) (m : Mem) (k k₁ : ℕ → ℕ) (r : Outcome (ℤ × (ℕ → ℕ)))
    → n ≤ len
    → (len - n ≡ 0) ⊎ (srcva + n ≡ next)
    → IsFetched pagetable dst srcva n m k k₁
    → IsCopyin pagetable (dst + n) next (len - n) m k₁ r
    → IsCopyin pagetable dst srcva len m k r
joined pagetable dst srcva next n len m k k₁ r h e f (copies k' g) = copies k' (
    subst (λ c. IsFetched pagetable dst srcva c m k k') (omega arith)
      (join pagetable dst srcva next n (len - n) m k k₁ k' e f g))
joined pagetable dst srcva next n len m k k₁ r h e f (faults c k' l z g) =
    faults (n + c) k' (omega arith)
      (ap (λ a. page_of_byte pagetable a m) (later n c len srcva next e l) ∙ z)
      (join pagetable dst srcva next n c m k k₁ k' (still n c len srcva next e l) f g)

chunk-ends :
    (srcva len : ℕ)
    → (len - chunk srcva len ≡ 0) ⊎ (srcva + chunk srcva len ≡ pg_round_down srcva + 4096)
chunk-ends srcva len = ground arith

chunk-bounds :
    (srcva len : ℕ) → (len == 0) ≡ false → (chunk srcva len ≤ len) × (0 < chunk srcva len)
chunk-bounds srcva len e = ground arith

copyin_loop-IsCopyin :
    (fuel pagetable dst srcva len : ℕ) (m : Mem) (k : ℕ → ℕ)
    → len ≤ fuel
    → IsCopyin pagetable dst srcva len m k (copyin_loop fuel pagetable dst srcva len m k)
unfolding copyin_loop
copyin_loop-IsCopyin zero pagetable dst srcva len m k h =
    copies k (nothing-IsFetched pagetable dst srcva len m k (omega arith))
copyin_loop-IsCopyin (suc fuel) pagetable dst srcva len m k h =
    if_keeps (IsCopyin pagetable dst srcva len m k) (len == 0) _ _
      (λ e. copies k (nothing-IsFetched pagetable dst srcva len m k ((==_iff len 0).0 e)))
      (λ e. rw (walkaddr-page_at pagetable (pg_round_down srcva) m) (
        if_keeps (IsCopyin pagetable dst srcva len m k) (page_of_byte pagetable srcva m == 0) _ _
          (λ z.
            faults 0 k (positive len e)
              (ap (λ a. page_of_byte pagetable a m) (omega arith) ∙ (==_iff _ 0).0 z)
              (nothing-IsFetched pagetable dst srcva 0 m k refl))
          (λ z.
            let b = chunk-bounds srcva len e in
            joined pagetable dst srcva (pg_round_down srcva + 4096) (chunk srcva len) len m k _ _
              b.0 (chunk-ends srcva len)
              (first-IsFetched pagetable dst srcva len m k
                (λ q. cc (z, (==_iff (page_of_byte pagetable srcva m) 0).1 q)))
              (copyin_loop-IsCopyin fuel pagetable (dst + chunk srcva len)
                (pg_round_down srcva + 4096) (len - chunk srcva len) m _ (omega arith)))))

-- `copyin` is the copy byte by byte: either every byte lies in a page of the user, the result is 0
-- and the buffer holds the bytes; or the result is -1, the first byte that lies in none is some
-- `n`, and the buffer holds the bytes before it; the rest of the buffer is as before.
pub copyin-IsCopyin :
    (pagetable dst srcva len : ℕ) (m : Mem) (k : ℕ → ℕ)
    → IsCopyin pagetable dst srcva len m k (copyin pagetable dst srcva len m k)
unfolding copyin
copyin-IsCopyin pagetable dst srcva len m k =
    copyin_loop-IsCopyin len pagetable dst srcva len m k (omega arith)
