-- ===== src/Mem/Kalloc/Free.antt =====
-- `kfree` of kernel/kalloc.c against the abstract list of free pages.
use cow_pbs_cofee_cafe_icecr.Base.{
  ℕ, ◌+◌, ◌-◌, ◌/◌, ◌%◌, ◌^◌, ◌≤◌, ◌<◌, ◌≡◌, ◌≢◌, ◌⊎◌, inl, inr, Bool-cases, refl, ◌∙◌, arith, List,
  ◌∷◌, update, update_self, update_other, panic, ret, true, false, ltb, ℕ_discrete,
}
use cow_pbs_cofee_cafe_icecr.Mem.Pages.{Mem, memset_page, phystop}
use cow_pbs_cofee_cafe_icecr.Mem.Kalloc.{
  kfree, push, junk_and_push, release_page, page_of, bad_page,
}
use cow_pbs_cofee_cafe_icecr.Mem.Kalloc.Alloc.{memset_page-off}
use cow_pbs_cofee_cafe_icecr.Mem.Kalloc.Heap.{
  IsHeap, IsPage, Absent, AgreeOff, Chain-frame, AllFree-frame, counted-Absent,
}

not_bad : (kend pa : ℕ) → IsPage kend pa → bad_page kend pa ≡ false
not_bad kend pa h = ground arith

-- `kfree` panics exactly at an address that is not a page boundary, below `end`, or at PHYSTOP or
-- above.
pub kfree-panic :
    (kend pa : ℕ) (m : Mem)
    → ((kfree kend pa m ≡ panic) → (pa % 4096 ≢ 0) ⊎ (pa < kend) ⊎ (phystop ≤ pa))
      × ((pa % 4096 ≢ 0) ⊎ (pa < kend) ⊎ (phystop ≤ pa) → kfree kend pa m ≡ panic)
unfolding kfree
kfree-panic kend pa m = (λ e. ground arith, λ h. ground arith)

-- `kfree` panics at such an address, and else returns.
pub kfree-ends :
    (kend pa : ℕ) (m : Mem)
    → ((kfree kend pa m ≡ panic) × ((pa % 4096 ≢ 0) ⊎ (pa < kend) ⊎ (phystop ≤ pa)))
      ⊎ ((u : Mem) × (kfree kend pa m ≡ ret u))
unfolding kfree
kfree-ends kend pa m =
    let count = (m.refs (page_of pa) + (2 ^ 32 - 1)) % 2 ^ 32 in
    let u = release_page pa count (record m { refs = update m.refs (page_of pa) count }) in
    elim (Bool-cases (bad_page kend pa)) [ inl e ↦ inl (rw e, why pa e) | inr e ↦ inr (u, rw e) ]
  where
    why : (pa : ℕ) → bad_page kend pa ≡ true → (pa % 4096 ≢ 0) ⊎ (pa < kend) ⊎ (phystop ≤ pa)
    why pa e = ground arith

-- The memory after one reference of several is dropped, and after the last one is.
dropped : ℕ → Mem → Mem
dropped pa m = record m {
  refs = update m.refs (page_of pa) ((m.refs (page_of pa) + (2 ^ 32 - 1)) % 2 ^ 32);
}

freed : ℕ → Mem → Mem
unfolding junk_and_push push dropped
freed pa m = junk_and_push pa (record m { refs = update (dropped pa m).refs (page_of pa) 0 })

dropped-counts : (pa : ℕ) (m : Mem) (i : ℕ) → pa / 4096 ≢ i → (dropped pa m).refs i ≡ m.refs i
unfolding dropped
dropped-counts pa m i n =
    update_other m.refs (page_of pa) ((m.refs (page_of pa) + (2 ^ 32 - 1)) % 2 ^ 32) i n

freed-off : (pa : ℕ) (m : Mem) → AgreeOff pa m.word (freed pa m).word
unfolding freed
freed-off pa m i n =
    update_other (memset_page pa 1 m.word) (pa / 8) m.freelist i (λ e. n (omega arith))
    ∙ memset_page-off pa 1 m.word i n

freed-counts : (pa : ℕ) (m : Mem) (i : ℕ) → pa / 4096 ≢ i → (freed pa m).refs i ≡ m.refs i
unfolding freed
freed-counts pa m i n =
    update_other (dropped pa m).refs (page_of pa) 0 i n ∙ dropped-counts pa m i n

freed-count : (pa : ℕ) (m : Mem) → (freed pa m).refs (pa / 4096) ≡ 0
unfolding freed
freed-count pa m = update_self (dropped pa m).refs (page_of pa) 0

kfree-ret :
    (kend pa : ℕ) (m : Mem)
    → IsPage kend pa
    → kfree kend pa m
      ≡ ret (release_page pa ((m.refs (page_of pa) + (2 ^ 32 - 1)) % 2 ^ 32) (dropped pa m))
unfolding kfree dropped
kfree-ret kend pa m h = rw (not_bad kend pa h)

kfree-dropped :
    (kend pa : ℕ) (m : Mem)
    → IsPage kend pa
    → 0 < (m.refs (page_of pa) + (2 ^ 32 - 1)) % 2 ^ 32
    → kfree kend pa m ≡ ret (dropped pa m)
unfolding release_page
kfree-dropped kend pa m h l = kfree-ret kend pa m h ∙ rw (positive _ l)
  where
    positive : (c : ℕ) → 0 < c → ltb 0 c ≡ true
    positive c l = ground arith

kfree-freed :
    (kend pa : ℕ) (m : Mem)
    → IsPage kend pa
    → m.refs (page_of pa) ≡ 1
    → kfree kend pa m ≡ ret (freed pa m)
unfolding release_page freed
kfree-freed kend pa m h l =
    kfree-ret kend pa m h ∙ rw (last ((m.refs (page_of pa) + (2 ^ 32 - 1)) % 2 ^ 32) (omega arith))
  where
    last : (c : ℕ) → c ≡ 0 → ltb 0 c ≡ false
    last c e = ground arith

freed-IsHeap :
    (kend pa : ℕ) (m : Mem) (free : List ℕ)
    → IsHeap kend m free
    → IsPage kend pa
    → Absent pa free
    → IsHeap kend (freed pa m) (pa ∷ free)
unfolding freed
freed-IsHeap kend pa m free h p n = record {
  chain = (
    refl,
    rw (update_self (memset_page pa 1 m.word) (pa / 8) m.freelist) (
        Chain-frame kend pa m.word _ m.freelist m.refs free (freed-off pa m) p n h.all_free
          h.chain),
  );
  all_free = (
    p,
    freed-count pa m,
    AllFree-frame kend pa m.refs (freed pa m).refs free (freed-counts pa m) p n h.all_free,
  );
  distinct = (n, h.distinct);
}

-- What `kfree` does to a page with `count` references.
pub record IsReleased (kend pa : ℕ) (free : List ℕ) (m u : Mem) : Type 0 where
  pub shared :
      2 ≤ m.refs (pa / 4096)
      → (u.refs (pa / 4096) + 1 ≡ m.refs (pa / 4096)) × (u.word ≡ m.word) × IsHeap kend u free
  pub last :
      m.refs (pa / 4096) ≡ 1
      → (u.refs (pa / 4096) ≡ 0) × AgreeOff pa m.word u.word × IsHeap kend u (pa ∷ free)
  pub other_counts : (i : ℕ) → pa / 4096 ≢ i → u.refs i ≡ m.refs i

dropped-IsReleased :
    (kend pa : ℕ) (free : List ℕ) (m : Mem)
    → IsHeap kend m free
    → IsPage kend pa
    → m.refs (pa / 4096) < 2 ^ 32
    → 2 ≤ m.refs (pa / 4096)
    → IsReleased kend pa free m (dropped pa m)
unfolding dropped
dropped-IsReleased kend pa free m h p small two =
    let absent = counted-Absent kend pa m.refs free (omega arith) h.all_free in
    let at_pa = update_self m.refs (page_of pa) ((m.refs (page_of pa) + (2 ^ 32 - 1)) % 2 ^ 32) in
    record {
      shared = λ _. (
        omega (arith, at_pa),
        refl,
        record {
          chain = h.chain;
          all_free =
              AllFree-frame kend pa m.refs (dropped pa m).refs free (dropped-counts pa m) p absent
                h.all_free;
          distinct = h.distinct;
        },
      );
      last = λ e. absurd (omega arith);
      other_counts = dropped-counts pa m;
    }

freed-IsReleased :
    (kend pa : ℕ) (free : List ℕ) (m : Mem)
    → IsHeap kend m free
    → IsPage kend pa
    → m.refs (pa / 4096) ≡ 1
    → IsReleased kend pa free m (freed pa m)
freed-IsReleased kend pa free m h p one = record {
  shared = λ two. absurd (omega arith);
  last = λ _. (
    freed-count pa m,
    freed-off pa m,
    freed-IsHeap kend pa m free h p (counted-Absent kend pa m.refs free (omega arith) h.all_free),
  );
  other_counts = freed-counts pa m;
}

-- On a heap, `kfree` of a page with references returns, and takes one of them away: of several it
-- leaves the memory and the free pages as they are; the last puts the page in front of the free
-- pages. No other count and no word of another page changes.
pub kfree-IsReleased :
    (kend pa : ℕ) (m : Mem) (free : List ℕ)
    → IsHeap kend m free
    → IsPage kend pa
    → m.refs (pa / 4096) < 2 ^ 32
    → 0 < m.refs (pa / 4096)
    → (u : Mem) × (kfree kend pa m ≡ ret u) × IsReleased kend pa free m u
kfree-IsReleased kend pa m free h p small pos = elim (ℕ_discrete (m.refs (pa / 4096)) 1) [
  | yes e ↦ (freed pa m, kfree-freed kend pa m p e, freed-IsReleased kend pa free m h p e)
  | no n ↦ (
    dropped pa m,
    kfree-dropped kend pa m p (omega arith),
    dropped-IsReleased kend pa free m h p small (omega arith),
  )
]

-- Freeing a page that has no reference does not panic: the count wraps to 2 ^ 32 - 1, the page does
-- not become free, and nothing else changes.
pub kfree-uncounted :
    (kend pa : ℕ) (m : Mem)
    → IsPage kend pa
    → m.refs (pa / 4096) ≡ 0
    → kfree kend pa m ≡ ret (record m { refs = update m.refs (pa / 4096) (2 ^ 32 - 1) })
unfolding dropped
kfree-uncounted kend pa m p e = kfree-dropped kend pa m p (omega arith) ∙ rw e
