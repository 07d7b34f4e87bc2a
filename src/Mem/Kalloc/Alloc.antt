-- ===== src/Mem/Kalloc/Alloc.antt =====
-- `kalloc` and `kfree` of kernel/kalloc.c against the abstract list of free pages.
use cow_pbs_cofee_cafe_icecr.Base.{
  ℕ, ◌/◌, ◌<◌, ◌≡◌, ◌≢◌, ◌⊎◌, inl, inr, refl, arith, List, [], ◌∷◌, Bool-cases, ◌==◌, ==_iff,
  update, update_self, update_other, false,
}
use cow_pbs_cofee_cafe_icecr.Mem.Pages.{Mem, splat, memset_page}
use cow_pbs_cofee_cafe_icecr.Mem.Kalloc.{kalloc, page_of}
use cow_pbs_cofee_cafe_icecr.Mem.Kalloc.Heap.{IsHeap, IsPage, AgreeOff, Chain-frame, AllFree-frame}

nonzero : (a : ℕ) → 0 < a → (a == 0) ≡ false
nonzero a h = ground arith

pub memset_page-off : (y c : ℕ) (w : ℕ → ℕ) → AgreeOff y w (memset_page y c w)
memset_page-off y c w i n = elim (Bool-cases (i / 512 == y / 4096)) [
  | inl e ↦ absurd (n ((==_iff _ _).0 e))
  | inr e ↦ rw e
]

pub memset_page-in :
    (y c : ℕ) (w : ℕ → ℕ) (i : ℕ) → i / 512 ≡ y / 4096 → memset_page y c w i ≡ splat c
memset_page-in y c w i e = rw ((==_iff _ _).1 e)

-- What `kalloc` does to a heap with the first free page `x`.
pub record IsAllocated (kend x : ℕ) (xs : List ℕ) (m : Mem) (r : ℕ × Mem) : Type 0 where
  pub address : r.0 ≡ x
  pub page : IsPage kend x
  pub rest : IsHeap kend r.1 xs
  pub counted : r.1.refs (x / 4096) ≡ 1
  pub other_counts : (i : ℕ) → x / 4096 ≢ i → r.1.refs i ≡ m.refs i
  pub filled : (i : ℕ) → i / 512 ≡ x / 4096 → r.1.word i ≡ splat 5
  pub unchanged : AgreeOff x m.word r.1.word

pub allocated : ℕ → Mem → Mem
allocated x m = record m {
  freelist = m.word (x / 8);
  word = memset_page x 5 m.word;
  refs = update m.refs (page_of x) 1;
}

pub kalloc-allocated : (x : ℕ) (m : Mem) → m.freelist ≡ x → 0 < x → kalloc m ≡ (x, allocated x m)
unfolding kalloc allocated
kalloc-allocated x m e h = rw ((nonzero m.freelist (rw e h)), e)

allocated-IsAllocated :
    (kend x : ℕ) (xs : List ℕ) (m : Mem)
    → IsHeap kend m (x ∷ xs)
    → IsAllocated kend x xs m (x, allocated x m)
unfolding allocated
allocated-IsAllocated kend x xs m h = record {
  address = refl;
  page = h.all_free.0;
  rest = record {
    chain =
        Chain-frame kend x m.word _ _ m.refs xs (memset_page-off x 5 m.word) h.all_free.0
          h.distinct.0 h.all_free.2 h.chain.1;
    all_free =
        AllFree-frame kend x m.refs _ xs (λ i n. update_other m.refs (page_of x) 1 i n) h.all_free.0
          h.distinct.0 h.all_free.2;
    distinct = h.distinct.1;
  };
  counted = update_self m.refs (page_of x) 1;
  other_counts = λ i n. update_other m.refs (page_of x) 1 i n;
  filled = memset_page-in x 5 m.word;
  unchanged = memset_page-off x 5 m.word;
}

pub kalloc-IsAllocated :
    (kend x : ℕ) (xs : List ℕ) (m : Mem)
    → IsHeap kend m (x ∷ xs)
    → IsAllocated kend x xs m (kalloc m)
kalloc-IsAllocated kend x xs m h =
    rw (kalloc-allocated x m h.chain.0 h.all_free.0.3) (allocated-IsAllocated kend x xs m h)

pub kalloc-none : (kend : ℕ) (m : Mem) → IsHeap kend m [] → kalloc m ≡ (0, m)
unfolding kalloc
kalloc-none kend m h = rw ((==_iff m.freelist 0).1 h.chain)

-- From a heap with free pages `kalloc` returns the first, filled with the byte 5 and with one
-- reference, and keeps the others free; no other page and no other count changes. With no free page
-- it returns 0 and changes nothing.
pub kalloc-heap :
    (kend : ℕ) (m : Mem) (free : List ℕ)
    → IsHeap kend m free
    → ((free ≡ []) × (kalloc m ≡ (0, m)))
      ⊎ ((x : ℕ) × (xs : List ℕ) × (free ≡ x ∷ xs) × IsAllocated kend x xs m (kalloc m))
kalloc-heap kend m [] h = inl (refl, kalloc-none kend m h)
kalloc-heap kend m (x ∷ xs) h = inr (x, xs, refl, kalloc-IsAllocated kend x xs m h)
