-- ===== src/Mem/Walk/Descend.antt =====
-- `walk` of kernel/vm.c with `alloc`: what a round of its loop finds or adds, on a heap.
use cow_pbs_cofee_cafe_icecr.Base.{
  ℕ, zero, suc, ◌/◌, ◌<◌, ◌≡◌, ◌≢◌, inl, inr, refl, sym, ◌∙◌, subst, arith, true, false, if_keeps,
  ℕ_discrete, Option, none, some, List, [], ◌∷◌, update, update_self, update_other, test_bit,
  set_bit,
}
use cow_pbs_cofee_cafe_icecr.Mem.Pages.{Mem, memset_page}
use cow_pbs_cofee_cafe_icecr.Mem.Kalloc.{kalloc}
use cow_pbs_cofee_cafe_icecr.Mem.Kalloc.Heap.{
  IsHeap, IsPage, Chain-update, Chain-frame, counted-Absent,
}
use cow_pbs_cofee_cafe_icecr.Mem.Kalloc.Alloc.{
  IsAllocated, kalloc-heap, memset_page-off, memset_page-in,
}
use cow_pbs_cofee_cafe_icecr.Mem.Pte.{v_bit, pa2pte, pte2pa}
use cow_pbs_cofee_cafe_icecr.Mem.Walk.{entry, add_table, descend}

-- The entry for a table that lies in a page.
pub table_entry : ℕ → ℕ
table_entry x = set_bit (pa2pte x) v_bit

pub table_entry-pa : (kend x : ℕ) → IsPage kend x → pte2pa (table_entry x) ≡ x
unfolding table_entry
table_entry-pa kend x h = ground (arith, h)

pub table_entry-valid : (kend x : ℕ) → IsPage kend x → test_bit (table_entry x) v_bit ≡ true
unfolding table_entry
table_entry-valid kend x h = ground (arith, h)

-- The page `x` has become a table, to which the entry `i` points.
pub record IsAdded (kend x : ℕ) (xs : List ℕ) (i : ℕ) (m m' : Mem) : Type 0 where
  pub page : IsPage kend x
  pub heap : IsHeap kend m' xs
  pub points : m'.word i ≡ table_entry x
  pub elsewhere : (j : ℕ) → j ≢ i → j / 512 ≢ x / 4096 → m'.word j ≡ m.word j
  pub empty : (j : ℕ) → j ≢ i → j / 512 ≡ x / 4096 → m'.word j ≡ 0
  pub counted : m'.refs (x / 4096) ≡ 1
  pub counts : (j : ℕ) → x / 4096 ≢ j → m'.refs j ≡ m.refs j

-- The ways that a round of the loop at the entry `i` ends.
pub data IsDescent (kend i : ℕ) (m : Mem) (free : List ℕ) : Option ℕ × Mem → Type 0 where
  found : test_bit (m.word i) v_bit ≡ true → IsDescent kend i m free (some (pte2pa (m.word i)), m)
  full : test_bit (m.word i) v_bit ≡ false → free ≡ [] → IsDescent kend i m free (none, m)
  added :
      (x : ℕ) (xs : List ℕ) (m' : Mem)
      → test_bit (m.word i) v_bit ≡ false
      → free ≡ x ∷ xs
      → IsAdded kend x xs i m m'
      → IsDescent kend i m free (some x, m')

-- What add_table makes of the memory that kalloc leaves.
tabled : ℕ → ℕ → Mem → Mem
tabled i x m = record m { word = update (memset_page x 0 m.word) i (table_entry x) }

add_table-tabled : (i x : ℕ) (m : Mem) → 0 < x → add_table i (x, m) ≡ (some x, tabled i x m)
unfolding add_table tabled table_entry
add_table-tabled i zero m h = absurd (omega arith)
add_table-tabled i (suc p) m h = refl

add_table-none : (i : ℕ) (m : Mem) → add_table i (0, m) ≡ (none, m)
unfolding add_table
add_table-none i m = refl

module _ (kend x : ℕ) (xs : List ℕ) (i : ℕ) (m m₁ : Mem) where
  one : IsAllocated kend x xs m (x, m₁) → 0 < m₁.refs (x / 4096)
  one a = omega (arith, a.counted)

  still_counted : 0 < m.refs (i / 512) → IsAllocated kend x xs m (x, m₁) → 0 < m₁.refs (i / 512)
  still_counted c a = elim (ℕ_discrete (x / 4096) (i / 512)) [
    | yes e ↦ subst (λ j. 0 < m₁.refs j) e (one a)
    | no n ↦ subst (λ c. 0 < c) (sym (a.other_counts (i / 512) n)) c
  ]

  tabled-IsAdded :
      0 < m.refs (i / 512) → IsAllocated kend x xs m (x, m₁) → IsAdded kend x xs i m (tabled i x m₁)
  unfolding tabled
  tabled-IsAdded c a = record {
    page = a.page;
    heap = record {
      chain =
          Chain-update kend i (table_entry x) (memset_page x 0 m₁.word) m₁.freelist m₁.refs xs
            (still_counted c a) a.rest.all_free
            (Chain-frame kend x m₁.word _ m₁.freelist m₁.refs xs (memset_page-off x 0 m₁.word)
              a.page (counted-Absent kend x m₁.refs xs (one a) a.rest.all_free) a.rest.all_free
              a.rest.chain);
      all_free = a.rest.all_free;
      distinct = a.rest.distinct;
    };
    points = update_self (memset_page x 0 m₁.word) i _;
    elsewhere = λ j n o.
        update_other (memset_page x 0 m₁.word) i _ j (λ e. n (sym e))
        ∙ memset_page-off x 0 m₁.word j o
        ∙ a.unchanged j o;
    empty = λ j n o.
        update_other (memset_page x 0 m₁.word) i _ j (λ e. n (sym e))
        ∙ memset_page-in x 0 m₁.word j o;
    counted = a.counted;
    counts = a.other_counts;
  }

of_allocated :
    (kend x : ℕ) (xs : List ℕ) (i : ℕ) (m : Mem) (free : List ℕ) (r : ℕ × Mem)
    → 0 < m.refs (i / 512)
    → test_bit (m.word i) v_bit ≡ false
    → free ≡ x ∷ xs
    → IsAllocated kend x xs m r
    → IsDescent kend i m free (add_table i r)
of_allocated kend x xs i m free (y, m₁) c e f a =
    let b : IsAllocated kend x xs m (x, m₁) = record {
      address = refl;
      page = a.page;
      rest = a.rest;
      counted = a.counted;
      other_counts = a.other_counts;
      filled = a.filled;
      unchanged = a.unchanged;
    } in
    rw (a.address, add_table-tabled i x m₁ a.page.3)
      (added x xs (tabled i x m₁) e f (tabled-IsAdded kend x xs i m m₁ c b))

added_or_full :
    (kend i : ℕ) (m : Mem) (free : List ℕ)
    → IsHeap kend m free
    → 0 < m.refs (i / 512)
    → test_bit (m.word i) v_bit ≡ false
    → IsDescent kend i m free (add_table i (kalloc m))
added_or_full kend i m free h c e = elim (kalloc-heap kend m free h) [
  | inl (f, q) ↦ rw q (rw (add_table-none i m) (full e f))
  | inr (x, xs, f, a) ↦ of_allocated kend x xs i m free (kalloc m) c e f a
]

pub descend-IsDescent :
    (kend level table va : ℕ) (m : Mem) (free : List ℕ)
    → IsHeap kend m free
    → 0 < m.refs (entry level table va / 512)
    → IsDescent kend (entry level table va) m free (descend level true table va m)
unfolding descend
descend-IsDescent kend level table va m free h c =
    if_keeps (IsDescent kend (entry level table va) m free)
      (test_bit (m.word (entry level table va)) v_bit) _ _ (λ e. found e)
      (λ e. added_or_full kend (entry level table va) m free h c e)
