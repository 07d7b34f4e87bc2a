-- ===== src/Mem/Walk/Search.antt =====
-- When `walk` of kernel/vm.c with `alloc` finds the tables, when it adds them, and when it fails.
use cow_pbs_cofee_cafe_icecr.Base.{
  ℕ, ◌/◌, ◌<◌, ◌≡◌, ◌≢◌, ◌⊎◌, inl, inr, refl, sym, ◌∙◌, ap, subst, arith, true, false, Option, none,
  some, List, [], ◌∷◌, test_bit, ret,
}
use cow_pbs_cofee_cafe_icecr.Mem.Pages.{Mem}
use cow_pbs_cofee_cafe_icecr.Mem.Kalloc.Heap.{IsHeap}
use cow_pbs_cofee_cafe_icecr.Mem.Pte.{v_bit, pte2pa, maxva}
use cow_pbs_cofee_cafe_icecr.Mem.Walk.{entry, descend, middle_table, last_table, walk}
use cow_pbs_cofee_cafe_icecr.Mem.Walk.Descend.{
  IsAdded, IsDescent, found, full, added, descend-IsDescent,
}
use cow_pbs_cofee_cafe_icecr.Mem.Walk.Path.{
  IsPath, IsOwned, IsWalked, walk-IsWalked, not_above, truth_apart, of_page, was_free,
}

-- The free pages do not do for the tables that are missing for `va`.
pub data IsLacking (pagetable va : ℕ) (m : Mem) (free : List ℕ) : Type 0 where
  no_first :
      test_bit (m.word (entry 2 pagetable va)) v_bit ≡ false
      → free ≡ []
      → IsLacking pagetable va m free
  no_second :
      (x : ℕ)
      → test_bit (m.word (entry 2 pagetable va)) v_bit ≡ false
      → free ≡ x ∷ []
      → IsLacking pagetable va m free
  no_last :
      test_bit (m.word (entry 2 pagetable va)) v_bit ≡ true
      → test_bit (m.word (entry 1 (pte2pa (m.word (entry 2 pagetable va))) va)) v_bit ≡ false
      → free ≡ []
      → IsLacking pagetable va m free

-- A search fails for want of pages. It ends at an entry that was there, and has then changed
-- nothing, or at one that is not valid, in a new table.
abbrev pub IsSearched : ℕ → ℕ → Mem → List ℕ → Option ℕ × Mem → Type 0
IsSearched pagetable va m free (none, m') = IsLacking pagetable va m free
IsSearched pagetable va m free (some i, m') =
    (IsPath pagetable va i m × (m' ≡ m)) ⊎ (test_bit (m'.word i) v_bit ≡ false)

module _ (kend x : ℕ) (xs free : List ℕ) (i : ℕ) (m m' : Mem) (h : IsHeap kend m free)
    (f : free ≡ x ∷ xs) (c : 0 < m.refs (i / 512)) (a : IsAdded kend x xs i m m') where
  -- A new table has no valid entry.
  empty_table : (level va : ℕ) → test_bit (m'.word (entry level x va)) v_bit ≡ false
  empty_table level va =
      let here : entry level x va / 512 ≡ x / 4096 = omega (arith, a.page) in
      let apart : entry level x va ≢ i = λ q.
        let z = was_free kend x xs free m h f in
        let e : m.refs (i / 512) ≡ 0 = ap m.refs (ap (λ (j : ℕ). j / 512) (sym q) ∙ here) ∙ z in
        omega (arith, e, c) in
      ap (λ w. test_bit w v_bit) (a.empty (entry level x va) apart here)

-- The second round, from a first one that found its table.
last-IsSearched :
    (kend pagetable va : ℕ) (m : Mem) (free : List ℕ) (d : Option ℕ × Mem)
    → IsHeap kend m free
    → 0 < m.refs (entry 1 (pte2pa (m.word (entry 2 pagetable va))) va / 512)
    → test_bit (m.word (entry 2 pagetable va)) v_bit ≡ true
    → IsDescent kend (entry 1 (pte2pa (m.word (entry 2 pagetable va))) va) m free d
    → IsSearched pagetable va m free (last_table va d)
unfolding last_table
last-IsSearched kend pagetable va m free d h c e (found f) = inl (
  record {
    table = _;
    last = _;
    upper = e;
    to_table = refl;
    middle = f;
    to_last = refl;
    here = refl;
  },
  refl,
)
last-IsSearched kend pagetable va m free d h c e (full f g) = no_last e f g
last-IsSearched kend pagetable va m free d h c e (added x xs m' f g a) =
    inr (empty_table kend x xs free _ m m' h g c a 0 va)

-- The second round, from a first one that has added the table `x`.
new-IsSearched :
    (kend pagetable va x : ℕ) (m m' : Mem) (xs free : List ℕ) (d : Option ℕ × Mem)
    → test_bit (m.word (entry 2 pagetable va)) v_bit ≡ false
    → free ≡ x ∷ xs
    → IsHeap kend m' xs
    → 0 < m'.refs (entry 1 x va / 512)
    → test_bit (m'.word (entry 1 x va)) v_bit ≡ false
    → IsDescent kend (entry 1 x va) m' xs d
    → IsSearched pagetable va m free (last_table va d)
unfolding last_table
new-IsSearched kend pagetable va x m m' xs free d e f h c z (found g) =
    absurd (truth_apart (sym g ∙ z))
new-IsSearched kend pagetable va x m m' xs free d e f h c z (full g n) =
    no_second x e (f ∙ ap (λ (l : List ℕ). x ∷ l) n)
new-IsSearched kend pagetable va x m m' xs free d e f h c z (added y ys m₂ g n a) =
    inr (empty_table kend y ys xs _ m' m₂ h n c a 0 va)

middle-IsSearched :
    (kend pagetable va : ℕ) (m : Mem) (free : List ℕ) (d : Option ℕ × Mem)
    → IsHeap kend m free
    → IsOwned pagetable va m
    → IsDescent kend (entry 2 pagetable va) m free d
    → IsSearched pagetable va m free (middle_table true va d)
unfolding middle_table
middle-IsSearched kend pagetable va m free d h o (found e) =
    last-IsSearched kend pagetable va m free _ h (o.middle e) e
      (descend-IsDescent kend 1 _ va m free h (o.middle e))
middle-IsSearched kend pagetable va m free d h o (full e f) = no_first e f
middle-IsSearched kend pagetable va m free d h o (added x xs m' e f a) =
    let c = of_page kend x va m'.refs a.page a.counted in
    new-IsSearched kend pagetable va x m m' xs free _ e f a.heap c
      (empty_table kend x xs free _ m m' h f o.top a 1 va)
      (descend-IsDescent kend 1 x va m' xs a.heap c)

pub walk-IsSearched :
    (kend pagetable va : ℕ) (m : Mem) (free : List ℕ)
    → IsHeap kend m free
    → IsOwned pagetable va m
    → IsSearched pagetable va m free (middle_table true va (descend 2 true pagetable va m))
walk-IsSearched kend pagetable va m free h o =
    middle-IsSearched kend pagetable va m free _ h o
      (descend-IsDescent kend 2 pagetable va m free h o.top)

walk_is :
    (pagetable va : ℕ) (m : Mem)
    → va < maxva
    → walk pagetable va true m ≡ ret (middle_table true va (descend 2 true pagetable va m))
unfolding walk
walk_is pagetable va m l = rw (not_above va l)

-- The search together with what it keeps.
pub walk-IsWalked-IsSearched :
    (kend pagetable va : ℕ) (m : Mem) (free : List ℕ)
    → va < maxva
    → IsHeap kend m free
    → IsOwned pagetable va m
    → (r : Option ℕ × Mem) × (walk pagetable va true m ≡ ret r)
      × IsWalked kend pagetable va m r
      × IsSearched pagetable va m free r
walk-IsWalked-IsSearched kend pagetable va m free l h o =
    let (r, (e, w)) = walk-IsWalked kend pagetable va m free l h o in
    let same : middle_table true va (descend 2 true pagetable va m) ≡ r =
      cc (walk_is pagetable va m l, e) in
    (
      r,
      e,
      w,
      subst (IsSearched pagetable va m free) same (walk-IsSearched kend pagetable va m free h o),
    )
