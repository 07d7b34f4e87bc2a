-- ===== src/Mem/Walk/Path.antt =====
-- What `walk` of kernel/vm.c builds, a lookup finds.
use cow_pbs_cofee_cafe_icecr.Base.{
  ℕ, ◌/◌, ◌<◌, ◌≡◌, ◌≢◌, ◌⊎◌, inl, inr, Bool-cases, refl, sym, ◌∙◌, ap, subst, arith, Bool, true,
  false, leb, Option, none, some, List, ◌∷◌, test_bit, ret,
}
use cow_pbs_cofee_cafe_icecr.Mem.Pages.{Mem}
use cow_pbs_cofee_cafe_icecr.Mem.Kalloc.Heap.{IsHeap, IsPage}
use cow_pbs_cofee_cafe_icecr.Mem.Pte.{v_bit, pte2pa, maxva}
use cow_pbs_cofee_cafe_icecr.Mem.Walk.{entry, descend, middle_table, last_table, walk}
use cow_pbs_cofee_cafe_icecr.Mem.Walk.Lookup.{lookup}
use cow_pbs_cofee_cafe_icecr.Mem.Walk.Descend.{
  table_entry-pa, table_entry-valid, IsAdded, IsDescent, found, full, added, descend-IsDescent,
}

pub truth_apart : true ≢ false
truth_apart e = ground arith

below_self : 0 < 0 → ⊥
below_self h = omega arith

-- Valid entries of the two upper levels lead from the table to the entry `i` for `va`.
pub record IsPath (pagetable va i : ℕ) (m : Mem) : Type 0 where
  pub table : ℕ
  pub last : ℕ
  pub upper : test_bit (m.word (entry 2 pagetable va)) v_bit ≡ true
  pub to_table : pte2pa (m.word (entry 2 pagetable va)) ≡ table
  pub middle : test_bit (m.word (entry 1 table va)) v_bit ≡ true
  pub to_last : pte2pa (m.word (entry 1 table va)) ≡ last
  pub here : i ≡ entry 0 last va

descend_valid :
    (level table va : ℕ) (alloc : Bool) (m : Mem)
    → test_bit (m.word (entry level table va)) v_bit ≡ true
    → descend level alloc table va m ≡ (some (pte2pa (m.word (entry level table va))), m)
unfolding descend
descend_valid level table va alloc m e = rw e

pub of_page :
    (kend x va : ℕ) (refs : ℕ → ℕ)
    → IsPage kend x
    → refs (x / 4096) ≡ 1
    → 0 < refs (entry 1 x va / 512)
of_page kend x va refs h e =
    let q : entry 1 x va / 512 ≡ x / 4096 = omega (arith, h) in
    subst (λ j. 0 < refs j) (sym q) (omega (arith, e))

pub not_above : (va : ℕ) → va < maxva → leb maxva va ≡ false
not_above va h = ground arith

-- A lookup follows the path.
pub path-lookup :
    (pagetable va i : ℕ) (m : Mem) → IsPath pagetable va i m → lookup pagetable va m ≡ some i
unfolding lookup middle_table last_table
path-lookup pagetable va i m h =
    ap (λ r. (middle_table false va r).0) (descend_valid 2 pagetable va false m h.upper)
    ∙ ap (λ t. (last_table va (descend 1 false t va m)).0) h.to_table
    ∙ ap (λ r. (last_table va r).0) (descend_valid 1 h.table va false m h.middle)
    ∙ ap (λ t. some (entry 0 t va)) h.to_last
    ∙ ap some (sym h.here)

-- One of the two upper entries for `va` is not valid.
pub data IsAbsent (pagetable va : ℕ) (m : Mem) : Type 0 where
  no_table : test_bit (m.word (entry 2 pagetable va)) v_bit ≡ false → IsAbsent pagetable va m
  no_last :
      test_bit (m.word (entry 2 pagetable va)) v_bit ≡ true
      → test_bit (m.word (entry 1 (pte2pa (m.word (entry 2 pagetable va))) va)) v_bit ≡ false
      → IsAbsent pagetable va m

descend_invalid :
    (level table va : ℕ) (m : Mem)
    → test_bit (m.word (entry level table va)) v_bit ≡ false
    → descend level false table va m ≡ (none, m)
unfolding descend
descend_invalid level table va m e = rw e

pub absent-lookup :
    (pagetable va : ℕ) (m : Mem) → IsAbsent pagetable va m → lookup pagetable va m ≡ none
unfolding lookup middle_table last_table
absent-lookup pagetable va m (no_table e) =
    ap (λ r. (middle_table false va r).0) (descend_invalid 2 pagetable va m e)
absent-lookup pagetable va m (no_last u e) =
    ap (λ r. (middle_table false va r).0) (descend_valid 2 pagetable va false m u)
    ∙ ap (λ r. (last_table va r).0) (descend_invalid 1 _ va m e)

-- The tables are there, or they are not.
pub path_or_IsAbsent :
    (pagetable va : ℕ) (m : Mem) → IsAbsent pagetable va m ⊎ ((i : ℕ) × IsPath pagetable va i m)
path_or_IsAbsent pagetable va m =
    elim (Bool-cases (test_bit (m.word (entry 2 pagetable va)) v_bit)) [
      | inr e ↦ inl (no_table e)
      | inl e ↦
          elim (Bool-cases
            (test_bit (m.word (entry 1 (pte2pa (m.word (entry 2 pagetable va))) va)) v_bit)) [
              | inr f ↦ inl (no_last e f)
              | inl f ↦ inr (
                _,
                record {
                  table = _;
                  last = _;
                  upper = e;
                  to_table = refl;
                  middle = f;
                  to_last = refl;
                  here = refl;
                },
              )
            ]
    ]

-- The pages of the upper tables for `va` have references.
pub record IsOwned (pagetable va : ℕ) (m : Mem) : Type 0 where
  pub top : 0 < m.refs (entry 2 pagetable va / 512)
  pub middle :
      test_bit (m.word (entry 2 pagetable va)) v_bit ≡ true
      → 0 < m.refs (entry 1 (pte2pa (m.word (entry 2 pagetable va))) va / 512)

-- What one round leaves: a heap, and the valid entries and the counts of pages with references.
pub record IsKept (kend : ℕ) (m m' : Mem) : Type 0 where
  pub free : List ℕ
  pub heap : IsHeap kend m' free
  pub words :
      (j : ℕ) → test_bit (m.word j) v_bit ≡ true → 0 < m.refs (j / 512) → m'.word j ≡ m.word j
  pub counts : (j : ℕ) → 0 < m.refs j → m'.refs j ≡ m.refs j

pub was_free :
    (kend x : ℕ) (xs free : List ℕ) (m : Mem)
    → IsHeap kend m free
    → free ≡ x ∷ xs
    → m.refs (x / 4096) ≡ 0
was_free kend x xs free m h e = let g = subst (λ l. IsHeap kend m l) e h in g.all_free.1

added-IsKept :
    (kend x : ℕ) (xs free : List ℕ) (i : ℕ) (m m' : Mem)
    → IsHeap kend m free
    → free ≡ x ∷ xs
    → test_bit (m.word i) v_bit ≡ false
    → IsAdded kend x xs i m m'
    → IsKept kend m m'
added-IsKept kend x xs free i m m' h e v a =
    let z = was_free kend x xs free m h e in
    let other : (j : ℕ) → 0 < m.refs j → x / 4096 ≢ j =
      λ j c q. below_self (subst (λ y. 0 < y) (ap m.refs (sym q) ∙ z) c) in
    record {
      free = xs;
      heap = a.heap;
      words = λ j w c.
          a.elsewhere j (λ q. truth_apart (sym w ∙ ap (λ y. test_bit (m.word y) v_bit) q ∙ v))
            (λ q. other (j / 512) c (sym q));
      counts = λ j c. a.counts j (other j c);
    }

pub descent-IsKept :
    (kend i : ℕ) (m : Mem) (free : List ℕ) (r : Option ℕ × Mem)
    → IsHeap kend m free
    → IsDescent kend i m free r
    → IsKept kend m r.1
descent-IsKept kend i m free r h (found e) = record {
  free = free;
  heap = h;
  words = λ j w c. refl;
  counts = λ j c. refl;
}
descent-IsKept kend i m free r h (full e f) = record {
  free = free;
  heap = h;
  words = λ j w c. refl;
  counts = λ j c. refl;
}
descent-IsKept kend i m free r h (added x xs m' v e a) = added-IsKept kend x xs free i m m' h e v a

-- The entry of a round that goes on.
pub record IsReached (i : ℕ) (m' : Mem) (table : ℕ) : Type 0 where
  pub valid : test_bit (m'.word i) v_bit ≡ true
  pub leads : pte2pa (m'.word i) ≡ table

abbrev Reached : ℕ → Option ℕ × Mem → Type 0
Reached i (none, m') = Unit
Reached i (some table, m') = IsReached i m' table

reached :
    (kend i : ℕ) (m : Mem) (free : List ℕ) (r : Option ℕ × Mem)
    → IsDescent kend i m free r
    → Reached i r
reached kend i m free r (found e) = record { valid = e; leads = refl }
reached kend i m free r (full e f) = tt
reached kend i m free r (added x xs m₁ v e a) = record {
  valid = ap (λ w. test_bit w v_bit) a.points ∙ table_entry-valid kend x a.page;
  leads = ap pte2pa a.points ∙ table_entry-pa kend x a.page;
}

IsKept-trans : (kend : ℕ) (m m₁ m₂ : Mem) → IsKept kend m m₁ → IsKept kend m₁ m₂ → IsKept kend m m₂
IsKept-trans kend m m₁ m₂ h k = record {
  free = k.free;
  heap = k.heap;
  words = λ j v c.
      k.words j (ap (λ w. test_bit w v_bit) (h.words j v c) ∙ v)
        (subst (λ y. 0 < y) (sym (h.counts (j / 512) c)) c)
      ∙ h.words j v c;
  counts = λ j c. k.counts j (subst (λ y. 0 < y) (sym (h.counts j c)) c) ∙ h.counts j c;
}

-- The result of a walk that may add tables.
abbrev pub IsWalked : ℕ → ℕ → ℕ → Mem → Option ℕ × Mem → Type 0
IsWalked kend pagetable va m (none, m') = IsKept kend m m'
IsWalked kend pagetable va m (some i, m') = IsPath pagetable va i m' × IsKept kend m m'

last-IsWalked :
    (kend pagetable va table : ℕ) (m m₁ : Mem) (d : Option ℕ × Mem)
    → IsReached (entry 2 pagetable va) m₁ table
    → 0 < m₁.refs (entry 2 pagetable va / 512)
    → IsKept kend m m₁
    → IsKept kend m₁ d.1
    → Reached (entry 1 table va) d
    → IsWalked kend pagetable va m (last_table va d)
unfolding last_table
last-IsWalked kend pagetable va table m m₁ (none, m₂) u c k l r = IsKept-trans kend m m₁ m₂ k l
last-IsWalked kend pagetable va table m m₁ (some last, m₂) u c k l r =
    let same = l.words (entry 2 pagetable va) u.valid c in
    (
      record {
        table = table;
        last = last;
        upper = ap (λ w. test_bit w v_bit) same ∙ u.valid;
        to_table = ap pte2pa same ∙ u.leads;
        middle = r.valid;
        to_last = r.leads;
        here = refl;
      },
      IsKept-trans kend m m₁ m₂ k l,
    )

middle-IsWalked :
    (kend pagetable va : ℕ) (m : Mem) (d : Option ℕ × Mem)
    → IsKept kend m d.1
    → Reached (entry 2 pagetable va) d
    → 0 < m.refs (entry 2 pagetable va / 512)
    → ((table : ℕ) (m₁ : Mem) → d ≡ (some table, m₁) → 0 < m₁.refs (entry 1 table va / 512))
    → IsWalked kend pagetable va m (middle_table true va d)
unfolding middle_table
middle-IsWalked kend pagetable va m (none, m₁) k r c o = k
middle-IsWalked kend pagetable va m (some table, m₁) k r c o =
    let d = descend-IsDescent kend 1 table va m₁ k.free k.heap (o table m₁ refl) in
    last-IsWalked kend pagetable va table m m₁ (descend 1 true table va m₁) r
      (subst (λ y. 0 < y) (sym (k.counts _ c)) c) k (descent-IsKept kend _ m₁ k.free _ k.heap d)
      (reached kend _ m₁ k.free _ d)

-- The table that the first round reaches has a reference.
next_owned :
    (kend pagetable va : ℕ) (m : Mem) (free : List ℕ) (d : Option ℕ × Mem)
    → IsOwned pagetable va m
    → IsDescent kend (entry 2 pagetable va) m free d
    → (table : ℕ) (m₁ : Mem) → d ≡ (some table, m₁)
    → 0 < m₁.refs (entry 1 table va / 512)
next_owned kend pagetable va m free d o (found e) table m₁ q =
    let p : m ≡ m₁ = ap (λ (r : Option ℕ × Mem). r.1) q in
    let w : pte2pa (m.word (entry 2 pagetable va)) ≡ table = cc in rw (← p, ← w) (o.middle e)
next_owned kend pagetable va m free d o (full e f) table m₁ q = absurd (cc q)
next_owned kend pagetable va m free d o (added x xs m₂ v e a) table m₁ q =
    let p : m₂ ≡ m₁ = ap (λ (r : Option ℕ × Mem). r.1) q in
    let w : x ≡ table = cc in rw (← p, ← w) (of_page kend x va m₂.refs a.page a.counted)

-- A walk that may add tables, on a heap, finds or builds a path for the address, and changes
-- neither the valid entries nor the counts of pages with references; or it runs out of pages.
pub walk-IsWalked :
    (kend pagetable va : ℕ) (m : Mem) (free : List ℕ)
    → va < maxva
    → IsHeap kend m free
    → IsOwned pagetable va m
    → (r : Option ℕ × Mem) × ((walk pagetable va true m ≡ ret r) × IsWalked kend pagetable va m r)
unfolding walk
walk-IsWalked kend pagetable va m free l h o =
    let d = descend-IsDescent kend 2 pagetable va m free h o.top in
    (
      middle_table true va (descend 2 true pagetable va m),
      (
        rw (not_above va l),
        middle-IsWalked kend pagetable va m (descend 2 true pagetable va m)
            (descent-IsKept kend _ m free _ h d) (reached kend _ m free _ d) o.top
            (next_owned kend pagetable va m free _ o d),
      ),
    )
