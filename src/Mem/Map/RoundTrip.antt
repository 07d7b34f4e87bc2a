-- ===== src/Mem/Map/RoundTrip.antt =====
-- What `mappages` of kernel/vm.c maps, `walkaddr` translates, until `uvmunmap` takes it back.
use cow_pbs_cofee_cafe_icecr.Base.{
  ℕ, zero, suc, ◌+◌, ◌-◌, ◌/◌, ◌%◌, ◌^◌, ◌<◌, ◌≡◌, ◌≢◌, refl, sym, subst, inl, inr, ◌∙◌, ap, arith,
  Bool, true, false, not, ==_iff, if_keeps, if◌then◌else◌, Option, none, some, List, update,
  update_self, update_other, test_bit, set_bit, Outcome, panic, ret, ◌>>=◌, ℤ, pos, negsuc,
}
use cow_pbs_cofee_cafe_icecr.Mem.Pages.{Mem, pg_round_down}
use cow_pbs_cofee_cafe_icecr.Mem.Kalloc.Heap.{IsHeap}
use cow_pbs_cofee_cafe_icecr.Mem.Pte.{v_bit, u_bit, pte2pa, pte_flags, maxva}
use cow_pbs_cofee_cafe_icecr.Mem.Walk.{entry, walk, user_page, walkaddr}
use cow_pbs_cofee_cafe_icecr.Mem.Walk.Lookup.{walk-lookup}
use cow_pbs_cofee_cafe_icecr.Mem.Walk.Path.{
  IsPath, path-lookup, IsOwned, IsKept, IsWalked, truth_apart, not_above,
}
use cow_pbs_cofee_cafe_icecr.Mem.Walk.Search.{IsLacking, IsSearched, walk-IsWalked-IsSearched}
use cow_pbs_cofee_cafe_icecr.Mem.Map.{leaf, set_leaf, map_page, go_on, map_pages, mappages}

-- The address of a page that an entry can hold, and flags.
abbrev pub IsFrame : ℕ → ℕ → Type 0
IsFrame pa perm = (pa % 4096 ≡ 0) × (pa < 2 ^ 56) × (perm < 2 ^ 10)

flip : (b : Bool) (x : ℕ) → (if not b then 0 else x) ≡ (if b then x else 0)
flip true x = refl
flip false x = refl

pub leaf-valid : (pa perm : ℕ) → IsFrame pa perm → test_bit (leaf pa perm) v_bit ≡ true
unfolding leaf
leaf-valid pa perm h = ground (arith, h)

leaf-pa : (pa perm : ℕ) → IsFrame pa perm → pte2pa (leaf pa perm) ≡ pa
unfolding leaf
leaf-pa pa perm h = ground (arith, h)

leaf-user : (pa perm : ℕ) → IsFrame pa perm → test_bit (leaf pa perm) u_bit ≡ test_bit perm u_bit
unfolding leaf
leaf-user pa perm h = ground (arith, h)

pub leaf-flags : (pa perm : ℕ) → IsFrame pa perm → pte_flags (leaf pa perm) ≡ set_bit perm v_bit
unfolding leaf
leaf-flags pa perm h = ground (arith, h)

-- A write to an entry that is not on the path.
path-update :
    (pagetable va i j v : ℕ) (m : Mem)
    → test_bit (m.word j) v_bit ≡ false
    → IsPath pagetable va i m
    → IsPath pagetable va i (record m { word = update m.word j v })
path-update pagetable va i j v m e h =
    let off : (k : ℕ) → test_bit (m.word k) v_bit ≡ true → update m.word j v k ≡ m.word k = λ k t.
      update_other m.word j v k
        (λ q. truth_apart (sym t ∙ ap (λ y. test_bit (m.word y) v_bit) (sym q) ∙ e)) in
    let a = off (entry 2 pagetable va) h.upper in
    let b = off (entry 1 h.table va) h.middle in
    record {
      table = h.table;
      last = h.last;
      upper = ap (λ w. test_bit w v_bit) a ∙ h.upper;
      to_table = ap pte2pa a ∙ h.to_table;
      middle = ap (λ w. test_bit w v_bit) b ∙ h.middle;
      to_last = ap pte2pa b ∙ h.to_last;
      here = h.here;
    }

pub path-walk :
    (pagetable va i : ℕ) (m : Mem)
    → va < maxva
    → IsPath pagetable va i m
    → walk pagetable va false m ≡ ret (some i, m)
path-walk pagetable va i m l h =
    (walk-lookup pagetable va m).0 l ∙ ap (λ r. ret (r, m)) (path-lookup pagetable va i m h)

-- What walkaddr answers at an entry with the word `w`.
unfoldable pub answer : ℕ → ℕ
answer w = if not (test_bit w v_bit) then 0 else if not (test_bit w u_bit) then 0 else pte2pa w

pub path-walkaddr :
    (pagetable va i : ℕ) (m : Mem)
    → va < maxva
    → IsPath pagetable va i m
    → walkaddr pagetable va m ≡ ret (answer (m.word i))
unfolding walkaddr user_page answer
path-walkaddr pagetable va i m l h = rw (not_above va l, path-walk pagetable va i m l h)

-- The page that a user sees behind an entry for `pa` with the flags `perm`.
abbrev pub seen : ℕ → ℕ → ℕ
seen pa perm = if test_bit perm u_bit then pa else 0

answer-leaf : (pa perm : ℕ) → IsFrame pa perm → answer (leaf pa perm) ≡ seen pa perm
unfolding answer
answer-leaf pa perm h =
    rw (leaf-valid pa perm h, leaf-user pa perm h, leaf-pa pa perm h)
      (flip (test_bit perm u_bit) pa)

-- The entry for `va` has been set to `pa`.
pub record IsMapping (pagetable va pa perm : ℕ) (m m' : Mem) : Type 0 where
  pub entry_at : ℕ
  pub path : IsPath pagetable va entry_at m'
  pub off_upper : entry_at ≢ entry 2 pagetable va
  pub off_middle : entry_at ≢ entry 1 path.table va
  pub fresh : (j : ℕ) → test_bit (m.word j) v_bit ≡ true → 0 < m.refs (j / 512) → entry_at ≢ j
  pub leaf_there : m'.word entry_at ≡ leaf pa perm
  pub points : pte2pa (m'.word entry_at) ≡ pa
  pub flags : pte_flags (m'.word entry_at) ≡ set_bit perm v_bit
  pub translates : walkaddr pagetable va m' ≡ ret (seen pa perm)
  pub others :
      (j : ℕ) → test_bit (m.word j) v_bit ≡ true → 0 < m.refs (j / 512) → m'.word j ≡ m.word j
  pub counts : (j : ℕ) → 0 < m.refs j → m'.refs j ≡ m.refs j

-- The ways that the mapping of one page ends, with the free pages `free`.
pub data IsMapped (kend pagetable va pa perm : ℕ) (m : Mem) (free : List ℕ)
    : Outcome (ℤ × Mem) → Type 0 where
  maps :
      (m' : Mem)
      → IsMapping pagetable va pa perm m m'
      → IsMapped kend pagetable va pa perm m free (ret (pos 0, m'))
  no_page :
      (m' : Mem)
      → IsLacking pagetable va m free
      → IsKept kend m m'
      → IsMapped kend pagetable va pa perm m free (ret (negsuc 0, m'))
  remaps :
      (i : ℕ)
      → IsPath pagetable va i m
      → test_bit (m.word i) v_bit ≡ true
      → IsMapped kend pagetable va pa perm m free panic

set_leaf-IsMapping :
    (kend pagetable va pa perm i : ℕ) (m m₁ : Mem)
    → va < maxva
    → IsFrame pa perm
    → test_bit (m₁.word i) v_bit ≡ false
    → IsPath pagetable va i m₁
    → IsKept kend m m₁
    → IsMapping pagetable va pa perm m (record m₁ { word = update m₁.word i (leaf pa perm) })
unfolding path-update
set_leaf-IsMapping kend pagetable va pa perm i m m₁ l f e h k =
    let m' : Mem = record m₁ { word = update m₁.word i (leaf pa perm) } in
    let p : IsPath pagetable va i m' = path-update pagetable va i i (leaf pa perm) m₁ e h in
    let apart : (j : ℕ) → i ≡ j → test_bit (m₁.word j) v_bit ≢ true =
      λ j q v. truth_apart (sym v ∙ ap (λ y. test_bit (m₁.word y) v_bit) (sym q) ∙ e) in
    let w : m'.word i ≡ leaf pa perm = update_self m₁.word i (leaf pa perm) in
    record {
      entry_at = i;
      path = p;
      off_upper = λ q. apart (entry 2 pagetable va) q h.upper;
      off_middle = λ q. apart (entry 1 h.table va) q h.middle;
      fresh = λ j v c q. apart j q (ap (λ y. test_bit y v_bit) (k.words j v c) ∙ v);
      leaf_there = w;
      points = ap pte2pa w ∙ leaf-pa pa perm f;
      flags = ap pte_flags w ∙ leaf-flags pa perm f;
      translates =
          path-walkaddr pagetable va i m' l p
          ∙ ap (λ x. ret (answer x)) w
          ∙ ap ret (answer-leaf pa perm f);
      others = λ j v c.
          let same = k.words j v c in
          update_other m₁.word i (leaf pa perm) j (λ q. truth_apart (
            sym (ap (λ y. test_bit y v_bit) same ∙ v)
            ∙ ap (λ y. test_bit (m₁.word y) v_bit) (sym q)
            ∙ e))
          ∙ same;
      counts = k.counts;
    }

set_leaf-IsMapped :
    (kend pagetable va pa perm : ℕ) (m : Mem) (free : List ℕ) (r : Option ℕ × Mem)
    → va < maxva
    → IsFrame pa perm
    → IsWalked kend pagetable va m r
    → IsSearched pagetable va m free r
    → IsMapped kend pagetable va pa perm m free (set_leaf pa perm r)
unfolding set_leaf
set_leaf-IsMapped kend pagetable va pa perm m free (none, m₁) l f k s = no_page m₁ s k
set_leaf-IsMapped kend pagetable va pa perm m free (some i, m₁) l f (h, k) s =
    if_keeps (IsMapped kend pagetable va pa perm m free) (test_bit (m₁.word i) v_bit) _ _
      (λ e. elim s [
        | inl (p, q) ↦ remaps i p (ap (λ (u : Mem). test_bit (u.word i) v_bit) (sym q) ∙ e)
        | inr z ↦ absurd (truth_apart (sym e ∙ z))
      ])
      (λ e. maps _ (set_leaf-IsMapping kend pagetable va pa perm i m m₁ l f e h k))

map_page-IsMapped :
    (kend pagetable va pa perm : ℕ) (m : Mem) (free : List ℕ)
    → va < maxva
    → IsFrame pa perm
    → IsHeap kend m free
    → IsOwned pagetable va m
    → IsMapped kend pagetable va pa perm m free (map_page pagetable va pa perm m)
unfolding map_page
map_page-IsMapped kend pagetable va pa perm m free l f h o =
    let (r, e, w, s) = walk-IsWalked-IsSearched kend pagetable va m free l h o in
    rw e (set_leaf-IsMapped kend pagetable va pa perm m free r l f w s)

go_on_last : (next : Mem → Outcome (ℤ × Mem)) (r : ℤ × Mem) → go_on true next r ≡ ret r
unfolding go_on
go_on_last next (pos z, m) = refl
go_on_last next (negsuc e, m) = refl

only_round : (next : Mem → Outcome (ℤ × Mem)) (o : Outcome (ℤ × Mem)) → (o >>= go_on true next) ≡ o
only_round next panic = refl
only_round next (ret r) = go_on_last next r

one_page :
    (n pagetable a pa perm : ℕ) (m : Mem)
    → 0 < n
    → map_pages n pagetable a a pa perm m ≡ map_page pagetable a pa perm m
unfolding map_pages
one_page zero pagetable a pa perm m h = absurd (omega arith)
one_page (suc n) pagetable a pa perm m h =
    ap
      (λ b.
        map_page pagetable a pa perm m
        >>= go_on b (map_pages n pagetable (a + 4096) a (pa + 4096) perm))
      ((==_iff a a).1 refl)
    ∙ only_round _ (map_page pagetable a pa perm m)

mappages-one :
    (pagetable va pa perm : ℕ) (m : Mem)
    → va % 4096 ≡ 0
    → va < maxva
    → mappages pagetable va 4096 pa perm m ≡ map_page pagetable va pa perm m
unfolding mappages
mappages-one pagetable va pa perm m e l =
    let first : pg_round_down va ≡ va = omega arith in
    let last : pg_round_down ((va + 4096 - 1) % 2 ^ 64) ≡ va = omega arith in
    rw (first, last) (one_page ((maxva - va) / 4096) pagetable va pa perm m (omega arith))

-- On a heap, mapping one page below MAXVA for a table whose upper tables have references ends in
-- one of three ways. It returns 0, the entry for the address holds the page with the flags,
-- walkaddr gives the page if the flags let the user at it and else 0, and no valid entry and no
-- count of a page with references has changed; or it returns -1, the free pages being fewer than
-- the tables that are missing for the address, and has changed no such entry or count; or it
-- panics, the address having had a valid entry already.
pub mappages-IsMapped :
    (kend pagetable va pa perm : ℕ) (m : Mem) (free : List ℕ)
    → va % 4096 ≡ 0
    → va < maxva
    → IsFrame pa perm
    → IsHeap kend m free
    → IsOwned pagetable va m
    → IsMapped kend pagetable va pa perm m free (mappages pagetable va 4096 pa perm m)
mappages-IsMapped kend pagetable va pa perm m free a l f h o =
    rw (mappages-one pagetable va pa perm m a l)
      (map_page-IsMapped kend pagetable va pa perm m free l f h o)

-- Where the mapping has returned 0.
pub mapped-IsMapping :
    (kend pagetable va pa perm : ℕ) (m m' : Mem) (free : List ℕ) (o : Outcome (ℤ × Mem))
    → IsMapped kend pagetable va pa perm m free o
    → o ≡ ret (pos 0, m')
    → IsMapping pagetable va pa perm m m'
mapped-IsMapping kend pagetable va pa perm m m' free o (maps m₁ h) e =
    let same : m₁ ≡ m' = cc e in subst (IsMapping pagetable va pa perm m) same h
mapped-IsMapping kend pagetable va pa perm m m' free o (no_page m₁ h k) e = absurd (cc e)
mapped-IsMapping kend pagetable va pa perm m m' free o (remaps i h k) e = absurd (cc e)
