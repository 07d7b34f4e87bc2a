-- ===== src/Mem/Map/Unmap.antt =====
-- `uvmunmap` of kernel/vm.c takes back what `mappages` has mapped.
use cow_pbs_cofee_cafe_icecr.Base.{
  ℕ, ◌+◌, ◌*◌, ◌%◌, ◌^◌, ◌<◌, ◌≡◌, ◌≢◌, refl, ◌∙◌, ap, arith, true, false, ◌==◌, ==_iff, some,
  update_self, update_other, test_bit, set_bit, ret, List, ◌/◌, pos,
}
use cow_pbs_cofee_cafe_icecr.Mem.Pages.{Mem}
use cow_pbs_cofee_cafe_icecr.Mem.Pte.{v_bit, pte2pa, maxva}
use cow_pbs_cofee_cafe_icecr.Mem.Walk.{entry, walkaddr}
use cow_pbs_cofee_cafe_icecr.Mem.Walk.Path.{IsPath, IsOwned}
use cow_pbs_cofee_cafe_icecr.Mem.Kalloc.Heap.{IsHeap}
use cow_pbs_cofee_cafe_icecr.Mem.Map.{
  leaf, mappages, clear_entry, unmap_entry, unmap_pages, pages_between, uvmunmap,
}
use cow_pbs_cofee_cafe_icecr.Mem.Map.RoundTrip.{
  IsFrame, leaf-valid, leaf-flags, path-walk, answer, path-walkaddr, seen, IsMapping,
  mappages-IsMapped, mapped-IsMapping,
}

-- The entry has been cleared, and nothing else.
pub record IsUnmapped (pagetable va i : ℕ) (m m' : Mem) : Type 0 where
  pub gone : walkaddr pagetable va m' ≡ ret 0
  pub cleared : m'.word i ≡ 0
  pub others : (j : ℕ) → i ≢ j → m'.word j ≡ m.word j
  pub counts : m'.refs ≡ m.refs
  pub list : m'.freelist ≡ m.freelist

flags_more : (perm : ℕ) → 1 < perm → (set_bit perm v_bit == 1) ≡ false
flags_more perm h = ground arith

unmap_entry-clears :
    (kend i pa perm : ℕ) (m : Mem)
    → IsFrame pa perm
    → 1 < perm
    → m.word i ≡ leaf pa perm
    → unmap_entry kend false (some i, m) ≡ ret (clear_entry i m)
unfolding unmap_entry
unmap_entry-clears kend i pa perm m f h e =
    rw (e, leaf-valid pa perm f, leaf-flags pa perm f, flags_more perm h)

clear_entry-IsUnmapped :
    (pagetable va pa perm : ℕ) (m m' : Mem)
    → va < maxva
    → (h : IsMapping pagetable va pa perm m m')
    → IsUnmapped pagetable va h.entry_at m' (clear_entry h.entry_at m')
unfolding clear_entry answer
clear_entry-IsUnmapped pagetable va pa perm m m' l h =
    let i = h.entry_at in
    let a = update_other m'.word i 0 (entry 2 pagetable va) h.off_upper in
    let b = update_other m'.word i 0 (entry 1 h.path.table va) h.off_middle in
    let p : IsPath pagetable va i (clear_entry i m') = record {
      table = h.path.table;
      last = h.path.last;
      upper = ap (λ w. test_bit w v_bit) a ∙ h.path.upper;
      to_table = ap pte2pa a ∙ h.path.to_table;
      middle = ap (λ w. test_bit w v_bit) b ∙ h.path.middle;
      to_last = ap pte2pa b ∙ h.path.to_last;
      here = h.path.here;
    } in
    record {
      gone =
          path-walkaddr pagetable va i (clear_entry i m') l p
          ∙ ap (λ w. ret (answer w)) (update_self m'.word i 0);
      cleared = update_self m'.word i 0;
      others = λ j n. update_other m'.word i 0 j n;
      counts = refl;
      list = refl;
    }

one_round :
    (va : ℕ) → va % 4096 ≡ 0 → va < maxva → pages_between va ((va + 1 * 4096 % 2 ^ 64) % 2 ^ 64) ≡ 1
one_round va e l = omega arith

aligned : (va : ℕ) → va % 4096 ≡ 0 → (va % 4096 == 0) ≡ true
aligned va a = (==_iff (va % 4096) 0).1 a

mapped-IsUnmapped :
    (kend pagetable va pa perm : ℕ) (m m' : Mem)
    → va % 4096 ≡ 0
    → va < maxva
    → IsFrame pa perm
    → 1 < perm
    → (h : IsMapping pagetable va pa perm m m')
    → (m'' : Mem) × ((uvmunmap kend pagetable va 1 false m' ≡ ret m'')
        × IsUnmapped pagetable va h.entry_at m' m'')
unfolding uvmunmap unmap_pages
mapped-IsUnmapped kend pagetable va pa perm m m' a l f g h = (
  clear_entry h.entry_at m',
  (
    rw (aligned va a, one_round va a l)
        (rw (path-walk pagetable va h.entry_at m' l h.path)
          (rw (unmap_entry-clears kend h.entry_at pa perm m' f g h.leaf_there))),
    clear_entry-IsUnmapped pagetable va pa perm m m' l h,
  ),
)

-- The memories before the page is mapped, when it is mapped, and when it is unmapped.
pub record IsUndone (pagetable va pa perm : ℕ) (m m' m'' : Mem) : Type 0 where
  pub mapped : walkaddr pagetable va m' ≡ ret (seen pa perm)
  pub gone : walkaddr pagetable va m'' ≡ ret 0
  pub words :
      (j : ℕ) → test_bit (m.word j) v_bit ≡ true → 0 < m.refs (j / 512) → m''.word j ≡ m.word j
  pub counts : (j : ℕ) → 0 < m.refs j → m''.refs j ≡ m.refs j
  pub list : m''.freelist ≡ m'.freelist

-- On a heap, for a table whose upper tables have references: if mappages of one page below MAXVA,
-- with flags beyond V, returns 0, then walkaddr gives the page, or 0 where the flags do not let the
-- user at it; and uvmunmap of this page, without freeing it, then returns. After it walkaddr gives
-- 0, and every valid entry and every count of a page with references is as it was before mappages.
pub mappages-IsUndone :
    (kend pagetable va pa perm : ℕ) (m m' : Mem) (free : List ℕ)
    → va % 4096 ≡ 0
    → va < maxva
    → IsFrame pa perm
    → 1 < perm
    → IsHeap kend m free
    → IsOwned pagetable va m
    → mappages pagetable va 4096 pa perm m ≡ ret (pos 0, m')
    → (m'' : Mem) × (uvmunmap kend pagetable va 1 false m' ≡ ret m'')
      × IsUndone pagetable va pa perm m m' m''
mappages-IsUndone kend pagetable va pa perm m m' free a l f g h o e =
    let k =
      mapped-IsMapping kend pagetable va pa perm m m' free _
        (mappages-IsMapped kend pagetable va pa perm m free a l f h o) e in
    let (m'', (q, u)) = mapped-IsUnmapped kend pagetable va pa perm m m' a l f g k in
    (
      m'',
      q,
      record {
        mapped = k.translates;
        gone = u.gone;
        words = λ j v c. u.others j (k.fresh j v c) ∙ k.others j v c;
        counts = λ j c. ap (λ (r : ℕ → ℕ). r j) u.counts ∙ k.counts j c;
        list = u.list;
      },
    )
