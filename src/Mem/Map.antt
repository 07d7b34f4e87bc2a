-- ===== src/Mem/Map.antt =====
-- kernel/vm.c: `mappages`, `uvmunmap`, `uvmcreate`, `uvmalloc`, `uvmdealloc` and `uvmclear`. A loop
-- over pages recurs on the pages that are left; past the last page below MAXVA `walk` panics.
pub mod RoundTrip
pub mod Unmap
mod Tests
use cow_pbs_cofee_cafe_icecr.Base.{
  ℕ, zero, suc, ◌+◌, ◌-◌, ◌*◌, ◌/◌, ◌%◌, ◌^◌, Bool, true, false, not, ◌==◌, ltb, leb, if◌then◌else◌,
  Option, none, some, update, test_bit, set_bit, clear_bit, Outcome, panic, ret, ◌>>=◌, ℤ, pos,
  negsuc,
}
use cow_pbs_cofee_cafe_icecr.Mem.Pages.{Mem, memset_page, pg_round_up, pg_round_down}
use cow_pbs_cofee_cafe_icecr.Mem.Kalloc.{kalloc, kfree}
use cow_pbs_cofee_cafe_icecr.Mem.Pte.{v_bit, r_bit, u_bit, pa2pte, pte2pa, pte_flags, maxva}
use cow_pbs_cofee_cafe_icecr.Mem.Walk.{walk}

-- `*pte = PA2PTE(pa) | perm | PTE_V`, for flags `perm` below 1024.
unfoldable pub leaf : ℕ → ℕ → ℕ
leaf pa perm = pa2pte pa + set_bit perm v_bit

-- The result of `mappages`: 0, or -1 where `walk` has no page for a table.
pub set_leaf : ℕ → ℕ → Option ℕ × Mem → Outcome (ℤ × Mem)
set_leaf pa perm (none, m) = ret (negsuc 0, m)
set_leaf pa perm (some i, m) =
    if test_bit (m.word i) v_bit
    then panic
    else ret (pos 0, record m { word = update m.word i (leaf pa perm) })

-- The body of the loop at the address `a`.
pub map_page : ℕ → ℕ → ℕ → ℕ → Mem → Outcome (ℤ × Mem)
map_page pagetable a pa perm m = walk pagetable a true m >>= set_leaf pa perm

-- What follows a round of the loop, if another may follow.
pub go_on : Bool → (Mem → Outcome (ℤ × Mem)) → ℤ × Mem → Outcome (ℤ × Mem)
go_on last next (negsuc e, m) = ret (negsuc e, m)
go_on true next (pos z, m) = ret (pos z, m)
go_on false next (pos z, m) = next m

-- The loop, with `n` pages between `a` and MAXVA.
pub map_pages : ℕ → ℕ → ℕ → ℕ → ℕ → ℕ → Mem → Outcome (ℤ × Mem)
map_pages zero pagetable a last pa perm m = panic
map_pages (suc n) pagetable a last pa perm m =
    map_page pagetable a pa perm m
    >>= go_on (a == last) (map_pages n pagetable (a + 4096) last (pa + 4096) perm)

pub mappages : ℕ → ℕ → ℕ → ℕ → ℕ → Mem → Outcome (ℤ × Mem)
mappages pagetable va size pa perm m =
    let a = pg_round_down va in
    if size == 0
    then panic
    else map_pages ((maxva - a) / 4096) pagetable a (pg_round_down ((va + size - 1) % 2 ^ 64)) pa
        perm m

-- `*pte = 0`
pub clear_entry : ℕ → Mem → Mem
clear_entry i m = record m { word = update m.word i 0 }

-- The body of the loop of `uvmunmap`, behind the lookup.
pub unmap_entry : ℕ → Bool → Option ℕ × Mem → Outcome Mem
unmap_entry kend do_free (none, m) = panic
unmap_entry kend do_free (some i, m) =
    let pte = m.word i in
    if not (test_bit pte v_bit)
    then panic
    else if pte_flags pte == 1
    then panic
    else (if do_free then kfree kend (pte2pa pte) m else ret m) >>= λ (m' : Mem).
        ret (clear_entry i m')

-- The loop, for the `n` pages from `a` on.
pub unmap_pages : ℕ → ℕ → ℕ → ℕ → Bool → Mem → Outcome Mem
unmap_pages zero kend pagetable a do_free m = ret m
unmap_pages (suc n) kend pagetable a do_free m =
    (walk pagetable a false m >>= unmap_entry kend do_free)
    >>= unmap_pages n kend pagetable (a + 4096) do_free

-- The pages that the loop `for(a = from; a < to; a += PGSIZE)` visits.
abbrev pub pages_between : ℕ → ℕ → ℕ
pages_between from to = (to - from + 4095) / 4096

pub uvmunmap : ℕ → ℕ → ℕ → ℕ → Bool → Mem → Outcome Mem
uvmunmap kend pagetable va npages do_free m =
    if not (va % 4096 == 0)
    then panic
    else unmap_pages (pages_between va ((va + npages * 4096 % 2 ^ 64) % 2 ^ 64)) kend pagetable va
        do_free m

-- The address of a table with no entries, 0 if there is no page.
pub cleared : ℕ × Mem → ℕ × Mem
cleared (zero, m) = (0, m)
cleared (suc p, m) = (suc p, record m { word = memset_page (suc p) 0 m.word })

pub uvmcreate : Mem → ℕ × Mem
uvmcreate m = cleared (kalloc m)

pub uvmdealloc : ℕ → ℕ → ℕ → ℕ → Mem → Outcome (ℕ × Mem)
uvmdealloc kend pagetable oldsz newsz m =
    if leb oldsz newsz
    then ret (oldsz, m)
    else if ltb (pg_round_up newsz) (pg_round_up oldsz)
    then (uvmunmap kend pagetable (pg_round_up newsz)
          ((pg_round_up oldsz - pg_round_up newsz) / 4096) true m
        >>= λ (m' : Mem). ret (newsz, m'))
    else ret (newsz, m)

-- The pages from `oldsz` to `a` are given back, and the result is 0.
pub give_up : ℕ → ℕ → ℕ → ℕ → Mem → Outcome (ℕ × Mem)
give_up kend pagetable a oldsz m =
    uvmdealloc kend pagetable a oldsz m >>= λ (r : ℕ × Mem). ret (0, r.1)

-- What follows `mappages` for the new page `mem`.
pub mapped : ℕ → ℕ → ℕ → ℕ → ℕ → (Mem → Outcome (ℕ × Mem)) → ℤ × Mem → Outcome (ℕ × Mem)
mapped kend pagetable a oldsz mem next (pos z, m) = next m
mapped kend pagetable a oldsz mem next (negsuc e, m) =
    kfree kend mem m >>= give_up kend pagetable a oldsz

-- The body of the loop of `uvmalloc` at `a`, with the answer of kalloc.
pub grow_page : ℕ → ℕ → ℕ → ℕ → ℕ → (Mem → Outcome (ℕ × Mem)) → ℕ × Mem → Outcome (ℕ × Mem)
grow_page kend pagetable a oldsz xperm next (zero, m) = give_up kend pagetable a oldsz m
grow_page kend pagetable a oldsz xperm next (suc p, m) =
    mappages pagetable a 4096 (suc p) (set_bit (set_bit xperm r_bit) u_bit)
      (record m { word = memset_page (suc p) 0 m.word })
    >>= mapped kend pagetable a oldsz (suc p) next

-- The loop, for the `n` pages from `a` on.
pub grow_pages : ℕ → ℕ → ℕ → ℕ → ℕ → ℕ → ℕ → Mem → Outcome (ℕ × Mem)
grow_pages zero kend pagetable a oldsz newsz xperm m = ret (newsz, m)
grow_pages (suc n) kend pagetable a oldsz newsz xperm m =
    grow_page kend pagetable a oldsz xperm
      (grow_pages n kend pagetable (a + 4096) oldsz newsz xperm) (kalloc m)

-- The new size, 0 on error.
pub uvmalloc : ℕ → ℕ → ℕ → ℕ → ℕ → Mem → Outcome (ℕ × Mem)
uvmalloc kend pagetable oldsz newsz xperm m =
    let old = pg_round_up oldsz in
    if ltb newsz oldsz
    then ret (oldsz, m)
    else grow_pages (pages_between old newsz) kend pagetable old old newsz xperm m

-- `*pte &= ~PTE_U`
pub hide_entry : Option ℕ × Mem → Outcome Mem
hide_entry (none, m) = panic
hide_entry (some i, m) = ret (record m { word = update m.word i (clear_bit (m.word i) u_bit) })

pub uvmclear : ℕ → ℕ → Mem → Outcome Mem
uvmclear pagetable va m = walk pagetable va false m >>= hide_entry
