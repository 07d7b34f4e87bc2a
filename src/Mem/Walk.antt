-- ===== src/Mem/Walk.antt =====
-- kernel/vm.c: `walk` and `walkaddr`. A pointer to an entry is the index of
-- its word, and a null one is `none`. The tables lie in the pages of the allocator.
pub mod Lookup
pub mod Descend
pub mod Path
pub mod Search
use cow_pbs_cofee_cafe_icecr.Base.{
  ℕ, zero, suc, ◌+◌, ◌-◌, ◌*◌, ◌/◌, ◌%◌, ◌^◌, Bool, true, false, not, ◌==◌, ltb, leb, if◌then◌else◌,
  Option, none, some, update, test_bit, set_bit, Outcome, panic, ret, ◌>>=◌, ℤ, pos, negsuc,
}
use cow_pbs_cofee_cafe_icecr.Mem.Pages.{Mem, memset_page, pg_round_down}
use cow_pbs_cofee_cafe_icecr.Mem.Kalloc.{kalloc, kfree}
use cow_pbs_cofee_cafe_icecr.Mem.Pte.{v_bit, u_bit, pa2pte, pte2pa, pte_flags, px, maxva}

-- The index of `&pagetable[PX(level, va)]`.
abbrev pub entry : ℕ → ℕ → ℕ → ℕ
entry level pagetable va = pagetable / 8 + px level va

-- A new table for the invalid entry of index `i`, if there is a page for it.
pub add_table : ℕ → ℕ × Mem → Option ℕ × Mem
add_table i (zero, m) = (none, m)
add_table i (suc p, m) = (
  some (suc p),
  record m { word = update (memset_page (suc p) 0 m.word) i (set_bit (pa2pte (suc p)) v_bit) },
)

-- One round of the loop: the table of the next level down, or `none` where the source returns 0.
unfoldable pub descend : ℕ → Bool → ℕ → ℕ → Mem → Option ℕ × Mem
descend level alloc pagetable va m =
    let i = entry level pagetable va in
    if test_bit (m.word i) v_bit
    then (some (pte2pa (m.word i)), m)
    else if alloc
    then add_table i (kalloc m)
    else (none, m)

-- The rounds from level 1 on, and the entry of level 0.
unfoldable pub last_table : ℕ → Option ℕ × Mem → Option ℕ × Mem
last_table va (none, m) = (none, m)
last_table va (some table, m) = (some (entry 0 table va), m)

unfoldable pub middle_table : Bool → ℕ → Option ℕ × Mem → Option ℕ × Mem
middle_table alloc va (none, m) = (none, m)
middle_table alloc va (some table, m) = last_table va (descend 1 alloc table va m)

unfoldable pub walk : ℕ → ℕ → Bool → Mem → Outcome (Option ℕ × Mem)
walk pagetable va alloc m =
    if leb maxva va then panic else ret (middle_table alloc va (descend 2 alloc pagetable va m))

-- The physical address of a user page; 0 if it is not mapped.
unfoldable pub user_page : Option ℕ → Mem → ℕ
user_page none m = 0
user_page (some i) m =
    if not (test_bit (m.word i) v_bit)
    then 0
    else if not (test_bit (m.word i) u_bit)
    then 0
    else pte2pa (m.word i)

unfoldable pub walkaddr : ℕ → ℕ → Mem → Outcome ℕ
walkaddr pagetable va m =
    if leb maxva va then ret 0 else do (pte, m') ← walk pagetable va false m; ret (user_page pte m')
