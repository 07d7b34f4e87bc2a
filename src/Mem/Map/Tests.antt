-- ===== src/Mem/Map/Tests.antt =====
-- A page that is mapped and unmapped in a concrete table.
use cow_pbs_cofee_cafe_icecr.Base.{
  ◌≡◌, refl, arith, ◌==◌, if◌then◌else◌, [], ◌∷◌, false, ret, pos, update,
}
use cow_pbs_cofee_cafe_icecr.Mem.Pages.{Mem}
use cow_pbs_cofee_cafe_icecr.Mem.Kalloc.Heap.{IsHeap}
use cow_pbs_cofee_cafe_icecr.Mem.Walk.{walk, descend, middle_table, last_table}
use cow_pbs_cofee_cafe_icecr.Mem.Map.{
  leaf, set_leaf, map_page, go_on, map_pages, mappages, uvmunmap,
}
use cow_pbs_cofee_cafe_icecr.Mem.Map.RoundTrip.{IsMapped, mappages-IsMapped}
use cow_pbs_cofee_cafe_icecr.Mem.Map.Unmap.{IsUndone, mappages-IsUndone}

-- The tables 0x80002000, 0x80003000 and 0x80004000, with no page mapped, and the free page
-- 0x80005000.
abbrev tables : Mem
tables = record {
  freelist = 0x80005000;
  refs = λ i. if i == 0x80005 then 0 else 1;
  word = λ i. if i == 0x10000400 then 0x20000C01 else if i == 0x10000600 then 0x20001001 else 0;
}

tables-IsHeap : IsHeap 0x80001000 tables (0x80005000 ∷ [])
tables-IsHeap = record { chain = omega arith; all_free = omega arith; distinct = (tt, tt) }

mappages-IsMapped_example :
    IsMapped 0x80001000 0x80002000 0x2000 0x80006000 22 tables
      (0x80005000 ∷ [])
      (mappages 0x80002000 0x2000 4096 0x80006000 22 tables)
mappages-IsMapped_example =
    mappages-IsMapped 0x80001000 0x80002000 0x2000 0x80006000 22 tables (0x80005000 ∷ []) refl
      (omega arith) (refl, omega arith, omega arith) tables-IsHeap
      (record { top = omega arith; middle = λ e. omega arith })

abbrev one_mapped : Mem
one_mapped = record tables { word = update tables.word 0x10000802 (leaf 0x80006000 22) }

maps_one : mappages 0x80002000 0x2000 4096 0x80006000 22 tables ≡ ret (pos 0, one_mapped)
unfolding mappages map_pages map_page go_on set_leaf leaf walk descend middle_table last_table
maps_one = refl

mappages-IsUndone_example :
    (m : Mem) × (uvmunmap 0x80001000 0x80002000 0x2000 1 false one_mapped ≡ ret m)
    × IsUndone 0x80002000 0x2000 0x80006000 22 tables one_mapped m
mappages-IsUndone_example =
    mappages-IsUndone 0x80001000 0x80002000 0x2000 0x80006000 22 tables one_mapped (0x80005000 ∷ [])
      refl (omega arith) (refl, omega arith, omega arith) (omega arith) tables-IsHeap
      (record { top = omega arith; middle = λ e. omega arith }) maps_one
