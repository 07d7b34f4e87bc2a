-- ===== src/Mem/Cow.antt =====
-- Copy on write: `check_valid_add`, `allocate_new_memory` and `write_trap` of kernel/trap.c, and
-- `map_new_to_old` and `uvmcopy` of kernel/vm.c.
pub mod NewPage
pub mod Fault
pub mod Trap
use cow_pbs_cofee_cafe_icecr.Base.{
  ℕ, zero, suc, ◌+◌, ◌-◌, ◌*◌, ◌/◌, ◌%◌, ◌^◌, Bool, true, false, not, ◌||◌, ◌==◌, ltb, leb,
  if◌then◌else◌, Option, none, some, update, test_bit, Outcome, panic, ret, ◌>>=◌, ℤ, pos, negsuc,
}
use cow_pbs_cofee_cafe_icecr.Mem.Pages.{Mem, memmove_page, pg_round_down}
use cow_pbs_cofee_cafe_icecr.Mem.Kalloc.{kalloc, kfree, increase_no_of_ref}
use cow_pbs_cofee_cafe_icecr.Mem.Pte.{
  v_bit, pa2pte, pte2pa, pte_flags, maxva, change_flag_from_write_to_cow, modify_flag_cow_to_write,
  check_if_cow_flag,
}
use cow_pbs_cofee_cafe_icecr.Mem.Walk.{walk}

-- `true` says that the address is not valid: it is MAXVA or above, or 0.
pub check_valid_add : ℕ → Bool
check_valid_add add = leb maxva add || leb add 0

-- The new page, or 0 if there is none; the old one loses a reference.
pub copy_into : ℕ → ℕ → ℕ × Mem → Outcome (ℕ × Mem)
copy_into kend pa (zero, m) = ret (0, m)
copy_into kend pa (suc p, m) = do
  m' ← kfree kend pa (record m { word = memmove_page (suc p) pa m.word })
  ret (suc p, m')

pub allocate_new_memory : ℕ → ℕ → Mem → Outcome (ℕ × Mem)
allocate_new_memory kend pa m = copy_into kend pa (kalloc m)

-- The entry of index `i`, which had the value `pte`, gets the new page.
pub install : ℕ → ℕ → ℕ × Mem → Outcome (ℤ × Mem)
install i pte (zero, m) = ret (negsuc 0, m)
install i pte (suc p, m) = ret (
  pos 0,
  record m { word = update m.word i (pa2pte (suc p) + modify_flag_cow_to_write (pte_flags pte)) },
)

-- What follows the lookup: an entry that is not copy-on-write is left alone.
pub resolve : ℕ → Option ℕ × Mem → Outcome (ℤ × Mem)
resolve kend (none, m) = ret (negsuc 0, m)
resolve kend (some i, m) =
    if check_if_cow_flag (m.word i)
    then allocate_new_memory kend (pte2pa (m.word i)) m >>= install i (m.word i)
    else ret (pos 0, m)

pub write_trap : ℕ → ℕ → ℕ → Mem → Outcome (ℤ × Mem)
write_trap kend add pg m =
    if check_valid_add add
    then ret (negsuc 0, m)
    else walk pg (pg_round_down add) false m >>= resolve kend

-- `*nw_pte = *pte`; a null `nw_pte` faults in the kernel, which panics.
pub map_new_to_old : ℕ → Option ℕ × Mem → Outcome Mem
map_new_to_old pte (none, m) = panic
map_new_to_old pte (some nw, m) = ret (record m { word = update m.word nw (m.word pte) })

-- The body of the loop of `uvmcopy` behind the first lookup, at the virtual address `i`.
pub share_page : ℕ → ℕ → Option ℕ × Mem → Outcome Mem
share_page new i (none, m) = panic
share_page new i (some pte, m) =
    let m' = record m { word = update m.word pte (change_flag_from_write_to_cow (m.word pte)) } in
    if not (test_bit (m.word pte) v_bit) then panic else do
      w ← walk new i true m'
      m'' ← map_new_to_old pte w
      ret (increase_no_of_ref (pte2pa (m''.word pte)) m'')

-- The loop, for the `n` pages from `i` on.
pub share_pages : ℕ → ℕ → ℕ → ℕ → Mem → Outcome Mem
share_pages zero i old new m = ret m
share_pages (suc n) i old new m =
    (walk old i false m >>= share_page new i) >>= share_pages n (i + 4096) old new

-- It returns 0, or panics.
pub uvmcopy : ℕ → ℕ → ℕ → Mem → Outcome (ℤ × Mem)
uvmcopy old new sz m = do m' ← share_pages ((sz + 4095) / 4096) 0 old new m; ret (pos 0, m')
