-- ===== src/Mem/Pte.antt =====
-- Page-table entries: the macros of kernel/riscv.h, and the changes of their flags in kernel/vm.c
-- and kernel/trap.c. An entry is a 64-bit word; `PA2PTE(pa) | flags` is a sum, for flags below
-- 1024.
pub mod Flags
use cow_pbs_cofee_cafe_icecr.Base.{
  ℕ, ◌+◌, ◌-◌, ◌*◌, ◌/◌, ◌%◌, ◌^◌, Bool, test_bit, set_bit, clear_bit,
}

-- The numbers of the bits PTE_V, PTE_R, PTE_W, PTE_X, PTE_U and PTE_CW.
abbrev pub v_bit : ℕ
v_bit = 0

abbrev pub r_bit : ℕ
r_bit = 1

abbrev pub w_bit : ℕ
w_bit = 2

abbrev pub x_bit : ℕ
x_bit = 3

abbrev pub u_bit : ℕ
u_bit = 4

abbrev pub cw_bit : ℕ
cw_bit = 8

abbrev pub pa2pte : ℕ → ℕ
pa2pte pa = pa / 2 ^ 12 * 2 ^ 10 % 2 ^ 64

abbrev pub pte2pa : ℕ → ℕ
pte2pa pte = pte / 2 ^ 10 * 2 ^ 12 % 2 ^ 64

abbrev pub pte_flags : ℕ → ℕ
pte_flags pte = pte % 2 ^ 10

-- The index of a virtual address at a level, and MAXVA.
abbrev pub px : ℕ → ℕ → ℕ
px level va = va / 2 ^ (12 + 9 * level) % 2 ^ 9

abbrev pub maxva : ℕ
maxva = 2 ^ 38

pub change_flag_from_write_to_cow : ℕ → ℕ
change_flag_from_write_to_cow pte = clear_bit (set_bit pte cw_bit) w_bit

pub change_flag_from_cow_to_write : ℕ → ℕ
change_flag_from_cow_to_write pte = clear_bit (set_bit pte w_bit) cw_bit

pub modify_flag_cow_to_write : ℕ → ℕ
modify_flag_cow_to_write flags = clear_bit (set_bit flags w_bit) cw_bit

unfoldable pub check_if_cow_flag : ℕ → Bool
check_if_cow_flag pte = test_bit (pte_flags pte) cw_bit
