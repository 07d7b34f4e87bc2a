-- ===== src/Mem/Pages.antt =====
-- Physical memory as 64-bit words, and the page arithmetic of kernel/riscv.h and
-- kernel/memlayout.h.
use cow_pbs_cofee_cafe_icecr.Base.{ℕ, ◌+◌, ◌*◌, ◌/◌, ◌%◌, ◌^◌, ◌==◌, if◌then◌else◌}

-- PGSIZE, in bytes; the words of a page; and PHYSTOP
abbrev pub pgsize : ℕ
pgsize = 4096

abbrev pub page_words : ℕ
page_words = 512

abbrev pub phystop : ℕ
phystop = 0x88000000

-- The state that the allocator and the page tables share: the word of index `i` stands at the
-- address `8 * i`.
pub record Mem : Type 0 where
  pub freelist : ℕ  -- kmem.freelist, an address, 0 for null
  pub refs : ℕ → ℕ  -- no_of_ref_array, of `uint`
  pub word : ℕ → ℕ

-- PGROUNDUP and PGROUNDDOWN on a uint64
abbrev pub pg_round_up : ℕ → ℕ
pg_round_up a = (a + 4095) % 2 ^ 64 / 4096 * 4096

abbrev pub pg_round_down : ℕ → ℕ
pg_round_down a = a / 4096 * 4096

-- The word with the byte `c` in each place.
abbrev pub splat : ℕ → ℕ
splat c = c * 0x0101010101010101

-- memset(pa, c, PGSIZE) and memmove(dst, src, PGSIZE), for page-aligned addresses
abbrev pub memset_page : ℕ → ℕ → (ℕ → ℕ) → ℕ → ℕ
memset_page pa c w i = if i / 512 == pa / 4096 then splat c else w i

abbrev pub memmove_page : ℕ → ℕ → (ℕ → ℕ) → ℕ → ℕ
memmove_page dst src w i = if i / 512 == dst / 4096 then w (src / 4096 * 512 + i % 512) else w i
