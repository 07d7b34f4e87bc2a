-- ===== src/Mem/Pte/Flags.antt =====
-- What the flag changes of kernel/vm.c and kernel/trap.c do to each bit.
use cow_pbs_cofee_cafe_icecr.Base.{ℕ, ◌+◌, ◌%◌, ◌^◌, ◌<◌, ◌≡◌, arith, ◌∙◌, true, false, test_bit}
use cow_pbs_cofee_cafe_icecr.Mem.Pte.{
  v_bit, r_bit, w_bit, x_bit, u_bit, cw_bit, pa2pte, pte2pa, pte_flags,
  change_flag_from_write_to_cow, modify_flag_cow_to_write, check_if_cow_flag,
}

-- The same page, and the same bits V, R, X and U.
pub record SameButCow (pte q : ℕ) : Type 0 where
  pub address : pte2pa q ≡ pte2pa pte
  pub bit_v : test_bit q v_bit ≡ test_bit pte v_bit
  pub bit_r : test_bit q r_bit ≡ test_bit pte r_bit
  pub bit_x : test_bit q x_bit ≡ test_bit pte x_bit
  pub bit_u : test_bit q u_bit ≡ test_bit pte u_bit

-- An entry made copy-on-write is not writable and has the CW bit; its page and its bits V, R, X and
-- U are as before.
pub change_flag_from_write_to_cow-bits :
    (pte : ℕ)
    → (test_bit (change_flag_from_write_to_cow pte) w_bit ≡ false)
      × (check_if_cow_flag (change_flag_from_write_to_cow pte) ≡ true)
      × SameButCow pte (change_flag_from_write_to_cow pte)
unfolding change_flag_from_write_to_cow check_if_cow_flag
change_flag_from_write_to_cow-bits pte = (
  ground arith,
  ground arith,
  record {
    address = ground arith;
    bit_v = ground arith;
    bit_r = ground arith;
    bit_x = ground arith;
    bit_u = ground arith;
  },
)

-- The entry that a page fault installs for the page `mem`, with the flags of `pte`.
abbrev pub private_entry : ℕ → ℕ → ℕ
private_entry mem pte = pa2pte mem + modify_flag_cow_to_write (pte_flags pte)

-- Of a page below PHYSTOP, that entry is writable, has no CW bit, and its bits V, R, X and U are
-- those of the entry replaced, whatever the W bit of that one.
pub private_entry-bits :
    (mem pte : ℕ)
    → mem % 4096 ≡ 0
    → mem < 2 ^ 48
    → (pte2pa (private_entry mem pte) ≡ mem)
      × (test_bit (private_entry mem pte) w_bit ≡ true)
      × (check_if_cow_flag (private_entry mem pte) ≡ false)
      × (test_bit (private_entry mem pte) v_bit ≡ test_bit pte v_bit)
      × (test_bit (private_entry mem pte) r_bit ≡ test_bit pte r_bit)
      × (test_bit (private_entry mem pte) x_bit ≡ test_bit pte x_bit)
      × (test_bit (private_entry mem pte) u_bit ≡ test_bit pte u_bit)
unfolding modify_flag_cow_to_write check_if_cow_flag
private_entry-bits mem pte al hi = (
  ground arith,
  ground arith,
  ground arith,
  ground arith,
  ground arith,
  ground arith,
  ground arith,
)

-- The entry `q` is writable, not copy-on-write, and points to the page `mem`; its other flags, the
-- bits 0 to 9 but for W and CW, are those of `pte`.
pub record IsUnshared (mem pte q : ℕ) : Type 0 where
  pub address : pte2pa q ≡ mem
  pub writable : test_bit q w_bit ≡ true
  pub not_cow : test_bit q cw_bit ≡ false
  pub valid : test_bit q v_bit ≡ test_bit pte v_bit
  pub readable : test_bit q r_bit ≡ test_bit pte r_bit
  pub executable : test_bit q x_bit ≡ test_bit pte x_bit
  pub user : test_bit q u_bit ≡ test_bit pte u_bit
  pub global : test_bit q 5 ≡ test_bit pte 5
  pub accessed : test_bit q 6 ≡ test_bit pte 6
  pub dirty : test_bit q 7 ≡ test_bit pte 7
  pub spare : test_bit q 9 ≡ test_bit pte 9

pub private_entry-IsUnshared :
    (mem pte : ℕ) → mem % 4096 ≡ 0 → mem < 2 ^ 48 → IsUnshared mem pte (private_entry mem pte)
unfolding modify_flag_cow_to_write
private_entry-IsUnshared mem pte al hi = record {
  address = ground arith;
  writable = ground arith;
  not_cow = ground arith;
  valid = ground arith;
  readable = ground arith;
  executable = ground arith;
  user = ground arith;
  global = ground arith;
  accessed = ground arith;
  dirty = ground arith;
  spare = ground arith;
}

-- The test for copy-on-write is the bit CW.
pub check_if_cow_flag-bit : (pte : ℕ) → check_if_cow_flag pte ≡ test_bit pte cw_bit
unfolding check_if_cow_flag
check_if_cow_flag-bit pte = ground arith

-- A page that `uvmcopy` shares and a write fault then copies to `mem` is writable and no longer
-- copy-on-write, whether or not it was writable before, and keeps its bits V, R, X and U.
pub shared_then_copied-bits :
    (mem pte : ℕ)
    → mem % 4096 ≡ 0
    → mem < 2 ^ 48
    → let q = private_entry mem (change_flag_from_write_to_cow pte) in
      (pte2pa q ≡ mem)
      × (test_bit q w_bit ≡ true)
      × (check_if_cow_flag q ≡ false)
      × (test_bit q v_bit ≡ test_bit pte v_bit)
      × (test_bit q r_bit ≡ test_bit pte r_bit)
      × (test_bit q x_bit ≡ test_bit pte x_bit)
      × (test_bit q u_bit ≡ test_bit pte u_bit)
shared_then_copied-bits mem pte al hi =
    let b = private_entry-bits mem (change_flag_from_write_to_cow pte) al hi in
    let c = (change_flag_from_write_to_cow-bits pte).2 in
    (b.0, b.1, b.2, b.3 ∙ c.bit_v, b.4 ∙ c.bit_r, b.5 ∙ c.bit_x, b.6 ∙ c.bit_u)
