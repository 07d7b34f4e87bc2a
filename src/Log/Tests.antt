-- ===== src/Log/Tests.antt =====
-- Runs of the log of kernel/log.c: a transaction of one block, and a log that is full.
use cow_pbs_cofee_cafe_icecr.Base.{
  ℕ, zero, suc, ◌+◌, ◌≡◌, ◌⊎◌, inr, refl, arith, Bool, true, false, Option, none, some, [], ◌∷◌,
  update, pos, ◌+ℤ◌, ◌*ℤ◌,
}
use cow_pbs_cofee_cafe_icecr.Log.{
  Store, Log, zeroed, begin_op, log_write, commit, place_from, erase, emptied, install_trans,
  install_from, write_log, write_log_from, write_head, read_head, header, bread, bwrite, disk_write,
  initlog, recover_from_log,
}
use cow_pbs_cofee_cafe_icecr.Log.Commit.{IsOld, IsNew}
use cow_pbs_cofee_cafe_icecr.Log.Finish.{IsReady, contents}
use cow_pbs_cofee_cafe_icecr.Log.Recover.{boot, recoveries, commit_atomic, commit_durable}

-- Block 50 is to be written, with the word 7.
abbrev one_block : Log
one_block = record {
  start = 2;
  size = 30;
  outstanding = pos 0;
  committing = true;
  n = 1;
  block = λ i. 50;
}

abbrev with_power : Option ℕ → Store
with_power p = record { disk = λ b j. 0; cache = update (λ b. none) 50 (some (λ j. 7)); power = p }

one_block-IsReady : (p : Option ℕ) → IsReady one_block (with_power p)
one_block-IsReady p = record { clear = refl; apart = λ i m. inr (omega arith) }

-- The power fails behind the header, and again in the recovery.
commit_atomic_example :
    let d = recoveries (1 ∷ []) 2 30 (commit one_block (with_power (some 2))).1.disk in
    IsOld 2 1 (λ i. 50) (λ b j. 0) (contents (with_power (some 2))) d
    ⊎ IsNew 2 1 (λ i. 50) (λ b j. 0) (contents (with_power (some 2))) d
commit_atomic_example =
    commit_atomic one_block (with_power (some 2)) (1 ∷ []) (one_block-IsReady (some 2))

-- The disk of that run holds the new contents.
abbrev final_word : ℕ
final_word = recoveries (1 ∷ []) 2 30 (commit one_block (with_power (some 2))).1.disk 50 0

test_new : final_word ≡ 7
unfolding recoveries boot commit erase emptied install_trans install_from write_log write_log_from
    write_head read_head header bread bwrite disk_write initlog recover_from_log zeroed
test_new = refl

commit_durable_example :
    IsNew 2 1
      (λ i. 50)
      (λ b j. 0)
      (contents (with_power none))
      (recoveries (1 ∷ []) 2 30 (commit one_block (with_power none)).1.disk)
commit_durable_example =
    commit_durable one_block (with_power none) (1 ∷ []) (one_block-IsReady none) refl

-- A log with one operation.
abbrev opened : Log
opened = record {
  start = 2;
  size = 30;
  outstanding = pos 1;
  committing = false;
  n = 0;
  block = λ i. 0;
}

log_writes : ℕ → Option Log → Option Log
log_writes k none = none
log_writes zero (some l) = some l
log_writes (suc k) (some l) = log_writes k (log_write (100 + k) l)

abbrev is_some : Option Log → Bool
is_some none = false
is_some (some l) = true

-- Three operations fit into the log that mkfs makes, of LOGSIZE blocks.
abbrev three_running : Log
three_running = record {
  start = 2;
  size = 30;
  outstanding = pos 3;
  committing = false;
  n = 0;
  block = λ i. 0;
}

test_third : begin_op (record three_running { outstanding = pos 2 }) ≡ some three_running
unfolding begin_op ◌+ℤ◌ ◌*ℤ◌
test_third = refl

test_29_writes : is_some (log_writes 29 (some three_running)) ≡ true
unfolding log_writes log_write place_from
test_29_writes = refl

-- The last of the 30 blocks that they may write has no room.
test_30_writes : is_some (log_writes 30 (some three_running)) ≡ false
unfolding log_writes log_write place_from
test_30_writes = refl
