-- ===== src/Log.antt =====
-- kernel/log.c: the log of the file system, on a disk of blocks that may lose its power before any
-- write, and what bread and bwrite of kernel/bio.c do for it. A block is an array of `int` words,
-- and a header block holds `n` and then the block numbers. The lock of the log makes begin_op,
-- log_write and the parts of end_op steps.
pub mod Disk
pub mod Commit
pub mod Phases
pub mod Finish
pub mod Recover
pub mod Budget
pub mod Space
mod Tests
use cow_pbs_cofee_cafe_icecr.Base.{
  ℕ, zero, suc, ◌+◌, ◌-◌, ◌*◌, Bool, true, false, not, ◌||◌, ◌==◌, ltb, leb, if◌then◌else◌, Option,
  none, some, update, ℤ, pos, ◌+ℤ◌, ◌-ℤ◌, ◌*ℤ◌, ltb_ℤ, eqb_ℤ,
}

abbrev pub Block : Type 0
Block = ℕ → ℕ

-- The disk, the buffers that hold a block, and the writes that the disk still makes: `none` if the
-- power does not fail.
pub record Store : Type 0 where
  pub disk : ℕ → Block
  pub cache : ℕ → Option Block
  pub power : Option ℕ

abbrev pub buffer_or : Option Block → Block → Block
buffer_or none d = d
buffer_or (some b) d = b

-- The contents of the buffer that bread returns.
pub bread : ℕ → Store → Block
bread b s = buffer_or (s.cache b) (s.disk b)

-- The write of a buffer with the contents `v`.
pub disk_write : Option ℕ → ℕ → Block → (ℕ → Block) → ℕ → Block
disk_write none b v d = update d b v
disk_write (some zero) b v d = d
disk_write (some (suc p)) b v d = update d b v

abbrev pub less_power : Option ℕ → Option ℕ
less_power none = none
less_power (some zero) = some zero
less_power (some (suc p)) = some p

pub bwrite : ℕ → Block → Store → Store
bwrite b v s = record {
  disk = disk_write s.power b v s.disk;
  cache = update s.cache b (some v);
  power = less_power s.power;
}

-- `struct log`, less its lock and its device; `lh` is `n` and `block`.
pub record Log : Type 0 where
  pub start : ℕ
  pub size : ℕ
  pub outstanding : ℤ
  pub committing : Bool
  pub n : ℕ
  pub block : ℕ → ℕ

-- The loop of install_trans for the `k` blocks from `tail` on.
pub install_from : ℕ → ℕ → Log → Store → Store
install_from zero tail l s = s
install_from (suc k) tail l s =
    install_from k (tail + 1) l (bwrite (l.block tail) (bread (l.start + tail + 1) s) s)

pub install_trans : Log → Store → Store
install_trans l s = install_from l.n 0 l s

-- The words of the header in memory over those of a buffer.
pub header : Log → Block → Block
header l old j = if j == 0 then l.n else if leb j l.n then l.block (j - 1) else old j

pub write_head : Log → Store → Store
write_head l s = bwrite l.start (header l (bread l.start s)) s

pub read_head : Log → Store → Log
read_head l s =
    let b = bread l.start s in
    record l { n = b 0; block = λ i. if ltb i (b 0) then b (i + 1) else l.block i }

pub write_log_from : ℕ → ℕ → Log → Store → Store
write_log_from zero tail l s = s
write_log_from (suc k) tail l s =
    write_log_from k (tail + 1) l (bwrite (l.start + tail + 1) (bread (l.block tail) s) s)

pub write_log : Log → Store → Store
write_log l s = write_log_from l.n 0 l s

-- `log.lh.n = 0`
pub emptied : Log → Log
emptied l = record l { n = 0 }

pub erase : Log → Store → Log × Store
erase l s = (emptied l, write_head (emptied l) s)

pub commit : Log → Store → Log × Store
commit l s = if l.n == 0 then (l, s) else erase l (install_trans l (write_head l (write_log l s)))

pub recover_from_log : Log → Store → Log × Store
recover_from_log l s = let r = read_head l s in erase r (install_trans r s)

-- `log` as it is at boot, and the place and the size of the log from the superblock.
pub zeroed : ℕ → ℕ → Log
zeroed logstart nlog = record {
  start = logstart;
  size = nlog;
  outstanding = pos 0;
  committing = false;
  n = 0;
  block = λ i. 0;
}

pub initlog : ℕ → ℕ → Store → Log × Store
initlog logstart nlog s = recover_from_log (zeroed logstart nlog) s

-- MAXOPBLOCKS and LOGSIZE of param.h
abbrev pub maxopblocks : ℕ
maxopblocks = 10

abbrev pub logsize : ℕ
logsize = 30

-- A round of the loop of begin_op: the new log, or `none` to sleep.
pub begin_op : Log → Option Log
begin_op l =
    if l.committing || ltb_ℤ (pos logsize) (pos l.n +ℤ (l.outstanding +ℤ pos 1) *ℤ pos maxopblocks)
    then none
    else some (record l { outstanding = l.outstanding +ℤ pos 1 })

-- The first part of end_op: whether to commit; `none` is the panic.
pub end_op : Log → Option (Bool × Log)
end_op l =
    let k = l.outstanding -ℤ pos 1 in
    if l.committing
    then none
    else some (eqb_ℤ k (pos 0), record l { outstanding = k; committing = eqb_ℤ k (pos 0) })

-- The last part of end_op, behind the commit.
pub committed : Log × Store → Log × Store
committed (l, s) = (record l { committing = false }, s)

-- The place of a block in the log, `n` if it is not there.
pub place_from : ℕ → ℕ → ℕ → Log → ℕ
place_from zero i b l = i
place_from (suc k) i b l = let rest = place_from k (i + 1) b l in if l.block i == b then i else rest

pub log_write : ℕ → Log → Option Log
log_write b l =
    let i = place_from l.n 0 b l in
    if leb logsize l.n || leb (l.size - 1) l.n
    then none
    else if ltb_ℤ l.outstanding (pos 1)
    then none
    else some (record l { block = update l.block i b; n = if i == l.n then l.n + 1 else l.n })
