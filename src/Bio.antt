-- ===== src/Bio.antt =====
-- kernel/bio.c: the cache of disk blocks and its list, the most recently used buffer first. A
-- pointer to a buffer is its index, and `nbuf` is the address of `head`. The lock of the cache
-- makes each function a step; the sleep lock of a buffer is left out but for what holdingsleep
-- answers.
pub mod Ring
pub mod Release
pub mod Get
pub mod Result
pub mod Single
mod Tests
use cow_pbs_cofee_cafe_icecr.Base.{
  ℕ, zero, suc, ◌+◌, ◌-◌, ◌%◌, ◌^◌, Bool, true, false, not, ◌&&◌, ◌==◌, if◌then◌else◌, Option, none,
  some, update,
}

-- `struct buf`, less its lock, its links and its data.
pub record Buf : Type 0 where
  pub valid : Bool
  pub dev : ℕ
  pub blockno : ℕ
  pub refcnt : ℕ

-- `bcache`
pub record Cache : Type 0 where
  pub buf : ℕ → Buf
  pub next : ℕ → ℕ
  pub prev : ℕ → ℕ

-- NBUF of param.h
abbrev pub nbuf : ℕ
nbuf = 30

-- The four writes that put `b` behind `head`.
pub push_front : ℕ → Cache → Cache
push_front b c =
    let next = update c.next b (c.next nbuf) in
    record c { next = update next nbuf b; prev = update (update c.prev b nbuf) (next nbuf) b }

-- The two writes that take `b` out of the list.
pub unlink : ℕ → Cache → Cache
unlink b c =
    let prev = update c.prev (c.next b) (c.prev b) in
    record c { next = update c.next (prev b) (c.next b); prev = prev }

-- The loop of binit, for the `k` buffers from `b` on.
pub binit_from : ℕ → ℕ → Cache → Cache
binit_from zero b c = c
binit_from (suc k) b c = binit_from k (b + 1) (push_front b c)

pub binit : Cache → Cache
binit c =
    binit_from nbuf 0 (record c { next = update c.next nbuf nbuf; prev = update c.prev nbuf nbuf })

abbrev pub holds_block : ℕ → ℕ → Buf → Bool
holds_block dev blockno b = b.dev == dev && b.blockno == blockno

-- The first loop of bget from `b` on, for at most `k` buffers.
pub find_block : ℕ → ℕ → ℕ → ℕ → Cache → Option ℕ
find_block zero b dev blockno c = none
find_block (suc k) b dev blockno c =
    let rest = find_block k (c.next b) dev blockno c in
    if b == nbuf then none else if holds_block dev blockno (c.buf b) then some b else rest

-- Its second loop, backwards.
pub find_unused : ℕ → ℕ → Cache → Option ℕ
find_unused zero b c = none
find_unused (suc k) b c =
    let rest = find_unused k (c.prev b) c in
    if b == nbuf then none else if (c.buf b).refcnt == 0 then some b else rest

pub set_buf : ℕ → Buf → Cache → Cache
set_buf b v c = record c { buf = update c.buf b v }

abbrev pub recycled : ℕ → ℕ → Buf
recycled dev blockno = record { valid = false; dev = dev; blockno = blockno; refcnt = 1 }

pub recycle : ℕ → ℕ → Cache → Option ℕ → Option (ℕ × Cache)
recycle dev blockno c none = none
recycle dev blockno c (some b) = some (b, set_buf b (recycled dev blockno) c)

pub bpin : ℕ → Cache → Cache
bpin b c = set_buf b (record (c.buf b) { refcnt = ((c.buf b).refcnt + 1) % 2 ^ 32 }) c

pub bunpin : ℕ → Cache → Cache
bunpin b c = set_buf b (record (c.buf b) { refcnt = ((c.buf b).refcnt + (2 ^ 32 - 1)) % 2 ^ 32 }) c

-- What bget does with the buffer of the first loop.
pub get_found : ℕ → ℕ → Cache → Option ℕ → Option (ℕ × Cache)
get_found dev blockno c none = recycle dev blockno c (find_unused (nbuf + 1) (c.prev nbuf) c)
get_found dev blockno c (some b) = some (b, bpin b c)

-- bget: `none` is the panic.
pub bget : ℕ → ℕ → Cache → Option (ℕ × Cache)
bget dev blockno c = get_found dev blockno c (find_block (nbuf + 1) (c.next nbuf) dev blockno c)

-- brelse, with the answer of holdingsleep.
pub brelse : Bool → ℕ → Cache → Option Cache
brelse holding b c =
    let d = bunpin b c in
    if not holding
    then none
    else if (d.buf b).refcnt == 0
    then some (push_front b (unlink b d))
    else some d
