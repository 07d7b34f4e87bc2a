-- ===== src/Log/Space.antt =====
-- The reservations of kernel/log.c: begin_op lets an operation in only if the log has room for all
-- that it may write; the header is left out, so the last block of all may have no room.
use cow_pbs_cofee_cafe_icecr.Base.{
  ℕ, suc, ◌+◌, ◌-◌, ◌<◌, ◌≤◌, ◌≡◌, arith, Bool, true, false, ◌==◌, ◌||◌, leb, if◌then◌else◌, Option,
  none, some, List, [], ◌∷◌, ◌++◌, update, pos,
}
use cow_pbs_cofee_cafe_icecr.Log.{
  Store, Log, commit, maxopblocks, logsize, begin_op, end_op, committed, place_from, log_write,
}
use cow_pbs_cofee_cafe_icecr.Log.Budget.{count, total, IsSmall}

-- The operations of the log, in any order, with what the running ones may still write.
pub data Step (l : Log) : List ℕ → Log → List ℕ → Type 0 where
  begins : (rs : List ℕ) (m : Log) → begin_op l ≡ some m → Step l rs m (maxopblocks ∷ rs)
  writes :
      (us : List ℕ) (r : ℕ) (vs : List ℕ) (b : ℕ) (m : Log)
      → log_write b l ≡ some m
      → Step l (us ++ suc r ∷ vs) m (us ++ r ∷ vs)
  ends :
      (us : List ℕ) (r : ℕ) (vs : List ℕ) (c : Bool) (m : Log)
      → end_op l ≡ some (c, m)
      → Step l (us ++ r ∷ vs) m (us ++ vs)
  commits :
      (rs : List ℕ) (s : Store) → l.committing ≡ true → Step l rs (committed (commit l s)).0 rs

pub data Reach (l : Log) : Log → List ℕ → Type 0 where
  here : Reach l l []
  next : {m k : Log} {rs us : List ℕ} → Reach l m rs → Step m rs k us → Reach l k us

-- The log has room for all that the running operations may still write.
pub record IsReserved (l : Log) (rs : List ℕ) : Type 0 where
  pub running : l.outstanding ≡ pos (count rs)
  pub room : l.n + total rs ≤ logsize
  pub small : IsSmall rs
  pub wide : l.size ≡ logsize
  pub alone : l.committing ≡ true → count rs ≡ 0

fits : (n size : ℕ) → size ≡ logsize → (leb logsize n || leb (size - 1) n) ≡ false → n + 1 < logsize
fits n size e h = ground arith

-- The log as log_write leaves it.
added : ℕ → Log → Log
added b l =
    let i = place_from l.n 0 b l in
    record l { block = update l.block i b; n = if i == l.n then l.n + 1 else l.n }

-- What log_write answers where the running operations may still write the numbers of blocks `rs`:
-- the log has `l.n` blocks and a header.
pub data IsAnswered (l : Log) (rs : List ℕ) (b : ℕ) : Option Log → Type 0 where
  logs :
      (m : Log) (i : ℕ) → l.n + 1 < logsize → i < m.n → m.block i ≡ b → IsAnswered l rs b (some m)
  full : l.n + 1 ≡ logsize → total rs ≡ 1 → IsAnswered l rs b none
