-- ===== src/Files.antt =====
-- kernel/file.c: filealloc, filedup and fileclose on the table of open files. `fileclose` says what
-- is left to do to the pipe or the inode; a panic is `none`.
pub mod Counts
pub mod Steps
mod Tests
use cow_pbs_cofee_cafe_icecr.Base.{
  ℕ, zero, suc, ◌+◌, ◌-◌, ◌<◌, ◌≤◌, ◌≡◌, Bool, Option, none, some, ℤ, pos, ◌+ℤ◌, ◌-ℤ◌, int32, ltb_ℤ,
  eqb_ℤ, if◌then◌else◌, update,
}

pub data FileType : Type 0 where
  fd_none fd_pipe fd_inode fd_device : FileType

-- `struct file`; a pointer to a pipe or an inode is a number.
pub record File : Type 0 where
  pub type : FileType
  pub ref : ℤ
  pub readable : Bool
  pub writable : Bool
  pub pipe : ℕ
  pub ip : ℕ
  pub off : ℕ
  pub major : ℕ

-- NFILE of param.h
abbrev pub nfile : ℕ
nfile = 100

-- The loop of filealloc over the `n` entries from `f` on.
unfoldable pub alloc_from : ℕ → ℕ → (ℕ → File) → Option ℕ × (ℕ → File)
alloc_from zero f t = (none, t)
alloc_from (suc n) f t =
    let rest = alloc_from n (f + 1) t in
    if eqb_ℤ (t f).ref (pos 0) then (some f, update t f (record (t f) { ref = pos 1 })) else rest

unfoldable pub filealloc : (ℕ → File) → Option ℕ × (ℕ → File)
filealloc t = alloc_from nfile 0 t

unfoldable pub filedup : ℕ → (ℕ → File) → Option (ℕ → File)
filedup f t =
    if ltb_ℤ (t f).ref (pos 1)
    then none
    else some (update t f (record (t f) { ref = int32 ((t f).ref +ℤ pos 1) }))

-- What fileclose does after it has released the lock.
pub data Closing : Type 0 where
  nothing : Closing
  closes_pipe : ℕ → Bool → Closing
  puts_inode : ℕ → Closing

pub closing : File → FileType → Closing
closing ff fd_none = nothing
closing ff fd_pipe = closes_pipe ff.pipe ff.writable
closing ff fd_inode = puts_inode ff.ip
closing ff fd_device = puts_inode ff.ip

pub fileclose : ℕ → (ℕ → File) → Option (Closing × (ℕ → File))
fileclose f t =
    let n = int32 ((t f).ref -ℤ pos 1) in
    if ltb_ℤ (t f).ref (pos 1)
    then none
    else if ltb_ℤ (pos 0) n
    then some (nothing, update t f (record (t f) { ref = n }))
    else some (closing (t f) (t f).type, update t f (record (t f) { ref = pos 0; type = fd_none }))

-- The table, and how many pointers to each file the processes hold.
pub record Files : Type 0 where
  pub table : ℕ → File
  pub held : ℕ → ℕ

-- A call that a process makes: for a new pointer, for another one to a file that it has, or to give
-- one up.
pub data Step (s t : Files) : Type 0 where
  opens :
      (f : ℕ) (u : ℕ → File)
      → filealloc s.table ≡ (some f, u)
      → t ≡ record { table = u; held = update s.held f (s.held f + 1) }
      → Step s t
  dups :
      (f : ℕ) (u : ℕ → File)
      → 0 < s.held f
      → filedup f s.table ≡ some u
      → t ≡ record { table = u; held = update s.held f (s.held f + 1) }
      → Step s t
  closes :
      (f : ℕ) (a : Closing) (u : ℕ → File)
      → 0 < s.held f
      → fileclose f s.table ≡ some (a, u)
      → t ≡ record { table = u; held = update s.held f (s.held f - 1) }
      → Step s t

-- No file has more than `n` pointers to it.
abbrev pub AtMost : ℕ → Files → Type 0
AtMost n s = (f : ℕ) → s.held f ≤ n

-- What calls reach, with at most `n` pointers to each file on the way.
pub data Calls (n : ℕ) (s : Files) : Files → Type 0 where
  start : Calls n s s
  call : {t u : Files} → Calls n s t → Step t u → AtMost n u → Calls n s u
