-- ===== src/Files/Steps.antt =====
-- The counts of kernel/file.c in any order of calls.
use cow_pbs_cofee_cafe_icecr.Base.{ℕ, ◌+◌, ◌-◌, ◌<◌, ◌≡◌, ◌≢◌, some, pos}
use cow_pbs_cofee_cafe_icecr.Files.{
  FileType, File, fd_none, fd_pipe, fd_inode, fd_device, filedup, nothing, closes_pipe, puts_inode,
  Closing, fileclose, Files,
}

-- What fileclose does for the last pointer to the file `p`, by its type: a pipe is closed on the
-- end that the file has, and the reference to an inode, that of a device too, is given up.
pub data IsAction (p : File) : Closing → Type 0 where
  of_pipe : p.type ≡ fd_pipe → IsAction p (closes_pipe p.pipe p.writable)
  of_inode : p.type ≡ fd_inode → IsAction p (puts_inode p.ip)
  of_device : p.type ≡ fd_device → IsAction p (puts_inode p.ip)
  of_none : p.type ≡ fd_none → IsAction p nothing

-- The table `u` is `t` but for the file `f`, which has `n` pointers and the type `ff`.
pub record IsLeft (f n : ℕ) (ff : FileType) (t u : ℕ → File) : Type 0 where
  pub counted : (u f).ref ≡ pos n
  pub typed : (u f).type ≡ ff
  pub others : (g : ℕ) → f ≢ g → u g ≡ t g

-- The calls on a file to which a pointer is held return, and fileclose acts on the pipe or the
-- inode only for the last pointer.
pub record IsServed (s : Files) (f : ℕ) : Type 0 where
  pub counted : (s.table f).ref ≡ pos (s.held f)
  pub dup_returns :
      0 < s.held f
      → (u : ℕ → File) × ((filedup f s.table ≡ some u)
          × IsLeft f (s.held f + 1) (s.table f).type s.table u)
  pub last_closes :
      s.held f ≡ 1
      → (a : Closing) × (u : ℕ → File) × ((fileclose f s.table ≡ some (a, u))
          × IsAction (s.table f) a
          × IsLeft f 0 fd_none s.table u)
  pub others_stay :
      1 < s.held f
      → (u : ℕ → File) × ((fileclose f s.table ≡ some (nothing, u))
          × IsLeft f (s.held f - 1) (s.table f).type s.table u)
