-- ===== src/Log/Finish.antt =====
-- What a commit of kernel/log.c leaves on the disk, if the power fails during it and if it does
-- not.
use cow_pbs_cofee_cafe_icecr.Base.{
  ℕ, zero, suc, ◌+◌, ◌<◌, ◌≡◌, inl, inr, refl, arith, ◌==◌, if_keeps, none,
}
use cow_pbs_cofee_cafe_icecr.Log.{
  Block, Store, bread, Log, install_from, install_trans, write_head, write_log_from, write_log,
  emptied, erase, commit,
}
use cow_pbs_cofee_cafe_icecr.Log.Disk.{Live, bwrite-power}
use cow_pbs_cofee_cafe_icecr.Log.Commit.{Outside, IsOld, IsNew, Safe, IsLogged}
use cow_pbs_cofee_cafe_icecr.Log.Phases.{
  header-count, header-place, IsPhase, head_step-IsPhase, IsReadable, clear_step-Live,
  write_log_from-IsPhase, install_from-Live,
}

pub Live-safe :
    (S Q : (ℕ → Block) → Type 0) (s : Store) → (Q s.disk → S s.disk) → Live S Q s → S s.disk
unfolding Live
Live-safe S Q s f (inl (e, h)) = h
Live-safe S Q s f (inr q) = f q

pub Live-on : (S Q : (ℕ → Block) → Type 0) (s : Store) → s.power ≡ none → Live S Q s → Q s.disk
unfolding Live
Live-on S Q s e (inl (f, h)) = absurd (cc (e, f))
Live-on S Q s e (inr q) = q

pub install_from-power :
    (k tail : ℕ) (l : Log) (s : Store) → s.power ≡ none → (install_from k tail l s).power ≡ none
unfolding install_from
install_from-power zero tail l s e = e
install_from-power (suc k) tail l s e = install_from-power k (tail + 1) l _ (bwrite-power _ _ s e)

write_log_from-power :
    (k tail : ℕ) (l : Log) (s : Store) → s.power ≡ none → (write_log_from k tail l s).power ≡ none
unfolding write_log_from
write_log_from-power zero tail l s e = e
write_log_from-power (suc k) tail l s e =
    write_log_from-power k (tail + 1) l _ (bwrite-power _ _ s e)

-- The disk has an empty log, and the blocks of the transaction lie outside the log.
pub record IsReady (l : Log) (s : Store) : Type 0 where
  pub clear : s.disk l.start 0 ≡ 0
  pub apart : (i : ℕ) → i < l.n → Outside l.start l.n (l.block i)

-- The new contents of a block are those of its buffer.
abbrev pub contents : Store → ℕ → Block
contents s b = bread b s

module _ (l : Log) (s : Store) (h : IsReady l s) where
  ready-IsPhase :
      IsPhase l.start l.n l.block s.disk
        (contents s)
        h.apart
        (IsLogged l.start l.n l.block s.disk (contents s) 0)
        0
        s
  unfolding Live
  ready-IsPhase = record {
    live = inr (record {
      before = record { empty = h.clear; kept = λ b o. refl };
      logs = λ i m. absurd (omega arith);
    });
    fresh = record { blocks = λ i m. refl; logs = λ i m. absurd (omega arith) };
  }

  -- The disk after a commit that has something to write.
  full_commit-Live :
      Live
        (Safe l.start l.n l.block s.disk (contents s))
        (IsNew l.start l.n l.block s.disk (contents s))
        (erase l (install_trans l (write_head l (write_log l s)))).1
  unfolding erase install_trans write_head write_log IsReadable emptied
  full_commit-Live =
      let a =
        write_log_from-IsPhase l.start l.n l.block s.disk (contents s) h.apart l refl (λ i m. refl)
          l.n 0 s (omega arith) ready-IsPhase in
      let b =
        head_step-IsPhase l.start l.n l.block s.disk (contents s) h.apart _ _ (header-count l _)
          (header-place l _) a in
      clear_step-Live l.start l.n l.block s.disk (contents s) h.apart _ _
        (header-count (emptied l) _)
        (install_from-Live l.start l.n l.block s.disk (contents s) h.apart l refl (λ i m. refl) l.n
          0 _ (omega arith) b.fresh.logs b.live)

  -- What holds of the disk if there is nothing to write, and of the disk behind a commit, holds
  -- after it.
  commit_cases :
      (P : Log × Store → Type 0)
      → (l.n ≡ 0 → P (l, s))
      → P (erase l (install_trans l (write_head l (write_log l s))))
      → P (commit l s)
  unfolding commit
  commit_cases P f g = if_keeps P (l.n == 0) _ _ (λ e. f (ground arith)) (λ e. g)

  unwritten-IsOld : IsOld l.start l.n l.block s.disk (contents s) s.disk
  unwritten-IsOld = record { empty = h.clear; kept = λ b o. refl }

  pub commit-IsNew :
      s.power ≡ none → IsNew l.start l.n l.block s.disk (contents s) (commit l s).1.disk
  unfolding erase install_trans write_head write_log
  commit-IsNew e =
      commit_cases (λ r. IsNew l.start l.n l.block s.disk (contents s) r.1.disk)
        (λ z. record {
          empty = h.clear;
          written = λ i m. absurd (omega arith);
          others = λ b o m. refl;
        })
        (Live-on (Safe l.start l.n l.block s.disk (contents s)) _ _
          (bwrite-power _ _ _
            (install_from-power l.n 0 l _ (bwrite-power _ _ _ (write_log_from-power l.n 0 l s e))))
          full_commit-Live)

  -- At no point of a commit is the disk unsafe.
  pub commit-Safe : Safe l.start l.n l.block s.disk (contents s) (commit l s).1.disk
  commit-Safe =
      commit_cases (λ r. Safe l.start l.n l.block s.disk (contents s) r.1.disk)
        (λ e. inl unwritten-IsOld) (Live-safe _ _ _ (λ q. inr (inr q)) full_commit-Live)
