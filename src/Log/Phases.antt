-- ===== src/Log/Phases.antt =====
-- The loops of kernel/log.c, each from one phase of a commit to the next, on a disk that may lose
-- its power at any write.
use cow_pbs_cofee_cafe_icecr.Base.{
  ℕ, zero, suc, ◌+◌, ◌<◌, ◌≡◌, inl, inr, refl, sym, ◌∙◌, ap, subst, arith, true, false, ◌==◌, leb,
  ℕ_discrete,
}
use cow_pbs_cofee_cafe_icecr.Log.{
  Block, Store, bread, bwrite, Log, install_from, header, write_log_from,
}
use cow_pbs_cofee_cafe_icecr.Log.Disk.{bread-bwrite_self, bread-bwrite_other, Live, bwrite-Live}
use cow_pbs_cofee_cafe_icecr.Log.Commit.{
  Outside, IsNew, Safe, IsLogged, IsInstalled, IsLogged-write, head-write, install-write,
  clear-write,
}

pub header-count : (l : Log) (b : Block) → header l b 0 ≡ l.n
unfolding header
header-count l b = refl

pub header-place : (l : Log) (b : Block) (i : ℕ) → i < l.n → header l b (i + 1) ≡ l.block i
unfolding header
header-place l b i h = rw (positive i, within i l.n h) (ap l.block (omega arith))
  where
    positive : (i : ℕ) → (i + 1 == 0) ≡ false
    positive i = ground arith

    within : (i n : ℕ) → i < n → leb (i + 1) n ≡ true
    within i n h = ground arith

module _ (start n : ℕ) (home : ℕ → ℕ) (old new : ℕ → Block)
    (apart : (i : ℕ) → i < n → Outside start n (home i)) where
  -- What the buffers of the blocks, and those of the log up to the place `k`, hold.
  pub record IsFresh (k : ℕ) (s : Store) : Type 0 where
    pub blocks : (i : ℕ) → i < n → bread (home i) s ≡ new (home i)
    pub logs : (i : ℕ) → i < k → bread (start + i + 1) s ≡ new (home i)

  -- One block goes from the cache to the log.
  log_step-IsFresh :
      (k : ℕ) (s : Store)
      → k < n
      → IsFresh k s
      → IsFresh (k + 1) (bwrite (start + k + 1) (new (home k)) s)
  log_step-IsFresh k s h f = record {
    blocks = λ i m.
        let o = apart i m in
        bread-bwrite_other (start + k + 1) _ s (home i) (omega arith) ∙ f.blocks i m;
    logs = λ i m. elim (ℕ_discrete k i) [
      | yes e ↦
          ap (λ j. bread (start + j + 1) (bwrite (start + k + 1) (new (home k)) s)) (sym e)
          ∙ bread-bwrite_self (start + k + 1) (new (home k)) s
          ∙ ap (λ j. new (home j)) e
      | no e ↦
          bread-bwrite_other (start + k + 1) _ s (start + i + 1) (omega arith)
          ∙ f.logs i (omega arith)
    ];
  }

  -- What a phase of the commit keeps: what is on the disk, and what the buffers hold.
  pub record IsPhase (Q : (ℕ → Block) → Type 0) (k : ℕ) (s : Store) : Type 0 where
    pub live : Live (Safe start n home old new) Q s
    pub fresh : IsFresh k s

  log_step-IsPhase :
      (k : ℕ) (s : Store)
      → k < n
      → IsPhase (IsLogged start n home old new k) k s
      → IsPhase
          (IsLogged start n home old new (k + 1))
          (k + 1)
          (bwrite (start + k + 1) (new (home k)) s)
  log_step-IsPhase k s h f = record {
    live =
        bwrite-Live (Safe start n home old new) (IsLogged start n home old new k)
          (IsLogged start n home old new (k + 1)) (start + k + 1) (new (home k)) s
          (λ q. inl q.before) (IsLogged-write start n home old new k s.disk h) f.live;
    fresh = log_step-IsFresh k s h f.fresh;
  }

  -- The header, as a commit writes it.
  pub head_step-IsPhase :
      (v : Block) (s : Store)
      → v 0 ≡ n
      → ((i : ℕ) → i < n → v (i + 1) ≡ home i)
      → IsPhase (IsLogged start n home old new n) n s
      → IsPhase (IsInstalled start n home old new 0) n (bwrite start v s)
  head_step-IsPhase v s e g f = record {
    live =
        bwrite-Live (Safe start n home old new) (IsLogged start n home old new n)
          (IsInstalled start n home old new 0) start v s (λ q. inl q.before)
          (head-write start n home old new s.disk v e g) f.live;
    fresh = record {
      blocks = λ i m.
          let o = apart i m in
          bread-bwrite_other start v s (home i) (omega arith) ∙ f.fresh.blocks i m;
      logs = λ i m. bread-bwrite_other start v s (start + i + 1) (omega arith) ∙ f.fresh.logs i m;
    };
  }

  -- The blocks of the log, as the buffers hold them; all that an installation needs.
  unfoldable pub IsReadable : Store → Type 0
  IsReadable s = (i : ℕ) → i < n → bread (start + i + 1) s ≡ new (home i)

  install_step-IsReadable :
      (k : ℕ) (v : Block) (s : Store) → k < n → IsReadable s → IsReadable (bwrite (home k) v s)
  unfolding IsReadable
  install_step-IsReadable k v s h f i m =
      let o = apart k h in bread-bwrite_other (home k) v s (start + i + 1) (omega arith) ∙ f i m

  install_step-Live :
      (k : ℕ) (s : Store)
      → k < n
      → Live (Safe start n home old new) (IsInstalled start n home old new k) s
      → Live
          (Safe start n home old new)
          (IsInstalled start n home old new (k + 1))
          (bwrite (home k) (new (home k)) s)
  install_step-Live k s h f =
      bwrite-Live (Safe start n home old new) (IsInstalled start n home old new k)
        (IsInstalled start n home old new (k + 1)) (home k) (new (home k)) s
        (λ q. inr (inl q.after)) (install-write start n home old new apart k s.disk h) f

  pub clear_step-Live :
      (v : Block) (s : Store)
      → v 0 ≡ 0
      → Live (Safe start n home old new) (IsInstalled start n home old new n) s
      → Live (Safe start n home old new) (IsNew start n home old new) (bwrite start v s)
  clear_step-Live v s e f =
      bwrite-Live (Safe start n home old new) (IsInstalled start n home old new n)
        (IsNew start n home old new) start v s (λ q. inr (inl q.after))
        (clear-write start n home old new apart s.disk v e) f

  module _ (l : Log) (at_start : l.start ≡ start)
      (at_home : (i : ℕ) → i < n → l.block i ≡ home i) where
    log_write_at :
        (k j : ℕ) (s : Store)
        → j < n
        → IsFresh k s
        → bwrite (l.start + j + 1) (bread (l.block j) s) s ≡ bwrite (start + j + 1) (new (home j)) s
    log_write_at k j s h f =
        ap (λ x. bwrite (x + j + 1) (bread (l.block j) s) s) at_start
        ∙ ap (λ x. bwrite (start + j + 1) (bread x s) s) (at_home j h)
        ∙ ap (λ x. bwrite (start + j + 1) x s) (f.blocks j h)

    pub write_log_from-IsPhase :
        (k tail : ℕ) (s : Store)
        → tail + k ≡ n
        → IsPhase (IsLogged start n home old new tail) tail s
        → IsPhase (IsLogged start n home old new n) n (write_log_from k tail l s)
    unfolding write_log_from
    write_log_from-IsPhase zero tail s e h =
        let q : tail ≡ n = omega arith in
        subst (λ j. IsPhase (IsLogged start n home old new j) j s) q h
    write_log_from-IsPhase (suc k) tail s e h =
        let lt : tail < n = omega arith in
        subst (λ x. IsPhase (IsLogged start n home old new n) n (write_log_from k (tail + 1) l x))
          (sym (log_write_at tail tail s lt h.fresh))
          (write_log_from-IsPhase k (tail + 1) _ (omega arith) (log_step-IsPhase tail s lt h))

    install_at :
        (j : ℕ) (s : Store)
        → j < n
        → IsReadable s
        → bwrite (l.block j) (bread (l.start + j + 1) s) s ≡ bwrite (home j) (new (home j)) s
    unfolding IsReadable
    install_at j s h f =
        ap (λ x. bwrite x (bread (l.start + j + 1) s) s) (at_home j h)
        ∙ ap (λ x. bwrite (home j) (bread (x + j + 1) s) s) at_start
        ∙ ap (λ x. bwrite (home j) x s) (f j h)

    pub install_from-Live :
        (k tail : ℕ) (s : Store)
        → tail + k ≡ n
        → IsReadable s
        → Live (Safe start n home old new) (IsInstalled start n home old new tail) s
        → Live
            (Safe start n home old new)
            (IsInstalled start n home old new n)
            (install_from k tail l s)
    unfolding install_from
    install_from-Live zero tail s e f h =
        let q : tail ≡ n = omega arith in
        subst (λ j. Live (Safe start n home old new) (IsInstalled start n home old new j) s) q h
    install_from-Live (suc k) tail s e f h =
        let lt : tail < n = omega arith in
        subst
          (λ x.
            Live (Safe start n home old new) (IsInstalled start n home old new n)
              (install_from k (tail + 1) l x))
          (sym (install_at tail s lt f))
          (install_from-Live k (tail + 1) _ (omega arith) (install_step-IsReadable tail _ s lt f)
            (install_step-Live tail s lt h))
