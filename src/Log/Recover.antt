-- ===== src/Log/Recover.antt =====
-- The recovery of kernel/log.c after any number of power failures, also while the log is recovered:
-- a transaction comes to be on the disk as a whole or not at all.
use cow_pbs_cofee_cafe_icecr.Base.{
  ℕ, zero, suc, ◌+◌, ◌<◌, ◌≡◌, ◌⊎◌, inl, inr, refl, sym, ◌∙◌, ap, subst, arith, Bool, true, ltb,
  if◌then◌else◌, Option, none, some, List, [], ◌∷◌, update, update_self, update_other,
}
use cow_pbs_cofee_cafe_icecr.Log.{
  Block, Store, bread, Log, install_from, install_trans, write_head, read_head, emptied, erase,
  commit, recover_from_log, zeroed, initlog,
}
use cow_pbs_cofee_cafe_icecr.Log.Disk.{Live, bwrite-Live, bwrite-power}
use cow_pbs_cofee_cafe_icecr.Log.Commit.{Outside, IsOld, IsCommitted, IsNew, Safe}
use cow_pbs_cofee_cafe_icecr.Log.Phases.{
  header-count, IsReadable, clear_step-Live, install_from-Live,
}
use cow_pbs_cofee_cafe_icecr.Log.Finish.{
  Live-safe, Live-on, install_from-power, IsReady, contents, commit-Safe, commit-IsNew,
}

-- The machine starts on a disk, with no buffer and the power of `p` writes.
unfoldable pub boot : Option ℕ → (ℕ → Block) → Store
boot p d = record { disk = d; cache = λ b. none; power = p }

-- The machine starts, and its power fails after each of the numbers of writes, and then no more.
unfoldable pub recoveries : List ℕ → ℕ → ℕ → (ℕ → Block) → ℕ → Block
recoveries [] start size d = (initlog start size (boot none d)).1.disk
recoveries (p ∷ ps) start size d =
    recoveries ps start size (initlog start size (boot (some p) d)).1.disk

install_from-none : (k : ℕ) (l : Log) (s : Store) → k ≡ 0 → install_from k 0 l s ≡ s
unfolding install_from
install_from-none zero l s e = refl
install_from-none (suc k) l s e = absurd (omega arith)

below : (i n : ℕ) → i < n → ltb i n ≡ true
below i n h = ground arith

initlog-power :
    (start size : ℕ) (s : Store) → s.power ≡ none → (initlog start size s).1.power ≡ none
unfolding initlog recover_from_log erase install_trans write_head
initlog-power start size s e = bwrite-power _ _ _ (install_from-power _ 0 _ s e)

-- More disks in a phase.
Live-more :
    (S Q R : (ℕ → Block) → Type 0) (s : Store) → (Q s.disk → R s.disk) → Live S Q s → Live S R s
unfolding Live
Live-more S Q R s f (inl a) = inl a
Live-more S Q R s f (inr q) = inr (f q)

module _ (start size n : ℕ) (home : ℕ → ℕ) (old new : ℕ → Block)
    (apart : (i : ℕ) → i < n → Outside start n (home i)) where
  -- A disk with a cleared header stays so.
  clear_old :
      (d : ℕ → Block) (v : Block)
      → v 0 ≡ 0
      → IsOld start n home old new d
      → IsOld start n home old new (update d start v)
  clear_old d v e h = record {
    empty = ap (λ (b : Block). b 0) (update_self d start v) ∙ e;
    kept = λ b o. update_other d start v b (omega arith) ∙ h.kept b o;
  }

  clear_new :
      (d : ℕ → Block) (v : Block)
      → v 0 ≡ 0
      → IsNew start n home old new d
      → IsNew start n home old new (update d start v)
  clear_new d v e h = record {
    empty = ap (λ (b : Block). b 0) (update_self d start v) ∙ e;
    written =
        λ i m. let o = apart i m in update_other d start v (home i) (omega arith) ∙ h.written i m;
    others = λ b o m. update_other d start v b (omega arith) ∙ h.others b o m;
  }

  module _ (p : Option ℕ) (d : ℕ → Block) where
    -- What initlog does if the header on the disk is clear.
    recover_clear-Live :
        (S Q : (ℕ → Block) → Type 0)
        → d start 0 ≡ 0
        → (Q d → S d)
        → ((v : Block) → v 0 ≡ 0 → Q d → Q (update d start v))
        → Q d
        → Live S Q (initlog start size (boot p d)).1
    unfolding Live initlog zeroed recover_from_log erase install_trans write_head read_head bread
        boot emptied
    recover_clear-Live S Q e f g q =
        let r = read_head (zeroed start size) (boot p d) in
        subst (λ s. Live S Q (write_head (emptied r) s))
          (sym (install_from-none (d start 0) r (boot p d) e))
          (bwrite-Live S Q Q start _ (boot p d) f (g _ (header-count (emptied r) _)) (inr q))

    recover_committed-Live :
        IsCommitted start n home old new d
        → Live
            (Safe start n home old new)
            (IsNew start n home old new)
            (initlog start size (boot p d)).1
    unfolding Live initlog zeroed recover_from_log erase install_trans write_head read_head bread
        boot emptied IsReadable
    recover_committed-Live c =
        let r = read_head (zeroed start size) (boot p d) in
        let read_place : (i : ℕ) → i < n → r.block i ≡ home i = λ i m.
          ap (λ (t : Bool). if t then d start (i + 1) else 0) (below i (d start 0) (omega arith))
          ∙ c.places i m in
        clear_step-Live start n home old new apart _ _ (header-count (emptied r) _) (
          install_from-Live start n home old new apart r refl read_place (d start 0) 0 (boot p d)
            (omega arith) c.logs
            (inr (record { after = c; installed = λ i m. absurd (omega arith) })))

    recover-Live :
        Safe start n home old new d
        → Live
            (Safe start n home old new)
            (λ x. IsOld start n home old new x ⊎ IsNew start n home old new x)
            (initlog start size (boot p d)).1
    recover-Live (inl q) =
        Live-more _ _ _ _ inl
          (recover_clear-Live _ (IsOld start n home old new) q.empty inl (clear_old d) q)
    recover-Live (inr (inl q)) = Live-more _ _ _ _ inr (recover_committed-Live q)
    recover-Live (inr (inr q)) = Live-more _ _ _ _ inr (
        recover_clear-Live _ (IsNew start n home old new) q.empty (λ x. inr (inr x)) (clear_new d)
          q)

  whole-Safe :
      {d : ℕ → Block}
      → IsOld start n home old new d ⊎ IsNew start n home old new d
      → Safe start n home old new d
  whole-Safe (inl q) = inl q
  whole-Safe (inr q) = inr (inr q)

  pub recoveries_whole :
      (ps : List ℕ) (d : ℕ → Block)
      → Safe start n home old new d
      → IsOld start n home old new (recoveries ps start size d)
        ⊎ IsNew start n home old new (recoveries ps start size d)
  unfolding recoveries boot
  recoveries_whole [] d h = Live-on _ _ _ (initlog-power start size _ refl) (recover-Live none d h)
  recoveries_whole (p ∷ ps) d h =
      recoveries_whole ps _ (Live-safe _ _ _ whole-Safe (recover-Live (some p) d h))

  pub recoveries-IsNew :
      (ps : List ℕ) (d : ℕ → Block)
      → IsNew start n home old new d
      → IsNew start n home old new (recoveries ps start size d)
  unfolding recoveries boot
  recoveries-IsNew [] d h =
      Live-on (IsNew start n home old new) _ _ (initlog-power start size _ refl)
        (recover_clear-Live none d _ (IsNew start n home old new) h.empty (λ x. x) (clear_new d) h)
  recoveries-IsNew (p ∷ ps) d h = recoveries-IsNew ps _ (
      Live-safe (IsNew start n home old new) _ _ (λ x. x)
        (recover_clear-Live (some p) d _ (IsNew start n home old new) h.empty (λ x. x) (clear_new d)
          h))

-- A transaction is atomic: the power may fail before any write of a commit, and again before any
-- write of each of the recoveries that follow. Then, behind a recovery that is not cut off, the
-- header of the log is clear, and either every block outside the log is as it was before the
-- commit, or every block of the transaction has the contents of its buffer and the other blocks are
-- as they were. The condition is that the header is clear before the commit, and that the blocks of
-- the transaction lie outside the log.
pub commit_atomic :
    (l : Log) (s : Store) (ps : List ℕ)
    → IsReady l s
    → let d = recoveries ps l.start l.size (commit l s).1.disk in
      IsOld l.start l.n l.block s.disk (contents s) d
      ⊎ IsNew l.start l.n l.block s.disk (contents s) d
commit_atomic l s ps h =
    recoveries_whole l.start l.size l.n l.block s.disk (contents s) h.apart ps _ (commit-Safe l s h)

-- A transaction is durable: if the power does not fail during a commit, every block of the
-- transaction has the contents of its buffer after any recoveries that follow, which may be cut
-- off, and the others are as they were, under the same condition.
pub commit_durable :
    (l : Log) (s : Store) (ps : List ℕ)
    → IsReady l s
    → s.power ≡ none
    → IsNew l.start l.n l.block s.disk
        (contents s)
        (recoveries ps l.start l.size (commit l s).1.disk)
commit_durable l s ps h e =
    recoveries-IsNew l.start l.size l.n l.block s.disk (contents s) h.apart ps _
      (commit-IsNew l s h e)
