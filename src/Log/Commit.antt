-- ===== src/Log/Commit.antt =====
-- The phases of a commit of kernel/log.c on the disk: the log is written, then the header, then the
-- blocks themselves, and the header is cleared.
use cow_pbs_cofee_cafe_icecr.Base.{
  ℕ, ◌+◌, ◌<◌, ◌≡◌, ◌≢◌, ◌⊎◌, sym, ◌∙◌, ap, arith, ℕ_discrete, update, update_self, update_other,
}
use cow_pbs_cofee_cafe_icecr.Log.{Block}

-- A block outside the header and the `n` blocks of the log.
abbrev pub Outside : ℕ → ℕ → ℕ → Type 0
Outside start n b = (b < start) ⊎ (start + n < b)

abbrev pub Logged : ℕ → (ℕ → ℕ) → ℕ → Type 0
Logged n home b = (i : ℕ) × (i < n) × (home i ≡ b)

earlier : (home : ℕ → ℕ) (k i : ℕ) → home k ≢ home i → i < k + 1 → i < k
earlier home k i e m = elim (ℕ_discrete k i) [ yes q ↦ absurd (e (ap home q)) | no q ↦ omega arith ]

module _ (start n : ℕ) (home : ℕ → ℕ) (old new : ℕ → Block) where
  -- The disk before the header is written.
  pub record IsOld (d : ℕ → Block) : Type 0 where
    pub empty : d start 0 ≡ 0
    pub kept : (b : ℕ) → Outside start n b → d b ≡ old b

  -- The header is on the disk, and so are the new contents, in the log.
  pub record IsCommitted (d : ℕ → Block) : Type 0 where
    pub count : d start 0 ≡ n
    pub places : (i : ℕ) → i < n → d start (i + 1) ≡ home i
    pub logs : (i : ℕ) → i < n → d (start + i + 1) ≡ new (home i)
    pub others : (b : ℕ) → Outside start n b → ¬ Logged n home b → d b ≡ old b

  -- The new contents are in their places, and the header is cleared.
  pub record IsNew (d : ℕ → Block) : Type 0 where
    pub empty : d start 0 ≡ 0
    pub written : (i : ℕ) → i < n → d (home i) ≡ new (home i)
    pub others : (b : ℕ) → Outside start n b → ¬ Logged n home b → d b ≡ old b

  abbrev pub Safe : (ℕ → Block) → Type 0
  Safe d = IsOld d ⊎ IsCommitted d ⊎ IsNew d

  -- The log is written up to the place `k`; the blocks are.
  pub record IsLogged (k : ℕ) (d : ℕ → Block) : Type 0 where
    pub before : IsOld d
    pub logs : (i : ℕ) → i < k → d (start + i + 1) ≡ new (home i)

  pub record IsInstalled (k : ℕ) (d : ℕ → Block) : Type 0 where
    pub after : IsCommitted d
    pub installed : (i : ℕ) → i < k → d (home i) ≡ new (home i)

  pub IsLogged-write :
      (k : ℕ) (d : ℕ → Block)
      → k < n
      → IsLogged k d
      → IsLogged (k + 1) (update d (start + k + 1) (new (home k)))
  IsLogged-write k d l h = record {
    before = record {
      empty =
          ap (λ (b : Block). b 0) (update_other d (start + k + 1) _ start (omega arith))
          ∙ h.before.empty;
      kept = λ b o. update_other d (start + k + 1) _ b (omega arith) ∙ h.before.kept b o;
    };
    logs = λ i m. elim (ℕ_discrete k i) [
      | yes e ↦
          ap (λ j. update d (start + k + 1) (new (home k)) (start + j + 1)) (sym e)
          ∙ update_self d (start + k + 1) (new (home k))
          ∙ ap (λ j. new (home j)) e
      | no e ↦
          update_other d (start + k + 1) _ (start + i + 1) (omega arith) ∙ h.logs i (omega arith)
    ];
  }

  -- The write of the header commits.
  pub head-write :
      (d : ℕ → Block) (v : Block)
      → v 0 ≡ n
      → ((i : ℕ) → i < n → v (i + 1) ≡ home i)
      → IsLogged n d
      → IsInstalled 0 (update d start v)
  head-write d v e f h = record {
    after = record {
      count = ap (λ (b : Block). b 0) (update_self d start v) ∙ e;
      places = λ i m. ap (λ (b : Block). b (i + 1)) (update_self d start v) ∙ f i m;
      logs = λ i m. update_other d start v (start + i + 1) (omega arith) ∙ h.logs i m;
      others = λ b o m. update_other d start v b (omega arith) ∙ h.before.kept b o;
    };
    installed = λ i m. absurd (omega arith);
  }

  module _ (apart : (i : ℕ) → i < n → Outside start n (home i)) where
    -- A block goes to its place.
    pub install-write :
        (k : ℕ) (d : ℕ → Block)
        → k < n
        → IsInstalled k d
        → IsInstalled (k + 1) (update d (home k) (new (home k)))
    install-write k d l h =
        let o = apart k l in
        let head : update d (home k) (new (home k)) start ≡ d start =
          update_other d (home k) _ start (omega arith) in
        record {
          after = record {
            count = ap (λ (b : Block). b 0) head ∙ h.after.count;
            places = λ i m. ap (λ (b : Block). b (i + 1)) head ∙ h.after.places i m;
            logs =
                λ i m. update_other d (home k) _ (start + i + 1) (omega arith) ∙ h.after.logs i m;
            others = λ b q m. update_other d (home k) _ b (λ e. m (k, l, e)) ∙ h.after.others b q m;
          };
          installed = λ i m. elim (ℕ_discrete (home k) (home i)) [
            | yes e ↦
                ap (update d (home k) (new (home k))) (sym e)
                ∙ update_self d (home k) (new (home k))
                ∙ ap new e
            | no e ↦ update_other d (home k) _ (home i) e ∙ h.installed i (earlier home k i e m)
          ];
        }

    -- The header is cleared.
    pub clear-write :
        (d : ℕ → Block) (v : Block) → v 0 ≡ 0 → IsInstalled n d → IsNew (update d start v)
    clear-write d v e h = record {
      empty = ap (λ (b : Block). b 0) (update_self d start v) ∙ e;
      written = λ i m.
          let o = apart i m in update_other d start v (home i) (omega arith) ∙ h.installed i m;
      others = λ b o m. update_other d start v b (omega arith) ∙ h.after.others b o m;
    }
