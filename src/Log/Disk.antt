-- ===== src/Log/Disk.antt =====
-- bread and bwrite on a disk that may lose its power, for kernel/log.c.
use cow_pbs_cofee_cafe_icecr.Base.{
  ℕ, zero, suc, ◌≡◌, ◌≢◌, ◌⊎◌, inl, inr, refl, ◌∙◌, ap, Option, none, some, update, update_self,
  update_other,
}
use cow_pbs_cofee_cafe_icecr.Log.{Block, Store, buffer_or, bread, disk_write, less_power, bwrite}

pub bread-bwrite_self : (b : ℕ) (v : Block) (s : Store) → bread b (bwrite b v s) ≡ v
unfolding bread bwrite
bread-bwrite_self b v s =
    ap (λ o. buffer_or o (disk_write s.power b v s.disk b)) (update_self s.cache b (some v))

disk_write-other :
    (p : Option ℕ) (b : ℕ) (v : Block) (d : ℕ → Block) (c : ℕ) → b ≢ c → disk_write p b v d c ≡ d c
unfolding disk_write
disk_write-other none b v d c n = update_other d b v c n
disk_write-other (some zero) b v d c n = refl
disk_write-other (some (suc p)) b v d c n = update_other d b v c n

pub bread-bwrite_other :
    (b : ℕ) (v : Block) (s : Store) (c : ℕ) → b ≢ c → bread c (bwrite b v s) ≡ bread c s
unfolding bread bwrite
bread-bwrite_other b v s c n =
    ap (λ o. buffer_or o (disk_write s.power b v s.disk c)) (update_other s.cache b (some v) c n)
    ∙ ap (buffer_or (s.cache c)) (disk_write-other s.power b v s.disk c n)

-- The disk has lost its power in a state where `Safe` held; or `Q` holds of it.
unfoldable pub Live : ((ℕ → Block) → Type 0) → ((ℕ → Block) → Type 0) → Store → Type 0
Live Safe Q s = ((s.power ≡ some 0) × Safe s.disk) ⊎ Q s.disk

-- A write takes a disk with `Q`, which is safe, to one with `Q'`, or the power is gone before it.
pub bwrite-Live :
    (Safe Q Q' : (ℕ → Block) → Type 0) (b : ℕ) (v : Block) (s : Store)
    → (Q s.disk → Safe s.disk)
    → (Q s.disk → Q' (update s.disk b v))
    → Live Safe Q s
    → Live Safe Q' (bwrite b v s)
unfolding Live bwrite disk_write
bwrite-Live Safe Q Q' b v s f g l = go s.power f g l
  where
    go :
        (p : Option ℕ)
        → (Q s.disk → Safe s.disk)
        → (Q s.disk → Q' (update s.disk b v))
        → ((p ≡ some 0) × Safe s.disk) ⊎ Q s.disk
        → ((less_power p ≡ some 0) × Safe (disk_write p b v s.disk)) ⊎ Q' (disk_write p b v s.disk)
    go none f g (inl (e, h)) = absurd (cc e)
    go none f g (inr q) = inr (g q)
    go (some zero) f g (inl (e, h)) = inl (refl, h)
    go (some zero) f g (inr q) = inl (refl, f q)
    go (some (suc p)) f g (inl (e, h)) = absurd (cc e)
    go (some (suc p)) f g (inr q) = inr (g q)

-- A disk whose power does not fail keeps it.
pub bwrite-power : (b : ℕ) (v : Block) (s : Store) → s.power ≡ none → (bwrite b v s).power ≡ none
unfolding bwrite
bwrite-power b v s e = rw e
