-- ===== src/Mem/Cow/Fault.antt =====
-- Write faults, by `write_trap` of kernel/trap.c.
use cow_pbs_cofee_cafe_icecr.Base.{
  ℕ, zero, suc, ◌+◌, ◌*◌, ◌/◌, ◌^◌, ◌≤◌, ◌<◌, ◌≡◌, ◌≢◌, refl, sym, subst, ap, test_bit, ◌∙◌, arith,
  List, ◌∷◌, true, false, some, update, update_self, update_other, ret, pos,
}
use cow_pbs_cofee_cafe_icecr.Mem.Pages.{Mem, pg_round_down}
use cow_pbs_cofee_cafe_icecr.Mem.Kalloc.Heap.{IsHeap, IsPage, Chain-update}
use cow_pbs_cofee_cafe_icecr.Mem.Pte.{cw_bit, pte2pa, maxva}
use cow_pbs_cofee_cafe_icecr.Mem.Pte.Flags.{
  private_entry, IsUnshared, private_entry-IsUnshared, check_if_cow_flag-bit,
}
use cow_pbs_cofee_cafe_icecr.Mem.Walk.Lookup.{walk-lookup}
use cow_pbs_cofee_cafe_icecr.Mem.Walk.Path.{IsPath, path-lookup}
use cow_pbs_cofee_cafe_icecr.Mem.Cow.NewPage.{IsCopy, IsCopied, allocate_new_memory-IsCopied}
use cow_pbs_cofee_cafe_icecr.Mem.Cow.{
  check_valid_add, allocate_new_memory, install, resolve, write_trap,
}

-- Where the fault is: the entry of index `i` of the page of `add`, its value and its page.
pub record IsFault (kend add pg i : ℕ) (m : Mem) : Type 0 where
  pub positive : 0 < add
  pub in_space : add < maxva
  pub entry : IsPath pg (pg_round_down add) i m
  pub cow : test_bit (m.word i) cw_bit ≡ true
  pub page : IsPage kend (pte2pa (m.word i))
  pub small : m.refs (pte2pa (m.word i) / 4096) < 2 ^ 32
  pub table : 0 < m.refs (i / 512)
  pub apart : i / 512 ≢ pte2pa (m.word i) / 4096
  pub counted : 0 < m.refs (pte2pa (m.word i) / 4096)

-- The faulting page is private: its entry points to a writable copy in the page `x`.
pub record IsPrivate (kend x i : ℕ) (xs : List ℕ) (m u : Mem) : Type 0 where
  pub entry : IsUnshared x (m.word i) (u.word i)
  pub copy : IsCopy (pte2pa (m.word i)) x m.word u.word
  pub counted : u.refs (x / 4096) ≡ 1
  pub other_counts : (j : ℕ) → x / 4096 ≢ j → pte2pa (m.word i) / 4096 ≢ j → u.refs j ≡ m.refs j
  pub shared :
      2 ≤ m.refs (pte2pa (m.word i) / 4096)
      → (u.refs (pte2pa (m.word i) / 4096) + 1 ≡ m.refs (pte2pa (m.word i) / 4096))
        × IsHeap kend u xs
        × ((k : ℕ) → k ≢ i → k / 512 ≢ x / 4096 → u.word k ≡ m.word k)
  pub last :
      m.refs (pte2pa (m.word i) / 4096) ≡ 1
      → (u.refs (pte2pa (m.word i) / 4096) ≡ 0) × IsHeap kend u (pte2pa (m.word i) ∷ xs)
  pub other_words :
      (k : ℕ)
      → k ≢ i
      → k / 512 ≢ x / 4096
      → k / 512 ≢ pte2pa (m.word i) / 4096
      → u.word k ≡ m.word k

pub install-ret :
    (i pte x : ℕ) (m : Mem)
    → 0 < x
    → install i pte (x, m) ≡ ret (pos 0, record m { word = update m.word i (private_entry x pte) })
unfolding install
install-ret i pte zero m nz = absurd (omega arith)
install-ret i pte (suc p) m nz = refl

pub valid_add : (add : ℕ) → 0 < add → add < maxva → check_valid_add add ≡ false
unfolding check_valid_add
valid_add add nz h = ground arith

module _ (kend add pg i x : ℕ) (xs : List ℕ) (m : Mem) (h : IsHeap kend m (x ∷ xs))
    (f : IsFault kend add pg i m) where
  abbrev pa : ℕ
  pa = pte2pa (m.word i)

  new : (u : Mem) × (allocate_new_memory kend pa m ≡ ret (x, u)) × IsCopied kend pa x xs m u
  new = allocate_new_memory-IsCopied kend pa x xs m h f.page f.small f.counted

  installed : Mem
  installed = record new.0 { word = update new.0.word i (private_entry x (m.word i)) }

  resolved : resolve kend (some i, m) ≡ ret (pos 0, installed)
  unfolding resolve installed
  resolved =
      rw (check_if_cow_flag-bit (m.word i) ∙ f.cow, new.1)
        (install-ret i (m.word i) x new.0 h.all_free.0.3)

  returned : write_trap kend add pg m ≡ ret (pos 0, installed)
  unfolding write_trap
  returned =
      rw
        (
          valid_add add f.positive f.in_space,
          (walk-lookup pg (pg_round_down add) m).0 (omega (arith, f.in_space)),
          path-lookup pg (pg_round_down add) i m f.entry,
        )
        resolved

  -- The table does not lie in the new page.
  table_apart : i / 512 ≢ x / 4096
  table_apart e = omega (arith, h.all_free.1, ap m.refs e, f.table)

  private : IsPrivate kend x i xs m installed
  unfolding installed
  private = record {
    entry =
        subst (IsUnshared x (m.word i))
          (sym (update_self new.0.word i (private_entry x (m.word i))))
          (private_entry-IsUnshared x (m.word i) h.all_free.0.0 (omega (arith, h.all_free.0)));
    copy = λ k l.
        update_other new.0.word i _ (x / 4096 * 512 + k) (λ e. table_apart (omega arith))
        ∙ c.copy k l;
    counted = c.counted;
    other_counts = λ j n o. c.other_counts j (λ q. n (sym q)) (λ q. o (sym q));
    shared = λ two.
        let s = c.shared two in
        (s.0, still xs s.2, λ k n o. update_other new.0.word i _ k (λ e. n (sym e)) ∙ s.1 k o);
    last = λ one. let l = c.last one in (l.0, still (pa ∷ xs) l.1);
    other_words = λ k n o o'. update_other new.0.word i _ k (λ e. n (sym e)) ∙ c.other_words k o o';
  }
    where
      c : IsCopied kend pa x xs m new.0
      c = new.2

      -- The write into the table leaves the free pages.
      still : (free : List ℕ) → IsHeap kend new.0 free → IsHeap kend installed free
      still free g = record {
        chain =
            Chain-update kend i _ new.0.word new.0.freelist new.0.refs free
              (omega (arith, c.other_counts (i / 512) table_apart f.apart, f.table)) g.all_free
              g.chain;
        all_free = g.all_free;
        distinct = g.distinct;
      }

  -- A write to a copy-on-write page, with a free page at hand, makes `write_trap` return 0 with a
  -- private page: the first free page is filled with the old contents and gets one reference, the
  -- entry of the table points to it with W set, CW cleared and the other flags kept, and the old
  -- page loses one reference; the counts of all other pages are as before. If others share the old
  -- page, no word outside the new page but that entry changes; if it was the last reference, the
  -- old page becomes free, and no word outside both pages but that entry changes.
  pub write_trap-IsPrivate :
      (u : Mem) × (write_trap kend add pg m ≡ ret (pos 0, u)) × IsPrivate kend x i xs m u
  write_trap-IsPrivate = (installed, returned, private)
