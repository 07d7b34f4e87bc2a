-- ===== src/Mem/Cow/NewPage.antt =====
-- `allocate_new_memory` of kernel/trap.c: the copy of a page, and what becomes of the old one.
use cow_pbs_cofee_cafe_icecr.Base.{
  ℕ, zero, suc, ◌+◌, ◌*◌, ◌/◌, ◌%◌, ◌^◌, ◌≤◌, ◌<◌, ◌≡◌, ◌≢◌, inl, inr, sym, ap, ◌∙◌, arith, List,
  ◌∷◌, ◌==◌, Bool-cases, ℕ_discrete, ==_iff, ret,
}
use cow_pbs_cofee_cafe_icecr.Mem.Pages.{Mem, memmove_page}
use cow_pbs_cofee_cafe_icecr.Mem.Kalloc.{kalloc, kfree}
use cow_pbs_cofee_cafe_icecr.Mem.Kalloc.Heap.{IsHeap, IsPage, AgreeOff, Chain-frame, counted-Absent}
use cow_pbs_cofee_cafe_icecr.Mem.Kalloc.Alloc.{IsAllocated, kalloc-IsAllocated}
use cow_pbs_cofee_cafe_icecr.Mem.Kalloc.Free.{IsReleased, kfree-IsReleased}
use cow_pbs_cofee_cafe_icecr.Mem.Cow.{copy_into, allocate_new_memory}

-- The words of the page `x` after are those of the page `pa` before.
abbrev pub IsCopy : ℕ → ℕ → (ℕ → ℕ) → (ℕ → ℕ) → Type 0
IsCopy pa x w w' = (k : ℕ) → k < 512 → w' (x / 4096 * 512 + k) ≡ w (pa / 4096 * 512 + k)

-- The new page `x` holds a copy of the page `pa`, which has lost one reference.
pub record IsCopied (kend pa x : ℕ) (xs : List ℕ) (m u : Mem) : Type 0 where
  pub copy : IsCopy pa x m.word u.word
  pub counted : u.refs (x / 4096) ≡ 1
  pub other_counts : (k : ℕ) → k ≢ x / 4096 → k ≢ pa / 4096 → u.refs k ≡ m.refs k
  pub shared :
      2 ≤ m.refs (pa / 4096)
      → (u.refs (pa / 4096) + 1 ≡ m.refs (pa / 4096)) × AgreeOff x m.word u.word × IsHeap kend u xs
  pub last : m.refs (pa / 4096) ≡ 1 → (u.refs (pa / 4096) ≡ 0) × IsHeap kend u (pa ∷ xs)
  pub other_words : (k : ℕ) → k / 512 ≢ x / 4096 → k / 512 ≢ pa / 4096 → u.word k ≡ m.word k

memmove_page-off : (y src : ℕ) (w : ℕ → ℕ) → AgreeOff y w (memmove_page y src w)
memmove_page-off y src w i n = elim (Bool-cases (i / 512 == y / 4096)) [
  | inl e ↦ absurd (n ((==_iff _ _).0 e))
  | inr e ↦ rw e
]

memmove_page-in :
    (y src : ℕ) (w : ℕ → ℕ) (k : ℕ)
    → k < 512
    → memmove_page y src w (y / 4096 * 512 + k) ≡ w (src / 4096 * 512 + k)
memmove_page-in y src w k h =
    let here : (y / 4096 * 512 + k) / 512 ≡ y / 4096 = omega arith in
    let off : (y / 4096 * 512 + k) % 512 ≡ k = omega arith in rw ((==_iff _ _).1 here, off)

pub copy_into-ret :
    (kend pa x : ℕ) (r : ℕ × Mem) (u : Mem)
    → r.0 ≡ x
    → 0 < x
    → kfree kend pa (record r.1 { word = memmove_page x pa r.1.word }) ≡ ret u
    → copy_into kend pa r ≡ ret (x, u)
unfolding copy_into
copy_into-ret kend pa x (zero, m) u e nz k = absurd (omega arith)
copy_into-ret kend pa x (suc p, m) u e nz k =
    let k' : kfree kend pa (record m { word = memmove_page (suc p) pa m.word }) ≡ ret u = rw e k in
    rw k' (ap (λ (y : ℕ). ret (y, u)) e)

module _ (kend pa x : ℕ) (xs : List ℕ) (m : Mem) (h : IsHeap kend m (x ∷ xs)) (p : IsPage kend pa)
    (small : m.refs (pa / 4096) < 2 ^ 32) (used : 0 < m.refs (pa / 4096)) where
  m₁ : Mem
  m₁ = (kalloc m).1

  m₂ : Mem
  m₂ = record m₁ { word = memmove_page x pa m₁.word }

  alloc : IsAllocated kend x xs m (kalloc m)
  alloc = kalloc-IsAllocated kend x xs m h

  apart : x / 4096 ≢ pa / 4096
  apart e = omega (arith, h.all_free.1, ap m.refs e)

  heap₂ : IsHeap kend m₂ xs
  unfolding m₁ m₂
  heap₂ = record {
    chain =
        Chain-frame kend x m₁.word m₂.word m₁.freelist m₁.refs xs (memmove_page-off x pa m₁.word)
          h.all_free.0
          (counted-Absent kend x m₁.refs xs (omega (arith, alloc.counted)) alloc.rest.all_free)
          alloc.rest.all_free alloc.rest.chain;
    all_free = alloc.rest.all_free;
    distinct = alloc.rest.distinct;
  }

  count₂ : m₂.refs (pa / 4096) ≡ m.refs (pa / 4096)
  unfolding m₁ m₂
  count₂ = alloc.other_counts (pa / 4096) apart

  words₂ : (k : ℕ) → k / 512 ≢ x / 4096 → m₂.word k ≡ m.word k
  unfolding m₁ m₂
  words₂ k n = memmove_page-off x pa m₁.word k n ∙ alloc.unchanged k n

  copy₂ : IsCopy pa x m.word m₂.word
  unfolding m₁ m₂
  copy₂ k l =
      memmove_page-in x pa m₁.word k l
      ∙ alloc.unchanged (pa / 4096 * 512 + k) (λ e. apart (omega arith))

  free₂ : (u : Mem) × (kfree kend pa m₂ ≡ ret u) × IsReleased kend pa xs m₂ u
  free₂ = kfree-IsReleased kend pa m₂ xs heap₂ p (omega (arith, count₂)) (omega (arith, count₂))

  -- The words outside the page `pa` are those of before `kfree`.
  words₃ :
      (u : Mem) → IsReleased kend pa xs m₂ u → (k : ℕ) → k / 512 ≢ pa / 4096 → u.word k ≡ m₂.word k
  words₃ u r k n = elim (ℕ_discrete (m₂.refs (pa / 4096)) 1) [
    | yes e ↦ (r.last e).1 k n
    | no ne ↦ ap (λ (w : ℕ → ℕ). w k) (r.shared (omega (arith, count₂))).1
  ]

  copied : (u : Mem) → IsReleased kend pa xs m₂ u → IsCopied kend pa x xs m u
  unfolding m₁ m₂
  copied u r = record {
    copy = λ k l. words₃ u r (x / 4096 * 512 + k) (λ e. apart (omega arith)) ∙ copy₂ k l;
    counted = r.other_counts (x / 4096) (λ e. apart (sym e)) ∙ alloc.counted;
    other_counts =
        λ k n n'. r.other_counts k (λ e. n' (sym e)) ∙ alloc.other_counts k (λ e. n (sym e));
    shared = λ two.
        let s = r.shared (omega (arith, count₂)) in
        (omega (arith, s.0, count₂), (λ k n. ap (λ (w : ℕ → ℕ). w k) s.1 ∙ words₂ k n), s.2);
    last = λ one. let l = r.last (count₂ ∙ one) in (l.0, l.2);
    other_words = λ k n n'. words₃ u r k n' ∙ words₂ k n;
  }

  -- The page is copied into the first free page.
  pub allocate_new_memory-IsCopied :
      (u : Mem) × (allocate_new_memory kend pa m ≡ ret (x, u)) × IsCopied kend pa x xs m u
  unfolding allocate_new_memory m₁ m₂
  allocate_new_memory-IsCopied =
      let (u, e, r) = free₂ in
      (u, copy_into-ret kend pa x (kalloc m) u alloc.address h.all_free.0.3 e, copied u r)
