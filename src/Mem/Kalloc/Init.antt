-- ===== src/Mem/Kalloc/Init.antt =====
-- `kinit` and `freerange` of kernel/kalloc.c build the list of free pages.
use cow_pbs_cofee_cafe_icecr.Base.{
  ℕ, zero, suc, ◌+◌, ◌*◌, ◌/◌, ◌%◌, ◌≤◌, ◌<◌, ◌≡◌, ◌⊎◌, inl, inr, refl, ◌∙◌, arith, List, [], ◌∷◌,
  update, update_self, update_other, update-keeps, ℕ_discrete,
}
use cow_pbs_cofee_cafe_icecr.Mem.Pages.{Mem, memset_page, phystop, pg_round_up}
use cow_pbs_cofee_cafe_icecr.Mem.Kalloc.{
  push, junk_and_push, free_pages, initialize_no_of_ref_array, rounds, freerange, kinit, page_of,
}
use cow_pbs_cofee_cafe_icecr.Mem.Kalloc.Alloc.{memset_page-off}
use cow_pbs_cofee_cafe_icecr.Mem.Kalloc.Heap.{
  IsHeap, IsPage, AllFree, Absent, AgreeOff, Chain-frame,
}

-- The pages that the loop pushes, `n` of them from `p` on, above those of `xs`.
abbrev pages : ℕ → ℕ → List ℕ → List ℕ
pages zero p xs = xs
pages (suc n) p xs = pages n (p + 4096) (p ∷ xs)

abbrev AllBelow : ℕ → List ℕ → Type 0
AllBelow p [] = Unit
AllBelow p (x ∷ xs) = (x < p) × AllBelow p xs

AllBelow-weaken : (p q : ℕ) (xs : List ℕ) → p ≤ q → AllBelow p xs → AllBelow q xs
AllBelow-weaken p q [] h a = tt
AllBelow-weaken p q (x ∷ xs) h a = (omega arith, AllBelow-weaken p q xs h a.1)

AllBelow-Absent : (p : ℕ) (xs : List ℕ) → AllBelow p xs → Absent p xs
AllBelow-Absent p [] a = tt
AllBelow-Absent p (x ∷ xs) a = (λ e. omega arith, AllBelow-Absent p xs a.1)

pushed-off : (pa : ℕ) (m : Mem) → AgreeOff pa m.word (junk_and_push pa m).word
unfolding junk_and_push push
pushed-off pa m i n =
    update_other (memset_page pa 1 m.word) (pa / 8) m.freelist i (λ e. n (omega arith))
    ∙ memset_page-off pa 1 m.word i n

junk_and_push-IsHeap :
    (kend pa : ℕ) (m : Mem) (free : List ℕ)
    → IsHeap kend m free
    → IsPage kend pa
    → m.refs (pa / 4096) ≡ 0
    → Absent pa free
    → IsHeap kend (junk_and_push pa m) (pa ∷ free)
unfolding junk_and_push push
junk_and_push-IsHeap kend pa m free h p z n = record {
  chain = (
    refl,
    rw (update_self (memset_page pa 1 m.word) (pa / 8) m.freelist) (
        Chain-frame kend pa m.word _ m.freelist m.refs free (pushed-off pa m) p n h.all_free
          h.chain),
  );
  all_free = (p, z, h.all_free);
  distinct = (n, h.distinct);
}

pushed-refs :
    (pa : ℕ) (m : Mem) → ((i : ℕ) → m.refs i ≡ 0) → (i : ℕ) → (junk_and_push pa m).refs i ≡ 0
unfolding junk_and_push push
pushed-refs pa m z i = z i

free_pages-refs :
    (n p : ℕ) (m : Mem) → ((i : ℕ) → m.refs i ≡ 0) → (i : ℕ) → (free_pages n p m).refs i ≡ 0
unfolding free_pages
free_pages-refs zero p m z i = z i
free_pages-refs (suc n) p m z i =
    free_pages-refs n (p + 4096) (junk_and_push p m) (pushed-refs p m z) i

free_pages-IsHeap :
    (kend n p : ℕ) (m : Mem) (free : List ℕ)
    → IsHeap kend m free
    → AllBelow p free
    → ((i : ℕ) → m.refs i ≡ 0)
    → p % 4096 ≡ 0
    → kend ≤ p
    → 0 < p
    → p + n * 4096 ≤ phystop
    → IsHeap kend (free_pages n p m) (pages n p free)
unfolding free_pages
free_pages-IsHeap kend zero p m free h b z al lo pos hi = h
free_pages-IsHeap kend (suc n) p m free h b z al lo pos hi =
    free_pages-IsHeap kend n (p + 4096) (junk_and_push p m) (p ∷ free)
      (junk_and_push-IsHeap kend p m free h (al, lo, omega arith, pos) (z (p / 4096))
        (AllBelow-Absent p free b))
      (omega arith, AllBelow-weaken p (p + 4096) free (omega arith) b) (pushed-refs p m z)
      (omega arith) (omega arith) (omega arith) (omega arith)

-- The second loop writes counts only, all of them 0.
init-IsHeap :
    (kend n p : ℕ) (m : Mem) (free : List ℕ)
    → IsHeap kend m free
    → ((i : ℕ) → m.refs i ≡ 0)
    → IsHeap kend (initialize_no_of_ref_array n p m) free
unfolding initialize_no_of_ref_array
init-IsHeap kend zero p m free h z = h
init-IsHeap kend (suc n) p m free h z =
    init-IsHeap kend n (p + 4096) _ free
      (record { chain = h.chain; all_free = zeros free h.all_free; distinct = h.distinct }) zeroed
  where
    zeroed : (i : ℕ) → update m.refs (page_of p) 0 i ≡ 0
    zeroed = update-keeps (λ i c. c ≡ 0) m.refs (page_of p) 0 z refl

    zeros : (xs : List ℕ) → AllFree kend m.refs xs → AllFree kend (update m.refs (page_of p) 0) xs
    zeros [] f = tt
    zeros (x ∷ xs) f = (f.0, zeroed (x / 4096), zeros xs f.2)

abbrev pub In : ℕ → List ℕ → Type 0
In x [] = ⊥
In x (y ∷ ys) = (x ≡ y) ⊎ In x ys

pages-keep : (n p x : ℕ) (xs : List ℕ) → In x xs → In x (pages n p xs)
pages-keep zero p x xs h = h
pages-keep (suc n) p x xs h = pages-keep n (p + 4096) x (p ∷ xs) (inr h)

pages-all :
    (n p x : ℕ) (xs : List ℕ)
    → p % 4096 ≡ 0
    → x % 4096 ≡ 0
    → p ≤ x
    → x < p + n * 4096
    → In x (pages n p xs)
pages-all zero p x xs al ax lo hi = absurd (omega arith)
pages-all (suc n) p x xs al ax lo hi = elim (ℕ_discrete x p) [
  | yes e ↦ pages-keep n (p + 4096) x (p ∷ xs) (inl e)
  | no ne ↦ pages-all n (p + 4096) x (p ∷ xs) (omega arith) ax (omega arith) (omega arith)
]

-- From an empty list and counts of 0, `kinit` makes a heap of free pages, each once and with no
-- reference, that contains every page from `end` up to PHYSTOP.
pub kinit-IsHeap :
    (kend : ℕ) (m : Mem)
    → m.freelist ≡ 0
    → ((i : ℕ) → m.refs i ≡ 0)
    → 0 < kend
    → kend ≤ phystop
    → (free : List ℕ) × IsHeap kend (kinit kend m) free × ((x : ℕ) → IsPage kend x → In x free)
unfolding kinit freerange
kinit-IsHeap kend m none_free z pos hi =
    let p : ℕ = pg_round_up kend in
    let n : ℕ = rounds p phystop in
    (
      pages n p [],
      init-IsHeap kend n p (free_pages n p m) (pages n p [])
          (free_pages-IsHeap kend n p m []
            (record { chain = none_free; all_free = tt; distinct = tt }) tt z (omega arith)
            (omega arith) (omega arith) (omega arith))
          (free_pages-refs n p m z),
      λ x h. pages-all n p x [] (omega arith) h.0 (omega arith) (omega arith),
    )
