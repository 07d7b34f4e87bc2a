-- ===== src/Mem/Kalloc/Heap.antt =====
-- The list of free pages that kernel/kalloc.c keeps inside the free pages.
use cow_pbs_cofee_cafe_icecr.Base.{
  ℕ, ◌/◌, ◌%◌, ◌≤◌, ◌<◌, ◌≡◌, ◌≢◌, List, [], ◌∷◌, arith, sym, ap, ◌∙◌, update, update_other,
}
use cow_pbs_cofee_cafe_icecr.Mem.Pages.{Mem, phystop}

-- The pages of the list `xs`, from the address `head` on.
abbrev pub Chain : (ℕ → ℕ) → ℕ → List ℕ → Type 0
Chain w head [] = head ≡ 0
Chain w head (x ∷ xs) = (head ≡ x) × Chain w (w (x / 8)) xs

-- An address that `kfree` accepts.
abbrev pub IsPage : ℕ → ℕ → Type 0
IsPage kend x = (x % 4096 ≡ 0) × (kend ≤ x) × (x < phystop) × (0 < x)

-- The addresses are those of pages with no reference, each once.
abbrev pub AllFree : ℕ → (ℕ → ℕ) → List ℕ → Type 0
AllFree kend refs [] = Unit
AllFree kend refs (x ∷ xs) = IsPage kend x × (refs (x / 4096) ≡ 0) × AllFree kend refs xs

abbrev pub Absent : ℕ → List ℕ → Type 0
Absent y [] = Unit
Absent y (x ∷ xs) = (y ≢ x) × Absent y xs

abbrev pub Distinct : List ℕ → Type 0
Distinct [] = Unit
Distinct (x ∷ xs) = Absent x xs × Distinct xs

-- The allocator holds exactly the free pages `free`, in this order.
pub record IsHeap (kend : ℕ) (m : Mem) (free : List ℕ) : Type 0 where
  pub chain : Chain m.word m.freelist free
  pub all_free : AllFree kend m.refs free
  pub distinct : Distinct free

-- The two memories agree outside the page at the address `y`.
abbrev pub AgreeOff : ℕ → (ℕ → ℕ) → (ℕ → ℕ) → Type 0
AgreeOff y w w' = (i : ℕ) → i / 512 ≢ y / 4096 → w' i ≡ w i

pub page-ne : (kend x y : ℕ) → IsPage kend x → IsPage kend y → y ≢ x → x / 8 / 512 ≢ y / 4096
page-ne kend x y h k n = omega arith

pub Chain-frame :
    (kend y : ℕ) (w w' : ℕ → ℕ) (head : ℕ) (refs : ℕ → ℕ) (xs : List ℕ)
    → AgreeOff y w w'
    → IsPage kend y
    → Absent y xs
    → AllFree kend refs xs
    → Chain w head xs
    → Chain w' head xs
Chain-frame kend y w w' head refs [] a p n f c = c
Chain-frame kend y w w' head refs (x ∷ xs) a p n f c = (
  c.0,
  rw (a (x / 8) (page-ne kend x y f.0 p n.0))
      (Chain-frame kend y w w' (w (x / 8)) refs xs a p n.1 f.2 c.1),
)

-- The count of a page that is not on the list may change.
pub AllFree-frame :
    (kend y : ℕ) (refs refs' : ℕ → ℕ) (xs : List ℕ)
    → ((i : ℕ) → y / 4096 ≢ i → refs' i ≡ refs i)
    → IsPage kend y
    → Absent y xs
    → AllFree kend refs xs
    → AllFree kend refs' xs
AllFree-frame kend y refs refs' [] a p n f = tt
AllFree-frame kend y refs refs' (x ∷ xs) a p n f =
    (f.0, rw (a (x / 4096) (λ e. n.0 (same e))) f.1, AllFree-frame kend y refs refs' xs a p n.1 f.2)
  where
    same : y / 4096 ≡ x / 4096 → y ≡ x
    same e = omega (arith, f.0)

-- A page with a reference is on no list of free pages.
pub counted-Absent :
    (kend y : ℕ) (refs : ℕ → ℕ) (xs : List ℕ)
    → 0 < refs (y / 4096)
    → AllFree kend refs xs
    → Absent y xs
counted-Absent kend y refs [] h f = tt
counted-Absent kend y refs (x ∷ xs) h f = (
  λ e. absurd (zero_pos (sym (f.1) ∙ ap (λ (z : ℕ). refs (z / 4096)) (sym e)) h),
  counted-Absent kend y refs xs h f.2,
)
  where
    zero_pos : 0 ≡ refs (y / 4096) → 0 < refs (y / 4096) → ⊥
    zero_pos e l = omega arith

-- A write into a page that has a reference does not touch the list.
pub Chain-update :
    (kend i v : ℕ) (w : ℕ → ℕ) (head : ℕ) (refs : ℕ → ℕ) (xs : List ℕ)
    → 0 < refs (i / 512)
    → AllFree kend refs xs
    → Chain w head xs
    → Chain (update w i v) head xs
Chain-update kend i v w head refs [] h f c = c
Chain-update kend i v w head refs (x ∷ xs) h f c = (
  c.0,
  rw (update_other w i v (x / 8) (λ e. elsewhere e))
      (Chain-update kend i v w (w (x / 8)) refs xs h f.2 c.1),
)
  where
    elsewhere : i ≡ x / 8 → ⊥
    elsewhere e =
        let q : i / 512 ≡ x / 4096 = omega (arith, f.0) in
        let z : refs (i / 512) ≡ 0 = ap refs q ∙ f.1 in omega arith
