-- ===== src/Proc/Life/Numbered.antt =====
-- What it is for the pids of kernel/proc.c to be distinct, and that a new process keeps it.
use cow_pbs_cofee_cafe_icecr.Base.{
  ℕ, ◌+◌, ◌^◌, ◌<◌, ◌≤◌, ◌≡◌, ◌≢◌, sym, ◌∙◌, ap, subst, arith, ℤ, pos, ◌+ℤ◌, int32, int32-id,
  pos-add, ◌<ℤ◌, ℕ_discrete,
}
use cow_pbs_cofee_cafe_icecr.Proc.Defs.{Proc, unused, Table, nproc}
use cow_pbs_cofee_cafe_icecr.Proc.Create.{Kernel}
use cow_pbs_cofee_cafe_icecr.Proc.Create.Fork.{IsBorn}

-- The pids in use are distinct and lie between 0 and `nextpid`, which is at most `b`.
pub record IsNumbered (b : ℕ) (k : Kernel) : Type 0 where
  pub count : ℕ
  pub is_next : k.nextpid ≡ pos count
  pub started : 0 < count
  pub bound : count ≤ b
  pub below : (j : ℕ) → j < nproc → (k.procs j).state ≢ unused → (k.procs j).pid <ℤ pos count
  pub positive : (j : ℕ) → j < nproc → (k.procs j).state ≢ unused → pos 0 <ℤ (k.procs j).pid
  pub distinct :
      (i j : ℕ)
      → i < nproc
      → j < nproc
      → (k.procs i).state ≢ unused
      → (k.procs j).state ≢ unused
      → (k.procs i).pid ≡ (k.procs j).pid
      → i ≡ j

-- What is in use in `u` was in use in `t`, with the same pid.
abbrev pub IsKept : Table → Table → Type 0
IsKept t u =
    (j : ℕ) → j < nproc → (u j).state ≢ unused → ((t j).state ≢ unused) × ((u j).pid ≡ (t j).pid)

below_of : (a b : ℤ) (m n : ℕ) → a ≡ b → b <ℤ pos m → m ≤ n → a <ℤ pos n
below_of a b m n e h l = rw e (omega arith)

below_next : (a : ℤ) (m : ℕ) → a ≡ pos m → a <ℤ pos (m + 1)
below_next a m e = rw e (omega arith)

not_self : (a : ℤ) (m : ℕ) → a <ℤ pos m → a ≢ pos m
not_self a m h e = let l : pos m <ℤ pos m = subst (λ z. z <ℤ pos m) e h in absurd (omega arith)

pub kept-IsNumbered :
    (b c : ℕ) (k k' : Kernel) (s : IsNumbered b k) (n : ℕ)
    → IsKept k.procs k'.procs
    → k'.nextpid ≡ pos n
    → s.count ≤ n
    → n ≤ c
    → IsNumbered c k'
kept-IsNumbered b c k k' s n f e l m = record {
  count = n;
  is_next = e;
  started = omega (arith, s.started);
  bound = m;
  below = λ j h x. let g = f j h x in below_of _ _ s.count n g.1 (s.below j h g.0) l;
  positive = λ j h x. let g = f j h x in subst (λ z. pos 0 <ℤ z) (sym g.1) (s.positive j h g.0);
  distinct = λ i j h₁ h₂ x₁ x₂ q.
      let g₁ = f i h₁ x₁ in
      let g₂ = f j h₂ x₂ in s.distinct i j h₁ h₂ g₁.0 g₂.0 (sym g₁.1 ∙ q ∙ g₂.1);
}

pub next_pid :
    (c : ℕ) (a b : ℤ) → a ≡ pos c → c + 1 < 2 ^ 31 → b ≡ int32 (a +ℤ pos 1) → b ≡ pos (c + 1)
next_pid c a b e h q =
    q
    ∙ ap (λ z. int32 (z +ℤ pos 1)) e
    ∙ ap int32 (pos-add c 1)
    ∙ int32-id (pos (c + 1)) (h, omega arith)

-- The child has a pid that no other process has.
pub born-IsNumbered :
    (b : ℕ) (k k' : Kernel) (s : IsNumbered b k) (me ticks frame table i : ℕ) (copied r : ℤ)
    → b + 1 < 2 ^ 31
    → IsBorn me ticks frame table i copied k k' r
    → IsNumbered (b + 1) k'
born-IsNumbered b k k' s me ticks frame table i copied r h w =
    let at_child : (j : ℕ) → i ≡ j → (k'.procs j).pid ≡ pos s.count =
      λ j q. ap (λ x. (k'.procs x).pid) (sym q) ∙ w.pid ∙ s.is_next in
    let old : (j : ℕ) → i ≢ j → (k'.procs j).state ≢ unused → (k.procs j).state ≢ unused =
      λ j m x z. x (ap (λ (p : Proc). p.state) (w.others j m) ∙ z) in
    let same : (j : ℕ) → i ≢ j → (k'.procs j).pid ≡ (k.procs j).pid =
      λ j m. ap (λ (p : Proc). p.pid) (w.others j m) in
    let fresh : (j : ℕ)
        → j < nproc
        → i ≢ j
        → (k'.procs j).state ≢ unused
        → (k'.procs j).pid ≢ pos s.count =
      λ j l m x.
        not_self _ _ (subst (λ z. z <ℤ pos s.count) (sym (same j m)) (s.below j l (old j m x))) in
    record {
      count = s.count + 1;
      is_next = next_pid s.count k.nextpid k'.nextpid s.is_next (omega (arith, s.bound)) w.next;
      started = omega arith;
      bound = omega (arith, s.bound);
      below = λ j l x. elim (ℕ_discrete i j) [
        | yes q ↦ below_next _ s.count (at_child j q)
        | no m ↦
            below_of _ _ s.count (s.count + 1) (same j m) (s.below j l (old j m x)) (omega arith)
      ];
      positive = λ j l x. elim (ℕ_discrete i j) [
        | yes q ↦ subst (λ z. pos 0 <ℤ z) (sym (at_child j q)) (omega (arith, s.started))
        | no m ↦ subst (λ z. pos 0 <ℤ z) (sym (same j m)) (s.positive j l (old j m x))
      ];
      distinct = λ a j l₁ l₂ x₁ x₂ q. elim (ℕ_discrete i a) [
        | yes e ↦ elim (ℕ_discrete i j) [
          | yes f ↦ sym e ∙ f
          | no m ↦ absurd (fresh j l₂ m x₂ (sym q ∙ at_child a e))
        ]
        | no n ↦ elim (ℕ_discrete i j) [
          | yes f ↦ absurd (fresh a l₁ n x₁ (q ∙ at_child j f))
          | no m ↦ s.distinct a j l₁ l₂ (old a n x₁) (old j m x₂) (sym (same a n) ∙ q ∙ same j m)
        ]
      ];
    }
