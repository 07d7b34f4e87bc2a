-- ===== src/Proc/Create/Fork.antt =====
-- The two ways that `fork` of kernel/proc.c ends.
use cow_pbs_cofee_cafe_icecr.Base.{
  ℕ, ◌<◌, ◌≡◌, ◌≢◌, ◌⊎◌, inl, inr, refl, sym, ◌∙◌, ap, true, false, Option, none, some, ℤ, pos,
  negsuc, ◌+ℤ◌, int32, ltb_ℤ, if_keeps, update, update_self, update_other,
}
use cow_pbs_cofee_cafe_icecr.Proc.Defs.{Proc, unused, runnable, nproc}
use cow_pbs_cofee_cafe_icecr.Proc.Create.{Kernel, claim, start, inherit, fork_into, fork}
use cow_pbs_cofee_cafe_icecr.Proc.Create.Alloc.{
  IsUntouched, freed-IsUntouched, Lack, IsStarted, IsAllocated, allocproc-IsAllocated,
}

-- The child of `me` in a free entry: RUNNABLE, with the pid that is returned, the parent's size and
-- the first values of the scheduler's fields.
pub record IsBorn (me ticks frame table i : ℕ) (copied : ℤ) (k k' : Kernel) (r : ℤ) : Type 0 where
  pub in_table : i < nproc
  pub was_free : (k.procs i).state ≡ unused
  pub result : r ≡ k.nextpid
  pub next : k'.nextpid ≡ int32 (k.nextpid +ℤ pos 1)
  pub state : (k'.procs i).state ≡ runnable
  pub pid : (k'.procs i).pid ≡ k.nextpid
  pub parent : (k'.procs i).parent ≡ some me
  pub size : (k'.procs i).sz ≡ (k.procs me).sz
  pub priority : (k'.procs i).st_priority ≡ pos 50
  pub count : (k'.procs i).schedule_count ≡ pos 0
  pub created : (k'.procs i).ctime ≡ ticks
  pub memory : (k'.procs i).pagetable ≡ table
  pub others : (j : ℕ) → i ≢ j → k'.procs j ≡ k.procs j
  pub got_frame : frame ≢ 0
  pub got_table : table ≢ 0
  pub got_copy : ltb_ℤ copied (pos 0) ≡ false

pub record IsFailed (frame table : ℕ) (copied : ℤ) (k k' : Kernel) (r : ℤ) : Type 0 where
  pub result : r ≡ negsuc 0
  pub lack : Lack frame table k.procs ⊎ (ltb_ℤ copied (pos 0) ≡ true)
  pub untouched : IsUntouched k.procs k'.procs
  pub next : (k'.nextpid ≡ k.nextpid) ⊎ (k'.nextpid ≡ int32 (k.nextpid +ℤ pos 1))

unfoldable pub IsFork : ℕ → ℕ → ℕ → ℕ → ℤ → Kernel → ℤ × Kernel → Type 0
IsFork me ticks frame table copied k (r, k') =
    ((i : ℕ) × IsBorn me ticks frame table i copied k k' r) ⊎ IsFailed frame table copied k k' r

born :
    (me ticks frame table i : ℕ) (copied : ℤ) (k k' : Kernel)
    → IsStarted ticks frame table i k k'
    → (k.procs me).state ≢ unused
    → ltb_ℤ copied (pos 0) ≡ false
    → IsBorn me ticks frame table i copied k
        (record k' { procs = update k'.procs i (inherit me (k'.procs me) (k'.procs i)) })
        (k'.procs i).pid
unfolding inherit start claim
born me ticks frame table i copied k k' s n e =
    let m : i ≢ me = λ z. n (ap (λ x. (k.procs x).state) (sym z) ∙ s.was_free) in
    let child = update_self k'.procs i (inherit me (k'.procs me) (k'.procs i)) in
    record {
      in_table = s.in_table;
      was_free = s.was_free;
      result = ap (λ (x : Proc). x.pid) s.entry;
      next = s.next;
      state = ap (λ (x : Proc). x.state) child;
      pid = ap (λ (x : Proc). x.pid) child ∙ ap (λ (x : Proc). x.pid) s.entry;
      parent = ap (λ (x : Proc). x.parent) child;
      size = ap (λ (x : Proc). x.sz) child ∙ ap (λ (x : Proc). x.sz) (s.others me m);
      priority = ap (λ (x : Proc). x.st_priority) child ∙ ap (λ (x : Proc). x.st_priority) s.entry;
      count =
          ap (λ (x : Proc). x.schedule_count) child ∙ ap (λ (x : Proc). x.schedule_count) s.entry;
      created = ap (λ (x : Proc). x.ctime) child ∙ ap (λ (x : Proc). x.ctime) s.entry;
      memory = ap (λ (x : Proc). x.pagetable) child ∙ ap (λ (x : Proc). x.pagetable) s.entry;
      others = λ j z. update_other k'.procs i _ j z ∙ s.others j z;
      got_frame = s.got_frame;
      got_table = s.got_table;
      got_copy = e;
    }

fork_into-IsFork :
    (me ticks frame table : ℕ) (copied : ℤ) (k : Kernel) (a : Kernel × Option ℕ)
    → (k.procs me).state ≢ unused
    → IsAllocated ticks frame table k a
    → IsFork me ticks frame table copied k (fork_into me copied a)
unfolding fork_into IsFork
fork_into-IsFork me ticks frame table copied k (k', none) n s =
    inr (record { result = refl; lack = inl s.lack; untouched = s.untouched; next = s.next })
fork_into-IsFork me ticks frame table copied k (k', some i) n s =
    if_keeps (IsFork me ticks frame table copied k) (ltb_ℤ copied (pos 0)) _ _
      (λ e. inr (record {
        result = refl;
        lack = inr e;
        untouched = freed-IsUntouched k.procs k'.procs i s.was_free s.others;
        next = inr s.next;
      }))
      (λ e. inl (i, born me ticks frame table i copied k k' s n e))

-- `fork` by a process in use either returns the next pid, and a free entry has become a RUNNABLE
-- child with this pid, the caller as its parent and its size, created now, with the static priority
-- 50 and no scheduling so far, and no other entry has changed; or it returns -1, for want of an
-- entry, a page, a page table or a copy, and no entry in use has changed and no free entry has come
-- into use.
pub fork-IsFork :
    (me ticks frame table : ℕ) (copied : ℤ) (k : Kernel)
    → (k.procs me).state ≢ unused
    → IsFork me ticks frame table copied k (fork me ticks frame table copied k)
unfolding fork
fork-IsFork me ticks frame table copied k n =
    fork_into-IsFork me ticks frame table copied k _ n (allocproc-IsAllocated ticks frame table k)
