-- ===== src/Proc/Life/Pids.antt =====
-- The pids of kernel/proc.c: no two processes in use have the same.
use cow_pbs_cofee_cafe_icecr.Base.{
  ℕ, ◌+◌, ◌^◌, ◌<◌, ◌≡◌, ◌≢◌, ◌⊎◌, inl, inr, refl, sym, ◌∙◌, ap, subst, arith, ℤ, pos, ◌+ℤ◌, int32,
  ℕ_discrete,
}
use cow_pbs_cofee_cafe_icecr.Proc.Defs.{
  Proc, ProcState, unused, running, Chan, of_proc, Table, nproc,
}
use cow_pbs_cofee_cafe_icecr.Proc.Sleep.{sleep}
use cow_pbs_cofee_cafe_icecr.Proc.Sleep.Own.{sleep-at, sleep-other}
use cow_pbs_cofee_cafe_icecr.Proc.Create.{Kernel, freeproc, fork}
use cow_pbs_cofee_cafe_icecr.Proc.Create.Alloc.{IsUntouched, freeproc-state, freeproc-other}
use cow_pbs_cofee_cafe_icecr.Proc.Create.Fork.{IsFailed, IsFork, fork-IsFork}
use cow_pbs_cofee_cafe_icecr.Proc.Wait.{Waited}
use cow_pbs_cofee_cafe_icecr.Proc.Wait.Laws.{IsWait, reaps, faults, gives_up, waits, wait-IsWait}
use cow_pbs_cofee_cafe_icecr.Proc.Machine.Entry.{IsStep}
use cow_pbs_cofee_cafe_icecr.Proc.Machine.States.{step, final}
use cow_pbs_cofee_cafe_icecr.Proc.Life.{table_of, Event, runs, waits, Life, here, next, forks}
use cow_pbs_cofee_cafe_icecr.Proc.Life.Numbered.{
  IsNumbered, IsKept, kept-IsNumbered, next_pid, born-IsNumbered,
}

untouched-IsKept : (t u : Table) → IsUntouched t u → IsKept t u
untouched-IsKept t u w j h x =
    let n : (t j).state ≢ unused = λ z. x (w.free j z) in
    (n, ap (λ (p : Proc). p.pid) (w.in_use j n))

freeproc-IsKept : (t : Table) (i : ℕ) → IsKept t (freeproc i t)
freeproc-IsKept t i j h x = elim (ℕ_discrete i j) [
  | yes e ↦ absurd (x (ap (λ y. (freeproc i t y).state) (sym e) ∙ freeproc-state i t))
  | no n ↦ (
    (λ z. x (ap (λ (p : Proc). p.state) (freeproc-other i t j n) ∙ z)),
    ap (λ (p : Proc). p.pid) (freeproc-other i t j n),
  )
]

step-IsKept : (t u : Table) → ((j : ℕ) → j < nproc → IsStep (t j) (u j)) → IsKept t u
step-IsKept t u f j h x = let s = f j h in ((λ z. x (final (t j).state (inl z) s.moves ∙ z)), s.pid)

pub in_use : (s : ProcState) → s ≡ running → s ≢ unused
in_use s e f = ground arith

sleep-IsKept : (me : ℕ) (c : Chan) (t : Table) → (t me).state ≡ running → IsKept t (sleep me c t)
sleep-IsKept me c t e j h x = elim (ℕ_discrete me j) [
  | yes q ↦ rw (← q) (in_use _ e, ap (λ (p : Proc). p.pid) (sleep-at me c t))
  | no n ↦ (
    (λ z. x (ap (λ (p : Proc). p.state) (sleep-other me c t j n) ∙ z)),
    ap (λ (p : Proc). p.pid) (sleep-other me c t j n),
  )
]

wait-IsKept :
    (addr : ℕ) (copied : ℤ) (me : ℕ) (t : Table) (w : Waited)
    → (t me).state ≡ running
    → IsWait addr copied me t w
    → IsKept t (table_of w)
wait-IsKept addr copied me t w e (reaps k f g) = freeproc-IsKept t k
wait-IsKept addr copied me t w e (faults k f g h) = λ j h x. (x, refl)
wait-IsKept addr copied me t w e (gives_up f g) = λ j h x. (x, refl)
wait-IsKept addr copied me t w e (waits f g) = sleep-IsKept me (of_proc me) t e

Event-IsNumbered :
    (initproc b : ℕ) (k k' : Kernel) → IsNumbered b k → Event initproc k k' → IsNumbered b k'
Event-IsNumbered initproc b k k' s (runs u a e) = rw e (
    kept-IsNumbered b b k _ s s.count (step-IsKept k.procs u (step a)) s.is_next (omega arith)
      s.bound)
Event-IsNumbered initproc b k k' s (waits me addr copied r e) = rw e (
    kept-IsNumbered b b k _ s s.count
      (wait-IsKept addr copied me k.procs _ r (wait-IsWait addr copied me k.procs)) s.is_next
      (omega arith) s.bound)

failed_next :
    (b : ℕ) (k k' : Kernel) (s : IsNumbered b k)
    → b + 1 < 2 ^ 31
    → (k'.nextpid ≡ k.nextpid) ⊎ (k'.nextpid ≡ int32 (k.nextpid +ℤ pos 1))
    → (k'.nextpid ≡ pos s.count) ⊎ (k'.nextpid ≡ pos (s.count + 1))
failed_next b k k' s h (inl e) = inl (e ∙ s.is_next)
failed_next b k k' s h (inr e) =
    inr (next_pid s.count k.nextpid k'.nextpid s.is_next (omega (arith, s.bound)) e)

failed-IsNumbered :
    (b : ℕ) (k k' : Kernel) (s : IsNumbered b k) (frame table : ℕ) (copied r : ℤ)
    → b + 1 < 2 ^ 31
    → IsFailed frame table copied k k' r
    → IsNumbered (b + 1) k'
failed-IsNumbered b k k' s frame table copied r h w =
    let f = untouched-IsKept k.procs k'.procs w.untouched in
    elim (failed_next b k k' s h w.next) [
      | inl e ↦ kept-IsNumbered b (b + 1) k k' s s.count f e (omega arith) (omega (arith, s.bound))
      | inr e ↦
          kept-IsNumbered b (b + 1) k k' s (s.count + 1) f e (omega arith) (omega (arith, s.bound))
    ]

fork-IsNumbered :
    (b : ℕ) (k : Kernel) (me ticks frame table : ℕ) (copied : ℤ)
    → IsNumbered b k
    → b + 1 < 2 ^ 31
    → (k.procs me).state ≡ running
    → IsNumbered (b + 1) (fork me ticks frame table copied k).1
unfolding IsFork
fork-IsNumbered b k me ticks frame table copied s h e =
    go _ (fork-IsFork me ticks frame table copied k (in_use _ e))
  where
    go : (r : ℤ × Kernel) → IsFork me ticks frame table copied k r → IsNumbered (b + 1) r.1
    go (r, k') (inl (i, w)) = born-IsNumbered b k k' s me ticks frame table i copied r h w
    go (r, k') (inr w) = failed-IsNumbered b k k' s frame table copied r h w

-- In whatever order the steps of the processes, `fork` and `wait` come, as long as `nextpid` and
-- the forks so far stay below 2 ^ 31, the pids of the entries in use are distinct and lie between 0
-- and `nextpid`.
pub Life-IsNumbered :
    {initproc : ℕ} {k : Kernel} {n : ℕ} {k' : Kernel} (b : ℕ)
    → IsNumbered b k
    → b + n < 2 ^ 31
    → Life initproc k n k'
    → IsNumbered (b + n) k'
Life-IsNumbered {k = k} b s h here = subst (λ c. IsNumbered c k) (omega arith) s
Life-IsNumbered {initproc} b s h (next {n = n} {u = u} {v = v} l e) =
    Event-IsNumbered initproc (b + n) u v (Life-IsNumbered b s h l) e
Life-IsNumbered b s h (forks {n = n} {u = u} {v = v} l f) =
    let r = Life-IsNumbered b s (omega arith) l in
    let grown : IsNumbered (b + n + 1) v =
      subst (IsNumbered (b + n + 1)) (sym f.forked)
        (fork-IsNumbered (b + n) u f.me f.ticks f.frame f.table f.copied r (omega arith) f.runs) in
    subst (λ c. IsNumbered c v) (omega arith) grown
