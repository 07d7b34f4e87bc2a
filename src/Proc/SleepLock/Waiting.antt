-- ===== src/Proc/SleepLock/Waiting.antt =====
-- The waiting for a sleep lock of kernel/sleeplock.c.

use cow_pbs_cofee_cafe_icecr.Base.{ℕ, ◌<◌, ◌≡◌, sym, ◌∙◌, ap, arith, true, false, some, if_keeps}
use cow_pbs_cofee_cafe_icecr.Proc.Defs.{Chan, Proc, sleeping, running, Table, nproc}
use cow_pbs_cofee_cafe_icecr.Proc.Sleep.{sleep}
use cow_pbs_cofee_cafe_icecr.Proc.Sleep.Laws.{IsWaiting, wakeup-exact}
use cow_pbs_cofee_cafe_icecr.Proc.SleepLock.{
  SleepLock, initsleeplock, acquiresleep, releasesleep, holdingsleep,
}

-- The process `j` sleeps on the lock.
abbrev pub Waits : Chan → Table → ℕ → Type 0
Waits lk t j = ((t j).state ≡ sleeping) × ((t j).chan ≡ lk)

-- The calls of running processes, and what else happens to the table: no other code sleeps on the
-- lock.
pub data Step (lk : Chan) (s : SleepLock × Table) : SleepLock × Table → Type 0 where
  acquires : (me : ℕ) → (s.1 me).state ≡ running → Step lk s (acquiresleep me lk s)
  releases : (me : ℕ) → (s.1 me).state ≡ running → Step lk s (releasesleep me lk s)
  passes : (u : Table) → ((j : ℕ) → j < nproc → Waits lk u j → Waits lk s.1 j) → Step lk s (s.0, u)

pub data Reach (lk : Chan) (s : SleepLock × Table) : SleepLock × Table → Type 0 where
  here : Reach lk s s
  next : {u v : SleepLock × Table} → Reach lk s u → Step lk u v → Reach lk s v

-- Nobody waits for a free lock.
abbrev pub IsServed : Chan → SleepLock × Table → Type 0
IsServed lk s = s.0.locked ≡ false → (j : ℕ) → j < nproc → ¬ Waits lk s.1 j

releasesleep-IsServed :
    (me : ℕ) (lk : Chan) (s : SleepLock × Table)
    → (s.1 me).state ≡ running
    → IsServed lk (releasesleep me lk s)
unfolding releasesleep
releasesleep-IsServed me lk (l, t) r f j m (a, b) =
    let woken = wakeup-exact (some me) lk t j m in
    let n : ¬ IsWaiting (some me) lk t j =
      λ w. let e = ap (λ (p : Proc). p.state) (woken.0 w) in absurd (cc (e, a)) in
    let same = woken.1 n in
    n (record {
      not_me =
          λ q. let k : me ≡ j = cc q in let e = ap (λ i. (t i).state) k in absurd (cc (e, r, a));
      asleep = ap (λ (p : Proc). p.state) (sym same) ∙ a;
      on_chan = ap (λ (p : Proc). p.chan) (sym same) ∙ b;
    })

acquiresleep-held :
    (me : ℕ) (lk : Chan) (l : SleepLock) (t : Table)
    → l.locked ≡ false
    → holdingsleep me (acquiresleep me lk (l, t)) ≡ true
unfolding acquiresleep holdingsleep
acquiresleep-held me lk l t e =
    if_keeps (λ s. holdingsleep me s ≡ true) l.locked (l, sleep me lk t)
      (record { locked = true; pid = (t me).pid }, t) (λ f. absurd (cc (e, f))) (λ f. ground arith)

acquiresleep-IsServed :
    (me : ℕ) (lk : Chan) (s : SleepLock × Table) → IsServed lk (acquiresleep me lk s)
unfolding acquiresleep
acquiresleep-IsServed me lk (l, t) =
    if_keeps (IsServed lk) l.locked (l, sleep me lk t)
      (record { locked = true; pid = (t me).pid }, t) (λ e f. absurd (cc (e, f)))
      (λ e f. absurd (cc f))

Reach-IsServed :
    (lk : Chan) (s u : SleepLock × Table) → IsServed lk s → Reach lk s u → IsServed lk u
Reach-IsServed lk s u h here = h
Reach-IsServed lk s u h (next r (acquires me e)) = acquiresleep-IsServed me lk _
Reach-IsServed lk s u h (next r (releases me e)) = releasesleep-IsServed me lk _ e
Reach-IsServed lk s u h (next r (passes t p)) = λ f j m w. Reach-IsServed lk s _ h r f j m (p j m w)

-- From a free lock on which no process sleeps, calls of acquiresleep and releasesleep by running
-- processes, between which no other code sleeps on the lock, reach a free lock only with no process
-- sleeping on it, and the next call of acquiresleep takes it for its process.
pub Reach-Waits :
    (lk : Chan) (t u : Table) (l : SleepLock)
    → ((j : ℕ) → j < nproc → ¬ Waits lk t j)
    → Reach lk (initsleeplock, t) (l, u)
    → l.locked ≡ false
    → ((j : ℕ) → j < nproc → ¬ Waits lk u j)
      × ((me : ℕ) → holdingsleep me (acquiresleep me lk (l, u)) ≡ true)
Reach-Waits lk t u l h r e =
    (Reach-IsServed lk (initsleeplock, t) (l, u) (λ f. h) r e, λ me. acquiresleep-held me lk l u e)
