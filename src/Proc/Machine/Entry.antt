-- ===== src/Proc/Machine/Entry.antt =====
-- What each operation of kernel/proc.c and kernel/sysproc.c does to the state and the priority of
-- an entry.
use cow_pbs_cofee_cafe_icecr.Base.{
  ℕ, ◌<◌, ◌≡◌, ◌≢◌, ◌⊎◌, inl, inr, refl, ap, subst, arith, Option, none, some, ℤ, pos, ◌≤ℤ◌, ◌<ℤ◌,
  ℕ_discrete,
}
use cow_pbs_cofee_cafe_icecr.Proc.Defs.{
  Proc, ProcState, unused, used, sleeping, runnable, running, zombie, Table, nproc,
}
use cow_pbs_cofee_cafe_icecr.Proc.Priority.Frame.{SameButRbi}
use cow_pbs_cofee_cafe_icecr.Proc.Scheduler.Pick.{IsPick, IsSwitch, IsDispatched}
use cow_pbs_cofee_cafe_icecr.Proc.Clock.{clockintr}
use cow_pbs_cofee_cafe_icecr.Proc.Clock.Laws.{ticked, clockintr-IsWoken}
use cow_pbs_cofee_cafe_icecr.Proc.Sleep.{kill}
use cow_pbs_cofee_cafe_icecr.Proc.Sleep.Frame.{IsWoken}
use cow_pbs_cofee_cafe_icecr.Proc.Sleep.Laws.{IsKilled, kill-cases}
use cow_pbs_cofee_cafe_icecr.Proc.Exit.{exit}
use cow_pbs_cofee_cafe_icecr.Proc.Exit.Laws.{IsPassed}
use cow_pbs_cofee_cafe_icecr.Proc.Exit.Zombie.{IsExited, exit-IsExited}
use cow_pbs_cofee_cafe_icecr.Proc.SetPriority.{sys_setpriority}
use cow_pbs_cofee_cafe_icecr.Proc.SetPriority.Laws.{
  IsRequest, IsReprioritised, sys_setpriority-cases,
}

-- The changes of state that the kernel makes.
pub data Allowed : ProcState → ProcState → Type 0 where
  stay : {s : ProcState} → Allowed s s
  wake : Allowed sleeping runnable
  run : Allowed runnable running
  preempt : Allowed running runnable
  block : Allowed running sleeping
  die : Allowed running zombie

-- The priorities that the system call accepts.
abbrev pub InRange : Proc → Type 0
InRange p = (pos 0 ≤ℤ p.st_priority) × (p.st_priority ≤ℤ pos 100)

-- One step of one entry.
pub record IsStep (p q : Proc) : Type 0 where
  pub moves : Allowed p.state q.state
  pub keeps : InRange p → InRange q
  pub pid : q.pid ≡ p.pid

stays :
    (p q : Proc) → p.state ≡ q.state → p.st_priority ≡ q.st_priority → q.pid ≡ p.pid → IsStep p q
stays p q e f g = record {
  moves = subst (Allowed p.state) e stay;
  keeps = λ h. rw (← f) h;
  pid = g;
}

SameButRbi-IsStep : (p q : Proc) → SameButRbi q p → IsStep p q
SameButRbi-IsStep p q (x, e) = rw e (record { moves = stay; keeps = λ h. h; pid = refl })

IsDispatched-IsStep : (p q : Proc) → p.state ≡ runnable → IsDispatched q p → IsStep p q
IsDispatched-IsStep p q r (x, e) = rw e (record { moves = rw r run; keeps = λ h. h; pid = refl })

pub IsSwitch-IsStep :
    (t u : Table) (c : Option ℕ) → IsPick t c → IsSwitch t u c → (j : ℕ) → IsStep (t j) (u j)
IsSwitch-IsStep t u none p s j = SameButRbi-IsStep (t j) (u j) (s j)
IsSwitch-IsStep t u (some b) p s j = elim (ℕ_discrete b j) [
  | yes e ↦ rw (← e) (IsDispatched-IsStep (t b) (u b) p.is_runnable s.0)
  | no n ↦ SameButRbi-IsStep (t j) (u j) (s.1 j n)
]

woken_move : (a b : ProcState) → (b ≡ a) ⊎ ((a ≡ sleeping) × (b ≡ runnable)) → Allowed a b
woken_move a b (inl e) = rw e stay
woken_move a b (inr (e, f)) = rw (e, f) wake

pub IsWoken-IsStep : (p q : Proc) → IsWoken p q → IsStep p q
IsWoken-IsStep p q w = record {
  moves = woken_move p.state q.state w.state;
  keeps = λ h. rw (ap (λ (x : Proc). x.st_priority) (w.rest sleeping)) h;
  pid = ap (λ (x : Proc). x.pid) (w.rest sleeping);
}

IsPassed-IsStep : (p q : Proc) → IsPassed p q → IsStep p q
IsPassed-IsStep p q w = record {
  moves = woken_move p.state q.state w.state;
  keeps = λ h. rw (ap (λ (x : Proc). x.st_priority) (w.rest sleeping none)) h;
  pid = ap (λ (x : Proc). x.pid) (w.rest sleeping none);
}

ticked-IsStep : (s : ProcState) (p : Proc) → IsStep p (ticked s p)
ticked-IsStep unused p = stays p p refl refl refl
ticked-IsStep _ p = record { moves = stay; keeps = λ h. h; pid = refl }

-- A step that an entry takes after it was ticked is one from where it stood.
after_tick : (s : ProcState) (p q : Proc) → IsWoken (ticked s p) q → IsStep p q
after_tick unused p q w = IsWoken-IsStep p q w
after_tick running p q w =
    let k = IsWoken-IsStep _ q w in record { moves = k.moves; keeps = k.keeps; pid = k.pid }
after_tick runnable p q w =
    let k = IsWoken-IsStep _ q w in record { moves = k.moves; keeps = k.keeps; pid = k.pid }
after_tick sleeping p q w =
    let k = IsWoken-IsStep _ q w in record { moves = k.moves; keeps = k.keeps; pid = k.pid }
after_tick used p q w = IsWoken-IsStep p q w
after_tick zombie p q w = IsWoken-IsStep p q w

pub clockintr-IsStep :
    (me : Option ℕ) (ticks : ℕ) (t : Table) (j : ℕ)
    → j < nproc
    → IsStep (t j) ((clockintr me (ticks, t)).1 j)
clockintr-IsStep me ticks t j h = after_tick (t j).state (t j) _ (clockintr-IsWoken me ticks t j h)

lt_or_ge : (a b : ℤ) → (a <ℤ b) ⊎ (b ≤ℤ a)
lt_or_ge a b = omega arith

asleep? : (s : ProcState) → (s ≡ sleeping) ⊎ (s ≢ sleeping)
asleep? s = ground arith

IsKilled-IsStep :
    (pid : ℤ) (t : Table) (r : ℤ × Table) → IsKilled pid t r → (j : ℕ) → IsStep (t j) (r.1 j)
IsKilled-IsStep pid t r k j = elim (ℕ_discrete k.victim j) [
  | yes e ↦ rw (← e) (record {
    moves = woken_move _ _ (elim (asleep? (t k.victim).state) [
      | inl a ↦ inr (a, k.woken a)
      | inr a ↦ inl (k.unwoken a)
    ]);
    keeps = λ h. rw (ap (λ (x : Proc). x.st_priority) (k.rest sleeping (pos 0))) h;
    pid = ap (λ (x : Proc). x.pid) (k.rest sleeping (pos 0));
  })
  | no n ↦ rw (k.others j n) (stays _ _ refl refl refl)
]

pub kill-IsStep : (pid : ℤ) (t : Table) (j : ℕ) → IsStep (t j) ((kill pid t).1 j)
kill-IsStep pid t j = elim (kill-cases pid t) [
  | inl m ↦ rw m.1 (stays _ _ refl refl refl)
  | inr k ↦ IsKilled-IsStep pid t _ k j
]

-- A step that writes one entry, with its effect there.
pub at_one :
    (t u : Table) (i : ℕ) (p : Proc)
    → u i ≡ p
    → ((j : ℕ) → i ≢ j → u j ≡ t j)
    → IsStep (t i) p
    → (j : ℕ) → IsStep (t j) (u j)
at_one t u i p e other s j = elim (ℕ_discrete i j) [
  | yes q ↦ rw (← q) (rw e s)
  | no n ↦ rw (other j n) (stays _ _ refl refl refl)
]

IsReprioritised-state :
    (me : ℕ) (pid new : ℤ) (t : Table) (r : ℤ × Table)
    → (t me).state ≡ running
    → IsReprioritised me pid new t r
    → (j : ℕ) → Allowed (t j).state (r.1 j).state
IsReprioritised-state me pid new t r run₀ s j = elim (ℕ_discrete me j) [
  | yes e ↦ rw (← e) (elim (lt_or_ge new (t s.target).st_priority) [
    | inl l ↦ rw (run₀, s.yields l) preempt
    | inr g ↦ rw (s.stays g) stay
  ])
  | no n ↦ rw (s.other_states j n) stay
]

IsReprioritised-priority :
    (me : ℕ) (pid new : ℤ) (t : Table) (r : ℤ × Table)
    → IsRequest pid new
    → IsReprioritised me pid new t r
    → (j : ℕ) → InRange (t j)
    → InRange (r.1 j)
IsReprioritised-priority me pid new t r q s j h = elim (ℕ_discrete s.target j) [
  | yes e ↦ rw (← e, ap (λ (x : Proc). x.st_priority) s.changed) (q.0, q.1)
  | no n ↦ rw (ap (λ (x : Proc). x.st_priority) (s.others j sleeping n)) h
]

IsReprioritised-pid :
    (me : ℕ) (pid new : ℤ) (t : Table) (r : ℤ × Table)
    → IsReprioritised me pid new t r
    → (j : ℕ) → (r.1 j).pid ≡ (t j).pid
IsReprioritised-pid me pid new t r s j = elim (ℕ_discrete s.target j) [
  | yes e ↦ rw (← e) (ap (λ (x : Proc). x.pid) s.changed)
  | no n ↦ ap (λ (x : Proc). x.pid) (s.others j sleeping n)
]

pub sys_setpriority-IsStep :
    (me : ℕ) (pid new : ℤ) (t : Table)
    → (t me).state ≡ running
    → (j : ℕ) → IsStep (t j) ((sys_setpriority me pid new t).1 j)
sys_setpriority-IsStep me pid new t run₀ j = elim (sys_setpriority-cases me pid new t) [
  | inl (_, e) ↦ rw e (stays _ _ refl refl refl)
  | inr (inl (_, _, e)) ↦ rw e (stays _ _ refl refl refl)
  | inr (inr (q, s)) ↦ record {
    moves = IsReprioritised-state me pid new t _ run₀ s j;
    keeps = IsReprioritised-priority me pid new t _ q s j;
    pid = IsReprioritised-pid me pid new t _ s j;
  }
]

IsExited-IsStep :
    (initproc ticks : ℕ) (status : ℤ) (p : ℕ) (t u : Table)
    → (t p).state ≡ running
    → IsExited initproc ticks status p t u
    → (j : ℕ) → j < nproc
    → IsStep (t j) (u j)
IsExited-IsStep initproc ticks status p t u run₀ x j h = elim (ℕ_discrete p j) [
  | yes e ↦
      rw (← e)
        (record { moves = rw (run₀, x.dead) die; keeps = λ k. rw x.kept k; pid = x.same_pid })
  | no n ↦ IsPassed-IsStep _ _ (x.others j h n)
]

pub exit-IsStep :
    (initproc p ticks : ℕ) (status : ℤ) (t u : Table)
    → p < nproc
    → (t p).state ≡ running
    → exit initproc ticks status p t ≡ some u
    → (j : ℕ) → j < nproc
    → IsStep (t j) (u j)
exit-IsStep initproc p ticks status t u h run₀ e =
    elim (exit-IsExited initproc ticks status p t h) [
      | inl (_, q) ↦ cc
      | inr (_, (v, q, x)) ↦
          let same : v ≡ u = cc in
          IsExited-IsStep initproc ticks status p t u run₀
            (subst (IsExited initproc ticks status p t) same x)
    ]
