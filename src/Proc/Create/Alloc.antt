-- ===== src/Proc/Create/Alloc.antt =====
-- The two ways that `allocproc` and `freeproc` of kernel/proc.c leave the process table.
use cow_pbs_cofee_cafe_icecr.Base.{
  ℕ, ◌<◌, ◌≡◌, ◌≢◌, ◌⊎◌, inl, inr, refl, sym, ◌∙◌, ap, arith, true, false, Option, none, some, pos,
  ◌+ℤ◌, int32, ◌==◌, ==_iff, if_keeps, ℕ_discrete, update, update_self, update_other,
}
use cow_pbs_cofee_cafe_icecr.Proc.Defs.{Proc, ProcState, unused, state_eq, Table, nproc}
use cow_pbs_cofee_cafe_icecr.Proc.Table.{IsSearch, find-IsSearch}
use cow_pbs_cofee_cafe_icecr.Proc.Create.{
  Kernel, allocpid, clear, freeproc, claim, start, set_up, set_up_found, allocproc,
}

pub state_of_eq : (s : ProcState) → state_eq s unused ≡ true → s ≡ unused
state_of_eq s e = ground arith

pub eq_of_state : (s : ProcState) → state_eq s unused ≡ false → s ≢ unused
eq_of_state s e q = ground arith

-- No entry in use has changed, and no free entry has come into use.
pub record IsUntouched (t u : Table) : Type 0 where
  pub in_use : (j : ℕ) → (t j).state ≢ unused → u j ≡ t j
  pub free : (j : ℕ) → (t j).state ≡ unused → (u j).state ≡ unused

pub IsUntouched-refl : (t : Table) → IsUntouched t t
IsUntouched-refl t = record { in_use = λ j h. refl; free = λ j h. h }

pub freeproc-state : (i : ℕ) (t : Table) → (freeproc i t i).state ≡ unused
unfolding freeproc clear
freeproc-state i t = ap (λ (p : Proc). p.state) (update_self t i _)

pub freeproc-other : (i : ℕ) (t : Table) (j : ℕ) → i ≢ j → freeproc i t j ≡ t j
unfolding freeproc
freeproc-other i t j n = update_other t i _ j n

-- A free entry that is given up again.
pub freed-IsUntouched :
    (t u : Table) (i : ℕ)
    → (t i).state ≡ unused
    → ((j : ℕ) → i ≢ j → u j ≡ t j)
    → IsUntouched t (freeproc i u)
freed-IsUntouched t u i e h = record {
  in_use = λ j n.
      let m : i ≢ j = λ z. n (ap (λ x. (t x).state) (sym z) ∙ e) in freeproc-other i u j m ∙ h j m;
  free = λ j f. elim (ℕ_discrete i j) [
    | yes z ↦ ap (λ x. (freeproc i u x).state) (sym z) ∙ freeproc-state i u
    | no z ↦ ap (λ (x : Proc). x.state) (freeproc-other i u j z ∙ h j z) ∙ f
  ];
}

-- An entry that was free has been set up, with the pid `nextpid`.
pub record IsStarted (ticks frame table i : ℕ) (k k' : Kernel) : Type 0 where
  pub in_table : i < nproc
  pub was_free : (k.procs i).state ≡ unused
  pub entry : k'.procs i ≡ start ticks table (claim k.nextpid frame (k.procs i))
  pub others : (j : ℕ) → i ≢ j → k'.procs j ≡ k.procs j
  pub next : k'.nextpid ≡ int32 (k.nextpid +ℤ pos 1)
  pub got_frame : frame ≢ 0
  pub got_table : table ≢ 0

-- Why there is no new process.
pub data Lack (frame table : ℕ) (t : Table) : Type 0 where
  no_entry : ((j : ℕ) → j < nproc → (t j).state ≢ unused) → Lack frame table t
  no_frame : frame ≡ 0 → Lack frame table t
  no_table : table ≡ 0 → Lack frame table t

pub record IsRefused (frame table : ℕ) (k k' : Kernel) : Type 0 where
  pub lack : Lack frame table k.procs
  pub untouched : IsUntouched k.procs k'.procs
  pub next : (k'.nextpid ≡ k.nextpid) ⊎ (k'.nextpid ≡ int32 (k.nextpid +ℤ pos 1))

abbrev pub IsAllocated : ℕ → ℕ → ℕ → Kernel → Kernel × Option ℕ → Type 0
IsAllocated ticks frame table k (k', none) = IsRefused frame table k k'
IsAllocated ticks frame table k (k', some i) = IsStarted ticks frame table i k k'

twice : (t : Table) (i : ℕ) (p q : Proc) (j : ℕ) → i ≢ j → update (update t i p) i q j ≡ t j
twice t i p q j n = update_other (update t i p) i q j n ∙ update_other t i p j n

given_up-IsUntouched :
    (t : Table) (i : ℕ) (p : Proc)
    → (t i).state ≡ unused
    → IsUntouched t (freeproc i (update t i p))
given_up-IsUntouched t i p h = freed-IsUntouched t (update t i p) i h (update_other t i p)

set_up-IsAllocated :
    (ticks frame table i : ℕ) (k : Kernel)
    → i < nproc
    → (k.procs i).state ≡ unused
    → IsAllocated ticks frame table k (set_up ticks frame table i k)
unfolding set_up allocpid
set_up-IsAllocated ticks frame table i k h e =
    if_keeps (IsAllocated ticks frame table k) (frame == 0) _ _
      (λ z. record {
        lack = no_frame ((==_iff frame 0).0 z);
        untouched = given_up-IsUntouched k.procs i _ e;
        next = inr refl;
      })
      (λ f.
        if_keeps (IsAllocated ticks frame table k) (table == 0) _ _
          (λ z. record {
            lack = no_table ((==_iff table 0).0 z);
            untouched = given_up-IsUntouched k.procs i _ e;
            next = inr refl;
          })
          (λ g. record {
            in_table = h;
            was_free = e;
            entry =
                update_self (update k.procs i (claim k.nextpid frame (k.procs i))) i _
                ∙ ap (start ticks table)
                    (update_self k.procs i (claim k.nextpid frame (k.procs i)));
            others = λ j n. twice k.procs i _ _ j n;
            next = refl;
            got_frame = λ q. cc (f, (==_iff frame 0).1 q);
            got_table = λ q. cc (g, (==_iff table 0).1 q);
          }))

set_up_found-IsAllocated :
    (ticks frame table : ℕ) (k : Kernel) (r : Option ℕ)
    → IsSearch (λ p. state_eq p.state unused) k.procs 0 nproc r
    → IsAllocated ticks frame table k (set_up_found ticks frame table k r)
unfolding set_up_found
set_up_found-IsAllocated ticks frame table k none s = record {
  lack = no_entry (λ j h. eq_of_state (k.procs j).state (s j (omega arith) h));
  untouched = IsUntouched-refl k.procs;
  next = inl refl;
}
set_up_found-IsAllocated ticks frame table k (some i) s =
    set_up-IsAllocated ticks frame table i k s.below (state_of_eq (k.procs i).state s.passes)

-- `allocproc` sets up a free entry of the table, or says what it lacks and leaves the rest as it
-- was.
pub allocproc-IsAllocated :
    (ticks frame table : ℕ) (k : Kernel)
    → IsAllocated ticks frame table k (allocproc ticks frame table k)
unfolding allocproc
allocproc-IsAllocated ticks frame table k =
    set_up_found-IsAllocated ticks frame table k _ (find-IsSearch nproc 0 nproc _ k.procs refl)
