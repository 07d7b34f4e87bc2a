-- ===== src/Proc/Wait/Children.antt =====
-- What the loop over the table in `wait` and `waitx` of kernel/proc.c finds.
use cow_pbs_cofee_cafe_icecr.Base.{
  ℕ, zero, suc, ◌+◌, ◌<◌, ◌≤◌, ◌≡◌, ◌≢◌, ◌⊎◌, inl, inr, refl, ap, arith, Bool, true, false, ◌&&◌,
  ◌||◌, Option, none, some, ==_iff, if_keeps, ℕ_discrete,
}
use cow_pbs_cofee_cafe_icecr.Proc.Defs.{Proc, ProcState, zombie, state_eq, Table}
use cow_pbs_cofee_cafe_icecr.Proc.Exit.{is_parent}
use cow_pbs_cofee_cafe_icecr.Proc.Wait.{Scan, reached, passed, find_zombie}

pub record IsDead (me : ℕ) (p : Proc) : Type 0 where
  pub child : p.parent ≡ some me
  pub dead : p.state ≡ zombie

-- The first zombie child of `me` in the range.
pub record IsFirst (me : ℕ) (t : Table) (lo hi k : ℕ) : Type 0 where
  pub from : lo ≤ k
  pub below : k < hi
  pub found : IsDead me (t k)
  pub earliest : (j : ℕ) → lo ≤ j → j < k → ¬ IsDead me (t j)

-- There is none, and `h` tells whether there is a child.
pub record IsNone (me : ℕ) (t : Table) (lo hi : ℕ) (before h : Bool) : Type 0 where
  pub alive : (j : ℕ) → lo ≤ j → j < hi → ¬ IsDead me (t j)
  pub kids : h ≡ true → (before ≡ true) ⊎ ((j : ℕ) × (j < hi) × ((t j).parent ≡ some me))
  pub childless : h ≡ false → (j : ℕ) → lo ≤ j → j < hi → (t j).parent ≢ some me
  pub fresh : h ≡ false → before ≡ false

abbrev pub IsScan : ℕ → Table → ℕ → ℕ → Bool → Scan → Type 0
IsScan me t lo hi before (reached k) = IsFirst me t lo hi k
IsScan me t lo hi before (passed h) = IsNone me t lo hi before h

child_of : (o : Option ℕ) (me : ℕ) → is_parent o me ≡ true → o ≡ some me
child_of none me e = ground arith
child_of (some j) me e = ap some ((==_iff j me).0 e)

of_child : (o : Option ℕ) (me : ℕ) → o ≡ some me → is_parent o me ≡ true
of_child o me e = rw (e, (==_iff me me).1 refl)

zombie_of : (s : ProcState) → state_eq s zombie ≡ true → s ≡ zombie
zombie_of s e = ground arith

parts : (a b : Bool) → (a && b) ≡ true → (a ≡ true) × (b ≡ true)
parts a b e = ground arith

not_both : (a b : Bool) → (a && b) ≡ false → a ≡ true → b ≡ true → ⊥
not_both a b e h k = ground arith

either : (a b : Bool) → (a || b) ≡ true → (a ≡ true) ⊎ (b ≡ true)
either a b e = ground arith

neither : (a b : Bool) → (a || b) ≡ false → (a ≡ false) × (b ≡ false)
neither a b e = ground arith

not_child : (o : Option ℕ) (me : ℕ) → is_parent o me ≡ false → o ≢ some me
not_child o me e q = cc (e, of_child o me q)

IsDead-of :
    (me : ℕ) (p : Proc) → (is_parent p.parent me && state_eq p.state zombie) ≡ true → IsDead me p
IsDead-of me p e =
    let a = parts (is_parent p.parent me) (state_eq p.state zombie) e in
    record { child = child_of p.parent me a.0; dead = zombie_of p.state a.1 }

not-IsDead :
    (me : ℕ) (p : Proc) → (is_parent p.parent me && state_eq p.state zombie) ≡ false → ¬ IsDead me p
not-IsDead me p e d =
    not_both _ _ e (of_child p.parent me d.child) (ap (λ x. state_eq x zombie) d.dead)

-- The entry `lo`, which is not a zombie child, before the rest of the range.
IsScan-later :
    (me : ℕ) (t : Table) (lo hi : ℕ) (before : Bool) (r : Scan)
    → lo < hi
    → ¬ IsDead me (t lo)
    → IsScan me t (lo + 1) hi (is_parent (t lo).parent me || before) r
    → IsScan me t lo hi before r
IsScan-later me t lo hi before (reached k) l n s = record {
  from = omega (arith, s.from);
  below = s.below;
  found = s.found;
  earliest = λ j h m. elim (ℕ_discrete lo j) [
    | yes q ↦ λ d. n (rw q d)
    | no q ↦ s.earliest j (omega arith) m
  ];
}
IsScan-later me t lo hi before (passed h) l n s = record {
  alive = λ j g m. elim (ℕ_discrete lo j) [
    | yes q ↦ λ d. n (rw q d)
    | no q ↦ s.alive j (omega arith) m
  ];
  kids = λ e. elim (s.kids e) [
    | inl o ↦ elim (either (is_parent (t lo).parent me) before o) [
      | inl a ↦ inr (lo, l, child_of (t lo).parent me a)
      | inr b ↦ inl b
    ]
    | inr c ↦ inr c
  ];
  childless = λ e j g m. elim (ℕ_discrete lo j) [
    | yes q ↦ rw (← q) (not_child (t lo).parent me (neither _ before (s.fresh e)).0)
    | no q ↦ s.childless e j (omega arith) m
  ];
  fresh = λ e. (neither (is_parent (t lo).parent me) before (s.fresh e)).1;
}

pub find_zombie-IsScan :
    (n lo hi : ℕ) (before : Bool) (me : ℕ) (t : Table)
    → lo + n ≡ hi
    → IsScan me t lo hi before (find_zombie n lo before me t)
unfolding find_zombie
find_zombie-IsScan zero lo hi before me t e = record {
  alive = λ j g m. absurd (omega arith);
  kids = λ h. inl h;
  childless = λ h j g m. absurd (omega arith);
  fresh = λ h. h;
}
find_zombie-IsScan (suc n) lo hi before me t e =
    if_keeps (IsScan me t lo hi before) (is_parent (t lo).parent me && state_eq (t lo).state zombie)
      _ _
      (λ z. record {
        from = omega arith;
        below = omega arith;
        found = IsDead-of me (t lo) z;
        earliest = λ j h m. absurd (omega arith);
      })
      (λ z. IsScan-later me t lo hi before _ (omega arith) (not-IsDead me (t lo) z) (
        find_zombie-IsScan n (lo + 1) hi (is_parent (t lo).parent me || before) me t (omega arith)))
