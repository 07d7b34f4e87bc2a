-- ===== src/Files/Counts.antt =====
-- The count of each file of kernel/file.c is the number of pointers that are held to it.
use cow_pbs_cofee_cafe_icecr.Base.{
  ℕ, zero, suc, ◌+◌, ◌-◌, ◌^◌, ◌<◌, ◌≤◌, ◌≡◌, inl, inr, sym, ◌∙◌, ap, subst, arith, true, false,
  Option, some, ℤ, pos, ◌+ℤ◌, ◌-ℤ◌, int32, int32-id, pos-add, ltb_ℤ, eqb_ℤ, ◌==◌, not,
  if◌then◌else◌, if_keeps, Bool-cases, ℕ_discrete, update, update_self, update_other,
}
use cow_pbs_cofee_cafe_icecr.Files.{
  File, fd_none, alloc_from, filedup, Closing, nothing, closing, fileclose, Files,
}

pub record IsCounted (n : ℕ) (s : Files) : Type 0 where
  pub counts : (f : ℕ) → (s.table f).ref ≡ pos (s.held f)
  pub bound : (f : ℕ) → s.held f ≤ n

-- One entry and its number of pointers change together.
pub moved :
    (n m : ℕ) (s : Files) (f : ℕ) (p : File) (h : ℕ)
    → IsCounted n s
    → p.ref ≡ pos h
    → n ≤ m
    → h ≤ m
    → IsCounted m (record { table = update s.table f p; held = update s.held f h })
moved n m s f p h c e k l = record {
  counts = λ g. elim (ℕ_discrete f g) [
    | yes q ↦
        ap (λ x. (update s.table f p x).ref) (sym q)
        ∙ ap (λ (x : File). x.ref) (update_self s.table f p)
        ∙ e
        ∙ ap pos (sym (update_self s.held f h))
        ∙ ap (λ x. pos (update s.held f h x)) q
    | no m ↦
        ap (λ (x : File). x.ref) (update_other s.table f p g m)
        ∙ c.counts g
        ∙ ap pos (sym (update_other s.held f h g m))
  ];
  bound = λ g. elim (ℕ_discrete f g) [
    | yes q ↦ subst (λ x. x ≤ m) (sym (update_self s.held f h) ∙ ap (update s.held f h) q) l
    | no z ↦ subst (λ x. x ≤ m) (sym (update_other s.held f h g z)) (omega (arith, c.bound g))
  ];
}

-- filealloc raises the count of a free file to 1.
pub record IsTaken (t : ℕ → File) (f : ℕ) (u : ℕ → File) : Type 0 where
  pub free : (t f).ref ≡ pos 0
  pub written : u ≡ update t f (record (t f) { ref = pos 1 })

zero_of : (a : ℤ) → eqb_ℤ a (pos 0) ≡ true → a ≡ pos 0
zero_of a e = ground arith

pub alloc_from-IsTaken :
    (n i : ℕ) (t : ℕ → File) (f : ℕ) (u : ℕ → File) → alloc_from n i t ≡ (some f, u) → IsTaken t f u
unfolding alloc_from
alloc_from-IsTaken zero i t f u = λ e. absurd (cc e)
alloc_from-IsTaken (suc n) i t f u =
    if_keeps (λ r. r ≡ (some f, u) → IsTaken t f u) (eqb_ℤ (t i).ref (pos 0)) _ _
      (λ z e.
        let q : i ≡ f = cc in
        subst (λ x. IsTaken t x u) q
          (record {
            free = zero_of (t i).ref z;
            written = sym (ap (λ (x : Option ℕ × (ℕ → File)). x.1) e);
          }))
      (λ z. alloc_from-IsTaken n (i + 1) t f u)

low : (a : ℤ) (h : ℕ) → a ≡ pos h → 0 < h → ltb_ℤ a (pos 1) ≡ false
low a h e k = ground arith

pub raised : (a : ℤ) (h : ℕ) → a ≡ pos h → h + 1 < 2 ^ 31 → int32 (a +ℤ pos 1) ≡ pos (h + 1)
raised a h e k =
    ap (λ z. int32 (z +ℤ pos 1)) e
    ∙ ap int32 (pos-add h 1)
    ∙ int32-id (pos (h + 1)) (k, omega arith)

minus_one : (h : ℕ) → 0 < h → pos h -ℤ pos 1 ≡ pos (h - 1)
unfolding ◌-ℤ◌
minus_one h k = ground arith

lowered : (a : ℤ) (h : ℕ) → a ≡ pos h → 0 < h → h < 2 ^ 31 → int32 (a -ℤ pos 1) ≡ pos (h - 1)
lowered a h e l k =
    ap (λ z. int32 (z -ℤ pos 1)) e
    ∙ ap int32 (minus_one h l)
    ∙ int32-id (pos (h - 1)) (omega arith, omega arith)

-- filedup of a file that is held does not panic.
pub dup_held :
    (f h : ℕ) (t : ℕ → File)
    → (t f).ref ≡ pos h
    → 0 < h
    → filedup f t ≡ some (update t f (record (t f) { ref = int32 ((t f).ref +ℤ pos 1) }))
unfolding filedup
dup_held f h t e k = rw (low (t f).ref h e k)

-- What fileclose does with a file to which there are `h` pointers.
unfoldable pub close_one : ℕ → File → Closing × File
close_one h p =
    if h == 1
    then (closing p p.type, record p { ref = pos 0; type = fd_none })
    else (nothing, record p { ref = pos (h - 1) })

more : (h : ℕ) → 0 < h → ltb_ℤ (pos 0) (pos (h - 1)) ≡ not (h == 1)
more h k = ground arith

pub close_held :
    (f h : ℕ) (t : ℕ → File)
    → (t f).ref ≡ pos h
    → 0 < h
    → h < 2 ^ 31
    → fileclose f t ≡ some ((close_one h (t f)).0, update t f (close_one h (t f)).1)
unfolding fileclose close_one
close_held f h t e k l = elim (Bool-cases (h == 1)) [
  | inl z ↦ rw (low (t f).ref h e k, lowered (t f).ref h e k l, more h k, z)
  | inr z ↦ rw (low (t f).ref h e k, lowered (t f).ref h e k l, more h k, z)
]
