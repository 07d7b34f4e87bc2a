-- ===== src/Locks/Nesting.antt =====
-- push_off and pop_off of kernel/spinlock.c are matched.
use cow_pbs_cofee_cafe_icecr.Base.{
  ℕ, ◌+◌, ◌^◌, ◌<◌, ◌≡◌, ◌≢◌, ◌⊎◌, inl, inr, refl, sym, ◌∙◌, ap, arith, Bool, true, false, ◌&&◌,
  ltb, if◌then◌else◌, Option, some, ℤ, pos, ◌+ℤ◌, ◌-ℤ◌, int32, int32-id, pos-add, ltb_ℤ, eqb_ℤ,
  ◌==◌, if_keeps, ℕ_discrete, and_then,
}
use cow_pbs_cofee_cafe_icecr.Locks.{Cpu, push_off, pop_off}

-- A matched sequence of calls: nothing, or a push_off, a matched sequence, its pop_off, and more.
pub data Calls : Type 0 where
  done : Calls
  nest : Calls → Calls → Calls

pub run : Calls → Cpu → Option Cpu
run done c = some c
run (nest a b) c =
    and_then (run a (push_off c)) (λ (d : Cpu). and_then (pop_off d) (λ (e : Cpu). run b e))

-- The larger of two numbers.
abbrev pub larger : ℕ → ℕ → ℕ
larger a b = if ltb a b then b else a

-- How deep the calls nest: sections in sequence count once.
unfoldable pub depth : Calls → ℕ
depth done = 0
depth (nest a b) = larger (depth a + 1) (depth b)

inner_bound : (n a b : ℕ) → n + larger (a + 1) b < 2 ^ 31 → n + 1 + a < 2 ^ 31
inner_bound n a b h = ground arith

later_bound : (n a b : ℕ) → n + larger (a + 1) b < 2 ^ 31 → n + b < 2 ^ 31
later_bound n a b h = ground arith

-- Depth and interrupts are as before; within a section also what pop_off will restore.
pub record IsRestored (c d : Cpu) : Type 0 where
  pub noff : d.noff ≡ c.noff
  pub sie : d.sie ≡ c.sie
  pub intena : c.noff ≢ pos 0 → d.intena ≡ c.intena

-- Interrupts are off inside a section.
abbrev pub IsCpu : ℕ → Cpu → Type 0
IsCpu n c = (c.noff ≡ pos n) × ((n ≡ 0) ⊎ (c.sie ≡ false))

pub truth_apart : true ≢ false
truth_apart e = ground arith

pub pushed-noff :
    (n : ℕ) (c : Cpu) → c.noff ≡ pos n → n + 1 < 2 ^ 31 → (push_off c).noff ≡ pos (n + 1)
unfolding push_off
pushed-noff n c e h =
    ap (λ z. int32 (z +ℤ pos 1)) e
    ∙ ap int32 (pos-add n 1)
    ∙ int32-id (pos (n + 1)) (h, omega arith)

minus_one : (n : ℕ) → pos (n + 1) -ℤ pos 1 ≡ pos n
unfolding ◌-ℤ◌
minus_one n = ground arith

popped-noff : (n : ℕ) (a : ℤ) → a ≡ pos (n + 1) → n + 1 < 2 ^ 31 → int32 (a -ℤ pos 1) ≡ pos n
popped-noff n a e h =
    ap (λ z. int32 (z -ℤ pos 1)) e
    ∙ ap int32 (minus_one n)
    ∙ int32-id (pos n) (omega arith, omega arith)

eqb_zero : (n : ℕ) → eqb_ℤ (pos n) (pos 0) ≡ n == 0
eqb_zero n = ground arith

not_low : (n : ℕ) (a : ℤ) → a ≡ pos (n + 1) → ltb_ℤ a (pos 1) ≡ true → ⊥
not_low n a e z = ground arith

-- pop_off from the depth `n + 1`.
pub pop_off-at :
    (n : ℕ) (d : Cpu)
    → d.sie ≡ false
    → d.noff ≡ pos (n + 1)
    → n + 1 < 2 ^ 31
    → pop_off d ≡ some (record d { noff = pos n; sie = (n == 0) && d.intena })
unfolding pop_off
pop_off-at n d e f h =
    let target : Cpu = record d { noff = pos n; sie = (n == 0) && d.intena } in
    if_keeps (λ r. r ≡ some target) d.sie _ _ (λ z. absurd (truth_apart (sym z ∙ e)))
      (λ z₁.
        if_keeps (λ r. r ≡ some target) (ltb_ℤ d.noff (pos 1)) _ _
          (λ z. absurd (not_low n d.noff f z))
          (λ z.
            ap (λ m. some (record d { noff = m; sie = eqb_ℤ m (pos 0) && d.intena }))
              (popped-noff n d.noff f h)
            ∙ ap (λ b. some (record d { noff = pos n; sie = b && d.intena })) (eqb_zero n)))

saved : (n : ℕ) (c : Cpu) → c.noff ≡ pos n → n ≡ 0 → (push_off c).intena ≡ c.sie
unfolding push_off
saved n c e z = rw (e, z)

not_zero : (n : ℕ) (a : ℤ) → a ≡ pos n → n ≢ 0 → eqb_ℤ a (pos 0) ≡ false
not_zero n a e z = ground arith

kept : (n : ℕ) (c : Cpu) → c.noff ≡ pos n → n ≢ 0 → (push_off c).intena ≡ c.intena
unfolding push_off
kept n c e z = rw (not_zero n c.noff e z)

deep : (n : ℕ) (a : ℤ) → a ≡ pos (n + 1) → a ≢ pos 0
deep n a e z = ground arith

shallow : (n : ℕ) (a : ℤ) → a ≡ pos n → a ≢ pos 0 → n ≢ 0
shallow n a e z q = z (e ∙ ap pos q)

flag_at : (n : ℕ) (b : Bool) → n ≡ 0 → ((n == 0) && b) ≡ b
flag_at n b z = rw z

flag_off : (n : ℕ) (b : Bool) → n ≢ 0 → ((n == 0) && b) ≡ false
flag_off n b z = ground arith

-- After push_off and a matched sequence, pop_off undoes the push_off.
popped :
    (n : ℕ) (c d : Cpu)
    → IsCpu n c
    → n + 1 < 2 ^ 31
    → IsRestored (push_off c) d
    → (e : Cpu) × ((pop_off d ≡ some e) × IsRestored c e)
unfolding push_off
popped n c d (w, off) h r =
    let top : d.noff ≡ pos (n + 1) = r.noff ∙ pushed-noff n c w h in
    let saved_flag : d.intena ≡ (push_off c).intena = r.intena (deep n _ (pushed-noff n c w h)) in
    (
      record d { noff = pos n; sie = (n == 0) && d.intena },
      (
        pop_off-at n d r.sie top h,
        record {
          noff = sym w;
          sie = elim (ℕ_discrete n 0) [
            | yes z ↦ flag_at n d.intena z ∙ saved_flag ∙ saved n c w z
            | no z ↦ flag_off n d.intena z ∙ sym (elim off [ inl q ↦ absurd (z q) | inr q ↦ q ])
          ];
          intena = λ m. saved_flag ∙ kept n c w (shallow n c.noff w m);
        },
      ),
    )

pub push_off-sie : (c : Cpu) → (push_off c).sie ≡ false
unfolding push_off
push_off-sie c = refl

push_off-IsCpu : (n : ℕ) (c : Cpu) → c.noff ≡ pos n → n + 1 < 2 ^ 31 → IsCpu (n + 1) (push_off c)
unfolding push_off
push_off-IsCpu n c e h = (pushed-noff n c e h, inr refl)

restored-IsCpu : (n : ℕ) (c d : Cpu) → IsCpu n c → IsRestored c d → IsCpu n d
restored-IsCpu n c d (e, inl z) r = (r.noff ∙ e, inl z)
restored-IsCpu n c d (e, inr z) r = (r.noff ∙ e, inr (r.sie ∙ z))

IsRestored-trans : (n : ℕ) (c d e : Cpu) → IsRestored c d → IsRestored d e → IsRestored c e
IsRestored-trans n c d e r s = record {
  noff = s.noff ∙ r.noff;
  sie = s.sie ∙ r.sie;
  intena = λ m. s.intena (λ z. m (sym r.noff ∙ z)) ∙ r.intena m;
}

-- A matched sequence of calls of push_off and pop_off on a CPU whose interrupts are on only outside
-- all sections does not panic, as long as the calls nest less than 2 ^ 31 deep, those around the
-- sequence included, and leaves the interrupts and the depth as they were, and within a section
-- also what pop_off will restore.
pub run-IsRestored :
    (w : Calls) (n : ℕ) (c : Cpu)
    → IsCpu n c
    → n + depth w < 2 ^ 31
    → (d : Cpu) × ((run w c ≡ some d) × IsRestored c d)
unfolding run depth
run-IsRestored done n c i h = (c, (refl, record { noff = refl; sie = refl; intena = λ m. refl }))
run-IsRestored (nest a b) n c i h =
    let k : n + 1 + depth a < 2 ^ 31 = inner_bound n (depth a) (depth b) h in
    let (d, (e₁, r₁)) =
      run-IsRestored a (n + 1) (push_off c) (push_off-IsCpu n c i.0 (omega arith)) k in
    let (e, (e₂, r₂)) = popped n c d i (omega arith) r₁ in
    let (f, (e₃, r₃)) =
      run-IsRestored b n e (restored-IsCpu n c e i r₂) (later_bound n (depth a) (depth b) h) in
    (f, (rw (e₁, e₂) e₃, IsRestored-trans n c e f r₂ r₃))
