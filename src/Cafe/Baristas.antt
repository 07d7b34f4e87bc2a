-- ===== src/Cafe/Baristas.antt =====
-- concurrency/1.c: `free_barista`, and the loop of `main` that links the free baristas.
mod Scan
pub mod Order
pub mod Skip
use cow_pbs_cofee_cafe_icecr.Base.{
  ℕ, zero, suc, ◌+◌, ◌-◌, ◌<◌, ◌≤◌, ◌≡◌, ◌≢◌, inl, inr, refl, arith, Bool, true, false, ◌||◌, not,
  ◌==◌, ==_iff, Option, none, some, ℤ, ltb_ℤ, Bool-cases, ℕ_discrete, update, update_self,
  update_other, ◌∙◌, ap, sym,
}
use cow_pbs_cofee_cafe_icecr.Cafe.Arrivals.{nth_from, first_from}

-- `finish_time_order[i] <= tmr`
unfoldable pub is_idle : (ℕ → ℤ) → ℤ → ℕ → Bool
is_idle finish tmr i = not (ltb_ℤ tmr (finish i))

-- The condition of free_barista, by the barista and its special flag.
abbrev pub idle_or_special : (ℕ → ℤ) → ℤ → ℕ → Bool → Bool
idle_or_special finish tmr i special = is_idle finish tmr i || special

-- A condition at the flags as they are.
abbrev pub is_free : (ℕ → Bool → Bool) → (ℕ → Bool) → ℕ → Bool
is_free free special i = free i (special i)

-- The loop, for the `n` places from `i` on and any condition; the flags change on the way.
unfoldable pub free_from : ℕ → ℕ → ℕ → (ℕ → Bool → Bool) → (ℕ → Bool) → Option ℕ × (ℕ → Bool)
free_from zero number i free special = (none, special)
free_from (suc n) number i free special = elim (is_free free special i) [
  | true ↦ elim (number == 1) [
    | true ↦ (some i, update special i false)
    | false ↦ free_from n (number - 1) (i + 1) free (update special i false)
  ]
  | false ↦ free_from n number (i + 1) free special
]

unfoldable pub free_barista : (ℕ → ℤ) → ℤ → ℕ → ℕ → (ℕ → Bool) → Option ℕ × (ℕ → Bool)
free_barista finish tmr number b special = free_from b number 0 (idle_or_special finish tmr) special

-- The loop of `main` on `temp` with at most `fuel` rounds; none if they are not enough.
unfoldable pub link_baristas :
    ℕ
    → (ℕ → (ℕ → Bool) → Option ℕ × (ℕ → Bool))
    → ℕ
    → Option ℕ
    → (ℕ → Bool)
    → (ℕ → Option ℕ)
    → Option ((ℕ → Bool) × (ℕ → Option ℕ))
link_baristas fuel search count none special wake = some (special, wake)
link_baristas zero search count (some temp) special wake = none
link_baristas (suc fuel) search count (some temp) special wake =
    let r = search count special in
    link_baristas fuel search (count + 1) r.0 r.1 (update wake temp r.0)
