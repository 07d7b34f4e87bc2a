-- ===== src/Proc/Priority/Bounds.antt =====
-- The values that the priority formulas of kernel/proc.c take.
use cow_pbs_cofee_cafe_icecr.Base.{
  ℕ, ◌+◌, ◌-◌, ◌*◌, ◌/◌, ◌^◌, ◌≤◌, ◌<◌, ◌≡◌, arith, pos, sub_ℕ, ◌+ℤ◌, ◌-ℤ◌, ◌*ℤ◌, quot, int32,
  int32-id, pos-sub_ℕ, sub_ℕ-sub, sub_ℕ-mul_50, sub_ℕ-IsInt32, pos-add, pos-mul,
}
use cow_pbs_cofee_cafe_icecr.Proc.Priority.{max, min, rbi_formula, rbi_calculator, dp_calc}
use cow_pbs_cofee_cafe_icecr.Proc.Defs.{Proc}

numerator :
    (r s w : ℕ)
    → r < 2 ^ 20
    → s < 2 ^ 20
    → w < 2 ^ 20
    → int32 (int32 (int32 (int32 (pos 3 *ℤ pos r) -ℤ pos s) -ℤ pos w) *ℤ pos 50)
      ≡ sub_ℕ (3 * r * 50) ((s + w) * 50)
numerator r s w hr hs hw = rw (
  pos-mul 3 r,
  int32-id (pos (3 * r)) (omega arith),
  pos-sub_ℕ (3 * r) s,
  int32-id (sub_ℕ (3 * r) s) (sub_ℕ-IsInt32 _ _ (omega arith) (omega arith)),
  sub_ℕ-sub (3 * r) s w,
  int32-id (sub_ℕ (3 * r) (s + w)) (sub_ℕ-IsInt32 _ _ (omega arith) (omega arith)),
  sub_ℕ-mul_50 (3 * r) (s + w),
  int32-id (sub_ℕ (3 * r * 50) ((s + w) * 50)) (sub_ℕ-IsInt32 _ _ (omega arith) (omega arith)),
)

denominator :
    (r s w : ℕ)
    → r < 2 ^ 20
    → s < 2 ^ 20
    → w < 2 ^ 20
    → int32 (int32 (int32 (pos r +ℤ pos w) +ℤ pos s) +ℤ pos 1) ≡ pos (r + w + s + 1)
denominator r s w hr hs hw = rw (
  pos-add r w,
  int32-id (pos (r + w)) (omega arith),
  pos-add (r + w) s,
  int32-id (pos (r + w + s)) (omega arith),
  pos-add (r + w + s) 1,
  int32-id (pos (r + w + s + 1)) (omega arith),
)

-- Division towards zero by a positive number, of a difference.
quot-sub_ℕ : (a b d : ℕ) → 0 < d → quot (sub_ℕ a b) (pos d) ≡ sub_ℕ ((a - b) / d) ((b - a) / d)
unfolding quot
quot-sub_ℕ a b d hd = ground arith

-- The quotient is that of the truncated difference, once `max` has cut it off at 0.
max-sub_ℕ : (a b : ℕ) → max (sub_ℕ a b) (pos 0) ≡ pos (a - b)
unfolding max
max-sub_ℕ a b = ground arith

div-le : (a d : ℕ) → 0 < d → a / d ≤ a
div-le a d h = grind arith

div-div_sub : (a b d : ℕ) → 0 < d → (a - b) / d - (b - a) / d ≡ (a - b) / d
div-div_sub a b d h = ground arith

max-quot :
    (a b d : ℕ)
    → a < 2 ^ 31
    → b ≤ 2 ^ 31
    → 0 < d
    → max (int32 (quot (sub_ℕ a b) (pos d))) (pos 0) ≡ pos ((a - b) / d)
max-quot a b d ha hb hd = rw (
  quot-sub_ℕ a b d hd,
  int32-id (sub_ℕ ((a - b) / d) ((b - a) / d))
      (sub_ℕ-IsInt32 _ _ (omega (arith, div-le (a - b) d hd)) (omega (arith, div-le (b - a) d hd))),
  max-sub_ℕ ((a - b) / d) ((b - a) / d),
  div-div_sub a b d hd,
)

-- 150 bounds the formula.
value-lt : (r s w : ℕ) → (3 * r - (s + w)) * 50 / (r + w + s + 1) < 150
value-lt r s w = grind arith

formula :
    (r s w : ℕ)
    → r < 2 ^ 20
    → s < 2 ^ 20
    → w < 2 ^ 20
    → max (rbi_formula (pos r) (pos s) (pos w)) (pos 0)
      ≡ pos ((3 * r - (s + w)) * 50 / (r + w + s + 1))
unfolding rbi_formula
formula r s w hr hs hw =
    rw (numerator r s w hr hs hw, denominator r s w hr hs hw)
      (let e : 3 * r * 50 - (s + w) * 50 ≡ (3 * r - (s + w)) * 50 = omega arith in
        rw
          (max-quot (3 * r * 50) ((s + w) * 50) (r + w + s + 1) (omega arith) (omega arith)
            (omega arith))
          (rw e))

-- While the times stay below 2 ^ 20 ticks, what `rbi_calculator` returns and stores is the formula
-- of the report, cut off at 0: no `int` operation wraps and no division is by 0. It is below 150.
pub rbi_calculator-formula :
    (p : Proc) (r s w : ℕ)
    → p.running_time ≡ pos r
    → p.sleep_time ≡ pos s
    → p.wait_time ≡ pos w
    → r < 2 ^ 20
    → s < 2 ^ 20
    → w < 2 ^ 20
    → (rbi_calculator p ≡ (
      pos ((3 * r - (s + w)) * 50 / (r + w + s + 1)),
      record p { rbi = pos ((3 * r - (s + w)) * 50 / (r + w + s + 1)) },
    ))
      × ((3 * r - (s + w)) * 50 / (r + w + s + 1) < 150)
unfolding rbi_calculator
rbi_calculator-formula p r s w er es ew hr hs hw =
    let v : ℕ = (3 * r - (s + w)) * 50 / (r + w + s + 1) in
    let e : max (rbi_formula p.running_time p.sleep_time p.wait_time) (pos 0) ≡ pos v =
      rw (er, es, ew) (formula r s w hr hs hw) in
    (cc, value-lt r s w)

-- With the same bounds on the times and a static priority of at most 100, `dp_calc` returns the sum
-- of the static priority and the `rbi`, whatever its size: `min` does not cut it off at 100.
pub dp_calc-sum :
    (p : Proc) (a r s w : ℕ)
    → p.st_priority ≡ pos a
    → p.running_time ≡ pos r
    → p.sleep_time ≡ pos s
    → p.wait_time ≡ pos w
    → a ≤ 100
    → r < 2 ^ 20
    → s < 2 ^ 20
    → w < 2 ^ 20
    → (dp_calc p).0 ≡ pos (a + (3 * r - (s + w)) * 50 / (r + w + s + 1))
unfolding dp_calc min
dp_calc-sum p a r s w ea er es ew ha hr hs hw =
    let v : ℕ = (3 * r - (s + w)) * 50 / (r + w + s + 1) in
    rw
      (
        (rbi_calculator-formula p r s w er es ew hr hs hw).0,
        ea,
        pos-add a v,
        int32-id (pos (a + v)) (omega (arith, value-lt r s w)),
      )
      (ground arith)
