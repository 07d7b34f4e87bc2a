-- ===== src/Base/Int.antt =====
-- Signed integers over the native numbers, and the wrap-around of a C `int`.
use Prim.Native.Nat.{ℕ, suc, ◌+◌, ◌-◌, ◌*◌, ◌/◌, ◌%◌, ◌^◌, ◌≤◌, ◌<◌}
use mathlib.Core.Path.{◌≡◌}
use mathlib.Core.Bool.{Bool}
use native.Mathlib.Omega.{arith}
use cow_pbs_cofee_cafe_icecr.Base.Tests.{ltb, leb, ◌==◌, if◌then◌else◌}

-- `negsuc n` is -(n + 1).
pub data ℤ : Type 0 where
  pos : ℕ → ℤ
  negsuc : ℕ → ℤ

abbrev pub pos_part : ℤ → ℕ
pos_part (pos n) = n
pos_part (negsuc n) = 0

abbrev pub neg_part : ℤ → ℕ
neg_part (pos n) = 0
neg_part (negsuc n) = suc n

-- a - b, as an integer.
abbrev pub sub_ℕ : ℕ → ℕ → ℤ
sub_ℕ a b = if leb b a then pos (a - b) else negsuc (b - a - 1)

infixl 65 ◌+ℤ◌ ◌-ℤ◌
infixl 70 ◌*ℤ◌
infix 50 ◌≤ℤ◌ ◌<ℤ◌
unfoldable pub ◌+ℤ◌ : ℤ → ℤ → ℤ
a +ℤ b = sub_ℕ (pos_part a + pos_part b) (neg_part a + neg_part b)

unfoldable pub ◌-ℤ◌ : ℤ → ℤ → ℤ
a -ℤ b = sub_ℕ (pos_part a + neg_part b) (neg_part a + pos_part b)

unfoldable pub ◌*ℤ◌ : ℤ → ℤ → ℤ
a *ℤ b =
    sub_ℕ (pos_part a * pos_part b + neg_part a * neg_part b)
      (pos_part a * neg_part b + neg_part a * pos_part b)

abbrev pub ◌≤ℤ◌ : ℤ → ℤ → Type 0
a ≤ℤ b = pos_part a + neg_part b ≤ pos_part b + neg_part a

abbrev pub ◌<ℤ◌ : ℤ → ℤ → Type 0
a <ℤ b = pos_part a + neg_part b < pos_part b + neg_part a

abbrev pub ltb_ℤ : ℤ → ℤ → Bool
ltb_ℤ a b = ltb (pos_part a + neg_part b) (pos_part b + neg_part a)

abbrev pub eqb_ℤ : ℤ → ℤ → Bool
eqb_ℤ a b = pos_part a + neg_part b == pos_part b + neg_part a

-- Division of C, towards zero; by zero it gives -1, as the RISC-V instruction does.
unfoldable pub quot : ℤ → ℤ → ℤ
quot a (pos d) = if d == 0 then negsuc 0 else sub_ℕ (pos_part a / d) (neg_part a / d)
quot a (negsuc d) = sub_ℕ (neg_part a / suc d) (pos_part a / suc d)

-- A 32-bit word read as a two's complement `int`.
unfoldable pub int32 : ℤ → ℤ
int32 a =
    let w = (pos_part a + (2 ^ 32 - neg_part a % 2 ^ 32)) % 2 ^ 32 in
    if ltb w (2 ^ 31) then pos w else negsuc (2 ^ 32 - 1 - w)

-- The value is one of an `int`.
abbrev pub IsInt32 : ℤ → Type 0
IsInt32 a = (pos_part a < 2 ^ 31) × (neg_part a ≤ 2 ^ 31)

pub int32-id : (a : ℤ) → IsInt32 a → int32 a ≡ a
unfolding int32
int32-id (pos n) h = ground arith
int32-id (negsuc n) h = ground arith

pub int32-IsInt32 : (a : ℤ) → IsInt32 (int32 a)
unfolding int32
int32-IsInt32 a = ground arith

pub +ℤ_parts :
    (a b : ℤ)
    → pos_part (a +ℤ b) + neg_part a + neg_part b ≡ neg_part (a +ℤ b) + pos_part a + pos_part b
unfolding ◌+ℤ◌
+ℤ_parts a b = ground arith

-- Sums and products of differences.
pub pos-sub_ℕ : (a b : ℕ) → pos a -ℤ pos b ≡ sub_ℕ a b
unfolding ◌-ℤ◌
pos-sub_ℕ a b = ground arith

pub sub_ℕ-sub : (a b c : ℕ) → sub_ℕ a b -ℤ pos c ≡ sub_ℕ a (b + c)
unfolding ◌-ℤ◌
sub_ℕ-sub a b c = ground arith

pub sub_ℕ-mul_50 : (a b : ℕ) → sub_ℕ a b *ℤ pos 50 ≡ sub_ℕ (a * 50) (b * 50)
unfolding ◌*ℤ◌
sub_ℕ-mul_50 a b = ground arith

pub sub_ℕ-IsInt32 : (a b : ℕ) → a < 2 ^ 31 → b ≤ 2 ^ 31 → IsInt32 (sub_ℕ a b)
sub_ℕ-IsInt32 a b h k = ground arith

pub pos-add : (a b : ℕ) → pos a +ℤ pos b ≡ pos (a + b)
unfolding ◌+ℤ◌
pos-add a b = ground arith

pub pos-mul : (a b : ℕ) → pos a *ℤ pos b ≡ pos (a * b)
unfolding ◌*ℤ◌
pos-mul a b = ground arith
