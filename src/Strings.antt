-- ===== src/Strings.antt =====
-- kernel/string.c, on a memory of bytes: the functions that move, fill, compare and copy bytes. A
-- byte is below 256, and the ranges that a call names do not reach the end of the address space.
pub mod Move
pub mod Compare
pub mod Length
mod Tests
use cow_pbs_cofee_cafe_icecr.Base.{
  ℕ, zero, suc, ◌+◌, ◌-◌, ◌%◌, Bool, true, false, ◌&&◌, not, ◌==◌, ltb, if◌then◌else◌, Option, none,
  some, ℤ, pos, ◌-ℤ◌, update,
}

-- memset: the loop for the `n` bytes from `i` on.
pub fill : ℕ → ℕ → ℕ → ℕ → (ℕ → ℕ) → ℕ → ℕ
fill zero i dst c mem = mem
fill (suc n) i dst c mem = fill n (i + 1) dst c (update mem (dst + i) (c % 256))

pub memset : ℕ → ℕ → ℕ → (ℕ → ℕ) → ℕ → ℕ
memset dst c n mem = fill n 0 dst c mem

pub memcmp : ℕ → ℕ → ℕ → (ℕ → ℕ) → ℤ
memcmp s1 s2 zero mem = pos 0
memcmp s1 s2 (suc n) mem = elim (mem s1 == mem s2) [
  | true ↦ memcmp (s1 + 1) (s2 + 1) n mem
  | false ↦ pos (mem s1) -ℤ pos (mem s2)
]

-- The two loops of memmove, from the last byte down and from the first up.
pub move_down : ℕ → ℕ → ℕ → (ℕ → ℕ) → ℕ → ℕ
move_down d s zero mem = mem
move_down d s (suc n) mem = move_down d s n (update mem (d + n) (mem (s + n)))

pub move_up : ℕ → ℕ → ℕ → (ℕ → ℕ) → ℕ → ℕ
move_up d s zero mem = mem
move_up d s (suc n) mem = move_up (d + 1) (s + 1) n (update mem d (mem s))

pub memmove : ℕ → ℕ → ℕ → (ℕ → ℕ) → ℕ → ℕ
memmove dst src n mem =
    if n == 0
    then mem
    else if ltb src dst && ltb dst (src + n)
    then move_down dst src n mem
    else move_up dst src n mem

pub memcpy : ℕ → ℕ → ℕ → (ℕ → ℕ) → ℕ → ℕ
memcpy dst src n mem = memmove dst src n mem

-- The loop goes on over equal bytes that are not 0.
pub strncmp : ℕ → ℕ → ℕ → (ℕ → ℕ) → ℤ
strncmp p q zero mem = pos 0
strncmp p q (suc n) mem =
    let rest = strncmp (p + 1) (q + 1) n mem in
    if not (mem p == 0) && mem p == mem q then rest else pos (mem p) -ℤ pos (mem q)

-- The second loop of strncpy.
pub pad : ℕ → ℕ → (ℕ → ℕ) → ℕ → ℕ
pad zero s mem = mem
pad (suc n) s mem = pad n (s + 1) (update mem s 0)

pub strncpy : ℕ → ℕ → ℕ → (ℕ → ℕ) → ℕ → ℕ
strncpy s t zero mem = mem
strncpy s t (suc n) mem = elim (mem t == 0) [
  | true ↦ pad n (s + 1) (update mem s (mem t))
  | false ↦ strncpy (s + 1) (t + 1) n (update mem s (mem t))
]

-- The loop of safestrcpy, with room for `n` more bytes before the last; then the byte 0. After
-- a byte 0 it stands behind that byte.
pub safe_copy : ℕ → ℕ → ℕ → (ℕ → ℕ) → ℕ → ℕ
safe_copy s t zero mem = update mem s 0
safe_copy s t (suc n) mem = elim (mem t == 0) [
  | true ↦ update (update mem s (mem t)) (s + 1) 0
  | false ↦ safe_copy (s + 1) (t + 1) n (update mem s (mem t))
]

-- `n` is the size, 0 also for a negative one.
pub safestrcpy : ℕ → ℕ → ℕ → (ℕ → ℕ) → ℕ → ℕ
safestrcpy s t zero mem = mem
safestrcpy s t (suc n) mem = safe_copy s t n mem

-- strlen, with at most `fuel` rounds; none if they are not enough.
pub length_from : ℕ → ℕ → ℕ → (ℕ → ℕ) → Option ℕ
length_from zero n s mem = none
length_from (suc fuel) n s mem =
    let rest = length_from fuel (n + 1) s mem in if mem (s + n) == 0 then some n else rest

pub strlen : ℕ → ℕ → (ℕ → ℕ) → Option ℕ
strlen fuel s mem = length_from fuel 0 s mem
