-- ===== src/Strings/Tests.antt =====
-- Concrete inputs of kernel/string.c: two strings in one memory, and overlapping ranges.
use cow_pbs_cofee_cafe_icecr.Base.{ℕ, ◌≡◌, refl, some, pos, negsuc, ◌-ℤ◌, update}
use cow_pbs_cofee_cafe_icecr.Strings.{
  memset, fill, memcmp, memmove, move_down, strncmp, strncpy, pad, safestrcpy, safe_copy, strlen,
  length_from,
}
use cow_pbs_cofee_cafe_icecr.Strings.Move.{IsCopied, memmove-IsCopied}

-- "ab" at 10 and "ac" at 20, and zeros.
abbrev memory : ℕ → ℕ
memory = update (update (update (update (λ a. 0) 10 97) 11 98) 20 97) 21 99

memmove-IsCopied_example : IsCopied 11 10 3 memory (memmove 11 10 3 memory)
memmove-IsCopied_example = memmove-IsCopied 11 10 3 memory

moved : memmove 11 10 3 memory 12 ≡ 98
unfolding memmove move_down
moved = refl

differ : strncmp 10 20 3 memory ≡ negsuc 0
unfolding strncmp ◌-ℤ◌
differ = refl

begin_alike : strncmp 10 20 1 memory ≡ pos 0
unfolding strncmp
begin_alike = refl

compared : memcmp 21 11 2 memory ≡ pos 1
unfolding memcmp ◌-ℤ◌
compared = refl

long : strlen 9 20 memory ≡ some 2
unfolding strlen length_from
long = refl

padded : strncpy 30 10 5 (memset 30 7 9 memory) 34 ≡ 0
unfolding strncpy pad memset fill
padded = refl

cut : safestrcpy 30 10 2 (memset 30 7 9 memory) 31 ≡ 0
unfolding safestrcpy safe_copy memset fill
cut = refl
