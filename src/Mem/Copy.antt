-- ===== src/Mem/Copy.antt =====
-- kernel/vm.c: `copyin`, `copyinstr` and `copyout`, between the memory of a process and a buffer of
-- the kernel, which is an array of bytes of its own. Loops have the number of bytes as fuel.
pub mod Fetch
mod Tests
use cow_pbs_cofee_cafe_icecr.Base.{
  ℕ, zero, suc, ◌+◌, ◌-◌, ◌*◌, ◌/◌, ◌%◌, ◌^◌, Bool, true, false, not, ◌&&◌, ◌==◌, ltb, leb,
  if◌then◌else◌, Option, none, some, update, Outcome, panic, ret, ◌>>=◌, ℤ, pos, negsuc,
}
use cow_pbs_cofee_cafe_icecr.Mem.Pages.{Mem, pg_round_down}
use cow_pbs_cofee_cafe_icecr.Mem.Walk.{walk, walkaddr}
use cow_pbs_cofee_cafe_icecr.Mem.Cow.{check_valid_add, resolve}

-- The byte at the address `a`, and its write; byte 0 of a word is its lowest.
abbrev pub byte_at : (ℕ → ℕ) → ℕ → ℕ
byte_at w a = w (a / 8) / 256 ^ (a % 8) % 256

abbrev pub set_byte : ℕ → ℕ → (ℕ → ℕ) → ℕ → ℕ
set_byte a v w =
    update w (a / 8) (w (a / 8) - byte_at w a * 256 ^ (a % 8) + v % 256 * 256 ^ (a % 8))

-- memmove of `n` bytes from the address `src` to the place `dst` of the buffer `k`.
abbrev pub read_bytes : ℕ → ℕ → ℕ → (ℕ → ℕ) → (ℕ → ℕ) → ℕ → ℕ
read_bytes dst src n w k j =
    if leb dst j && ltb j (dst + n) then byte_at w (src + (j - dst)) else k j

-- memmove of `n` bytes from the place `src` of the buffer to the address `dst`.
pub write_bytes : ℕ → ℕ → ℕ → (ℕ → ℕ) → (ℕ → ℕ) → ℕ → ℕ
write_bytes zero dst src k w = w
write_bytes (suc n) dst src k w = write_bytes n (dst + 1) (src + 1) k (set_byte dst (k src) w)

-- The bytes that a round moves: up to the end of the page, but not more than `len`.
abbrev pub chunk : ℕ → ℕ → ℕ
chunk va len = if ltb len (4096 - va % 4096) then len else 4096 - va % 4096

pub copyin_loop : ℕ → ℕ → ℕ → ℕ → ℕ → Mem → (ℕ → ℕ) → Outcome (ℤ × (ℕ → ℕ))
copyin_loop zero pagetable dst srcva len m k = ret (pos 0, k)
copyin_loop (suc fuel) pagetable dst srcva len m k =
    let va0 = pg_round_down srcva in
    let n = chunk srcva len in
    if len == 0
    then ret (pos 0, k)
    else walkaddr pagetable va0 m >>= λ (pa0 : ℕ).
        if pa0 == 0
        then ret (negsuc 0, k)
        else copyin_loop fuel pagetable (dst + n) (va0 + 4096) (len - n) m
            (read_bytes dst (pa0 + (srcva - va0)) n m.word k)

pub copyin : ℕ → ℕ → ℕ → ℕ → Mem → (ℕ → ℕ) → Outcome (ℤ × (ℕ → ℕ))
copyin pagetable dst srcva len m k = copyin_loop len pagetable dst srcva len m k

-- What follows in the round at `dstva`, when an entry that was copy-on-write has got a page of its
-- own: the page is looked up and written.
pub fill_page : ℕ → ℕ → ℕ → ℕ → (ℕ → ℕ) → (Mem → Outcome (ℤ × Mem)) → ℤ × Mem → Outcome (ℤ × Mem)
fill_page pagetable dstva src n k next (negsuc e, m) = ret (negsuc e, m)
fill_page pagetable dstva src n k next (pos z, m) =
    walkaddr pagetable (pg_round_down dstva) m >>= λ (pa0 : ℕ).
    if pa0 == 0
    then ret (negsuc 0, m)
    else next (record m { word = write_bytes n (pa0 + (dstva - pg_round_down dstva)) src k m.word })

pub copyout_loop : ℕ → ℕ → ℕ → ℕ → ℕ → ℕ → (ℕ → ℕ) → Mem → Outcome (ℤ × Mem)
copyout_loop zero kend pagetable dstva src len k m = ret (pos 0, m)
copyout_loop (suc fuel) kend pagetable dstva src len k m =
    let va0 = pg_round_down dstva in
    let n = chunk dstva len in
    if len == 0
    then ret (pos 0, m)
    else if check_valid_add va0
    then ret (negsuc 0, m)
    else (walk pagetable va0 false m >>= resolve kend)
      >>= fill_page pagetable dstva src n k
          (copyout_loop fuel kend pagetable (va0 + 4096) (src + n) (len - n) k)

pub copyout : ℕ → ℕ → ℕ → ℕ → ℕ → (ℕ → ℕ) → Mem → Outcome (ℤ × Mem)
copyout kend pagetable dstva src len k m = copyout_loop len kend pagetable dstva src len k m

-- The inner loop of `copyinstr`, for `n` bytes from the address `p` on: whether it met the end of
-- the string, and the buffer.
pub string_bytes : ℕ → ℕ → ℕ → (ℕ → ℕ) → (ℕ → ℕ) → Bool × (ℕ → ℕ)
string_bytes zero dst p w k = (false, k)
string_bytes (suc n) dst p w k =
    let rest = string_bytes n (dst + 1) (p + 1) w (update k dst (byte_at w p)) in
    if byte_at w p == 0 then (true, update k dst 0) else rest

-- What follows the inner loop: the return, or the next page.
pub string_on : ((ℕ → ℕ) → Outcome (ℤ × (ℕ → ℕ))) → Bool × (ℕ → ℕ) → Outcome (ℤ × (ℕ → ℕ))
string_on next (true, k) = ret (pos 0, k)
string_on next (false, k) = next k

pub copyinstr_loop : ℕ → ℕ → ℕ → ℕ → ℕ → Mem → (ℕ → ℕ) → Outcome (ℤ × (ℕ → ℕ))
copyinstr_loop zero pagetable dst srcva max m k = ret (negsuc 0, k)
copyinstr_loop (suc fuel) pagetable dst srcva max m k =
    let va0 = pg_round_down srcva in
    let n = chunk srcva max in
    if max == 0
    then ret (negsuc 0, k)
    else walkaddr pagetable va0 m >>= λ (pa0 : ℕ).
        if pa0 == 0
        then ret (negsuc 0, k)
        else string_on (copyinstr_loop fuel pagetable (dst + n) (va0 + 4096) (max - n) m)
            (string_bytes n dst (pa0 + (srcva - va0)) m.word k)

pub copyinstr : ℕ → ℕ → ℕ → ℕ → Mem → (ℕ → ℕ) → Outcome (ℤ × (ℕ → ℕ))
copyinstr pagetable dst srcva max m k = copyinstr_loop max pagetable dst srcva max m k
