-- ===== src/Pipe.antt =====
-- kernel/pipe.c: the ring of a pipe, and the loops of pipewrite and piperead up to where they sleep
-- or return.
pub mod Queue
pub mod Write
pub mod Read
pub mod RoundTrip
mod Tests
use cow_pbs_cofee_cafe_icecr.Base.{
  ℕ, zero, suc, ◌+◌, ◌%◌, ◌^◌, Bool, true, false, ◌==◌, ◌||◌, not, Option, none, some, update,
}

-- `struct pipe`, less its lock
pub record Pipe : Type 0 where
  pub pipe_data : ℕ → ℕ
  pub nread : ℕ
  pub nwrite : ℕ
  pub readopen : Bool
  pub writeopen : Bool

abbrev pub pipesize : ℕ
pipesize = 512

pub is_full : Pipe → Bool
is_full p = p.nwrite == (p.nread + pipesize) % 2 ^ 32

unfoldable pub is_empty : Pipe → Bool
is_empty p = p.nread == p.nwrite

-- `pi->data[pi->nwrite++ % PIPESIZE] = ch`
unfoldable pub put : ℕ → Pipe → Pipe
put ch p = record p {
  pipe_data = update p.pipe_data (p.nwrite % pipesize) ch;
  nwrite = (p.nwrite + 1) % 2 ^ 32;
}

-- `ch = pi->data[pi->nread++ % PIPESIZE]`
pub next_byte : Pipe → ℕ
next_byte p = p.pipe_data (p.nread % pipesize)

pub drop_byte : Pipe → Pipe
drop_byte p = record p { nread = (p.nread + 1) % 2 ^ 32 }

-- How a run of a loop ends: a return of -1, a sleep, or the end of the loop.
pub data Stop : Type 0 where
  refused sleeping finished : Stop

-- The loop of pipewrite from byte `i` on, with `n` bytes left, to its next sleep. `killed i` and
-- `copyin i` are what the calls for byte `i` give, `none` for a failed copy.
pub write_run : ℕ → ℕ → (ℕ → Bool) → (ℕ → Option ℕ) → Pipe → Stop × ℕ × Pipe
write_run zero i killed copyin p = (finished, i, p)
write_run (suc n) i killed copyin p = elim (not p.readopen || killed i) [
  | true ↦ (refused, i, p)
  | false ↦ elim (is_full p) [
    | true ↦ (sleeping, i, p)
    | false ↦ elim (copyin i) [
      | none ↦ (finished, i, p)
      | some ch ↦ write_run n (i + 1) killed copyin (put ch p)
    ]
  ]
]

-- The first loop of piperead: whether it waits, returns -1 or goes on.
pub read_waits : Bool → Pipe → Stop
read_waits killed p = elim (is_empty p) [
  | true ↦ elim p.writeopen [
    | true ↦ elim killed [ true ↦ refused | false ↦ sleeping ]
    | false ↦ finished
  ]
  | false ↦ finished
]

-- The second loop of piperead, with `n` bytes still wanted. `copyout i` tells if the copy of byte
-- `i` succeeds; `user` is the buffer of the caller.
pub read_run : ℕ → ℕ → (ℕ → Bool) → (ℕ → ℕ) → Pipe → ℕ × (ℕ → ℕ) × Pipe
read_run zero i copyout user p = (i, user, p)
read_run (suc n) i copyout user p = elim (is_empty p) [
  | true ↦ (i, user, p)
  | false ↦ elim (copyout i) [
    | true ↦ read_run n (i + 1) copyout (update user i (next_byte p)) (drop_byte p)
    | false ↦ (i, user, drop_byte p)
  ]
]
