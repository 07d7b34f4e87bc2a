-- ===== src/Pipe/Write.antt =====
-- kernel/pipe.c: what a run of pipewrite appends.
use cow_pbs_cofee_cafe_icecr.Base.{
  ℕ, zero, suc, ◌+◌, ◌<◌, ◌≡◌, ◌⊎◌, inl, inr, arith, Bool, true, false, ◌||◌, not, Option, none,
  some, List, [], ◌∷◌, ◌++◌, append-nil, append_assoc, Bool-cases, Option-cases, ◌∙◌, ap, sym,
}
use cow_pbs_cofee_cafe_icecr.Pipe.{Pipe, is_full, put, Stop, refused, sleeping, finished, write_run}
use cow_pbs_cofee_cafe_icecr.Pipe.Queue.{contents, IsPipe, put-contents}

-- The bytes from `i` up to `j` of the caller.
pub data IsFetched (copyin : ℕ → Option ℕ) : ℕ → ℕ → List ℕ → Type 0 where
  no_more : {i : ℕ} → IsFetched copyin i i []
  one_more :
      {i j b : ℕ} {bs : List ℕ}
      → copyin i ≡ some b
      → IsFetched copyin (i + 1) j bs
      → IsFetched copyin i j (b ∷ bs)

-- Why the run stops at byte `j` of `n`.
abbrev pub IsStop : (ℕ → Bool) → (ℕ → Option ℕ) → ℕ → Stop → ℕ → Pipe → Type 0
IsStop killed copyin n refused j p = (j < n) × ((not p.readopen || killed j) ≡ true)
IsStop killed copyin n sleeping j p = (j < n) × (is_full p ≡ true)
IsStop killed copyin n finished j p = (j ≡ n) ⊎ ((j < n) × (copyin j ≡ none))

pub record IsWritten (killed : ℕ → Bool) (copyin : ℕ → Option ℕ) (i n : ℕ) (p : Pipe)
    (r : Stop × ℕ × Pipe) : Type 0 where
  pub bytes : List ℕ
  pub fetched : IsFetched copyin i r.1 bytes
  pub appended : contents r.2 ≡ contents p ++ bytes
  pub well_formed : IsPipe r.2
  pub stop : IsStop killed copyin n r.0 r.1 r.2

stopped :
    (killed : ℕ → Bool) (copyin : ℕ → Option ℕ) (i n : ℕ) (p : Pipe) (s : Stop)
    → IsPipe p
    → IsStop killed copyin n s i p
    → IsWritten killed copyin i n p (s, i, p)
stopped killed copyin i n p s w h = record {
  bytes = [];
  fetched = no_more;
  appended = sym (append-nil (contents p));
  well_formed = w;
  stop = h;
}

IsWritten-put :
    (killed : ℕ → Bool) (copyin : ℕ → Option ℕ) (i n ch : ℕ) (p : Pipe) (r : Stop × ℕ × Pipe)
    → IsPipe p
    → is_full p ≡ false
    → copyin i ≡ some ch
    → IsWritten killed copyin (i + 1) n (put ch p) r
    → IsWritten killed copyin i n p r
IsWritten-put killed copyin i n ch p r w f e h = record {
  bytes = ch ∷ h.bytes;
  fetched = one_more e h.fetched;
  appended =
      h.appended
      ∙ ap (λ l. l ++ h.bytes) (put-contents p ch w f).1
      ∙ append_assoc (contents p) (ch ∷ []) h.bytes;
  well_formed = h.well_formed;
  stop = h.stop;
}

-- A run of the loop of pipewrite keeps the ring a queue of at most 512 bytes, appends the bytes of
-- the caller from the one it starts at up to the one it stops at, in order and each once, and stops
-- only since the pipe is closed for reading or the caller killed, since the ring is full, since all
-- `n` bytes are written, or since a copy fails.
pub write_run-IsWritten :
    (m i n : ℕ) (killed : ℕ → Bool) (copyin : ℕ → Option ℕ) (p : Pipe)
    → i + m ≡ n
    → IsPipe p
    → IsWritten killed copyin i n p (write_run m i killed copyin p)
unfolding write_run
write_run-IsWritten zero i n killed copyin p e w =
    stopped killed copyin i n p finished w (inl (omega arith))
write_run-IsWritten (suc m) i n killed copyin p e w =
    elim (Bool-cases (not p.readopen || killed i)) [
      | inl a ↦ rw (a, write_run) (stopped killed copyin i n p refused w (omega arith, a))
      | inr a ↦ elim (Bool-cases (is_full p)) [
        | inl b ↦ rw (a, write_run) (rw b (stopped killed copyin i n p sleeping w (omega arith, b)))
        | inr b ↦ elim (Option-cases (copyin i)) [
          | inl c ↦
              rw (a, write_run)
                (rw (b, c) (stopped killed copyin i n p finished w (inr (omega arith, c))))
          | inr (ch, c) ↦
              rw (a, write_run)
                (rw (b, c)
                  (IsWritten-put killed copyin i n ch p _ w b c (
                    write_run-IsWritten m (i + 1) n killed copyin (put ch p) (omega arith)
                      (put-contents p ch w b).0)))
        ]
      ]
    ]
