-- ===== src/Pipe/Read.antt =====
-- kernel/pipe.c: what a run of piperead takes.
use cow_pbs_cofee_cafe_icecr.Base.{
  ℕ, zero, suc, ◌+◌, ◌<◌, ◌≡◌, ◌⊎◌, inl, inr, refl, arith, Bool, false, List, [], ◌∷◌, ◌++◌,
  Bool-cases, ◌∙◌, ap, update, update_self, update_other,
}
use cow_pbs_cofee_cafe_icecr.Pipe.{Pipe, is_empty, next_byte, drop_byte, read_run}
use cow_pbs_cofee_cafe_icecr.Pipe.Queue.{contents, IsPipe, drop-contents, empty-contents}

-- The bytes stand in the buffer from place `i` up to `j`.
pub data IsStored (user : ℕ → ℕ) : ℕ → ℕ → List ℕ → Type 0 where
  no_more : {i : ℕ} → IsStored user i i []
  one_more :
      {i j b : ℕ} {bs : List ℕ}
      → user i ≡ b
      → IsStored user (i + 1) j bs
      → IsStored user i j (b ∷ bs)

-- Why the run ends at byte `j` of `n`, and the byte that it lost.
abbrev pub IsEnd : (ℕ → Bool) → ℕ → ℕ → List ℕ → Pipe → Type 0
IsEnd copyout n j lost p =
    ((j ≡ n) × (lost ≡ []))
    ⊎ ((j < n) × (lost ≡ []) × (contents p ≡ []))
    ⊎ ((j < n) × (copyout j ≡ false) × ((b : ℕ) × (lost ≡ b ∷ [])))

pub record IsTaken (copyout : ℕ → Bool) (i n : ℕ) (user : ℕ → ℕ) (p : Pipe) (r : ℕ × (ℕ → ℕ) × Pipe)
    : Type 0 where
  pub bytes : List ℕ
  pub lost : List ℕ
  pub stored : IsStored r.1 i r.0 bytes
  pub taken : contents p ≡ bytes ++ (lost ++ contents r.2)
  pub kept : (k : ℕ) → k < i → r.1 k ≡ user k
  pub well_formed : IsPipe r.2
  pub end : IsEnd copyout n r.0 lost r.2

ended :
    (copyout : ℕ → Bool) (i n : ℕ) (user : ℕ → ℕ) (p : Pipe)
    → IsPipe p
    → IsEnd copyout n i [] p
    → IsTaken copyout i n user p (i, user, p)
ended copyout i n user p w e = record {
  bytes = [];
  lost = [];
  stored = no_more;
  taken = refl;
  kept = λ k h. refl;
  well_formed = w;
  end = e;
}

lose_byte :
    (copyout : ℕ → Bool) (i n : ℕ) (user : ℕ → ℕ) (p : Pipe)
    → IsPipe p
    → is_empty p ≡ false
    → i < n
    → copyout i ≡ false
    → IsTaken copyout i n user p (i, user, drop_byte p)
lose_byte copyout i n user p w e h f = record {
  bytes = [];
  lost = next_byte p ∷ [];
  stored = no_more;
  taken = (drop-contents p w e).1;
  kept = λ k l. refl;
  well_formed = (drop-contents p w e).0;
  end = inr (inr (h, f, (next_byte p, refl)));
}

take_byte :
    (copyout : ℕ → Bool) (i n : ℕ) (user : ℕ → ℕ) (p : Pipe) (r : ℕ × (ℕ → ℕ) × Pipe)
    → IsPipe p
    → is_empty p ≡ false
    → IsTaken copyout (i + 1) n (update user i (next_byte p)) (drop_byte p) r
    → IsTaken copyout i n user p r
take_byte copyout i n user p r w e t = record {
  bytes = next_byte p ∷ t.bytes;
  lost = t.lost;
  stored = one_more (t.kept i (omega arith) ∙ update_self user i (next_byte p)) t.stored;
  taken = (drop-contents p w e).1 ∙ ap (λ l. next_byte p ∷ l) t.taken;
  kept = λ k h. t.kept k (omega arith) ∙ update_other user i (next_byte p) k (omega arith);
  well_formed = t.well_formed;
  end = t.end;
}

-- The second loop of piperead takes bytes from the front of the queue and stores them in the buffer
-- of the caller in order, from place `i` up to the count that it returns, and the rest of the queue
-- stays. It ends with all `n` bytes, with the queue empty, or at a copy that fails; in the last
-- case, and only then, it has taken one byte more from the queue than it stored.
pub read_run-IsTaken :
    (m i n : ℕ) (copyout : ℕ → Bool) (user : ℕ → ℕ) (p : Pipe)
    → i + m ≡ n
    → IsPipe p
    → IsTaken copyout i n user p (read_run m i copyout user p)
unfolding read_run
read_run-IsTaken zero i n copyout user p e w = ended copyout i n user p w (inl (omega arith, refl))
read_run-IsTaken (suc m) i n copyout user p e w = elim (Bool-cases (is_empty p)) [
  | inl a ↦
      rw (a, read_run)
        (ended copyout i n user p w (inr (inl (omega arith, refl, empty-contents p w a))))
  | inr a ↦ elim (Bool-cases (copyout i)) [
    | inl b ↦
        rw (a, read_run)
          (rw b (
            take_byte copyout i n user p _ w a (
              read_run-IsTaken m (i + 1) n copyout (update user i (next_byte p)) (drop_byte p)
                (omega arith) (drop-contents p w a).0)))
    | inr b ↦ rw (a, read_run) (rw b (lose_byte copyout i n user p w a (omega arith) b))
  ]
]
