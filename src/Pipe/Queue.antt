-- ===== src/Pipe/Queue.antt =====
-- kernel/pipe.c: the ring of a pipe is a queue of at most 512 bytes, also where the counters wrap.
use cow_pbs_cofee_cafe_icecr.Base.{
  ℕ, zero, suc, ◌+◌, ◌-◌, ◌%◌, ◌^◌, ◌<◌, ◌≤◌, ◌≡◌, ◌≢◌, refl, arith, true, false, List, [], ◌∷◌,
  ◌++◌, update, update_self, update_other, ◌∙◌, ap,
}
use cow_pbs_cofee_cafe_icecr.Pipe.{Pipe, is_full, is_empty, put, next_byte, drop_byte}

-- The bytes in the ring, which `k` counts, from the counter `r` on.
abbrev pub bytes_from : ℕ → ℕ → (ℕ → ℕ) → List ℕ
bytes_from zero r d = []
bytes_from (suc k) r d = d (r % 512) ∷ bytes_from k ((r + 1) % 2 ^ 32) d

abbrev pub count : Pipe → ℕ
count p = (p.nwrite + (2 ^ 32 - p.nread)) % 2 ^ 32

abbrev pub contents : Pipe → List ℕ
contents p = bytes_from (count p) p.nread p.pipe_data

-- The counters are of `uint` and at most 512 apart.
pub record IsPipe (p : Pipe) : Type 0 where
  pub read_bound : p.nread < 2 ^ 32
  pub write_bound : p.nwrite < 2 ^ 32
  pub count_bound : count p ≤ 512

bytes_from-snoc :
    (k r : ℕ) (d : ℕ → ℕ)
    → r < 2 ^ 32
    → bytes_from (suc k) r d ≡ bytes_from k r d ++ (d ((r + k) % 2 ^ 32 % 512) ∷ [])
bytes_from-snoc zero r d h = ap (λ i. d i ∷ []) (omega arith)
bytes_from-snoc (suc k) r d h =
    ap (λ l. d (r % 512) ∷ l)
      (bytes_from-snoc k ((r + 1) % 2 ^ 32) d (omega arith)
        ∙ ap (λ i. bytes_from k ((r + 1) % 2 ^ 32) d ++ (d i ∷ [])) (omega arith))

bytes_from-update :
    (k r m v : ℕ) (d : ℕ → ℕ)
    → r < 2 ^ 32
    → ((j : ℕ) → j < k → m ≢ (r + j) % 2 ^ 32 % 512)
    → bytes_from k r (update d m v) ≡ bytes_from k r d
bytes_from-update zero r m v d b h = refl
bytes_from-update (suc k) r m v d b h =
    let e = update_other d m v (r % 512) (λ q. h 0 (omega arith) (omega arith)) in
    ap (λ x. x ∷ bytes_from k ((r + 1) % 2 ^ 32) (update d m v)) e
    ∙ ap (λ l. d (r % 512) ∷ l)
        (bytes_from-update k ((r + 1) % 2 ^ 32) m v d (omega arith)
          (λ j l q. h (j + 1) (omega arith) (omega arith)))

not_full : (p : Pipe) → IsPipe p → is_full p ≡ false → count p < 512
unfolding is_full
not_full p w e = ground arith

ring_apart :
    (r w k j : ℕ)
    → r < 2 ^ 32
    → w < 2 ^ 32
    → (w + (2 ^ 32 - r)) % 2 ^ 32 < 512
    → j < (w + (2 ^ 32 - r)) % 2 ^ 32
    → w % 512 ≢ (r + j) % 2 ^ 32 % 512
ring_apart r w k j a b c h = omega arith

pub put_count : (p : Pipe) (ch : ℕ) → IsPipe p → count p < 512 → count (put ch p) ≡ suc (count p)
unfolding put
put_count p ch w h = omega arith

put_bytes :
    (p : Pipe) (ch : ℕ)
    → IsPipe p
    → count p < 512
    → bytes_from (count p) p.nread (put ch p).pipe_data ≡ contents p
unfolding put
put_bytes p ch w h =
    bytes_from-update (count p) p.nread (p.nwrite % 512) ch p.pipe_data w.read_bound
      (λ j l. ring_apart p.nread p.nwrite (count p) j w.read_bound w.write_bound h l)

put_last :
    (p : Pipe) (ch : ℕ) → IsPipe p → (put ch p).pipe_data ((p.nread + count p) % 2 ^ 32 % 512) ≡ ch
unfolding put
put_last p ch w =
    ap (update p.pipe_data (p.nwrite % 512) ch) (omega arith)
    ∙ update_self p.pipe_data (p.nwrite % 512) ch

-- A byte that is put into a ring with room stands at the end of the queue.
pub put-contents :
    (p : Pipe) (ch : ℕ)
    → IsPipe p
    → is_full p ≡ false
    → IsPipe (put ch p) × (contents (put ch p) ≡ contents p ++ (ch ∷ []))
unfolding put
put-contents p ch w e =
    let h = not_full p w e in
    let q = put_count p ch w h in
    (
      record {
        read_bound = w.read_bound;
        write_bound = omega arith;
        count_bound = omega (arith, q, h);
      },
      ap (λ k. bytes_from k p.nread (put ch p).pipe_data) q
          ∙ bytes_from-snoc (count p) p.nread (put ch p).pipe_data w.read_bound
          ∙ ap (λ l. l ++ ((put ch p).pipe_data ((p.nread + count p) % 2 ^ 32 % 512) ∷ []))
              (put_bytes p ch w h)
          ∙ ap (λ b. contents p ++ (b ∷ [])) (put_last p ch w),
    )

drop_count : (p : Pipe) → IsPipe p → is_empty p ≡ false → count p ≡ suc (count (drop_byte p))
unfolding drop_byte is_empty
drop_count p w e = ground arith

-- The byte that is taken from a ring which is not empty is the first of the queue.
pub drop-contents :
    (p : Pipe)
    → IsPipe p
    → is_empty p ≡ false
    → IsPipe (drop_byte p) × (contents p ≡ next_byte p ∷ contents (drop_byte p))
unfolding drop_byte next_byte
drop-contents p w e =
    let q = drop_count p w e in
    (
      record {
        read_bound = omega arith;
        write_bound = w.write_bound;
        count_bound = omega (arith, q, w.count_bound);
      },
      ap (λ k. bytes_from k p.nread p.pipe_data) q,
    )

pub empty_count : (p : Pipe) → IsPipe p → is_empty p ≡ true → count p ≡ 0
unfolding is_empty
empty_count p w e = ground arith

-- An empty ring is the empty queue.
pub empty-contents : (p : Pipe) → IsPipe p → is_empty p ≡ true → contents p ≡ []
unfolding is_empty
empty-contents p w e = ap (λ k. bytes_from k p.nread p.pipe_data) (empty_count p w e)

pub not_full-count : (p : Pipe) → IsPipe p → count p < 512 → is_full p ≡ false
unfolding is_full
not_full-count p w h = ground arith
