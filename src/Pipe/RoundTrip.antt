-- ===== src/Pipe/RoundTrip.antt =====
-- kernel/pipe.c: what is written into an empty pipe is read from it.
use cow_pbs_cofee_cafe_icecr.Base.{
  ℕ, zero, suc, ◌+◌, ◌<◌, ◌≤◌, ◌≡◌, inl, inr, refl, arith, true, false, some, List, [], ◌∷◌, ◌++◌,
  ◌∙◌, ap, sym, ℕ_discrete, subst,
}
use cow_pbs_cofee_cafe_icecr.Pipe.{Pipe, is_empty, put, Stop, write_run, read_run}
use cow_pbs_cofee_cafe_icecr.Pipe.Queue.{
  contents, count, IsPipe, put-contents, put_count, empty_count, empty-contents, not_full-count,
}
use cow_pbs_cofee_cafe_icecr.Pipe.Write.{IsFetched, write_run-IsWritten}
use cow_pbs_cofee_cafe_icecr.Pipe.Read.{IsStored, IsTaken, read_run-IsTaken}

put_open : (p : Pipe) (ch : ℕ) → (put ch p).readopen ≡ p.readopen
unfolding put
put_open p ch = refl

-- With room for all bytes nothing stops the writer.
write_all :
    (m i : ℕ) (byte : ℕ → ℕ) (p : Pipe)
    → IsPipe p
    → p.readopen ≡ true
    → count p + m ≤ 512
    → (write_run m i (λ k. false) (λ k. some (byte k)) p).1 ≡ i + m
unfolding write_run
write_all zero i byte p w o h = omega arith
write_all (suc m) i byte p w o h =
    let f = not_full-count p w (omega arith) in
    rw (o, write_run)
      (rw f (
        write_all m (i + 1) byte (put (byte i) p) (put-contents p (byte i) w f).0
          (put_open p (byte i) ∙ o) (omega (arith, put_count p (byte i) w (omega arith)))
        ∙ omega arith))

cons_head : (x y : ℕ) (a b : List ℕ) → x ∷ a ≡ y ∷ b → x ≡ y
cons_head x y a b e = cc e

cons_tail : (x y : ℕ) (a b : List ℕ) → x ∷ a ≡ y ∷ b → a ≡ b
cons_tail x y a b e = cc e

-- The stored bytes are the first of the fetched ones; with nothing left they are all.
stored_fetched :
    (user byte : ℕ → ℕ) {i j m : ℕ} {s b : List ℕ} (rest : List ℕ)
    → IsStored user i j s
    → IsFetched (λ k. some (byte k)) i m b
    → s ++ rest ≡ b
    → ((k : ℕ) → i ≤ k → k < j → user k ≡ byte k) × (rest ≡ [] → j ≡ m)
stored_fetched user byte rest IsStored.no_more IsFetched.no_more e =
    (λ k a l. absurd (omega arith), λ q. refl)
stored_fetched user byte rest IsStored.no_more (IsFetched.one_more c f) e =
    (λ k a l. absurd (omega arith), λ q. absurd (cc (e, q)))
stored_fetched user byte rest (IsStored.one_more u s) IsFetched.no_more e = absurd (cc e)
stored_fetched user byte {i} rest (IsStored.one_more u s) (IsFetched.one_more c f) e =
    let (h, t) = stored_fetched user byte rest s f (cons_tail _ _ _ _ e) in
    (
      λ k a l. elim (ℕ_discrete i k) [
        | yes q ↦ subst (λ x. user x ≡ byte x) q (cc (u, c, cons_head _ _ _ _ e))
        | no q ↦ h k (omega arith) l
      ],
      t,
    )

-- A reader whose copies all succeed gets what is at the front of the queue, up to all the bytes.
read_all :
    (m : ℕ) (byte user : ℕ → ℕ) (q : Pipe) (b : List ℕ) (r : ℕ × (ℕ → ℕ) × Pipe)
    → IsFetched (λ k. some (byte k)) 0 m b
    → contents q ≡ b
    → IsTaken (λ k. true) 0 m user q r
    → (r.0 ≡ m) × ((k : ℕ) → k < m → r.1 k ≡ byte k)
read_all m byte user q b r f e t =
    let (h, l) = stored_fetched r.1 byte (t.lost ++ contents r.2) t.stored f (sym t.taken ∙ e) in
    let n : r.0 ≡ m = elim t.end [
      | inl (a, _) ↦ a
      | inr (inl (_, u, v)) ↦ l (ap (λ x. x ++ contents r.2) u ∙ v)
      | inr (inr (_, u, _)) ↦ absurd (cc u)
    ] in
    (n, λ k a. h k (omega arith) (omega (arith, n)))

abbrev pub written : ℕ → (ℕ → ℕ) → Pipe → Stop × ℕ × Pipe
written m byte p = write_run m 0 (λ k. false) (λ k. some (byte k)) p

abbrev pub received : ℕ → (ℕ → ℕ) → (ℕ → ℕ) → Pipe → ℕ × (ℕ → ℕ) × Pipe
received m byte user p = read_run m 0 (λ k. true) user (written m byte p).2

-- Into an empty pipe that is open for reading, a writer that is not killed and whose copies succeed
-- writes up to 512 bytes in one run, also where the counters wrap. A reader that then asks for
-- that many, and whose copies succeed, gets that many, each equal to the one that was written.
pub received-written :
    (m : ℕ) (byte user : ℕ → ℕ) (p : Pipe)
    → IsPipe p
    → is_empty p ≡ true
    → p.readopen ≡ true
    → m ≤ 512
    → ((written m byte p).1 ≡ m)
      × ((received m byte user p).0 ≡ m)
      × ((k : ℕ) → k < m → (received m byte user p).1 k ≡ byte k)
received-written m byte user p w e o h =
    let a : (written m byte p).1 ≡ m =
      write_all m 0 byte p w o (omega (arith, empty_count p w e)) ∙ omega arith in
    let x = write_run-IsWritten m 0 m (λ k. false) (λ k. some (byte k)) p (omega arith) w in
    let t =
      read_run-IsTaken m 0 m (λ k. true) user (written m byte p).2 (omega arith) x.well_formed in
    let f = subst (λ j. IsFetched (λ k. some (byte k)) 0 j x.bytes) a x.fetched in
    let c = x.appended ∙ ap (λ l. l ++ x.bytes) (empty-contents p w e) in
    let (g, v) = read_all m byte user (written m byte p).2 x.bytes (received m byte user p) f c t in
    (a, g, v)
