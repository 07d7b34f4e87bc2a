-- ===== src/Pipe/Tests.antt =====
-- Concrete inputs of kernel/pipe.c: an empty pipe whose counters are about to wrap.
use cow_pbs_cofee_cafe_icecr.Base.{ℕ, ◌≡◌, refl, ◌<◌, ◌+◌, arith, Bool, true}
use cow_pbs_cofee_cafe_icecr.Pipe.{Pipe, read_run, put, is_empty}
use cow_pbs_cofee_cafe_icecr.Pipe.Queue.{IsPipe}
use cow_pbs_cofee_cafe_icecr.Pipe.RoundTrip.{written, received, received-written}
use cow_pbs_cofee_cafe_icecr.Pipe.Read.{IsTaken, read_run-IsTaken}

abbrev wrapping : Pipe
wrapping = record {
  pipe_data = λ i. 0;
  nread = 4294967295;
  nwrite = 4294967295;
  readopen = true;
  writeopen = true;
}

wrapping-IsPipe : IsPipe wrapping
wrapping-IsPipe = record {
  read_bound = omega arith;
  write_bound = omega arith;
  count_bound = omega arith;
}

abbrev one_letter : Pipe
one_letter = put 97 wrapping

one_letter-IsPipe : IsPipe one_letter
unfolding put
one_letter-IsPipe = record {
  read_bound = omega arith;
  write_bound = omega arith;
  count_bound = omega arith;
}

abbrev copies : ℕ → Bool
copies i = true

abbrev buffer : ℕ → ℕ
buffer i = 0

read_run-IsTaken_example :
    IsTaken copies 0 2 buffer one_letter (read_run 2 0 copies buffer one_letter)
read_run-IsTaken_example =
    read_run-IsTaken 2 0 2 copies buffer one_letter (omega arith) one_letter-IsPipe

abbrev letter : ℕ → ℕ
letter i = i + 97

wrapping-is_empty : is_empty wrapping ≡ true
unfolding is_empty
wrapping-is_empty = refl

received-written_example :
    ((written 3 letter wrapping).1 ≡ 3)
    × ((received 3 letter buffer wrapping).0 ≡ 3)
    × ((k : ℕ) → k < 3 → (received 3 letter buffer wrapping).1 k ≡ letter k)
received-written_example =
    received-written 3 letter buffer wrapping wrapping-IsPipe wrapping-is_empty refl (omega arith)
