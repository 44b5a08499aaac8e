-- ===== src/Tar/Runs.antt =====
-- The theorems on tek/utils/tar.c at small inputs.
use tek.Base.{ℕ, ◌≡◌, refl, Bool, true, List, [], ◌∷◌, ◌++◌, ◌≢◌, replicate, arith}
use tek.Tar.Header.{checksum}
use tek.Tar.Header.Sums.{checksum-one_byte}
use tek.Tar.Tape.{returned, Tape, flushtape}
use tek.Tar.Tape.Reading.{reads, read_blocks}
use tek.Tar.Tape.RoundTrip.{write_all, fresh, read_blocks-write_all}

abbrev always : List (List ℕ) → Bool
always ws = true

-- Five blocks on a tape with a blocking factor of 2, read with one of 20.
read_blocks-write_all_example :
    (t t' : Tape ℕ) × (write_all always (1 ∷ 2 ∷ 3 ∷ 4 ∷ 5 ∷ []) (fresh 2 (0 ∷ 0 ∷ []) [])
      ≡ returned t)
    × (read_blocks 5 (fresh 20 [] (reads (flushtape always t).written))
        ≡ returned (1 ∷ 2 ∷ 3 ∷ 4 ∷ 5 ∷ [], t'))
read_blocks-write_all_example =
    read_blocks-write_all always (1 ∷ 2 ∷ 3 ∷ 4 ∷ 5 ∷ []) (0 ∷ 0 ∷ []) [] 2 20 (λ ws. refl)
      (omega arith) refl (omega arith)

abbrev digits : List ℕ
digits = 48 ∷ 49 ∷ 50 ∷ 51 ∷ 52 ∷ 53 ∷ 0 ∷ 32 ∷ []

-- The names `a` and `b`.
checksum-one_byte_example :
    (checksum ((97 ∷ replicate 147 0) ++ (digits ++ replicate 356 0))).0
    ≢ (checksum ((98 ∷ replicate 147 0) ++ (replicate 8 0 ++ replicate 356 0))).0
checksum-one_byte_example =
    checksum-one_byte [] (replicate 147 0) digits (replicate 8 0) (replicate 356 0) 97 98 refl refl
      refl (omega arith) (omega arith) (λ e. omega (arith, e))
