-- ===== src/Telnet/Runs.antt =====
-- Concrete runs of the telnet parser, and its theorems at concrete inputs.
use tek.Base.{ℕ, ◌+◌, ◌≡◌, refl, true, List, [], ◌∷◌, ◌++◌, some, inl, arith, length, replicate}
use tek.Telnet.{
  Machine, State, iac, sb, se, will, do_opt, naws, terminal_type, step_in, parse, optdata_size,
}
use tek.Telnet.Compact.{run, window, compacted, parse-run}
use tek.Telnet.Stream.{Session, parse-escape}
use tek.Telnet.Negotiate.{answer, run_command}
use tek.Telnet.Subneg.{IsValid, run-IsValid}
use tek.Telnet.Write.{writewithlf, writewithlf_all, flatten}

abbrev fresh : Machine
fresh = record {
  state = State.state_normal;
  code = 0;
  optdata = replicate optdata_size 0;
  optlen = 0;
  cols = 80;
  lines = 24;
  sent = [];
}

-- "a", a window size of 100 by 40, an offer of the terminal type, "b", and a doubled IAC.
abbrev input : List ℕ
input =
    b'a' ∷ iac ∷ sb ∷ naws ∷ 0 ∷ 100 ∷ 0 ∷ 40 ∷ iac ∷ se ∷ iac ∷ will ∷ terminal_type ∷ b'b' ∷ iac
    ∷ iac ∷ []

run-input :
    ((run fresh input).0.cols ≡ 100)
    × ((run fresh input).0.lines ≡ 40)
    × ((run fresh input).0.sent ≡ (iac ∷ do_opt ∷ terminal_type ∷ []) ∷ [])
    × ((run fresh input).1 ≡ b'a' ∷ b'b' ∷ iac ∷ [])
unfolding run step_in
run-input = (refl, refl, refl, refl)

parse-run_example :
    (junk : List ℕ) × (parse (window fresh (1 ∷ []) input (2 ∷ []))
      ≡ some (compacted (run fresh input) (1 ∷ []) junk (2 ∷ [])))
    × (length (run fresh input).1 + length junk ≡ length input)
parse-run_example = parse-run fresh (1 ∷ []) input (2 ∷ [])

parse-escape_example : Session fresh ((7 ∷ iac ∷ []) ∷ (iac ∷ []) ∷ []) fresh (7 ∷ iac ∷ [])
parse-escape_example =
    parse-escape fresh ((7 ∷ iac ∷ []) ∷ (iac ∷ []) ∷ []) (7 ∷ iac ∷ []) refl refl

run_command_example :
    run fresh (iac ∷ will ∷ 99 ∷ [])
    ≡ (record fresh { code = will; sent = [] ++ answer will 99 }, [])
run_command_example = run_command fresh will 99 refl (inl refl)

fresh-IsValid : IsValid fresh
fresh-IsValid = record { whole = refl; within = omega arith }

run-IsValid_example : IsValid (run fresh input).0
run-IsValid_example = run-IsValid fresh input fresh-IsValid

writewithlf_all_example :
    (flatten (writewithlf 13 (λ k. true) (b'o' ∷ b'k' ∷ 13 ∷ b'!' ∷ [])).chunks
      ≡ b'o' ∷ b'k' ∷ 13 ∷ 10 ∷ 0 ∷ b'!' ∷ [])
    × ((writewithlf 13 (λ k. true) (b'o' ∷ b'k' ∷ 13 ∷ b'!' ∷ [])).result ≡ 4)
writewithlf_all_example = writewithlf_all 13 (λ k. true) (b'o' ∷ b'k' ∷ 13 ∷ b'!' ∷ []) (λ k. refl)
