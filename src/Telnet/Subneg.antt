-- ===== src/Telnet/Subneg.antt =====
-- Subnegotiation: `IAC SB option data IAC SE`.
use tek.Base.{
  ℕ, ◌+◌, ◌*◌, ◌≡◌, ◌≢◌, ◌≤◌, ◌∙◌, refl, List, [], ◌∷◌, ◌++◌, All, arith, ltb, ◌==◌, if◌then◌else◌,
  length, set, length-set, append-nil,
}
use Prim.Native.Nat.{min}
use tek.Telnet.{
  parseoptdat, Machine, State, iac, sb, se, naws, optdata_size, ntohs_at, step_in, step,
}
use tek.Telnet.Compact.{run}
use tek.Telnet.Stream.{run-append, escape, run-escape}

-- The option data fits its array, and the length counts what has been written.
pub record IsValid (m : Machine) : Type 0 where
  pub whole : length m.optdata ≡ optdata_size
  pub within : m.optlen ≤ optdata_size

pub step-IsValid : (m : Machine) (c : ℕ) → IsValid m → IsValid (step m c).0
unfolding step_in
step-IsValid m c v = ground (arith, length-set m.optdata m.optlen c)

-- Whatever bytes arrive, the option data stays in its 256 bytes.
pub run-IsValid : (m : Machine) (xs : List ℕ) → IsValid m → IsValid (run m xs).0
unfolding run
run-IsValid m [] v = v
run-IsValid m (c ∷ cs) v = run-IsValid (step m c).0 cs (step-IsValid m c v)

abbrev pub NoIac : List ℕ → Type 0
NoIac = All (λ c. c ≢ iac)

-- The bytes written to consecutive places while there is room.
abbrev pub fill : List ℕ → ℕ → List ℕ → List ℕ
fill area i [] = area
fill area i (x ∷ xs) = if ltb i optdata_size then fill (set area i x) (i + 1) xs else area

abbrev pub collected : Machine → List ℕ → Machine
collected m xs = record m {
  optdata = fill m.optdata m.optlen xs;
  optlen = min optdata_size (m.optlen + length xs);
}

run-collected :
    (m : Machine) (xs : List ℕ)
    → m.state ≡ State.state_optdat
    → m.optlen ≤ optdata_size
    → NoIac xs
    → run m xs ≡ (collected m xs, [])
unfolding run step_in
run-collected m [] st h k = ground arith
run-collected m (c ∷ cs) st h (ne, k) = ground (
  arith,
  run-collected (record m { optdata = set m.optdata m.optlen c; optlen = m.optlen + 1 }) cs,
  run-collected m cs,
  fill_full m.optdata m.optlen cs,
)
  where
    fill_full : (area : List ℕ) (i : ℕ) (xs : List ℕ) → optdata_size ≤ i → fill area i xs ≡ area
    fill_full area i [] h = refl
    fill_full area i (x ∷ xs) h = ground arith

abbrev opened : Machine → ℕ → Machine
opened m option = record m { code = option; optlen = 0; state = State.state_optdat }

run-open :
    (m : Machine) (option : ℕ) (xs : List ℕ)
    → m.state ≡ State.state_normal
    → run m (iac ∷ sb ∷ option ∷ xs) ≡ run (opened m option) xs
unfolding run step_in
run-open m option xs st = ground arith

-- The machine when the data of a subnegotiation has been read, from the state before it.
abbrev pub filled : Machine → ℕ → List ℕ → Machine
filled m option xs = record m {
  code = option;
  optdata = fill m.optdata 0 xs;
  optlen = min optdata_size (0 + length xs);
}

-- A complete subnegotiation whose data has no IAC passes nothing on to the shell and ends in the
-- normal state. Its option is handled once, on the first 256 data bytes and their number.
pub run_subneg :
    (m : Machine) (option : ℕ) (xs : List ℕ)
    → m.state ≡ State.state_normal
    → NoIac xs
    → run m (iac ∷ sb ∷ option ∷ (xs ++ (iac ∷ se ∷ []))) ≡ (
      record (parseoptdat
          (filled m option xs)
          option
          (fill m.optdata 0 xs)
          (min optdata_size (0 + length xs))) { state = State.state_normal },
      [],
    )
unfolding run step_in
run_subneg m option xs st k =
    run-open m option (xs ++ (iac ∷ se ∷ [])) st
    ∙ run-append (opened m option) xs (iac ∷ se ∷ [])
    ∙ rw (run-collected (opened m option) xs refl (omega arith) k) (ground arith)

-- Data in which a 255 was doubled, as RFC 854 and RFC 1073 ask for, is cut there: what follows the
-- pair is not option data but goes through as the user's input, and the window size stays.
pub run_subneg_doubled :
    (m : Machine) (option : ℕ) (xs ys : List ℕ)
    → m.state ≡ State.state_normal
    → NoIac xs
    → run m (iac ∷ sb ∷ option ∷ (xs ++ (iac ∷ iac ∷ (escape ys ++ (iac ∷ se ∷ [])))))
      ≡ (record (filled m option xs) { state = State.state_normal }, ys)
unfolding run step_in
run_subneg_doubled m option xs ys st k =
    run-open m option (xs ++ (iac ∷ iac ∷ (escape ys ++ (iac ∷ se ∷ [])))) st
    ∙ run-append (opened m option) xs (iac ∷ iac ∷ (escape ys ++ (iac ∷ se ∷ [])))
    ∙ rw (run-collected (opened m option) xs refl (omega arith) k) (
        rw
          (
            run-append (record (filled m option xs) { state = State.state_normal }) (escape ys)
                (iac ∷ se ∷ []),
            run-escape (record (filled m option xs) { state = State.state_normal }) ys refl,
          )
          (rw append-nil refl))

first_four :
    (area : List ℕ) (a b c d : ℕ)
    → 4 ≤ length area
    → let filled_area = fill area 0 (a ∷ b ∷ c ∷ d ∷ []) in
      (ntohs_at filled_area 0 ≡ a * 256 + b) × (ntohs_at filled_area 2 ≡ c * 256 + d)
first_four (w ∷ x ∷ y ∷ z ∷ rest) a b c d h = (refl, refl)
first_four (w ∷ x ∷ y ∷ []) a b c d h = absurd (omega arith)
first_four (w ∷ x ∷ []) a b c d h = absurd (omega arith)
first_four (w ∷ []) a b c d h = absurd (omega arith)
first_four [] a b c d h = absurd (omega arith)

-- A window size (RFC 1073) of four bytes, none of them 255, is taken over: the width and the
-- height are the two big-endian numbers, and a zero leaves the old value.
pub run-naws :
    (m : Machine) (a b c d : ℕ)
    → m.state ≡ State.state_normal
    → IsValid m
    → NoIac (a ∷ b ∷ c ∷ d ∷ [])
    → let r = run m (iac ∷ sb ∷ naws ∷ ((a ∷ b ∷ c ∷ d ∷ []) ++ (iac ∷ se ∷ []))) in
      (r.0.cols ≡ (if a * 256 + b == 0 then m.cols else a * 256 + b))
      × (r.0.lines ≡ (if c * 256 + d == 0 then m.lines else c * 256 + d))
      × (r.0.state ≡ State.state_normal)
      × (r.0.sent ≡ m.sent)
      × (r.1 ≡ [])
unfolding parseoptdat
run-naws m a b c d st v k =
    let (wide, high) = first_four m.optdata a b c d (omega arith) in
    rw (run_subneg m naws (a ∷ b ∷ c ∷ d ∷ []) st k)
      (rw (wide, high) (refl, refl, refl, refl, refl))
