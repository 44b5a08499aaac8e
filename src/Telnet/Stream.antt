-- ===== src/Telnet/Stream.antt =====
-- The byte stream of a session: how it is cut into reads does not matter, and data that the
-- client sends with every IAC doubled comes through as it was.
use tek.Base.{
  ℕ, ◌+◌, ◌≡◌, refl, sym, ap, ◌∙◌, some, List, [], ◌∷◌, ◌++◌, append_assoc, arith, ◌==◌,
  if◌then◌else◌, length,
}
use mathlib.Core.Path.{subst}
use tek.Telnet.{Machine, State, iac, step_in, step, parse}
use tek.Telnet.Compact.{run, stored, window, compacted, parse-run}
use tek.Telnet.Write.{flatten}

pub run-append :
    (m : Machine) (xs ys : List ℕ)
    → run m (xs ++ ys) ≡ ((run (run m xs).0 ys).0, (run m xs).1 ++ (run (run m xs).0 ys).1)
unfolding run
run-append m [] ys = refl
run-append m (c ∷ xs) ys =
    rw (run-append (step m c).0 xs ys, append_assoc (stored (step m c).1)) refl

-- What a client sends for data: RFC 854 has every byte 255 doubled.
abbrev pub escape : List ℕ → List ℕ
escape [] = []
escape (c ∷ cs) = if c == iac then iac ∷ (iac ∷ escape cs) else c ∷ escape cs

pub run-escape :
    (m : Machine) (xs : List ℕ) → m.state ≡ State.state_normal → run m (escape xs) ≡ (m, xs)
unfolding run step_in
run-escape m [] st = refl
run-escape m (c ∷ cs) st = ground (arith, run-escape m cs st)

-- What a machine does with a session's reads, one after the other: each is a window of the buffer,
-- with any bytes before and behind it, and `parse` leaves the bytes `now` at its front.
abbrev pub Session : Machine → List (List ℕ) → Machine → List ℕ → Type 0
Session m [] last out = (m ≡ last) × (out ≡ [])
Session m (todo ∷ reads) last out =
    (next : Machine) × (now : List ℕ) × (later : List ℕ) × ((done rest : List ℕ)
      → (junk : List ℕ) × (parse (window m done todo rest)
          ≡ some (compacted (next, now) done junk rest))
        × (length now + length junk ≡ length todo))
    × Session next reads last later
    × (out ≡ now ++ later)

Session-run :
    (m : Machine) (reads : List (List ℕ))
    → Session m reads (run m (flatten reads)).0 (run m (flatten reads)).1
unfolding run
Session-run m [] = (refl, refl)
Session-run m (todo ∷ reads) =
    let first = run m todo in
    let split = run-append m todo (flatten reads) in
    (
      first.0,
      first.1,
      (run first.0 (flatten reads)).1,
      λ done rest. parse-run m done todo rest,
      subst (λ t. Session first.0 reads t (run first.0 (flatten reads)).1)
          (sym (ap (λ r. r.0) split)) (Session-run first.0 reads),
      ap (λ r. r.1) split,
    )

-- Data that a client sends between commands, with every IAC doubled, and that arrives in any number of
-- reads, cut anywhere, also between the two bytes of a doubled IAC: what `parse` leaves in the buffer
-- read by read is the data, it sends nothing, and behind the last read the whole parser state is as
-- it was before the first.
pub parse-escape :
    (m : Machine) (reads : List (List ℕ)) (xs : List ℕ)
    → m.state ≡ State.state_normal
    → flatten reads ≡ escape xs
    → Session m reads m xs
parse-escape m reads xs st e =
    let whole : run m (flatten reads) ≡ (m, xs) = ap (run m) e ∙ run-escape m xs st in
    subst (λ (r : Machine × List ℕ). Session m reads r.0 r.1) whole (Session-run m reads)
