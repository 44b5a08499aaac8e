-- ===== src/Telnet/Negotiate.antt =====
-- Option negotiation: the answer to each command, on every option.
use tek.Base.{ℕ, ◌≡◌, ◌⊎◌, ◌||◌, ◌++◌, List, [], ◌∷◌, arith, ◌==◌, if◌then◌else◌}
use tek.Telnet.{Machine, State, iac, will, wont, do_opt, dont, is_silent, is_terminal, step_in}
use tek.Telnet.Compact.{run}

abbrev pub IsCommand : ℕ → Type 0
IsCommand code = (code ≡ will) ⊎ (code ≡ wont) ⊎ (code ≡ do_opt) ⊎ (code ≡ dont)

-- The refusal that RFC 854 has for a command: an offer is declined, a request is denied.
abbrev pub refusal : ℕ → ℕ
refusal code = if code == will || code == wont then dont else wont

abbrev pub answer : ℕ → ℕ → List (List ℕ)
answer code option =
    if is_silent option
    then []
    else (iac ∷ (if is_terminal option then do_opt else refusal code) ∷ option ∷ []) ∷ []

-- A three-byte command from the normal state passes no byte on to the shell, sends at most the
-- one answer, leaves the window size and the option data alone, and ends in the normal state.
pub run_command :
    (m : Machine) (code option : ℕ)
    → m.state ≡ State.state_normal
    → IsCommand code
    → run m (iac ∷ code ∷ option ∷ [])
      ≡ (record m { code = code; sent = m.sent ++ answer code option }, [])
unfolding run step_in
run_command m code option st k = ground (arith, lem)
  where
    lem : m.sent ++ [] ≡ m.sent
    lem = mathlib.Core.List.append-nil m.sent
