-- ===== src/Vtemu/Output/Sequence.antt =====
-- A control sequence as a whole: the bytes after `ESC [` are kept in `escseq`, and the final byte
-- runs its case on them.
use tek.Base.{
  ℕ, suc, ◌+◌, ◌≤◌, ◌<◌, ◌≡◌, refl, sym, ap, ◌∙◌, some, none, Option, List, [], ◌∷◌, ◌++◌, All,
  length, arith, ◌>>=◌,
}
use tek.Vtemu.State.{Vt, update, escseq_size}
use tek.Vtemu.Csi.{csi}
use tek.Vtemu.Args.Decimal.{At}
use tek.Vtemu.Output.{
  esc, put_escseq, escape_byte, plain_byte, output_byte, vt_output, ground_state,
}

-- Bytes stored one after the other from position `k` on.
abbrev pub stored : (ℕ → ℕ) → ℕ → List ℕ → ℕ → ℕ
stored f k [] = f
stored f k (x ∷ xs) = stored (update f k x) (k + 1) xs

stored_below : (xs : List ℕ) (f : ℕ → ℕ) (k j : ℕ) → j < k → stored f k xs j ≡ f j
stored_below [] f k j h = refl
stored_below (x ∷ xs) f k j h =
    stored_below xs (update f k x) (k + 1) j (omega arith) ∙ ground arith

pub At-stored : (xs : List ℕ) (f : ℕ → ℕ) (k : ℕ) → At (stored f k xs) k xs
At-stored [] f k = tt
At-stored (x ∷ xs) f k = (
  stored_below xs (update f k x) (k + 1) k (omega arith) ∙ ground arith,
  At-stored xs (update f k x) (k + 1),
)

-- The terminal inside a control sequence, with `s` bytes kept in `f`.
abbrev pub inside : ℕ → (ℕ → ℕ) → Vt → Vt
inside s f vt = record vt { state = s; escseq = f }

-- Parameter bytes: the digits, the semicolon and their neighbours.
abbrev pub IsParam : ℕ → Type 0
IsParam c = (b'0' ≤ c) × (c < 0x40)

param_byte :
    (s c : ℕ) (f : ℕ → ℕ) (vt : Vt)
    → 2 ≤ s
    → s < escseq_size
    → f 1 ≡ b'['
    → IsParam c
    → output_byte c (inside s f vt) ≡ some (inside (s + 1) (update f s c) vt)
unfolding output_byte escape_byte put_escseq
param_byte s c f vt h k e p = ground arith

pub params :
    (xs : List ℕ) (s : ℕ) (f : ℕ → ℕ) (vt : Vt) (rest : List ℕ)
    → 2 ≤ s
    → s + length xs ≤ escseq_size
    → f 1 ≡ b'['
    → All IsParam xs
    → vt_output (xs ++ rest) (inside s f vt)
      ≡ vt_output rest (inside (s + length xs) (stored f s xs) vt)
unfolding vt_output
params [] s f vt rest h k e p = ap (λ t. vt_output rest (inside t f vt)) (omega arith)
params (x ∷ xs) s f vt rest h k e (p, ps) =
    let len : s + 1 + length xs ≡ s + suc (length xs) = omega arith in
    rw (param_byte s x f vt h (omega arith) e p) (
      params xs (s + 1) (update f s x) vt rest (omega arith) (omega arith) (ground arith) ps
      ∙ ap (λ t. vt_output rest (inside t (stored f s (x ∷ xs)) vt)) len)

abbrev pub opening : (ℕ → ℕ) → ℕ → ℕ
opening f = update (update f 0 esc) 1 b'['

pub open_csi :
    (vt : Vt) (rest : List ℕ)
    → vt.state ≡ 0
    → vt_output (esc ∷ b'[' ∷ rest) vt ≡ vt_output rest (inside 2 (opening vt.escseq) vt)
unfolding vt_output output_byte plain_byte escape_byte put_escseq
open_csi vt rest st = ground arith

pub one_byte : (c : ℕ) (vt : Vt) → vt_output (c ∷ []) vt ≡ output_byte c vt
unfolding vt_output
one_byte c vt = whole (output_byte c vt)
  where
    whole : (o : Option Vt) → (o >>= λ vt'. some vt') ≡ o
    whole none = refl
    whole (some vt') = refl

-- The end of a sequence: the final byte is kept, a NUL is put behind it, and its case runs.
abbrev pub IsFinal : ℕ → Type 0
IsFinal c = (0x40 ≤ c) × (c ≤ 0x7e)

final_byte :
    (s c : ℕ) (f : ℕ → ℕ) (vt : Vt)
    → 2 ≤ s
    → s + 1 < escseq_size
    → f 1 ≡ b'['
    → IsFinal c
    → output_byte c (inside s f vt)
      ≡ (csi c (inside (s + 1) (stored f s (c ∷ 0 ∷ [])) vt) >>= λ done. some (ground_state done))
unfolding output_byte escape_byte put_escseq
final_byte s c f vt h k e p = ground arith

stored-append :
    (xs ys : List ℕ) (f : ℕ → ℕ) (k : ℕ)
    → stored f k (xs ++ ys) ≡ stored (stored f k xs) (k + length xs) ys
stored-append [] ys f k = ap (λ t. stored f t ys) (omega arith)
stored-append (x ∷ xs) ys f k =
    stored-append xs ys (update f k x) (k + 1)
    ∙ ap (λ t. stored (stored f k (x ∷ xs)) t ys) (omega arith)

-- A control sequence of at most 12 parameter bytes, sent to a terminal that is in no sequence,
-- runs the case of its final byte once, on the state in which `escseq` holds the parameters, the
-- final byte and a NUL, and leaves the terminal in no sequence. Nothing else is changed.
pub vt_output-csi :
    (vt : Vt) (xs : List ℕ) (c : ℕ)
    → vt.state ≡ 0
    → All IsParam xs
    → length xs ≤ 12
    → IsFinal c
    → vt_output (esc ∷ b'[' ∷ (xs ++ (c ∷ []))) vt ≡ (
        csi c (inside (2 + length xs + 1) (stored (opening vt.escseq) 2 (xs ++ (c ∷ 0 ∷ []))) vt)
        >>= λ done. some (ground_state done))
vt_output-csi vt xs c st ps h p =
    let f = opening vt.escseq in
    open_csi vt (xs ++ (c ∷ [])) st
    ∙ params xs 2 f vt (c ∷ []) (omega arith) (omega arith) refl ps
    ∙ one_byte c (inside (2 + length xs) (stored f 2 xs) vt)
    ∙ final_byte (2 + length xs) c (stored f 2 xs) vt (omega arith) (omega arith)
        (stored_below xs f 2 1 (omega arith)) p
    ∙ ap (λ g. csi c (inside (2 + length xs + 1) g vt) >>= λ done. some (ground_state done))
        (sym (stored-append xs (c ∷ 0 ∷ []) f 2))
