-- ===== src/Vtemu/Output/Position.antt =====
-- `ESC [ row ; column H`: the cursor goes where the sequence says, whatever the screen size.
use mathlib.Core.Path.{subst}
use tek.Base.{
  ℕ, ◌+◌, ◌-◌, ◌≤◌, ◌<◌, ◌≡◌, refl, sym, ap, ◌∙◌, some, List, [], ◌∷◌, ◌++◌, All, All-append,
  length, length-append, arith, append_assoc,
}
use tek.Base.Int.{pos, ◌-ℤ◌, to_short}
use tek.Vtemu.State.{Vt}
use tek.Vtemu.Args.{asciinum, asciinum2}
use tek.Vtemu.Args.Decimal.{At, decimal, asciinum-decimal, asciinum2-decimal}
use tek.Vtemu.Csi.{csi, cursor_motion}
use tek.Vtemu.Output.{esc, vt_output}
use tek.Vtemu.Output.Sequence.{IsParam, stored, At-stored, inside, opening, vt_output-csi}

decimal-IsParam : (n : ℕ) → n < 1000 → All IsParam (decimal n)
decimal-IsParam n h = ground arith

length-decimal : (n : ℕ) → length (decimal n) ≤ 3
length-decimal n = ground arith

-- The sequence without its `ESC [` and its final byte.
abbrev pub pair_of : ℕ → ℕ → List ℕ
pair_of row col = decimal row ++ (b';' ∷ decimal col)

At-prefix : (xs ys : List ℕ) (f : ℕ → ℕ) (k : ℕ) → At f k (xs ++ ys) → At f k xs
At-prefix [] ys f k a = tt
At-prefix (x ∷ xs) ys f k (e, a) = (e, At-prefix xs ys f (k + 1) a)

pair-IsParam : (row col : ℕ) → row < 1000 → col < 1000 → All IsParam (pair_of row col)
pair-IsParam row col h k =
    All-append IsParam (decimal row) (b';' ∷ decimal col) (decimal-IsParam row h)
      (omega arith, decimal-IsParam col k)

-- The terminal after the sequence.
abbrev pub positioned : ℕ → ℕ → Vt → Vt
positioned row col vt = record vt {
  cy = pos (row - 1);
  cx = pos (col - 1);
  escseq = stored (opening vt.escseq) 2 (pair_of row col ++ (b'H' ∷ 0 ∷ []));
  state = 0;
}

back_one : (n : ℕ) → 0 < n → n < 1000 → to_short (pos n -ℤ pos 1) ≡ pos (n - 1)
back_one n h k = ground arith

motion :
    (vt : Vt) (row col : ℕ)
    → asciinum vt.escseq 2 1 ≡ row
    → asciinum2 vt.escseq 2 1 ≡ col
    → 0 < row
    → row < 1000
    → 0 < col
    → col < 1000
    → csi b'H' vt ≡ some (record vt { cy = pos (row - 1); cx = pos (col - 1) })
unfolding csi cursor_motion
motion vt row col er ec r r' c c' = rw (er, ec) (rw (back_one row r r', back_one col c c') refl)

regroup :
    (row col : ℕ)
    → pair_of row col ++ (b'H' ∷ 0 ∷ []) ≡ decimal row ++ (b';' ∷ (decimal col ++ (b'H' ∷ 0 ∷ [])))
regroup row col = append_assoc (decimal row) (b';' ∷ decimal col) (b'H' ∷ 0 ∷ [])

ending :
    (row col : ℕ)
    → (decimal row ++ (b';' ∷ (decimal col ++ (b'H' ∷ [])))) ++ (0 ∷ [])
      ≡ decimal row ++ (b';' ∷ (decimal col ++ (b'H' ∷ 0 ∷ [])))
ending row col =
    append_assoc (decimal row) (b';' ∷ (decimal col ++ (b'H' ∷ []))) (0 ∷ [])
    ∙ ap (λ t. decimal row ++ (b';' ∷ t)) (append_assoc (decimal col) (b'H' ∷ []) (0 ∷ []))

length-pair : (row col : ℕ) → length (pair_of row col) ≤ 12
length-pair row col = omega (
  arith,
  length-append (decimal row) (b';' ∷ decimal col),
  length-decimal row,
  length-decimal col,
)

-- `ESC [ row ; column H` with numbers from 1 to 999 moves the cursor to that place, counted from 0,
-- and changes nothing else but `escseq`. The place is not held against the screen's size.
pub vt_output-positioned :
    (vt : Vt) (row col : ℕ)
    → vt.state ≡ 0
    → 0 < row
    → row < 1000
    → 0 < col
    → col < 1000
    → vt_output (esc ∷ b'[' ∷ (pair_of row col ++ (b'H' ∷ []))) vt ≡ some (positioned row col vt)
vt_output-positioned vt row col st r r' c c' =
    let seq = stored (opening vt.escseq) 2 (pair_of row col ++ (b'H' ∷ 0 ∷ [])) in
    let at : At seq 2 (decimal row ++ (b';' ∷ (decimal col ++ (b'H' ∷ 0 ∷ [])))) =
      subst (At seq 2) (regroup row col)
        (At-stored (pair_of row col ++ (b'H' ∷ 0 ∷ [])) (opening vt.escseq) 2) in
    let ran =
      vt_output-csi vt (pair_of row col) b'H' st (pair-IsParam row col r' c') (length-pair row col)
        (omega arith) in
    let here = inside (2 + length (pair_of row col) + 1) seq vt in
    let first : asciinum seq 2 1 ≡ row = asciinum-decimal seq 2 row b';' 1 r r' refl (
      At-prefix (decimal row ++ (b';' ∷ [])) (decimal col ++ (b'H' ∷ 0 ∷ [])) seq 2 (
        subst (At seq 2)
          (sym (append_assoc (decimal row) (b';' ∷ []) (decimal col ++ (b'H' ∷ 0 ∷ [])))) at)) in
    let both = decimal row ++ (b';' ∷ (decimal col ++ (b'H' ∷ []))) in
    let second : asciinum2 seq 2 1 ≡ col =
      asciinum2-decimal seq 2 row col b'H' 1 r' c c' refl
        (At-prefix both (0 ∷ []) seq 2 (subst (At seq 2) (sym (ending row col)) at)) in
    ran ∙ rw (motion here row col first second r r' c c') refl
