-- ===== src/Vtemu/Output/Overrun.antt =====
-- Where the emulator leaves its arrays: a cursor position beyond the screen, an escape sequence
-- longer than `escseq`, and a line longer than a `short` can count.
use mathlib.Core.Path.{subst}
use tek.Base.{
  ℕ, ◌+◌, ◌-◌, ◌*◌, ◌^◌, ◌≤◌, ◌<◌, ◌≡◌, refl, ap, ◌∙◌, ◌&&◌, not, true, false, some, none, Option,
  List, [], ◌∷◌, ◌++◌, All, length, ltb, arith, if◌then◌else◌, ◌>>=◌, Bool-cases, inl, inr,
}
use tek.Base.Int.{ℤ, pos, negsuc, ◌+ℤ◌, ltb_ℤ, to_short, to_short_id}
use tek.Vtemu.State.{Vt, max_rows, max_cols, escseq_size, index, rc2off}
use tek.Vtemu.Output.{
  esc, isprint, put_escseq, escape_byte, write_cell, put_cell, print_char, plain_byte, output_byte,
  vt_output,
}
use tek.Vtemu.Output.Print.{written_vt, write_cell-some, write_cell_outside}
use tek.Vtemu.Output.Position.{pair_of, positioned, vt_output-positioned}
use tek.Vtemu.Output.Sequence.{IsParam, inside, stored, opening, open_csi, params}

bind_assoc :
    (o : Option Vt) (f g h : Vt → Option Vt)
    → ((w : Vt) → h w ≡ (f w >>= g))
    → (o >>= h) ≡ ((o >>= f) >>= g)
bind_assoc none f g h e = refl
bind_assoc (some w) f g h e = e w

pub vt_output-append :
    (xs ys : List ℕ) (vt : Vt) → vt_output (xs ++ ys) vt ≡ (vt_output xs vt >>= vt_output ys)
unfolding vt_output
vt_output-append [] ys vt = refl
vt_output-append (x ∷ xs) ys vt =
    bind_assoc (output_byte x vt) (vt_output xs) (vt_output ys) (vt_output (xs ++ ys))
      (vt_output-append xs ys)

print_byte :
    (c : ℕ) (vt : Vt) → vt.state ≡ 0 → isprint c ≡ true → output_byte c vt ≡ print_char c vt
unfolding output_byte plain_byte
print_byte c vt st p = ground arith

output_one : (c : ℕ) (vt : Vt) → output_byte c vt ≡ none → vt_output (c ∷ []) vt ≡ none
unfolding vt_output
output_one c vt e = rw e refl

-- A cursor position on a line beyond the 32 lines of the arrays, in a column of the screen, is
-- accepted, and the next printable character is then written out of the arrays.
pub vt_output-position_overrun :
    (vt : Vt) (row col c : ℕ)
    → vt.state ≡ 0
    → max_rows < row
    → row < 1000
    → 0 < col
    → col ≤ vt.cols
    → col < 1000
    → isprint c ≡ true
    → vt_output ((esc ∷ b'[' ∷ (pair_of row col ++ (b'H' ∷ []))) ++ (c ∷ [])) vt ≡ none
unfolding print_char
vt_output-position_overrun vt row col c st r r' k k' k'' p =
    let there = positioned row col vt in
    vt_output-append (esc ∷ b'[' ∷ (pair_of row col ++ (b'H' ∷ []))) (c ∷ []) vt
    ∙ ap (λ o. o >>= vt_output (c ∷ [])) (vt_output-positioned vt row col st (omega arith) r' k k'')
    ∙ output_one c there (
        print_byte c there refl p
        ∙ ap (λ o. o >>= finish_print)
            (write_cell_outside (row - 1) (col - 1) c there refl refl (omega arith) (omega arith)))
  where
    finish_print : Vt → Option Vt
    finish_print w =
        let next = record w { cx = to_short (w.cx +ℤ pos 1) } in
        if next.wrapping && not (ltb_ℤ next.cx (pos next.cols))
        then tek.Vtemu.Lines.vt_newline next
        else some next

full_escseq : (c : ℕ) (s : ℕ) (vt : Vt) → vt.state ≡ s → escseq_size ≤ s → output_byte c vt ≡ none
unfolding output_byte escape_byte put_escseq
full_escseq c s vt st h = ground arith

-- A control sequence with more than 14 parameter bytes is written out of `escseq`.
pub vt_output-escseq_overrun :
    (vt : Vt) (xs rest : List ℕ) (c : ℕ)
    → vt.state ≡ 0
    → All IsParam xs
    → length xs ≡ 14
    → vt_output (esc ∷ b'[' ∷ (xs ++ (c ∷ rest))) vt ≡ none
unfolding vt_output
vt_output-escseq_overrun vt xs rest c st ps h =
    open_csi vt (xs ++ (c ∷ rest)) st
    ∙ params xs 2 (opening vt.escseq) vt (c ∷ rest) (omega arith) (omega arith) refl ps
    ∙ rw
        (full_escseq c (2 + length xs) (inside (2 + length xs) (stored (opening vt.escseq) 2 xs) vt)
          refl (omega arith))
        refl

-- A terminal that does not wrap, with its cursor in column `x` of a line of the screen.
pub record OnLine (x : ℤ) (vt : Vt) : Type 0 where
  pub line : ℕ
  pub line_lt : line < max_rows
  pub line_is : vt.cy ≡ pos line
  pub column_is : vt.cx ≡ x
  pub cols_pos : 0 < vt.cols
  pub cols_le : vt.cols ≤ max_cols
  pub unwrapped : vt.wrapping ≡ false
  pub idle : vt.state ≡ 0

write_cell_on :
    (x c : ℕ) (vt : Vt)
    → OnLine (pos x) vt
    → (w : Vt) × (write_cell c vt ≡ some w) × OnLine (pos x) w
write_cell_on x c vt s = elim (Bool-cases (ltb x vt.cols)) [
  | inl inside ↦ (
    written_vt s.line x c vt,
    write_cell-some s.line x c vt s.line_is s.column_is (ground arith) s.cols_le s.line_lt,
    record {
      line = s.line;
      line_lt = s.line_lt;
      line_is = s.line_is;
      column_is = s.column_is;
      cols_pos = s.cols_pos;
      cols_le = s.cols_le;
      unwrapped = s.unwrapped;
      idle = s.idle;
    },
  )
  | inr beyond ↦ (vt, unfold write_cell in rw s.column_is (rw beyond refl), s)
]

print_on :
    (x c : ℕ) (vt : Vt)
    → OnLine (pos x) vt
    → isprint c ≡ true
    → (w : Vt) × (output_byte c vt ≡ some w) × OnLine (to_short (pos (x + 1))) w
unfolding print_char
print_on x c vt s p =
    let (w, ew, sw) = write_cell_on x c vt s in
    let moved : to_short (w.cx +ℤ pos 1) ≡ to_short (pos (x + 1)) =
      ap (λ z. to_short (z +ℤ pos 1)) sw.column_is in
    (
      record w { cx = to_short (pos (x + 1)) },
      print_byte c vt s.idle p ∙ rw ew (rw moved (rw sw.unwrapped refl)),
      record {
        line = sw.line;
        line_lt = sw.line_lt;
        line_is = sw.line_is;
        column_is = refl;
        cols_pos = sw.cols_pos;
        cols_le = sw.cols_le;
        unwrapped = sw.unwrapped;
        idle = sw.idle;
      },
    )

write_cell_left : (c : ℕ) (vt : Vt) → OnLine (negsuc 32767) vt → write_cell c vt ≡ none
write_cell_left c vt s =
    ap (write_cell c) same ∙ (unfold write_cell put_cell index rc2off in rw left refl)
  where
    same : vt ≡ record vt { cy = pos s.line; cx = negsuc 32767 }
    same = λ i. record vt { cy = s.line_is i; cx = s.column_is i }

    left : pos (s.line * max_cols) +ℤ negsuc 32767 ≡ negsuc (32767 - s.line * max_cols)
    left = ground (arith, s.line_lt)

print_left :
    (c : ℕ) (vt : Vt) → OnLine (negsuc 32767) vt → isprint c ≡ true → output_byte c vt ≡ none
unfolding print_char
print_left c vt s p = print_byte c vt s.idle p ∙ rw (write_cell_left c vt s) refl

abbrev pub IsPrintable : ℕ → Type 0
IsPrintable c = isprint c ≡ true

-- Without wrapping, printable characters that take the column from `x` to 2 ^ 15 turn it into the
-- lowest `short`; one more is then written in front of the screen's arrays.
pub vt_output-column_overrun :
    (cs : List ℕ) (x d : ℕ) (vt : Vt)
    → OnLine (pos x) vt
    → x < 2 ^ 15
    → x + length cs ≡ 2 ^ 15
    → All IsPrintable cs
    → isprint d ≡ true
    → vt_output (cs ++ (d ∷ [])) vt ≡ none
unfolding vt_output
vt_output-column_overrun [] x d vt s h e ps p = absurd (omega arith)
vt_output-column_overrun (c ∷ []) x d vt s h e (pc, ps) p =
    let (w, ew, sw) = print_on x c vt s pc in
    let last : to_short (pos (x + 1)) ≡ negsuc 32767 =
      ap (λ n. to_short (pos n)) (let full : x + 1 ≡ 2 ^ 15 = omega arith in full) in
    rw ew (rw (print_left d w (subst (λ z. OnLine z w) last sw) p) refl)
vt_output-column_overrun (c ∷ c' ∷ cs) x d vt s h e (pc, ps) p =
    let (w, ew, sw) = print_on x c vt s pc in
    let next : to_short (pos (x + 1)) ≡ pos (x + 1) = to_short_id (x + 1) (omega arith) in
    rw ew (
      vt_output-column_overrun (c' ∷ cs) (x + 1) d w (subst (λ z. OnLine z w) next sw) (omega arith)
        (omega arith) ps p)
