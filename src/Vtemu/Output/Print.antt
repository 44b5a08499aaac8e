-- ===== src/Vtemu/Output/Print.antt =====
-- A printable character: the one cell that it writes.
use tek.Base.{
  ℕ, ◌+◌, ◌*◌, ◌%◌, ◌^◌, ◌≤◌, ◌<◌, ◌≡◌, refl, sym, ap, ◌∙◌, true, false, some, none, ltb, arith,
  if◌then◌else◌, Bool-cases, inl, inr, lt→ltb,
}
use tek.Base.Int.{pos}
use tek.Vtemu.State.{
  Vt, max_rows, max_cols, cells, update, index, natural, rc2off, set_dirty, set_length,
}
use tek.Vtemu.Output.{put_cell, extend_line, write_cell}

abbrev pub at : ℕ → ℕ → Vt → Vt
at y x vt = record vt { cy = pos y; cx = pos x }

pub at_eq : (y x : ℕ) (vt : Vt) → vt.cy ≡ pos y → vt.cx ≡ pos x → vt ≡ at y x vt
at_eq y x vt ey ex = λ i. record vt { cy = ey i; cx = ex i }

-- The terminal with `c` written at line `y`, column `x`.
abbrev pub written_vt : ℕ → ℕ → ℕ → Vt → Vt
written_vt y x c vt = record vt {
  buffer = update vt.buffer (y * max_cols + x) c;
  attrib = update vt.attrib (y * max_cols + x) vt.style;
  dirtylines = update vt.dirtylines y true;
  linelengths =
      if ltb (vt.linelengths y) x then update vt.linelengths y (x % 2 ^ 8) else vt.linelengths;
}

extend_line-some :
    (y x : ℕ) (vt : Vt)
    → y < max_rows
    → extend_line (at y x vt)
      ≡ some (record (at y x vt) {
        linelengths =
            if ltb (vt.linelengths y) x
            then update vt.linelengths y (x % 2 ^ 8)
            else vt.linelengths;
      })
unfolding extend_line index natural set_length
extend_line-some y x vt h = elim (Bool-cases (ltb (vt.linelengths y) x)) [
  | inl longer ↦ rw (lt→ltb y max_rows h) (rw longer refl)
  | inr same ↦ rw (lt→ltb y max_rows h) (rw same refl)
]

write_cell-at :
    (y x c : ℕ) (vt : Vt)
    → x < vt.cols
    → vt.cols ≤ max_cols
    → y < max_rows
    → write_cell c (at y x vt) ≡ some (written_vt y x c (at y x vt))
unfolding write_cell put_cell index rc2off set_dirty
write_cell-at y x c vt h k l = rw (lt→ltb x vt.cols h) (
    rw (lt→ltb (y * max_cols + x) cells (omega arith)) (
      rw (lt→ltb y max_rows l) (
        extend_line-some y x
          (record vt {
            buffer = update vt.buffer (y * max_cols + x) c;
            attrib = update vt.attrib (y * max_cols + x) vt.style;
            dirtylines = update vt.dirtylines y true;
          })
          l)))

-- A printable character inside the screen writes one cell, with the current style, marks the
-- line, lets its length reach the column, and changes no other cell, line or length.
pub write_cell-some :
    (y x c : ℕ) (vt : Vt)
    → vt.cy ≡ pos y
    → vt.cx ≡ pos x
    → x < vt.cols
    → vt.cols ≤ max_cols
    → y < max_rows
    → write_cell c vt ≡ some (written_vt y x c vt)
write_cell-some y x c vt ey ex h k l =
    let same = at_eq y x vt ey ex in
    ap (write_cell c) same
    ∙ write_cell-at y x c vt h k l
    ∙ ap (λ v. some (written_vt y x c v)) (sym same)

-- On a line that the screen has no room for, the write leaves the array.
pub write_cell_outside :
    (y x c : ℕ) (vt : Vt)
    → vt.cy ≡ pos y
    → vt.cx ≡ pos x
    → x < vt.cols
    → max_rows ≤ y
    → write_cell c vt ≡ none
write_cell_outside y x c vt ey ex h l =
    ap (write_cell c) (at_eq y x vt ey ex) ∙ outside y x c vt h l
  where
    outside : (y x c : ℕ) (vt : Vt) → x < vt.cols → max_rows ≤ y → write_cell c (at y x vt) ≡ none
    outside y x c vt h l =
        unfold write_cell put_cell index rc2off in
        rw (lt→ltb x vt.cols h)
          (let far : ltb (y * max_cols + x) cells ≡ false = ground arith in rw far refl)
