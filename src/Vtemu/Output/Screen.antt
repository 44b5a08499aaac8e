-- ===== src/Vtemu/Output/Screen.antt =====
-- The states of the emulator whose cursor is on a line of the screen, and the steps between them.
use tek.Base.{ℕ, ◌+◌, ◌≤◌, ◌<◌, ◌≡◌, inl, inr, refl, ap, ◌∙◌, some, Option, ltb, arith, Bool-cases}
use tek.Base.Int.{pos}
use tek.Vtemu.State.{Vt, max_rows, max_cols}
use tek.Vtemu.Lines.{vt_newline}
use tek.Vtemu.Lines.Newline.{vt_newline_above, vt_newline_scroll, newline_vt, stepped_vt}

-- The cursor is on a line of the screen, not below the bottom margin, and at most in column `x`;
-- the margins are lines of the screen, the screen fits the arrays, and no escape sequence has begun.
pub record IsOnScreen (x : ℕ) (vt : Vt) : Type 0 where
  pub column : ℕ
  pub line : ℕ
  pub top : ℕ
  pub bottom : ℕ
  pub column_is : vt.cx ≡ pos column
  pub line_is : vt.cy ≡ pos line
  pub top_is : vt.margintop ≡ pos top
  pub bottom_is : vt.marginbot ≡ pos bottom
  pub column_le : column ≤ x
  pub line_le : line ≤ bottom
  pub top_le : top ≤ bottom
  pub bottom_lt : bottom < vt.rows
  pub rows_le : vt.rows ≤ max_rows
  pub cols_le : vt.cols ≤ max_cols
  pub idle : vt.state ≡ 0

-- A step that succeeds and stays on the screen, with the column bound `x`.
abbrev pub Stays : ℕ → Option Vt → Type 0
Stays x o = (vt : Vt) × (o ≡ some vt) × IsOnScreen x vt

pub newline-Stays : (x : ℕ) (vt : Vt) → IsOnScreen x vt → Stays x (vt_newline vt)
newline-Stays x vt s = elim (Bool-cases (ltb s.line s.bottom)) [
  | inl above ↦ (
    stepped_vt s.line vt,
    vt_newline_above s.line s.top s.bottom vt s.line_is s.top_is s.bottom_is (ground arith)
        (omega (arith, s.bottom_lt, s.rows_le)),
    record {
      column = 0;
      line = s.line + 1;
      top = s.top;
      bottom = s.bottom;
      column_is = refl;
      line_is = refl;
      top_is = s.top_is;
      bottom_is = s.bottom_is;
      column_le = omega arith;
      line_le = ground arith;
      top_le = s.top_le;
      bottom_lt = s.bottom_lt;
      rows_le = s.rows_le;
      cols_le = s.cols_le;
      idle = s.idle;
    },
  )
  | inr at_end ↦
      let e : s.line ≡ s.bottom = ground (arith, s.line_le) in
      (
        newline_vt s.top s.bottom vt,
        vt_newline_scroll s.top s.bottom vt (s.line_is ∙ ap pos e) s.top_is s.bottom_is s.top_le
            (omega (arith, s.bottom_lt, s.rows_le)),
        record {
          column = 0;
          line = s.bottom;
          top = s.top;
          bottom = s.bottom;
          column_is = refl;
          line_is = refl;
          top_is = refl;
          bottom_is = refl;
          column_le = omega arith;
          line_le = omega arith;
          top_le = s.top_le;
          bottom_lt = s.bottom_lt;
          rows_le = s.rows_le;
          cols_le = s.cols_le;
          idle = s.idle;
        },
      )
]

-- Moving the column keeps the rest.
pub at_column :
    (x c : ℕ) (vt : Vt) → IsOnScreen x vt → c ≤ x → IsOnScreen x (record vt { cx = pos c })
at_column x c vt s h = record {
  column = c;
  line = s.line;
  top = s.top;
  bottom = s.bottom;
  column_is = refl;
  line_is = s.line_is;
  top_is = s.top_is;
  bottom_is = s.bottom_is;
  column_le = h;
  line_le = s.line_le;
  top_le = s.top_le;
  bottom_lt = s.bottom_lt;
  rows_le = s.rows_le;
  cols_le = s.cols_le;
  idle = s.idle;
}

pub wider : (x z : ℕ) (vt : Vt) → IsOnScreen x vt → x ≤ z → IsOnScreen z vt
wider x z vt s h = record {
  column = s.column;
  line = s.line;
  top = s.top;
  bottom = s.bottom;
  column_is = s.column_is;
  line_is = s.line_is;
  top_is = s.top_is;
  bottom_is = s.bottom_is;
  column_le = omega (arith, s.column_le);
  line_le = s.line_le;
  top_le = s.top_le;
  bottom_lt = s.bottom_lt;
  rows_le = s.rows_le;
  cols_le = s.cols_le;
  idle = s.idle;
}

pub line_lt : (x : ℕ) (vt : Vt) (s : IsOnScreen x vt) → s.line < max_rows
line_lt x vt s = omega (arith, s.line_le, s.bottom_lt, s.rows_le)
