-- ===== src/Vtemu/Output/Escape.antt =====
-- The two-byte escapes: reset, and saving and restoring the cursor.
use tek.Base.{
  ℕ, ◌-◌, ◌≤◌, ◌<◌, ◌≡◌, ◌≢◌, refl, sym, ap, ◌∙◌, true, false, some, [], ◌∷◌, ◌++◌, arith, ◌>>=◌,
}
use tek.Base.Int.{pos, ◌-ℤ◌}
use tek.Vtemu.State.{Vt, cells, max_rows, max_cols, update, update_range}
use tek.Vtemu.Lines.{vt_reset}
use tek.Vtemu.Lines.Effect.{cleared_vt}
use tek.Vtemu.Output.{
  esc, put_escseq, escape_byte, simple_escape, plain_byte, output_byte, vt_output, ground_state,
}
use tek.Vtemu.Output.Overrun.{vt_output-append}
use tek.Vtemu.Output.Position.{pair_of, positioned, vt_output-positioned}
use tek.Vtemu.Output.Sequence.{one_byte}
use tek.Vtemu.Output.Screen.{IsOnScreen}

-- The terminal when the second byte of an escape has been kept.
abbrev pub escaped : ℕ → Vt → Vt
escaped c vt = record vt { escseq = update (update vt.escseq 0 esc) 1 c; state = 2 }

-- The second bytes that are looked up at once: no bracket and no parenthesis.
abbrev pub IsSimple : ℕ → Type 0
IsSimple c = (c ≢ b'[') × (c ≢ b'(') × (c ≢ b')')

abbrev begun : Vt → Vt
begun vt = record vt { escseq = update vt.escseq 0 esc; state = 1 }

first_byte : (vt : Vt) → vt.state ≡ 0 → output_byte esc vt ≡ some (begun vt)
unfolding output_byte plain_byte put_escseq
first_byte vt st = ground arith

second_byte :
    (c : ℕ) (vt : Vt)
    → IsSimple c
    → output_byte c (begun vt)
      ≡ (simple_escape c (escaped c vt) >>= λ done. some (ground_state done))
unfolding output_byte escape_byte put_escseq
second_byte c vt p = ground arith

simple_output :
    (c : ℕ) (vt : Vt)
    → vt.state ≡ 0
    → IsSimple c
    → vt_output (esc ∷ c ∷ []) vt
      ≡ (simple_escape c (escaped c vt) >>= λ done. some (ground_state done))
simple_output c vt st p =
    vt_output-append (esc ∷ []) (c ∷ []) vt
    ∙ ap (λ o. o >>= vt_output (c ∷ [])) (one_byte esc vt ∙ first_byte vt st)
    ∙ one_byte c (begun vt)
    ∙ second_byte c vt p

-- What a reset leaves: an empty screen that is to be redrawn whole, the cursor and the saved cursor
-- at the top left, margins at the screen's ends, no style and no mode, and a valid state for text.
pub record IsReset (vt : Vt) : Type 0 where
  pub empty : (k : ℕ) → k < cells → (vt.buffer k ≡ 0) × (vt.attrib k ≡ 0)
  pub lines_empty : (i : ℕ) → i < max_rows → (vt.linelengths i ≡ 0) × (vt.dirtylines i ≡ true)
  pub cursor : (vt.cx ≡ pos 0) × (vt.cy ≡ pos 0) × (vt.sx ≡ pos 0) × (vt.sy ≡ pos 0)
  pub margins : (vt.margintop ≡ pos 0) × (vt.marginbot ≡ pos (vt.rows - 1))
  pub modes :
      (vt.wrapping ≡ false) × (vt.hidecursor ≡ false) × (vt.focusblur ≡ false) × (vt.style ≡ 0)
  pub on_screen : IsOnScreen 0 vt

abbrev reset_fields : Vt → Vt
reset_fields vt = record vt {
  state = 0;
  wrapping = false;
  hidecursor = false;
  focusblur = false;
  style = 0;
  cx = pos 0;
  sx = pos 0;
  cy = pos 0;
  sy = pos 0;
  dirtylines = λ i. false;
  margintop = pos 0;
  marginbot = pos (vt.rows - 1);
}

abbrev reset_to : Vt → Vt
reset_to vt =
    let cleared = cleared_vt 0 cells (reset_fields vt) in
    record cleared {
      linelengths = update_range cleared.linelengths 0 max_rows 0;
      dirtylines = update_range cleared.dirtylines 0 max_rows true;
    }

vt_reset-some : (vt : Vt) → 0 < vt.rows → vt_reset vt ≡ some (reset_to vt)
unfolding vt_reset
vt_reset-some vt h =
    let bottom : pos vt.rows -ℤ pos 1 ≡ pos (vt.rows - 1) = ground arith in rw bottom refl

reset_to-IsReset :
    (vt : Vt) → 0 < vt.rows → vt.rows ≤ max_rows → vt.cols ≤ max_cols → IsReset (reset_to vt)
reset_to-IsReset vt h k l = record {
  empty = λ j b. (ground arith, ground arith);
  lines_empty = λ j b. (ground arith, ground arith);
  cursor = (refl, refl, refl, refl);
  margins = (refl, refl);
  modes = (refl, refl, refl, refl);
  on_screen = record {
    column = 0;
    line = 0;
    top = 0;
    bottom = vt.rows - 1;
    column_is = refl;
    line_is = refl;
    top_is = refl;
    bottom_is = refl;
    column_le = omega arith;
    line_le = omega arith;
    top_le = omega arith;
    bottom_lt = omega arith;
    rows_le = k;
    cols_le = l;
    idle = refl;
  };
}

-- `ESC c` on any terminal that is in no sequence, whatever its cursor and margins, and whose screen
-- fits the arrays, leaves it reset.
pub vt_output-IsReset :
    (vt : Vt)
    → vt.state ≡ 0
    → 0 < vt.rows
    → vt.rows ≤ max_rows
    → vt.cols ≤ max_cols
    → (vt' : Vt) × (vt_output (esc ∷ b'c' ∷ []) vt ≡ some vt') × IsReset vt'
unfolding simple_escape
vt_output-IsReset vt st h k l = (
  reset_to (escaped b'c' vt),
  simple_output b'c' vt st (omega arith) ∙ rw (vt_reset-some (escaped b'c' vt) h) refl,
  reset_to-IsReset (escaped b'c' vt) h k l,
)

saved :
    (vt : Vt)
    → vt.state ≡ 0
    → vt_output (esc ∷ b'7' ∷ []) vt
      ≡ some (ground_state (record (escaped b'7' vt) { sx = vt.cx; sy = vt.cy }))
unfolding simple_escape
saved vt st = simple_output b'7' vt st (omega arith)

restored :
    (vt : Vt)
    → vt.state ≡ 0
    → vt_output (esc ∷ b'8' ∷ []) vt
      ≡ some (ground_state (record (escaped b'8' vt) { cx = vt.sx; cy = vt.sy }))
unfolding simple_escape
restored vt st = simple_output b'8' vt st (omega arith)

-- Saving the cursor, moving it anywhere and restoring it brings the cursor back, with the screen,
-- the margins and the style as they were.
pub vt_output-restored :
    (vt : Vt) (row col : ℕ)
    → vt.state ≡ 0
    → 0 < row
    → row < 1000
    → 0 < col
    → col < 1000
    → (seq : ℕ → ℕ) × (vt_output
          ((esc ∷ b'7' ∷ [])
            ++ ((esc ∷ b'[' ∷ (pair_of row col ++ (b'H' ∷ []))) ++ (esc ∷ b'8' ∷ [])))
          vt
        ≡ some (record vt { escseq = seq; sx = vt.cx; sy = vt.cy }))
vt_output-restored vt row col st r r' c c' =
    let first = ground_state (record (escaped b'7' vt) { sx = vt.cx; sy = vt.cy }) in
    let middle = positioned row col first in
    let move = esc ∷ b'[' ∷ (pair_of row col ++ (b'H' ∷ [])) in
    (
      (escaped b'8' middle).escseq,
      vt_output-append (esc ∷ b'7' ∷ []) (move ++ (esc ∷ b'8' ∷ [])) vt
          ∙ ap (λ o. o >>= vt_output (move ++ (esc ∷ b'8' ∷ []))) (saved vt st)
          ∙ vt_output-append move (esc ∷ b'8' ∷ []) first
          ∙ ap (λ o. o >>= vt_output (esc ∷ b'8' ∷ []))
              (vt_output-positioned first row col refl r r' c c')
          ∙ restored middle refl
          ∙ ap
              (λ n. some (record vt {
                state = n;
                escseq = (escaped b'8' middle).escseq;
                sx = vt.cx;
                sy = vt.cy;
              }))
              (sym st),
    )
