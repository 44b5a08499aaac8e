-- ===== src/Vtemu/Runs.antt =====
-- Concrete runs of the terminal emulator, and its theorems at concrete inputs.
use Prim.Native.Char.{code}
use Prim.Native.String.{String}
use tek.Base.{ℕ, ◌≡◌, refl, false, Option, none, some, List, [], ◌∷◌, ◌++◌, arith}
use tek.Base.Int.{ℤ, pos}
use tek.Vtemu.State.{Vt, Call, set_dirty, set_length}
use tek.Vtemu.Args.{asciinum, asciinum2, has_semicolon}
use tek.Vtemu.Region.{moveregion}
use tek.Vtemu.Region.Moved.{moved_vt, moveregion-moved}
use tek.Vtemu.Lines.{vt_movelines, vt_clearlines, vt_newline, scroll_up}
use tek.Vtemu.Csi.{
  csi, cursor_motion, csi_other, erase_display, clear_below, erase_line, clear_right,
  set_attributes, vt_setstyle, set_margins, report_status,
}
use tek.Vtemu.Output.{
  esc, vt_output, output_byte, plain_byte, escape_byte, put_escseq, print_char, write_cell,
  put_cell, extend_line, simple_escape,
}
use tek.Vtemu.Output.Position.{pair_of, positioned, vt_output-positioned}

abbrev codes : String → List ℕ
codes String.[] = []
codes (String.◌∷◌ c s) = code c ∷ codes s

abbrev blank : Vt
blank = record {
  state = 0;
  wrapping = false;
  hidecursor = false;
  focusblur = false;
  style = 0;
  escseq = λ i. 0;
  sx = pos 0;
  sy = pos 0;
  margintop = pos 0;
  marginbot = pos 23;
  cols = 80;
  rows = 24;
  buffer = λ i. 0;
  attrib = λ i. 0;
  cx = pos 0;
  cy = pos 0;
  dirtylines = λ i. false;
  linelengths = λ i. 0;
  log = [];
}

-- What a run shows: the cursor, a few cells, and the calls made.
abbrev shown : Option Vt → Option (ℤ × ℤ × List ℕ × List Call)
shown none = none
shown (some vt) =
    some (vt.cy, vt.cx, vt.buffer 0 ∷ vt.buffer 1 ∷ vt.buffer 128 ∷ vt.buffer 266 ∷ [], vt.log)

run : List ℕ → Option (ℤ × ℤ × List ℕ × List Call)
unfolding vt_output output_byte plain_byte escape_byte put_escseq print_char write_cell put_cell
    extend_line simple_escape csi cursor_motion csi_other erase_display clear_below erase_line
    clear_right set_attributes vt_setstyle set_margins report_status asciinum asciinum2
    has_semicolon vt_newline scroll_up vt_movelines vt_clearlines set_dirty set_length
run bytes = shown (vt_output bytes blank)

hello : run (codes "Hi\r\n#") ≡ some (pos 1, pos 1, b'H' ∷ b'i' ∷ b'#' ∷ 0 ∷ [], [])
unfolding run
hello = refl

position : run (codes "\u{1b}[3;11HX") ≡ some (pos 2, pos 11, 0 ∷ 0 ∷ 0 ∷ b'X' ∷ [], [])
unfolding run
position = refl

scroll :
    run (codes "A\r\nB\u{1b}[1;2r\u{1b}[2;1H\nC")
    ≡ some (
      pos 1,
      pos 1,
      b'B' ∷ 0 ∷ b'C' ∷ 0 ∷ [],
      Call.move_display 0 1 1 ∷ Call.clear_display 1 1 ∷ [],
    )
unfolding run
scroll = refl

moveregion-moved_example : moveregion (pos 5) (pos 3) (pos 4) blank ≡ some (moved_vt 5 3 4 blank)
moveregion-moved_example = moveregion-moved 5 3 4 blank (omega arith) (omega arith)

abbrev at_bottom : Vt
at_bottom = record blank { cy = pos 23 }

vt_output-positioned_example :
    vt_output (esc ∷ b'[' ∷ (pair_of 3 11 ++ (b'H' ∷ []))) blank ≡ some (positioned 3 11 blank)
vt_output-positioned_example =
    vt_output-positioned blank 3 11 refl (omega arith) (omega arith) (omega arith) (omega arith)

abbrev far_right : Vt
far_right = record blank { cx = pos 32766 }
