-- ===== src/Vtemu/Output.antt =====
-- `VToutput` of tek/wmgr/vtemu.c: what each byte written to the terminal does.
pub mod Sequence
pub mod Position
pub mod Print
pub mod Screen
pub mod Text
pub mod Overrun
pub mod Escape
use tek.Base.{
  ℕ, zero, suc, ◌+◌, ◌-◌, ◌*◌, Bool, true, false, ◌&&◌, ◌||◌, not, Option, none, some, List, [],
  ◌∷◌, ltb, leb, ◌==◌, if◌then◌else◌, length, ◌>>=◌,
}
use tek.Base.Int.{ℤ, pos, negsuc, ◌+ℤ◌, ◌-ℤ◌, ltb_ℤ, eqb_ℤ, to_short, align8}
use tek.Vtemu.State.{
  Vt, max_cols, cells, escseq_size, natural, index, update, rc2off, set_dirty, set_length, set_cx,
  set_cy,
}
use tek.Vtemu.Lines.{vt_reset, vt_movelines, vt_clearlines, vt_newline}
use tek.Vtemu.Csi.{csi, clear_right, clear_below}

abbrev pub esc : ℕ
esc = 0x1b

-- `isprint` in the C locale
abbrev pub isprint : ℕ → Bool
isprint c = leb 32 c && leb c 126

-- `vt->escseq[i] = c`
unfoldable pub put_escseq : ℕ → ℕ → Vt → Option Vt
put_escseq i c vt =
    if ltb i escseq_size then some (record vt { escseq = update vt.escseq i c }) else none

-- `ESC D` and `ESC M`: a scroll of the region inside the margins
unfoldable pub index_down : Vt → Option Vt
index_down vt = do
  moved ← vt_movelines vt.margintop (vt.margintop +ℤ pos 1) (vt.marginbot -ℤ vt.margintop) vt
  vt_clearlines moved.marginbot (pos 1) moved

unfoldable pub index_up : Vt → Option Vt
index_up vt = do
  moved ← vt_movelines (vt.margintop +ℤ pos 1) vt.margintop (vt.marginbot -ℤ vt.margintop) vt
  vt_clearlines moved.margintop (pos 1) moved

-- The `Fs` and `Fp` escapes: the second byte alone decides.
unfoldable pub simple_escape : ℕ → Vt → Option Vt
simple_escape c vt =
    if c == b'D'
    then index_down vt
    else if c == b'M'
    then index_up vt
    else if c == b'E'
    then some (if ltb_ℤ vt.cy (pos vt.rows) then set_cy (vt.cy +ℤ pos 1) vt else vt)
    else if c == b'K'
    then clear_right vt
    else if c == b'J'
    then clear_below vt
    else if c == b'c'
    then vt_reset vt
    else if c == b'7'
    then some (record vt { sx = vt.cx; sy = vt.cy })
    else if c == b'8'
    then some (record vt { cx = vt.sx; cy = vt.sy })
    else some vt

abbrev pub ground_state : Vt → Vt
ground_state vt = record vt { state = 0 }

-- `if (vt->state > 0)`: one byte of an escape sequence.
unfoldable pub escape_byte : ℕ → Vt → Option Vt
escape_byte c vt = do
  kept ← put_escseq vt.state c vt
  let next = record kept { state = vt.state + 1 }
  if next.escseq 1 == b'['
      then (if leb 0x40 c && leb c 0x7e && ltb 2 next.state
          then (do
            ended ← put_escseq next.state 0 next
            done ← csi c ended
            some (ground_state done))
          else some next)
      else if leb b'(' (next.escseq 1) && leb (next.escseq 1) b')'
      then some (if c == b'0' || c == b'A' || c == b'B' then ground_state next else next)
      else (do done ← simple_escape c next; some (ground_state done))

-- `while (i--) VTnewline(vt, 1);`
unfoldable pub newlines : ℕ → Vt → Option Vt
newlines zero vt = some vt
newlines (suc n) vt = do vt' ← vt_newline vt; newlines n vt'

unfoldable pub form_feed : Vt → Option Vt
unfolding natural
form_feed vt =
    let whole = record vt { margintop = pos 0; marginbot = pos vt.rows -ℤ pos 1 } in
    do i ← natural (pos whole.rows -ℤ whole.cy); newlines i whole

-- `vt->buffer[off] = c; vt->attrib[off] = vt->style;`
unfoldable pub put_cell : ℤ → ℕ → Vt → Option Vt
unfolding index
put_cell off c vt = do
  k ← index cells off
  some (record vt { buffer = update vt.buffer k c; attrib = update vt.attrib k vt.style })

-- `if (vt->cx > vt->linelengths[vt->cy]) vt->linelengths[vt->cy] = vt->cx;`
unfoldable pub extend_line : Vt → Option Vt
unfolding index natural
extend_line vt = do
  k ← index 32 vt.cy
  if ltb_ℤ (pos (vt.linelengths k)) vt.cx
      then (do n ← natural vt.cx; set_length vt.cy n vt)
      else some vt

-- What a printable character writes, `if (vt->cx < vt->cols)`.
unfoldable pub write_cell : ℕ → Vt → Option Vt
unfolding rc2off
write_cell c vt =
    if ltb_ℤ vt.cx (pos vt.cols)
    then (do
      off ← rc2off vt.cy vt.cx
      put ← put_cell off c vt
      marked ← set_dirty true put.cy put
      extend_line marked)
    else some vt

unfoldable pub print_char : ℕ → Vt → Option Vt
print_char c vt = do
  written ← write_cell c vt
  let moved = record written { cx = to_short (written.cx +ℤ pos 1) }
  if moved.wrapping && not (ltb_ℤ moved.cx (pos moved.cols)) then vt_newline moved else some moved

-- A byte outside of an escape sequence.
unfoldable pub plain_byte : ℕ → Vt → Option Vt
plain_byte c vt =
    if c == esc
    then (do kept ← put_escseq 0 c vt; some (record kept { state = 1 }))
    else if c == 0x08
    then (let back = if eqb_ℤ vt.cx (pos 0) then vt else set_cx (vt.cx -ℤ pos 1) vt in
        set_dirty true back.cy back)
    else if c == 0x0d
    then some (record vt { cx = pos 0 })
    else if c == 0x0a
    then vt_newline vt
    else if c == b'\t'
    then some (record vt { cx = to_short (align8 (to_short (vt.cx +ℤ pos 8))) })
    else if c == 0x0c
    then form_feed vt
    else if isprint c
    then print_char c vt
    else some vt

unfoldable pub output_byte : ℕ → Vt → Option Vt
output_byte c vt = if ltb 0 vt.state then escape_byte c vt else plain_byte c vt

-- `int VToutput(vt, msg, n, fdout)`, on the `n` bytes of `msg`
unfoldable pub vt_output : List ℕ → Vt → Option Vt
vt_output [] vt = some vt
vt_output (c ∷ cs) vt = do vt' ← output_byte c vt; vt_output cs vt'
