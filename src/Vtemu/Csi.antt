-- ===== src/Vtemu/Csi.antt =====
-- The control sequences, `ESC [ ... c`: `VTsetstyle`, `VTfocus`, `VTblur`, and the switch on the
-- final byte in `VToutput` of tek/wmgr/vtemu.c, a function for each case that does something.
use Prim.Native.Nat.{bit_and, bit_or}
use tek.Base.{
  ℕ, ◌+◌, ◌-◌, ◌*◌, ◌%◌, ◌^◌, Bool, true, false, ◌||◌, not, Option, none, some, [], ◌∷◌, ◌==◌,
  if◌then◌else◌, ◌>>=◌,
}
use tek.Base.Int.{ℤ, pos, negsuc, ◌+ℤ◌, ◌-ℤ◌, to_short, align8}
use tek.Vtemu.State.{
  Vt, cells, natural, rc2off, set_dirty, set_length, replies, move_to, set_cx, set_cy,
}
use tek.Vtemu.Region.{clearregion, moveregion}
use tek.Vtemu.Lines.{vt_movelines, vt_clearlines, stale_lines}
use tek.Vtemu.Args.{asciinum, asciinum2, has_semicolon}

-- `VTfocus` and `VTblur`
unfoldable pub vt_focus : Vt → Vt
unfolding replies
vt_focus vt = if vt.focusblur then replies (0x1b ∷ b'[' ∷ b'I' ∷ []) vt else vt

unfoldable pub vt_blur : Vt → Vt
unfolding replies
vt_blur vt = if vt.focusblur then replies (0x1b ∷ b'[' ∷ b'O' ∷ []) vt else vt

abbrev pub vt_bold : ℕ
vt_bold = 1

abbrev pub vt_inverted : ℕ
vt_inverted = 2

-- `VTsetstyle`; `~b` on a `char` is 255 - b
unfoldable pub vt_setstyle : ℕ → Vt → Vt
vt_setstyle i vt =
    if i == 0
    then record vt { style = 0 }
    else if i == 1
    then record vt { style = bit_or vt.style vt_bold }
    else if i == 21
    then record vt { style = bit_and vt.style (255 - vt_bold) }
    else if i == 7
    then record vt { style = bit_or vt.style vt_inverted }
    else if i == 27
    then record vt { style = bit_and vt.style (255 - vt_inverted) }
    else vt

-- The first and the second number of the sequence.
abbrev pub arg : ℕ → Vt → ℕ
arg d vt = asciinum vt.escseq 2 d

abbrev pub arg2 : ℕ → Vt → ℕ
arg2 d vt = asciinum2 vt.escseq 2 d

-- `for (i=vt->cy; i<vt->rows; i++) { vt->dirtylines |= (1 << i); vt->linelengths[i] = vt->cols - 1; }`
unfoldable pub stale_below : Vt → Option Vt
unfolding natural
stale_below vt = do r ← natural vt.cy; stale_lines (vt.cols - 1) (vt.rows - r) r vt

-- The `else` of `J`: from the cursor to the end of the screen.
unfoldable pub clear_below : Vt → Option Vt
unfolding rc2off
clear_below vt = do
  off ← rc2off vt.cy vt.cx
  cleared ← clearregion off (pos cells -ℤ off) vt
  stale_below cleared

-- `J`
unfoldable pub erase_display : Vt → Option Vt
unfolding rc2off
erase_display vt =
    let i = arg 0 vt in
    if i == 1
    then (do
      off ← rc2off vt.cy vt.cx
      cleared ← clearregion (pos 0) off vt
      set_dirty true cleared.cy cleared)
    else if i == 2
    then vt_clearlines (pos 0) (pos vt.rows) vt
    else clear_below vt

-- The `else` of `K`: from the cursor to the end of the line.
unfoldable pub clear_right : Vt → Option Vt
unfolding rc2off
clear_right vt = do
  off ← rc2off vt.cy vt.cx
  cleared ← clearregion off (pos vt.cols -ℤ vt.cx) vt
  marked ← set_dirty true cleared.cy cleared
  set_length marked.cy (marked.cols - 1) marked

-- `K`
unfoldable pub erase_line : Vt → Option Vt
unfolding rc2off
erase_line vt =
    let i = arg 0 vt in
    if i == 1
    then (do
      off ← rc2off vt.cy (pos 0)
      cleared ← clearregion off vt.cx vt
      set_dirty true cleared.cy cleared)
    else if i == 2 || i == 3
    then vt_clearlines vt.cy (pos 1) vt
    else clear_right vt

-- `L`, `M`, `P`, `S` and `T`
unfoldable pub insert_lines : Vt → Option Vt
insert_lines vt =
    let i = pos (arg 1 vt) in
    do moved ← vt_movelines (vt.cy +ℤ i) vt.cy i vt; vt_clearlines moved.cy i moved

unfoldable pub delete_lines : Vt → Option Vt
delete_lines vt =
    let i = pos (arg 1 vt) in
    do
      moved ← vt_movelines vt.cy (vt.cy +ℤ i) i vt
      vt_clearlines (moved.cy +ℤ i) (pos moved.rows -ℤ moved.cy -ℤ i) moved

unfoldable pub delete_chars : Vt → Option Vt
unfolding rc2off
delete_chars vt =
    let i = pos (arg 1 vt) in
    do
      dst ← rc2off vt.cy vt.cx
      src ← rc2off vt.cy (vt.cx +ℤ i)
      moved ← moveregion dst src (pos vt.cols -ℤ vt.cx -ℤ i) vt
      set_dirty true moved.cy moved

unfoldable pub scroll_lines_up : Vt → Option Vt
scroll_lines_up vt =
    let i = pos (arg 1 vt) in
    do moved ← vt_movelines (pos 0) i i vt; vt_clearlines (pos moved.rows -ℤ i) i moved

unfoldable pub scroll_lines_down : Vt → Option Vt
scroll_lines_down vt =
    let i = pos (arg 1 vt) in do moved ← vt_movelines i (pos 0) i vt; vt_clearlines (pos 0) i moved

-- `m`: at most two attributes
unfoldable pub set_attributes : Vt → Vt
set_attributes vt =
    let first = vt_setstyle (arg 0 vt) vt in
    if has_semicolon 14 first.escseq 2 then vt_setstyle (arg2 0 first) first else first

-- `'0' + z + 1`, as a `char`
unfoldable pub report_digit : ℤ → ℕ
report_digit (pos n) = (b'0' + n + 1) % 2 ^ 8
report_digit (negsuc n) = (b'0' + 2 ^ 8 - n % 2 ^ 8) % 2 ^ 8

-- `n`
unfoldable pub report_status : Vt → Vt
unfolding replies report_digit
report_status vt =
    let i = arg 1 vt in
    let opened = replies (0x1b ∷ b'[' ∷ []) vt in
    let answered = if i == 5 then replies (b'c' ∷ []) opened else opened in
    if i == 6
    then replies (report_digit vt.cy ∷ b';' ∷ report_digit vt.cx ∷ b'R' ∷ []) answered
    else answered

-- `r`
unfoldable pub set_margins : Vt → Vt
set_margins vt = record vt {
  margintop = to_short (pos (arg 1 vt) -ℤ pos 1);
  marginbot = to_short (pos (arg2 1 vt) -ℤ pos 1);
  cx = pos 0;
  cy = pos 0;
}

-- `VTclearlines(vt, 0, vt->rows); vt->cx = vt->cy = 0;`, as the modes 47 and 1049 do
unfoldable pub clear_home : Vt → Option Vt
clear_home vt = do
  cleared ← vt_clearlines (pos 0) (pos vt.rows) vt
  some (record cleared { cx = pos 0; cy = pos 0 })

-- The private modes of `h` and `l`; `set` says that the final byte is `h`. The modes are tested
-- one after the other, and no two of the tests pass.
unfoldable pub private_mode : Bool → ℕ → Vt → Option Vt
private_mode set i vt =
    if i == 1
    then some (
        if set
        then vt
        else record vt { margintop = pos 0; marginbot = to_short (pos vt.rows -ℤ pos 1) })
    else if i == 7
    then some (record vt { wrapping = set })
    else if i == 25
    then some (record vt { hidecursor = not set })
    else if i == 47
    then clear_home vt
    else if i == 1004
    then some (vt_focus (record vt { focusblur = not set }))
    else if i == 1049
    then clear_home vt
    else some vt

-- `h` and `l`
unfoldable pub set_mode : Bool → Vt → Option Vt
set_mode set vt =
    let i = asciinum vt.escseq 3 1 in
    if vt.escseq 2 == b'?'
    then private_mode set i vt
    else if vt.escseq 2 == b'='
    then some (if i == 7 then record vt { wrapping = set } else vt)
    else some vt

-- The cursor movements; `none` where the final byte is another.
unfoldable pub cursor_motion : ℕ → Vt → Option Vt
cursor_motion c vt =
    let n = pos (arg 1 vt) in
    if c == b'A'
    then some (set_cy (vt.cy -ℤ n) vt)
    else if c == b'B'
    then some (set_cy (vt.cy +ℤ n) vt)
    else if c == b'C'
    then some (set_cx (vt.cx +ℤ n) vt)
    else if c == b'D'
    then some (set_cx (vt.cx -ℤ n) vt)
    else if c == b'E'
    then some (record vt { cy = to_short (vt.cy +ℤ n); cx = pos 0 })
    else if c == b'F'
    then some (record vt { cy = to_short (vt.cy -ℤ n); cx = pos 0 })
    else if c == b'G'
    then some (set_cx (n -ℤ pos 1) vt)
    else if c == b'H' || c == b'f'
    then some (move_to (n -ℤ pos 1) (pos (arg2 1 vt) -ℤ pos 1) vt)
    else if c == b'I'
    then some (record vt { cx = to_short (align8 (to_short (vt.cx +ℤ pos (8 * arg 1 vt)))) })
    else if c == b'Z'
    then some (record vt { cx = to_short (align8 (to_short (vt.cx -ℤ pos (8 * arg 1 vt)))) })
    else if c == b'd'
    then some (set_cy (n -ℤ pos 1) vt)
    else none

-- The other cases of the switch; the default prints a message only.
unfoldable pub csi_other : ℕ → Vt → Option Vt
unfolding replies
csi_other c vt =
    if c == b'J'
    then erase_display vt
    else if c == b'K'
    then erase_line vt
    else if c == b'L'
    then insert_lines vt
    else if c == b'M'
    then delete_lines vt
    else if c == b'P'
    then delete_chars vt
    else if c == b'S'
    then scroll_lines_up vt
    else if c == b'T'
    then scroll_lines_down vt
    else if c == b'c'
    then some (replies (0x1b ∷ b'[' ∷ b'?' ∷ b'1' ∷ b';' ∷ b'2' ∷ b'c' ∷ []) vt)
    else if c == b'm'
    then some (set_attributes vt)
    else if c == b'n'
    then some (report_status vt)
    else if c == b'r'
    then some (set_margins vt)
    else if c == b'h'
    then set_mode true vt
    else if c == b'l'
    then set_mode false vt
    else some vt

-- `switch(c)`
unfoldable pub csi : ℕ → Vt → Option Vt
csi c vt = elim (cursor_motion c vt) [ some moved ↦ some moved | none ↦ csi_other c vt ]
