-- ===== src/Vtemu/Lines.antt =====
-- `VTreset`, `VTmovelines`, `VTclearlines` and `VTnewline` of tek/wmgr/vtemu.c. A loop that counts
-- a negative number down to zero never meets it in its array, hence `natural`.
pub mod Effect
pub mod Newline
use tek.Base.{
  ℕ, zero, suc, ◌+◌, ◌-◌, ◌*◌, Bool, true, false, ◌||◌, Option, none, some, ltb, leb, if◌then◌else◌,
  ◌>>=◌,
}
use tek.Base.Int.{ℤ, pos, negsuc, ◌+ℤ◌, ◌-ℤ◌, ltb_ℤ, to_short}
use tek.Vtemu.State.{
  Vt, Call, move_display, clear_display, max_cols, max_rows, cells, update_range, natural, index,
  set_dirty, set_length, add_log,
}
use tek.Vtemu.Region.{clearregion, moveregion, copy_up, copy_down}

unfoldable pub vt_reset : Vt → Option Vt
unfolding clearregion
vt_reset vt = do
  cleared ← clearregion (pos 0) (pos cells) (record vt {
    state = 0;
    wrapping = false;
    hidecursor = false;
    focusblur = false;
    style = 0;
    cx = pos 0;
    sx = pos 0;
    cy = pos 0;
    sy = pos 0;
    dirtylines = λ i. false;
    margintop = pos 0;
    marginbot = pos vt.rows -ℤ pos 1;
  })
  some (record cleared {
    linelengths = update_range cleared.linelengths 0 max_rows 0;
    dirtylines = update_range cleared.dirtylines 0 max_rows true;
  })

-- `for(...) vt->dirtylines &= ~(1 << i);` over `n` lines from `i` on
unfoldable pub clean_lines : ℕ → ℕ → Vt → Option Vt
unfolding set_dirty
clean_lines zero i vt = some vt
clean_lines (suc n) i vt = do vt' ← set_dirty false (pos i) vt; clean_lines n (i + 1) vt'

-- `for(...) { vt->dirtylines |= (1 << i); vt->linelengths[i] = len; }`
unfoldable pub stale_lines : ℕ → ℕ → ℕ → Vt → Option Vt
unfolding set_dirty set_length
stale_lines len zero i vt = some vt
stale_lines len (suc n) i vt = do
  vt' ← set_dirty true (pos i) vt
  vt'' ← set_length (pos i) len vt'
  stale_lines len n (i + 1) vt''

-- What `VTmovelines` does with the line lengths once the cells have been moved.
unfoldable pub move_lengths : ℕ → ℕ → ℕ → Vt → Option Vt
unfolding copy_up copy_down stale_lines
move_lengths d s n vt =
    if ltb d s
    then stale_lines 0 (s - d) (d + n) (record vt { linelengths = copy_up n d s vt.linelengths })
    else stale_lines 0 (d - s) s (record vt { linelengths = copy_down n d s vt.linelengths })

unfoldable pub vt_movelines : ℤ → ℤ → ℤ → Vt → Option Vt
unfolding natural clean_lines moveregion move_lengths
vt_movelines dst src n vt =
    if ltb_ℤ dst (pos 0) || ltb_ℤ (pos max_rows) (dst +ℤ n) then some vt else (do
      d ← natural dst
      s ← natural src
      k ← natural n
      cleaned ← clean_lines k d (add_log (move_display d s k) vt)
      moved ← moveregion (pos (d * max_cols)) (pos (s * max_cols)) (pos (max_cols * k)) cleaned
      move_lengths d s k moved)

-- The loop at the end of `VTclearlines`: it cleans line `dst+i`, and sets `linelengths[i]`.
unfoldable pub forget_lines : ℕ → ℕ → ℕ → Vt → Option Vt
unfolding set_dirty set_length
forget_lines zero dst i vt = some vt
forget_lines (suc n) dst i vt = do
  vt' ← set_dirty false (pos (dst + i)) vt
  vt'' ← set_length (pos i) 0 vt'
  forget_lines n dst (i + 1) vt''

unfoldable pub vt_clearlines : ℤ → ℤ → Vt → Option Vt
unfolding natural clearregion forget_lines
vt_clearlines dst n vt =
    if ltb_ℤ dst (pos 0) || ltb_ℤ (pos max_rows) (dst +ℤ n) then some vt else (do
      d ← natural dst
      k ← natural n
      cleared ←
          clearregion (pos (d * max_cols)) (pos (max_cols * k)) (add_log (clear_display d k) vt)
      forget_lines k d 0 cleared)

-- The scroll of `VTnewline`, when the cursor has left the bottom margin. `numlines` is 1: the
-- value chosen by `fastscroll` is overwritten before its use.
unfoldable pub scroll_up : Vt → Option Vt
scroll_up vt =
    let back = record vt { cy = to_short (vt.cy -ℤ pos 1) } in
    do
      moved ←
          vt_movelines back.margintop (back.margintop +ℤ pos 1)
            (back.marginbot -ℤ back.margintop +ℤ pos 1 -ℤ pos 1) back
      vt_clearlines moved.cy (pos 1) moved

unfoldable pub vt_newline : Vt → Option Vt
vt_newline vt = do
  marked ← set_dirty true vt.cy vt
  let down = record marked { cx = pos 0; cy = to_short (marked.cy +ℤ pos 1) }
  placed ← if ltb_ℤ down.marginbot down.cy then scroll_up down else some down
  set_dirty true placed.cy placed
