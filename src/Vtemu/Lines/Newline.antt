-- ===== src/Vtemu/Lines/Newline.antt =====
-- A line feed: the cursor goes down one line, or the region between the margins scrolls.
use tek.Base.{
  ℕ, ◌+◌, ◌-◌, ◌*◌, ◌≤◌, ◌<◌, ◌≡◌, sym, ap, ◌∙◌, ◌&&◌, true, false, some, ltb, leb, arith,
  if◌then◌else◌,
}
use tek.Base.Int.{pos, ◌+ℤ◌, ◌-ℤ◌, to_short}
use tek.Base.{[], ◌∷◌, ◌++◌}
use tek.Vtemu.State.{Call, Vt, max_rows, max_cols, update, add_log}
use tek.Vtemu.Lines.{vt_newline, scroll_up}
use tek.Vtemu.Lines.Effect.{
  set_dirty-some, vt_movelines-some, vt_clearlines-some, cleaned, stale, forgotten, cleared_vt,
}
use tek.Vtemu.Region.Moved.{moved, moved_vt}

-- A state with its cursor line and its margins written out.
abbrev pub placed : ℕ → ℕ → ℕ → Vt → Vt
placed y t b vt = record vt { cy = pos y; margintop = pos t; marginbot = pos b }

pub placed_eq :
    (y t b : ℕ) (vt : Vt)
    → vt.cy ≡ pos y
    → vt.margintop ≡ pos t
    → vt.marginbot ≡ pos b
    → vt ≡ placed y t b vt
placed_eq y t b vt ey et eb = λ i. record vt { cy = ey i; margintop = et i; marginbot = eb i }

-- Lines `t + 1 .. b` move up by one, and line `b` becomes empty.
abbrev pub scrolled : ℕ → ℕ → (ℕ → ℕ) → ℕ → ℕ
scrolled t b f k =
    if leb (t * max_cols) k && ltb k (b * max_cols)
    then f (k + max_cols)
    else if leb (b * max_cols) k && ltb k ((b + 1) * max_cols)
    then 0
    else f k

-- The state between the two calls of `scroll_up`, and the state that it leaves, from one whose
-- cursor is a line below the bottom margin.
abbrev pub raised : ℕ → ℕ → Vt → Vt
raised t b vt =
    let shifted =
      moved_vt (t * max_cols) ((t + 1) * max_cols) (max_cols * (b - t))
        (cleaned t (t + 1) (b - t) (placed b t b vt)) in
    stale 0 (t + 1 - t) (t + (b - t))
      (record shifted { linelengths = moved t (t + 1) (b - t) shifted.linelengths })

abbrev pub scrolled_vt : ℕ → ℕ → Vt → Vt
scrolled_vt t b vt =
    forgotten 1 b 0
      (cleared_vt (b * max_cols) (max_cols * 1) (add_log (Call.clear_display b 1) (raised t b vt)))

scroll_up-some :
    (t b : ℕ) (vt : Vt)
    → t ≤ b
    → b < max_rows
    → scroll_up (placed (b + 1) t b vt) ≡ some (scrolled_vt t b vt)
unfolding scroll_up
scroll_up-some t b vt h k =
    let short : to_short (pos (b + 1) -ℤ pos 1) ≡ pos b = ground arith in
    let count : pos b -ℤ pos t +ℤ pos 1 -ℤ pos 1 ≡ pos (b - t) = ground arith in
    let upwards : ltb t (t + 1) ≡ true = ground arith in
    rw (short, count)
      (rw (vt_movelines-some t (t + 1) (b - t) (placed b t b vt) (omega arith) (omega arith))
        (rw upwards (vt_clearlines-some b 1 (raised t b vt) (omega arith))))

-- A line feed above the bottom margin moves the cursor down.
abbrev pub stepped_vt : ℕ → Vt → Vt
stepped_vt y vt = record vt {
  cx = pos 0;
  cy = pos (y + 1);
  dirtylines = update (update vt.dirtylines y true) (y + 1) true;
}

abbrev pub marked_vt : ℕ → Vt → Vt
marked_vt y vt = record vt { cx = pos 0; dirtylines = update vt.dirtylines y true }

newline_step :
    (y t b : ℕ) (vt : Vt)
    → y < b
    → b < max_rows
    → vt_newline (placed y t b vt) ≡ some (stepped_vt y (placed y t b vt))
unfolding vt_newline
newline_step y t b vt h k =
    let short : to_short (pos y +ℤ pos 1) ≡ pos (y + 1) = ground arith in
    let above : ltb b (y + 1) ≡ false = ground arith in
    rw (set_dirty-some true y (placed y t b vt) (omega arith))
      (rw (short, above) (set_dirty-some true (y + 1) _ (omega arith)))

abbrev pub newline_vt : ℕ → ℕ → Vt → Vt
newline_vt t b vt =
    let done = scrolled_vt t b (marked_vt b vt) in
    record done { dirtylines = update done.dirtylines b true }

newline_scroll :
    (t b : ℕ) (vt : Vt)
    → t ≤ b
    → b < max_rows
    → vt_newline (placed b t b vt) ≡ some (newline_vt t b vt)
unfolding vt_newline
newline_scroll t b vt h k =
    let short : to_short (pos b +ℤ pos 1) ≡ pos (b + 1) = ground arith in
    let below : ltb b (b + 1) ≡ true = ground arith in
    rw (set_dirty-some true b (placed b t b vt) (omega arith)) (
      rw (short, below)
        (rw (scroll_up-some t b (marked_vt b vt) h k) (set_dirty-some true b _ (omega arith))))

-- What a scroll by one line leaves: the text of lines `t + 1 .. b`, characters and attributes, one
-- line higher, an empty line `b`, all other cells as before, and the cursor at the start of line `b`.
-- The margins and the screen size stay, and the display is told of the move and of the clear.
pub record Scrolled (t b : ℕ) (vt vt' : Vt) : Type 0 where
  pub text : (k : ℕ) → vt'.buffer k ≡ scrolled t b vt.buffer k
  pub attributes : (k : ℕ) → vt'.attrib k ≡ scrolled t b vt.attrib k
  pub column : vt'.cx ≡ pos 0
  pub line : vt'.cy ≡ pos b
  pub top_kept : vt'.margintop ≡ pos t
  pub bottom_kept : vt'.marginbot ≡ pos b
  pub told : vt'.log ≡ vt.log ++ (Call.move_display t (t + 1) (b - t) ∷ Call.clear_display b 1 ∷ [])

pub vt_newline_scroll :
    (t b : ℕ) (vt : Vt)
    → vt.cy ≡ pos b
    → vt.margintop ≡ pos t
    → vt.marginbot ≡ pos b
    → t ≤ b
    → b < max_rows
    → vt_newline vt ≡ some (newline_vt t b vt)
vt_newline_scroll t b vt ey et eb h k =
    ap vt_newline (placed_eq b t b vt ey et eb) ∙ newline_scroll t b vt h k

-- A line feed above the bottom margin moves no text: the cursor goes to the start of the next
-- line, and the line left and the line reached are to be redrawn.
pub vt_newline_above :
    (y t b : ℕ) (vt : Vt)
    → vt.cy ≡ pos y
    → vt.margintop ≡ pos t
    → vt.marginbot ≡ pos b
    → y < b
    → b < max_rows
    → vt_newline vt ≡ some (stepped_vt y vt)
vt_newline_above y t b vt ey et eb h k =
    let same = placed_eq y t b vt ey et eb in
    ap vt_newline same ∙ newline_step y t b vt h k ∙ ap (λ v. some (stepped_vt y v)) (sym same)
