-- ===== src/Vtemu/Lines/Effect.antt =====
-- What the line operations do, in closed form: each loop over lines is one update of a range.
use mathlib.Core.Path.{fun_ext}
use tek.Base.{
  ℕ, zero, suc, ◌+◌, ◌-◌, ◌*◌, ◌%◌, ◌^◌, ◌≤◌, ◌<◌, ◌≡◌, refl, true, false, Bool, some, ltb, arith,
  if◌then◌else◌, Bool-cases, inl, inr, lt→ltb, le→leb,
}
use tek.Base.Int.{pos}
use tek.Vtemu.State.{
  Vt, move_display, clear_display, max_rows, max_cols, cells, update, update_range, set_dirty,
  set_length, add_log,
}
use tek.Vtemu.Region.{clearregion}
use tek.Vtemu.Region.Moved.{moved, moved_vt, moveregion-moved, copy_up-moved, copy_down-moved}
use tek.Vtemu.Lines.{
  clean_lines, stale_lines, forget_lines, move_lengths, vt_movelines, vt_clearlines,
}

update_range_none {ℓ} : {A : Type ℓ} (f : ℕ → A) (i : ℕ) (v : A) → update_range f i 0 v ≡ f
update_range_none f i v = fun_ext λ k. ground arith

update_range-suc {ℓ} :
    {A : Type ℓ} (f : ℕ → A) (i n : ℕ) (v : A)
    → update_range (update f i v) (i + 1) n v ≡ update_range f i (suc n) v
update_range-suc f i n v = fun_ext λ k. ground arith

pub set_dirty-some :
    (b : Bool) (i : ℕ) (vt : Vt)
    → i < max_rows
    → set_dirty b (pos i) vt ≡ some (record vt { dirtylines = update vt.dirtylines i b })
unfolding set_dirty
set_dirty-some b i vt h = rw (lt→ltb i max_rows h) refl

set_length-some :
    (i len : ℕ) (vt : Vt)
    → i < max_rows
    → set_length (pos i) len vt
      ≡ some (record vt { linelengths = update vt.linelengths i (len % 2 ^ 8) })
unfolding set_length
set_length-some i len vt h = rw (lt→ltb i max_rows h) refl

clean_lines-some :
    (n i : ℕ) (vt : Vt)
    → i + n ≤ max_rows
    → clean_lines n i vt ≡ some (record vt { dirtylines = update_range vt.dirtylines i n false })
unfolding clean_lines
clean_lines-some zero i vt h = rw (update_range_none vt.dirtylines i false) refl
clean_lines-some (suc n) i vt h = rw (set_dirty-some false i vt (omega arith)) (
    rw
      (clean_lines-some n (i + 1) (record vt { dirtylines = update vt.dirtylines i false })
        (omega arith))
      (rw (update_range-suc vt.dirtylines i n false) refl))

abbrev pub stale : ℕ → ℕ → ℕ → Vt → Vt
stale len n i vt = record vt {
  dirtylines = update_range vt.dirtylines i n true;
  linelengths = update_range vt.linelengths i n (len % 2 ^ 8);
}

pub stale_lines-some :
    (len n i : ℕ) (vt : Vt) → i + n ≤ max_rows → stale_lines len n i vt ≡ some (stale len n i vt)
unfolding stale_lines
stale_lines-some len zero i vt h =
    rw (update_range_none vt.dirtylines i true, update_range_none vt.linelengths i (len % 2 ^ 8))
      refl
stale_lines-some len (suc n) i vt h =
    rw
      (
        set_dirty-some true i vt (omega arith),
        set_length-some i len (record vt { dirtylines = update vt.dirtylines i true })
            (omega arith),
      )
      (rw
        (stale_lines-some len n (i + 1)
          (record vt {
            dirtylines = update vt.dirtylines i true;
            linelengths = update vt.linelengths i (len % 2 ^ 8);
          })
          (omega arith))
        (rw
          (
            update_range-suc vt.dirtylines i n true,
            update_range-suc vt.linelengths i n (len % 2 ^ 8),
          )
          refl))

-- `VTclearlines` cleans the lines it clears, and sets the lengths of the first lines of the screen.
abbrev pub forgotten : ℕ → ℕ → ℕ → Vt → Vt
forgotten n dst i vt = record vt {
  dirtylines = update_range vt.dirtylines (dst + i) n false;
  linelengths = update_range vt.linelengths i n 0;
}

forget_lines-some :
    (n dst i : ℕ) (vt : Vt)
    → dst + i + n ≤ max_rows
    → forget_lines n dst i vt ≡ some (forgotten n dst i vt)
unfolding forget_lines
forget_lines-some zero dst i vt h =
    rw (update_range_none vt.dirtylines (dst + i) false, update_range_none vt.linelengths i 0) refl
forget_lines-some (suc n) dst i vt h =
    let assoc : dst + (i + 1) ≡ dst + i + 1 = omega arith in
    rw
      (
        set_dirty-some false (dst + i) vt (omega arith),
        set_length-some i 0 (record vt { dirtylines = update vt.dirtylines (dst + i) false })
            (omega arith),
      )
      (rw
        (forget_lines-some n dst (i + 1)
          (record vt {
            dirtylines = update vt.dirtylines (dst + i) false;
            linelengths = update vt.linelengths i 0;
          })
          (omega arith))
        (rw
          (
            assoc,
            update_range-suc vt.dirtylines (dst + i) n false,
            update_range-suc vt.linelengths i n 0,
          )
          refl))

not_below : (a : ℕ) → ltb a 0 ≡ false
not_below a = ground arith

within : (a : ℕ) → a ≤ max_rows → ltb max_rows a ≡ false
within a h = ground arith

abbrev pub cleared_vt : ℕ → ℕ → Vt → Vt
cleared_vt o n vt = record vt {
  buffer = update_range vt.buffer o n 0;
  attrib = update_range vt.attrib o n 0;
}

pub clearregion-some :
    (o n : ℕ) (vt : Vt) → o + n ≤ cells → clearregion (pos o) (pos n) vt ≡ some (cleared_vt o n vt)
unfolding clearregion
clearregion-some o n vt h = rw (le→leb (o + n) cells h) refl

-- `VTclearlines` on lines of the screen: the cells of these lines become 0 and the lines are clean.
-- The line lengths that become 0 are those of the first `n` lines, whatever `dst` is.
pub vt_clearlines-some :
    (dst n : ℕ) (vt : Vt)
    → dst + n ≤ max_rows
    → vt_clearlines (pos dst) (pos n) vt
      ≡ some (
          forgotten n dst 0
            (cleared_vt (dst * max_cols) (max_cols * n) (add_log (clear_display dst n) vt)))
unfolding vt_clearlines
vt_clearlines-some dst n vt h =
    rw (not_below dst, within (dst + n) h)
      (rw
        (
          clearregion-some (dst * max_cols) (max_cols * n) (add_log (clear_display dst n) vt)
              (omega arith),
          forget_lines-some n dst 0
              (cleared_vt (dst * max_cols) (max_cols * n) (add_log (clear_display dst n) vt))
              (omega arith),
        )
        refl)

-- What `VTmovelines` does to the line lengths and the mask after the move: the lines between the
-- two places are to be redrawn, with length 0. Moving up these stand behind the destination,
-- moving down at the old place.
abbrev pub moved_lengths : ℕ → ℕ → ℕ → Vt → Vt
moved_lengths d s n vt =
    let kept = record vt { linelengths = moved d s n vt.linelengths } in
    if ltb d s then stale 0 (s - d) (d + n) kept else stale 0 (d - s) s kept

move_lengths-some :
    (d s n : ℕ) (vt : Vt)
    → d + n ≤ max_rows
    → s + n ≤ max_rows
    → move_lengths d s n vt ≡ some (moved_lengths d s n vt)
unfolding move_lengths
move_lengths-some d s n vt hd hs = elim (Bool-cases (ltb d s)) [
  | inl up ↦ rw up (
      rw (copy_up-moved n d s vt.linelengths (ground arith)) (
        stale_lines-some 0 (s - d) (d + n) (record vt { linelengths = moved d s n vt.linelengths })
          (ground arith)))
  | inr down ↦ rw down (
      rw (copy_down-moved n d s vt.linelengths (ground arith)) (
        stale_lines-some 0 (d - s) s (record vt { linelengths = moved d s n vt.linelengths })
          (ground arith)))
]

abbrev pub cleaned : ℕ → ℕ → ℕ → Vt → Vt
cleaned d s n vt =
    let told = add_log (move_display d s n) vt in
    record told { dirtylines = update_range told.dirtylines d n false }

-- `VTmovelines` between lines of the screen: the cells of lines `s ..` appear at lines `d ..`, which
-- are clean, with their lengths; the lines in between are to be redrawn.
pub vt_movelines-some :
    (d s n : ℕ) (vt : Vt)
    → d + n ≤ max_rows
    → s + n ≤ max_rows
    → vt_movelines (pos d) (pos s) (pos n) vt
      ≡ some (
          moved_lengths d s n
            (moved_vt (d * max_cols) (s * max_cols) (max_cols * n) (cleaned d s n vt)))
unfolding vt_movelines
vt_movelines-some d s n vt hd hs =
    rw (not_below d, within (d + n) hd)
      (rw
        (
          clean_lines-some n d (add_log (move_display d s n) vt) hd,
          moveregion-moved (d * max_cols) (s * max_cols) (max_cols * n) (cleaned d s n vt)
              (omega arith) (omega arith),
          move_lengths-some d s n
              (moved_vt (d * max_cols) (s * max_cols) (max_cols * n) (cleaned d s n vt)) hd hs,
        )
        refl)
