-- ===== src/Vtemu/State.antt =====
-- The state of the terminal emulator, `VTemu` of tek/wmgr/vtemu.h, and single accesses to it.
-- An array is a function of the position, with a test at each access: `none` is an access out of
-- the array or a shift by a distance that C leaves undefined. `dirtylines` is the mask's bits.
-- `log` keeps the calls that leave the module: replies written to the pseudo terminal and the
-- display operations of the window manager. Messages on stderr are not modelled.
use tek.Base.{
  ℕ, ◌+◌, ◌*◌, ◌^◌, ◌%◌, Bool, ◌&&◌, Option, none, some, List, [], ◌∷◌, ◌++◌, ltb, leb, ◌==◌,
  if◌then◌else◌, ◌>>=◌,
}
use tek.Base.Int.{ℤ, pos, negsuc, ◌+ℤ◌, to_short}

abbrev pub max_cols : ℕ
max_cols = 128

abbrev pub max_rows : ℕ
max_rows = 32

-- `MAXTERMCOLS*MAXTERMROWS`
abbrev pub cells : ℕ
cells = 4096

-- `sizeof(escseq)`
abbrev pub escseq_size : ℕ
escseq_size = 16

pub data Call : Type 0 where
  reply_byte : ℕ → Call
  move_display : ℕ → ℕ → ℕ → Call
  clear_display : ℕ → ℕ → Call

pub record Vt : Type 0 where
  pub state : ℕ
  pub wrapping : Bool
  pub hidecursor : Bool
  pub focusblur : Bool
  pub style : ℕ
  pub escseq : ℕ → ℕ
  pub sx : ℤ
  pub sy : ℤ
  pub margintop : ℤ
  pub marginbot : ℤ
  pub cols : ℕ
  pub rows : ℕ
  pub buffer : ℕ → ℕ
  pub attrib : ℕ → ℕ
  pub cx : ℤ
  pub cy : ℤ
  pub dirtylines : ℕ → Bool
  pub linelengths : ℕ → ℕ
  pub log : List Call

abbrev pub update {ℓ} : {A : Type ℓ} → (ℕ → A) → ℕ → A → ℕ → A
update f i v k = if k == i then v else f k

-- The places `lo .. lo + n - 1` set to one value.
abbrev pub update_range {ℓ} : {A : Type ℓ} → (ℕ → A) → ℕ → ℕ → A → ℕ → A
update_range f lo n v k = if leb lo k && ltb k (lo + n) then v else f k

-- An index that must not be negative, and one that must also lie below `size`.
unfoldable pub natural : ℤ → Option ℕ
natural (pos n) = some n
natural (negsuc n) = none

unfoldable pub index : ℕ → ℤ → Option ℕ
index size (pos n) = if ltb n size then some n else none
index size (negsuc n) = none

-- `RC2OFF(R, C)`; the shift of a negative number is undefined.
unfoldable pub rc2off : ℤ → ℤ → Option ℤ
rc2off (pos r) c = some (pos (r * max_cols) +ℤ c)
rc2off (negsuc r) c = none

-- `vt->dirtylines |= (1 << i)` and `vt->dirtylines &= ~(1 << i)`
unfoldable pub set_dirty : Bool → ℤ → Vt → Option Vt
unfolding index
set_dirty b i vt = do
  k ← index max_rows i
  some (record vt { dirtylines = update vt.dirtylines k b })

-- `vt->linelengths[i] = len`, an `unsigned char`
unfoldable pub set_length : ℤ → ℕ → Vt → Option Vt
unfolding index
set_length i len vt = do
  k ← index max_rows i
  some (record vt { linelengths = update vt.linelengths k (len % 2 ^ 8) })

abbrev pub add_log : Call → Vt → Vt
add_log c vt = record vt { log = vt.log ++ (c ∷ []) }

-- `reply(fdout, c)`
unfoldable pub reply : ℕ → Vt → Vt
reply c vt = add_log (reply_byte c) vt

unfoldable pub replies : List ℕ → Vt → Vt
unfolding reply
replies [] vt = vt
replies (c ∷ cs) vt = replies cs (reply c vt)

-- Assignments to the `short` fields.
abbrev pub move_to : ℤ → ℤ → Vt → Vt
move_to y x vt = record vt { cy = to_short y; cx = to_short x }

abbrev pub set_cx : ℤ → Vt → Vt
set_cx x vt = record vt { cx = to_short x }

abbrev pub set_cy : ℤ → Vt → Vt
set_cy y vt = record vt { cy = to_short y }
