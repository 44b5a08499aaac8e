-- ===== src/Vtemu/Region.antt =====
-- `clearregion` and `moveregion` of tek/wmgr/vtemu.c. `memset` and `memcpy` are the C library's;
-- `memcpy` copies from low to high addresses, as the comment in `moveregion` requires.
pub mod Moved
use tek.Base.{
  ℕ, zero, suc, ◌+◌, ◌-◌, ◌*◌, Bool, true, false, ◌&&◌, Option, none, some, ltb, leb, if◌then◌else◌,
  ◌>>=◌, guarded,
}
use tek.Base.Int.{ℤ, pos, ◌+ℤ◌, ltb_ℤ, leb_ℤ}
use tek.Vtemu.State.{Vt, cells, update, update_range, natural}

unfoldable pub clearregion : ℤ → ℤ → Vt → Option Vt
unfolding natural
clearregion off len vt =
    if leb_ℤ (off +ℤ len) (pos cells)
    then (do
      o ← natural off
      n ← natural len
      some (record vt {
        buffer = update_range vt.buffer o n 0;
        attrib = update_range vt.attrib o n 0;
      }))
    else some vt

-- `memcpy(f+dst, f+src, n)`, byte by byte upwards
unfoldable pub copy_up : ℕ → ℕ → ℕ → (ℕ → ℕ) → ℕ → ℕ
copy_up zero dst src f = f
copy_up (suc n) dst src f = copy_up n (dst + 1) (src + 1) (update f dst (f src))

-- `while(len-- > 0) f[dst+len] = f[src+len];`
unfoldable pub copy_down : ℕ → ℕ → ℕ → (ℕ → ℕ) → ℕ → ℕ
copy_down zero dst src f = f
copy_down (suc n) dst src f = copy_down n dst src (update f (dst + n) (f (src + n)))

-- Both ends of a copy lie in the arrays.
abbrev pub in_cells : ℕ → ℕ → ℕ → Bool
in_cells dst src n = leb (dst + n) cells && leb (src + n) cells

unfoldable pub moveregion : ℤ → ℤ → ℤ → Vt → Option Vt
unfolding natural copy_up copy_down
moveregion dst src len vt =
    if ltb_ℤ dst src
    then (do
      d ← natural dst
      s ← natural src
      n ← natural len
      guarded (in_cells d s n)
          (record vt { buffer = copy_up n d s vt.buffer; attrib = copy_up n d s vt.attrib }))
    else if ltb_ℤ (pos 0) len
    then (do
      d ← natural dst
      s ← natural src
      n ← natural len
      guarded (in_cells d s n)
          (record vt { buffer = copy_down n d s vt.buffer; attrib = copy_down n d s vt.attrib }))
    else some vt
