-- ===== src/Vtemu/Region/Moved.antt =====
-- `moveregion` against the plain move: both copy loops behave as if the source were read whole
-- before anything is written, on overlapping regions too.
use mathlib.Core.Path.{fun_ext}
use tek.Base.{
  ℕ, zero, suc, ◌+◌, ◌-◌, ◌≤◌, ◌≡◌, refl, ◌&&◌, some, ltb, leb, arith, if◌then◌else◌, Bool-cases,
  inl, inr, le→leb,
}
use tek.Base.Int.{pos}
use tek.Vtemu.State.{Vt, cells, update}
use tek.Vtemu.Region.{copy_up, copy_down, moveregion}

-- `n` values from `src` on, placed from `dst` on.
abbrev pub moved : ℕ → ℕ → ℕ → (ℕ → ℕ) → ℕ → ℕ
moved dst src n f k = if leb dst k && ltb k (dst + n) then f (k - dst + src) else f k

copy_up_at :
    (n dst src : ℕ) (f : ℕ → ℕ) (k : ℕ) → dst ≤ src → copy_up n dst src f k ≡ moved dst src n f k
unfolding copy_up
copy_up_at zero dst src f k h = ground arith
copy_up_at (suc n) dst src f k h =
    ground (arith, copy_up_at n (dst + 1) (src + 1) (update f dst (f src)) k)

copy_down_at :
    (n dst src : ℕ) (f : ℕ → ℕ) (k : ℕ) → src ≤ dst → copy_down n dst src f k ≡ moved dst src n f k
unfolding copy_down
copy_down_at zero dst src f k h = ground arith
copy_down_at (suc n) dst src f k h =
    ground (arith, copy_down_at n dst src (update f (dst + n) (f (src + n))) k)

pub copy_up-moved :
    (n dst src : ℕ) (f : ℕ → ℕ) → dst ≤ src → copy_up n dst src f ≡ moved dst src n f
copy_up-moved n dst src f h = fun_ext λ k. copy_up_at n dst src f k h

pub copy_down-moved :
    (n dst src : ℕ) (f : ℕ → ℕ) → src ≤ dst → copy_down n dst src f ≡ moved dst src n f
copy_down-moved n dst src f h = fun_ext λ k. copy_down_at n dst src f k h

moved_none : (dst src : ℕ) (f : ℕ → ℕ) → moved dst src 0 f ≡ f
moved_none dst src f = fun_ext λ k. ground arith

abbrev pub moved_vt : ℕ → ℕ → ℕ → Vt → Vt
moved_vt d s n vt = record vt { buffer = moved d s n vt.buffer; attrib = moved d s n vt.attrib }

-- A move inside the arrays succeeds and has the effect of the plain move on both of them,
-- whichever way the two regions overlap, and changes nothing else.
pub moveregion-moved :
    (d s n : ℕ) (vt : Vt)
    → d + n ≤ cells
    → s + n ≤ cells
    → moveregion (pos d) (pos s) (pos n) vt ≡ some (moved_vt d s n vt)
unfolding moveregion
moveregion-moved d s n vt hd hs = elim (Bool-cases (ltb d s)) [
  | inl up ↦
      rw (up, le→leb (d + n) cells hd, le→leb (s + n) cells hs)
        (rw
          (
            copy_up-moved n d s vt.buffer (ground arith),
            copy_up-moved n d s vt.attrib (ground arith),
          )
          refl)
  | inr down ↦ elim (Bool-cases (ltb 0 n)) [
    | inl more ↦
        rw (down, more, le→leb (d + n) cells hd, le→leb (s + n) cells hs)
          (rw
            (
              copy_down-moved n d s vt.buffer (ground arith),
              copy_down-moved n d s vt.attrib (ground arith),
            )
            refl)
    | inr zero_long ↦
        let e : n ≡ 0 = ground arith in
        rw (down, zero_long) (rw (e, moved_none d s vt.buffer, moved_none d s vt.attrib) refl)
  ]
]
