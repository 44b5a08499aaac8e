-- ===== src/Defrag/Space.antt =====
-- `findcontiguous` of tek/devtools/defrag.c: the search of the map for a run of free blocks. `none`
-- is a read out of the map, which the source does not test for: behind it where less than the run is
-- left, and before it where the run begins with the map.
use tek.Base.{
  ℕ, zero, suc, ◌+◌, ◌-◌, ◌*◌, ◌/◌, ◌%◌, ◌^◌, Option, none, some, List, ltb, ◌==◌, if◌then◌else◌,
  length, get_elem?, ◌>>=◌, guarded, Bool, true, false,
}
use tek.Defrag.Bitmap.{Geometry}
pub mod Search
pub mod Free

-- `while (--j >= 0)`: the last byte in use among the `j` from `at_byte` on.
unfoldable pub last_used : List ℕ → ℕ → ℕ → Option (Option ℕ)
last_used mapbuf at_byte zero = some none
last_used mapbuf at_byte (suc j) =
    let rest = last_used mapbuf at_byte j in
    get_elem? mapbuf (at_byte + j) >>= (λ byte. if byte == 0 then rest else some (some j))

-- `while (bytptr < bytend)`; each round moves the pointer, so `mapsize` rounds are enough.
unfoldable pub search_from : List ℕ → ℕ → ℕ → ℕ → Option (Option ℕ)
search_from mapbuf numblock8 zero at_byte = some none
search_from mapbuf numblock8 (suc rounds) at_byte =
    let onward = λ (j : ℕ). search_from mapbuf numblock8 rounds (at_byte + j + 1) in
    if ltb at_byte (length mapbuf)
    then (do
      used ← last_used mapbuf at_byte numblock8
      elim used [ some j ↦ onward j | none ↦ some (some at_byte) ])
    else some none

-- `while (i && (i & 1) == 0)`: the low bits of a byte that are clear, all if it is not 0. A sign
-- extension of the byte adds high bits only.
unfoldable pub free_below : ℕ → ℕ → ℕ
free_below zero i = 0
free_below (suc bits) i =
    let more = free_below bits (i / 2) in if i == 0 then 0 else if i % 2 == 0 then more + 1 else 0

-- The address of the run found, packed to the blocks before it, or 0.
unfoldable pub packed : Geometry → List ℕ → Option ℕ → Option ℕ
unfolding free_below
packed g mapbuf none = some 0
packed g mapbuf (some at_byte) = do
  before ← guarded (ltb 0 at_byte) (at_byte - 1)
  i ← get_elem? mapbuf before
  some (g.minvld + at_byte * 8 - free_below 8 i)

-- `short numblock8`; a count of bytes that it cannot hold is `none`.
unfoldable pub findcontiguous : Geometry → List ℕ → ℕ → Option ℕ
unfolding search_from packed
findcontiguous g mapbuf blockcount = do
  numblock8 ← guarded (ltb ((blockcount + 7) / 8) (2 ^ 15)) ((blockcount + 7) / 8)
  found ← search_from mapbuf numblock8 (length mapbuf) 0
  packed g mapbuf found
