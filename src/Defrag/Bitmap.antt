-- ===== src/Defrag/Bitmap.antt =====
-- The map of used blocks of tek/devtools/defrag.c, one bit for each block from `minvld` on, the high
-- bit of a byte first. `mapbuf` is a list of `mapsize` bytes; `none` is an access out of it.
use Prim.Native.Nat.{bit_and, bit_or}
use tek.Base.{
  ℕ, zero, suc, ◌+◌, ◌-◌, ◌*◌, ◌/◌, ◌%◌, ◌^◌, ◌≤◌, ◌<◌, Bool, true, false, Option, none, some, List,
  [], ◌∷◌, ◌++◌, leb, ◌==◌, if◌then◌else◌, length, get_elem?, set, drop, replicate, ◌>>=◌, guarded,
}
pub mod Bits
pub mod Cells
pub mod Count

-- `0x80 >> (off & 7)`
abbrev pub bitmsk : ℕ → ℕ
bitmsk off = 128 / 2 ^ (off % 8)

-- The sizes of a disk.
pub record Geometry : Type 0 where
  pub minvld : ℕ
  pub maxvld : ℕ
  pub lastblk : ℕ
  pub mapsize : ℕ

-- What main makes of the sizes in the SIR, without swap space (`swapbeg` 0) and with it.
unfoldable pub geometry : ℕ → ℕ → ℕ → ℕ → Geometry
geometry maxvld sszfdn swapbeg swapsize =
    let lastblk = if swapbeg == 0 then maxvld + 1 else swapbeg + swapsize in
    record { minvld = sszfdn + 2; maxvld = maxvld; lastblk = lastblk; mapsize = lastblk / 8 }

-- `register short i = mapsize / 4; while (i--)`: a count that is wrapped around to a negative number
-- goes down through -2^15, so that the ints cleared are `mapsize / 4` modulo 2^16.
unfoldable pub clear_map : List ℕ → List ℕ
clear_map mapbuf =
    let cleared = length mapbuf / 4 % 2 ^ 16 * 4 in replicate cleared 0 ++ drop cleared mapbuf

-- The byte of a block and the offset of its bit.
unfoldable pub locate : Geometry → ℕ → List ℕ → Option (ℕ × ℕ)
locate g blkadr mapbuf = do
  blkoff ← guarded (leb g.minvld blkadr) (blkadr - g.minvld)
  byte ← get_elem? mapbuf (blkoff / 8)
  some (blkoff, byte)

-- The answer tells whether the bit was set.
unfoldable pub setbit : Geometry → ℕ → List ℕ → Option (Bool × List ℕ)
unfolding locate
setbit g blkadr mapbuf = do
  (blkoff, byte) ← locate g blkadr mapbuf
  if bit_and byte (bitmsk blkoff) == 0
      then some (false, set mapbuf (blkoff / 8) (bit_or byte (bitmsk blkoff)))
      else some (true, mapbuf)

-- `*bytptr &= ~bitmsk`, in a byte.
unfoldable pub clrbit : Geometry → ℕ → List ℕ → Option (Bool × List ℕ)
unfolding locate
clrbit g blkadr mapbuf = do
  (blkoff, byte) ← locate g blkadr mapbuf
  if bit_and byte (bitmsk blkoff) == 0
      then some (false, mapbuf)
      else some (true, set mapbuf (blkoff / 8) (bit_and byte (255 - bitmsk blkoff)))

-- The inner loop of countbits: bits of one byte from a mask on, at most `loop` of them.
unfoldable pub count_in_byte : ℕ → ℕ → ℕ → ℕ → ℕ × ℕ
count_in_byte byte zero k loop = (0, loop)
count_in_byte byte (suc bits) k loop =
    let rest = count_in_byte byte bits (k + 1) (loop - 1) in
    if loop == 0 then (0, 0) else ((if bit_and byte (bitmsk k) == 0 then 0 else 1) + rest.0, rest.1)

-- The bits from `k` on of a byte and of those behind it, `bytes` at most.
unfoldable pub count_from : List ℕ → ℕ → ℕ → ℕ → ℕ → Option ℕ
unfolding count_in_byte
count_from mapbuf zero at_byte k loop = some 0
count_from mapbuf (suc bytes) at_byte k loop =
    let here = λ (byte : ℕ). count_in_byte byte (8 - k) k loop in
    let later = λ (left : ℕ). count_from mapbuf bytes (at_byte + 1) 0 left in
    if loop == 0 then some 0 else (do
      byte ← get_elem? mapbuf at_byte
      more ← later (here byte).1
      some ((here byte).0 + more))

-- A run of `n` bits reaches into `n + 1` bytes at most.
unfoldable pub countbits : List ℕ → ℕ → ℕ → Option ℕ
unfolding count_from
countbits mapbuf i runlength = count_from mapbuf (runlength + 1) (i / 8) (i % 8) runlength
