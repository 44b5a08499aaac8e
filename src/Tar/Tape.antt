-- ===== src/Tar/Tape.antt =====
-- The blocking of tek/utils/tar.c: writetape, flushtape, readtape and bread. Blocks of TBLOCK bytes
-- are values of any type, and a record is a list of them. The device is what the calls of write put
-- out, and for reading the results of the calls of read, in order; read answers 0 behind them.
use tek.Base.{
  ℕ, zero, suc, ◌+◌, ◌-◌, ◌*◌, ◌/◌, ◌%◌, Bool, true, false, ◌||◌, not, Option, none, some, List, [],
  ◌∷◌, ◌++◌, leb, ltb, ◌==◌, if◌then◌else◌, length, get_elem?, set, take, drop,
}
pub mod Reading
pub mod Record
pub mod RoundTrip

-- `done(n)` ends the program with a status; a fault is an access behind `tbuf`.
pub data Outcome {ℓ} (A : Type ℓ) : Type ℓ where
  returned : A → Outcome A
  exit : ℕ → Outcome A
  fault : Outcome A

infixl 5 ◌>>=◌
abbrev pub ◌>>=◌ {ℓ κ} : {A : Type ℓ} {B : Type κ} → Outcome A → (A → Outcome B) → Outcome B
returned a >>= f = f a
exit n >>= f = exit n
fault >>= f = fault

abbrev pub tblock : ℕ
tblock = 512

-- A result of read, no longer than was asked for: an error, or bytes that fill these blocks and maybe
-- a part of one more, which is then as `rest` says.
pub data Read {ℓ} (Block : Type ℓ) : Type ℓ where
  failed : Read Block
  got : List Block → Option Block → Read Block

pub record Tape {ℓ} (Block : Type ℓ) : Type ℓ where
  pub tbuf : List Block
  pub recno : ℕ
  pub first : Bool
  pub nblock : ℕ
  pub written : List (List Block)
  pub unread : List (Read Block)

-- Whether write succeeds, by what was written before.
module _ {ℓ} {Block : Type ℓ} (succeeds : List (List Block) → Bool) where
  -- `if (recno >= nblock) { if (write(mt, tbuf, TBLOCK*nblock) < 0) done(2); recno = 0; }`
  unfoldable pub write_full : Tape Block → Outcome (Tape Block)
  write_full t =
      if leb t.nblock t.recno
      then if succeeds t.written
        then returned (record t { written = t.written ++ (take t.nblock t.tbuf ∷ []); recno = 0 })
        else exit 2
      else returned t

  -- `bcopy(buffer, &tbuf[recno++], TBLOCK)`
  unfoldable pub put_block : Block → Tape Block → Outcome (Tape Block)
  put_block buffer t =
      if ltb t.recno (length t.tbuf)
      then returned (record t { tbuf = set t.tbuf t.recno buffer; recno = t.recno + 1 })
      else fault

  unfoldable pub writetape : Block → Tape Block → Outcome (Tape Block)
  unfolding write_full put_block
  writetape buffer t = do
    t1 ← write_full (record t { first = true })
    t2 ← put_block buffer t1
    write_full t2

  unfoldable pub flushtape : Tape Block → Tape Block
  flushtape t =
      if succeeds t.written
      then record t { written = t.written ++ (take t.nblock t.tbuf ∷ []) }
      else t

module _ {ℓ} {Block : Type ℓ} where
  abbrev next_read : List (Read Block) → Read Block
  next_read [] = got [] none
  next_read (r ∷ rs) = r

  abbrev filled : List Block → Option Block → List Block
  filled blocks none = blocks
  filled blocks (some b) = blocks ++ (b ∷ [])

  -- The bytes of a read into `tbuf`; without the flag B the result of one read is taken as it is.
  unfoldable pub fill : Read Block → Tape Block → Outcome (Tape Block)
  fill failed t = exit 3
  fill (got blocks rest) t =
      let new = filled blocks rest in
      let t' = record t { tbuf = new ++ drop (length new) t.tbuf; unread = drop 1 t.unread } in
      if t.first then returned (record t' { recno = 0 }) else elim rest [
        | none ↦ returned (record t' { recno = 0; nblock = length blocks })
        | some b ↦ exit 3
      ]

  -- `first = 1; bcopy(&tbuf[recno++], buffer, TBLOCK)`
  unfoldable pub take_block : Tape Block → Outcome (Block × Tape Block)
  take_block t = elim (get_elem? t.tbuf t.recno) [
    | none ↦ fault
    | some b ↦ returned (b, record t { first = true; recno = t.recno + 1 })
  ]

  unfoldable pub readtape : Tape Block → Outcome (Block × Tape Block)
  unfolding fill take_block
  readtape t = do
    t1 ← if leb t.nblock t.recno || not t.first then fill (next_read t.unread) t else returned t
    take_block t1
