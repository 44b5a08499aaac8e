-- ===== src/Defrag/Move.antt =====
-- The moves of do_defrag of tek/devtools/defrag.c: each candidate file is given a run of free blocks
-- in the map, and its blocks are copied there. A copy is recorded as the block that is read, `none`
-- for what the layout keeps of an earlier file, and the block that is written.
use tek.Base.{
  ℕ, zero, suc, ◌+◌, Bool, true, false, ◌||◌, Option, none, some, List, [], ◌∷◌, ◌++◌, ◌==◌,
  if◌then◌else◌, length, get_elem?, ◌>>=◌,
}
use tek.Defrag.Bitmap.{Geometry, setbit, clrbit}
use tek.Defrag.Account.{Env, State}
use tek.Defrag.Follow.{mark_in_map}
use tek.Defrag.Space.{findcontiguous}
pub mod Effect

-- "free up current blocks"
unfoldable pub release : Geometry → List ℕ → List ℕ → Option (List ℕ)
release g [] mapbuf = some mapbuf
release g (b ∷ bs) mapbuf = do (hit, mapbuf') ← clrbit g b mapbuf; release g bs mapbuf'

-- "allocate new blocks"; the answer is whether the message "findcontiguous wrong" was printed.
unfoldable pub allocate : Geometry → ℕ → ℕ → List ℕ → Option (Bool × List ℕ)
allocate g blkadr zero mapbuf = some (false, mapbuf)
allocate g blkadr (suc left) mapbuf = do
  (hit, mapbuf') ← setbit g blkadr mapbuf
  (wrong, mapbuf'') ← allocate g (blkadr + 1) left mapbuf'
  some (hit || wrong, mapbuf'')

-- "copy blocks to new location"
unfoldable pub copies : Option ℕ → ℕ → ℕ → List (Option ℕ × ℕ)
copies source blkadr zero = []
copies source blkadr (suc left) = (source, blkadr) ∷ copies source (blkadr + 1) left

pub record Move : Type 0 where
  pub wrong : Bool
  pub copied : List (Option ℕ × ℕ)

-- The candidate at index `i`, whose layout lists these blocks.
unfoldable pub move_candidate : Geometry → ℕ → List ℕ → List ℕ → Option (Option Move × List ℕ)
unfolding release allocate copies
move_candidate g i blocks mapbuf = do
  newaddr ← findcontiguous g mapbuf (length blocks)
  if newaddr == 0 then some (none, mapbuf) else (do
    mapbuf1 ← release g blocks mapbuf
    (wrong, mapbuf2) ← allocate g newaddr (length blocks) mapbuf1
    some (
      some (record { wrong = wrong; copied = copies (get_elem? blocks i) newaddr (length blocks) }),
      mapbuf2,
    ))

-- The candidates from index `i` on, by the block lists of their descriptors.
unfoldable pub move_candidates :
    Env → (ℕ → Option (ℕ → ℕ)) → ℕ → List (ℕ → ℕ) → State → Option (List (Option Move) × State)
unfolding move_candidate
move_candidates env disk i [] s = some ([], s)
move_candidates env disk i (fd_blk ∷ candidates) s = do
  (err, s1) ← mark_in_map env disk fd_blk (record s { regblks = 0; dirblks = 0 })
  (moved, mapbuf') ← move_candidate env.sizes i s1.blocks s1.mapbuf
  (others, s2) ← move_candidates env disk (i + 1) candidates (record s1 { mapbuf = mapbuf' })
  some (moved ∷ others, s2)
