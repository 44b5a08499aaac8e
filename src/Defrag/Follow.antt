-- ===== src/Defrag/Follow.antt =====
-- Following a file descriptor of tek/devtools/defrag.c through its indirect blocks. `disk` is what
-- rdblk reads, `none` where it fails; a buffer is a function of the position. The answer is true
-- for a nonzero return.
use tek.Base.{
  ℕ, zero, suc, ◌+◌, ◌*◌, ◌/◌, ◌%◌, ◌^◌, Bool, true, false, Option, none, some, List, [], ◌∷◌, ◌++◌,
  ◌==◌, if◌then◌else◌, get_or, take, ◌>>=◌,
}
use tek.Defrag.Account.{Env, State, mapblock, mapindirectblock, checkrange}
pub mod Visits
pub mod Order
pub mod Layout
pub mod Triples

-- `l3tol` and `ltol3`: block numbers of three bytes, the high one first.
unfoldable pub l3tol : (ℕ → ℕ) → ℕ → ℕ → List ℕ
l3tol f k zero = []
l3tol f k (suc count) = (f k * 2 ^ 16 + f (k + 1) * 2 ^ 8 + f (k + 2)) ∷ l3tol f (k + 3) count

unfoldable pub ltol3 : List ℕ → List ℕ
ltol3 [] = []
ltol3 (b ∷ bs) = (b / 2 ^ 16 % 256) ∷ (b / 2 ^ 8 % 256) ∷ (b % 256) ∷ ltol3 bs

-- SMSZ and FMSZ
abbrev pub smsz : ℕ
smsz = 128

abbrev pub fmsz : ℕ
fmsz = 10

module _ (env : Env) (disk : ℕ → Option (ℕ → ℕ)) where
  -- `for(...) if(blocks[i]) mapblock(blocks[i]);`
  unfoldable pub map_all : List ℕ → State → Option State
  map_all [] s = some s
  map_all (b ∷ bs) s = do s' ← if b == 0 then some s else mapblock env b s; map_all bs s'

  unfoldable pub do_sind : ℕ → State → Option (Bool × State)
  unfolding map_all
  do_sind blkadr s = do
    (err, s') ← mapindirectblock env blkadr s
    if err then some (true, s') else elim (disk blkadr) [
      | none ↦ some (false, s')
      | some sindblk ↦ (do s'' ← map_all (l3tol sindblk 0 smsz) s'; some (false, s''))
    ]

  -- The loop of do_dind and of do_tind over the blocks named, with what is done for each.
  unfoldable pub follow_all :
      (ℕ → State → Option (Bool × State)) → List ℕ → State → Option (Bool × State)
  follow_all follow [] s = some (false, s)
  follow_all follow (b ∷ bs) s =
      let rest = λ (s' : State). follow_all follow bs s' in
      let checked = checkrange env b s in
      if checked.0
      then (do (err, s') ← follow b checked.1; if err then some (true, s') else rest s')
      else rest checked.1

  unfoldable pub do_dind : ℕ → State → Option (Bool × State)
  unfolding follow_all do_sind
  do_dind blkadr s = do
    (err, s') ← mapindirectblock env blkadr s
    if err then some (true, s') else elim (disk blkadr) [
      | none ↦ some (false, s')
      | some dindblk ↦ follow_all do_sind (l3tol dindblk 0 smsz) s'
    ]

  unfoldable pub do_tind : ℕ → State → Option (Bool × State)
  unfolding follow_all do_dind
  do_tind blkadr s = do
    (err, s') ← mapindirectblock env blkadr s
    if err then some (true, s') else elim (disk blkadr) [
      | none ↦ some (false, s')
      | some tindblk ↦ follow_all do_dind (l3tol tindblk 0 smsz) s'
    ]

  -- `if(checkrange(b)) if(follow(b)) return(1);`
  unfoldable pub follow_one :
      (ℕ → State → Option (Bool × State)) → ℕ → State → Option (Bool × State)
  follow_one follow b s =
      let checked = checkrange env b s in
      if checked.0 then follow b checked.1 else some (false, checked.1)

  -- The 13 block numbers of a descriptor stand in `fd_blk`.
  unfoldable pub mark_in_map : (ℕ → ℕ) → State → Option (Bool × State)
  unfolding map_all follow_one
  mark_in_map fd_blk s = do
    let blocks = l3tol fd_blk 0 (fmsz + 3)
    s1 ← map_all (take fmsz blocks) (record s { blkcount = 0; cids = []; blocks = [] })
    (err1, s2) ← follow_one do_sind (get_or blocks 10 0) s1
    if err1 then some (true, s2) else (do
      (err2, s3) ← follow_one do_dind (get_or blocks 11 0) s2
      if err2 then some (true, s3) else follow_one do_tind (get_or blocks 12 0) s3)
