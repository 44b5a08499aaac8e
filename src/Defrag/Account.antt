-- ===== src/Defrag/Account.antt =====
-- The accounts of blocks of tek/devtools/defrag.c: each block that a file descriptor names is
-- marked in the map or listed in the layout of the file. What the source keeps in globals and does
-- not change while one descriptor is followed is `Env`; what it changes is `State`. A `long` counter
-- is its 32-bit pattern; the messages are left out.
use tek.Base.{
  ℕ, zero, suc, ◌+◌, ◌*◌, ◌/◌, ◌%◌, ◌^◌, Bool, true, false, ◌&&◌, ◌||◌, Option, none, some, List,
  [], ◌∷◌, ◌++◌, ltb, leb, ◌==◌, if◌then◌else◌, length, ◌>>=◌,
}
use tek.Defrag.Bitmap.{Geometry, setbit}
pub mod Balance

-- `mappingmode`
pub data MapMode : Type 0 where
  build_map : MapMode
  build_file : MapMode

pub record Env : Type 0 where
  pub sizes : Geometry
  pub badblocks : Bool
  pub fdnno : ℕ
  pub filetype : ℕ
  pub mappingmode : MapMode

pub record State : Type 0 where
  pub mapbuf : List ℕ
  pub dups : List (ℕ × ℕ)
  pub oors : List ℕ
  pub dupblks : ℕ
  pub oorblks : ℕ
  pub regblks : ℕ
  pub dirblks : ℕ
  pub mapblks : ℕ
  pub blkcount : ℕ
  pub blocks : List ℕ
  pub cids : List ℕ

abbrev pub max_dups : ℕ
max_dups = 60

abbrev pub max_oors : ℕ
max_oors = 40

-- `currfdlayout.blocks` and `.cid`
abbrev pub max_blocks : ℕ
max_blocks = 16384

abbrev pub max_cylinderset : ℕ
max_cylinderset = 64

abbrev pub bbfdn : ℕ
bbfdn = 2

-- S_IFDIR of sys/modes.h
abbrev pub s_ifdir : ℕ
s_ifdir = 9

-- BLOCKSPERCYLINDER
abbrev pub blockspercylinder : ℕ
blockspercylinder = 18 * 6

-- `++` of a 32-bit counter.
abbrev pub incr : ℕ → ℕ
incr n = (n + 1) % 2 ^ 32

-- An append to an array that has no more than `room` places.
abbrev pub push {ℓ} : {A : Type ℓ} → ℕ → A → List A → List A
push room a xs = if length xs == room then xs else xs ++ (a ∷ [])

module _ (env : Env) where
  unfoldable pub set_dup : ℕ → State → State
  set_dup blkadr s = record s {
    dupblks = incr s.dupblks;
    dups = push max_dups (blkadr, env.fdnno) s.dups;
  }

  unfoldable pub set_oor : State → State
  set_oor s = record s { oorblks = incr s.oorblks; oors = push max_oors env.fdnno s.oors }

  -- `if(setbit(blkadr)) set_dup(blkadr)`
  unfoldable pub mark : ℕ → State → Option State
  unfolding set_dup
  mark blkadr s = do
    (hit, mapbuf') ← setbit env.sizes blkadr s.mapbuf
    let s' = record s { mapbuf = mapbuf' }
    some (if hit then set_dup blkadr s' else s')

  -- The block's number is cut to an `unsigned short`.
  unfoldable pub list_block : ℕ → State → State
  list_block blkadr s = record s {
    blocks =
        if ltb (length s.blocks) max_blocks then s.blocks ++ ((blkadr % 2 ^ 16) ∷ []) else s.blocks;
  }

  unfoldable pub is_listed : ℕ → List ℕ → Bool
  is_listed cid [] = false
  is_listed cid (c ∷ cs) = (c == cid) || is_listed cid cs

  unfoldable pub list_cylinder : ℕ → State → State
  list_cylinder blkadr s =
      let cid = blkadr / blockspercylinder in
      if is_listed cid s.cids
      then s
      else if ltb (length s.cids) max_cylinderset
      then record s { cids = s.cids ++ (cid ∷ []) }
      else s

  abbrev pub is_valid : ℕ → Bool
  is_valid blkadr = leb env.sizes.minvld blkadr && leb blkadr env.sizes.maxvld

  -- The part of mapblock behind the test of the range.
  unfoldable pub note_block : MapMode → ℕ → State → Option State
  unfolding mark list_block list_cylinder
  note_block build_map blkadr s =
      if env.filetype == s_ifdir
      then mark blkadr (record s { dirblks = incr s.dirblks })
      else mark blkadr (record s { regblks = incr s.regblks })
  note_block build_file blkadr s = some (list_cylinder blkadr (list_block blkadr s))

  unfoldable pub mapblock : ℕ → State → Option State
  unfolding note_block set_oor
  mapblock blkadr s =
      let s' = record s { blkcount = incr s.blkcount } in
      if is_valid blkadr
      then note_block env.mappingmode blkadr s'
      else if env.badblocks && (env.fdnno == bbfdn)
      then (if ltb blkadr 3 || leb env.sizes.lastblk blkadr then some (set_oor s') else some s')
      else some (set_oor s')

  unfoldable pub note_indirect : MapMode → ℕ → State → Option State
  unfolding mark list_block
  note_indirect build_map blkadr s = mark blkadr (record s { mapblks = incr s.mapblks })
  note_indirect build_file blkadr s = some (list_block blkadr s)

  -- The answer is true for ERR.
  unfoldable pub mapindirectblock : ℕ → State → Option (Bool × State)
  unfolding note_indirect set_oor
  mapindirectblock blkadr s =
      if is_valid blkadr
      then (do s' ← note_indirect env.mappingmode blkadr s; some (false, s'))
      else some (true, set_oor s)

  unfoldable pub checkrange : ℕ → State → Bool × State
  unfolding set_oor
  checkrange blkadr s =
      if blkadr == 0
      then (false, s)
      else if leb blkadr env.sizes.maxvld
      then (true, s)
      else (false, set_oor s)
