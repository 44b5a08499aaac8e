-- ===== src/Defrag/Runs.antt =====
-- The theorems on tek/devtools/defrag.c at a small disk: 65 blocks, five of them of descriptors. A
-- file has the blocks 10 and 10 and, named by the indirect block 20, the block 30.
use tek.Base.{
  ℕ, ◌-◌, ◌≡◌, refl, Bool, false, Option, none, some, List, [], ◌∷◌, ◌==◌, if◌then◌else◌, replicate,
  inl, arith,
}
use tek.Defrag.Bitmap.{Geometry, geometry}
use tek.Defrag.Bitmap.Bits.{bit_at}
use tek.Defrag.Account.{build_file, Env, State}
use tek.Defrag.Account.Balance.{IsSound}
use tek.Defrag.Follow.{mark_in_map}
use tek.Defrag.Follow.Visits.{outcome, file_visits}
use tek.Defrag.Follow.Order.{mark_in_map-eq-outcome}
use tek.Defrag.Follow.Layout.{named, kept, mark_in_map-blocks}
use tek.Defrag.Bitmap.{countbits}
use tek.Defrag.Bitmap.Count.{countbits-bits_in}
use tek.Defrag.Move.{copies, move_candidate}
use tek.Defrag.Move.Effect.{bit_at-move_candidate}
use tek.Defrag.Scan.{Counts, cleared, builds_fdns_map}
use tek.Defrag.Scan.Totals.{builds_fdns_map_balance}
use tek.Defrag.Space.{findcontiguous, last_used, packed, free_below}
use tek.Defrag.Space.Free.{findcontiguous-free}

abbrev small : Geometry
small = record { minvld = 7; maxvld = 64; lastblk = 65; mapsize = 8 }

abbrev clear : List ℕ
clear = replicate 8 0

abbrev fd_blk_at : ℕ → ℕ
fd_blk_at j = if j == 2 then 10 else if j == 5 then 10 else if j == 32 then 20 else 0

abbrev fdns : ℕ → ℕ
fdns j = if j == 0 then 1 else fd_blk_at (j - 9)

abbrev names_30 : ℕ → ℕ
names_30 j = if j == 5 then 30 else 0

abbrev disk : ℕ → Option (ℕ → ℕ)
disk b = if b == 2 then some fdns else if b == 20 then some names_30 else none

abbrev start : State
start = cleared small false disk clear

abbrev file_env : Env
file_env = record {
  sizes = small;
  badblocks = false;
  fdnno = 3;
  filetype = 1;
  mappingmode = build_file;
}

mark_in_map-eq-outcome_example :
    mark_in_map file_env disk fd_blk_at start
    ≡ outcome file_env (file_visits file_env disk fd_blk_at) start
mark_in_map-eq-outcome_example = mark_in_map-eq-outcome file_env disk fd_blk_at start

mark_in_map-blocks_example :
    (s' : State) × (mark_in_map file_env disk fd_blk_at start
      ≡ some ((file_visits file_env disk fd_blk_at).1, s'))
    × (s'.blocks ≡ kept (named file_env (file_visits file_env disk fd_blk_at).0))
    × (s'.mapbuf ≡ start.mapbuf)
mark_in_map-blocks_example = mark_in_map-blocks file_env refl disk fd_blk_at start

builds_fdns_map_balance_example :
    (found : Bool) × (c : Counts) × (s : State) × (builds_fdns_map
        (geometry 64 5 0 0)
        false
        disk
        5
        clear
      ≡ some (found, c, s))
    × IsSound 8 s
unfolding geometry
builds_fdns_map_balance_example =
    builds_fdns_map_balance 64 5 0 0 false disk clear (omega arith) (omega arith) (inl refl) refl
      refl (omega arith)

-- The byte before the run has its four low bits clear: the run starts four blocks before its byte.
findcontiguous-free_example : bit_at (1 ∷ 16 ∷ 0 ∷ 0 ∷ 1 ∷ []) 12 ≡ false
unfolding findcontiguous last_used packed free_below
findcontiguous-free_example =
    findcontiguous-free small (1 ∷ 16 ∷ 0 ∷ 0 ∷ 1 ∷ []) 9 19 0
      ((omega arith), ((omega arith), ((omega arith), ((omega arith), ((omega arith), tt))))) refl
      (λ e. omega (arith, e)) (omega arith)

-- The file of the block 18 is moved to the block 19; its bit, the twelfth, is clear behind the move.
bit_at-move_candidate_example :
    (m' : List ℕ) × (move_candidate small 0 (18 ∷ []) (1 ∷ 16 ∷ 0 ∷ 0 ∷ 1 ∷ [])
      ≡ some (some (record { wrong = false; copied = copies (some 18) 19 1 }), m'))
    × (bit_at m' 11 ≡ false)
unfolding findcontiguous last_used packed free_below
bit_at-move_candidate_example =
    bit_at-move_candidate small 0 (18 ∷ []) (1 ∷ 16 ∷ 0 ∷ 0 ∷ 1 ∷ []) 19 11
      ((omega arith), ((omega arith), ((omega arith), ((omega arith), ((omega arith), tt)))))
      (((omega arith), (omega arith)), tt) refl (λ e. omega (arith, e))

countbits-bits_in_example : countbits (1 ∷ 16 ∷ []) 5 8 ≡ some 2
unfolding bit_at
countbits-bits_in_example = countbits-bits_in (1 ∷ 16 ∷ []) 5 8 (omega arith) (omega arith)
