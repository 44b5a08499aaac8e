-- ===== src/Defrag/Follow/Visits.antt =====
-- Following a descriptor, as one recursion over the tree of its blocks.
use tek.Base.{
  ℕ, zero, suc, ◌+◌, Bool, true, false, Option, none, some, List, [], ◌∷◌, ◌++◌, leb, ◌==◌,
  if◌then◌else◌, get_or, take, ◌>>=◌,
}
use tek.Defrag.Account.{Env, State, is_valid, note_indirect, mapblock, set_oor}
use tek.Defrag.Follow.{l3tol, smsz, fmsz}

-- What happens to a block that is named: it is counted as part of the file, it is an indirect
-- block, or it is out of range where an indirect block must stand.
pub data Visit : Type 0 where
  part : ℕ → Visit
  indirect : ℕ → Visit
  stray : Visit

unfoldable pub parts : List ℕ → List Visit
parts [] = []
parts (b ∷ bs) = if b == 0 then parts bs else part b ∷ parts bs

-- One visit after another, unless one stopped.
abbrev pub then_visits : List Visit × Bool → List Visit × Bool → List Visit × Bool
then_visits (vs, true) w = (vs, true)
then_visits (vs, false) w = (vs ++ w.0, w.1)

module _ (env : Env) where
  -- A root: passed over if zero or above the range.
  abbrev pub root_visits : (ℕ → List Visit × Bool) → ℕ → List Visit × Bool
  root_visits node b =
      if b == 0 then ([], false) else if leb b env.sizes.maxvld then node b else (stray ∷ [], false)

  unfoldable pub walk : (ℕ → List Visit × Bool) → List ℕ → List Visit × Bool
  walk node [] = ([], false)
  walk node (b ∷ bs) = then_visits (root_visits node b) (walk node bs)

  unfoldable pub visit : Visit → State → Option State
  visit (part b) s = mapblock env b s
  visit (indirect b) s =
      if is_valid env b then note_indirect env env.mappingmode b s else some (set_oor env s)
  visit stray s = some (set_oor env s)

  unfoldable pub run : List Visit → State → Option State
  unfolding visit
  run [] s = some s
  run (v ∷ vs) s = do s' ← visit v s; run vs s'

  -- The visits in order, and the answer.
  abbrev pub outcome : List Visit × Bool → State → Option (Bool × State)
  outcome w s = do s' ← run w.0 s; some (w.1, s')

module _ (env : Env) (disk : ℕ → Option (ℕ → ℕ)) where
  -- An indirect block and what it names; below the range it ends the visits.
  abbrev pub node_visits : (List ℕ → List Visit × Bool) → ℕ → List Visit × Bool
  node_visits below b =
      if is_valid env b
      then then_visits (indirect b ∷ [], false)
          (elim (disk b) [ none ↦ ([], false) | some f ↦ below (l3tol f 0 smsz) ])
      else (stray ∷ [], true)

  -- The visits of the blocks that an indirect block names, `depth` levels above the file's own.
  unfoldable pub tree : ℕ → List ℕ → List Visit × Bool
  unfolding parts walk
  tree zero bs = (parts bs, false)
  tree (suc depth) bs = walk env (node_visits (tree depth)) bs

  -- Ten blocks of the file, then a tree of each depth.
  unfoldable pub file_visits : (ℕ → ℕ) → List Visit × Bool
  unfolding tree
  file_visits fd_blk =
      let blocks = l3tol fd_blk 0 (fmsz + 3) in
      then_visits (parts (take fmsz blocks), false)
        (then_visits (root_visits env (node_visits (tree 0)) (get_or blocks 10 0)) (
          then_visits (root_visits env (node_visits (tree 1)) (get_or blocks 11 0))
            (root_visits env (node_visits (tree 2)) (get_or blocks 12 0))))
