-- ===== src/Defrag/Follow/Layout.antt =====
-- The layout of a file: the blocks listed by BUILDFILE.
use tek.Base.{
  ℕ, zero, suc, ◌%◌, ◌^◌, ◌≡◌, refl, sym, ap, ◌∙◌, Bool, true, false, ◌&&◌, ◌||◌, Option, some,
  List, [], ◌∷◌, ◌++◌, append_assoc, append-nil, map, ltb, lt→ltb, leb, ◌==◌, if◌then◌else◌, length,
  take, Bool-cases, inl, inr, arith,
}
use tek.Defrag.Account.{
  build_file, Env, State, is_valid, max_blocks, list_block, list_cylinder, note_block,
  note_indirect, mapblock, set_oor, incr,
}
use tek.Defrag.Follow.{mark_in_map}
use tek.Defrag.Follow.Visits.{Visit, part, indirect, stray, visit, run, file_visits}
use tek.Defrag.Follow.Order.{mark_in_map-eq-outcome}

take_nil {ℓ} : {A : Type ℓ} (n : ℕ) → take {A = A} n [] ≡ []
take_nil zero = refl
take_nil (suc n) = refl

take-push {ℓ} :
    {A : Type ℓ} (n : ℕ) (xs : List A) (a : A)
    → (if ltb (length (take n xs)) n then take n xs ++ (a ∷ []) else take n xs)
      ≡ take n (xs ++ (a ∷ []))
take-push zero xs a = ground arith
take-push (suc n) [] a = rw (lt→ltb 0 (suc n) (omega arith)) (ap (λ t. a ∷ t) (sym (take_nil n)))
take-push (suc n) (x ∷ xs) a =
    let m : ℕ = length (take n xs) in
    let same : ltb (suc m) (suc n) ≡ ltb m n = ground arith in
    elim (Bool-cases (ltb m n)) [
      | inl e ↦ rw (same, e) (ap (λ t. x ∷ t) ((rw e refl) ∙ take-push n xs a))
      | inr e ↦ rw (same, e) (ap (λ t. x ∷ t) ((rw e refl) ∙ take-push n xs a))
    ]

module _ (env : Env) where
  -- The blocks in range that the visits name, in order.
  abbrev pub named : List Visit → List ℕ
  named [] = []
  named (part b ∷ vs) = if is_valid env b then b ∷ named vs else named vs
  named (indirect b ∷ vs) = if is_valid env b then b ∷ named vs else named vs
  named (stray ∷ vs) = named vs

-- What `blocks` keeps of them.
abbrev pub kept : List ℕ → List ℕ
kept bs = take max_blocks (map (λ b. b % 2 ^ 16) bs)

map-append_one :
    (bs : List ℕ) (b : ℕ)
    → map (λ c. c % 2 ^ 16) (bs ++ (b ∷ [])) ≡ map (λ c. c % 2 ^ 16) bs ++ ((b % 2 ^ 16) ∷ [])
map-append_one [] b = refl
map-append_one (c ∷ bs) b = ap (λ t. (c % 2 ^ 16) ∷ t) (map-append_one bs b)

kept-push :
    (bs : List ℕ) (b : ℕ)
    → (if ltb (length (kept bs)) max_blocks then kept bs ++ ((b % 2 ^ 16) ∷ []) else kept bs)
      ≡ kept (bs ++ (b ∷ []))
kept-push bs b =
    take-push max_blocks (map (λ c. c % 2 ^ 16) bs) (b % 2 ^ 16)
    ∙ ap (take max_blocks) (sym (map-append_one bs b))

-- A file whose blocks in range are `bs`, as far as it was followed: the map is not touched.
abbrev Lists : List ℕ → State → State → Type 0
Lists bs s s' = (s'.blocks ≡ kept bs) × (s'.mapbuf ≡ s.mapbuf)

module _ (env : Env) (mode : env.mappingmode ≡ build_file) where
  list_block-kept :
      (bs : List ℕ) (b : ℕ) (s : State)
      → s.blocks ≡ kept bs
      → (list_block env b s).blocks ≡ kept (bs ++ (b ∷ []))
  unfolding list_block
  list_block-kept bs b s e =
      ap (λ (t : List ℕ). if ltb (length t) max_blocks then t ++ ((b % 2 ^ 16) ∷ []) else t) e
      ∙ kept-push bs b

  list_cylinder-keeps :
      (b : ℕ) (s : State)
      → ((list_cylinder env b s).blocks ≡ s.blocks) × ((list_cylinder env b s).mapbuf ≡ s.mapbuf)
  unfolding list_cylinder
  list_cylinder-keeps b s = ground arith

  list_block-mapbuf : (b : ℕ) (s : State) → (list_block env b s).mapbuf ≡ s.mapbuf
  unfolding list_block
  list_block-mapbuf b s = refl

  passed_over :
      (bad out : Bool) (bs : List ℕ) (s : State)
      → s.blocks ≡ kept bs
      → (s' : State) × ((if bad
            then (if out
                then some (set_oor env (record s { blkcount = incr s.blkcount }))
                else some (record s { blkcount = incr s.blkcount }))
            else some (set_oor env (record s { blkcount = incr s.blkcount })))
          ≡ some s')
        × Lists bs s s'
  unfolding set_oor
  passed_over true true bs s e =
      (set_oor env (record s { blkcount = incr s.blkcount }), refl, (e, refl))
  passed_over true false bs s e = (record s { blkcount = incr s.blkcount }, refl, (e, refl))
  passed_over false out bs s e =
      (set_oor env (record s { blkcount = incr s.blkcount }), refl, (e, refl))

  named_cons :
      (v : Visit) (vs : List Visit) → named env (v ∷ []) ++ named env vs ≡ named env (v ∷ vs)
  named_cons (part b) vs = elim (Bool-cases (is_valid env b)) [
    | inl e ↦ rw e refl
    | inr e ↦ rw e refl
  ]
  named_cons (indirect b) vs = elim (Bool-cases (is_valid env b)) [
    | inl e ↦ rw e refl
    | inr e ↦ rw e refl
  ]
  named_cons stray vs = refl

  visit-Lists :
      (v : Visit) (bs : List ℕ) (s : State)
      → s.blocks ≡ kept bs
      → (s' : State) × (visit env v s ≡ some s') × Lists (bs ++ named env (v ∷ [])) s s'
  unfolding visit mapblock note_block note_indirect set_oor
  visit-Lists (part b) bs s e =
      let s1 : State = record s { blkcount = incr s.blkcount } in
      let s2 : State = list_block env b s1 in
      elim (Bool-cases (is_valid env b)) [
        | inl valid ↦ rw valid (
          list_cylinder env b s2,
          ap (λ m. note_block env m b s1) mode,
          (
            (list_cylinder-keeps b s2).0 ∙ list_block-kept bs b s1 e,
            (list_cylinder-keeps b s2).1 ∙ list_block-mapbuf b s1,
          ),
        )
        | inr out ↦
            rw (out, append-nil bs)
              (passed_over (env.badblocks && (env.fdnno == 2)) (ltb b 3 || leb env.sizes.lastblk b)
                bs s e)
      ]
  visit-Lists (indirect b) bs s e = elim (Bool-cases (is_valid env b)) [
    | inl valid ↦ rw valid (
      list_block env b s,
      ap (λ m. note_indirect env m b s) mode,
      (list_block-kept bs b s e, list_block-mapbuf b s),
    )
    | inr out ↦ rw (out, append-nil bs) (set_oor env s, refl, (e, refl))
  ]
  visit-Lists stray bs s e = rw (append-nil bs) (set_oor env s, refl, (e, refl))

  run-Lists :
      (vs : List Visit) (bs : List ℕ) (s : State)
      → s.blocks ≡ kept bs
      → (s' : State) × (run env vs s ≡ some s') × Lists (bs ++ named env vs) s s'
  unfolding run
  run-Lists [] bs s e = rw (append-nil bs) (s, refl, (e, refl))
  run-Lists (v ∷ vs) bs s e =
      let (s1, first, (e1, m1)) = visit-Lists v bs s e in
      let (s2, rest, (e2, m2)) = run-Lists vs (bs ++ named env (v ∷ [])) s1 e1 in
      (
        s2,
        (rw (first, rest) refl),
        (
          e2
              ∙ ap kept (
                  append_assoc bs (named env (v ∷ [])) (named env vs)
                  ∙ ap (λ t. bs ++ t) (named_cons v vs)),
          m2 ∙ m1,
        ),
      )

  -- In the mode BUILDFILE a descriptor is followed on every disk, the map is not changed, and the
  -- layout lists the blocks in range that the visits of its tree name, in order: the first 16384 of
  -- them, each cut to 16 bits.
  pub mark_in_map-blocks :
      (disk : ℕ → Option (ℕ → ℕ)) (fd_blk : ℕ → ℕ) (s : State)
      → (s' : State) × (mark_in_map env disk fd_blk s ≡ some ((file_visits env disk fd_blk).1, s'))
        × (s'.blocks ≡ kept (named env (file_visits env disk fd_blk).0))
        × (s'.mapbuf ≡ s.mapbuf)
  mark_in_map-blocks disk fd_blk s =
      let start : State = record s { blkcount = 0; cids = []; blocks = [] } in
      let w = file_visits env disk fd_blk in
      let (s', done, (listed, kept_map)) = run-Lists w.0 [] start refl in
      (s', mark_in_map-eq-outcome env disk fd_blk s ∙ (rw done refl), listed, kept_map)
