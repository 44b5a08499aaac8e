-- ===== src/Defrag/Follow/Order.antt =====
-- Following a descriptor is its visits in order, proved for each of the functions.
use tek.Base.{
  ℕ, ◌≡◌, refl, sym, ap, ◌∙◌, Bool, true, false, Option, none, some, List, [], ◌∷◌, ◌++◌, leb, ◌==◌,
  if◌then◌else◌, get_or, take, ◌>>=◌, Bool-cases, Option-cases, inl, inr,
}
use tek.Defrag.Account.{Env, State, is_valid, note_indirect, mapblock, mapindirectblock, checkrange}
use tek.Defrag.Follow.{
  l3tol, smsz, fmsz, map_all, follow_all, follow_one, do_sind, do_dind, do_tind, mark_in_map,
}
use tek.Defrag.Follow.Visits.{
  Visit, indirect, parts, then_visits, root_visits, walk, visit, run, outcome, node_visits, tree,
  file_visits,
}

bind_assoc {ℓ κ μ} :
    {A : Type ℓ} {B : Type κ} {C : Type μ} (m : Option A) (f : A → Option B) (g : B → Option C)
    → ((m >>= f) >>= g) ≡ (m >>= (λ a. f a >>= g))
bind_assoc (some a) f g = refl
bind_assoc none f g = refl

bind_cong {ℓ κ} :
    {A : Type ℓ} {B : Type κ} {f g : A → Option B} (m : Option A)
    → ((a : A) → f a ≡ g a)
    → (m >>= f) ≡ (m >>= g)
bind_cong (some a) h = h a
bind_cong none h = refl

module _ (env : Env) where
  run-append :
      (vs ws : List Visit) (s : State) → run env (vs ++ ws) s ≡ (run env vs s >>= run env ws)
  unfolding run
  run-append [] ws s = refl
  run-append (v ∷ vs) ws s =
      bind_cong (visit env v s) (run-append vs ws)
      ∙ sym (bind_assoc (visit env v s) (run env vs) (run env ws))

  -- After a first part that may end the visits.
  go_on : (State → Option (Bool × State)) → Bool × State → Option (Bool × State)
  go_on next (true, s) = some (true, s)
  go_on next (false, s) = next s

  go_on_cong :
      {f g : State → Option (Bool × State)}
      → ((s : State) → f s ≡ g s)
      → (r : Bool × State) → go_on f r ≡ go_on g r
  unfolding go_on
  go_on_cong h (true, s) = refl
  go_on_cong h (false, s) = h s

  if-go_on :
      (f : State → Option (Bool × State)) (r : Bool × State)
      → (if r.0 then some (true, r.1) else f r.1) ≡ go_on f r
  unfolding go_on
  if-go_on f (true, s) = refl
  if-go_on f (false, s) = refl

  outcome-then :
      (v w : List Visit × Bool) (s : State)
      → outcome env (then_visits v w) s ≡ (outcome env v s >>= go_on (outcome env w))
  unfolding go_on
  outcome-then (vs, true) w s =
      sym (bind_assoc (run env vs s) (λ s'. some (true, s')) (go_on (outcome env w)))
  outcome-then (vs, false) w s =
      ap (λ m. m >>= (λ s'. some (w.1, s'))) (run-append vs w.0 s)
      ∙ bind_assoc (run env vs s) (run env w.0) (λ s'. some (w.1, s'))
      ∙ sym (bind_assoc (run env vs s) (λ s'. some (false, s')) (go_on (outcome env w)))

  two :
      {f g : State → Option (Bool × State)} (v w : List Visit × Bool)
      → ((s : State) → f s ≡ outcome env v s)
      → ((s : State) → g s ≡ outcome env w s)
      → (s : State)
      → (f s >>= (λ r. if r.0 then some (true, r.1) else g r.1)) ≡ outcome env (then_visits v w) s
  two {g} v w first next s =
      ap (λ m. m >>= (λ r. if r.0 then some (true, r.1) else g r.1)) (first s)
      ∙ bind_cong (outcome env v s) (λ r. if-go_on g r ∙ go_on_cong next r)
      ∙ sym (outcome-then v w s)

  map_all-eq-run :
      (disk : ℕ → Option (ℕ → ℕ)) (bs : List ℕ) (s : State)
      → map_all env disk bs s ≡ run env (parts bs) s
  unfolding map_all run parts visit
  map_all-eq-run disk [] s = refl
  map_all-eq-run disk (b ∷ bs) s = elim (Bool-cases (b == 0)) [
    | inl e ↦ rw e (map_all-eq-run disk bs s)
    | inr e ↦ rw e (bind_cong (mapblock env b s) (map_all-eq-run disk bs))
  ]

  module _ (disk : ℕ → Option (ℕ → ℕ)) where
    module _ (follow : ℕ → State → Option (Bool × State)) (node : ℕ → List Visit × Bool)
        (law : (b : ℕ) (s : State) → follow b s ≡ outcome env (node b) s) where
      follow_one-eq-outcome :
          (b : ℕ) (s : State)
          → follow_one env disk follow b s ≡ outcome env (root_visits env node b) s
      unfolding follow_one checkrange run visit
      follow_one-eq-outcome b s = elim (Bool-cases (b == 0)) [
        | inl e ↦ rw e refl
        | inr e ↦ elim (Bool-cases (leb b env.sizes.maxvld)) [
          | inl inside ↦ rw (e, inside) (law b s)
          | inr above ↦ rw (e, above) refl
        ]
      ]

      follow_all-one :
          (b : ℕ) (bs : List ℕ) (s : State)
          → follow_all env disk follow (b ∷ bs) s
            ≡ (follow_one env disk follow b s >>= go_on (follow_all env disk follow bs))
      unfolding follow_one follow_all go_on
      follow_all-one b bs s = elim (Bool-cases (checkrange env b s).0) [
        | inl e ↦
            rw e (
              bind_cong (follow b (checkrange env b s).1)
                (if-go_on (follow_all env disk follow bs)))
        | inr e ↦ rw e refl
      ]

      follow_all-eq-outcome :
          (bs : List ℕ) (s : State)
          → follow_all env disk follow bs s ≡ outcome env (walk env node bs) s
      unfolding follow_all walk run
      follow_all-eq-outcome [] s = refl
      follow_all-eq-outcome (b ∷ bs) s =
          follow_all-one b bs s
          ∙ ap (λ m. m >>= go_on (follow_all env disk follow bs)) (follow_one-eq-outcome b s)
          ∙ bind_cong (outcome env (root_visits env node b) s)
              (go_on_cong (follow_all-eq-outcome bs))
          ∙ sym (outcome-then (root_visits env node b) (walk env node bs) s)

    -- An indirect block, and what is done with the block read.
    abbrev level : ((ℕ → ℕ) → State → Option (Bool × State)) → ℕ → State → Option (Bool × State)
    level inner b s = do
      (err, s') ← mapindirectblock env b s
      if err
          then some (true, s')
          else elim (disk b) [ none ↦ some (false, s') | some f ↦ inner f s' ]

    visit_valid :
        (b : ℕ) (s : State)
        → is_valid env b ≡ true
        → visit env (indirect b) s ≡ note_indirect env env.mappingmode b s
    unfolding visit
    visit_valid b s e = rw e refl

    level-eq-outcome :
        (inner : (ℕ → ℕ) → State → Option (Bool × State)) (below : List ℕ → List Visit × Bool)
        → ((f : ℕ → ℕ) (s : State) → inner f s ≡ outcome env (below (l3tol f 0 smsz)) s)
        → (b : ℕ) (s : State) → level inner b s ≡ outcome env (node_visits env disk below b) s
    unfolding mapindirectblock run
    level-eq-outcome inner below law b s = elim (Bool-cases (is_valid env b)) [
      | inr out ↦ rw out (unfold visit in refl)
      | inl inside ↦ elim (Option-cases (disk b)) [
        | inl e ↦
            rw (inside, e, visit_valid b s inside)
              (bind_assoc (note_indirect env env.mappingmode b s) _ _
                ∙ sym (bind_assoc (note_indirect env env.mappingmode b s) _ _))
        | inr (f, e) ↦
            rw (inside, e, visit_valid b s inside)
              (bind_assoc (note_indirect env env.mappingmode b s) _ _
                ∙ bind_cong (note_indirect env env.mappingmode b s) (law f)
                ∙ sym (bind_assoc (note_indirect env env.mappingmode b s) _ _))
      ]
    ]

    do_sind-eq-outcome :
        (b : ℕ) (s : State)
        → do_sind env disk b s ≡ outcome env (node_visits env disk (tree env disk 0) b) s
    unfolding do_sind tree
    do_sind-eq-outcome =
        level-eq-outcome (λ f s. do s'' ← map_all env disk (l3tol f 0 smsz) s; some (false, s''))
          (tree env disk 0)
          (λ f s.
            ap (λ m. m >>= (λ s''. some (false, s''))) (map_all-eq-run disk (l3tol f 0 smsz) s))

    do_dind-eq-outcome :
        (b : ℕ) (s : State)
        → do_dind env disk b s ≡ outcome env (node_visits env disk (tree env disk 1) b) s
    unfolding do_dind tree
    do_dind-eq-outcome =
        level-eq-outcome (λ f s. follow_all env disk (do_sind env disk) (l3tol f 0 smsz) s)
          (tree env disk 1)
          (λ f s.
            follow_all-eq-outcome (do_sind env disk) (node_visits env disk (tree env disk 0))
              do_sind-eq-outcome (l3tol f 0 smsz) s)

    do_tind-eq-outcome :
        (b : ℕ) (s : State)
        → do_tind env disk b s ≡ outcome env (node_visits env disk (tree env disk 2) b) s
    unfolding do_tind tree
    do_tind-eq-outcome =
        level-eq-outcome (λ f s. follow_all env disk (do_dind env disk) (l3tol f 0 smsz) s)
          (tree env disk 2)
          (λ f s.
            follow_all-eq-outcome (do_dind env disk) (node_visits env disk (tree env disk 1))
              do_dind-eq-outcome (l3tol f 0 smsz) s)

    -- Following a descriptor is the visits of its tree one after the other, for every disk, range and
    -- mode: the ten blocks named in it, then the trees of depth one, two and three, until an indirect
    -- block is below the range. An access out of the map is one of these visits.
    pub mark_in_map-eq-outcome :
        (fd_blk : ℕ → ℕ) (s : State)
        → mark_in_map env disk fd_blk s
          ≡ outcome env
              (file_visits env disk fd_blk)
              (record s { blkcount = 0; cids = []; blocks = [] })
    unfolding mark_in_map file_visits
    mark_in_map-eq-outcome fd_blk s =
        let blocks : List ℕ = l3tol fd_blk 0 13 in
        let start : State = record s { blkcount = 0; cids = []; blocks = [] } in
        let single =
          root_visits env (node_visits env disk (tree env disk 0)) (get_or blocks 10 0) in
        let double =
          root_visits env (node_visits env disk (tree env disk 1)) (get_or blocks 11 0) in
        let triple =
          root_visits env (node_visits env disk (tree env disk 2)) (get_or blocks 12 0) in
        let behind = then_visits single (then_visits double triple) in
        rw (map_all-eq-run disk (take fmsz blocks) start) (
          bind_cong (run env (parts (take fmsz blocks)) start) (
            two single (then_visits double triple)
              (follow_one-eq-outcome (do_sind env disk) (node_visits env disk (tree env disk 0))
                do_sind-eq-outcome (get_or blocks 10 0))
              (two double triple
                (follow_one-eq-outcome (do_dind env disk) (node_visits env disk (tree env disk 1))
                  do_dind-eq-outcome (get_or blocks 11 0))
                (follow_one-eq-outcome (do_tind env disk) (node_visits env disk (tree env disk 2))
                  do_tind-eq-outcome (get_or blocks 12 0))))
          ∙ sym (
              ap (λ m. m >>= (λ s'. some (behind.1, s')))
                (run-append (parts (take fmsz blocks)) behind.0 start)
              ∙ bind_assoc (run env (parts (take fmsz blocks)) start) (run env behind.0)
                  (λ s'. some (behind.1, s'))))
