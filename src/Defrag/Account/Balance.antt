-- ===== src/Defrag/Account/Balance.antt =====
-- The accounts balance: each block counted is a bit of the map that was clear, or a duplicate.
use tek.Base.{
  ℕ, ◌+◌, ◌-◌, ◌/◌, ◌%◌, ◌^◌, ◌≤◌, ◌<◌, ◌≡◌, refl, ◌∙◌, true, ◌&&◌, ◌||◌, &&-left, &&-right, some,
  List, [], ◌∷◌, ltb, leb, leb→le, ◌==◌, if◌then◌else◌, length, length-append, Bool-cases, inl, inr,
  arith,
}
use tek.Defrag.Bitmap.Bits.{Bytes, InMap, used_bits, bit_at, setbit-some}
use tek.Defrag.Account.{
  build_map, Env, State, max_dups, max_oors, push, incr, is_valid, set_dup, set_oor, mark,
  note_block, note_indirect, mapblock,
}

-- The map has a bit for every block of the range.
abbrev pub Covers : Env → ℕ → Type 0
Covers env size = (env.sizes.maxvld - env.sizes.minvld) / 8 < size

-- The map is a map of bytes of its size, neither table is longer than its array, and the blocks
-- counted are the bits set and the duplicates, modulo the width of a counter.
pub record IsSound (size : ℕ) (s : State) : Type 0 where
  pub bytes : Bytes s.mapbuf
  pub sized : length s.mapbuf ≡ size
  pub dups_fit : length s.dups ≤ max_dups
  pub oors_fit : length s.oors ≤ max_oors
  pub balance :
      (used_bits s.mapbuf + s.dupblks) % 2 ^ 32 ≡ (s.regblks + s.dirblks + s.mapblks) % 2 ^ 32

push_fits {ℓ} :
    {A : Type ℓ} (room : ℕ) (a : A) (xs : List A)
    → length xs ≤ room
    → length (push room a xs) ≤ room
push_fits room a xs h = elim (Bool-cases (length xs == room)) [
  | inl e ↦ rw e h
  | inr e ↦
      rw e (
        let le : length xs + 1 ≤ room = ground arith in
        omega (arith, le, length-append xs (a ∷ [])))
]

module _ (env : Env) (size : ℕ) (covers : Covers env size) where
  valid-InMap : (b : ℕ) (m : List ℕ) → length m ≡ size → is_valid env b ≡ true → InMap env.sizes b m
  valid-InMap b m sized h =
      let low : env.sizes.minvld ≤ b =
        leb→le env.sizes.minvld b (&&-left (leb env.sizes.minvld b) (leb b env.sizes.maxvld) h) in
      let high : b ≤ env.sizes.maxvld =
        leb→le b env.sizes.maxvld (&&-right (leb env.sizes.minvld b) (leb b env.sizes.maxvld) h) in
      (low, omega (arith, sized, covers))

  pub set_oor-IsSound : {s : State} → IsSound size s → IsSound size (set_oor env s)
  unfolding set_oor
  set_oor-IsSound {s} h = record {
    bytes = h.bytes;
    sized = h.sized;
    dups_fit = h.dups_fit;
    oors_fit = push_fits max_oors env.fdnno s.oors h.oors_fit;
    balance = h.balance;
  }

  -- A block marked after it was counted: `counted` is the count behind it.
  mark-IsSound :
      (b : ℕ) (s : State)
      → is_valid env b ≡ true
      → Bytes s.mapbuf
      → length s.mapbuf ≡ size
      → length s.dups ≤ max_dups
      → length s.oors ≤ max_oors
      → (used_bits s.mapbuf + s.dupblks + 1) % 2 ^ 32 ≡ (s.regblks + s.dirblks + s.mapblks) % 2 ^ 32
      → (s' : State) × (mark env b s ≡ some s') × IsSound size s'
  unfolding mark set_dup
  mark-IsSound b s valid bytes sized dups_fit oors_fit balance =
      let (m', made, bytes', sized', count) =
        setbit-some env.sizes b s.mapbuf bytes (valid-InMap b s.mapbuf sized valid) in
      elim (Bool-cases (bit_at s.mapbuf (b - env.sizes.minvld))) [
        | inl hit ↦ (
          set_dup env b (record s { mapbuf = m' }),
          (rw (made, hit) refl),
          record {
            bytes = bytes';
            sized = sized' ∙ sized;
            dups_fit = push_fits max_dups (b, env.fdnno) s.dups dups_fit;
            oors_fit = oors_fit;
            balance =
                (let count' : used_bits m' + 1 ≡ used_bits s.mapbuf + 1 = (rw hit at count) in
                  omega arith);
          },
        )
        | inr free ↦ (
          record s { mapbuf = m' },
          (rw (made, free) refl),
          record {
            bytes = bytes';
            sized = sized' ∙ sized;
            dups_fit = dups_fit;
            oors_fit = oors_fit;
            balance =
                (let count' : used_bits m' + 0 ≡ used_bits s.mapbuf + 1 = (rw free at count) in
                  omega arith);
          },
        )
      ]

  note_block-IsSound :
      (b : ℕ) (s : State)
      → is_valid env b ≡ true
      → IsSound size s
      → (s' : State) × (note_block env build_map b s ≡ some s') × IsSound size s'
  unfolding note_block
  note_block-IsSound b s valid h = elim (Bool-cases (env.filetype == 9)) [
    | inl e ↦ rw e (
        mark-IsSound b (record s { dirblks = incr s.dirblks }) valid h.bytes h.sized h.dups_fit
          h.oors_fit (let z = h.balance in omega arith))
    | inr e ↦ rw e (
        mark-IsSound b (record s { regblks = incr s.regblks }) valid h.bytes h.sized h.dups_fit
          h.oors_fit (let z = h.balance in omega arith))
  ]

  note_indirect-IsSound :
      (b : ℕ) (s : State)
      → is_valid env b ≡ true
      → IsSound size s
      → (s' : State) × (note_indirect env build_map b s ≡ some s') × IsSound size s'
  unfolding note_indirect
  note_indirect-IsSound b s valid h =
      mark-IsSound b (record s { mapblks = incr s.mapblks }) valid h.bytes h.sized h.dups_fit
        h.oors_fit (let z = h.balance in omega arith)

  -- The count of the blocks of a file is no part of the accounts.
  pub counted-IsSound :
      (n : ℕ) {s : State} → IsSound size s → IsSound size (record s { blkcount = n })
  counted-IsSound n h = record {
    bytes = h.bytes;
    sized = h.sized;
    dups_fit = h.dups_fit;
    oors_fit = h.oors_fit;
    balance = h.balance;
  }

  pub mapblock-IsSound :
      (b : ℕ) (s : State)
      → env.mappingmode ≡ build_map
      → IsSound size s
      → (s' : State) × (mapblock env b s ≡ some s') × IsSound size s'
  unfolding mapblock
  mapblock-IsSound b s mode h =
      let s1 : State = record s { blkcount = incr s.blkcount } in
      let h1 : IsSound size s1 = counted-IsSound (incr s.blkcount) h in
      elim (Bool-cases (is_valid env b)) [
        | inl e ↦ rw (e, mode) (note_block-IsSound b s1 e h1)
        | inr e ↦ elim (Bool-cases (env.badblocks && (env.fdnno == 2))) [
          | inr other ↦ rw (e, other) (set_oor env s1, refl, set_oor-IsSound h1)
          | inl bad ↦ elim (Bool-cases (ltb b 3 || leb env.sizes.lastblk b)) [
            | inl out ↦ rw (e, bad, out) (set_oor env s1, refl, set_oor-IsSound h1)
            | inr within ↦ rw (e, bad, within) (s1, refl, h1)
          ]
        ]
      ]

  pub indirect-IsSound :
      (b : ℕ) (s : State)
      → env.mappingmode ≡ build_map
      → IsSound size s
      → (s' : State) × ((if is_valid env b
            then note_indirect env env.mappingmode b s
            else some (set_oor env s))
          ≡ some s')
        × IsSound size s'
  unfolding note_indirect
  indirect-IsSound b s mode h = elim (Bool-cases (is_valid env b)) [
    | inl e ↦ rw (e, mode) (note_indirect-IsSound b s e h)
    | inr e ↦ rw e (set_oor env s, refl, set_oor-IsSound h)
  ]
