-- ===== src/Tar/Tape/Reading.antt =====
-- A tape that is read record by record gives the blocks of the records in order.
use tek.Base.{
  none, ℕ, zero, suc, ◌+◌, ◌<◌, ◌≡◌, refl, sym, ap, ◌∙◌, true, false, ◌||◌, not, some, List, [],
  ◌∷◌, ◌++◌, append_assoc, map, leb, length, length-append, get_elem?, get_elem?-append_len, drop,
  All, Bool-cases, inl, inr, arith,
}
use tek.Tar.Tape.{Outcome, returned, ◌>>=◌, Read, got, Tape, next_read, fill, take_block, readtape}
use tek.Tar.Tape.Record.{flatten}

module _ {ℓ} {Block : Type ℓ} where
  -- As many blocks as a number says.
  unfoldable pub read_blocks : ℕ → Tape Block → Outcome (List Block × Tape Block)
  read_blocks zero t = returned ([], t)
  read_blocks (suc n) t = do
    (b, t') ← readtape t
    (bs, t'') ← read_blocks n t'
    returned (b ∷ bs, t'')

  -- The results of reading such records one by one.
  abbrev pub reads : List (List Block) → List (Read Block)
  reads rs = map (λ r. got r none) rs

  -- The blocks that are to be read: those ahead in the buffer and those in the records behind.
  pub record Ahead (rem : List Block) (t : Tape Block) : Type ℓ where
    pub past : List Block
    pub ahead : List Block
    pub stale : List Block
    pub records : List (List Block)
    pub buffer : t.tbuf ≡ past ++ (ahead ++ stale)
    pub placed : length past ≡ t.recno
    pub sized : t.recno + length ahead ≡ t.nblock
    pub begun : t.first ≡ true
    pub unread : t.unread ≡ reads records
    pub full : All (λ r. length r ≡ t.nblock) records
    pub room : 0 < t.nblock
    pub order : rem ≡ ahead ++ flatten records

  take_block_lem :
      (b : Block) (t : Tape Block)
      → get_elem? t.tbuf t.recno ≡ some b
      → take_block t ≡ returned (b, record t { first = true; recno = t.recno + 1 })
  unfolding take_block
  take_block_lem b t here = rw (here, take_block) refl

  -- The first block of a record that was read into the buffer.
  take_first :
      (b : Block) (r : List Block) (stale : List Block) (rs : List (List Block)) (t : Tape Block)
      → t.tbuf ≡ (b ∷ r) ++ stale
      → t.recno ≡ 0
      → t.nblock ≡ suc (length r)
      → t.unread ≡ reads rs
      → All (λ r'. length r' ≡ t.nblock) rs
      → (take_block t ≡ returned (b, record t { first = true; recno = t.recno + 1 }))
        × Ahead (r ++ flatten rs) (record t { first = true; recno = t.recno + 1 })
  take_first b r stale rs t e z n u full = (
    take_block_lem b t (ap (λ xs. get_elem? xs t.recno) e ∙ ap (get_elem? ((b ∷ r) ++ stale)) z),
    record {
      past = b ∷ [];
      ahead = r;
      stale = stale;
      records = rs;
      buffer = e;
      placed = omega arith;
      sized = omega arith;
      begun = refl;
      unread = u;
      full = full;
      room = omega arith;
      order = refl;
    },
  )

  -- A block in the buffer.
  readtape-Ahead :
      (b : Block) (past ahead stale : List Block) (rs : List (List Block)) (t : Tape Block)
      → t.tbuf ≡ past ++ ((b ∷ ahead) ++ stale)
      → length past ≡ t.recno
      → t.recno + length (b ∷ ahead) ≡ t.nblock
      → t.first ≡ true
      → t.unread ≡ reads rs
      → All (λ r. length r ≡ t.nblock) rs
      → (t' : Tape Block) × (readtape t ≡ returned (b, t')) × Ahead (ahead ++ flatten rs) t'
  unfolding readtape
  readtape-Ahead b past ahead stale rs t e r n f u full =
      let within : (leb t.nblock t.recno || not t.first) ≡ false = ground arith in
      let here : get_elem? t.tbuf t.recno ≡ some b =
        ap (λ xs. get_elem? xs t.recno) e
        ∙ get_elem?-append_len past (ahead ++ stale) b t.recno (sym r) in
      (
        record t { first = true; recno = t.recno + 1 },
        (rw within (take_block_lem b t here)),
        record {
          past = past ++ (b ∷ []);
          ahead = ahead;
          stale = stale;
          records = rs;
          buffer = e ∙ sym (append_assoc past (b ∷ []) (ahead ++ stale));
          placed = omega (arith, length-append past (b ∷ []));
          sized = omega arith;
          begun = refl;
          unread = u;
          full = full;
          room = omega arith;
          order = refl;
        },
      )

  -- A record that is read into the buffer, at the start or behind the last block of the one before.
  pub read_record :
      (b : Block) (r : List Block) (rs : List (List Block)) (t : Tape Block)
      → (leb t.nblock t.recno || not t.first) ≡ true
      → (t.first ≡ true → t.nblock ≡ suc (length r))
      → t.unread ≡ reads ((b ∷ r) ∷ rs)
      → All (λ r'. length r' ≡ suc (length r)) rs
      → (t' : Tape Block) × (readtape t ≡ returned (b, t')) × Ahead (r ++ flatten rs) t'
  unfolding readtape fill
  read_record b r rs t refilled same u full =
      let buffer : List Block = (b ∷ r) ++ drop (suc (length r)) t.tbuf in
      let rest : drop 1 t.unread ≡ reads rs = ap (drop 1) u in
      let next : next_read t.unread ≡ got (b ∷ r) none = ap next_read u in
      elim (Bool-cases t.first) [
        | inl f ↦
            (let full' : All (λ r'. length r' ≡ t.nblock) rs = (rw (same f) full) in
              let (here, held) =
                take_first b r (drop (suc (length r)) t.tbuf) rs
                  (record t { tbuf = buffer; unread = drop 1 t.unread; recno = 0 }) refl refl
                  (same f) rest full' in
              (_, (rw (refilled, next, f) here), held))
        | inr f ↦
            (let (here, held) =
                take_first b r (drop (suc (length r)) t.tbuf) rs
                  (record t {
                    tbuf = buffer;
                    unread = drop 1 t.unread;
                    recno = 0;
                    nblock = suc (length r);
                  })
                  refl refl refl rest full in
              (_, (rw (refilled, next, f) here), held))
      ]

  pub read_next :
      (rem past ahead stale : List Block) (rs : List (List Block)) (t : Tape Block)
      → t.tbuf ≡ past ++ (ahead ++ stale)
      → length past ≡ t.recno
      → t.recno + length ahead ≡ t.nblock
      → t.first ≡ true
      → t.unread ≡ reads rs
      → All (λ r. length r ≡ t.nblock) rs
      → 0 < t.nblock
      → rem ≡ ahead ++ flatten rs
      → 0 < length rem
      → (b : Block) × (rem' : List Block) × (t' : Tape Block) × (rem ≡ b ∷ rem')
        × (readtape t ≡ returned (b, t'))
        × Ahead rem' t'
  read_next rem past (b ∷ ahead) stale rs t e r n f u full room order more =
      let (t', step, held) = readtape-Ahead b past ahead stale rs t e r n f u full in
      (b, ahead ++ flatten rs, t', order, step, held)
  read_next rem past [] stale [] t e r n f u full room order more =
      absurd (omega (arith, ap length order))
  read_next rem past [] stale ([] ∷ rs) t e r n f u full room order more =
      absurd (omega (arith, full.0))
  read_next rem past [] stale ((b ∷ q) ∷ rs) t e r n f u full room order more =
      let behind : (leb t.nblock t.recno || not t.first) ≡ true = ground arith in
      let full' : All (λ r'. length r' ≡ suc (length q)) rs = (rw (full.0) full.1) in
      let (t', step, held) = read_record b q rs t behind (λ g. sym full.0) u full' in
      (b, q ++ flatten rs, t', order, step, held)
