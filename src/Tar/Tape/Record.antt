-- ===== src/Tar/Tape/Record.antt =====
-- What is written to a tape is read from it.
use tek.Base.{
  ℕ, zero, suc, ◌+◌, ◌<◌, ◌≡◌, refl, sym, ap, ◌∙◌, Bool, true, false, List, [], ◌∷◌, ◌++◌,
  append_assoc, append-nil, leb, le→leb, ltb, lt→ltb, length, length-append, set, set-append_len,
  take, All, All-append, arith,
}
use tek.Tar.Tape.{returned, Tape, write_full, put_block, writetape}

abbrev pub flatten {ℓ} : {A : Type ℓ} → List (List A) → List A
flatten [] = []
flatten (xs ∷ xss) = xs ++ flatten xss

pub flatten-append {ℓ} :
    {A : Type ℓ} (xss yss : List (List A)) → flatten (xss ++ yss) ≡ flatten xss ++ flatten yss
flatten-append [] yss = refl
flatten-append (xs ∷ xss) yss = rw (flatten-append xss yss, append_assoc xs) refl

pub take-append_len {ℓ} :
    {A : Type ℓ} (xs ys : List A) (n : ℕ) → length xs ≡ n → take n (xs ++ ys) ≡ xs
take-append_len [] ys zero h = refl
take-append_len [] ys (suc n) h = absurd (omega arith)
take-append_len (x ∷ xs) ys zero h = absurd (omega arith)
take-append_len (x ∷ xs) ys (suc n) h = ap (λ t. x ∷ t) (take-append_len xs ys n (omega arith))

module _ {ℓ} {Block : Type ℓ} where
  -- The blocks `bs` were written: those in records of `nblock` blocks, and `pending`.
  pub record Holds (bs : List Block) (t : Tape Block) : Type ℓ where
    pub pending : List Block
    pub stale : List Block
    pub buffer : t.tbuf ≡ pending ++ stale
    pub placed : length pending ≡ t.recno
    pub sized : t.recno + length stale ≡ t.nblock
    pub spare : 0 < length stale
    pub full : All (λ r. length r ≡ t.nblock) t.written
    pub order : flatten t.written ++ pending ≡ bs

  module _ (succeeds : List (List Block) → Bool)
      (ok : (ws : List (List Block)) → succeeds ws ≡ true) where
    put_last :
        (b : Block) (bs pending stale : List Block) (t : Tape Block)
        → t.tbuf ≡ pending ++ (b ∷ stale)
        → length pending + 1 ≡ t.recno
        → t.recno + length stale ≡ t.nblock
        → All (λ r. length r ≡ t.nblock) t.written
        → flatten t.written ++ (pending ++ (b ∷ [])) ≡ bs
        → (t' : Tape Block) × (write_full succeeds t ≡ returned t') × Holds bs t'
    unfolding write_full
    put_last b bs pending [] t e r n full order =
        let counted : length (pending ++ (b ∷ [])) ≡ t.nblock =
          omega (arith, length-append pending (b ∷ [])) in
        let whole : take t.nblock t.tbuf ≡ pending ++ (b ∷ []) =
          ap (take t.nblock) (e ∙ sym (append-nil (pending ++ (b ∷ []))))
          ∙ take-append_len (pending ++ (b ∷ [])) [] t.nblock counted in
        let record_out : List Block = take t.nblock t.tbuf in
        let size : length t.tbuf ≡ t.nblock = ap length e ∙ counted in
        (
          record t { written = t.written ++ (record_out ∷ []); recno = 0 },
          (rw (le→leb t.nblock t.recno (omega arith), ok t.written) refl),
          record {
            pending = [];
            stale = t.tbuf;
            buffer = refl;
            placed = refl;
            sized = omega (arith, size);
            spare = omega (arith, size);
            full =
                All-append (λ r. length r ≡ t.nblock) t.written (record_out ∷ []) full
                  (ap length whole ∙ counted, tt);
            order =
                append-nil (flatten (t.written ++ (record_out ∷ [])))
                ∙ flatten-append t.written (record_out ∷ [])
                ∙ ap (λ r. flatten t.written ++ r) (append-nil record_out ∙ whole)
                ∙ order;
          },
        )
    put_last b bs pending (x ∷ stale) t e r n full order =
        let space : leb t.nblock t.recno ≡ false = ground arith in
        (
          t,
          (rw space refl),
          record {
            pending = pending ++ (b ∷ []);
            stale = x ∷ stale;
            buffer = e ∙ sym (append_assoc pending (b ∷ []) (x ∷ stale));
            placed = length-append pending (b ∷ []) ∙ r;
            sized = n;
            spare = omega arith;
            full = full;
            order = order;
          },
        )

    put_next :
        (b : Block) (bs pending stale : List Block) (t : Tape Block)
        → t.tbuf ≡ pending ++ stale
        → length pending ≡ t.recno
        → t.recno + length stale ≡ t.nblock
        → 0 < length stale
        → All (λ r. length r ≡ t.nblock) t.written
        → flatten t.written ++ pending ≡ bs
        → (t' : Tape Block) × (writetape succeeds b t ≡ returned t') × Holds (bs ++ (b ∷ [])) t'
    unfolding writetape write_full put_block
    put_next b bs pending [] t e r n more full order = absurd (omega arith)
    put_next b bs pending (x ∷ stale) t e r n more full order =
        let space : leb t.nblock t.recno ≡ false = ground arith in
        let size : length t.tbuf ≡ length pending + suc (length stale) =
          ap length e ∙ length-append pending (x ∷ stale) in
        let fits : ltb t.recno (length t.tbuf) ≡ true =
          lt→ltb t.recno (length t.tbuf) (omega (arith, size)) in
        let t2 : Tape Block = record t {
          first = true;
          tbuf = set t.tbuf t.recno b;
          recno = t.recno + 1;
        } in
        let stored : set t.tbuf t.recno b ≡ pending ++ (b ∷ stale) =
          ap (λ xs. set xs t.recno b) e ∙ set-append_len pending stale x b t.recno (sym r) in
        let (t', done, held) =
          put_last b (bs ++ (b ∷ [])) pending stale t2 stored (omega arith) (omega arith) full (
            sym (append_assoc (flatten t.written) pending (b ∷ []))
            ∙ ap (λ xs. xs ++ (b ∷ [])) order) in
        (t', (rw (space, fits) done), held)

    -- One block more.
    pub writetape-Holds :
        (b : Block) (bs : List Block) (t : Tape Block)
        → Holds bs t
        → (t' : Tape Block) × (writetape succeeds b t ≡ returned t') × Holds (bs ++ (b ∷ [])) t'
    writetape-Holds b bs t h =
        put_next b bs h.pending h.stale t h.buffer h.placed h.sized h.spare h.full h.order
