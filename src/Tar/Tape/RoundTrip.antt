-- ===== src/Tar/Tape/RoundTrip.antt =====
-- Blocks written to a tape by writetape and flushtape are read back by readtape.
use tek.Base.{
  ℕ, zero, suc, ◌≤◌, ◌<◌, ◌≡◌, refl, sym, ap, ◌∙◌, Bool, true, false, ◌||◌, not, List, [], ◌∷◌,
  ◌++◌, append_assoc, append-nil, leb, length, length-append, take, All, All-append, arith,
}
use tek.Tar.Tape.{Outcome, returned, ◌>>=◌, Read, Tape, writetape, flushtape}
use tek.Tar.Tape.Record.{flatten, flatten-append, take-append_len, Holds, writetape-Holds}
use tek.Tar.Tape.Reading.{reads, read_blocks, Ahead, read_record, read_next}

module _ {ℓ} {Block : Type ℓ} where
  -- All blocks of a list in turn.
  unfoldable pub write_all :
      (List (List Block) → Bool) → List Block → Tape Block → Outcome (Tape Block)
  write_all succeeds [] t = returned t
  write_all succeeds (b ∷ bs) t = do t' ← writetape succeeds b t; write_all succeeds bs t'

  write_all-Holds :
      (succeeds : List (List Block) → Bool) (ok : (ws : List (List Block)) → succeeds ws ≡ true)
      (bs before : List Block) (t : Tape Block)
      → Holds before t
      → (t' : Tape Block) × (write_all succeeds bs t ≡ returned t') × Holds (before ++ bs) t'
  unfolding write_all
  write_all-Holds succeeds ok [] before t h = rw (append-nil before) (t, refl, h)
  write_all-Holds succeeds ok (b ∷ bs) before t h =
      let (t1, first, h1) = writetape-Holds succeeds ok b before t h in
      let (t2, rest, h2) = write_all-Holds succeeds ok bs (before ++ (b ∷ [])) t1 h1 in
      let h3 = (rw (append_assoc before (b ∷ []) bs) at h2) in (t2, (rw (first, rest) refl), h3)

  -- As many blocks as there are, of those that are to be read.
  read_blocks-Ahead :
      (n : ℕ) (rem : List Block) (t : Tape Block)
      → Ahead rem t
      → n ≤ length rem
      → (t' : Tape Block) × (read_blocks n t ≡ returned (take n rem, t'))
  unfolding read_blocks
  read_blocks-Ahead zero rem t h enough = (t, refl)
  read_blocks-Ahead (suc n) rem t h enough =
      let (b, rem1, t1, split, step, h1) =
        read_next rem h.past h.ahead h.stale h.records t h.buffer h.placed h.sized h.begun h.unread
          h.full h.room h.order (omega arith) in
      let (t2, rest) = read_blocks-Ahead n rem1 t1 h1 (omega (arith, ap length split)) in
      (t2, (rw (step, rest) (ap (λ xs. returned (take (suc n) xs, t2)) (sym split))))

  -- The same from the start of a tape, where no record was read.
  read_blocks-start :
      (n k : ℕ) (rs : List (List Block)) (t : Tape Block)
      → t.first ≡ false
      → t.unread ≡ reads rs
      → 0 < k
      → All (λ r. length r ≡ k) rs
      → n ≤ length (flatten rs)
      → (t' : Tape Block) × (read_blocks n t ≡ returned (take n (flatten rs), t'))
  unfolding read_blocks
  read_blocks-start zero k rs t f u more full enough = (t, refl)
  read_blocks-start (suc n) k [] t f u more full enough = absurd (omega arith)
  read_blocks-start (suc n) k ([] ∷ rs) t f u more full enough = absurd (omega (arith, full.0))
  read_blocks-start (suc n) k ((b ∷ r) ∷ rs) t f u more full enough =
      let refilled : (leb t.nblock t.recno || not t.first) ≡ true = ground arith in
      let same : t.first ≡ true → t.nblock ≡ suc (length r) = λ g. ground arith in
      let full' : All (λ r'. length r' ≡ suc (length r)) rs = (rw (full.0) full.1) in
      let (t1, step, h1) = read_record b r rs t refilled same u full' in
      let (t2, rest) = read_blocks-Ahead n (r ++ flatten rs) t1 h1 (omega arith) in
      (t2, (rw (step, rest) refl))

  -- A tape device before anything was written or read.
  abbrev pub fresh : ℕ → List Block → List (Read Block) → Tape Block
  fresh n tbuf unread = record {
    tbuf = tbuf;
    recno = 0;
    first = false;
    nblock = n;
    written = [];
    unread = unread;
  }

  -- The records on the tape behind the last flush: `bs`, and what fills the last record.
  flushtape-records :
      (succeeds : List (List Block) → Bool) (bs : List Block) (t : Tape Block)
      → succeeds t.written ≡ true
      → Holds bs t
      → (rest : List Block) × (0 < t.nblock)
        × (flatten (flushtape succeeds t).written ≡ bs ++ rest)
        × All (λ r. length r ≡ t.nblock) (flushtape succeeds t).written
  unfolding flushtape
  flushtape-records succeeds bs t ok h =
      let out : List Block = take t.nblock t.tbuf in
      let filled : length t.tbuf ≡ t.nblock =
        omega (arith, ap length h.buffer, length-append h.pending h.stale, h.placed, h.sized) in
      let whole : out ≡ t.tbuf =
        ap (take t.nblock) (sym (append-nil t.tbuf)) ∙ take-append_len t.tbuf [] t.nblock filled in
      (
        h.stale,
        omega (arith, h.spare, h.sized),
        (rw (ok, flatten-append t.written (out ∷ []), append-nil out, whole, h.buffer)
            (sym (append_assoc (flatten t.written) h.pending h.stale)
              ∙ ap (λ xs. xs ++ h.stale) h.order)),
        (rw ok (
            All-append (λ r. length r ≡ t.nblock) t.written (out ∷ []) h.full
              (ap length whole ∙ filled, tt))),
      )

  reads-whole :
      (bs rest tbuf : List Block) (rs : List (List Block)) (k m : ℕ)
      → 0 < k
      → flatten rs ≡ bs ++ rest
      → All (λ r. length r ≡ k) rs
      → (t' : Tape Block) × (read_blocks (length bs) (fresh m tbuf (reads rs)) ≡ returned (bs, t'))
  reads-whole bs rest tbuf rs k m more whole full =
      let (t', back) =
        read_blocks-start (length bs) k rs (fresh m tbuf (reads rs)) refl refl more full
          (omega (arith, ap length whole, length-append bs rest)) in
      let these : take (length bs) (flatten rs) ≡ bs =
        ap (take (length bs)) whole ∙ take-append_len bs rest (length bs) refl in
      (t', back ∙ ap (λ xs. returned (xs, t')) these)

  -- Blocks are written with a blocking factor of `n`, all writes succeed, and the last record is
  -- flushed. A reader started with a blocking factor no smaller, which is given the records one by
  -- one, gets the same blocks in their order.
  pub read_blocks-write_all :
      (succeeds : List (List Block) → Bool) (bs tbuf tbuf' : List Block) (n m : ℕ)
      → ((ws : List (List Block)) → succeeds ws ≡ true)
      → 0 < n
      → length tbuf ≡ n
      → n ≤ m
      → (t t' : Tape Block) × (write_all succeeds bs (fresh n tbuf []) ≡ returned t)
        × (read_blocks (length bs) (fresh m tbuf' (reads (flushtape succeeds t).written))
            ≡ returned (bs, t'))
  read_blocks-write_all succeeds bs tbuf tbuf' n m ok more size wide =
      let (t, done, h) = write_all-Holds succeeds ok bs [] (fresh n tbuf []) (record {
        pending = [];
        stale = tbuf;
        buffer = refl;
        placed = refl;
        sized = omega (arith, size);
        spare = omega arith;
        full = tt;
        order = refl;
      }) in
      let (rest, room, whole, full) = flushtape-records succeeds bs t (ok t.written) h in
      let (t', back) =
        reads-whole bs rest tbuf' (flushtape succeeds t).written t.nblock m room whole full in
      (t, t', done, back)
