-- ===== src/Defrag/Space/Free.antt =====
-- The run that findcontiguous answers is free, and where it answers none there is none.
use tek.Base.{
  ℕ, zero, suc, ◌+◌, ◌-◌, ◌*◌, ◌/◌, ◌%◌, ◌^◌, ◌>>=◌, ◌≤◌, ◌<◌, ◌≡◌, ◌≢◌, refl, sym, ap, ◌∙◌, Bool,
  true, false, not, Option, none, some, List, ltb, ltb→lt, leb, le→leb, if◌then◌else◌, length,
  get_elem?, get_elem?-lt, >>=-eq-some, guarded, Bool-cases, inl, inr, arith,
}
use tek.Base.Exhaust.{all_below, all_below-holds}
use tek.Defrag.Bitmap.{Geometry}
use tek.Defrag.Bitmap.Bits.{has_bit, bit_at, Bytes, InMap, Bytes-get_elem?, not-eq-true}
use tek.Defrag.Space.{search_from, free_below, packed, findcontiguous}
use tek.Defrag.Space.Search.{ZeroRun, ZeroRun-byte, search_from-some, search_from-none}

-- The low bits that free_below counts are clear, in each byte.
free_row : ℕ → ℕ → Bool
free_row b k = if leb 8 (k + free_below 8 b) then not (has_bit b k) else true

free_table : all_below 256 (λ b. all_below 8 (free_row b)) ≡ true
unfolding free_row free_below
free_table = refl

free_below-clear : (b k : ℕ) → b < 256 → k < 8 → 8 ≤ k + free_below 8 b → has_bit b k ≡ false
unfolding free_row
free_below-clear b k hb hk h =
    let row : free_row b k ≡ true =
      all_below-holds 8 (free_row b) k hk
        (all_below-holds 256 (λ c. all_below 8 (free_row c)) b hb free_table) in
    let test : leb 8 (k + free_below 8 b) ≡ true = le→leb 8 (k + free_below 8 b) h in
    let clear : not (has_bit b k) ≡ true = (rw test at row) in not-eq-true (has_bit b k) clear

free_below-le : (bits i : ℕ) → free_below bits i ≤ bits
unfolding free_below
free_below-le zero i = omega arith
free_below-le (suc bits) i = ground (arith, free_below-le bits (i / 2))

zero_byte_clear : (k : ℕ) → k < 8 → has_bit 0 k ≡ false
zero_byte_clear k h =
    let row = all_below-holds 8 (λ j. not (has_bit 0 j)) k h refl in not-eq-true (has_bit 0 k) row

guarded-some : {b : Bool} {A : Type 0} {x y : A} → guarded b x ≡ some y → (b ≡ true) × (x ≡ y)
guarded-some {b = true} h = (refl, cc)
guarded-some {b = false} h = absurd (cc)

packed_free :
    (g : Geometry) (m : List ℕ) (n8 a i : ℕ)
    → Bytes m
    → (run : Option ℕ) → ((q : ℕ) → run ≡ some q → ZeroRun m q n8)
    → packed g m run ≡ some a
    → a ≢ 0
    → i < n8 * 8
    → bit_at m (a - g.minvld + i) ≡ false
unfolding packed bit_at
packed_free g m n8 a i bytes none zeros h found inside =
    absurd (let z : some 0 ≡ some a = h in found cc)
packed_free g m n8 a i bytes (some q) zeros h found inside =
    let (before, e, rest) = >>=-eq-some (guarded (ltb 0 q) (q - 1)) _ h in
    let (positive, pred) = guarded-some e in
    let (b, e', made) = >>=-eq-some (get_elem? m before) _ rest in
    let t : ℕ = free_below 8 b in
    let le : t ≤ 8 = free_below-le 8 b in
    let pos : 0 < q = ltb→lt 0 q positive in
    let address : g.minvld + q * 8 - t ≡ a = cc in
    let off : ℕ = a - g.minvld + i in
    elim (Bool-cases (ltb off (q * 8))) [
      | inl packed_in ↦
          (let lt : off < q * 8 = ltb→lt off (q * 8) packed_in in
            let byte : off / 8 ≡ before = omega arith in
            let e2 : get_elem? m (off / 8) ≡ some b = ap (get_elem? m) byte ∙ e' in
            rw e2 (
              free_below-clear b (off % 8) (Bytes-get_elem? m before b bytes e') (omega arith)
                (omega arith)))
      | inr in_run ↦
          (let ge : q * 8 ≤ off = ground arith in
            let byte : q + (off / 8 - q) ≡ off / 8 = omega arith in
            let e2 : get_elem? m (off / 8) ≡ some 0 =
              ap (get_elem? m) (sym byte)
              ∙ ZeroRun-byte m q n8 (off / 8 - q) (zeros q refl) (omega arith) in
            rw e2 (zero_byte_clear (off % 8) (omega arith)))
    ]

-- The blocks of the run are in the map.
packed_inside :
    (g : Geometry) (m : List ℕ) (n8 a i : ℕ)
    → (run : Option ℕ) → ((q : ℕ) → run ≡ some q → ZeroRun m q n8)
    → packed g m run ≡ some a
    → a ≢ 0
    → i < n8 * 8
    → InMap g (a + i) m
unfolding packed
packed_inside g m n8 a i none zeros h found inside =
    absurd (let z : some 0 ≡ some a = h in found cc)
packed_inside g m n8 a i (some q) zeros h found inside =
    let (before, e, rest) = >>=-eq-some (guarded (ltb 0 q) (q - 1)) _ h in
    let (positive, pred) = guarded-some e in
    let (b, e', made) = >>=-eq-some (get_elem? m before) _ rest in
    let le : free_below 8 b ≤ 8 = free_below-le 8 b in
    let pos : 0 < q = ltb→lt 0 q positive in
    let address : g.minvld + q * 8 - free_below 8 b ≡ a = cc in
    let last : n8 - 1 < n8 = omega arith in
    let end_byte =
      get_elem?-lt m (q + (n8 - 1)) 0 (ZeroRun-byte m q n8 (n8 - 1) (zeros q refl) last) in
    (omega arith, omega arith)

packed_zero :
    (g : Geometry) (m : List ℕ)
    → 8 < g.minvld
    → (run : Option ℕ) → packed g m run ≡ some 0
    → run ≡ none
unfolding packed
packed_zero g m low none h = refl
packed_zero g m low (some q) h =
    let (before, e, rest) = >>=-eq-some (guarded (ltb 0 q) (q - 1)) _ h in
    let (b, e', made) = >>=-eq-some (get_elem? m before) _ rest in
    let le : free_below 8 b ≤ 8 = free_below-le 8 b in
    let address : g.minvld + q * 8 - free_below 8 b ≡ 0 = cc in absurd (omega arith)

-- Where the count of bytes fits, the search has answered.
searched :
    (m : List ℕ) (n8 : ℕ) {A : Type 0} {a : A} (k : Option ℕ → Option A)
    → ((do n ← guarded (ltb n8 (2 ^ 15)) n8; found ← search_from m n (length m) 0; k found)
        ≡ some a)
    → (run : Option ℕ) × (search_from m n8 (length m) 0 ≡ some run) × (k run ≡ some a)
searched m n8 k h =
    let (n, e, rest) = >>=-eq-some (guarded (ltb n8 (2 ^ 15)) n8) _ h in
    let same : n8 ≡ n = (guarded-some e).1 in
    let (run, found, made) = >>=-eq-some (search_from m n (length m) 0) _ rest in
    (run, ap (λ t. search_from m t (length m) 0) same ∙ found, made)

-- An address that findcontiguous answers is the first of a run of `blockcount` blocks that are all
-- free in the map.
pub findcontiguous-free :
    (g : Geometry) (mapbuf : List ℕ) (blockcount a i : ℕ)
    → Bytes mapbuf
    → findcontiguous g mapbuf blockcount ≡ some a
    → a ≢ 0
    → i < blockcount
    → bit_at mapbuf (a - g.minvld + i) ≡ false
unfolding findcontiguous
findcontiguous-free g mapbuf blockcount a i bytes h found before =
    let n8 : ℕ = (blockcount + 7) / 8 in
    let (run, e, rest) = searched mapbuf n8 _ h in
    packed_free g mapbuf n8 a i bytes run
      (λ q e'. search_from-some mapbuf n8 (length mapbuf) 0 q (e ∙ ap some e')) rest found
      (omega arith)

pub findcontiguous-InMap :
    (g : Geometry) (mapbuf : List ℕ) (blockcount a i : ℕ)
    → findcontiguous g mapbuf blockcount ≡ some a
    → a ≢ 0
    → i < blockcount
    → InMap g (a + i) mapbuf
unfolding findcontiguous
findcontiguous-InMap g mapbuf blockcount a i h found before =
    let n8 : ℕ = (blockcount + 7) / 8 in
    let (run, e, rest) = searched mapbuf n8 _ h in
    packed_inside g mapbuf n8 a i run
      (λ q e'. search_from-some mapbuf n8 (length mapbuf) 0 q (e ∙ ap some e')) rest found
      (omega arith)

-- Where findcontiguous answers 0, no run of whole bytes in the map that holds `blockcount` blocks is
-- free.
pub findcontiguous-none :
    (g : Geometry) (mapbuf : List ℕ) (blockcount p : ℕ)
    → 8 < g.minvld
    → 0 < blockcount
    → findcontiguous g mapbuf blockcount ≡ some 0
    → p + (blockcount + 7) / 8 ≤ length mapbuf
    → ¬ ZeroRun mapbuf p ((blockcount + 7) / 8)
unfolding findcontiguous
findcontiguous-none g mapbuf blockcount p low some_block h room =
    let n8 : ℕ = (blockcount + 7) / 8 in
    let (run, e, rest) = searched mapbuf n8 _ h in
    let nothing : run ≡ none = packed_zero g mapbuf low run rest in
    search_from-none mapbuf n8 (length mapbuf) 0 p (e ∙ ap some nothing) (omega arith) (omega arith)
      room (omega arith)
