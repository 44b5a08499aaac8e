-- ===== src/Defrag/Bitmap/Bits.antt =====
-- setbit, clrbit and countbits by the bits of the map.
use Prim.Native.Nat.{bit_and, bit_or}
use tek.Base.{
  ℕ, zero, suc, ◌+◌, ◌-◌, ◌/◌, ◌%◌, ◌^◌, ◌≤◌, ◌<◌, ◌≡◌, refl, sym, Bool, true, false, not, ◌&&◌,
  &&-left, &&-right, ltb→lt, Option, none, some, List, [], ◌∷◌, ltb, le→leb, ◌==◌, ==_iff,
  if◌then◌else◌, length, length-set, get_elem?, get_elem?-some, set, All, arith, Bool-cases, inl,
  inr,
}
use mathlib.Core.Path.{subst}
use tek.Base.Exhaust.{all_below, all_below-holds}
use tek.Defrag.Bitmap.{Geometry, locate, setbit}

-- Whether the bit of an offset is set in a byte, and in a map; it is not behind the map.
abbrev pub has_bit : ℕ → ℕ → Bool
has_bit byte k = not (bit_and byte (128 / 2 ^ k) == 0)

abbrev has_bit? : Option ℕ → ℕ → Bool
has_bit? none k = false
has_bit? (some byte) k = has_bit byte k

unfoldable pub bit_at : List ℕ → ℕ → Bool
bit_at mapbuf off = has_bit? (get_elem? mapbuf (off / 8)) (off % 8)

-- The bits set in a byte and in a map.
unfoldable pub weight : ℕ → ℕ
weight b =
    b / 128 % 2 + b / 64 % 2 + b / 32 % 2 + b / 16 % 2 + b / 8 % 2 + b / 4 % 2 + b / 2 % 2 + b % 2

abbrev pub used_bits : List ℕ → ℕ
used_bits [] = 0
used_bits (b ∷ bs) = weight b + used_bits bs

abbrev pub IsByte : ℕ → Type 0
IsByte b = b < 256

-- A test of each byte and bit.
byte_table :
    (p : ℕ → ℕ → Bool) (b k : ℕ)
    → b < 256
    → k < 8
    → all_below 256 (λ c. all_below 8 (p c)) ≡ true
    → p b k ≡ true
byte_table p b k hb hk all =
    all_below-holds 8 (p b) k hk (all_below-holds 256 (λ c. all_below 8 (p c)) b hb all)

abbrev bool_eq : Bool → Bool → Bool
bool_eq true b = b
bool_eq false b = not b

bool_eq-eq : (a b : Bool) → bool_eq a b ≡ true → a ≡ b
bool_eq-eq true b h = sym h
bool_eq-eq false true h = cc
bool_eq-eq false false h = refl

three : (a b c : Bool) → (a && b && c) ≡ true → (a ≡ true) × (b ≡ true) × (c ≡ true)
three a b c h = ground arith

-- What a set and a cleared bit do to a byte.
set_row : ℕ → ℕ → Bool
set_row b k =
    if has_bit b k
    then true
    else (weight (bit_or b (128 / 2 ^ k)) == weight b + 1)
      && ltb (bit_or b (128 / 2 ^ k)) 256
      && (bit_and (bit_or b (128 / 2 ^ k)) (255 - 128 / 2 ^ k) == b)

clear_row : ℕ → ℕ → Bool
clear_row b k =
    if has_bit b k
    then (weight (bit_and b (255 - 128 / 2 ^ k)) + 1 == weight b)
      && ltb (bit_and b (255 - 128 / 2 ^ k)) 256
    else true

other_cell : ℕ → ℕ → ℕ → Bool
other_cell b k j =
    bool_eq (has_bit (bit_or b (128 / 2 ^ k)) j) (if j == k then true else has_bit b j)
    && bool_eq (has_bit (bit_and b (255 - 128 / 2 ^ k)) j) (if j == k then false else has_bit b j)

other_row : ℕ → ℕ → Bool
unfolding other_cell
other_row b k = all_below 8 (other_cell b k)

pub set_lem :
    (b k : ℕ)
    → b < 256
    → k < 8
    → has_bit b k ≡ false
    → (weight (bit_or b (128 / 2 ^ k)) ≡ weight b + 1)
      × (bit_or b (128 / 2 ^ k) < 256)
      × (bit_and (bit_or b (128 / 2 ^ k)) (255 - 128 / 2 ^ k) ≡ b)
unfolding set_row weight
set_lem b k hb hk e =
    let row : set_row b k ≡ true = byte_table set_row b k hb hk refl in
    let (same, fits, back) =
      three (weight (bit_or b (128 / 2 ^ k)) == weight b + 1) (ltb (bit_or b (128 / 2 ^ k)) 256)
        (bit_and (bit_or b (128 / 2 ^ k)) (255 - 128 / 2 ^ k) == b) (rw e at row) in
    ((==_iff _ _).0 same, ltb→lt _ _ fits, (==_iff _ _).0 back)

pub clear_lem :
    (b k : ℕ)
    → b < 256
    → k < 8
    → has_bit b k ≡ true
    → (weight (bit_and b (255 - 128 / 2 ^ k)) + 1 ≡ weight b)
      × (bit_and b (255 - 128 / 2 ^ k) < 256)
unfolding clear_row weight
clear_lem b k hb hk e =
    let row : clear_row b k ≡ true = byte_table clear_row b k hb hk refl in
    let both : ((weight (bit_and b (255 - 128 / 2 ^ k)) + 1 == weight b)
          && ltb (bit_and b (255 - 128 / 2 ^ k)) 256)
        ≡ true =
      (rw e at row) in
    ((==_iff _ _).0 (&&-left _ _ both), ltb→lt _ _ (&&-right _ _ both))

pub other_lem :
    (b k j : ℕ)
    → b < 256
    → k < 8
    → j < 8
    → (has_bit (bit_or b (128 / 2 ^ k)) j ≡ (if j == k then true else has_bit b j))
      × (has_bit (bit_and b (255 - 128 / 2 ^ k)) j ≡ (if j == k then false else has_bit b j))
unfolding other_row
other_lem b k j hb hk hj =
    let row : other_row b k ≡ true = byte_table other_row b k hb hk refl in
    let both : other_cell b k j ≡ true = all_below-holds 8 (other_cell b k) j hj row in
    (
      bool_eq-eq (has_bit (bit_or b (128 / 2 ^ k)) j) (if j == k then true else has_bit b j) (
          &&-left _
            (bool_eq (has_bit (bit_and b (255 - 128 / 2 ^ k)) j)
              (if j == k then false else has_bit b j))
            both),
      bool_eq-eq (has_bit (bit_and b (255 - 128 / 2 ^ k)) j) (if j == k then false else has_bit b j)
          (&&-right
            (bool_eq (has_bit (bit_or b (128 / 2 ^ k)) j) (if j == k then true else has_bit b j)) _
            both),
    )

abbrev pub Bytes : List ℕ → Type 0
Bytes = All IsByte

pub Bytes-get_elem? : (xs : List ℕ) (i b : ℕ) → Bytes xs → get_elem? xs i ≡ some b → b < 256
Bytes-get_elem? [] i b h e = cc
Bytes-get_elem? (y ∷ xs) zero b h e = let same : y ≡ b = cc in subst IsByte same h.0
Bytes-get_elem? (y ∷ xs) (suc i) b h e = Bytes-get_elem? xs i b h.1 e

pub Bytes-set : (xs : List ℕ) (i v : ℕ) → Bytes xs → v < 256 → Bytes (set xs i v)
Bytes-set [] i v h p = tt
Bytes-set (y ∷ xs) zero v h p = (p, h.1)
Bytes-set (y ∷ xs) (suc i) v h p = (h.0, Bytes-set xs i v h.1 p)

pub used_bits-set :
    (xs : List ℕ) (i b v : ℕ)
    → get_elem? xs i ≡ some b
    → used_bits (set xs i v) + weight b ≡ used_bits xs + weight v
used_bits-set [] i b v e = cc
used_bits-set (y ∷ xs) zero b v e = let same : y ≡ b = cc in rw same (omega arith)
used_bits-set (y ∷ xs) (suc i) b v e = omega (arith, used_bits-set xs i b v e)

pub not-eq-true : (b : Bool) → not b ≡ true → b ≡ false
not-eq-true true h = cc
not-eq-true false h = refl

pub not-eq-false : (b : Bool) → not b ≡ false → b ≡ true
not-eq-false true h = refl
not-eq-false false h = cc

-- A block of the map: its bit is inside.
abbrev pub InMap : Geometry → ℕ → List ℕ → Type 0
InMap g blkadr mapbuf = (g.minvld ≤ blkadr) × ((blkadr - g.minvld) / 8 < length mapbuf)

pub locate-some :
    (g : Geometry) (blkadr : ℕ) (m : List ℕ)
    → Bytes m
    → InMap g blkadr m
    → (b : ℕ) × (b < 256)
      × (get_elem? m ((blkadr - g.minvld) / 8) ≡ some b)
      × (locate g blkadr m ≡ some (blkadr - g.minvld, b))
unfolding locate
locate-some g blkadr m ok (low, high) =
    let (b, e) = get_elem?-some m ((blkadr - g.minvld) / 8) high in
    (
      b,
      Bytes-get_elem? m ((blkadr - g.minvld) / 8) b ok e,
      e,
      rw (le→leb g.minvld blkadr low, e) refl,
    )

-- Setting the bit of a block of the map never leaves the map, answers whether the bit was set, and
-- has one bit more set in the map if it was not.
pub setbit-some :
    (g : Geometry) (blkadr : ℕ) (m : List ℕ)
    → Bytes m
    → InMap g blkadr m
    → (m' : List ℕ) × (setbit g blkadr m ≡ some (bit_at m (blkadr - g.minvld), m'))
      × Bytes m'
      × (length m' ≡ length m)
      × (used_bits m' + (if bit_at m (blkadr - g.minvld) then 1 else 0) ≡ used_bits m + 1)
unfolding setbit bit_at
setbit-some g blkadr m ok inside =
    let off : ℕ = blkadr - g.minvld in
    let (b, hb, e, found) = locate-some g blkadr m ok inside in
    elim (Bool-cases (has_bit b (off % 8))) [
      | inl hit ↦
          (m, (rw (found, e, not-eq-true _ hit) refl), ok, refl, (rw (e, not-eq-true _ hit) refl))
      | inr free ↦
          (let (one_more, byte, back) = set_lem b (off % 8) hb (omega arith) free in
            let v : ℕ = bit_or b (128 / 2 ^ (off % 8)) in
            let zero_bit = not-eq-false (bit_and b (128 / 2 ^ (off % 8)) == 0) free in
            (
              set m (off / 8) v,
              (rw (found, e, zero_bit) refl),
              Bytes-set m (off / 8) v ok byte,
              length-set m (off / 8) v,
              rw (e, zero_bit) (omega (arith, used_bits-set m (off / 8) b v e, one_more)),
            ))
    ]
