-- ===== src/Defrag/Move/Effect.antt =====
-- What a move does to the map.
use tek.Base.{
  ℕ, zero, suc, ◌+◌, ◌-◌, ◌/◌, ◌≤◌, ◌<◌, ◌≡◌, ◌≢◌, refl, sym, ap, ◌∙◌, Bool, true, false, ◌&&◌,
  ◌||◌, some, List, [], ◌∷◌, All, ltb, leb, ◌==◌, if◌then◌else◌, length, get_elem?, arith,
}
use tek.Defrag.Bitmap.{Geometry, setbit}
use tek.Defrag.Bitmap.Bits.{Bytes, bit_at, setbit-some}
use tek.Defrag.Bitmap.Cells.{bit_at-setbit, clrbit-some}
use tek.Defrag.Space.{findcontiguous}
use tek.Defrag.Space.Free.{findcontiguous-free, findcontiguous-InMap}
use tek.Defrag.Move.{release, allocate, copies, move_candidate}

-- A block whose bit is in a map of `size` bytes.
abbrev pub Fits : Geometry → ℕ → ℕ → Type 0
Fits g size b = (g.minvld ≤ b) × ((b - g.minvld) / 8 < size)

-- Whether a bit is that of a block of a list, and of one of `n` blocks from `a` on.
abbrev pub is_of : Geometry → List ℕ → ℕ → Bool
is_of g [] j = false
is_of g (b ∷ bs) j = (j == b - g.minvld) || is_of g bs j

abbrev pub in_run : Geometry → ℕ → ℕ → ℕ → Bool
in_run g a n j = leb (a - g.minvld) j && ltb j (a - g.minvld + n)

if_or : (a b w x : Bool) → (if b then w else if a then w else x) ≡ (if a || b then w else x)
if_or true true w x = refl
if_or true false w x = refl
if_or false b w x = refl

still_clear : {x : Bool} (b : Bool) → x ≡ false → (if b then false else x) ≡ false
still_clear true h = refl
still_clear false h = h

in_run_next :
    (g : Geometry) (a n j : ℕ)
    → g.minvld ≤ a
    → in_run g a (suc n) j ≡ ((j == a - g.minvld) || in_run g (a + 1) n j)
in_run_next g a n j low = ground arith

release-some :
    (g : Geometry) (size : ℕ) (bs m : List ℕ)
    → Bytes m
    → length m ≡ size
    → All (Fits g size) bs
    → (m' : List ℕ) × (release g bs m ≡ some m')
      × Bytes m'
      × (length m' ≡ size)
      × ((j : ℕ) → bit_at m' j ≡ (if is_of g bs j then false else bit_at m j))
unfolding release
release-some g size [] m bytes sized fits = (m, refl, bytes, sized, (λ j. refl))
release-some g size (b ∷ bs) m bytes sized fits =
    let (hit, m1, step, bytes1, sized1, bits1) =
      clrbit-some g b m bytes (fits.0.0, omega (arith, fits.0.1, sized)) in
    let (m2, rest, bytes2, sized2, bits2) =
      release-some g size bs m1 bytes1 (sized1 ∙ sized) fits.1 in
    (
      m2,
      (rw (step, rest) refl),
      bytes2,
      sized2,
      (λ j.
          bits2 j
          ∙ ap (λ t. if is_of g bs j then false else t) (bits1 j)
          ∙ if_or (j == b - g.minvld) (is_of g bs j) false (bit_at m j)),
    )

next_bits :
    (g : Geometry) (a n j : ℕ) (x x1 x2 : Bool)
    → g.minvld ≤ a
    → x1 ≡ (if j == a - g.minvld then true else x)
    → x2 ≡ (if in_run g (a + 1) n j then true else x1)
    → x2 ≡ (if in_run g a (suc n) j then true else x)
next_bits g a n j x x1 x2 low e1 e2 =
    e2
    ∙ ap (λ t. if in_run g (a + 1) n j then true else t) e1
    ∙ if_or (j == a - g.minvld) (in_run g (a + 1) n j) true x
    ∙ ap (λ t. if t then true else x) (sym (in_run_next g a n j low))

next_clear :
    (g : Geometry) (a k : ℕ) (m m1 : List ℕ)
    → g.minvld ≤ a
    → ((j : ℕ) → bit_at m1 j ≡ (if j == a - g.minvld then true else bit_at m j))
    → bit_at m (a - g.minvld + suc k) ≡ false
    → bit_at m1 (a + 1 - g.minvld + k) ≡ false
next_clear g a k m m1 low bits free =
    let later : (a + 1 - g.minvld + k == a - g.minvld) ≡ false = ground (arith, low) in
    let place : a + 1 - g.minvld + k ≡ a - g.minvld + suc k = omega (arith, low) in
    bits (a + 1 - g.minvld + k) ∙ (rw later (ap (bit_at m) place ∙ free))

allocate-some :
    (g : Geometry) (n a : ℕ) (m : List ℕ)
    → Bytes m
    → ((k : ℕ) → k < n → Fits g (length m) (a + k))
    → ((k : ℕ) → k < n → bit_at m (a - g.minvld + k) ≡ false)
    → (m' : List ℕ) × (allocate g a n m ≡ some (false, m'))
      × ((j : ℕ) → bit_at m' j ≡ (if in_run g a n j then true else bit_at m j))
unfolding allocate
allocate-some g zero a m bytes fits free =
    (m, refl, (λ j. let out : in_run g a 0 j ≡ false = ground arith in rw out refl))
allocate-some g (suc n) a m bytes fits free =
    let here : Fits g (length m) a =
      (let (low, high) = fits 0 (omega arith) in (omega arith, omega (arith, high))) in
    let clear : bit_at m (a - g.minvld) ≡ false =
      ap (bit_at m) (omega arith) ∙ free 0 (omega arith) in
    let (m1, step, bytes1, sized1, count) = setbit-some g a m bytes here in
    let step' : setbit g a m ≡ some (false, m1) = step ∙ ap (λ t. some (t, m1)) clear in
    let bits1 : (j : ℕ) → bit_at m1 j ≡ (if j == a - g.minvld then true else bit_at m j) =
      λ j. bit_at-setbit g a m m1 false j bytes here step' in
    let (m2, rest, bits2) =
      allocate-some g n (a + 1) m1 bytes1
        (λ k lt.
          let (low, high) = fits (suc k) (omega arith) in
          (omega arith, omega (arith, high, sized1)))
        (λ k lt. next_clear g a k m m1 here.0 bits1 (free (suc k) (omega arith))) in
    (
      m2,
      (rw (step', rest) refl),
      (λ j. next_bits g a n j (bit_at m j) (bit_at m1 j) (bit_at m2 j) here.0 (bits1 j) (bits2 j)),
    )

-- A file whose blocks have bits in the map is moved to the run that findcontiguous answers: the run
-- never has a block that is in use, and behind the move the bits of the run are set, those of the
-- blocks the file had are clear, but for blocks of the run, and all others are as they were.
pub bit_at-move_candidate :
    (g : Geometry) (i : ℕ) (blocks m : List ℕ) (a j : ℕ)
    → Bytes m
    → All (Fits g (length m)) blocks
    → findcontiguous g m (length blocks) ≡ some a
    → a ≢ 0
    → (m' : List ℕ) × (move_candidate g i blocks m
        ≡ some (
          some (record { wrong = false; copied = copies (get_elem? blocks i) a (length blocks) }),
          m',
        ))
      × (bit_at m' j ≡ (
          if in_run g a (length blocks) j
          then true
          else if is_of g blocks j
          then false
          else bit_at m j))
unfolding move_candidate
bit_at-move_candidate g i blocks m a j bytes fits found nonzero =
    let n : ℕ = length blocks in
    let (m1, released, bytes1, sized1, bits1) =
      release-some g (length m) blocks m bytes refl fits in
    let inside : (k : ℕ) → k < n → Fits g (length m1) (a + k) = λ k lt.
      let (low, high) = findcontiguous-InMap g m n a k found nonzero lt in
      (low, omega (arith, high, sized1)) in
    let free : (k : ℕ) → k < n → bit_at m1 (a - g.minvld + k) ≡ false = λ k lt.
      bits1 (a - g.minvld + k)
      ∙ still_clear (is_of g blocks (a - g.minvld + k))
          (findcontiguous-free g m n a k bytes found nonzero lt) in
    let (m2, allocated, bits2) = allocate-some g n a m1 bytes1 inside free in
    let test : (a == 0) ≡ false = ground arith in
    (
      m2,
      (rw (found, test, released, allocated) refl),
      bits2 j ∙ ap (λ t. if in_run g a n j then true else t) (bits1 j),
    )
