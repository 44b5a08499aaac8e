-- ===== src/Defrag/Bitmap/Cells.antt =====
-- What setbit and clrbit do to each bit of the map, and that clrbit undoes setbit.
use Prim.Native.Nat.{bit_and, bit_or}
use tek.Base.{
  ℕ, zero, suc, ◌-◌, ◌/◌, ◌%◌, ◌^◌, ◌<◌, ◌≡◌, ◌≢◌, refl, sym, ap, ◌∙◌, Bool, true, false, some,
  List, [], ◌∷◌, ◌==◌, ==_iff, if◌then◌else◌, length, length-set, get_elem?, get_elem?-set_self,
  get_elem?-set_ne, set, arith, Bool-cases, inl, inr,
}
use tek.Defrag.Bitmap.{Geometry, setbit, clrbit}
use tek.Defrag.Bitmap.Bits.{
  has_bit, bit_at, Bytes, InMap, set_lem, clear_lem, other_lem, not-eq-true, not-eq-false,
  locate-some, Bytes-set,
}

set-set {ℓ} : {A : Type ℓ} (xs : List A) (i : ℕ) (v w : A) → set (set xs i v) i w ≡ set xs i w
set-set [] i v w = refl
set-set (x ∷ xs) zero v w = refl
set-set (x ∷ xs) (suc i) v w = ap (λ t. x ∷ t) (set-set xs i v w)

set_same {ℓ} :
    {A : Type ℓ} (xs : List A) (i : ℕ) (v : A) → get_elem? xs i ≡ some v → set xs i v ≡ xs
set_same [] i v e = refl
set_same (x ∷ xs) zero v e = cc
set_same (x ∷ xs) (suc i) v e = ap (λ t. x ∷ t) (set_same xs i v e)

module _ (g : Geometry) (blkadr : ℕ) (m : List ℕ) (ok : Bytes m) (inside : InMap g blkadr m) where
  setbit_free :
      bit_at m (blkadr - g.minvld) ≡ false
      → (b : ℕ) × (b < 256)
        × (get_elem? m ((blkadr - g.minvld) / 8) ≡ some b)
        × (has_bit b ((blkadr - g.minvld) % 8) ≡ false)
        × (setbit g blkadr m
            ≡ some (
              false,
              set m ((blkadr - g.minvld) / 8) (bit_or b (128 / 2 ^ ((blkadr - g.minvld) % 8))),
            ))
  unfolding setbit bit_at
  setbit_free free =
      let (b, hb, e, found) = locate-some g blkadr m ok inside in
      let free' : has_bit b ((blkadr - g.minvld) % 8) ≡ false = (rw e at free) in
      (b, hb, e, free', (rw (found, not-eq-false _ free') refl))

  setbit_hit : bit_at m (blkadr - g.minvld) ≡ true → setbit g blkadr m ≡ some (true, m)
  unfolding setbit bit_at
  setbit_hit hit =
      let (b, hb, e, found) = locate-some g blkadr m ok inside in
      let hit' : has_bit b ((blkadr - g.minvld) % 8) ≡ true = (rw e at hit) in
      rw (found, not-eq-true _ hit') refl

  bit_at-set :
      (v j : ℕ) (b : ℕ) (w : Bool)
      → get_elem? m ((blkadr - g.minvld) / 8) ≡ some b
      → has_bit v (j % 8) ≡ (if j % 8 == (blkadr - g.minvld) % 8 then w else has_bit b (j % 8))
      → bit_at (set m ((blkadr - g.minvld) / 8) v) j
        ≡ (if j == blkadr - g.minvld then w else bit_at m j)
  unfolding bit_at
  bit_at-set v j b w e h = elim (Bool-cases (j / 8 == (blkadr - g.minvld) / 8)) [
    | inr other ↦
        (let ne : (blkadr - g.minvld) / 8 ≢ j / 8 = ground arith in
          let apart : (j == blkadr - g.minvld) ≡ false = ground arith in
          rw (get_elem?-set_ne m v ne, apart) refl)
    | inl here ↦
        (let same : j / 8 ≡ (blkadr - g.minvld) / 8 = (==_iff _ _).0 here in
          let test : (j == blkadr - g.minvld) ≡ (j % 8 == (blkadr - g.minvld) % 8) = ground arith in
          rw (same, get_elem?-set_self m ((blkadr - g.minvld) / 8) v inside.1, e, test) h)
  ]

-- Setting the bit of a block sets that bit and leaves every other bit of the map as it was.
pub bit_at-setbit :
    (g : Geometry) (blkadr : ℕ) (m m' : List ℕ) (hit : Bool) (j : ℕ)
    → Bytes m
    → InMap g blkadr m
    → setbit g blkadr m ≡ some (hit, m')
    → bit_at m' j ≡ (if j == blkadr - g.minvld then true else bit_at m j)
bit_at-setbit g blkadr m m' hit j ok inside h = elim (Bool-cases (bit_at m (blkadr - g.minvld))) [
  | inl old ↦
      (let same : m ≡ m' = cc (setbit_hit g blkadr m ok inside old) in
        rw (← same) (ground (arith, old)))
  | inr free ↦
      (let (b, hb, e, unset, made) = setbit_free g blkadr m ok inside free in
        let v : ℕ = bit_or b (128 / 2 ^ ((blkadr - g.minvld) % 8)) in
        let same : set m ((blkadr - g.minvld) / 8) v ≡ m' = cc in
        rw (← same) (
          bit_at-set g blkadr m ok inside v j b true e
            (other_lem b ((blkadr - g.minvld) % 8) (j % 8) hb (omega arith) (omega arith)).0))
]

cleared :
    (g : Geometry) (blkadr : ℕ) (m : List ℕ)
    → Bytes m
    → InMap g blkadr m
    → (v : ℕ) → get_elem? m ((blkadr - g.minvld) / 8) ≡ some v
    → has_bit v ((blkadr - g.minvld) % 8) ≡ true
    → clrbit g blkadr m
      ≡ some (
        true,
        set m ((blkadr - g.minvld) / 8) (bit_and v (255 - 128 / 2 ^ ((blkadr - g.minvld) % 8))),
      )
unfolding clrbit
cleared g blkadr m ok inside v e now =
    let (b, hb, e', found) = locate-some g blkadr m ok inside in
    let same : b ≡ v = cc in rw (found, same, not-eq-true _ now) refl

-- Clearing the bit of a block whose bit setbit found clear gives back the map as it was.
pub clrbit-setbit :
    (g : Geometry) (blkadr : ℕ) (m m' : List ℕ)
    → Bytes m
    → InMap g blkadr m
    → setbit g blkadr m ≡ some (false, m')
    → clrbit g blkadr m' ≡ some (true, m)
clrbit-setbit g blkadr m m' ok inside h = elim (Bool-cases (bit_at m (blkadr - g.minvld))) [
  | inl old ↦ absurd (
      let both : some (true, m) ≡ some (false, m') =
        sym (setbit_hit g blkadr m ok inside old) ∙ h in
      cc)
  | inr free ↦
      (let (b, hb, e, unset, made) = setbit_free g blkadr m ok inside free in
        let i : ℕ = (blkadr - g.minvld) / 8 in
        let k : ℕ = (blkadr - g.minvld) % 8 in
        let v : ℕ = bit_or b (128 / 2 ^ k) in
        let same : set m i v ≡ m' = cc in
        let hk : k < 8 = omega arith in
        let (_, byte, back) = set_lem b k hb hk unset in
        let now : has_bit v k ≡ true = (other_lem b k k hb hk hk).0 ∙ ground arith in
        let bytes' = Bytes-set m i v ok byte in
        let inside' : InMap g blkadr (set m i v) =
          (inside.0, omega (arith, inside.1, length-set m i v)) in
        rw (← same) (
          cleared g blkadr (set m i v) bytes' inside' v (get_elem?-set_self m i v inside.1) now
          ∙ ap (λ t. some (true, t))
              (set-set m i v (bit_and v (255 - 128 / 2 ^ k))
                ∙ ap (set m i) back
                ∙ set_same m i b e)))
]

bit_at-unset :
    (g : Geometry) (blkadr : ℕ) (m : List ℕ) (j b : ℕ)
    → get_elem? m ((blkadr - g.minvld) / 8) ≡ some b
    → has_bit b ((blkadr - g.minvld) % 8) ≡ false
    → bit_at m j ≡ (if j == blkadr - g.minvld then false else bit_at m j)
unfolding bit_at
bit_at-unset g blkadr m j b e free = elim (Bool-cases (j == blkadr - g.minvld)) [
  | inl here ↦ (let same : j ≡ blkadr - g.minvld = (==_iff _ _).0 here in rw (here, same, e) free)
  | inr other ↦ rw other refl
]

-- Clearing the bit of a block clears that bit and leaves every other bit of the map as it was.
pub clrbit-some :
    (g : Geometry) (blkadr : ℕ) (m : List ℕ)
    → Bytes m
    → InMap g blkadr m
    → (hit : Bool) × (m' : List ℕ) × (clrbit g blkadr m ≡ some (hit, m'))
      × Bytes m'
      × (length m' ≡ length m)
      × ((j : ℕ) → bit_at m' j ≡ (if j == blkadr - g.minvld then false else bit_at m j))
unfolding clrbit
clrbit-some g blkadr m ok inside =
    let (b, hb, e, found) = locate-some g blkadr m ok inside in
    let i : ℕ = (blkadr - g.minvld) / 8 in
    let k : ℕ = (blkadr - g.minvld) % 8 in
    let hk : k < 8 = omega arith in
    elim (Bool-cases (has_bit b k)) [
      | inl now ↦
          (let v : ℕ = bit_and b (255 - 128 / 2 ^ k) in
            let (_, byte) = clear_lem b k hb hk now in
            (
              true,
              set m i v,
              cleared g blkadr m ok inside b e now,
              Bytes-set m i v ok byte,
              length-set m i v,
              (λ j.
                  bit_at-set g blkadr m ok inside v j b false e
                    (other_lem b k (j % 8) hb hk (omega arith)).1),
            ))
      | inr free ↦ (
        false,
        m,
        (rw (found, not-eq-false _ free) refl),
        ok,
        refl,
        (λ j. bit_at-unset g blkadr m j b e free),
      )
    ]
