-- ===== src/Defrag/Bitmap/Count.antt =====
-- countbits against a count of the bits one by one.
use Prim.Native.Nat.{bit_and}
use tek.Base.{
  ℕ, zero, suc, ◌+◌, ◌-◌, ◌*◌, ◌/◌, ◌%◌, ◌^◌, ◌≤◌, ◌<◌, ◌≡◌, refl, sym, ap, ◌∙◌, Bool, true, false,
  not, some, List, leb, leb→le, ◌==◌, if◌then◌else◌, length, get_elem?, get_elem?-some, Bool-cases,
  inl, inr, arith,
}
use tek.Defrag.Bitmap.{bitmsk, count_in_byte, count_from, countbits}
use tek.Defrag.Bitmap.Bits.{bit_at}

-- The bits set among the `n` from `i` on.
abbrev pub bits_in : List ℕ → ℕ → ℕ → ℕ
bits_in m i zero = 0
bits_in m i (suc n) = (if bit_at m i then 1 else 0) + bits_in m (i + 1) n

bits_in-add : (m : List ℕ) (i a b : ℕ) → bits_in m i (a + b) ≡ bits_in m i a + bits_in m (i + a) b
bits_in-add m i zero b =
    let place : i + 0 ≡ i = omega arith in
    let same : bits_in m (i + 0) b ≡ bits_in m i b = ap (λ k. bits_in m k b) place in
    let none_before : 0 + b ≡ b = omega arith in ap (bits_in m i) none_before ∙ omega (arith, same)
bits_in-add m i (suc a) b =
    let rest = bits_in-add m (i + 1) a b in
    let place : bits_in m (i + 1 + a) b ≡ bits_in m (i + suc a) b =
      ap (λ k. bits_in m k b) (omega arith) in
    let step : suc a + b ≡ suc (a + b) = omega arith in
    ap (bits_in m i) step ∙ omega (arith, rest, place)

-- The smaller of two numbers.
abbrev fewer : ℕ → ℕ → ℕ
fewer zero loop = 0
fewer (suc bits) zero = 0
fewer (suc bits) (suc loop) = suc (fewer bits loop)

fewer-le : (a b : ℕ) → a ≤ b → fewer a b ≡ a
fewer-le zero b h = refl
fewer-le (suc a) zero h = absurd (omega arith)
fewer-le (suc a) (suc b) h = ap (λ t. suc t) (fewer-le a b (omega arith))

fewer-ge : (a b : ℕ) → b ≤ a → fewer a b ≡ b
fewer-ge zero b h = omega arith
fewer-ge (suc a) zero h = refl
fewer-ge (suc a) (suc b) h = ap (λ t. suc t) (fewer-ge a b (omega arith))

flip : (b : Bool) → ◌≡◌ {A = ℕ} (if b then 0 else 1) (if not b then 1 else 0)
flip true = refl
flip false = refl

module _ (m : List ℕ) where
  bit_at-byte :
      (p k b : ℕ)
      → get_elem? m p ≡ some b
      → k < 8
      → ◌≡◌ {A = ℕ}
          (if bit_and b (bitmsk k) == 0 then 0 else 1)
          (if bit_at m (p * 8 + k) then 1 else 0)
  unfolding bit_at
  bit_at-byte p k b e h =
      let at_byte : (p * 8 + k) / 8 ≡ p = omega (arith, h) in
      let at_bit : (p * 8 + k) % 8 ≡ k = omega (arith, h) in
      let mask : k % 8 ≡ k = omega (arith, h) in
      rw (at_byte, at_bit, mask, e) (flip (bit_and b (128 / 2 ^ k) == 0))

  count_in_byte-bits_in :
      (p b bits k loop : ℕ)
      → get_elem? m p ≡ some b
      → k + bits ≡ 8
      → (count_in_byte b bits k loop).0 ≡ bits_in m (p * 8 + k) (fewer bits loop)
  unfolding count_in_byte
  count_in_byte-bits_in p b zero k loop e h = refl
  count_in_byte-bits_in p b (suc bits) k zero e h = refl
  count_in_byte-bits_in p b (suc bits) k (suc loop) e h =
      let rest = count_in_byte-bits_in p b bits (k + 1) loop e (omega arith) in
      let first = bit_at-byte p k b e (omega arith) in
      let go : (suc loop == 0) ≡ false = ground arith in
      let less : suc loop - 1 ≡ loop = omega arith in
      let next : p * 8 + (k + 1) ≡ p * 8 + k + 1 = omega arith in
      let place : bits_in m (p * 8 + (k + 1)) (fewer bits loop)
          ≡ bits_in m (p * 8 + k + 1) (fewer bits loop) =
        ap (λ i. bits_in m i (fewer bits loop)) next in
      rw (go, less) (omega (arith, rest, first, place))

  count_in_byte-left : (b bits k loop : ℕ) → (count_in_byte b bits k loop).1 ≡ loop - bits
  unfolding count_in_byte
  count_in_byte-left b zero k loop = omega arith
  count_in_byte-left b (suc bits) k zero = omega arith
  count_in_byte-left b (suc bits) k (suc loop) =
      let rest = count_in_byte-left b bits (k + 1) loop in
      let go : (suc loop == 0) ≡ false = ground arith in
      let less : suc loop - 1 ≡ loop = omega arith in rw (go, less) (rest ∙ omega arith)

  bits_in-byte :
      (p k loop : ℕ)
      → k < 8
      → bits_in m (p * 8 + k) (fewer (8 - k) loop) + bits_in m ((p + 1) * 8 + 0) (loop - (8 - k))
        ≡ bits_in m (p * 8 + k) loop
  bits_in-byte p k loop h = elim (Bool-cases (leb (8 - k) loop)) [
    | inl e ↦
        (let le : 8 - k ≤ loop = leb→le (8 - k) loop e in
          let place : (p + 1) * 8 + 0 ≡ p * 8 + k + (8 - k) = omega (arith, h) in
          let all : loop ≡ (8 - k) + (loop - (8 - k)) = omega (arith, le) in
          rw (fewer-le (8 - k) loop le, place)
            (sym (bits_in-add m (p * 8 + k) (8 - k) (loop - (8 - k)))
              ∙ ap (bits_in m (p * 8 + k)) (sym all)))
    | inr e ↦
        (let le : loop ≤ 8 - k = ground arith in
          let nothing : loop - (8 - k) ≡ 0 = omega (arith, le) in
          rw (fewer-ge (8 - k) loop le, nothing) (omega arith))
  ]

  count_from-bits_in :
      (bytes p k loop : ℕ)
      → k < 8
      → loop + k ≤ 8 * bytes
      → p * 8 + k + loop ≤ 8 * length m
      → count_from m bytes p k loop ≡ some (bits_in m (p * 8 + k) loop)
  unfolding count_from
  count_from-bits_in zero p k zero h enough inside = refl
  count_from-bits_in zero p k (suc loop) h enough inside = absurd (omega arith)
  count_from-bits_in (suc bytes) p k zero h enough inside = refl
  count_from-bits_in (suc bytes) p k (suc loop) h enough inside =
      let (b, e) = get_elem?-some m p (omega arith) in
      let n : ℕ = suc loop in
      let go : (n == 0) ≡ false = ground arith in
      let here = count_in_byte-bits_in p b (8 - k) k n e (omega arith) in
      let left = count_in_byte-left b (8 - k) k n in
      let rest =
        count_from-bits_in bytes (p + 1) 0 (n - (8 - k)) (omega arith) (omega arith)
          (omega arith) in
      rw (go, e, left, rest, here) (ap some (bits_in-byte p k n h))

-- The bits of a run that is in the map, and whose length is a short, are counted, each once; the loop
-- over the bytes ends with the run.
pub countbits-bits_in :
    (mapbuf : List ℕ) (i runlength : ℕ)
    → runlength < 2 ^ 15
    → i + runlength ≤ 8 * length mapbuf
    → countbits mapbuf i runlength ≡ some (bits_in mapbuf i runlength)
unfolding countbits
countbits-bits_in mapbuf i runlength short inside =
    let place : i / 8 * 8 + i % 8 ≡ i = omega arith in
    count_from-bits_in mapbuf (runlength + 1) (i / 8) (i % 8) runlength (omega arith) (omega arith)
      (omega arith)
    ∙ ap (λ k. some (bits_in mapbuf k runlength)) place
