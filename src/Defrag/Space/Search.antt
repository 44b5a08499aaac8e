-- ===== src/Defrag/Space/Search.antt =====
-- What the search of findcontiguous finds: a run of zero bytes, or that there is none.
use tek.Base.{
  ℕ, zero, suc, ◌+◌, ◌-◌, ◌≤◌, ◌<◌, ◌≡◌, ◌≢◌, sym, ap, ◌∙◌, Option, none, some, List, ltb, leb,
  leb→le, ◌==◌, ==_iff, length, get_elem?, >>=-eq-some, Bool-cases, inl, inr, arith,
}
use tek.Defrag.Space.{last_used, search_from}

-- The `n` bytes from a place on are in the map and zero.
abbrev pub ZeroRun : List ℕ → ℕ → ℕ → Type 0
ZeroRun m p zero = Unit
ZeroRun m p (suc n) = (get_elem? m (p + n) ≡ some 0) × ZeroRun m p n

pub ZeroRun-byte : (m : List ℕ) (p n k : ℕ) → ZeroRun m p n → k < n → get_elem? m (p + k) ≡ some 0
ZeroRun-byte m p zero k run h = absurd (omega arith)
ZeroRun-byte m p (suc n) k run h = elim (Bool-cases (k == n)) [
  | inl e ↦ (let same : k ≡ n = (==_iff k n).0 e in rw same run.0)
  | inr e ↦ ZeroRun-byte m p n k run.1 (ground arith)
]

last_used-none : (m : List ℕ) (p n : ℕ) → last_used m p n ≡ some none → ZeroRun m p n
unfolding last_used
last_used-none m p zero h = tt
last_used-none m p (suc n) h =
    let (byte, e, rest) = >>=-eq-some (get_elem? m (p + n)) _ h in
    elim (Bool-cases (byte == 0)) [
      | inl zero_byte ↦
          (let z : byte ≡ 0 = (==_iff byte 0).0 zero_byte in
            (e ∙ ap some z, last_used-none m p n (rw zero_byte at rest)))
      | inr busy ↦ absurd (let r : some (some n) ≡ some none = (rw busy at rest) in cc)
    ]

last_used-some :
    (m : List ℕ) (p n j : ℕ)
    → last_used m p n ≡ some (some j)
    → (j < n) × (get_elem? m (p + j) ≢ some 0)
unfolding last_used
last_used-some m p zero j h = absurd (cc)
last_used-some m p (suc n) j h =
    let (byte, e, rest) = >>=-eq-some (get_elem? m (p + n)) _ h in
    elim (Bool-cases (byte == 0)) [
      | inl zero_byte ↦
          (let (below, busy) = last_used-some m p n j (rw zero_byte at rest) in (omega arith, busy))
      | inr busy ↦
          (let r : some (some n) ≡ some (some j) = (rw busy at rest) in
            let same : n ≡ j = cc in
            let ne : byte ≢ 0 = ground arith in
            (
              omega arith,
              (λ (z : get_elem? m (p + j) ≡ some 0). ne (
                  let z' : get_elem? m (p + n) ≡ some 0 = ap (λ t. get_elem? m (p + t)) same ∙ z in
                  let both : some byte ≡ some 0 = sym e ∙ z' in cc)),
            ))
    ]

-- The two cases of what a round finds.
module _ (m : List ℕ) (n8 p : ℕ) (onward : ℕ → Option (Option ℕ)) where
  abbrev round : Option ℕ → Option (Option ℕ)
  round (some j) = onward j
  round none = some (some p)

  round-some :
      (q : ℕ) (used : Option ℕ)
      → ((j : ℕ) → onward j ≡ some (some q) → ZeroRun m q n8)
      → last_used m p n8 ≡ some used
      → round used ≡ some (some q)
      → ZeroRun m q n8
  round-some q (some j) later e r = later j r
  round-some q none later e r = let same : p ≡ q = cc in rw (← same) (last_used-none m p n8 e)

  round-none :
      (used : Option ℕ)
      → last_used m p n8 ≡ some used
      → round used ≡ some none
      → (j : ℕ) × (last_used m p n8 ≡ some (some j)) × (onward j ≡ some none)
  round-none (some j) e r = (j, e, r)
  round-none none e r = absurd (cc)

pub search_from-some :
    (m : List ℕ) (n8 rounds p q : ℕ) → search_from m n8 rounds p ≡ some (some q) → ZeroRun m q n8
unfolding search_from
search_from-some m n8 zero p q h = absurd (cc)
search_from-some m n8 (suc rounds) p q h = elim (Bool-cases (ltb p (length m))) [
  | inr past ↦ absurd (let r : some none ≡ some (some q) = (rw past at h) in cc)
  | inl inside ↦
      (let (used, e, rest) = >>=-eq-some (last_used m p n8) _ (rw inside at h) in
        round-some m n8 p (λ j. search_from m n8 rounds (p + j + 1)) q used
          (λ j. search_from-some m n8 rounds (p + j + 1) q) e rest)
]

pub search_from-none :
    (m : List ℕ) (n8 rounds p q : ℕ)
    → search_from m n8 rounds p ≡ some none
    → length m ≤ p + rounds
    → p ≤ q
    → q + n8 ≤ length m
    → 0 < n8
    → ¬ ZeroRun m q n8
unfolding search_from
search_from-none m n8 zero p q h fuel from room some_byte run = omega arith
search_from-none m n8 (suc rounds) p q h fuel from room some_byte run =
    elim (Bool-cases (ltb p (length m))) [
      | inr past ↦ (let out : length m ≤ p = ground arith in omega arith)
      | inl inside ↦
          (let (used, e, rest) = >>=-eq-some (last_used m p n8) _ (rw inside at h) in
            let (j, found, later) =
              round-none m n8 p (λ j. search_from m n8 rounds (p + j + 1)) used e rest in
            let (below, busy) = last_used-some m p n8 j found in
            elim (Bool-cases (leb q (p + j))) [
              | inl at_or_before ↦
                  (let le : q ≤ p + j = leb→le q (p + j) at_or_before in
                    let here : q + (p + j - q) ≡ p + j = omega arith in
                    busy (
                      ap (get_elem? m) (sym here)
                      ∙ ZeroRun-byte m q n8 (p + j - q) run (omega arith)))
              | inr behind ↦
                  (let gt : p + j < q = ground arith in
                    search_from-none m n8 rounds (p + j + 1) q later (omega arith) (omega arith)
                      room some_byte run)
            ])
    ]
