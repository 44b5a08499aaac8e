-- ===== src/Wmgr/Stack/Every.antt =====
-- Which slots of `allwindows` of tek/wmgr/wmgr.c a list of the windows has.
use tek.Base.{
  ℕ, zero, suc, ◌≤◌, ◌<◌, ◌≡◌, ◌≢◌, ◌⊎◌, ap, List, [], ◌∷◌, ◌++◌, All, All-append, length,
  length-append, ◌==◌, ==_iff, Bool-cases, inl, inr, arith,
}
use mathlib.Core.Path.{subst}
use tek.Wmgr.Stack.{Windows}
use tek.Wmgr.Stack.Chain.{Distinct, IsStack, All-left, All-right, Distinct-parts}

-- Where a number stands in a list.
abbrev pub Place : ℕ → List ℕ → Type 0
Place v ws = (xs : List ℕ) × (ys : List ℕ) × (ws ≡ xs ++ (v ∷ ys))

Place-cases : (v : ℕ) (ws : List ℕ) → Place v ws ⊎ All (λ w. v ≢ w) ws
Place-cases v [] = inr tt
Place-cases v (w ∷ ws) = elim (Bool-cases (w == v)) [
  | inl e ↦ inl ([], ws, ap (λ x. x ∷ ws) ((==_iff w v).0 e))
  | inr e ↦
      let away : v ≢ w = λ (k : v ≡ w). ground (arith, e, k) in
      elim (Place-cases v ws) [
        | inl here ↦ inl (w ∷ here.0, here.1, ap (λ t. w ∷ t) here.2)
        | inr none_here ↦ inr (away, none_here)
      ]
]

below_last :
    (n : ℕ) (ws : List ℕ) → All (λ w. w < suc n) ws → All (λ w. n ≢ w) ws → All (λ w. w < n) ws
below_last n [] low other = tt
below_last n (w ∷ ws) low other =
    let here : w < n = ground (arith, low.0, other.0) in (here, below_last n ws low.1 other.1)

-- The pigeonhole principle.
length-Distinct : (n : ℕ) (ws : List ℕ) → Distinct ws → All (λ w. w < n) ws → length ws ≤ n
length-Distinct zero [] d low = omega arith
length-Distinct zero (w ∷ ws) d low = absurd (omega (arith, low.0))
length-Distinct (suc n) ws d low = elim (Place-cases n ws) [
  | inl here ↦
      let (xs, ys, e) = here in
      let d' : Distinct (xs ++ (n ∷ ys)) = subst Distinct e d in
      let low' : All (λ w. w < suc n) (xs ++ (n ∷ ys)) = subst (All (λ w. w < suc n)) e low in
      let (above, below, rest) = Distinct-parts xs ys n d' in
      let others = All-append (λ w. n ≢ w) xs ys above below in
      let lows =
        All-append (λ w. w < suc n) xs ys (All-left (λ w. w < suc n) xs (n ∷ ys) low')
          (All-right (λ w. w < suc n) xs (n ∷ ys) low').1 in
      let bound = length-Distinct n (xs ++ ys) rest (below_last n (xs ++ ys) lows others) in
      omega (arith, bound, length-append xs ys, length-append xs (n ∷ ys), ap length e)
  | inr others ↦
      let bound = length-Distinct n ws d (below_last n ws low others) in omega (arith, bound)
]

pub IsStack-Place :
    (s : Windows) (ws : List ℕ) (v : ℕ) → IsStack s ws → v < s.numwindows → Place v ws
IsStack-Place s ws v h low = elim (Place-cases v ws) [
  | inl here ↦ here
  | inr others ↦
      let bound = length-Distinct s.numwindows (v ∷ ws) (others, h.distinct) (low, h.listed) in
      absurd (omega (arith, bound, h.all))
]
