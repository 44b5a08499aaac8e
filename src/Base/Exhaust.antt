-- ===== src/Base/Exhaust.antt =====
-- Properties of finitely many numbers, decided by trying each.
use Prim.Native.Nat.{ℕ, zero, suc, ◌<◌}
use mathlib.Core.Path.{◌≡◌}
use mathlib.Core.Logic.{inl, inr}
use mathlib.Core.Bool.{Bool, true, ◌&&◌}
use native.Mathlib.Omega.{arith}
use tek.Base.Tests.{◌==◌, Bool-cases, ==_iff, &&-left, &&-right}

abbrev pub all_below : ℕ → (ℕ → Bool) → Bool
all_below zero p = true
all_below (suc n) p = p n && all_below n p

pub all_below-holds : (n : ℕ) (p : ℕ → Bool) (k : ℕ) → k < n → all_below n p ≡ true → p k ≡ true
all_below-holds zero p k h all = absurd (omega arith)
all_below-holds (suc n) p k h all = elim (Bool-cases (k == n)) [
  | inl e ↦ (let same : k ≡ n = (==_iff k n).0 e in rw same (&&-left (p n) (all_below n p) all))
  | inr e ↦ all_below-holds n p k (ground arith) (&&-right (p n) (all_below n p) all)
]

-- Two functions agree below `n`.
pub agree_below :
    (n : ℕ) (f g : ℕ → ℕ) (k : ℕ) → k < n → all_below n (λ j. f j == g j) ≡ true → f k ≡ g k
agree_below n f g k h all = (==_iff (f k) (g k)).0 (all_below-holds n (λ j. f j == g j) k h all)
