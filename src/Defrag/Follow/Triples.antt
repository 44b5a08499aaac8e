-- ===== src/Defrag/Follow/Triples.antt =====
-- l3tol and ltol3 are inverse on block numbers of 24 bits.
use tek.Base.{
  ℕ, zero, suc, ◌+◌, ◌*◌, ◌/◌, ◌%◌, ◌^◌, ◌<◌, ◌≡◌, refl, ap, ◌∙◌, List, [], ◌∷◌, length, get_or,
  All, arith,
}
use mathlib.Core.Path.{fun_ext}
use tek.Defrag.Follow.{l3tol, ltol3}

l3tol_shift : (f : ℕ → ℕ) (k count : ℕ) → l3tol f (k + 3) count ≡ l3tol (λ j. f (j + 3)) k count
unfolding l3tol
l3tol_shift f k zero = refl
l3tol_shift f k (suc count) =
    let e1 : k + 3 + 1 ≡ k + 1 + 3 = omega arith in
    let e2 : k + 3 + 2 ≡ k + 2 + 3 = omega arith in rw (e1, e2, l3tol_shift f (k + 3) count) refl

get_or-three : (a b c : ℕ) (xs : List ℕ) (j : ℕ) → get_or (a ∷ b ∷ c ∷ xs) (j + 3) 0 ≡ get_or xs j 0
get_or-three a b c xs j = let e : j + 3 ≡ suc (suc (suc j)) = omega arith in rw e refl

-- Block numbers below 2^24 that ltol3 packs are unpacked by l3tol to the same numbers.
pub l3tol-ltol3 :
    (bs : List ℕ) → All (λ b. b < 2 ^ 24) bs → l3tol (λ j. get_or (ltol3 bs) j 0) 0 (length bs) ≡ bs
unfolding l3tol ltol3
l3tol-ltol3 [] h = refl
l3tol-ltol3 (b ∷ bs) h =
    let packed : ℕ → ℕ = λ j. get_or (ltol3 (b ∷ bs)) j 0 in
    let first : b / 65536 % 256 * 65536 + b / 256 % 256 * 256 + b % 256 ≡ b = omega (arith, h.0) in
    let rest : l3tol packed 3 (length bs) ≡ bs =
      l3tol_shift packed 0 (length bs)
      ∙ ap (λ g. l3tol g 0 (length bs))
          (fun_ext (get_or-three (b / 65536 % 256) (b / 256 % 256) (b % 256) (ltol3 bs)))
      ∙ l3tol-ltol3 bs h.1 in
    ap (λ t. t ∷ l3tol packed 3 (length bs)) first ∙ ap (λ t. b ∷ t) rest
