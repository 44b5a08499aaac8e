-- ===== src/Nfsd/Message/Bytes.antt =====
-- Bytes and words in a message buffer, for the writer and the reader of tek/daemons/nfsd.c.
use tek.Base.{
  ℕ, suc, ◌+◌, ◌*◌, ◌/◌, ◌%◌, ◌^◌, ◌<◌, ◌≡◌, refl, sym, ap, ◌∙◌, List, [], ◌∷◌, ◌++◌, ◌==◌,
  if◌then◌else◌, length, arith,
}
use tek.Nfsd.Message.{store, load, network, word_at}

pub store-append :
    (xs ys : List ℕ) (f : ℕ → ℕ) (k : ℕ)
    → store f k (xs ++ ys) ≡ store (store f k xs) (k + length xs) ys
store-append [] ys f k = ap (λ t. store f t ys) (omega arith)
store-append (x ∷ xs) ys f k =
    store-append xs ys (λ j. if j == k then x else f j) (k + 1)
    ∙ ap (λ t. store (store f k (x ∷ xs)) t ys) (omega arith)

pub store_below : (xs : List ℕ) (f : ℕ → ℕ) (k j : ℕ) → j < k → store f k xs j ≡ f j
store_below [] f k j h = refl
store_below (x ∷ xs) f k j h =
    store_below xs (λ j. if j == k then x else f j) (k + 1) j (omega arith) ∙ ground arith

-- The bytes stand in the buffer from position `k` on.
abbrev pub Holds : (ℕ → ℕ) → ℕ → List ℕ → Type 0
Holds f k [] = Unit
Holds f k (x ∷ xs) = (f k ≡ x) × Holds f (k + 1) xs

pub store-Holds : (xs : List ℕ) (f : ℕ → ℕ) (k : ℕ) → Holds (store f k xs) k xs
store-Holds [] f k = tt
store-Holds (x ∷ xs) f k = (
  store_below xs (λ j. if j == k then x else f j) (k + 1) k (omega arith) ∙ ground arith,
  store-Holds xs (λ j. if j == k then x else f j) (k + 1),
)

pub Holds-right :
    (xs ys : List ℕ) (f : ℕ → ℕ) (k : ℕ) → Holds f k (xs ++ ys) → Holds f (k + length xs) ys
Holds-right [] ys f k h = let e : k ≡ k + 0 = omega arith in rw (← e) h
Holds-right (x ∷ xs) ys f k (e, h) =
    let same : k + 1 + length xs ≡ k + suc (length xs) = omega arith in
    rw (← same) (Holds-right xs ys f (k + 1) h)

pub load-Holds :
    (xs ys : List ℕ) (f : ℕ → ℕ) (k : ℕ) → Holds f k (xs ++ ys) → load f k (length xs) ≡ xs
load-Holds [] ys f k h = refl
load-Holds (x ∷ xs) ys f k (e, h) = rw (e, load-Holds xs ys f (k + 1) h) refl

abbrev pub IsWord : ℕ → Type 0
IsWord v = v < 2 ^ 32

pub word-Holds :
    (v : ℕ) (ys : List ℕ) (f : ℕ → ℕ) (k : ℕ)
    → IsWord v
    → Holds f k (network v ++ ys)
    → word_at f k ≡ v
word-Holds v ys f k w (a, (b, (c, (d, _)))) =
    let e2 : k + 1 + 1 ≡ k + 2 = omega arith in
    let e3 : k + 1 + 1 + 1 ≡ k + 3 = omega arith in
    let c' : f (k + 2) ≡ v / 2 ^ 8 % 256 = ap f (sym e2) ∙ c in
    let d' : f (k + 3) ≡ v % 256 = ap f (sym e3) ∙ d in rw (a, b, c', d') (omega arith)

-- The bytes of a list of words.
abbrev pub words : List ℕ → List ℕ
words [] = []
words (v ∷ vs) = network v ++ words vs

length-words : (vs : List ℕ) → length (words vs) ≡ 4 * length vs
length-words [] = refl
length-words (v ∷ vs) = omega (arith, length-words vs)
