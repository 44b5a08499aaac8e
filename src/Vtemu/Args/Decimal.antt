-- ===== src/Vtemu/Args/Decimal.antt =====
-- `asciinum` and `asciinum2` read back numbers in decimal, and never answer more than 9999 unless
-- the default is larger.
use tek.Base.{
  ℕ, suc, ◌+◌, ◌/◌, ◌%◌, ◌≤◌, ◌<◌, ◌≡◌, ◌⊎◌, false, List, [], ◌∷◌, ◌++◌, Bool-cases, inl, inr, ◌∙◌,
  ltb, arith, if◌then◌else◌,
}
use tek.Vtemu.Args.{isdigit, number, asciinum, second, asciinum2}

-- Whatever stands in the sequence, a number read is at most 9999, or the default.
pub asciinum_le :
    (seq : ℕ → ℕ) (msg defval : ℕ)
    → (asciinum seq msg defval ≤ 9999) ⊎ (asciinum seq msg defval ≡ defval)
unfolding asciinum number
asciinum_le seq msg defval = ground arith

-- The bytes stand in the array from position `k` on.
abbrev pub At : (ℕ → ℕ) → ℕ → List ℕ → Type 0
At seq k [] = Unit
At seq k (x ∷ xs) = (seq k ≡ x) × At seq (k + 1) xs

-- A number below 1000 in decimal.
abbrev pub decimal : ℕ → List ℕ
decimal n =
    if ltb n 10
    then (b'0' + n) ∷ []
    else if ltb n 100
    then (b'0' + n / 10) ∷ (b'0' + n % 10) ∷ []
    else (b'0' + n / 100) ∷ (b'0' + n / 10 % 10) ∷ (b'0' + n % 10) ∷ []

number-decimal :
    (seq : ℕ → ℕ) (k n stop : ℕ)
    → n < 1000
    → isdigit stop ≡ false
    → At seq k (decimal n ++ (stop ∷ []))
    → number 4 seq k 0 ≡ n
unfolding number
number-decimal seq k n stop h s a = ground arith

pub asciinum-decimal :
    (seq : ℕ → ℕ) (k n stop defval : ℕ)
    → 0 < n
    → n < 1000
    → isdigit stop ≡ false
    → At seq k (decimal n ++ (stop ∷ []))
    → asciinum seq k defval ≡ n
unfolding asciinum
asciinum-decimal seq k n stop defval p h s a = ground (arith, number-decimal seq k n stop h s a)

-- The search for the semicolon passes over digits.
second_digit :
    (left : ℕ) (seq : ℕ → ℕ) (k d defval : ℕ)
    → d < 10
    → seq k ≡ b'0' + d
    → second (suc left) seq k defval ≡ second left seq (k + 1) defval
unfolding second
second_digit left seq k d defval h e = ground arith

second_semicolon :
    (left : ℕ) (seq : ℕ → ℕ) (k defval : ℕ)
    → seq k ≡ b';'
    → second (suc left) seq k defval ≡ asciinum seq (k + 1) defval
unfolding second
second_semicolon left seq k defval e = ground arith

pub asciinum2-decimal :
    (seq : ℕ → ℕ) (k n m stop defval : ℕ)
    → n < 1000
    → 0 < m
    → m < 1000
    → isdigit stop ≡ false
    → At seq k (decimal n ++ (b';' ∷ (decimal m ++ (stop ∷ []))))
    → asciinum2 seq k defval ≡ m
unfolding asciinum2
asciinum2-decimal seq k n m stop defval h p q s a = elim (Bool-cases (ltb n 10)) [
  | inl one ↦
      let at = rw one at a in
      second_digit 7 seq k n defval (ground arith) at.0
      ∙ second_semicolon 6 seq (k + 1) defval at.1.0
      ∙ asciinum-decimal seq (k + 1 + 1) m stop defval p q s at.1.1
  | inr more ↦ elim (Bool-cases (ltb n 100)) [
    | inl two ↦
        let at = rw (more, two) at a in
        second_digit 7 seq k (n / 10) defval (ground arith) at.0
        ∙ second_digit 6 seq (k + 1) (n % 10) defval (omega arith) at.1.0
        ∙ second_semicolon 5 seq (k + 1 + 1) defval at.1.1.0
        ∙ asciinum-decimal seq (k + 1 + 1 + 1) m stop defval p q s at.1.1.1
    | inr three ↦
        let at = rw (more, three) at a in
        second_digit 7 seq k (n / 100) defval (omega arith) at.0
        ∙ second_digit 6 seq (k + 1) (n / 10 % 10) defval (omega arith) at.1.0
        ∙ second_digit 5 seq (k + 1 + 1) (n % 10) defval (omega arith) at.1.1.0
        ∙ second_semicolon 4 seq (k + 1 + 1 + 1) defval at.1.1.1.0
        ∙ asciinum-decimal seq (k + 1 + 1 + 1 + 1) m stop defval p q s at.1.1.1.1
  ]
]
