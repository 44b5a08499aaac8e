-- ===== src/Wmgr/Stack/Chain.antt =====
-- The list that the `next` pointers of the windows of tek/wmgr/wmgr.c make.
use tek.Base.{
  ℕ, ◌<◌, ◌≡◌, ◌≢◌, refl, sym, true, false, Option, none, some, List, [], ◌∷◌, ◌++◌, All,
  All-append, length, ◌==◌, ==_iff, Bool-cases, inl, inr, arith,
}
use tek.Vtemu.State.{update}
use tek.Wmgr.Stack.{WinType, Window, Windows, set_next, unlink}

-- From a pointer, the windows of the list one after the other, and then NULL.
abbrev pub IsChain : (ℕ → Window) → Option ℕ → List ℕ → Type 0
IsChain f o [] = o ≡ none
IsChain f o (w ∷ ws) = (o ≡ some w) × IsChain f (f w).next ws

abbrev pub Distinct : List ℕ → Type 0
Distinct [] = Unit
Distinct (w ∷ ws) = All (λ v. w ≢ v) ws × Distinct ws

-- What tells one window from another: its process and its type.
abbrev pub id_of : Window → ℕ × WinType
id_of win = (win.pid, win.type)

abbrev pub Kept : Windows → Windows → Type 0
Kept s s' = (v : ℕ) → id_of (s'.allwindows v) ≡ id_of (s.allwindows v)

-- `ws` is the order of all windows, from the front down.
pub record IsStack (s : Windows) (ws : List ℕ) : Type 0 where
  pub chain : IsChain s.allwindows s.wintopmost ws
  pub distinct : Distinct ws
  pub listed : All (λ w. w < s.numwindows) ws
  pub all : length ws ≡ s.numwindows

pub All-left {κ} : (P : ℕ → Type κ) (xs ys : List ℕ) → All P (xs ++ ys) → All P xs
All-left P [] ys h = tt
All-left P (x ∷ xs) ys h = (h.0, All-left P xs ys h.1)

pub All-right {κ} : (P : ℕ → Type κ) (xs ys : List ℕ) → All P (xs ++ ys) → All P ys
All-right P [] ys h = h
All-right P (x ∷ xs) ys h = All-right P xs ys h.1

pub All-map {κ μ} :
    (P : ℕ → Type κ) (Q : ℕ → Type μ) → ((x : ℕ) → P x → Q x) → (xs : List ℕ) → All P xs → All Q xs
All-map P Q f [] h = tt
All-map P Q f (x ∷ xs) h = (f x h.0, All-map P Q f xs h.1)

pub All-true : (P : ℕ → Type 0) → ((j : ℕ) → P j) → (ws : List ℕ) → All P ws
All-true P f [] = tt
All-true P f (w ∷ ws) = (f w, All-true P f ws)

-- The windows above one, none of which it is, and those below.
pub Distinct-parts :
    (xs ys : List ℕ) (w : ℕ)
    → Distinct (xs ++ (w ∷ ys))
    → All (λ v. w ≢ v) xs × All (λ v. w ≢ v) ys × Distinct (xs ++ ys)
Distinct-parts [] ys w h = (tt, h.0, h.1)
Distinct-parts (x ∷ xs) ys w h =
    let (above, below, rest) = Distinct-parts xs ys w h.1 in
    let other : All (λ v. x ≢ v) (w ∷ ys) = All-right (λ v. x ≢ v) xs (w ∷ ys) h.0 in
    (
      ((λ (e : w ≡ x). other.0 (sym e)), above),
      below,
      (All-append (λ v. x ≢ v) xs ys (All-left (λ v. x ≢ v) xs (w ∷ ys) h.0) other.1, rest),
    )

abbrev pub last_of : Option ℕ → List ℕ → Option ℕ
last_of prev [] = prev
last_of prev (x ∷ xs) = last_of (some x) xs

-- Pointers that are as before at the windows of a chain keep it.
pub IsChain-frame :
    (f g : ℕ → Window) (o : Option ℕ) (ws : List ℕ)
    → All (λ v. (g v).next ≡ (f v).next) ws
    → IsChain f o ws
    → IsChain g o ws
IsChain-frame f g o [] same h = h
IsChain-frame f g o (w ∷ ws) same h =
    (h.0, IsChain-frame f g (g w).next ws same.1 (rw (same.0) h.1))

pub next-set_next_ne :
    (f : ℕ → Window) (w j : ℕ) (p : Option ℕ) → w ≢ j → (set_next f w p j).next ≡ (f j).next
next-set_next_ne f w j p ne = let other : (j == w) ≡ false = ground arith in rw other refl

pub next-set_next_self : (f : ℕ → Window) (w : ℕ) (p : Option ℕ) → (set_next f w p w).next ≡ p
next-set_next_self f w p = let here : (w == w) ≡ true = ground arith in rw here refl

next_unlink_ne :
    (f : ℕ → Window) (x x' : ℕ) (xs : List ℕ) (w : ℕ)
    → All (λ v. x ≢ v) (x' ∷ xs)
    → (unlink (last_of (some x') xs) w f x).next ≡ (f x).next
next_unlink_ne f x x' [] w h = next-set_next_ne f x' x (f w).next (λ (e : x' ≡ x). h.0 (sym e))
next_unlink_ne f x x' (x'' ∷ xs) w h = next_unlink_ne f x x'' xs w h.1

-- The window behind the last of `x ∷ xs` is unlinked.
pub IsChain-unlink :
    (f : ℕ → Window) (x : ℕ) (xs ys : List ℕ) (w : ℕ) (o : Option ℕ)
    → Distinct ((x ∷ xs) ++ (w ∷ ys))
    → IsChain f o ((x ∷ xs) ++ (w ∷ ys))
    → IsChain (unlink (last_of (some x) xs) w f) o ((x ∷ xs) ++ ys)
IsChain-unlink f x [] ys w o d h =
    let below : IsChain f (f w).next ys = h.1.1 in
    let other : All (λ v. x ≢ v) ys = d.0.1 in
    (
      h.0,
      rw (next-set_next_self f x (f w).next) (
          IsChain-frame f (set_next f x (f w).next) (f w).next ys
            (All-map (λ v. x ≢ v) (λ v. (set_next f x (f w).next v).next ≡ (f v).next)
              (λ v ne. next-set_next_ne f x v (f w).next ne) ys other)
            below),
    )
IsChain-unlink f x (x' ∷ xs) ys w o d h =
    let rest = IsChain-unlink f x' xs ys w (f x).next d.1 h.1 in
    (h.0, rw (next_unlink_ne f x x' xs w (All-left (λ v. x ≢ v) (x' ∷ xs) (w ∷ ys) d.0)) rest)

-- A window is written back with some of its fields changed.
pub field-update {ℓ} :
    {A : Type ℓ} (field : Window → A) (f : ℕ → Window) (w j : ℕ) (win : Window)
    → field win ≡ field (f w)
    → field (update f w win j) ≡ field (f j)
field-update field f w j win same = elim (Bool-cases (j == w)) [
  | inl e ↦ let at : j ≡ w = (==_iff j w).0 e in rw (e, at) same
  | inr e ↦ rw e refl
]

pub id-unlink :
    (f : ℕ → Window) (prev : Option ℕ) (w v : ℕ) → id_of (unlink prev w f v) ≡ id_of (f v)
id-unlink f none w v = refl
id-unlink f (some p) w v = field-update id_of f p v (record (f p) { next = (f w).next }) refl
