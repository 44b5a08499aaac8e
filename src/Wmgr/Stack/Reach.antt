-- ===== src/Wmgr/Stack/Reach.antt =====
-- The states that calls of WindowCreate, WindowTop and WindowDestroy of tek/wmgr/wmgr.c lead to.
use tek.Base.{
  ℕ, suc, ◌+◌, ◌≤◌, ◌<◌, ◌≡◌, ◌≢◌, ◌⊎◌, sym, ap, ◌∙◌, Bool, true, false, Option, none, some, List,
  [], ◌∷◌, ◌++◌, map, All, All-append, length, length-append, length-map, inl, inr, arith,
}
use mathlib.Core.Path.{subst}
use tek.Base.Int.{ℤ}
use tek.Wmgr.Stack.{WinType, Window, Windows, max_windows, window_top}
use tek.Wmgr.Stack.Slots.{Session, is_login, window_create, window_destroy}
use tek.Wmgr.Stack.Chain.{IsChain, IsStack, All-left, All-right, Distinct-parts}
use tek.Wmgr.Stack.Every.{IsStack-Place}
use tek.Wmgr.Stack.Top.{window_top-IsStack}
use tek.Wmgr.Stack.Destroy.{slot_after}
use tek.Wmgr.Stack.TakeOut.{tail, Reclaimable}
use tek.Wmgr.Stack.Close.{window_destroy-IsStack}
use tek.Wmgr.Stack.Open.{window_create-IsStack}

-- A window that can go: the slot that is freed is 0, which pointers to the last slot are given, or
-- it is the last, or no window in use has a pointer to the last slot.
abbrev pub Closable : Windows → ℕ → ℕ → Type 0
Closable s wid last =
    (wid ≡ 0) ⊎ ((wid ≡ last) ⊎ ((v : ℕ) → v < s.numwindows → (s.allwindows v).next ≢ some last))

-- Behind the first window of a list each one has a pointer to it.
IsChain-away :
    (f : ℕ → Window) (n last : ℕ) (o : Option ℕ) (ws : List ℕ)
    → IsChain f o ws
    → All (λ v. v < n) ws
    → ((v : ℕ) → v < n → (f v).next ≢ some last)
    → All (λ v. last ≢ v) (tail ws)
IsChain-away f n last o [] h low away = tt
IsChain-away f n last o (w ∷ []) h low away = tt
IsChain-away f n last o (w ∷ (x ∷ ws)) h low away = (
  (λ (e : last ≡ x). away w low.0 (h.1.0 ∙ ap some (sym e))),
  IsChain-away f n last (f w).next (x ∷ ws) h.1 low.1 away,
)

All-tail_without :
    (P : ℕ → Type 0) (xs ys : List ℕ) (w : ℕ)
    → All P (tail (xs ++ (w ∷ ys)))
    → All P (tail (xs ++ ys))
All-tail_without P [] [] w h = tt
All-tail_without P [] (y ∷ ys) w h = h.1
All-tail_without P (x ∷ xs) ys w h =
    All-append P xs ys (All-left P xs (w ∷ ys) h) (All-right P xs (w ∷ ys) h).1

All-tail : (P : ℕ → Type 0) (ws : List ℕ) → All P ws → All P (tail ws)
All-tail P [] h = tt
All-tail P (w ∷ ws) h = h.1

Closable-Reclaimable :
    (s : Windows) (xs ys : List ℕ) (wid last : ℕ)
    → IsStack s (xs ++ (wid ∷ ys))
    → Closable s wid last
    → Reclaimable wid last (xs ++ ys)
Closable-Reclaimable s xs ys wid last h (inl zero_slot) = inl zero_slot
Closable-Reclaimable s xs ys wid last h (inr (inl same)) =
    let (above, below, rest) = Distinct-parts xs ys wid h.distinct in
    inr (
      All-tail (λ v. last ≢ v) (xs ++ ys)
        (subst (λ n. All (λ v. n ≢ v) (xs ++ ys)) same
          (All-append (λ v. wid ≢ v) xs ys above below)))
Closable-Reclaimable s xs ys wid last h (inr (inr away)) = inr (
    All-tail_without (λ v. last ≢ v) xs ys wid
      (IsChain-away s.allwindows s.numwindows last s.wintopmost (xs ++ (wid ∷ ys)) h.chain h.listed
        away))

module _ (maxw line : ℕ) where
  -- From a screen without windows: calls of WindowCreate that get a process, while a slot is free and
  -- the program is not closing down; calls of WindowTop for a window in use; and calls of
  -- WindowDestroy for a window in use that holds no login and is Closable.
  pub data Reached : Windows → Type 0 where
    no_windows : (s : Windows) → s.numwindows ≡ 0 → s.wintopmost ≡ none → Reached s
    created :
        (s s' : Windows) (p : Session) (x y : ℤ) (wintype : WinType) (answer : ℕ)
        → Reached s
        → s.closing_down ≡ false
        → s.numwindows < max_windows
        → window_create maxw line (some p) x y wintype s ≡ some (answer, s')
        → Reached s'
    topped :
        (s s' : Windows) (w : ℕ) (valid : Bool)
        → Reached s
        → w < s.numwindows
        → window_top w s ≡ some (valid, s')
        → Reached s'
    destroyed :
        (s s' : Windows) (session : Option Session) (wid last : ℕ)
        → Reached s
        → s.numwindows ≡ suc last
        → wid < s.numwindows
        → is_login (s.allwindows wid).type ≡ false
        → Closable s wid last
        → window_destroy maxw line session wid s ≡ some s'
        → Reached s'

  abbrev pub Listed : Windows → Type 0
  Listed s = (ws : List ℕ) × IsStack s ws × (s.numwindows ≤ max_windows)

  same_state :
      {A : Type 0} (a b : A) (s t : Windows)
      → Path (Option (A × Windows)) (some (a, s)) (some (b, t))
      → s ≡ t
  same_state a b s t e = ap (λ o. elim o [ none ↦ s | some q ↦ q.1 ]) e

  same_answer : (s t : Windows) → Path (Option Windows) (some s) (some t) → s ≡ t
  same_answer s t e = ap (λ o. elim o [ none ↦ s | some q ↦ q ]) e

  -- From a screen without windows, after any sequence of these calls: WindowCreate where a slot is
  -- free, a process is got and the program is not closing down, WindowTop of a window in use, and
  -- WindowDestroy of a window in use that holds no login and is in slot 0 or the last slot, or when
  -- no window in use has a pointer to the last slot. Every slot below `numwindows` is in the list that
  -- begins at `wintopmost`, and just once, the list ends, and there are no more windows than slots.
  pub Reached-Listed : (s : Windows) → Reached s → Listed s
  Reached-Listed s (no_windows _ none_left no_top) = (
    [],
    record { chain = no_top; distinct = tt; listed = tt; all = sym none_left },
    omega (arith, none_left),
  )
  Reached-Listed s' (created s _ p x y wintype answer before closed fits made) =
      let (ws, h, room) = Reached-Listed s before in
      let (t, result, stack, shown) =
        window_create-IsStack maxw line p x y wintype s ws h closed fits in
      let same : t ≡ s' = same_state (s.numwindows + 1) answer t s' (sym result ∙ made) in
      let stack' : IsStack s' (s.numwindows ∷ ws) =
        subst (λ u. IsStack u (s.numwindows ∷ ws)) same stack in
      (s.numwindows ∷ ws, stack', omega (arith, stack'.all, h.all, fits))
  Reached-Listed s' (topped s _ w valid before low made) =
      let (ws, h, room) = Reached-Listed s before in
      let (xs, ys, e) = IsStack-Place s ws w h low in
      let (t, result, stack, kept) = window_top-IsStack s xs ys w (subst (IsStack s) e h) in
      let same : t ≡ s' = same_state true valid t s' (sym result ∙ made) in
      let order : List ℕ = w ∷ (xs ++ ys) in
      let stack' : IsStack s' order = subst (λ u. IsStack u order) same stack in
      (
        order,
        stack',
        omega (
          arith,
          stack'.all,
          h.all,
          ap length e,
          length-append xs ys,
          length-append xs (w ∷ ys),
          room,
        ),
      )
  Reached-Listed s' (destroyed s _ session wid last before count low plain right made) =
      let (ws, h, room) = Reached-Listed s before in
      let (xs, ys, e) = IsStack-Place s ws wid h low in
      let (t, result, stack, shown) =
        window_destroy-IsStack maxw line session s xs ys wid last (subst (IsStack s) e h) count room
          plain (Closable-Reclaimable s xs ys wid last (subst (IsStack s) e h) right) in
      let same : t ≡ s' = same_answer t s' (sym result ∙ made) in
      let order : List ℕ = map (slot_after wid last) (xs ++ ys) in
      let stack' : IsStack s' order = subst (λ u. IsStack u order) same stack in
      (
        order,
        stack',
        omega (
          arith,
          stack'.all,
          length-map (xs ++ ys) (slot_after wid last),
          h.all,
          ap length e,
          length-append xs ys,
          length-append xs (wid ∷ ys),
          room,
        ),
      )
