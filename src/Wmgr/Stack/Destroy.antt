-- ===== src/Wmgr/Stack/Destroy.antt =====
-- The steps of WindowDestroy of tek/wmgr/wmgr.c: the loop that unlinks a window, and the swap of its slot
-- with the last one.
use tek.Base.{
  ℕ, zero, suc, ◌<◌, ◌≡◌, ◌≢◌, ◌⊎◌, refl, sym, ap, ◌∙◌, true, false, Option, none, some, List, [],
  ◌∷◌, ◌++◌, map, All, length, length-map, ltb, lt→ltb, ◌==◌, ==_iff, if◌then◌else◌, Bool-cases,
  inl, inr, arith,
}
use tek.Vtemu.State.{update}
use tek.Wmgr.Stack.{Window, Windows, set_next, unlink, is_ptr}
use tek.Wmgr.Stack.Slots.{unlink_all, redirect, reclaim}
use tek.Wmgr.Stack.Chain.{
  IsChain, Distinct, IsStack, All-right, All-map, All-true, last_of, IsChain-frame,
  next-set_next_ne,
}

abbrev Apart : Option ℕ → List ℕ → Type 0
Apart none ws = Unit
Apart (some p) ws = All (λ v. p ≢ v) ws

next-unlink_ne :
    (f : ℕ → Window) (prev : Option ℕ) (w : ℕ) (ws : List ℕ)
    → Apart prev ws
    → All (λ v. (unlink prev w f v).next ≡ (f v).next) ws
next-unlink_ne f none w ws h = All-true (λ v. (f v).next ≡ (f v).next) (λ v. refl) ws
next-unlink_ne f (some p) w ws h =
    All-map (λ v. p ≢ v) (λ v. (set_next f p (f w).next v).next ≡ (f v).next)
      (λ v ne. next-set_next_ne f p v (f w).next ne) ws h

-- Below the window nothing is changed.
unlink_all-below :
    (i wid : ℕ) (ws : List ℕ) (prev o : Option ℕ) (f : ℕ → Window)
    → IsChain f o ws
    → All (λ v. wid ≢ v) ws
    → length ws ≡ i
    → unlink_all i prev o wid f ≡ some f
unfolding unlink_all
unlink_all-below zero wid ws prev o f h other len = refl
unlink_all-below (suc i) wid [] prev o f h other len = absurd (omega (arith, len))
unlink_all-below (suc i) wid (w ∷ ws) prev o f h other len =
    let past : (w == wid) ≡ false = ground (arith, other.0) in
    rw (h.0, past)
      (unlink_all-below i wid ws (some w) (f w).next f h.1 other.1 (omega (arith, len)))

pub unlink_all-unlink :
    (i wid : ℕ) (xs ys : List ℕ) (prev o : Option ℕ) (f : ℕ → Window)
    → IsChain f o (xs ++ (wid ∷ ys))
    → Distinct (xs ++ (wid ∷ ys))
    → Apart prev (xs ++ (wid ∷ ys))
    → length (xs ++ (wid ∷ ys)) ≡ i
    → unlink_all i prev o wid f ≡ some (unlink (last_of prev xs) wid f)
unfolding unlink_all
unlink_all-unlink zero wid [] ys prev o f h d apart len = absurd (omega (arith, len))
unlink_all-unlink zero wid (x ∷ xs) ys prev o f h d apart len = absurd (omega (arith, len))
unlink_all-unlink (suc i) wid [] ys prev o f h d apart len =
    let here : (wid == wid) ≡ true = ground arith in
    let g : ℕ → Window = unlink prev wid f in
    let same = next-unlink_ne f prev wid (wid ∷ ys) apart in
    let below : IsChain g (g wid).next ys =
      rw (same.0) (IsChain-frame f g (f wid).next ys same.1 h.1) in
    rw (h.0, here)
      (unlink_all-below i wid ys (some wid) (g wid).next g below d.0 (omega (arith, len)))
unlink_all-unlink (suc i) wid (x ∷ xs) ys prev o f h d apart len =
    let other : All (λ v. x ≢ v) (wid ∷ ys) = All-right (λ v. x ≢ v) xs (wid ∷ ys) d.0 in
    let past : (x == wid) ≡ false = ground (arith, other.0) in
    rw (h.0, past)
      (unlink_all-unlink i wid xs ys (some x) (f x).next f h.1 d.1 d.0 (omega (arith, len)))

-- The last slot is copied to `wid`, and every pointer to it goes to slot 0.
abbrev moved : ℕ → ℕ → ℕ → (ℕ → Window) → ℕ → Window
moved wid n last f = redirect n last (update f wid (f last))

-- Where a window is after that.
abbrev pub slot_after : ℕ → ℕ → ℕ → ℕ
slot_after wid last v = if v == last then wid else v

abbrev ptr_after : ℕ → ℕ → Option ℕ → Option ℕ
ptr_after wid last o = if is_ptr o last then some wid else o

-- Slot 0 is the right one, or the pointer is to another window.
abbrev pub RightSlot : ℕ → ℕ → (ℕ → Window) → ℕ → Type 0
RightSlot wid last f v = (wid ≡ 0) ⊎ (is_ptr (f v).next last ≡ false)

next-redirect :
    (n last wid j v : ℕ) (f g : ℕ → Window)
    → j < n
    → (f j).next ≡ (g v).next
    → RightSlot wid last g v
    → (redirect n last f j).next ≡ ptr_after wid last (g v).next
unfolding redirect
next-redirect n last wid j v f g low same right =
    let low' : ltb j n ≡ true = lt→ltb j n low in
    elim (Bool-cases (is_ptr (g v).next last)) [
      | inl e ↦
          let to_last : is_ptr (f j).next last ≡ true = ap (λ o. is_ptr o last) same ∙ e in
          let zero : wid ≡ 0 = elim right [ inl z ↦ z | inr ne ↦ absurd (cc (e, ne)) ] in
          rw (low', to_last, e, zero) refl
      | inr e ↦
          let to_other : is_ptr (f j).next last ≡ false = ap (λ o. is_ptr o last) same ∙ e in
          rw (low', to_other, e) same
    ]

next-moved :
    (wid n last v : ℕ) (f : ℕ → Window)
    → wid < n
    → v < n
    → wid ≢ v
    → RightSlot wid last f v
    → (moved wid n last f (slot_after wid last v)).next ≡ ptr_after wid last (f v).next
next-moved wid n last v f wid_low low other right =
    let g : ℕ → Window = update f wid (f last) in
    elim (Bool-cases (v == last)) [
      | inl e ↦
          let at : v ≡ last = (==_iff v last).0 e in
          let here : (wid == wid) ≡ true = ground arith in
          let copied : (g wid).next ≡ (f v).next = rw here (ap (λ j. (f j).next) (sym at)) in
          rw e (next-redirect n last wid wid v g f wid_low copied right)
      | inr e ↦
          let away : (v == wid) ≡ false = ground (arith, other) in
          let kept : (g v).next ≡ (f v).next = rw away refl in
          rw e (next-redirect n last wid v v g f low kept right)
    ]

ptr_after-some :
    (wid last w : ℕ) (o : Option ℕ)
    → o ≡ some w
    → ptr_after wid last o ≡ some (slot_after wid last w)
ptr_after-some wid last w o e =
    rw e (elim (Bool-cases (w == last)) [ inl k ↦ rw k refl | inr k ↦ rw k refl ])

moved-IsChain :
    (wid n last : ℕ) (f : ℕ → Window) (ws : List ℕ) (o : Option ℕ)
    → wid < n
    → All (λ v. v < n) ws
    → All (λ v. wid ≢ v) ws
    → All (RightSlot wid last f) ws
    → IsChain f o ws
    → IsChain (moved wid n last f) (ptr_after wid last o) (map (slot_after wid last) ws)
moved-IsChain wid n last f [] o wid_low low other right h = ap (ptr_after wid last) h
moved-IsChain wid n last f (w ∷ ws) o wid_low low other right h = (
  ptr_after-some wid last w o h.0,
  rw (next-moved wid n last w f wid_low low.0 other.0 right.0)
      (moved-IsChain wid n last f ws (f w).next wid_low low.1 other.1 right.1 h.1),
)

slot_after_ne :
    (wid last v u : ℕ) → v ≢ u → wid ≢ v → wid ≢ u → slot_after wid last v ≢ slot_after wid last u
slot_after_ne wid last v u ne nv nu = ground (arith, ne, nv, nu)

slot_after_low :
    (wid last v : ℕ) → wid < suc last → v < suc last → wid ≢ v → slot_after wid last v < last
slot_after_low wid last v wid_low low ne = ground (arith, ne)

All-slot_after :
    (wid last : ℕ) (P : ℕ → Type 0) (Q : ℕ → Type 0)
    → ((v : ℕ) → wid ≢ v → P v → Q (slot_after wid last v))
    → (ws : List ℕ) → All (λ v. wid ≢ v) ws
    → All P ws
    → All Q (map (slot_after wid last) ws)
All-slot_after wid last P Q f [] other h = tt
All-slot_after wid last P Q f (w ∷ ws) other h =
    (f w other.0 h.0, All-slot_after wid last P Q f ws other.1 h.1)

slot_after-Distinct :
    (wid last : ℕ) (ws : List ℕ)
    → All (λ v. wid ≢ v) ws
    → Distinct ws
    → Distinct (map (slot_after wid last) ws)
slot_after-Distinct wid last [] other h = tt
slot_after-Distinct wid last (w ∷ ws) other h = (
  All-slot_after wid last (λ v. w ≢ v) (λ v. slot_after wid last w ≢ v)
      (λ v not_wid ne. slot_after_ne wid last w v ne other.0 not_wid) ws other.1 h.0,
  slot_after-Distinct wid last ws other.1 h.1,
)

abbrev pub top_without : ℕ → Windows → Option ℕ
top_without wid s = if is_ptr s.wintopmost wid then (s.allwindows wid).next else s.wintopmost

-- The slot of a window that is out of the list is filled.
pub reclaim-IsStack :
    (s : Windows) (wid last : ℕ) (ws : List ℕ)
    → s.numwindows ≡ suc last
    → wid < suc last
    → IsChain s.allwindows (top_without wid s) ws
    → All (λ v. v < suc last) ws
    → All (λ v. wid ≢ v) ws
    → Distinct ws
    → length ws ≡ last
    → All (RightSlot wid last s.allwindows) ws
    → IsStack (reclaim wid last s) (map (slot_after wid last) ws)
unfolding reclaim
reclaim-IsStack s wid last ws count wid_low h low other d len right = record {
  chain = rw count (
      moved-IsChain wid (suc last) last s.allwindows ws (top_without wid s) wid_low low other right
        h);
  distinct = slot_after-Distinct wid last ws other d;
  listed =
      All-slot_after wid last (λ v. v < suc last) (λ v. v < last)
        (λ v ne v_low. slot_after_low wid last v wid_low v_low ne) ws other low;
  all = length-map ws (slot_after wid last) ∙ len;
}
