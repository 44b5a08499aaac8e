-- ===== src/Wmgr/Stack/TakeOut.antt =====
-- WindowDestroy of tek/wmgr/wmgr.c up to `numwindows--`, on the list of the windows.
use tek.Base.{
  ℕ, zero, suc, ◌-◌, ◌≤◌, ◌<◌, ◌≡◌, ◌≢◌, ◌⊎◌, refl, sym, ap, ◌∙◌, true, false, ◌&&◌, Option, none,
  some, List, [], ◌∷◌, ◌++◌, map, All, All-append, length-append, ltb, lt→ltb, ◌==◌, ==_iff,
  Bool-cases, inl, inr, arith,
}
use tek.Vtemu.State.{update}
use tek.Wmgr.Stack.{Window, Windows, unlink, is_ptr, max_windows}
use tek.Wmgr.Stack.Slots.{unlink_all, redirect, reclaim, take_out, is_login, is_shell, any_shell}
use tek.Wmgr.Stack.Chain.{
  IsChain, IsStack, id_of, All-left, All-right, All-true, Distinct-parts, last_of, IsChain-unlink,
  id-unlink,
}
use tek.Wmgr.Stack.Destroy.{slot_after, top_without, reclaim-IsStack, unlink_all-unlink, RightSlot}

abbrev pub tail {ℓ} : {A : Type ℓ} → List A → List A
tail [] = []
tail (x ∷ xs) = xs

-- A slot that is not behind another in the list has no pointer to it.
IsChain-RightSlot :
    (wid last : ℕ) (f : ℕ → Window) (o : Option ℕ) (ws : List ℕ)
    → IsChain f o ws
    → All (λ v. last ≢ v) (tail ws)
    → All (RightSlot wid last f) ws
IsChain-RightSlot wid last f o [] h other = tt
IsChain-RightSlot wid last f o (w ∷ []) h other = (inr (ap (λ p. is_ptr p last) h.1), tt)
IsChain-RightSlot wid last f o (w ∷ (v ∷ ws)) h other =
    let away : (v == last) ≡ false = ground (arith, other.0) in
    (
      inr (ap (λ p. is_ptr p last) h.1.0 ∙ away),
      IsChain-RightSlot wid last f (f w).next (v ∷ ws) h.1 other.1,
    )

abbrev pub without : ℕ → List ℕ → Windows → Windows
without wid xs s = record s { allwindows = unlink (last_of none xs) wid s.allwindows }

without-IsChain :
    (s : Windows) (xs ys : List ℕ) (wid : ℕ)
    → IsStack s (xs ++ (wid ∷ ys))
    → IsChain (without wid xs s).allwindows (top_without wid (without wid xs s)) (xs ++ ys)
without-IsChain s [] ys wid h =
    let here : (wid == wid) ≡ true = ground arith in
    let at_top : is_ptr s.wintopmost wid ≡ true = ap (λ o. is_ptr o wid) h.chain.0 ∙ here in
    rw at_top h.chain.1
without-IsChain s (x ∷ xs) ys wid h =
    let (above, below, rest) = Distinct-parts (x ∷ xs) ys wid h.distinct in
    let other : (x == wid) ≡ false = ground (arith, above.0) in
    let not_top : is_ptr s.wintopmost wid ≡ false = ap (λ o. is_ptr o wid) h.chain.0 ∙ other in
    rw not_top (IsChain-unlink s.allwindows x xs ys wid s.wintopmost h.distinct h.chain)

-- Nothing points to the last slot but `wintopmost`, or the slot that is free is the one that such
-- pointers are given.
abbrev pub Reclaimable : ℕ → ℕ → List ℕ → Type 0
Reclaimable wid last ws = (wid ≡ 0) ⊎ All (λ v. last ≢ v) (tail ws)

destroyed-IsStack :
    (s : Windows) (xs ys : List ℕ) (wid last : ℕ)
    → IsStack s (xs ++ (wid ∷ ys))
    → s.numwindows ≡ suc last
    → Reclaimable wid last (xs ++ ys)
    → IsStack (reclaim wid last (without wid xs s)) (map (slot_after wid last) (xs ++ ys))
destroyed-IsStack s xs ys wid last h count right =
    let (above, below, rest) = Distinct-parts xs ys wid h.distinct in
    let low : All (λ v. v < suc last) (xs ++ (wid ∷ ys)) = rw⁻¹ count h.listed in
    let here : All (λ v. v < suc last) (wid ∷ ys) =
      All-right (λ v. v < suc last) xs (wid ∷ ys) low in
    let f : ℕ → Window = (without wid xs s).allwindows in
    let chain = without-IsChain s xs ys wid h in
    let others : All (RightSlot wid last f) (xs ++ ys) = elim right [
      | inl z ↦ All-true (RightSlot wid last f) (λ v. inl z) (xs ++ ys)
      | inr away ↦
          IsChain-RightSlot wid last f (top_without wid (without wid xs s)) (xs ++ ys) chain away
    ] in
    reclaim-IsStack (without wid xs s) wid last (xs ++ ys) count here.0 chain
      (All-append (λ v. v < suc last) xs ys (All-left (λ v. v < suc last) xs (wid ∷ ys) low) here.1)
      (All-append (λ v. wid ≢ v) xs ys above below) rest
      (omega (arith, length-append xs (wid ∷ ys), length-append xs ys, h.all, count)) others

pub id-redirect : (n last j : ℕ) (f : ℕ → Window) → id_of (redirect n last f j) ≡ id_of (f j)
unfolding redirect
id-redirect n last j f = elim (Bool-cases (ltb j n && is_ptr (f j).next last)) [
  | inl e ↦ rw e refl
  | inr e ↦ rw e refl
]

id-reclaim :
    (s : Windows) (wid last v : ℕ)
    → wid ≢ v
    → id_of ((reclaim wid last s).allwindows (slot_after wid last v)) ≡ id_of (s.allwindows v)
unfolding reclaim
id-reclaim s wid last v other =
    let g : ℕ → Window = update s.allwindows wid (s.allwindows last) in
    let moved : id_of (g (slot_after wid last v)) ≡ id_of (s.allwindows v) =
      elim (Bool-cases (v == last)) [
        | inl e ↦
            let at : v ≡ last = (==_iff v last).0 e in
            let here : (wid == wid) ≡ true = ground arith in
            rw (e, here) (ap (λ j. id_of (s.allwindows j)) (sym at))
        | inr e ↦ let away : (v == wid) ≡ false = ground (arith, other) in rw (e, away) refl
      ] in
    id-redirect s.numwindows last (slot_after wid last v) g ∙ moved

pub id-destroyed :
    (s : Windows) (xs : List ℕ) (wid last v : ℕ)
    → wid ≢ v
    → id_of ((reclaim wid last (without wid xs s)).allwindows (slot_after wid last v))
      ≡ id_of (s.allwindows v)
id-destroyed s xs wid last v other =
    id-reclaim (without wid xs s) wid last v other ∙ id-unlink s.allwindows (last_of none xs) wid v

any_shell-Kept :
    (n : ℕ) (f g : ℕ → Window)
    → ((v : ℕ) → id_of (g v) ≡ id_of (f v))
    → any_shell n g ≡ any_shell n f
any_shell-Kept zero f g kept = refl
any_shell-Kept (suc n) f g kept =
    let here : is_shell (g n).type ≡ is_shell (f n).type = ap (λ p. is_shell p.1) (kept n) in
    rw (here, any_shell-Kept n f g kept) refl

-- WindowDestroy up to `numwindows--`, when it does not wait for shells to end.
pub take_out-IsStack :
    (s : Windows) (xs ys : List ℕ) (wid last : ℕ)
    → IsStack s (xs ++ (wid ∷ ys))
    → s.numwindows ≡ suc last
    → s.numwindows ≤ max_windows
    → (is_login (s.allwindows wid).type && any_shell s.numwindows s.allwindows) ≡ false
    → Reclaimable wid last (xs ++ ys)
    → (take_out wid s ≡ some (reclaim wid last (without wid xs s)))
      × IsStack (reclaim wid last (without wid xs s)) (map (slot_after wid last) (xs ++ ys))
unfolding take_out
take_out-IsStack s xs ys wid last h count fits ends right =
    let f : ℕ → Window = (without wid xs s).allwindows in
    let low : All (λ v. v < s.numwindows) (wid ∷ ys) =
      All-right (λ v. v < s.numwindows) xs (wid ∷ ys) h.listed in
    let slot : ltb wid max_windows ≡ true = lt→ltb wid max_windows (omega (arith, low.0, fits)) in
    let some_left : ltb 0 s.numwindows ≡ true = lt→ltb 0 s.numwindows (omega (arith, count)) in
    let walked : unlink_all s.numwindows none s.wintopmost wid s.allwindows ≡ some f =
      unlink_all-unlink s.numwindows wid xs ys none s.wintopmost s.allwindows h.chain h.distinct tt
        h.all in
    let kept : (v : ℕ) → id_of (f v) ≡ id_of (s.allwindows v) =
      id-unlink s.allwindows (last_of none xs) wid in
    let login : is_login (f wid).type ≡ is_login (s.allwindows wid).type =
      ap (λ p. is_login p.1) (kept wid) in
    let shells = any_shell-Kept s.numwindows s.allwindows f kept in
    let pred : s.numwindows - 1 ≡ last = omega (arith, count) in
    (
      rw (slot, some_left, walked, login, shells, ends, pred) refl,
      destroyed-IsStack s xs ys wid last h count right,
    )
