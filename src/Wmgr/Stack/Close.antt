-- ===== src/Wmgr/Stack/Close.antt =====
-- WindowDestroy of tek/wmgr/wmgr.c as a whole, on the list of the windows.
use tek.Base.{
  ℕ, suc, ◌≤◌, ◌≡◌, ◌≢◌, refl, ap, ◌∙◌, Bool, true, false, ◌&&◌, Option, none, some, List, [], ◌∷◌,
  ◌++◌, map, All, All-append, ltb, if◌then◌else◌, Bool-cases, inl, inr, arith,
}
use tek.Wmgr.Stack.{WinType, Window, Windows, max_windows, call, paint, set_clip, window_top}
use tek.Wmgr.Stack.Slots.{
  Session, reclaim, redraw, refresh, retop, is_login, any_shell, window_destroy,
}
use tek.Wmgr.Stack.Chain.{IsStack, id_of, Kept, Distinct-parts}
use tek.Wmgr.Stack.Top.{window_top-IsStack}
use tek.Wmgr.Stack.Destroy.{slot_after}
use tek.Wmgr.Stack.TakeOut.{without, id-destroyed, Reclaimable, take_out-IsStack}

-- The processes and types of the windows of a list.
abbrev pub ids : Windows → List ℕ → List (ℕ × WinType)
ids s ws = map (λ v. id_of (s.allwindows v)) ws

pub ids-Kept : (s s' : Windows) → Kept s s' → (ws : List ℕ) → ids s' ws ≡ ids s ws
ids-Kept s s' kept [] = refl
ids-Kept s s' kept (w ∷ ws) = rw (kept w, ids-Kept s s' kept ws) refl

ids-destroyed :
    (s : Windows) (xs ws : List ℕ) (wid last : ℕ)
    → All (λ v. wid ≢ v) ws
    → ids (reclaim wid last (without wid xs s)) (map (slot_after wid last) ws) ≡ ids s ws
ids-destroyed s xs [] wid last other = refl
ids-destroyed s xs (w ∷ ws) wid last other =
    rw (id-destroyed s xs wid last w other.0, ids-destroyed s xs ws wid last other.1) refl

module _ (maxw line : ℕ) (session : Option Session) where
  redraw-IsStack :
      (old : Window) (s : Windows) (ws : List ℕ)
      → IsStack s ws
      → is_login old.type ≡ false
      → (s' : Windows) × (redraw maxw line session old s ≡ some s') × IsStack s' ws × Kept s s'
  unfolding redraw
  redraw-IsStack old s [] h plain =
      let none_left : ltb 0 s.numwindows ≡ false = ground (arith, h.all) in
      (
        call (paint old.windowrect) (call (set_clip old.windowrect) s),
        rw (none_left, plain) refl,
        record { chain = h.chain; distinct = h.distinct; listed = h.listed; all = h.all },
        λ v. refl,
      )
  redraw-IsStack old s (w ∷ ws) h plain =
      let some_left : ltb 0 s.numwindows ≡ true = ground (arith, h.all) in
      let (s1, top, stack, kept) = window_top-IsStack s [] ws w h in
      let topped : retop s ≡ some (true, s1) =
        ap (λ o. elim o [ none ↦ some (false, s) | some v ↦ window_top v s ]) h.chain.0 ∙ top in
      (
        call (paint old.windowrect) (call (set_clip old.windowrect) s1),
        rw (some_left, topped, plain) refl,
        record {
          chain = stack.chain;
          distinct = stack.distinct;
          listed = stack.listed;
          all = stack.all;
        },
        kept,
      )

  refresh-IsStack :
      (old : Window) (s : Windows) (ws : List ℕ)
      → IsStack s ws
      → is_login old.type ≡ false
      → (s' : Windows) × (refresh maxw line session old s ≡ some s') × IsStack s' ws × Kept s s'
  unfolding refresh
  refresh-IsStack old s ws h plain =
      let by = λ (b : Bool). if b then some s else redraw maxw line session old s in
      let (s', drawn, stack, kept) = redraw-IsStack old s ws h plain in
      elim (Bool-cases s.closing_down) [
        | inl e ↦ (s, ap by e, h, λ v. refl)
        | inr e ↦ (s', ap by e ∙ drawn, stack, kept)
      ]

  -- WindowDestroy of a window of the list that holds no login, when nothing but `wintopmost` points to
  -- the last slot, or the slot that is freed is 0: it ends, and the other windows are in the order
  -- they were in, one of them perhaps in another slot.
  pub window_destroy-IsStack :
      (s : Windows) (xs ys : List ℕ) (wid last : ℕ)
      → IsStack s (xs ++ (wid ∷ ys))
      → s.numwindows ≡ suc last
      → s.numwindows ≤ max_windows
      → is_login (s.allwindows wid).type ≡ false
      → Reclaimable wid last (xs ++ ys)
      → (s' : Windows) × (window_destroy maxw line session wid s ≡ some s')
        × IsStack s' (map (slot_after wid last) (xs ++ ys))
        × (ids s' (map (slot_after wid last) (xs ++ ys)) ≡ ids s (xs ++ ys))
  unfolding window_destroy
  window_destroy-IsStack s xs ys wid last h count fits plain right =
      let ends : (is_login (s.allwindows wid).type && any_shell s.numwindows s.allwindows) ≡ false =
        rw plain refl in
      let (above, below, rest) = Distinct-parts xs ys wid h.distinct in
      let s1 = reclaim wid last (without wid xs s) in
      let left = map (slot_after wid last) (xs ++ ys) in
      let (out, stack) = take_out-IsStack s xs ys wid last h count fits ends right in
      let (s', refreshed, stack', kept) = refresh-IsStack (s.allwindows wid) s1 left stack plain in
      (
        s',
        rw out refreshed,
        stack',
        ids-Kept s1 s' kept left
            ∙ ids-destroyed s xs (xs ++ ys) wid last (All-append (λ v. wid ≢ v) xs ys above below),
      )
