-- ===== src/Wmgr/Stack/Open.antt =====
-- WindowCreate of tek/wmgr/wmgr.c, on the list of the windows.
use tek.Base.{
  ℕ, ◌+◌, ◌<◌, ◌≡◌, ◌≢◌, refl, ap, ◌∙◌, Bool, true, false, Option, some, List, [], ◌∷◌, All, ltb,
  lt→ltb, ◌==◌, if◌then◌else◌, ◌>>=◌, guarded, arith,
}
use tek.Base.Int.{ℤ}
use tek.Vtemu.State.{update}
use tek.Wmgr.Stack.{WinType, Window, Windows, Call, call, welcome, need_login, max_windows}
use tek.Wmgr.Stack.Slots.{
  Session, placed, started, added, fill_slot, is_login, is_console, window_create,
}
use tek.Wmgr.Stack.Chain.{IsStack, id_of, Kept, All-map, IsChain-frame}
use tek.Wmgr.Stack.Top.{window_top-IsStack}
use tek.Wmgr.Stack.Close.{ids, ids-Kept}

ne_new : (n v : ℕ) → v < n → (v == n) ≡ false
ne_new n v low = ground arith

-- A slot above all windows is written.
added-IsStack :
    (s s' : Windows) (win : Window) (ws : List ℕ)
    → IsStack s ws
    → win.next ≡ s.wintopmost
    → s'.allwindows ≡ update s.allwindows s.numwindows win
    → s'.wintopmost ≡ some s.numwindows
    → s'.numwindows ≡ s.numwindows + 1
    → IsStack s' (s.numwindows ∷ ws)
added-IsStack s s' win ws h top slots front count =
    let f = s.allwindows in
    let n = s.numwindows in
    let self : (n == n) ≡ true = ground arith in
    let below : (s'.allwindows n).next ≡ s.wintopmost =
      ap (λ g. (g n).next) slots ∙ (rw self top) in
    let kept : All (λ w. (s'.allwindows w).next ≡ (f w).next) ws =
      All-map (λ w. w < n) (λ w. (s'.allwindows w).next ≡ (f w).next)
        (λ w low. ap (λ g. (g w).next) slots ∙ (rw (ne_new n w low) refl)) ws h.listed in
    record {
      chain = (front, rw below (IsChain-frame f s'.allwindows s.wintopmost ws kept h.chain));
      distinct =
          (All-map (λ w. w < n) (λ w. n ≢ w) (λ w low. omega (arith, low)) ws h.listed, h.distinct);
      listed = (
        omega (arith, count),
        All-map (λ w. w < n) (λ w. w < s'.numwindows) (λ w low. omega (arith, low, count)) ws
            h.listed,
      );
      all = omega (arith, h.all, count);
    }

ids-added :
    (s : Windows) (win : Window) (ws : List ℕ)
    → All (λ w. w < s.numwindows) ws
    → ids (record s { allwindows = update s.allwindows s.numwindows win }) ws ≡ ids s ws
ids-added s win [] low = refl
ids-added s win (w ∷ ws) low = rw (ne_new s.numwindows w low.0, ids-added s win ws low.1) refl

if-both {κ} : (P : Windows → Type κ) (b : Bool) (s t : Windows) → P s → P t → P (if b then s else t)
if-both P true s t h k = h
if-both P false s t h k = k

-- A call changes no window.
call-IsStack : (c : Call) (s : Windows) (ws : List ℕ) → IsStack s ws → IsStack (call c s) ws
call-IsStack c s ws h = record {
  chain = h.chain;
  distinct = h.distinct;
  listed = h.listed;
  all = h.all;
}

fill_slot-some :
    (maxw line : ℕ) (p : Session) (x y : ℤ) (wintype : WinType) (s : Windows) (ws : List ℕ)
    → IsStack s ws
    → (s' : Windows) × (fill_slot maxw line (some p) s.numwindows x y wintype s
        ≡ some (s.numwindows + 1, s'))
      × IsStack s' (s.numwindows ∷ ws)
      × (ids s' (s.numwindows ∷ ws) ≡ (p.pid, wintype) ∷ ids s ws)
unfolding fill_slot
fill_slot-some maxw line p x y wintype s ws h =
    let n = s.numwindows in
    let new = placed maxw line (some p) x y wintype (s.allwindows n) in
    let win = started maxw line (some p) p s new in
    let s1 = added maxw line (some p) n p new s in
    let stack = added-IsStack s s1 win ws h refl refl refl refl in
    let t = if is_console wintype then s1 else call (welcome n) s1 in
    let welcomed : IsStack t (n ∷ ws) × Kept s1 t =
      if-both (λ u. IsStack u (n ∷ ws) × Kept s1 u) (is_console wintype) s1 (call (welcome n) s1)
        (stack, λ v. refl) (call-IsStack (welcome n) s1 (n ∷ ws) stack, λ v. refl) in
    let (s2, top, stack2, kept) = window_top-IsStack t [] ws n welcomed.0 in
    let s' = if is_login wintype then call (need_login n) s2 else s2 in
    let asked : IsStack s' (n ∷ ws) × Kept s2 s' =
      if-both (λ u. IsStack u (n ∷ ws) × Kept s2 u) (is_login wintype) (call (need_login n) s2) s2
        (call-IsStack (need_login n) s2 (n ∷ ws) stack2, λ v. refl) (stack2, λ v. refl) in
    let self : (n == n) ≡ true = ground arith in
    let first : id_of (s1.allwindows n) ≡ (p.pid, wintype) = rw self refl in
    (
      s',
      rw top refl,
      asked.0,
      ids-Kept s2 s' asked.1 (n ∷ ws)
          ∙ (ids-Kept t s2 kept (n ∷ ws)
              ∙ (ids-Kept s1 t welcomed.1 (n ∷ ws) ∙ rw (first, ids-added s win ws h.listed) refl)),
    )

-- WindowCreate with a free slot and a process: the new window is at the front, above the others in
-- their order, and has the process and the type that were asked for; the answer is the number of windows.
pub window_create-IsStack :
    (maxw line : ℕ) (p : Session) (x y : ℤ) (wintype : WinType) (s : Windows) (ws : List ℕ)
    → IsStack s ws
    → s.closing_down ≡ false
    → s.numwindows < max_windows
    → (s' : Windows) × (window_create maxw line (some p) x y wintype s
        ≡ some (s.numwindows + 1, s'))
      × IsStack s' (s.numwindows ∷ ws)
      × (ids s' (s.numwindows ∷ ws) ≡ (p.pid, wintype) ∷ ids s ws)
unfolding window_create
window_create-IsStack maxw line p x y wintype s ws h closed fits =
    let room : ltb s.numwindows max_windows ≡ true = lt→ltb s.numwindows max_windows fits in
    let created : Option (ℕ × Windows) = (do
      n ← guarded (ltb s.numwindows max_windows) s.numwindows
      fill_slot maxw line (some p) n x y wintype s) in
    let (s', filled, stack, shown) = fill_slot-some maxw line p x y wintype s ws h in
    (
      s',
      ap (λ (b : Bool). if b then some (0, s) else created) closed ∙ (rw room filled),
      stack,
      shown,
    )
