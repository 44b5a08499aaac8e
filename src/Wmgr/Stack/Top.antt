-- ===== src/Wmgr/Stack/Top.antt =====
-- WindowTop of tek/wmgr/wmgr.c, on the list of the windows.
use tek.Base.{
  ℕ, zero, suc, ◌+◌, ◌<◌, ◌≡◌, ◌≢◌, refl, ap, ◌∙◌, true, false, Option, none, some, List, [], ◌∷◌,
  ◌++◌, All, All-append, length, length-append, ltb, lt→ltb, ◌==◌, arith,
}
use tek.Wmgr.Stack.{
  Window, Windows, set_next, unlink, to_front, find_window, is_ptr, call, set_clip, vt_blur,
  vt_focus, blur, make_dirty, validwin, window_top,
}
use tek.Wmgr.Stack.Chain.{
  IsChain, Distinct, IsStack, All-left, All-right, All-map, All-true, Distinct-parts, last_of,
  IsChain-frame, IsChain-unlink, next-set_next_ne, next-set_next_self, id_of, Kept, field-update,
  id-unlink,
}

-- The search comes to the window below `xs`.
find_window-to_front :
    (rounds : ℕ) (xs ys : List ℕ) (w : ℕ) (prev o : Option ℕ) (s : Windows)
    → IsChain s.allwindows o (xs ++ (w ∷ ys))
    → All (λ v. w ≢ v) xs
    → length xs < rounds
    → find_window rounds prev o w s ≡ some (to_front (last_of prev xs) w s)
unfolding find_window
find_window-to_front zero xs ys w prev o s h other enough = absurd (omega arith)
find_window-to_front (suc rounds) [] ys w prev o s h other enough =
    let here : (w == w) ≡ true = ground arith in rw (h.0, here) refl
find_window-to_front (suc rounds) (x ∷ xs) ys w prev o s h other enough =
    let past : (x == w) ≡ false = ground (arith, other.0) in
    rw (h.0, past)
      (find_window-to_front rounds xs ys w (some x) (s.allwindows x).next s h.1 other.1
        (omega arith))

-- Unlinked and put at the front.
front-IsChain :
    (f : ℕ → Window) (x : ℕ) (xs ys : List ℕ) (w : ℕ) (o : Option ℕ)
    → Distinct ((x ∷ xs) ++ (w ∷ ys))
    → IsChain f o ((x ∷ xs) ++ (w ∷ ys))
    → IsChain (set_next (unlink (last_of (some x) xs) w f) w o) (some w) (w ∷ ((x ∷ xs) ++ ys))
front-IsChain f x xs ys w o d h =
    let g : ℕ → Window = unlink (last_of (some x) xs) w f in
    let (above, below, rest) = Distinct-parts (x ∷ xs) ys w d in
    let chain : IsChain g o ((x ∷ xs) ++ ys) = IsChain-unlink f x xs ys w o d h in
    let others : All (λ v. w ≢ v) ((x ∷ xs) ++ ys) =
      All-append (λ v. w ≢ v) (x ∷ xs) ys above below in
    (
      refl,
      rw (next-set_next_self g w o) (
          IsChain-frame g (set_next g w o) o ((x ∷ xs) ++ ys)
            (All-map (λ v. w ≢ v) (λ v. (set_next g w o v).next ≡ (g v).next)
              (λ v ne. next-set_next_ne g w v o ne) ((x ∷ xs) ++ ys) others)
            chain),
    )

-- What is drawn of a window does not move it.
make_dirty-IsStack :
    (s : Windows) (w : ℕ) (ws : List ℕ) → IsStack s ws → IsStack (make_dirty w s) ws
make_dirty-IsStack s w ws h =
    let f = (make_dirty w s).allwindows in
    record {
      chain =
          IsChain-frame s.allwindows f s.wintopmost ws
            (All-true (λ v. (f v).next ≡ (s.allwindows v).next)
              (λ v. field-update (λ win. win.next) s.allwindows w v _ refl) ws)
            h.chain;
      distinct = h.distinct;
      listed = h.listed;
      all = h.all;
    }

to_front-IsStack :
    (s : Windows) (x : ℕ) (xs ys : List ℕ) (w : ℕ)
    → IsStack s ((x ∷ xs) ++ (w ∷ ys))
    → IsStack (to_front (last_of (some x) xs) w s) (w ∷ ((x ∷ xs) ++ ys))
unfolding to_front
to_front-IsStack s x xs ys w h =
    let (above, below, rest) = Distinct-parts (x ∷ xs) ys w h.distinct in
    let here : All (λ v. v < s.numwindows) (w ∷ ys) =
      All-right (λ v. v < s.numwindows) (x ∷ xs) (w ∷ ys) h.listed in
    let len = length-append (x ∷ xs) (w ∷ ys) in
    let len' = length-append (x ∷ xs) ys in
    record {
      chain = front-IsChain s.allwindows x xs ys w s.wintopmost h.distinct h.chain;
      distinct = (All-append (λ v. w ≢ v) (x ∷ xs) ys above below, rest);
      listed = (
        here.0,
        All-append (λ v. v < s.numwindows) (x ∷ xs) ys
            (All-left (λ v. v < s.numwindows) (x ∷ xs) (w ∷ ys) h.listed) here.1,
      );
      all = omega (arith, len, len', h.all);
    }

to_front-Kept :
    (s : Windows) (prev : Option ℕ) (w : ℕ)
    → Kept s (make_dirty w (call (vt_focus w) (to_front prev w s)))
unfolding to_front
to_front-Kept s prev w v =
    let g : ℕ → Window = unlink prev w s.allwindows in
    let f : ℕ → Window = set_next g w s.wintopmost in
    field-update id_of f w v _ refl
    ∙ (field-update id_of g w v _ refl ∙ id-unlink s.allwindows prev w v)

-- WindowTop on a window of the list: it ends, the window is then at the front, and the others are as
-- they were, each still in the list once.
pub window_top-IsStack :
    (s : Windows) (xs ys : List ℕ) (w : ℕ)
    → IsStack s (xs ++ (w ∷ ys))
    → (s' : Windows) × (window_top w s ≡ some (true, s')) × IsStack s' (w ∷ (xs ++ ys)) × Kept s s'
unfolding window_top validwin
window_top-IsStack s [] ys w h =
    let valid : ltb w s.numwindows ≡ true = lt→ltb w s.numwindows h.listed.0 in
    let here : (w == w) ≡ true = ground arith in
    (
      call (set_clip (s.allwindows w).windowrect) s,
      rw (valid, h.chain.0, here) refl,
      record { chain = h.chain; distinct = h.distinct; listed = h.listed; all = h.all },
      λ v. refl,
    )
window_top-IsStack s (x ∷ xs) ys w h =
    let here : All (λ v. v < s.numwindows) (w ∷ ys) =
      All-right (λ v. v < s.numwindows) (x ∷ xs) (w ∷ ys) h.listed in
    let valid : ltb w s.numwindows ≡ true = lt→ltb w s.numwindows here.0 in
    let (above, below, rest) = Distinct-parts (x ∷ xs) ys w h.distinct in
    let other : (x == w) ≡ false = ground (arith, above.0) in
    let not_top : is_ptr s.wintopmost w ≡ false = ap (λ o. is_ptr o w) h.chain.0 ∙ other in
    let s1 : Windows = call (vt_blur x) s in
    let off : blur s.wintopmost s ≡ s1 = ap (λ o. blur o s) h.chain.0 in
    let blurred : IsStack s1 ((x ∷ xs) ++ (w ∷ ys)) = record {
      chain = h.chain;
      distinct = h.distinct;
      listed = h.listed;
      all = h.all;
    } in
    let found =
      find_window-to_front (s1.numwindows + 1) (x ∷ xs) ys w none s.wintopmost s1 h.chain above
        (omega (arith, length-append (x ∷ xs) (w ∷ ys), h.all)) in
    let moved = to_front-IsStack s1 x xs ys w blurred in
    let drawn =
      make_dirty-IsStack (call (vt_focus w) (to_front (last_of (some x) xs) w s1)) w
        (w ∷ ((x ∷ xs) ++ ys))
        (record {
          chain = moved.chain;
          distinct = moved.distinct;
          listed = moved.listed;
          all = moved.all;
        }) in
    let front : Windows = make_dirty w (call (vt_focus w) (to_front (last_of (some x) xs) w s1)) in
    (
      call (set_clip (front.allwindows w).windowrect) front,
      rw (valid, not_top, off, found) refl,
      record {
        chain = drawn.chain;
        distinct = drawn.distinct;
        listed = drawn.listed;
        all = drawn.all;
      },
      to_front-Kept s1 (last_of (some x) xs) w,
    )
