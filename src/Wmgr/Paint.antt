-- ===== src/Wmgr/Paint.antt =====
-- Paint of tek/wmgr/wmgr.c, and RectAreasOutside and RectIntersect of tek_graphics.c. A coordinate is a
-- `short` and stands here for its distance from -2^15; a width or height that the code makes negative
-- is 0, since all that is done with it then is the test `> 0`.
use tek.Base.{
  ℕ, zero, suc, ◌+◌, ◌-◌, ◌^◌, ◌%◌, Bool, true, false, ◌&&◌, not, Option, none, some, List, [], ◌∷◌,
  ◌++◌, ltb, leb, if◌then◌else◌, ◌>>=◌,
}
use tek.Base.Int.{ℤ, pos, negsuc}
use tek.Wmgr.Rect.{Rect}
use tek.Wmgr.Stack.{Window, Windows, validwin}
pub mod Span
pub mod Outside
pub mod Regions
pub mod Owner

pub record Area : Type 0 where
  pub x : ℕ
  pub y : ℕ
  pub w : ℕ
  pub h : ℕ

abbrev pub origin : ℕ
origin = 2 ^ 15

abbrev pub shorts : ℕ
shorts = 2 ^ 16

abbrev pub coordinate : ℤ → ℕ
coordinate (pos n) = (origin + n) % shorts
coordinate (negsuc n) = origin - (n + 1)

abbrev pub extent : ℤ → ℕ
extent (pos n) = n
extent (negsuc n) = 0

abbrev pub area_of : Rect → Area
area_of r = record { x = coordinate r.x; y = coordinate r.y; w = extent r.w; h = extent r.h }

abbrev pub min : ℕ → ℕ → ℕ
min a b = if ltb a b then a else b

abbrev pub max : ℕ → ℕ → ℕ
max a b = if ltb b a then a else b

-- `a - b` in a `short`, which is wrapped around when it is too far from 0.
unfoldable pub difference : ℕ → ℕ → ℕ
difference a b =
    if leb b a
    then (if ltb (a - b) origin then a - b else 0)
    else (if leb (b - a) origin then 0 else shorts - (b - a))

unfoldable pub left : Area → Area → List Area × Area
left r1 rect2 =
    if ltb r1.x rect2.x
    then (
      record r1 { w = min r1.w (rect2.x - r1.x) } ∷ [],
      record r1 { w = difference r1.w (rect2.x - r1.x); x = rect2.x },
    )
    else ([], r1)

unfoldable pub above : Area → Area → List Area × Area
above r1 rect2 =
    if ltb r1.y rect2.y
    then (
      record r1 { h = min r1.h (rect2.y - r1.y) } ∷ [],
      record r1 { h = difference r1.h (rect2.y - r1.y); y = rect2.y },
    )
    else ([], r1)

unfoldable pub right : Area → Area → List Area × Area
right r1 rect2 =
    let x = max r1.x (rect2.x + rect2.w) % shorts in
    if ltb (rect2.x + rect2.w) (r1.x + r1.w)
    then (
      record r1 { x = x; w = difference (r1.x + r1.w) x } ∷ [],
      record r1 { w = difference r1.w ((r1.x + r1.w) - (rect2.x + rect2.w)) },
    )
    else ([], r1)

-- What the source then does to `r1.h` is not used.
unfoldable pub under : Area → Area → List Area
under r1 rect2 =
    let y = max r1.y (rect2.y + rect2.h) % shorts in
    if ltb (rect2.y + rect2.h) (r1.y + r1.h)
    then record r1 { y = y; h = difference (r1.y + r1.h) y } ∷ []
    else []

abbrev pub filled : Area → Bool
filled r = ltb 0 r.w && ltb 0 r.h

unfoldable pub rect_areas_outside : Area → Area → List Area
unfolding left above right under
rect_areas_outside rect1 rect2 =
    let (at_left, r1) = left rect1 rect2 in
    let (over, r2) = if filled r1 then above r1 rect2 else ([], r1) in
    let (at_right, r3) = if filled r2 then right r2 rect2 else ([], r2) in
    let below = if filled r3 then under r3 rect2 else [] in at_left ++ (over ++ (at_right ++ below))

unfoldable pub rect_intersect : Area → Area → Area
rect_intersect rect1 rect2 =
    let x = max rect1.x rect2.x in
    let y = max rect1.y rect2.y in
    record {
      x = x;
      y = y;
      w = difference (min (rect1.x + rect1.w) (rect2.x + rect2.w)) x;
      h = difference (min (rect1.y + rect1.h) (rect2.y + rect2.h)) y;
    }

-- What is drawn: the desktop in an area, or a window clipped to it. The clip that the caller of Paint
-- has set, which cuts the desktop too, is left out.
pub record Drawn : Type 0 where
  pub owner : Option ℕ
  pub clip : Area

unfoldable pub paint_self : ℕ → Area → Area → List Drawn
unfolding rect_intersect
paint_self win r frame =
    let overlap = rect_intersect r frame in
    if filled overlap then record { owner = some win; clip = overlap } ∷ [] else []

-- `for(i=0; i<quadrect.next; i++)`
unfoldable pub for_each : (Area → Option (List Drawn)) → List Area → Option (List Drawn)
for_each f [] = some []
for_each f (r ∷ rs) = do drawn ← f r; rest ← for_each f rs; some (drawn ++ rest)

-- `rounds` bounds the windows that are passed, one with each call that goes down.
unfoldable pub paint : ℕ → Option ℕ → Area → Windows → Option (List Drawn)
paint rounds none r s = some (record { owner = none; clip = r } ∷ [])
paint zero (some win) r s = none
paint (suc rounds) (some win) r s =
    let frame = area_of (s.allwindows win).windowrect in
    let painted = (do
      below ← for_each (λ q. paint rounds (s.allwindows win).next q s) (rect_areas_outside r frame)
      some (below ++ paint_self win r frame)) in
    if not (validwin win s) then some [] else painted
