-- ===== src/Wmgr/Paint/Owner.antt =====
-- Paint of tek/wmgr/wmgr.c, point by point.
use tek.Base.{
  ℕ, zero, suc, ◌+◌, ◌≤◌, ◌<◌, ◌≡◌, refl, sym, ap, ◌∙◌, Bool, true, false, ◌&&◌, not, Option, none,
  some, List, [], ◌∷◌, ◌++◌, append_assoc, append-nil, All, length, ltb, lt→ltb, if◌then◌else◌,
  Bool-cases, inl, inr, arith,
}
use tek.Wmgr.Stack.{Windows, validwin}
use tek.Wmgr.Stack.Chain.{IsChain}
use tek.Wmgr.Paint.{
  Area, area_of, filled, rect_intersect, rect_areas_outside, Drawn, paint_self, for_each, paint,
}
use tek.Wmgr.Paint.Span.{in_span, in_span-shared}
use tek.Wmgr.Paint.Outside.{contains, hits, NearArea, one}
use tek.Wmgr.Paint.Regions.{contains-filled, hits-rect_areas_outside}

abbrev pub frame_of : Windows → ℕ → Area
frame_of s w = area_of (s.allwindows w).windowrect

-- Whom a point is drawn for, in the order of the drawing.
unfoldable pub painters : List Drawn → ℕ → ℕ → List (Option ℕ)
painters [] px py = []
painters (d ∷ ds) px py = (if contains d.clip px py then d.owner ∷ [] else []) ++ painters ds px py

-- The first window of a list that a point is in; the desktop, `none`, when there is none.
unfoldable pub owner_at : Windows → List ℕ → ℕ → ℕ → Option ℕ
owner_at s [] px py = none
owner_at s (w ∷ ws) px py = if contains (frame_of s w) px py then some w else owner_at s ws px py

unfoldable copies : ℕ → Option ℕ → List (Option ℕ)
copies zero o = []
copies (suc n) o = o ∷ copies n o

painters-append :
    (ds es : List Drawn) (px py : ℕ)
    → painters (ds ++ es) px py ≡ painters ds px py ++ painters es px py
unfolding painters
painters-append [] es px py = refl
painters-append (d ∷ ds) es px py =
    let here : List (Option ℕ) = if contains d.clip px py then d.owner ∷ [] else [] in
    ap (λ t. here ++ t) (painters-append ds es px py)
    ∙ sym (append_assoc here (painters ds px py) (painters es px py))

copies-one :
    (b : Bool) (n : ℕ) (o : Option ℕ)
    → (if b then o ∷ [] else []) ++ copies n o ≡ copies (one b + n) o
unfolding copies
copies-one true n o = let k : 1 + n ≡ suc n = omega arith in rw k refl
copies-one false n o = let k : 0 + n ≡ n = omega arith in rw k refl

-- What is drawn for one area.
abbrev DrawnFor : List Drawn → Area → (ℕ → ℕ → Option ℕ) → Type 0
DrawnFor ds r own =
    (px py : ℕ) → painters ds px py ≡ (if contains r px py then own px py ∷ [] else [])

for_each-painters :
    (f : Area → Option (List Drawn)) (own : ℕ → ℕ → Option ℕ) (rs : List Area)
    → ((q : Area) → NearArea q → (ds : List Drawn) × (f q ≡ some ds) × DrawnFor ds q own)
    → All NearArea rs
    → (ds : List Drawn) × (for_each f rs ≡ some ds)
      × ((px py : ℕ) → painters ds px py ≡ copies (hits rs px py) (own px py))
unfolding for_each painters hits copies
for_each-painters f own [] h near = ([], refl, λ px py. refl)
for_each-painters f own (r ∷ rs) h near =
    let (ds, first, drawn) = h r near.0 in
    let (es, rest, others) = for_each-painters f own rs h near.1 in
    (
      ds ++ es,
      rw (first, rest) refl,
      λ px py.
          painters-append ds es px py
          ∙ rw (drawn px py, others px py)
              (copies-one (contains r px py) (hits rs px py) (own px py)),
    )

swap_and : (a b c d : Bool) → (a && c) && (b && d) ≡ (a && b) && (c && d)
swap_and true true c d = refl
swap_and true false true d = refl
swap_and true false false d = refl
swap_and false b c d = refl

overlap-contains :
    (r frame : Area) (px py : ℕ)
    → NearArea r
    → NearArea frame
    → contains (rect_intersect r frame) px py ≡ contains r px py && contains frame px py
unfolding rect_intersect contains
overlap-contains r frame px py near near2 =
    rw
      (
        in_span-shared r.x r.w frame.x frame.w px near.0 near2.0,
        in_span-shared r.y r.h frame.y frame.h py near.1 near2.1,
      )
      (swap_and (in_span r.x r.w px) (in_span r.y r.h py) (in_span frame.x frame.w px)
        (in_span frame.y frame.h py))

paint_self-painters :
    (w : ℕ) (r frame : Area) (px py : ℕ)
    → NearArea r
    → NearArea frame
    → painters (paint_self w r frame) px py
      ≡ (if contains r px py && contains frame px py then some w ∷ [] else [])
unfolding paint_self painters
paint_self-painters w r frame px py near near2 =
    let overlap = rect_intersect r frame in
    let inside = overlap-contains r frame px py near near2 in
    elim (Bool-cases (filled overlap)) [
      | inl e ↦
          rw (e, inside)
            (append-nil (if contains r px py && contains frame px py then some w ∷ [] else []))
      | inr e ↦
          let off : contains r px py && contains frame px py ≡ false =
            sym inside ∙ contains-filled overlap px py e in
          rw (e, off) refl
    ]

once :
    (m f : Bool) (o : Option ℕ) (w : ℕ)
    → copies (one (m && not f)) o ++ (if m && f then some w ∷ [] else [])
      ≡ (if m then (if f then some w else o) ∷ [] else [])
unfolding copies
once true true o w = refl
once true false o w = refl
once false f o w = refl

-- Paint of an area, from a pointer into the list of the windows on: it ends, with as many windows
-- passed as are left in the list, and each point of the area is drawn exactly once, for the first
-- window from there on that it is in, and for the desktop when it is in none. No other point is drawn.
-- The rectangles lie between -2^14 and 2^14.
pub paint-owner :
    (s : Windows) (ws : List ℕ) (rounds : ℕ) (o : Option ℕ) (r : Area)
    → IsChain s.allwindows o ws
    → All (λ w. w < s.numwindows) ws
    → All (λ w. NearArea (frame_of s w)) ws
    → NearArea r
    → length ws ≤ rounds
    → (ds : List Drawn) × (paint rounds o r s ≡ some ds)
      × ((px py : ℕ)
          → painters ds px py ≡ (if contains r px py then owner_at s ws px py ∷ [] else []))
unfolding paint owner_at painters validwin
paint-owner s [] rounds o r h low frames near enough = (
  record { owner = none; clip = r } ∷ [],
  rw h refl,
  λ px py. append-nil (if contains r px py then none ∷ [] else []),
)
paint-owner s (w ∷ ws) zero o r h low frames near enough = absurd (omega (arith, enough))
paint-owner s (w ∷ ws) (suc rounds) o r h low frames near enough =
    let frame = frame_of s w in
    let valid : ltb w s.numwindows ≡ true = lt→ltb w s.numwindows low.0 in
    let next = (s.allwindows w).next in
    let (ds, each, drawn) =
      for_each-painters (λ q. paint rounds next q s) (owner_at s ws) (rect_areas_outside r frame)
        (λ q near_q.
          paint-owner s ws rounds next q h.1 low.1 frames.1 near_q (omega (arith, enough)))
        (hits-rect_areas_outside r frame 0 0 near frames.0).1 in
    (
      ds ++ paint_self w r frame,
      rw (h.0, valid, each) refl,
      λ px py.
          painters-append ds (paint_self w r frame) px py
          ∙ rw
              (
                drawn px py,
                (hits-rect_areas_outside r frame px py near frames.0).0,
                paint_self-painters w r frame px py near frames.0,
              )
              (once (contains r px py) (contains frame px py) (owner_at s ws px py) w),
    )
