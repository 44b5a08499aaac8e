-- ===== src/Wmgr/Paint/Regions.antt =====
-- RectAreasOutside of tek_graphics.c as a whole.
use tek.Base.{
  ℕ, ◌+◌, ◌-◌, ◌%◌, ◌≡◌, refl, Bool, true, false, ◌&&◌, not, List, [], ◌++◌, All, All-append, ltb,
  leb, if◌then◌else◌, Bool-cases, inl, inr, arith,
}
use tek.Wmgr.Paint.{Area, max, left, above, right, under, filled, rect_areas_outside}
use tek.Wmgr.Paint.Span.{
  in_span, difference-near, max-fits, difference-end, Near-left, Near-left_rest, Near-right,
  Near-shorter,
}
use tek.Wmgr.Paint.Outside.{
  contains, hits, hits-append, NearArea, one, Split, left-Split, above-Split, right-Split,
  under-hits,
}

empty_span : (x p : ℕ) → in_span x 0 p ≡ false
empty_span x p = ground arith

-- A point of an area of no width or height: there is none.
pub contains-filled : (r : Area) (px py : ℕ) → filled r ≡ false → contains r px py ≡ false
unfolding contains
contains-filled r px py h = ground (arith, h)

if-Split :
    (r : Area) (step : List Area × Area) (k : Bool) (px py : ℕ)
    → Split r step.0 step.1 k px py
    → Split r (if filled r then step else ([], r)).0 (if filled r then step else ([], r)).1 k px py
unfolding hits
if-Split r step k px py h = elim (Bool-cases (filled r)) [
  | inl e ↦ rw e h
  | inr e ↦ let off = contains-filled r px py e in rw (e, off) (refl, refl)
]

left-near :
    (r rect2 : Area)
    → NearArea r
    → NearArea rect2
    → NearArea (left r rect2).1 × All NearArea (left r rect2).0
unfolding left
left-near r rect2 near near2 = elim (Bool-cases (ltb r.x rect2.x)) [
  | inl e ↦
      let d =
        difference-near r.w (rect2.x - r.x) (omega (arith, near.0))
          (omega (arith, near.0, near2.0)) in
      rw (e, d)
        (
          (Near-left_rest r.x r.w rect2.x rect2.w near.0 near2.0, near.1),
          ((Near-left r.x r.w rect2.x near.0, near.1), tt),
        )
  | inr e ↦ rw e (near, tt)
]

above-near :
    (r rect2 : Area)
    → NearArea r
    → NearArea rect2
    → NearArea (above r rect2).1 × All NearArea (above r rect2).0
unfolding above
above-near r rect2 near near2 = elim (Bool-cases (ltb r.y rect2.y)) [
  | inl e ↦
      let d =
        difference-near r.h (rect2.y - r.y) (omega (arith, near.1))
          (omega (arith, near.1, near2.1)) in
      rw (e, d)
        (
          (near.0, Near-left_rest r.y r.h rect2.y rect2.h near.1 near2.1),
          ((near.0, Near-left r.y r.h rect2.y near.1), tt),
        )
  | inr e ↦ rw e (near, tt)
]

right-near :
    (r rect2 : Area)
    → NearArea r
    → NearArea rect2
    → NearArea (right r rect2).1 × All NearArea (right r rect2).0
unfolding right
right-near r rect2 near near2 =
    let end = rect2.x + rect2.w in
    elim (Bool-cases (ltb end (r.x + r.w))) [
      | inl e ↦
          let d =
            difference-near r.w ((r.x + r.w) - end) (omega (arith, near.0))
              (omega (arith, near.0, near2.0)) in
          let fits : max r.x end % 65536 ≡ max r.x end = max-fits r.x r.w end near.0 e in
          let width = difference-end r.x r.w end near.0 e in
          rw (e, d, fits, width)
            (
              (Near-shorter r.x r.w ((r.x + r.w) - end) near.0, near.1),
              ((Near-right r.x r.w end near.0 e, near.1), tt),
            )
      | inr e ↦ rw e (near, tt)
    ]

under-near : (r rect2 : Area) → NearArea r → All NearArea (under r rect2)
unfolding under
under-near r rect2 near =
    let end = rect2.y + rect2.h in
    elim (Bool-cases (ltb end (r.y + r.h))) [
      | inl e ↦
          let fits : max r.y end % 65536 ≡ max r.y end = max-fits r.y r.h end near.1 e in
          let height = difference-end r.y r.h end near.1 e in
          rw (e, fits, height) ((near.0, Near-right r.y r.h end near.1 e), tt)
      | inr e ↦ rw e tt
    ]

if-near :
    (r : Area) (step : List Area × Area)
    → NearArea r
    → NearArea step.1 × All NearArea step.0
    → NearArea (if filled r then step else ([], r)).1
      × All NearArea (if filled r then step else ([], r)).0
if-near r step near h = elim (Bool-cases (filled r)) [ inl e ↦ rw e h | inr e ↦ rw e (near, tt) ]

total :
    (m a b c d : Bool)
    → one (m && not a)
        + (one ((m && a) && not c)
            + (one (((m && a) && c) && not b) + one ((((m && a) && c) && b) && not d)))
      ≡ one (m && not ((a && b) && (c && d)))
total false a b c d = refl
total true false b c d = refl
total true true false false d = refl
total true true true false d = refl
total true true false true d = refl
total true true true true false = refl
total true true true true true = refl

if-hits :
    (r : Area) (parts : List Area) (k : Bool) (px py : ℕ)
    → hits parts px py ≡ one (contains r px py && not k)
    → hits (if filled r then parts else []) px py ≡ one (contains r px py && not k)
unfolding hits
if-hits r parts k px py h = elim (Bool-cases (filled r)) [
  | inl e ↦ rw e h
  | inr e ↦ let off = contains-filled r px py e in rw (e, off) refl
]

if-All :
    (r : Area) (parts : List Area)
    → All NearArea parts
    → All NearArea (if filled r then parts else [])
if-All r parts h = elim (Bool-cases (filled r)) [ inl e ↦ rw e h | inr e ↦ rw e tt ]

four_steps :
    (r r1 r2 r3 : Area) (ps qs ts us : List Area) (a b c d : Bool) (px py : ℕ)
    → Split r ps r1 a px py
    → Split r1 qs r2 c px py
    → Split r2 ts r3 b px py
    → hits us px py ≡ one (contains r3 px py && not d)
    → hits (ps ++ (qs ++ (ts ++ us))) px py ≡ one (contains r px py && not ((a && b) && (c && d)))
four_steps r r1 r2 r3 ps qs ts us a b c d px py s1 s2 s3 h4 =
    rw
      (
        hits-append ps (qs ++ (ts ++ us)) px py,
        hits-append qs (ts ++ us) px py,
        hits-append ts us px py,
        s1.1,
        s2.1,
        s3.1,
        h4,
        s3.0,
        s2.0,
        s1.0,
      )
      (total (contains r px py) a b c d)

-- Each point that is in `r` and not in `rect2` is in one of the areas and in one only; no other point
-- is in any. The rectangles lie between -2^14 and 2^14.
pub hits-rect_areas_outside :
    (r rect2 : Area) (px py : ℕ)
    → NearArea r
    → NearArea rect2
    → (hits (rect_areas_outside r rect2) px py
        ≡ one (contains r px py && not (contains rect2 px py)))
      × All NearArea (rect_areas_outside r rect2)
unfolding rect_areas_outside contains
hits-rect_areas_outside r rect2 px py near near2 =
    let a = leb rect2.x px in
    let b = ltb px (rect2.x + rect2.w) in
    let c = leb rect2.y py in
    let d = ltb py (rect2.y + rect2.h) in
    let p1 = left r rect2 in
    let n1 = left-near r rect2 near near2 in
    let s1 = left-Split r rect2 px py near near2 in
    let p2 = if filled p1.1 then above p1.1 rect2 else ([], p1.1) in
    let n2 = if-near p1.1 (above p1.1 rect2) n1.0 (above-near p1.1 rect2 n1.0 near2) in
    let s2 = if-Split p1.1 (above p1.1 rect2) c px py (above-Split p1.1 rect2 px py n1.0 near2) in
    let p3 = if filled p2.1 then right p2.1 rect2 else ([], p2.1) in
    let n3 = if-near p2.1 (right p2.1 rect2) n2.0 (right-near p2.1 rect2 n2.0 near2) in
    let s3 = if-Split p2.1 (right p2.1 rect2) b px py (right-Split p2.1 rect2 px py n2.0 near2) in
    let p4 = if filled p3.1 then under p3.1 rect2 else [] in
    let h4 = if-hits p3.1 (under p3.1 rect2) d px py (under-hits p3.1 rect2 px py n3.0) in
    let n4 = if-All p3.1 (under p3.1 rect2) (under-near p3.1 rect2 n3.0) in
    (
      four_steps r p1.1 p2.1 p3.1 p1.0 p2.0 p3.0 p4 a b c d px py s1 s2 s3 h4,
      All-append NearArea p1.0 (p2.0 ++ (p3.0 ++ p4)) n1.1
          (All-append NearArea p2.0 (p3.0 ++ p4) n2.1 (All-append NearArea p3.0 p4 n3.1 n4)),
    )
