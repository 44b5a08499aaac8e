-- ===== src/Wmgr/Paint/Outside.antt =====
-- The four steps of RectAreasOutside of tek_graphics.c, point by point.
use tek.Base.{
  ℕ, ◌+◌, ◌-◌, ◌%◌, ◌≡◌, refl, ap, ◌∙◌, Bool, true, false, ◌&&◌, not, List, [], ◌∷◌, ◌++◌, ltb, leb,
  if◌then◌else◌, Bool-cases, &&-left, &&-right, inl, inr, arith,
}
use tek.Wmgr.Paint.{Area, min, max, left, above, right, under}
use tek.Wmgr.Paint.Span.{
  in_span, Near, difference-near, in_span-left, in_span-left_rest, in_span-right,
  in_span-right_rest, in_span-from_left, in_span-to_right, max-fits, difference-end,
}

unfoldable pub contains : Area → ℕ → ℕ → Bool
contains r px py = in_span r.x r.w px && in_span r.y r.h py

-- In how many of the areas a point is.
unfoldable pub hits : List Area → ℕ → ℕ → ℕ
hits [] px py = 0
hits (r ∷ rs) px py = (if contains r px py then 1 else 0) + hits rs px py

abbrev pub NearArea : Area → Type 0
NearArea r = Near r.x r.w × Near r.y r.h

pub hits-append :
    (rs ts : List Area) (px py : ℕ) → hits (rs ++ ts) px py ≡ hits rs px py + hits ts px py
unfolding hits
hits-append [] ts px py = omega arith
hits-append (r ∷ rs) ts px py = omega (arith, hits-append rs ts px py)

abbrev pub one : Bool → ℕ
one b = if b then 1 else 0

-- A rectangle is split into what is put apart and the rest, which has the points that are kept.
abbrev pub Split : Area → List Area → Area → Bool → ℕ → ℕ → Type 0
Split r parts rest kept px py =
    (contains rest px py ≡ contains r px py && kept)
    × (hits parts px py ≡ one (contains r px py && not kept))

and_x : (a b c : Bool) → (a && b) && c ≡ (a && c) && b
and_x true true true = refl
and_x true true false = refl
and_x true false true = refl
and_x true false false = refl
and_x false b c = refl

and_y : (a b c : Bool) → a && (b && c) ≡ (a && b) && c
and_y true b c = refl
and_y false b c = refl

hits-one : (r : Area) (px py : ℕ) → hits (r ∷ []) px py ≡ one (contains r px py)
unfolding hits
hits-one r px py = omega arith

cut_x :
    (r : Area) (xa wa xb wb px py : ℕ) (k : Bool)
    → in_span xa wa px ≡ in_span r.x r.w px && not k
    → in_span xb wb px ≡ in_span r.x r.w px && k
    → Split r (record r { x = xa; w = wa } ∷ []) (record r { x = xb; w = wb }) k px py
unfolding contains
cut_x r xa wa xb wb px py k apart rest = (
  rw rest (and_x (in_span r.x r.w px) k (in_span r.y r.h py)),
  hits-one (record r { x = xa; w = wa }) px py
      ∙ ap one (rw apart (and_x (in_span r.x r.w px) (not k) (in_span r.y r.h py))),
)

cut_y :
    (r : Area) (ya ha yb hb px py : ℕ) (k : Bool)
    → in_span ya ha py ≡ in_span r.y r.h py && not k
    → in_span yb hb py ≡ in_span r.y r.h py && k
    → Split r (record r { y = ya; h = ha } ∷ []) (record r { y = yb; h = hb }) k px py
unfolding contains
cut_y r ya ha yb hb px py k apart rest = (
  rw rest (and_y (in_span r.x r.w px) (in_span r.y r.h py) k),
  hits-one (record r { y = ya; h = ha }) px py
      ∙ ap one (rw apart (and_y (in_span r.x r.w px) (in_span r.y r.h py) (not k))),
)

pub none_lost : (m k : Bool) → (m ≡ true → k ≡ true) → (m ≡ m && k) × (0 ≡ one (m && not k))
none_lost true k h = let e = h refl in rw e (refl, refl)
none_lost false k h = (refl, refl)

no_cut :
    (r : Area) (px py : ℕ) (k : Bool) → (contains r px py ≡ true → k ≡ true) → Split r [] r k px py
unfolding hits
no_cut r px py k h = none_lost (contains r px py) k h

contains_x : (r : Area) (px py : ℕ) → contains r px py ≡ true → in_span r.x r.w px ≡ true
unfolding contains
contains_x r px py h = &&-left (in_span r.x r.w px) (in_span r.y r.h py) h

contains_y : (r : Area) (px py : ℕ) → contains r px py ≡ true → in_span r.y r.h py ≡ true
unfolding contains
contains_y r px py h = &&-right (in_span r.x r.w px) (in_span r.y r.h py) h

pub left-Split :
    (r rect2 : Area) (px py : ℕ)
    → NearArea r
    → NearArea rect2
    → Split r (left r rect2).0 (left r rect2).1 (leb rect2.x px) px py
unfolding left
left-Split r rect2 px py near near2 = elim (Bool-cases (ltb r.x rect2.x)) [
  | inl e ↦
      let d =
        difference-near r.w (rect2.x - r.x) (omega (arith, near.0))
          (omega (arith, near.0, near2.0)) in
      rw (e, d)
        (cut_x r r.x (min r.w (rect2.x - r.x)) rect2.x (r.w - (rect2.x - r.x)) px py
          (leb rect2.x px) (in_span-left r.x r.w rect2.x px e)
          (in_span-left_rest r.x r.w rect2.x px e))
  | inr e ↦ rw e (
      no_cut r px py (leb rect2.x px)
        (λ h. in_span-from_left r.x r.w rect2.x px e (contains_x r px py h)))
]

pub above-Split :
    (r rect2 : Area) (px py : ℕ)
    → NearArea r
    → NearArea rect2
    → Split r (above r rect2).0 (above r rect2).1 (leb rect2.y py) px py
unfolding above
above-Split r rect2 px py near near2 = elim (Bool-cases (ltb r.y rect2.y)) [
  | inl e ↦
      let d =
        difference-near r.h (rect2.y - r.y) (omega (arith, near.1))
          (omega (arith, near.1, near2.1)) in
      rw (e, d)
        (cut_y r r.y (min r.h (rect2.y - r.y)) rect2.y (r.h - (rect2.y - r.y)) px py
          (leb rect2.y py) (in_span-left r.y r.h rect2.y py e)
          (in_span-left_rest r.y r.h rect2.y py e))
  | inr e ↦ rw e (
      no_cut r px py (leb rect2.y py)
        (λ h. in_span-from_left r.y r.h rect2.y py e (contains_y r px py h)))
]

pub right-Split :
    (r rect2 : Area) (px py : ℕ)
    → NearArea r
    → NearArea rect2
    → Split r (right r rect2).0 (right r rect2).1 (ltb px (rect2.x + rect2.w)) px py
unfolding right
right-Split r rect2 px py near near2 =
    let end = rect2.x + rect2.w in
    elim (Bool-cases (ltb end (r.x + r.w))) [
      | inl e ↦
          let d =
            difference-near r.w ((r.x + r.w) - end) (omega (arith, near.0))
              (omega (arith, near.0, near2.0)) in
          let fits : max r.x end % 65536 ≡ max r.x end = max-fits r.x r.w end near.0 e in
          let width = difference-end r.x r.w end near.0 e in
          rw (e, d, fits, width)
            (cut_x r (max r.x end) ((r.x + r.w) - max r.x end) r.x (r.w - ((r.x + r.w) - end)) px py
              (ltb px end) (in_span-right r.x r.w end px e) (in_span-right_rest r.x r.w end px e))
      | inr e ↦ rw e (
          no_cut r px py (ltb px end)
            (λ h. in_span-to_right r.x r.w end px e (contains_x r px py h)))
    ]

pub under-hits :
    (r rect2 : Area) (px py : ℕ)
    → NearArea r
    → hits (under r rect2) px py ≡ one (contains r px py && not (ltb py (rect2.y + rect2.h)))
unfolding under
under-hits r rect2 px py near =
    let end = rect2.y + rect2.h in
    elim (Bool-cases (ltb end (r.y + r.h))) [
      | inl e ↦
          let fits : max r.y end % 65536 ≡ max r.y end = max-fits r.y r.h end near.1 e in
          let height = difference-end r.y r.h end near.1 e in
          let cut =
            cut_y r (max r.y end) ((r.y + r.h) - max r.y end) r.y (r.h - ((r.y + r.h) - end)) px py
              (ltb py end) (in_span-right r.y r.h end py e) (in_span-right_rest r.y r.h end py e) in
          rw (e, fits, height) cut.1
      | inr e ↦
          let kept =
            no_cut r px py (ltb py end)
              (λ h. in_span-to_right r.y r.h end py e (contains_y r px py h)) in
          rw e kept.1
    ]
