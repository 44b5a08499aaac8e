-- ===== src/Wmgr/Paint/Span.antt =====
-- The arithmetic of the areas of tek_graphics.c, one axis at a time.
use tek.Base.{ℕ, ◌+◌, ◌-◌, ◌%◌, ◌≤◌, ◌<◌, ◌≡◌, Bool, true, false, ◌&&◌, not, ltb, leb, arith}
use tek.Wmgr.Paint.{min, max, difference}

abbrev pub in_span : ℕ → ℕ → ℕ → Bool
in_span x w p = leb x p && ltb p (x + w)

-- Between -2^14 and 2^14: the difference of two such numbers is a `short`.
abbrev pub Near : ℕ → ℕ → Type 0
Near x w = (16384 ≤ x) × (x + w ≤ 49151)

pub difference-near : (a b : ℕ) → a < b + 32768 → b < a + 32768 → difference a b ≡ a - b
unfolding difference
difference-near a b small near = ground arith

pub in_span-left :
    (x w x2 p : ℕ)
    → ltb x x2 ≡ true
    → in_span x (min w (x2 - x)) p ≡ in_span x w p && not (leb x2 p)
in_span-left x w x2 p h = ground (arith, h)

pub in_span-left_rest :
    (x w x2 p : ℕ) → ltb x x2 ≡ true → in_span x2 (w - (x2 - x)) p ≡ in_span x w p && leb x2 p
in_span-left_rest x w x2 p h = ground (arith, h)

pub in_span-right :
    (x w e p : ℕ)
    → ltb e (x + w) ≡ true
    → in_span (max x e) ((x + w) - max x e) p ≡ in_span x w p && not (ltb p e)
in_span-right x w e p h = ground (arith, h)

pub in_span-right_rest :
    (x w e p : ℕ)
    → ltb e (x + w) ≡ true
    → in_span x (w - ((x + w) - e)) p ≡ in_span x w p && ltb p e
in_span-right_rest x w e p h = ground (arith, h)

pub in_span-both :
    (x w x2 w2 p : ℕ)
    → in_span (max x x2) (min (x + w) (x2 + w2) - max x x2) p ≡ in_span x w p && in_span x2 w2 p
in_span-both x w x2 w2 p = ground arith

pub in_span-from_left : (x w x2 p : ℕ) → ltb x x2 ≡ false → in_span x w p ≡ true → leb x2 p ≡ true
in_span-from_left x w x2 p h k = ground (arith, h, k)

pub in_span-to_right : (x w e p : ℕ) → ltb e (x + w) ≡ false → in_span x w p ≡ true → ltb p e ≡ true
in_span-to_right x w e p h k = ground (arith, h, k)

pub max-fits : (x w e : ℕ) → Near x w → ltb e (x + w) ≡ true → max x e % 65536 ≡ max x e
max-fits x w e near h = ground (arith, near, h)

pub Near-left : (x w x2 : ℕ) → Near x w → Near x (min w (x2 - x))
Near-left x w x2 near = ground (arith, near)

pub Near-left_rest : (x w x2 w2 : ℕ) → Near x w → Near x2 w2 → Near x2 (w - (x2 - x))
Near-left_rest x w x2 w2 near near2 = ground (arith, near, near2)

pub Near-right : (x w e : ℕ) → Near x w → ltb e (x + w) ≡ true → Near (max x e) ((x + w) - max x e)
Near-right x w e near h = ground (arith, near, h)

pub Near-shorter : (x w k : ℕ) → Near x w → Near x (w - k)
Near-shorter x w k near = ground (arith, near)

-- The difference of the right and the left edge of what two spans share.
pub in_span-shared :
    (x w x2 w2 p : ℕ)
    → Near x w
    → Near x2 w2
    → in_span (max x x2) (difference (min (x + w) (x2 + w2)) (max x x2)) p
      ≡ in_span x w p && in_span x2 w2 p
in_span-shared x w x2 w2 p near near2 =
    let d =
      difference-near (min (x + w) (x2 + w2)) (max x x2) (ground (arith, near, near2))
        (ground (arith, near, near2)) in
    rw d (in_span-both x w x2 w2 p)

pub difference-end :
    (x w e : ℕ) → Near x w → ltb e (x + w) ≡ true → difference (x + w) (max x e) ≡ (x + w) - max x e
difference-end x w e near h =
    difference-near (x + w) (max x e) (ground (arith, near, h)) (ground (arith, near, h))
