-- ===== src/Wmgr/Rect.antt =====
-- Points and rectangles of the graphics library, and the tests of tek/wmgr/wmgr.c on them. A `short`
-- is an integer that each assignment wraps to 16 bits; sums are `int`s.
use tek.Base.{Bool, ◌&&◌}
use tek.Base.Int.{ℤ, ◌+ℤ◌, ◌-ℤ◌, ltb_ℤ, to_short}

pub record Point : Type 0 where
  pub x : ℤ
  pub y : ℤ

pub record Rect : Type 0 where
  pub x : ℤ
  pub y : ℤ
  pub w : ℤ
  pub h : ℤ

unfoldable pub rect_inset : Rect → ℤ → Rect
rect_inset r d = record {
  x = to_short (r.x +ℤ d);
  y = to_short (r.y +ℤ d);
  w = to_short (r.w -ℤ (d +ℤ d));
  h = to_short (r.h -ℤ (d +ℤ d));
}

-- `myRectContainsPoint`, which leaves out all four edges.
unfoldable pub my_rect_contains_point : Rect → Point → Bool
my_rect_contains_point rect point =
    ltb_ℤ rect.x point.x
    && (ltb_ℤ point.x (rect.x +ℤ rect.w)
        && (ltb_ℤ rect.y point.y && ltb_ℤ point.y (rect.y +ℤ rect.h)))

unfoldable pub my_rect_intersects : Rect → Rect → Bool
my_rect_intersects r1 r2 =
    ltb_ℤ r1.x (r2.x +ℤ r2.w)
    && (ltb_ℤ r2.x (r1.x +ℤ r1.w) && (ltb_ℤ r1.y (r2.y +ℤ r2.h) && ltb_ℤ r2.y (r1.y +ℤ r1.h)))
