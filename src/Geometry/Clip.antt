-- ===== src/Geometry/Clip.antt =====
-- Clipping, combining and ordering the corners of rectangles, told by the points inside.
use plan9_ocaml.Prelude.{Bool, arith, ◌≡◌, ◌≤◌, ◌&&◌, true}
use plan9_ocaml.Prelude.{true, false}
use plan9_ocaml.Geometry.{
  lesser, greater, swap_x, swap_y, Point, Rectangle, ptinrect, rectclip, combinerect, rectinrect,
  canonrect, bias, Bool, true,
}

-- What the result of clipping `r` to `b` has to be at the point `p`.
unfoldable pub Clipped : Rectangle → Rectangle → Point → Bool × Rectangle → Type 0
Clipped r b p (true, c) = ptinrect p c ≡ (ptinrect p r && ptinrect p b)
Clipped r b p (false, c) = (c ≡ r) × ((ptinrect p r && ptinrect p b) ≡ false)

-- For every two rectangles and every point: a clipped rectangle holds the point exactly when both
-- rectangles hold it; and when they are said not to overlap, the first is left as it was and the
-- point is not in both.
pub rectclip-Clipped : (r b : Rectangle) (p : Point) → Clipped r b p (rectclip r b)
unfolding Clipped rectclip ptinrect lesser greater
rectclip-Clipped r b p = ground arith

-- For all rectangles: the combined rectangle includes both, and is included in every rectangle that
-- includes both.
pub combinerect-rectinrect :
    (r s t : Rectangle)
    → (rectinrect r (combinerect r s) ≡ true)
      × (rectinrect s (combinerect r s) ≡ true)
      × (rectinrect r t ≡ true → rectinrect s t ≡ true → rectinrect (combinerect r s) t ≡ true)
unfolding combinerect rectinrect lesser greater
combinerect-rectinrect r s t = ground arith

-- For every rectangle: after `canonrect` neither maximum is below its minimum, and a second
-- `canonrect` changes nothing.
pub canonrect-canonrect :
    (r : Rectangle)
    → (bias (canonrect r).min.x ≤ bias (canonrect r).max.x)
      × (bias (canonrect r).min.y ≤ bias (canonrect r).max.y)
      × (canonrect (canonrect r) ≡ canonrect r)
unfolding canonrect swap_x swap_y
canonrect-canonrect r = ground arith
