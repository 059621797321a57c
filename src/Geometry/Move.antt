-- ===== src/Geometry/Move.antt =====
-- Moving points and rectangles there and back.
use plan9_ocaml.Prelude.{◌<◌, ℕ, ◌≡◌, arith, ◌^◌, sub32, add32}
use plan9_ocaml.Geometry.{Point, Rectangle, rectaddpt, rectsubpt, ℕ, sub32, add32}

-- The coordinates are 32-bit words.
unfoldable pub IsPoint : Point → Type 0
IsPoint p = (p.x < 2 ^ 32) × (p.y < 2 ^ 32)

unfoldable pub IsRectangle : Rectangle → Type 0
unfolding IsPoint
IsRectangle r = IsPoint r.min × IsPoint r.max

there_and_back : (a b : ℕ) → a < 2 ^ 32 → b < 2 ^ 32 → sub32 (add32 a b) b ≡ a
there_and_back a b h k = omega arith

back_and_there : (a b : ℕ) → a < 2 ^ 32 → b < 2 ^ 32 → add32 (sub32 a b) b ≡ a
back_and_there a b h k = omega arith

-- For 32-bit coordinates: a rectangle moved by a point and back, in either order, is the same again,
-- with whatever wrapping on the way.
pub rectsubpt-rectaddpt :
    (r : Rectangle) (p : Point)
    → IsRectangle r
    → IsPoint p
    → (rectsubpt (rectaddpt r p) p ≡ r) × (rectaddpt (rectsubpt r p) p ≡ r)
unfolding IsRectangle rectsubpt rectaddpt
rectsubpt-rectaddpt r p h k = grind (arith, there_and_back, back_and_there)
