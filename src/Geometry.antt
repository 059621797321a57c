-- ===== src/Geometry.antt =====
-- kernel/Libgeometry/arith.c and replclipr_geom.c: points and rectangles.
-- An `int` is a number below 2 ^ 32, the bit pattern; sums wrap, and the order is that of the
-- numbers the patterns stand for. `bool` is the C type of the source, a Bool here.
pub mod Clip
pub mod Move
pub mod Repl
pub mod Tests
use plan9_ocaml.Prelude.{
  ℕ, add32, sub32, Bool, if◌then◌else◌, ltb, leb, not, ◌+◌, ◌/◌, ◌%◌, ◌*◌, ◌==◌, ◌&&◌, u32_mod,
  false, ◌^◌, true,
}

-- The pattern with its sign bit flipped: a greater number has a greater one.
unfoldable pub bias : ℕ → ℕ
bias x = (x + 2 ^ 31) % 2 ^ 32

abbrev pub lt : ℕ → ℕ → Bool
lt a b = ltb (bias a) (bias b)

abbrev pub le : ℕ → ℕ → Bool
le a b = leb (bias a) (bias b)

abbrev pub is_neg : ℕ → Bool
is_neg x = leb (2 ^ 31) x

abbrev pub neg : ℕ → ℕ
neg x = sub32 0 x

-- The absolute value, that of the least `int` being itself.
pub magnitude : ℕ → ℕ
magnitude x = if is_neg x then neg x else x

-- C's quotient, toward zero, and its remainder, of the sign of `a`. The divisor is not zero.
pub div : (a b : ℕ) → ℕ
unfolding magnitude
div a b =
    let q = magnitude a / magnitude b in
    (if is_neg a then (if is_neg b then q else neg q) else (if is_neg b then neg q else q))
    % u32_mod

pub rem : (a b : ℕ) → ℕ
unfolding magnitude
rem a b = let r = magnitude a % magnitude b in if is_neg a then neg r else r

pub record Point : Type 0 where
  pub x : ℕ
  pub y : ℕ

pub record Rectangle : Type 0 where
  pub min : Point
  pub max : Point

unfoldable pub pt : ℕ → ℕ → Point
pt x y = record { x = x; y = y }

unfoldable pub rpt : Point → Point → Rectangle
rpt min max = record { min = min; max = max }

unfoldable pub rect : ℕ → ℕ → ℕ → ℕ → Rectangle
unfolding pt rpt
rect ax ay bx by = rpt (pt ax ay) (pt bx by)

pub addpt : Point → Point → Point
addpt a b = record { x = add32 a.x b.x; y = add32 a.y b.y }

pub subpt : Point → Point → Point
subpt a b = record { x = sub32 a.x b.x; y = sub32 a.y b.y }

pub insetrect : Rectangle → ℕ → Rectangle
insetrect r n = record {
  min = record { x = add32 r.min.x n; y = add32 r.min.y n };
  max = record { x = sub32 r.max.x n; y = sub32 r.max.y n };
}

pub divpt : Point → ℕ → Point
unfolding div
divpt a b = record { x = div a.x b; y = div a.y b }

pub mulpt : Point → ℕ → Point
mulpt a b = record { x = a.x * b % u32_mod; y = a.y * b % u32_mod }

pub rectsubpt : Rectangle → Point → Rectangle
rectsubpt r p = record {
  min = record { x = sub32 r.min.x p.x; y = sub32 r.min.y p.y };
  max = record { x = sub32 r.max.x p.x; y = sub32 r.max.y p.y };
}

pub rectaddpt : Rectangle → Point → Rectangle
rectaddpt r p = record {
  min = record { x = add32 r.min.x p.x; y = add32 r.min.y p.y };
  max = record { x = add32 r.max.x p.x; y = add32 r.max.y p.y };
}

pub eqpt : Point → Point → Bool
eqpt p q = (p.x == q.x) && (p.y == q.y)

pub eqrect : Rectangle → Rectangle → Bool
eqrect r s =
    (r.min.x == s.min.x) && (r.max.x == s.max.x) && (r.min.y == s.min.y) && (r.max.y == s.max.y)

unfoldable pub rect_x_rect : Rectangle → Rectangle → Bool
rect_x_rect r s =
    lt r.min.x s.max.x && lt s.min.x r.max.x && lt r.min.y s.max.y && lt s.min.y r.max.y

unfoldable pub rectinrect : Rectangle → Rectangle → Bool
rectinrect r s =
    le s.min.x r.min.x && le r.max.x s.max.x && le s.min.y r.min.y && le r.max.y s.max.y

unfoldable pub ptinrect : Point → Rectangle → Bool
ptinrect p r = le r.min.x p.x && lt p.x r.max.x && le r.min.y p.y && lt p.y r.max.y

swap_x : Rectangle → Rectangle
swap_x r =
    if lt r.max.x r.min.x
    then record {
      min = record { x = r.max.x; y = r.min.y };
      max = record { x = r.min.x; y = r.max.y };
    }
    else r

swap_y : Rectangle → Rectangle
swap_y r =
    if lt r.max.y r.min.y
    then record {
      min = record { x = r.min.x; y = r.max.y };
      max = record { x = r.max.x; y = r.min.y };
    }
    else r

pub canonrect : Rectangle → Rectangle
unfolding swap_x swap_y
canonrect r = swap_y (swap_x r)

-- The lesser and the greater of two coordinates, the first when they are equal.
unfoldable pub lesser : ℕ → ℕ → ℕ
lesser a b = if lt b a then b else a

unfoldable pub greater : ℕ → ℕ → ℕ
greater a b = if lt a b then b else a

pub combinerect : Rectangle → Rectangle → Rectangle
unfolding lesser greater
combinerect r s = record {
  min = record { x = lesser r.min.x s.min.x; y = lesser r.min.y s.min.y };
  max = record { x = greater r.max.x s.max.x; y = greater r.max.y s.max.y };
}

-- Whether the two overlap, and what becomes of the first.
unfoldable pub rectclip : Rectangle → Rectangle → Bool × Rectangle
unfolding lesser greater
rectclip r b =
    if not (lt r.min.x b.max.x && lt b.min.x r.max.x && lt r.min.y b.max.y && lt b.min.y r.max.y)
    then (false, r)
    else (
      true,
      record {
        min = record { x = greater r.min.x b.min.x; y = greater r.min.y b.min.y };
        max = record { x = lesser r.max.x b.max.x; y = lesser r.max.y b.max.y };
      },
    )

pub drawreplxy : (min max x : ℕ) → ℕ
unfolding rem
drawreplxy min max x =
    let sx = rem (sub32 x min) (sub32 max min) in
    add32 (if is_neg sx then add32 sx (sub32 max min) else sx) min

pub drawrepl : Rectangle → Point → Point
unfolding drawreplxy
drawrepl r p = record { x = drawreplxy r.min.x r.max.x p.x; y = drawreplxy r.min.y r.max.y p.y }
