-- ===== src/Layer/Cover.antt =====
-- The pieces of a rectangle cover each of its points once, in the right place.
use plan9_ocaml.Prelude.{
  ℕ, [], Bool, List, ◌∷◌, true, false, ◌≡◌, ◌||◌, ◌&&◌, not, if◌then◌else◌, ◌++◌, ◌+◌, arith,
  Bool-cases, inl, inr,
}
use plan9_ocaml.Geometry.{
  Point, Rectangle, rect, rectclip, rectinrect, rect_x_rect, lt, le, ptinrect, pt, rpt,
}
use plan9_ocaml.Geometry.Clip.{Clipped, rectclip-Clipped}
use plan9_ocaml.Layer.{
  Layer, Piece, cut_left, cut_right, cut_above, cut_below, layerop, off_right, off_left, off_above,
  off_below, off_screen, memlayerop, inside_window, in_save, on_screen,
}

-- How many of the pieces have the point on the screen, and in the save area.
unfoldable pub seen : Point → List Piece → ℕ
seen p [] = 0
seen p (c ∷ cs) = (if not c.insave && ptinrect p c.r then 1 else 0) + seen p cs

unfoldable pub kept : Point → List Piece → ℕ
kept p [] = 0
kept p (c ∷ cs) = (if c.insave && ptinrect p c.r then 1 else 0) + kept p cs

seen-append : (p : Point) (xs ys : List Piece) → seen p (xs ++ ys) ≡ seen p xs + seen p ys
unfolding seen
seen-append p [] ys = omega arith
seen-append p (x ∷ xs) ys = omega (arith, seen-append p xs ys)

kept-append : (p : Point) (xs ys : List Piece) → kept p (xs ++ ys) ≡ kept p xs + kept p ys
unfolding kept
kept-append p [] ys = omega arith
kept-append p (x ∷ xs) ys = omega (arith, kept-append p xs ys)

-- Whether one of the windows has the point.
unfoldable pub covers : Point → List Layer → Bool
covers p [] = false
covers p (l ∷ ls) = ptinrect p l.screenr || covers p ls

-- A rectangle whose edges are in order.
unfoldable pub IsOrdered : Rectangle → Type 0
IsOrdered r = (le r.min.x r.max.x ≡ true) × (le r.min.y r.max.y ≡ true)

unfoldable pub AllOrdered : List Layer → Type 0
unfolding IsOrdered
AllOrdered [] = Unit
AllOrdered (l ∷ ls) = IsOrdered l.screenr × AllOrdered ls

-- The pieces have the point once if `inside`, in the save area if `hidden` and else on the screen.
unfoldable pub Lays : Point → (inside hidden : Bool) → List Piece → Type 0
Lays p i h cs =
    (seen p cs ≡ (if i && not h then 1 else 0)) × (kept p cs ≡ (if i && h then 1 else 0))

module _ (p : Point) (c : Bool) (draw : Rectangle → List Piece) (fr : Rectangle) (o : IsOrdered fr)
    (h : (q : Rectangle) → Lays p (ptinrect p q) c (draw q)) where
  cut_left-Lays :
      (r : Rectangle)
      → le fr.min.y r.min.y ≡ true
      → le r.max.y fr.max.y ≡ true
      → le r.max.x fr.max.x ≡ true
      → le fr.min.x r.max.x ≡ true
      → Lays p (ptinrect p r) (ptinrect p fr || c) (cut_left draw fr r)
  unfolding Lays cut_left IsOrdered rect pt rpt ptinrect seen kept
  cut_left-Lays r a b d e =
      let q = rect r.min.x r.min.y fr.min.x r.max.y in
      let s = in_save (rect fr.min.x r.min.y r.max.x r.max.y) in
      ground (arith, h q, seen-append p (draw q) s, kept-append p (draw q) s)

  cut_right-Lays :
      (r : Rectangle)
      → le fr.min.y r.min.y ≡ true
      → le r.max.y fr.max.y ≡ true
      → lt r.min.x fr.max.x ≡ true
      → lt fr.min.x r.max.x ≡ true
      → Lays p (ptinrect p r) (ptinrect p fr || c) (cut_right draw fr r)
  unfolding Lays cut_right IsOrdered rect pt rpt ptinrect
  cut_right-Lays r a b d e =
      let q = rect fr.max.x r.min.y r.max.x r.max.y in
      let r' = rect r.min.x r.min.y fr.max.x r.max.y in
      let s = cut_left draw fr r' in
      elim (Bool-cases (lt fr.max.x r.max.x)) [
        | inl t ↦ rw t (
            let m = cut_left-Lays r' a b (ground arith) (ground arith) in
            ground (arith, h q, m, seen-append p (draw q) s, kept-append p (draw q) s))
        | inr t ↦ rw t (cut_left-Lays r a b (ground arith) (ground arith))
      ]

  cut_above-Lays :
      (r : Rectangle)
      → le r.max.y fr.max.y ≡ true
      → le fr.min.y r.max.y ≡ true
      → lt r.min.x fr.max.x ≡ true
      → lt fr.min.x r.max.x ≡ true
      → Lays p (ptinrect p r) (ptinrect p fr || c) (cut_above draw fr r)
  unfolding Lays cut_above IsOrdered rect pt rpt ptinrect
  cut_above-Lays r a b d e =
      let q = rect r.min.x r.min.y r.max.x fr.min.y in
      let r' = rect r.min.x fr.min.y r.max.x r.max.y in
      let s = cut_right draw fr r' in
      elim (Bool-cases (lt r.min.y fr.min.y)) [
        | inl t ↦ rw t (
            let m = cut_right-Lays r' (ground arith) a d e in
            ground (arith, h q, m, seen-append p (draw q) s, kept-append p (draw q) s))
        | inr t ↦ rw t (cut_right-Lays r (ground arith) a d e)
      ]

  cut_below-Lays :
      (r : Rectangle)
      → rect_x_rect r fr ≡ true
      → Lays p (ptinrect p r) (ptinrect p fr || c) (cut_below draw fr r)
  unfolding Lays cut_below IsOrdered rect pt rpt ptinrect rect_x_rect
  cut_below-Lays r a =
      let q = rect r.min.x fr.max.y r.max.x r.max.y in
      let r' = rect r.min.x r.min.y r.max.x fr.max.y in
      let s = cut_above draw fr r' in
      elim (Bool-cases (lt fr.max.y r.max.y)) [
        | inl t ↦ rw t (
            let m = cut_above-Lays r' (ground arith) (ground arith) (ground arith) (ground arith) in
            ground (arith, h q, m, seen-append p (draw q) s, kept-append p (draw q) s))
        | inr t ↦
            rw t (cut_above-Lays r (ground arith) (ground arith) (ground arith) (ground arith))
      ]

-- Rectangles that do not overlap have no point in common.
pub apart_points :
    (q : Point) (a b : Rectangle) → rect_x_rect a b ≡ false → (ptinrect q a && ptinrect q b) ≡ false
unfolding rect_x_rect ptinrect
apart_points q a b h = ground arith

-- For windows in front whose edges are in order: every point of the rectangle is in just one piece, for
-- the save area if a window in front has the point, and else for the screen, and no other point is in
-- one.
pub layerop-Lays :
    (p : Point) (front : List Layer) (r : Rectangle)
    → AllOrdered front
    → Lays p (ptinrect p r) (covers p front) (layerop front r)
unfolding Lays layerop covers AllOrdered seen kept
layerop-Lays p [] r o = ground arith
layerop-Lays p (f ∷ fs) r (o, os) = elim (Bool-cases (rect_x_rect r f.screenr)) [
  | inl t ↦
      rw t
        (cut_below-Lays p (covers p fs) (layerop fs) f.screenr o (λ q. layerop-Lays p fs q os) r t)
  | inr t ↦ rw t (
      let m = layerop-Lays p fs r os in
      let apart = apart_points p r f.screenr t in ground (arith, m, apart))
]

-- The pieces are for the save area, and have the points of `r` that are off the screen.
unfoldable Hides : Point → (scr r : Rectangle) → List Piece → Type 0
unfolding Lays
Hides p scr r cs = Lays p (ptinrect p r && not (ptinrect p scr)) true cs

whole-Hides : (p : Point) (scr r : Rectangle) → rectinrect r scr ≡ true → Hides p scr r []
unfolding Hides Lays rectinrect ptinrect seen kept
whole-Hides p scr r t = ground arith

apart-Hides :
    (p : Point) (scr r : Rectangle) → rect_x_rect r scr ≡ false → Hides p scr r (in_save r)
unfolding Hides Lays rect_x_rect ptinrect seen kept
apart-Hides p scr r t = ground arith

module _ (p : Point) (scr : Rectangle) (o : IsOrdered scr) where
  off_right-Hides :
      (r : Rectangle)
      → le scr.min.y r.min.y ≡ true
      → le r.max.y scr.max.y ≡ true
      → le scr.min.x r.min.x ≡ true
      → le r.min.x scr.max.x ≡ true
      → Hides p scr r (off_right scr r)
  unfolding Hides Lays off_right IsOrdered rect pt rpt ptinrect seen kept
  off_right-Hides r a b d e = ground arith

  off_left-Hides :
      (r : Rectangle)
      → le scr.min.y r.min.y ≡ true
      → le r.max.y scr.max.y ≡ true
      → lt r.min.x scr.max.x ≡ true
      → lt scr.min.x r.max.x ≡ true
      → Hides p scr r (off_left scr r)
  unfolding Hides Lays off_left IsOrdered rect pt rpt ptinrect seen kept
  off_left-Hides r a b d e =
      let r' = rect scr.min.x r.min.y r.max.x r.max.y in
      elim (Bool-cases (lt r.min.x scr.min.x)) [
        | inl t ↦
            rw t (let m = off_right-Hides r' a b (ground arith) (ground arith) in ground (arith, m))
        | inr t ↦ rw t (off_right-Hides r a b (ground arith) (ground arith))
      ]

  off_below-Hides :
      (r : Rectangle)
      → le scr.min.y r.min.y ≡ true
      → le r.min.y scr.max.y ≡ true
      → lt r.min.x scr.max.x ≡ true
      → lt scr.min.x r.max.x ≡ true
      → Hides p scr r (off_below scr r)
  unfolding Hides Lays off_below IsOrdered rect pt rpt ptinrect seen kept
  off_below-Hides r a b d e =
      let r' = rect r.min.x r.min.y r.max.x scr.max.y in
      elim (Bool-cases (lt scr.max.y r.max.y)) [
        | inl t ↦ rw t (let m = off_left-Hides r' a (ground arith) d e in ground (arith, m))
        | inr t ↦ rw t (off_left-Hides r a (ground arith) d e)
      ]

  off_above-Hides : (r : Rectangle) → rect_x_rect r scr ≡ true → Hides p scr r (off_above scr r)
  unfolding Hides Lays off_above IsOrdered rect pt rpt ptinrect seen kept rect_x_rect
  off_above-Hides r a =
      let r' = rect r.min.x scr.min.y r.max.x r.max.y in
      elim (Bool-cases (lt r.min.y scr.min.y)) [
        | inl t ↦ rw t (
            let m =
              off_below-Hides r' (ground arith) (ground arith) (ground arith) (ground arith) in
            ground (arith, m))
        | inr t ↦
            rw t (off_below-Hides r (ground arith) (ground arith) (ground arith) (ground arith))
      ]

  off_screen-Hides : (r : Rectangle) → Hides p scr r (off_screen scr r)
  unfolding off_screen Hides Lays
  off_screen-Hides r = elim (Bool-cases (rectinrect r scr)) [
    | inl t ↦ rw t (whole-Hides p scr r t)
    | inr t ↦ rw t (elim (Bool-cases (rect_x_rect r scr)) [
      | inl u ↦ rw u (off_above-Hides r u)
      | inr u ↦ rw u (apart-Hides p scr r u)
    ])
  ]

-- Whether a point of a window is not to be seen on the screen: it is off the screen or covered.
abbrev pub hidden : Point → (scr : Rectangle) (covered : Bool) → Bool
hidden p scr c = not (ptinrect p scr) || c

-- A window that is marked as fully visible has no point that is hidden.
unfoldable pub IsMarked : Point → (scr : Rectangle) (covered : Bool) → Layer → Type 0
IsMarked p scr c l = (l.clear && (ptinrect p l.screenr && hidden p scr c)) ≡ false

seen_on : (p : Point) (r : Rectangle) → seen p (on_screen r) ≡ (if ptinrect p r then 1 else 0)
unfolding seen
seen_on p r = ground arith

clip-Lays :
    (p : Point) (scr : Rectangle) (front : List Layer) (o : Bool × Rectangle) (r : Rectangle)
    → AllOrdered front
    → Clipped r scr p o
    → Lays p
        (ptinrect p r && ptinrect p scr)
        (covers p front)
        (if o.0 then layerop front o.1 else [])
unfolding Lays Clipped seen kept
clip-Lays p scr front (true, q) r os c = let m = layerop-Lays p front q os in ground (arith, m, c)
clip-Lays p scr front (false, q) r os (same, c) = ground (arith, c)

inside_window-Lays :
    (p : Point) (scr : Rectangle) (front : List Layer) (l : Layer) (r : Rectangle)
    (o : Bool × Rectangle)
    → IsOrdered scr
    → AllOrdered front
    → IsMarked p scr (covers p front) l
    → Clipped r l.screenr p o
    → Lays p
        (ptinrect p r && ptinrect p l.screenr)
        (hidden p scr (covers p front))
        (inside_window scr front l o)
unfolding inside_window Clipped Lays IsMarked seen kept Hides
inside_window-Lays p scr front l r (false, q) os ofs m (same, c) = ground (arith, c)
inside_window-Lays p scr front l r (true, q) os ofs m c = elim (Bool-cases l.clear) [
  | inl t ↦ rw t (ground (arith, c, m))
  | inr t ↦ rw t (
      let on = clip-Lays p scr front (rectclip q scr) q ofs (rectclip-Clipped q scr p) in
      let off = off_screen-Hides p scr os q in
      let xs = if (rectclip q scr).0 then layerop front (rectclip q scr).1 else [] in
      let ys = off_screen scr q in
      ground (arith, on, off, c, seen-append p xs ys, kept-append p xs ys))
]

-- On a screen and with windows in front whose edges are in order, and for a window that has no hidden
-- point if it is marked as fully visible: `_memlayerop` calls its function for every point of the
-- rectangle in the window just once, on the save area if the point is off the screen or in a window in
-- front, and else on the screen, and for no other point.
pub memlayerop-Lays :
    (p : Point) (scr : Rectangle) (front : List Layer) (l : Layer) (r : Rectangle)
    → IsOrdered scr
    → AllOrdered front
    → IsMarked p scr (covers p front) l
    → Lays p
        (ptinrect p r && ptinrect p l.screenr)
        (hidden p scr (covers p front))
        (memlayerop scr front l r)
unfolding memlayerop
memlayerop-Lays p scr front l r os ofs m =
    inside_window-Lays p scr front l r (rectclip r l.screenr) os ofs m
      (rectclip-Clipped r l.screenr p)
