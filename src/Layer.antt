-- ===== src/Layer.antt =====
-- kernel/Libmemlayer: windows that overlap on a screen, each with an area that saves what is hidden.
-- A window is told by its rectangle, whether it is marked as fully visible, and its save area. The
-- pixels of the screen and of a save area are functions of the point, both in the coordinates of the
-- screen: the shift by `delta` is not modelled, nor windows with a refresh function in the place of the
-- save area. The chains `front` and `rear` are lists.
pub mod Cover
pub mod Stack
pub mod Content
pub mod View
pub mod Moves
pub mod Clear
pub mod Tests
use plan9_ocaml.Prelude.{
  ℕ, [], none, some, zero, suc, Bool, List, ◌∷◌, true, false, if◌then◌else◌, ◌++◌,
}
use plan9_ocaml.Geometry.{Point, Rectangle, rect, rectclip, rectinrect, rect_x_rect, lt, ptinrect}

-- The pixels of an image.
abbrev pub Area : Type 0
Area = Point → ℕ

pub record Layer : Type 0 where
  pub screenr : Rectangle
  pub clear : Bool
  pub save : Area

-- A call of `fn`: the rectangle, and whether it is for the save area or else for the screen.
pub record Piece : Type 0 where
  pub insave : Bool
  pub r : Rectangle

abbrev pub on_screen : Rectangle → List Piece
on_screen r = record { insave = false; r = r } ∷ []

abbrev pub in_save : Rectangle → List Piece
in_save r = record { insave = true; r = r } ∷ []

-- The four parts of `r` outside `fr`, each with what is left of `r`, and what `draw` gives for them.
pub cut_left : (draw : Rectangle → List Piece) → (fr r : Rectangle) → List Piece
cut_left draw fr r =
    if lt r.min.x fr.min.x
    then draw (rect r.min.x r.min.y fr.min.x r.max.y)
      ++ in_save (rect fr.min.x r.min.y r.max.x r.max.y)
    else in_save r

pub cut_right : (draw : Rectangle → List Piece) → (fr r : Rectangle) → List Piece
cut_right draw fr r =
    if lt fr.max.x r.max.x
    then draw (rect fr.max.x r.min.y r.max.x r.max.y)
      ++ cut_left draw fr (rect r.min.x r.min.y fr.max.x r.max.y)
    else cut_left draw fr r

pub cut_above : (draw : Rectangle → List Piece) → (fr r : Rectangle) → List Piece
cut_above draw fr r =
    if lt r.min.y fr.min.y
    then draw (rect r.min.x r.min.y r.max.x fr.min.y)
      ++ cut_right draw fr (rect r.min.x fr.min.y r.max.x r.max.y)
    else cut_right draw fr r

pub cut_below : (draw : Rectangle → List Piece) → (fr r : Rectangle) → List Piece
cut_below draw fr r =
    if lt fr.max.y r.max.y
    then draw (rect r.min.x fr.max.y r.max.x r.max.y)
      ++ cut_above draw fr (rect r.min.x r.min.y r.max.x fr.max.y)
    else cut_above draw fr r

-- `_layerop`, with the windows in front of `i`, the frontmost first: at the end `front` is `i`.
pub layerop : (front : List Layer) → Rectangle → List Piece
layerop [] r = on_screen r
layerop (f ∷ fs) r =
    if rect_x_rect r f.screenr then cut_below (layerop fs) f.screenr r else layerop fs r

-- The pieces off the screen `scr`, of a rectangle that overlaps it.
pub off_right : (scr r : Rectangle) → List Piece
off_right scr r =
    if lt scr.max.x r.max.x then in_save (rect scr.max.x r.min.y r.max.x r.max.y) else []

pub off_left : (scr r : Rectangle) → List Piece
off_left scr r =
    if lt r.min.x scr.min.x
    then in_save (rect r.min.x r.min.y scr.min.x r.max.y)
      ++ off_right scr (rect scr.min.x r.min.y r.max.x r.max.y)
    else off_right scr r

pub off_below : (scr r : Rectangle) → List Piece
off_below scr r =
    if lt scr.max.y r.max.y
    then in_save (rect r.min.x scr.max.y r.max.x r.max.y)
      ++ off_left scr (rect r.min.x r.min.y r.max.x scr.max.y)
    else off_left scr r

pub off_above : (scr r : Rectangle) → List Piece
off_above scr r =
    if lt r.min.y scr.min.y
    then in_save (rect r.min.x r.min.y r.max.x scr.min.y)
      ++ off_below scr (rect r.min.x scr.min.y r.max.x r.max.y)
    else off_below scr r

pub off_screen : (scr r : Rectangle) → List Piece
off_screen scr r =
    if rectinrect r scr then [] else if rect_x_rect r scr then off_above scr r else in_save r

-- `_memlayerop` on the window with `front` in front of it, on a screen that shows `scr`.
pub inside_window : (scr : Rectangle) (front : List Layer) → Layer → Bool × Rectangle → List Piece
inside_window scr front l (false, r) = []
inside_window scr front l (true, r) =
    if l.clear
    then on_screen r
    else let (overlap, shown) = rectclip r scr in
      (if overlap then layerop front shown else []) ++ off_screen scr r

pub memlayerop : (scr : Rectangle) (front : List Layer) → Layer → (screenr : Rectangle) → List Piece
memlayerop scr front l screenr = inside_window scr front l (rectclip screenr l.screenr)
