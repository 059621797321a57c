-- ===== src/Layer/Stack.antt =====
-- kernel/Libmemlayer/lhide.c, ltofront.c, ltorear.c and ldelete.c: saving and showing what a window
-- covers, and moving a window through the others.
use plan9_ocaml.Prelude.{[], Bool, List, ◌∷◌, true, false, if◌then◌else◌, ◌++◌, not}
use plan9_ocaml.Geometry.{Rectangle, rectclip, rectinrect, rect_x_rect, ptinrect}
use plan9_ocaml.Layer.{Layer, Piece, Area, memlayerop}

-- The image of the screen, with its rectangle and its clipping rectangle.
pub record Screen : Type 0 where
  pub r : Rectangle
  pub clipr : Rectangle
  pub pixels : Area

-- A window, with those in front of it and those behind it, the nearest first.
pub record Stack : Type 0 where
  pub screen : Screen
  pub above : List Layer
  pub it : Layer
  pub behind : List Layer

-- The frontmost first.
unfoldable pub from_front : (nearest_first rest : List Layer) → List Layer
from_front [] rest = rest
from_front (l ∷ ls) rest = from_front ls (l ∷ rest)

-- What `memdraw` does to an image when it copies the same rectangle of another one.
abbrev pub copied : Rectangle → (src dst : Area) → Area
copied r src dst p = if ptinrect p r then src p else dst p

-- `lhideop` and `lexposeop` on all the pieces
unfoldable pub lhideop : (image save : Area) → List Piece → Area
lhideop image save [] = save
lhideop image save (c ∷ cs) = lhideop image (if c.insave then save else copied c.r image save) cs

unfoldable pub lexposeop : (save image : Area) → List Piece → Area
lexposeop save image [] = image
lexposeop save image (c ∷ cs) =
    lexposeop save (if c.insave then image else copied c.r save image) cs

-- The save area, on a screen and with windows in front, the frontmost first.
unfoldable pub memlhide : Screen → (front : List Layer) → Layer → Rectangle → Area
memlhide s front l x =
    let (overlap, x') = rectclip x s.r in
    if overlap then lhideop s.pixels l.save (memlayerop s.clipr front l x') else l.save

-- The pixels of the screen.
unfoldable pub memlexpose : Screen → (front : List Layer) → Layer → Rectangle → Area
memlexpose s front l x =
    let (overlap, x') = rectclip x s.r in
    if overlap then lexposeop l.save s.pixels (memlayerop s.clipr front l x') else s.pixels

-- Window `g` passes in front of `f`, the next one, behind `front`; `overlap` and `x` are what `rectclip`
-- gives for the two. The screen, and `f`.
unfoldable pub pass_by :
    (fill : Bool)
    → Screen
    → (front : List Layer) → (f g : Layer) → Bool × Rectangle
    → Screen × Layer
pass_by fill s front f g (overlap, x) =
    if overlap
    then (
      (if fill then record s { pixels = memlexpose s front g x } else s),
      record f { save = memlhide s front f x; clear = false },
    )
    else (s, f)

-- The loop of `_memltofront`, past the windows `fs`; `stay` are `front` and the windows in front of it.
unfoldable pub memltofront_loop :
    (fill : Bool)
    → (stay : List Layer) → Screen
    → (fs : List Layer) → Layer
    → (behind : List Layer) → Stack
memltofront_loop fill stay s [] i behind = record {
  screen = s;
  above = stay;
  it = i;
  behind = behind;
}
memltofront_loop fill stay s (f ∷ fs) i behind =
    let (s', f') = pass_by fill s (from_front (fs ++ stay) []) f i (rectclip i.screenr f.screenr) in
    memltofront_loop fill stay s' fs i (f' ∷ behind)

-- The loop of `_memltorear`, past the windows `rs`; `stay` are `rear` and the windows behind it.
unfoldable pub memltorear_loop :
    (stay : List Layer) → Screen → (above : List Layer) → Layer → (rs : List Layer) → Stack
memltorear_loop stay s above i [] = record { screen = s; above = above; it = i; behind = stay }
memltorear_loop stay s above i (r ∷ rs) =
    let (s', i') = pass_by true s (from_front above []) i r (rectclip i.screenr r.screenr) in
    memltorear_loop stay s' (r ∷ above) i' rs

-- Whether a window overlaps one of those in front of it.
unfoldable pub is_touched : Layer → List Layer → Bool
is_touched l [] = false
is_touched l (j ∷ js) = if rect_x_rect l.screenr j.screenr then true else is_touched l js

unfoldable pub set_clear : (clipr : Rectangle) → (front : List Layer) → Layer → Layer
set_clear clipr front l = record l {
  clear = if rectinrect l.screenr clipr then not (is_touched l front) else false;
}

unfoldable pub set_above : (clipr : Rectangle) → List Layer → List Layer
set_above clipr [] = []
set_above clipr (l ∷ ls) = set_clear clipr ls l ∷ set_above clipr ls

unfoldable pub set_behind : (clipr : Rectangle) → (front : List Layer) → List Layer → List Layer
set_behind clipr front [] = []
set_behind clipr front (l ∷ ls) = set_clear clipr front l ∷ set_behind clipr (l ∷ front) ls

-- `_memlsetclear`
unfoldable pub memlsetclear : Stack → Stack
memlsetclear t = record t {
  above = set_above t.screen.clipr t.above;
  it = set_clear t.screen.clipr t.above t.it;
  behind = set_behind t.screen.clipr (t.it ∷ t.above) t.behind;
}

unfoldable pub memltofrontfill : (fill : Bool) → Stack → Stack
memltofrontfill fill t = memlsetclear (memltofront_loop fill [] t.screen t.above t.it t.behind)

unfoldable pub memltofront : Stack → Stack
memltofront t = memltofrontfill true t

unfoldable pub memltorear : Stack → Stack
memltorear t = memlsetclear (memltorear_loop [] t.screen t.above t.it t.behind)
