-- ===== src/Layer/Tests.antt =====
-- Three windows on a small screen, and the theorems applied to them.
use plan9_ocaml.Prelude.{ℕ, [], some, ◌∷◌, false, ◌≡◌, ◌&&◌, refl, ◌++◌}
use plan9_ocaml.Geometry.{
  Point, Rectangle, rectclip, rectinrect, ptinrect, rect_x_rect, rect, pt, rpt, bias, lesser,
  greater,
}
use plan9_ocaml.Layer.{
  in_save, on_screen, Layer, memlayerop, inside_window, layerop, cut_below, cut_above, cut_right,
  cut_left, off_screen, off_above, off_below, off_left, off_right,
}
use plan9_ocaml.Layer.Cover.{covers, hidden, IsMarked, IsOrdered, AllOrdered, Lays, memlayerop-Lays}
use plan9_ocaml.Layer.Stack.{Screen, Stack, memltofront, memltorear, memlsetclear}
use plan9_ocaml.Layer.Content.{entry, IsScreen}
use plan9_ocaml.Layer.View.{view, MarkedAbove, MarkedBehind, IsStack, looks_above, looks_behind}
use plan9_ocaml.Layer.Moves.{past_front, past_rear, times}
use plan9_ocaml.Layer.Clear.{memltofront-view, memltorear-view, memlsetclear-IsStack}

abbrev area : ℕ → ℕ → ℕ → ℕ → Rectangle
area a b c d = record { min = record { x = a; y = b }; max = record { x = c; y = d } }

abbrev screen : Screen
screen = record { r = area 0 0 100 80; clipr = area 0 0 100 80; pixels = λ p. p.x }

-- A window whose save area has one colour.
abbrev window : Rectangle → ℕ → Layer
window r colour = record { screenr = r; clear = false; save = λ p. colour }

abbrev front : Layer
front = window (area 10 10 40 40) 1

abbrev middle : Layer
middle = window (area 30 30 90 70) 2

abbrev rear : Layer
rear = window (area 20 20 120 60) 3

abbrev stack : Stack
stack = record { screen = screen; above = front ∷ []; it = middle; behind = rear ∷ [] }

-- In all three windows
abbrev shared : Point
shared = record { x = 35; y = 35 }

stack-IsStack : IsStack shared stack
unfolding IsScreen IsOrdered AllOrdered IsMarked MarkedAbove MarkedBehind rectinrect bias
stack-IsStack = record {
  screen = ((refl, refl), refl);
  ordered = (((refl, refl), tt), (refl, refl), ((refl, refl), tt));
  marked_above = (refl, tt);
  marked = refl;
  marked_behind = (refl, tt);
}

-- The pixel 35 of the screen belongs to the frontmost window; the save areas have the others.
pictures : view shared stack ≡ (record { above = some 35 ∷ []; it = some 2; behind = some 3 ∷ [] })
unfolding view looks_above looks_behind entry ptinrect covers bias
pictures = refl

pieces_of_rear :
    memlayerop screen.clipr (front ∷ middle ∷ []) rear (area 20 20 120 60)
    ≡ on_screen (area 90 40 100 60)
      ++ on_screen (area 20 40 30 60)
      ++ in_save (area 30 40 90 60)
      ++ on_screen (area 40 20 100 30)
      ++ on_screen (area 90 30 100 40)
      ++ in_save (area 40 30 90 40)
      ++ in_save (area 20 20 40 40)
      ++ in_save (area 100 20 120 60)
unfolding memlayerop inside_window rectclip lesser greater bias layerop rect_x_rect cut_below
    cut_above cut_right cut_left off_screen off_above off_below off_left off_right rectinrect rect
    pt rpt
pieces_of_rear = refl

memlayerop-Lays_example :
    Lays shared
      (ptinrect shared rear.screenr && ptinrect shared rear.screenr)
      (hidden shared screen.clipr (covers shared (front ∷ middle ∷ [])))
      (memlayerop screen.clipr (front ∷ middle ∷ []) rear rear.screenr)
unfolding IsOrdered AllOrdered IsMarked bias
memlayerop-Lays_example =
    memlayerop-Lays shared screen.clipr (front ∷ middle ∷ []) rear rear.screenr (refl, refl)
      ((refl, refl), ((refl, refl), tt)) refl

memltofront-view_example :
    IsStack shared (memltofront stack)
    × (view shared (memltofront stack) ≡ times past_front 1 (view shared stack))
memltofront-view_example = memltofront-view shared stack stack-IsStack

memltorear-view_example :
    IsStack shared (memltorear stack)
    × (view shared (memltorear stack) ≡ times past_rear 1 (view shared stack))
memltorear-view_example = memltorear-view shared stack stack-IsStack

memlsetclear-IsStack_example :
    IsStack shared (memlsetclear stack) × (view shared (memlsetclear stack) ≡ view shared stack)
unfolding IsScreen IsOrdered AllOrdered rectinrect bias
memlsetclear-IsStack_example =
    memlsetclear-IsStack shared stack ((refl, refl), refl)
      (((refl, refl), tt), (refl, refl), ((refl, refl), tt))
