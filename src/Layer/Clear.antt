-- ===== src/Layer/Clear.antt =====
-- The marks that `_memlsetclear` sets, and the windows after `memltofront` and `memltorear`.
use mathlib.Core.List.{append-nil}
use plan9_ocaml.Prelude.{
  [], Bool, List, ◌∷◌, true, false, ◌≡◌, ◌||◌, ◌&&◌, not, arith, Bool-cases, refl, inl, inr, length,
  ◌∙◌,
}
use plan9_ocaml.Geometry.{Point, Rectangle, rectinrect, ptinrect, rect_x_rect}
use plan9_ocaml.Layer.{Layer}
use plan9_ocaml.Layer.Cover.{covers, IsMarked, IsOrdered, AllOrdered, apart_points}
use plan9_ocaml.Layer.Stack.{
  Screen, Stack, is_touched, set_clear, set_above, set_behind, memlsetclear, memltofront,
  memltofrontfill, memltorear, memltofront_loop, memltorear_loop,
}
use plan9_ocaml.Layer.Content.{entry, IsScreen}
use plan9_ocaml.Layer.View.{looks_above, looks_behind, view, MarkedAbove, MarkedBehind, IsStack}
use plan9_ocaml.Layer.Moves.{
  past_front, past_rear, times, memltofront_loop-view, memltorear_loop-view,
}

-- A window that overlaps none of those in front has no point in common with them.
is_touched-covers :
    (p : Point) (l : Layer) (fs : List Layer)
    → is_touched l fs ≡ false
    → (ptinrect p l.screenr && covers p fs) ≡ false
unfolding is_touched covers
is_touched-covers p l [] h = ground arith
is_touched-covers p l (f ∷ fs) h = elim (Bool-cases (rect_x_rect l.screenr f.screenr)) [
  | inl t ↦ absurd (ground arith)
  | inr t ↦
      let here = apart_points p l.screenr f.screenr t in
      let rest = is_touched-covers p l fs (ground arith) in ground (arith, here, rest)
]

in_clipr :
    (p : Point) (r clipr : Rectangle)
    → rectinrect r clipr ≡ true
    → (ptinrect p r && not (ptinrect p clipr)) ≡ false
unfolding rectinrect ptinrect
in_clipr p r clipr h = ground arith

set_clear-IsMarked :
    (p : Point) (clipr : Rectangle) (fs : List Layer) (l : Layer)
    → IsMarked p clipr (covers p fs) (set_clear clipr fs l)
unfolding IsMarked set_clear
set_clear-IsMarked p clipr fs l = elim (Bool-cases (rectinrect l.screenr clipr)) [
  | inl t ↦ elim (Bool-cases (is_touched l fs)) [
    | inl u ↦ rw (t, u) refl
    | inr u ↦
        let inside = in_clipr p l.screenr clipr t in
        let alone = is_touched-covers p l fs u in rw (t, u) (ground (arith, inside, alone))
  ]
  | inr t ↦ rw t refl
]

covers-set_above :
    (p : Point) (clipr : Rectangle) (ls : List Layer) → covers p (set_above clipr ls) ≡ covers p ls
unfolding covers set_above set_clear
covers-set_above p clipr [] = refl
covers-set_above p clipr (l ∷ ls) = rw (covers-set_above p clipr ls) refl

module _ (p : Point) (s : Screen) where
  looks_above-set_above :
      (ls : List Layer) → looks_above p s (set_above s.clipr ls) ≡ looks_above p s ls
  unfolding looks_above set_above set_clear entry
  looks_above-set_above [] = refl
  looks_above-set_above (l ∷ ls) = rw (covers-set_above p s.clipr ls, looks_above-set_above ls) refl

  looks_behind-set_behind :
      (c : Bool) (front ls : List Layer)
      → looks_behind p s c (set_behind s.clipr front ls) ≡ looks_behind p s c ls
  unfolding looks_behind set_behind set_clear entry
  looks_behind-set_behind c front [] = refl
  looks_behind-set_behind c front (l ∷ ls) =
      rw (looks_behind-set_behind (ptinrect p l.screenr || c) (l ∷ front) ls) refl

  set_above-MarkedAbove : (ls : List Layer) → MarkedAbove p s.clipr (set_above s.clipr ls)
  unfolding MarkedAbove set_above
  set_above-MarkedAbove [] = tt
  set_above-MarkedAbove (l ∷ ls) = (
    rw (covers-set_above p s.clipr ls) (set_clear-IsMarked p s.clipr ls l),
    set_above-MarkedAbove ls,
  )

  set_behind-MarkedBehind :
      (front ls : List Layer)
      → MarkedBehind p s.clipr (covers p front) (set_behind s.clipr front ls)
  unfolding MarkedBehind set_behind covers set_clear
  set_behind-MarkedBehind front [] = tt
  set_behind-MarkedBehind front (l ∷ ls) =
      (set_clear-IsMarked p s.clipr front l, set_behind-MarkedBehind (l ∷ front) ls)

set_above-AllOrdered :
    (clipr : Rectangle) (ls : List Layer) → AllOrdered ls → AllOrdered (set_above clipr ls)
unfolding AllOrdered set_above set_clear
set_above-AllOrdered clipr [] o = tt
set_above-AllOrdered clipr (l ∷ ls) (o, os) = (o, set_above-AllOrdered clipr ls os)

set_behind-AllOrdered :
    (clipr : Rectangle) (front ls : List Layer)
    → AllOrdered ls
    → AllOrdered (set_behind clipr front ls)
unfolding AllOrdered set_behind set_clear
set_behind-AllOrdered clipr front [] o = tt
set_behind-AllOrdered clipr front (l ∷ ls) (o, os) =
    (o, set_behind-AllOrdered clipr (l ∷ front) ls os)

set_clear-screenr :
    (clipr : Rectangle) (front : List Layer) (l : Layer)
    → (set_clear clipr front l).screenr ≡ l.screenr
unfolding set_clear
set_clear-screenr clipr front l = refl

behind_marked :
    (p : Point) (s : Screen) (i : Layer) (ls bs : List Layer)
    → MarkedBehind p s.clipr (ptinrect p i.screenr || covers p ls) (set_behind s.clipr (i ∷ ls) bs)
unfolding covers
behind_marked p s i ls bs = set_behind-MarkedBehind p s (i ∷ ls) bs

same_view : (p : Point) (t : Stack) → view p (memlsetclear t) ≡ view p t
unfolding memlsetclear view entry set_clear
same_view p t =
    rw
      (
        looks_above-set_above p t.screen t.above,
        covers-set_above p t.screen.clipr t.above,
        looks_behind-set_behind p t.screen (ptinrect p t.it.screenr || covers p t.above)
            (t.it ∷ t.above) t.behind,
      )
      refl

-- For windows and a screen whose edges are in order, whatever their marks were: `_memlsetclear` leaves
-- what the windows hold, and marks only windows of which no point is hidden.
pub memlsetclear-IsStack :
    (p : Point) (t : Stack)
    → IsScreen t.screen
    → AllOrdered t.above × IsOrdered t.it.screenr × AllOrdered t.behind
    → IsStack p (memlsetclear t) × (view p (memlsetclear t) ≡ view p t)
unfolding memlsetclear view entry
memlsetclear-IsStack p t ok os =
    let clipr = t.screen.clipr in
    let front = covers-set_above p clipr t.above in
    let it_same : (set_clear clipr t.above t.it).screenr ≡ t.it.screenr =
      set_clear-screenr clipr t.above t.it in
    (
      record {
        screen = ok;
        ordered = (
          set_above-AllOrdered clipr t.above os.0,
          rw it_same os.1,
          set_behind-AllOrdered clipr (t.it ∷ t.above) t.behind os.2,
        );
        marked_above = set_above-MarkedAbove p t.screen t.above;
        marked = rw front (set_clear-IsMarked p clipr t.above t.it);
        marked_behind = rw (it_same, front) (behind_marked p t.screen t.it t.above t.behind);
      },
      same_view p t,
    )

-- `memltofront`, on a stack of windows whose marks are right at a point: the marks stay so, and the
-- windows hold at the point what they held, on the screen where they are to be seen and else in their
-- save areas; the window goes in front of all others, which keep their order.
pub memltofront-view :
    (p : Point) (t : Stack)
    → IsStack p t
    → IsStack p (memltofront t)
      × (view p (memltofront t) ≡ times past_front (length t.above) (view p t))
unfolding memltofront memltofrontfill
memltofront-view p t ok =
    let whole = append-nil t.above in
    let (done, eq) = memltofront_loop-view p [] t.screen t.above t.it t.behind (rw whole ok) in
    let (marks, same) =
      memlsetclear-IsStack p (memltofront_loop true [] t.screen t.above t.it t.behind) done.screen
        done.ordered in
    (marks, same ∙ (rw whole at eq))

-- The same for `memltorear`: the window goes behind all others.
pub memltorear-view :
    (p : Point) (t : Stack)
    → IsStack p t
    → IsStack p (memltorear t)
      × (view p (memltorear t) ≡ times past_rear (length t.behind) (view p t))
unfolding memltorear
memltorear-view p t ok =
    let whole = append-nil t.behind in
    let (done, eq) = memltorear_loop-view p [] t.screen t.above t.it t.behind (rw whole ok) in
    let (marks, same) =
      memlsetclear-IsStack p (memltorear_loop [] t.screen t.above t.it t.behind) done.screen
        done.ordered in
    (marks, same ∙ (rw whole at eq))
