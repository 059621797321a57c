-- ===== src/Layer/Moves.antt =====
-- Moving a window to the front or to the rear changes the order of the pictures, and none of them.
use mathlib.Core.Path.{ap}
use plan9_ocaml.Prelude.{
  ℕ, [], zero, suc, Bool, List, ◌∷◌, true, false, ◌≡◌, ◌||◌, arith, refl, ◌++◌, length, ◌∙◌, ap,
}
use plan9_ocaml.Geometry.{Point, Rectangle, rectclip, ptinrect}
use plan9_ocaml.Geometry.Clip.{Clipped, rectclip-Clipped}
use plan9_ocaml.Layer.{Layer}
use plan9_ocaml.Layer.Cover.{covers, IsMarked, AllOrdered}
use plan9_ocaml.Layer.Stack.{Screen, from_front, pass_by, memltofront_loop, memltorear_loop}
use plan9_ocaml.Layer.Content.{entry, IsScreen, Common, Passed}
use plan9_ocaml.Layer.View.{
  View, looks_above, looks_behind, view, MarkedAbove, MarkedBehind, IsStack, looks_above-eq,
  looks_behind-eq, pass_by-nearest,
}

module _ (p : Point) (s s' : Screen) (ls bs : List Layer) (f g f' : Layer)
    (q : Passed p s (covers p ls) f g s' f') where
  above_same : looks_above p s' ls ≡ looks_above p s ls
  above_same = looks_above-eq p s s' ls q.same.0 (λ h. q.pixel (rw h (ground arith)))

  order :
      (ptinrect p f'.screenr || (ptinrect p g.screenr || covers p ls))
      ≡ (ptinrect p g.screenr || (ptinrect p f.screenr || covers p ls))
  order = rw q.place (ground arith)

  behind_same :
      looks_behind p s' (ptinrect p f'.screenr || (ptinrect p g.screenr || covers p ls)) bs
      ≡ looks_behind p s (ptinrect p g.screenr || (ptinrect p f.screenr || covers p ls)) bs
  behind_same = rw order (
      looks_behind-eq p s s' (ptinrect p g.screenr || (ptinrect p f.screenr || covers p ls)) bs
        q.same.0 (λ h. q.pixel (ground arith)))

  marked_same :
      MarkedBehind p s.clipr (ptinrect p g.screenr || (ptinrect p f.screenr || covers p ls)) bs
      → MarkedBehind p s'.clipr (ptinrect p f'.screenr || (ptinrect p g.screenr || covers p ls)) bs
  marked_same h = rw (q.same.0, order) h

  MarkedAbove-same : MarkedAbove p s.clipr ls → MarkedAbove p s'.clipr ls
  MarkedAbove-same h = rw q.same.0 h

  uncovered :
      IsMarked p s.clipr (ptinrect p f.screenr || covers p ls) g
      → IsMarked p s.clipr (covers p ls) g
  unfolding IsMarked
  uncovered h = ground arith

  screen_same : IsScreen s → IsScreen s'
  unfolding IsScreen
  screen_same h = rw (q.same.0, q.same.1) h

  -- From `f` in front of the window `g` to `f'` behind it,
  raised :
      IsStack p (record { screen = s; above = f ∷ ls; it = g; behind = bs })
      → IsStack p (record { screen = s'; above = ls; it = g; behind = f' ∷ bs })
        × (view p (record { screen = s'; above = ls; it = g; behind = f' ∷ bs }) ≡ (record {
          above = looks_above p s ls;
          it = entry p s (ptinrect p f.screenr || covers p ls) g;
          behind =
              entry p s (covers p ls) f
              ∷ looks_behind p s (ptinrect p g.screenr || (ptinrect p f.screenr || covers p ls)) bs;
        }))
  unfolding view looks_above looks_behind covers AllOrdered MarkedAbove MarkedBehind
  raised t = (
    record {
      screen = screen_same t.screen;
      ordered = (t.ordered.0.1, t.ordered.1, (rw q.place t.ordered.0.0, t.ordered.2));
      marked_above = MarkedAbove-same t.marked_above.1;
      marked = rw q.same.0 (uncovered t.marked);
      marked_behind = (rw q.same.0 q.marked, marked_same t.marked_behind);
    },
    rw (above_same, behind_same, q.hind, q.fore) refl,
  )

  -- and from the window `f` in front of `g` to behind it.
  lowered :
      IsStack p (record { screen = s; above = ls; it = f; behind = g ∷ bs })
      → IsStack p (record { screen = s'; above = g ∷ ls; it = f'; behind = bs })
        × (view p (record { screen = s'; above = g ∷ ls; it = f'; behind = bs }) ≡ (record {
          above = entry p s (ptinrect p f.screenr || covers p ls) g ∷ looks_above p s ls;
          it = entry p s (covers p ls) f;
          behind =
              looks_behind p s (ptinrect p g.screenr || (ptinrect p f.screenr || covers p ls)) bs;
        }))
  unfolding view looks_above looks_behind covers AllOrdered MarkedAbove MarkedBehind
  lowered t = (
    record {
      screen = screen_same t.screen;
      ordered = ((t.ordered.2.0, t.ordered.0), rw q.place t.ordered.1, t.ordered.2.1);
      marked_above = (rw q.same.0 (uncovered t.marked_behind.0), MarkedAbove-same t.marked_above);
      marked = rw q.same.0 q.marked;
      marked_behind = marked_same t.marked_behind.1;
    },
    rw (above_same, behind_same, q.hind, q.fore) refl,
  )

Common-front :
    (p : Point) (f g : Layer) (o : Bool × Rectangle)
    → Clipped g.screenr f.screenr p o
    → Common p f g o
unfolding Clipped Common
Common-front p f g (true, x) c = ground arith
Common-front p f g (false, x) c = ground arith

Common-rear :
    (p : Point) (f g : Layer) (o : Bool × Rectangle)
    → Clipped f.screenr g.screenr p o
    → Common p f g o
unfolding Clipped Common
Common-rear p f g (true, x) c = c
Common-rear p f g (false, x) (same, c) = c

-- The nearest window in front goes behind, and the nearest one behind in front, `n` times.
pub past_front : View → View
past_front v = elim v.above [
  | [] ↦ v
  | a ∷ rest ↦ record { above = rest; it = v.it; behind = a ∷ v.behind }
]

pub past_rear : View → View
past_rear v = elim v.behind [
  | [] ↦ v
  | b ∷ rest ↦ record { above = b ∷ v.above; it = v.it; behind = rest }
]

pub times : (View → View) → ℕ → View → View
times f zero v = v
times f (suc n) v = times f n (f v)

pub memltofront_loop-view :
    (p : Point) (stay : List Layer) (s : Screen) (fs : List Layer) (i : Layer) (bs : List Layer)
    → IsStack p (record { screen = s; above = fs ++ stay; it = i; behind = bs })
    → IsStack p (memltofront_loop true stay s fs i bs)
      × (view p (memltofront_loop true stay s fs i bs)
          ≡ times past_front
              (length fs)
              (view p (record { screen = s; above = fs ++ stay; it = i; behind = bs })))
unfolding memltofront_loop times past_front view looks_above covers AllOrdered MarkedAbove
memltofront_loop-view p stay s [] i bs t = (t, refl)
memltofront_loop-view p stay s (f ∷ fs) i bs t =
    let o = rectclip i.screenr f.screenr in
    let (s', f') = pass_by true s (from_front (fs ++ stay) []) f i o in
    let q =
      pass_by-nearest p s (fs ++ stay) f i o t.screen t.ordered.0.1 t.marked_above.0 t.marked
        (Common-front p f i o (rectclip-Clipped i.screenr f.screenr p)) in
    let (t', e) = raised p s s' (fs ++ stay) bs f i f' q t in
    let (done, eq) = memltofront_loop-view p stay s' fs i (f' ∷ bs) t' in
    (done, eq ∙ ap (times past_front (length fs)) e)

pub memltorear_loop-view :
    (p : Point) (stay : List Layer) (s : Screen) (ls : List Layer) (i : Layer) (rs : List Layer)
    → IsStack p (record { screen = s; above = ls; it = i; behind = rs ++ stay })
    → IsStack p (memltorear_loop stay s ls i rs)
      × (view p (memltorear_loop stay s ls i rs)
          ≡ times past_rear
              (length rs)
              (view p (record { screen = s; above = ls; it = i; behind = rs ++ stay })))
unfolding memltorear_loop times past_rear view looks_behind covers AllOrdered MarkedBehind
memltorear_loop-view p stay s ls i [] t = (t, refl)
memltorear_loop-view p stay s ls i (r ∷ rs) t =
    let o = rectclip i.screenr r.screenr in
    let (s', i') = pass_by true s (from_front ls []) i r o in
    let q =
      pass_by-nearest p s ls i r o t.screen t.ordered.0 t.marked t.marked_behind.0
        (Common-rear p i r o (rectclip-Clipped i.screenr r.screenr p)) in
    let (t', e) = lowered p s s' ls (rs ++ stay) i r i' q t in
    let (done, eq) = memltorear_loop-view p stay s' (r ∷ ls) i' rs t' in
    (done, eq ∙ ap (times past_rear (length rs)) e)
