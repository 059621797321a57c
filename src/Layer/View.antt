-- ===== src/Layer/View.antt =====
-- What all the windows of a stack hold at a point, and one window past its neighbour.
use mathlib.Core.Path.{subst}
use plan9_ocaml.Prelude.{
  ℕ, [], Bool, List, ◌∷◌, true, false, ◌≡◌, ◌||◌, Option, Bool-cases, arith, inl, inr, refl,
}
use plan9_ocaml.Geometry.{Point, Rectangle, ptinrect}
use plan9_ocaml.Layer.{Layer}
use plan9_ocaml.Layer.Cover.{covers, IsMarked, IsOrdered, AllOrdered}
use plan9_ocaml.Layer.Stack.{Screen, Stack, from_front, pass_by}
use plan9_ocaml.Layer.Content.{entry, IsScreen, Common, Passed, pass_by-Passed}

-- The pictures of a window and of those in front of it and behind it, the nearest first.
pub record View : Type 0 where
  pub above : List (Option ℕ)
  pub it : Option ℕ
  pub behind : List (Option ℕ)

unfoldable pub looks_above : Point → Screen → List Layer → List (Option ℕ)
looks_above p s [] = []
looks_above p s (l ∷ ls) = entry p s (covers p ls) l ∷ looks_above p s ls

unfoldable pub looks_behind : Point → Screen → (covered : Bool) → List Layer → List (Option ℕ)
looks_behind p s c [] = []
looks_behind p s c (l ∷ ls) = entry p s c l ∷ looks_behind p s (ptinrect p l.screenr || c) ls

unfoldable pub view : Point → Stack → View
view p t = record {
  above = looks_above p t.screen t.above;
  it = entry p t.screen (covers p t.above) t.it;
  behind = looks_behind p t.screen (ptinrect p t.it.screenr || covers p t.above) t.behind;
}

-- At the point, no window that is marked as fully visible is hidden.
unfoldable pub MarkedAbove : Point → Rectangle → List Layer → Type 0
MarkedAbove p clipr [] = Unit
MarkedAbove p clipr (l ∷ ls) = IsMarked p clipr (covers p ls) l × MarkedAbove p clipr ls

unfoldable pub MarkedBehind : Point → Rectangle → (covered : Bool) → List Layer → Type 0
MarkedBehind p clipr c [] = Unit
MarkedBehind p clipr c (l ∷ ls) =
    IsMarked p clipr c l × MarkedBehind p clipr (ptinrect p l.screenr || c) ls

-- The edges of the screen and of the windows are in order, and the marks are right at the point.
pub record IsStack (p : Point) (t : Stack) : Type 0 where
  pub screen : IsScreen t.screen
  pub ordered : AllOrdered t.above × IsOrdered t.it.screenr × AllOrdered t.behind
  pub marked_above : MarkedAbove p t.screen.clipr t.above
  pub marked : IsMarked p t.screen.clipr (covers p t.above) t.it
  pub marked_behind :
      MarkedBehind p t.screen.clipr (ptinrect p t.it.screenr || covers p t.above) t.behind

pub looks_above-eq :
    (p : Point) (s s' : Screen) (ls : List Layer)
    → s'.clipr ≡ s.clipr
    → (covers p ls ≡ true → s'.pixels p ≡ s.pixels p)
    → looks_above p s' ls ≡ looks_above p s ls
unfolding looks_above entry covers
looks_above-eq p s s' [] e h = refl
looks_above-eq p s s' (l ∷ ls) e h = elim (Bool-cases (ptinrect p l.screenr)) [
  | inl t ↦
      let same = h (rw t refl) in
      let rest = looks_above-eq p s s' ls e (λ k. same) in rw (e, same, rest) refl
  | inr t ↦ let rest = looks_above-eq p s s' ls e (λ k. h (ground arith)) in rw (t, rest) refl
]

pub looks_behind-eq :
    (p : Point) (s s' : Screen) (c : Bool) (ls : List Layer)
    → s'.clipr ≡ s.clipr
    → (c ≡ false → s'.pixels p ≡ s.pixels p)
    → looks_behind p s' c ls ≡ looks_behind p s c ls
unfolding looks_behind entry
looks_behind-eq p s s' c [] e h = refl
looks_behind-eq p s s' c (l ∷ ls) e h =
    let rest = looks_behind-eq p s s' (ptinrect p l.screenr || c) ls e (λ k. h (ground arith)) in
    elim (Bool-cases c) [
      | inl t ↦ rw (e, rest) (ground arith)
      | inr t ↦ let same = h t in rw (e, rest, same) refl
    ]

covers-from_front :
    (p : Point) (xs ys : List Layer) → covers p (from_front xs ys) ≡ (covers p xs || covers p ys)
unfolding from_front covers
covers-from_front p [] ys = refl
covers-from_front p (x ∷ xs) ys = let rest = covers-from_front p xs (x ∷ ys) in ground (arith, rest)

AllOrdered-from_front :
    (xs ys : List Layer) → AllOrdered xs → AllOrdered ys → AllOrdered (from_front xs ys)
unfolding from_front AllOrdered
AllOrdered-from_front [] ys a b = b
AllOrdered-from_front (x ∷ xs) ys (a, more) b = AllOrdered-from_front xs (x ∷ ys) more (a, b)

-- `pass_by` with the windows `ls` in front, the nearest first
pub pass_by-nearest :
    (p : Point) (s : Screen) (ls : List Layer) (f g : Layer) (o : Bool × Rectangle)
    → IsScreen s
    → AllOrdered ls
    → IsMarked p s.clipr (covers p ls) f
    → IsMarked p s.clipr (ptinrect p f.screenr || covers p ls) g
    → Common p f g o
    → let (s', f') = pass_by true s (from_front ls []) f g o in Passed p s (covers p ls) f g s' f'
unfolding AllOrdered covers IsMarked
pass_by-nearest p s ls f g o ok os mf mg c =
    let same : covers p (from_front ls []) ≡ covers p ls =
      ground (arith, covers-from_front p ls []) in
    subst
      (λ (b : Bool).
        let (s', f') = pass_by true s (from_front ls []) f g o in Passed p s b f g s' f')
      same
      (pass_by-Passed p s (from_front ls []) f g o ok (AllOrdered-from_front ls [] os tt)
        (rw same mf) (rw same (uncovered mg)) c)
  where
    uncovered :
        IsMarked p s.clipr (ptinrect p f.screenr || covers p ls) g
        → IsMarked p s.clipr (covers p ls) g
    uncovered h = ground arith
