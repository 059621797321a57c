-- ===== src/Layer/Content.antt =====
-- What a window holds at a point, on the screen or in its save area, and that a window which passes in
-- front of another one changes none of it.
use plan9_ocaml.Prelude.{
  ℕ, [], none, some, Bool, List, ◌∷◌, true, false, ◌≡◌, ◌||◌, ◌&&◌, not, Option, arith,
  if◌then◌else◌, ◌==◌, refl,
}
use plan9_ocaml.Geometry.{Point, Rectangle, rectclip, rectinrect, ptinrect}
use plan9_ocaml.Geometry.Clip.{Clipped, rectclip-Clipped}
use plan9_ocaml.Layer.{Layer, Piece, Area, memlayerop}
use plan9_ocaml.Layer.Cover.{
  seen, covers, hidden, IsMarked, IsOrdered, AllOrdered, Lays, memlayerop-Lays,
}
use plan9_ocaml.Layer.Stack.{Screen, lhideop, lexposeop, memlhide, memlexpose, pass_by, copied}

lhideop-seen :
    (p : Point) (image save : Area) (cs : List Piece)
    → lhideop image save cs p ≡ (if seen p cs == 0 then save p else image p)
unfolding lhideop seen
lhideop-seen p image save [] = refl
lhideop-seen p image save (c ∷ cs) =
    ground (arith, lhideop-seen p image (if c.insave then save else copied c.r image save) cs)

lexposeop-seen :
    (p : Point) (save image : Area) (cs : List Piece)
    → lexposeop save image cs p ≡ (if seen p cs == 0 then image p else save p)
unfolding lexposeop seen
lexposeop-seen p save image [] = refl
lexposeop-seen p save image (c ∷ cs) =
    ground (arith, lexposeop-seen p save (if c.insave then image else copied c.r save image) cs)

-- A screen whose edges are in order and that shows only what is in its image.
unfoldable pub IsScreen : Screen → Type 0
IsScreen s = IsOrdered s.clipr × (rectinrect s.clipr s.r ≡ true)

-- Whether the point is in the window and in `x`, and to be seen.
abbrev pub in_sight : Point → Screen → (front : List Layer) → Layer → Rectangle → Bool
in_sight p s front l x =
    ptinrect p x && (ptinrect p l.screenr && not (hidden p s.clipr (covers p front)))

in_image :
    (p : Point) (s : Screen)
    → rectinrect s.clipr s.r ≡ true
    → (ptinrect p s.clipr && not (ptinrect p s.r)) ≡ false
unfolding rectinrect ptinrect
in_image p s h = ground arith

module _ (p : Point) (s : Screen) (front : List Layer) (l : Layer) (x : Rectangle) (ok : IsScreen s)
    (os : AllOrdered front) (m : IsMarked p s.clipr (covers p front) l) where
  pub memlhide-at :
      memlhide s front l x p ≡ (if in_sight p s front l x then s.pixels p else l.save p)
  unfolding memlhide IsScreen Clipped Lays
  memlhide-at = clipped (rectclip x s.r) (rectclip-Clipped x s.r p)
    where
      clipped :
          (o : Bool × Rectangle)
          → Clipped x s.r p o
          → (if o.0 then lhideop s.pixels l.save (memlayerop s.clipr front l o.1) else l.save) p
            ≡ (if in_sight p s front l x then s.pixels p else l.save p)
      clipped (true, q) c =
          let pieces = memlayerop-Lays p s.clipr front l q ok.0 os m in
          let done = lhideop-seen p s.pixels l.save (memlayerop s.clipr front l q) in
          ground (arith, pieces, done, c, in_image p s ok.1)
      clipped (false, q) (same, c) = ground (arith, c, in_image p s ok.1)

  pub memlexpose-at :
      memlexpose s front l x p ≡ (if in_sight p s front l x then l.save p else s.pixels p)
  unfolding memlexpose IsScreen Clipped Lays
  memlexpose-at = clipped (rectclip x s.r) (rectclip-Clipped x s.r p)
    where
      clipped :
          (o : Bool × Rectangle)
          → Clipped x s.r p o
          → (if o.0 then lexposeop l.save s.pixels (memlayerop s.clipr front l o.1) else s.pixels) p
            ≡ (if in_sight p s front l x then l.save p else s.pixels p)
      clipped (true, q) c =
          let pieces = memlayerop-Lays p s.clipr front l q ok.0 os m in
          let done = lexposeop-seen p l.save s.pixels (memlayerop s.clipr front l q) in
          ground (arith, pieces, done, c, in_image p s ok.1)
      clipped (false, q) (same, c) = ground (arith, c, in_image p s ok.1)

-- What a window holds at a point of it, behind windows that cover the point or not.
unfoldable pub entry : Point → Screen → (covered : Bool) → Layer → Option ℕ
entry p s c l =
    if ptinrect p l.screenr
    then some (if hidden p s.clipr c then l.save p else s.pixels p)
    else none

-- What two windows have in common.
unfoldable pub Common : Point → (f g : Layer) → Bool × Rectangle → Type 0
Common p f g (true, x) = ptinrect p x ≡ (ptinrect p f.screenr && ptinrect p g.screenr)
Common p f g (false, x) = (ptinrect p f.screenr && ptinrect p g.screenr) ≡ false

-- The outcome of `pass_by`: both windows hold what they held, now with `g` in front of `f`; only a point
-- that both have and that is to be seen changes on the screen.
pub record Passed (p : Point) (s : Screen) (c : Bool) (f g : Layer) (s' : Screen) (f' : Layer)
    : Type 0 where
  pub hind : entry p s' (ptinrect p g.screenr || c) f' ≡ entry p s c f
  pub fore : entry p s' c g ≡ entry p s (ptinrect p f.screenr || c) g
  pub same : (s'.clipr ≡ s.clipr) × (s'.r ≡ s.r)
  pub place : f'.screenr ≡ f.screenr
  pub marked : IsMarked p s.clipr (ptinrect p g.screenr || c) f'
  pub pixel :
      ((ptinrect p f.screenr && ptinrect p g.screenr) && not (hidden p s.clipr c)) ≡ false
      → s'.pixels p ≡ s.pixels p

pub pass_by-Passed :
    (p : Point) (s : Screen) (front : List Layer) (f g : Layer) (o : Bool × Rectangle)
    → IsScreen s
    → AllOrdered front
    → IsMarked p s.clipr (covers p front) f
    → IsMarked p s.clipr (covers p front) g
    → Common p f g o
    → let (s', f') = pass_by true s front f g o in Passed p s (covers p front) f g s' f'
unfolding pass_by Common entry IsMarked
pass_by-Passed p s front f g (true, x) ok os mf mg c =
    let out = memlhide-at p s front f x ok os mf in
    let on = memlexpose-at p s front g x ok os mg in
    record {
      hind = ground (arith, out, on, c);
      fore = ground (arith, out, on, c);
      same = (refl, refl);
      place = refl;
      marked = refl;
      pixel = λ h. ground (arith, out, on, c, h);
    }
pass_by-Passed p s front f g (false, x) ok os mf mg c = record {
  hind = ground (arith, c);
  fore = ground (arith, c);
  same = (refl, refl);
  place = refl;
  marked = ground (arith, c, mf);
  pixel = λ h. refl;
}
