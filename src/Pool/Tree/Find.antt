-- ===== src/Pool/Tree/Find.antt =====
-- What the tree holds after an update at one place.
use plan9_ocaml.Prelude.{
  [], ℕ, ◌≤◌, List, ◌⊎◌, ◌≡◌, arith, refl, Bool-cases, inl, ◌≢◌, inr, ◌==◌, ◌∙◌, ltb, ap,
}
use plan9_ocaml.Pool.Tree.{
  Free, nil, node, ltreewalk, treelookup, unlinked, take_least, ℕ, List, ltb,
}
use plan9_ocaml.Pool.Tree.Order.{IsChecked, IsPlace, take_least-IsChecked}

-- No size outside the bounds is there.
pub treelookup-outside :
    (a b n : ℕ) (t : Free) → IsChecked a b t → (n ≤ a) ⊎ (b ≤ n) → treelookup t n ≡ []
unfolding treelookup IsChecked
treelookup-outside a b n nil i h = refl
treelookup-outside a b n (node l s bs r) (la, lb, ne, il, ir) h =
    ground (arith, treelookup-outside a s n l il, treelookup-outside s b n r ir)

pub ltreewalk-treelookup_self :
    (n a b : ℕ) (f : Free → Free) (x : List ℕ → List ℕ) (t : Free)
    → ((c d : ℕ) (u : Free)
        → IsPlace n u
        → IsChecked c d u
        → treelookup (f u) n ≡ x (treelookup u n))
    → IsChecked a b t
    → treelookup (ltreewalk n f t) n ≡ x (treelookup t n)
unfolding ltreewalk treelookup IsChecked IsPlace
ltreewalk-treelookup_self n a b f x nil at i = at a b nil tt tt
ltreewalk-treelookup_self n a b f x (node l s bs r) at (la, lb, ne, il, ir) =
    elim (Bool-cases (n == s)) [
      | inl e ↦
          let same : s ≡ n = ground arith in
          let here = at a b (node l s bs r) same (la, lb, ne, il, ir) in
          rw e (here ∙ ap x (rw e refl))
      | inr e ↦ elim (Bool-cases (ltb n s)) [
        | inl lt ↦ rw (e, lt, e, lt) (ltreewalk-treelookup_self n a s f x l at il)
        | inr lt ↦ rw (e, lt, e, lt) (ltreewalk-treelookup_self n s b f x r at ir)
      ]
    ]

pub ltreewalk-treelookup_other :
    (n k a b : ℕ) (f : Free → Free) (t : Free)
    → ((c d : ℕ) (u : Free) → IsPlace n u → IsChecked c d u → treelookup (f u) k ≡ treelookup u k)
    → IsChecked a b t
    → treelookup (ltreewalk n f t) k ≡ treelookup t k
unfolding ltreewalk treelookup IsChecked IsPlace
ltreewalk-treelookup_other n k a b f nil at i = at a b nil tt tt
ltreewalk-treelookup_other n k a b f (node l s bs r) at (la, lb, ne, il, ir) =
    elim (Bool-cases (n == s)) [
      | inl e ↦
          let same : s ≡ n = ground arith in rw e (at a b (node l s bs r) same (la, lb, ne, il, ir))
      | inr e ↦
          let left = ltreewalk-treelookup_other n k a s f l at il in
          let right = ltreewalk-treelookup_other n k s b f r at ir in
          elim (Bool-cases (ltb n s)) [
            | inl lt ↦ rw (e, lt) (ground (arith, left))
            | inr lt ↦ rw (e, lt) (ground (arith, right))
          ]
    ]

-- The successor in front of the rest holds what the whole does.
pub take_least-treelookup :
    (k a b : ℕ) (l : Free) (s : ℕ) (bs : List ℕ) (r : Free)
    → IsChecked a b (node l s bs r)
    → let (m, ms, rest) = take_least l s bs r in
      treelookup (node nil m ms rest) k ≡ treelookup (node l s bs r) k
unfolding take_least treelookup IsChecked
take_least-treelookup k a b nil s bs r i = refl
take_least-treelookup k a b (node l' s' bs' r') s bs r (la, lb, ne, il, ir) =
    let m = (take_least l' s' bs' r').0 in
    let below = take_least-IsChecked a s l' s' bs' r' il in
    ground (arith, take_least-treelookup k a s l' s' bs' r' il, below.1)

-- A removed node leaves the other sizes as they are,
pub unlinked-treelookup_other :
    (n k a b : ℕ) (t : Free)
    → IsPlace n t
    → IsChecked a b t
    → k ≢ n
    → treelookup (unlinked t) k ≡ treelookup t k
unfolding unlinked treelookup IsChecked IsPlace
unlinked-treelookup_other n k a b nil p i ne = refl
unlinked-treelookup_other n k a b (node nil s bs r) p (la, lb, nb, il, ir) ne =
    ground (arith, treelookup-outside s b k r ir)
unlinked-treelookup_other n k a b (node (node ll ls lb' lr) s bs nil) p (la, lb, nb, il, ir) ne =
    ground (arith, treelookup-outside a s k (node ll ls lb' lr) il)
unlinked-treelookup_other n k a b (node (node ll ls lb' lr) s bs (node rl rs rb rr)) p
      (la, lb, nb, il, ir) ne =
    let least = take_least-IsChecked s b rl rs rb rr ir in
    let whole = take_least-treelookup k s b rl rs rb rr ir in
    let left = treelookup-outside a s k (node ll ls lb' lr) il in
    ground (arith, least.0, whole, left)

-- and nothing of its own.
pub unlinked-treelookup_self :
    (n a b : ℕ) (t : Free) → IsPlace n t → IsChecked a b t → treelookup (unlinked t) n ≡ []
unfolding unlinked treelookup IsChecked IsPlace
unlinked-treelookup_self n a b nil p i = refl
unlinked-treelookup_self n a b (node nil s bs r) p (la, lb, nb, il, ir) =
    treelookup-outside s b n r ir (inl (omega arith))
unlinked-treelookup_self n a b (node (node ll ls lb' lr) s bs nil) p (la, lb, nb, il, ir) =
    treelookup-outside a s n (node ll ls lb' lr) il (inr (omega arith))
unlinked-treelookup_self n a b (node (node ll ls lb' lr) s bs (node rl rs rb rr)) p
      (la, lb, nb, il, ir) =
    let least = take_least-IsChecked s b rl rs rb rr ir in
    let left = treelookup-outside a s n (node ll ls lb' lr) il (inr (omega arith)) in
    ground (arith, least.0, left)
