-- ===== src/Pool/Tree/Order.antt =====
-- The order of the tree that `checktree` asserts, kept by adding and deleting.
use plan9_ocaml.Prelude.{
  [], ℕ, List, ◌<◌, ◌≡◌, ◌≤◌, ◌≢◌, arith, Bool-cases, ◌∷◌, ◌==◌, inl, inr, ltb, ltb→lt,
}
use plan9_ocaml.Pool.Tree.{
  Free, nil, node, ltreewalk, added, deleted, unlinked, take_least, replaced, listadd, listdelete,
  tree_add, tree_del, ℕ, List, ltb,
}

-- The assertions of `checktree(t, a, b)` on the sizes, and that no list of blocks is empty.
unfoldable pub IsChecked : (a b : ℕ) → Free → Type 0
IsChecked a b nil = Unit
IsChecked a b (node l s bs r) = (a < s) × (s < b) × (bs ≢ []) × IsChecked a s l × IsChecked s b r

-- What stands where `ltreewalk` arrives: nothing, or the node of the size.
unfoldable pub IsPlace : ℕ → Free → Type 0
IsPlace n nil = Unit
IsPlace n (node l s bs r) = s ≡ n

IsChecked-wider : (a b c d : ℕ) (t : Free) → c ≤ a → b ≤ d → IsChecked a b t → IsChecked c d t
unfolding IsChecked
IsChecked-wider a b c d nil h k i = tt
IsChecked-wider a b c d (node l s bs r) h k (la, lb, ne, il, ir) = (
  omega arith,
  omega arith,
  ne,
  IsChecked-wider a s c s l h (omega arith) il,
  IsChecked-wider s b s d r (omega arith) k ir,
)

-- An update that keeps the order at the place of the size keeps it in the tree.
ltreewalk-IsChecked :
    (n a b : ℕ) (f : Free → Free) (t : Free)
    → ((c d : ℕ) (u : Free) → IsPlace n u → c < n → n < d → IsChecked c d u → IsChecked c d (f u))
    → a < n
    → n < b
    → IsChecked a b t
    → IsChecked a b (ltreewalk n f t)
unfolding ltreewalk IsChecked IsPlace
ltreewalk-IsChecked n a b f nil keeps an nb i = keeps a b nil tt an nb tt
ltreewalk-IsChecked n a b f (node l s bs r) keeps an nb (la, lb, ne, il, ir) =
    elim (Bool-cases (n == s)) [
      | inl e ↦
          let same : s ≡ n = ground arith in
          rw e (keeps a b (node l s bs r) same an nb (la, lb, ne, il, ir))
      | inr e ↦ elim (Bool-cases (ltb n s)) [
        | inl lt ↦
            let less : n < s = ltb→lt n s lt in
            rw (e, lt) (la, lb, ne, ltreewalk-IsChecked n a s f l keeps an less il, ir)
        | inr lt ↦
            let more : s < n = ground arith in
            rw (e, lt) (la, lb, ne, il, ltreewalk-IsChecked n s b f r keeps more nb ir)
      ]
    ]

pub take_least-IsChecked :
    (a b : ℕ) (l : Free) (s : ℕ) (bs : List ℕ) (r : Free)
    → IsChecked a b (node l s bs r)
    → let (m, ms, rest) = take_least l s bs r in (a < m) × (m < b) × (ms ≢ []) × IsChecked m b rest
unfolding take_least IsChecked
take_least-IsChecked a b nil s bs r (la, lb, ne, il, ir) = (la, lb, ne, ir)
take_least-IsChecked a b (node l' s' bs' r') s bs r (la, lb, ne, il, ir) =
    let (p, q, ne', rest) = take_least-IsChecked a s l' s' bs' r' il in
    (p, omega arith, ne', (q, lb, ne, rest, ir))

unlinked-IsChecked : (a b : ℕ) (t : Free) → IsChecked a b t → IsChecked a b (unlinked t)
unfolding unlinked IsChecked
unlinked-IsChecked a b nil i = tt
unlinked-IsChecked a b (node nil s bs r) (la, lb, ne, il, ir) =
    IsChecked-wider s b a b r (omega arith) (omega arith) ir
unlinked-IsChecked a b (node (node ll ls lb lr) s bs nil) (la, lb', ne, il, ir) =
    IsChecked-wider a s a b (node ll ls lb lr) (omega arith) (omega arith) il
unlinked-IsChecked a b (node (node ll ls lb lr) s bs (node rl rs rb rr)) (la, lb', ne, il, ir) =
    let (p, q, ne', rest) = take_least-IsChecked s b rl rs rb rr ir in
    let m = (take_least rl rs rb rr).0 in
    (
      omega arith,
      q,
      ne',
      IsChecked-wider a s a m (node ll ls lb lr) (omega arith) (omega arith) il,
      rest,
    )

listadd-nonempty : (bs : List ℕ) (b : ℕ) → listadd bs b ≢ []
unfolding listadd
listadd-nonempty [] b e = cc
listadd-nonempty (c ∷ cs) b e = cc

pub tree_add-IsChecked :
    (t : Free) (n block a b : ℕ)
    → a < n
    → n < b
    → IsChecked a b t
    → IsChecked a b (tree_add t n block)
unfolding tree_add added replaced IsChecked IsPlace
tree_add-IsChecked t n block a b an nb i = ltreewalk-IsChecked n a b (added n block) t keeps an nb i
  where
    keeps :
        (c d : ℕ) (u : Free)
        → IsPlace n u
        → c < n
        → n < d
        → IsChecked c d u
        → IsChecked c d (added n block u)
    keeps c d nil p h k j = (h, k, listadd-nonempty [] block, tt, tt)
    keeps c d (node l s bs r) p h k (la, lb, ne, il, ir) =
        (la, lb, listadd-nonempty bs block, il, ir)

-- A tree that satisfies what checktree asserts of the sizes, between any bounds, does so still when a
-- block is taken out, of a size between them, whether or not the block is there.
pub tree_del-IsChecked :
    (t : Free) (n block a b : ℕ)
    → a < n
    → n < b
    → IsChecked a b t
    → IsChecked a b (tree_del t n block)
unfolding tree_del deleted replaced IsChecked IsPlace
tree_del-IsChecked t n block a b an nb i = ltreewalk-IsChecked n a b (deleted block) t keeps an nb i
  where
    shorter :
        (c d : ℕ) (l : Free) (s : ℕ) (bs : List ℕ) (r : Free) (rest : List ℕ)
        → IsChecked c d (node l s bs r)
        → IsChecked c d (elim rest [
          | [] ↦ unlinked (node l s bs r)
          | x ∷ xs ↦ replaced s (x ∷ xs) (node l s bs r)
        ])
    shorter c d l s bs r [] j = unlinked-IsChecked c d (node l s bs r) j
    shorter c d l s bs r (x ∷ xs) (la, lb, ne, il, ir) = (la, lb, (λ e. cc), il, ir)

    keeps :
        (c d : ℕ) (u : Free)
        → IsPlace n u
        → c < n
        → n < d
        → IsChecked c d u
        → IsChecked c d (deleted block u)
    keeps c d nil p h k j = tt
    keeps c d (node l s bs r) p h k j = shorter c d l s bs r (listdelete bs block) j
