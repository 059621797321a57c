-- ===== src/Pool/Tree.antt =====
-- kernel/Libc/port/pool.c, the tree of free blocks: a search tree by size, whose nodes hold the blocks
-- of their size. A `Free` block is its address; the circular list of the blocks of one size is the list
-- of the addresses from the block that stands in the tree on, in the order of `next`.
pub mod Order
pub mod Find
pub mod Held
pub mod Least
use plan9_ocaml.Prelude.{
  [], none, some, zero, suc, ℕ, List, Option, if◌then◌else◌, ◌∷◌, ◌==◌, ◌++◌, ltb,
}

pub data Free : Type 0 where
  nil : Free
  node : (left : Free) (size : ℕ) (blocks : List ℕ) (right : Free) → Free

-- The pointer that `ltreewalk` returns, to the place of the blocks of size `n`, as an update of what
-- stands there.
pub ltreewalk : (n : ℕ) → (Free → Free) → Free → Free
ltreewalk n f nil = f nil
ltreewalk n f (node l s bs r) =
    if n == s
    then f (node l s bs r)
    else if ltb n s
    then node (ltreewalk n f l) s bs r
    else node l s bs (ltreewalk n f r)

unfoldable pub treelookup : Free → (n : ℕ) → List ℕ
treelookup nil n = []
treelookup (node l s bs r) n =
    if n == s then bs else if ltb n s then treelookup l n else treelookup r n

-- A node with the blocks `bs` of size `n` in the place of what stands there.
replaced : (n : ℕ) (bs : List ℕ) → Free → Free
replaced n bs nil = node nil n bs nil
replaced n bs (node l s old r) = node l n bs r

pub treeinsert : Free → (n : ℕ) (bs : List ℕ) → Free
unfolding replaced ltreewalk
treeinsert t n bs = ltreewalk n (replaced n bs) t

-- The inorder successor and the subtree without it, of the subtree with these parts.
pub take_least : (left : Free) (size : ℕ) (blocks : List ℕ) (right : Free) → ℕ × List ℕ × Free
take_least nil s bs r = (s, bs, r)
take_least (node l' s' bs' r') s bs r =
    let (m, ms, rest) = take_least l' s' bs' r' in (m, ms, node rest s bs r)

-- What takes the place of a node that is removed.
pub unlinked : Free → Free
unfolding take_least
unlinked nil = nil
unlinked (node nil s bs r) = r
unlinked (node (node ll ls lb lr) s bs nil) = node ll ls lb lr
unlinked (node (node ll ls lb lr) s bs (node rl rs rb rr)) =
    let (m, ms, rest) = take_least rl rs rb rr in node (node ll ls lb lr) m ms rest

pub treedelete : Free → (n : ℕ) → Free
unfolding ltreewalk unlinked
treedelete t n = ltreewalk n unlinked t

-- The loop of `treelookupgt`; `lastgood` is the last node that was big enough.
pub lookup_gt : Free → (n : ℕ) → (lastgood : Option (ℕ × List ℕ)) → Option (ℕ × List ℕ)
lookup_gt nil n lastgood = lastgood
lookup_gt (node l s bs r) n lastgood =
    if n == s
    then some (s, bs)
    else if ltb n s
    then lookup_gt l n (some (s, bs))
    else lookup_gt r n lastgood

unfoldable pub treelookupgt : Free → (n : ℕ) → Option (ℕ × List ℕ)
unfolding lookup_gt
treelookupgt t n = lookup_gt t n none

-- At the end of the list, which is before the block in the tree.
pub listadd : List ℕ → (block : ℕ) → List ℕ
listadd [] b = b ∷ []
listadd (c ∷ cs) b = c ∷ cs ++ b ∷ []

pub listdelete : List ℕ → (block : ℕ) → List ℕ
listdelete [] b = []
listdelete (c ∷ cs) b = if c == b then cs else c ∷ listdelete cs b

-- The two updates of `pooladd` and `pooldel` at the place of the size.
pub added : (n block : ℕ) → Free → Free
unfolding listadd replaced
added n b nil = replaced n (listadd [] b) nil
added n b (node l s bs r) = node l s (listadd bs b) r

pub deleted : (block : ℕ) → Free → Free
unfolding listdelete unlinked replaced
deleted b nil = nil
deleted b (node l s bs r) = elim (listdelete bs b) [
  | [] ↦ unlinked (node l s bs r)
  | c ∷ cs ↦ replaced s (c ∷ cs) (node l s bs r)
]

unfoldable pub tree_add : Free → (n block : ℕ) → Free
unfolding ltreewalk added
tree_add t n b = ltreewalk n (added n b) t

unfoldable pub tree_del : Free → (n block : ℕ) → Free
unfolding ltreewalk deleted
tree_del t n b = ltreewalk n (deleted b) t
