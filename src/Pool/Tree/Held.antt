-- ===== src/Pool/Tree/Held.antt =====
-- Adding and deleting a block change how often it is in the tree, and nothing else.
use plan9_ocaml.Prelude.{
  [], ℕ, List, ◌≡◌, ◌≢◌, arith, ◌∷◌, ◌++◌, ◌+◌, ◌-◌, ◌==◌, true, false, if◌then◌else◌, ◌∙◌, ◌&&◌,
  refl, sym, Bool-cases, inl, inr,
}
use plan9_ocaml.Pool.Tree.{
  Free, nil, node, treelookup, added, deleted, unlinked, replaced, listadd, listdelete, tree_add,
  tree_del, ℕ, List,
}
use plan9_ocaml.Pool.Tree.Order.{IsChecked, IsPlace}
use plan9_ocaml.Pool.Tree.Find.{
  ltreewalk-treelookup_self, ltreewalk-treelookup_other, unlinked-treelookup_self,
  unlinked-treelookup_other,
}

-- How often a block is in a list.
abbrev pub occurs : ℕ → List ℕ → ℕ
occurs a [] = 0
occurs a (c ∷ cs) = (if c == a then 1 else 0) + occurs a cs

-- How often it is in the tree among the blocks of size `n`.
abbrev pub held : ℕ → ℕ → Free → ℕ
held a n t = occurs a (treelookup t n)

occurs-append : (a : ℕ) (xs ys : List ℕ) → occurs a (xs ++ ys) ≡ occurs a xs + occurs a ys
occurs-append a [] ys = omega arith
occurs-append a (x ∷ xs) ys = omega (arith, occurs-append a xs ys)

occurs-listadd :
    (a b : ℕ) (bs : List ℕ) → occurs a (listadd bs b) ≡ occurs a bs + (if b == a then 1 else 0)
unfolding listadd
occurs-listadd a b [] = omega arith
occurs-listadd a b (c ∷ cs) = omega (arith, occurs-append a cs (b ∷ []))

occurs-listdelete :
    (a b : ℕ) (bs : List ℕ) → occurs a (listdelete bs b) ≡ occurs a bs - (if b == a then 1 else 0)
unfolding listdelete
occurs-listdelete a b [] = omega arith
occurs-listdelete a b (c ∷ cs) = ground (arith, occurs-listdelete a b cs)

added-treelookup_self :
    (m b : ℕ) (u : Free) → IsPlace m u → treelookup (added m b u) m ≡ listadd (treelookup u m) b
unfolding added treelookup replaced IsPlace
added-treelookup_self m b nil p = ground arith
added-treelookup_self m b (node l s bs r) p = ground arith

added-treelookup_other :
    (m k b : ℕ) (u : Free) → k ≢ m → IsPlace m u → treelookup (added m b u) k ≡ treelookup u k
unfolding added treelookup replaced IsPlace
added-treelookup_other m k b nil ne p = ground arith
added-treelookup_other m k b (node l s bs r) ne p = ground arith

deleted-treelookup_self :
    (m b lo hi : ℕ) (u : Free)
    → IsPlace m u
    → IsChecked lo hi u
    → treelookup (deleted b u) m ≡ listdelete (treelookup u m) b
unfolding deleted treelookup replaced IsPlace listdelete
deleted-treelookup_self m b lo hi nil p i = refl
deleted-treelookup_self m b lo hi (node l s bs r) p i = left (listdelete bs b) refl
  where
    here : (m == s) ≡ true
    here = ground arith

    left :
        (rest : List ℕ)
        → listdelete bs b ≡ rest
        → treelookup
            (elim rest [
              | [] ↦ unlinked (node l s bs r)
              | x ∷ xs ↦ replaced s (x ∷ xs) (node l s bs r)
            ])
            m
          ≡ listdelete (treelookup (node l s bs r) m) b
    left [] e = unlinked-treelookup_self m lo hi (node l s bs r) p i ∙ sym (rw here e)
    left (x ∷ xs) e = rw here (sym e)

deleted-treelookup_other :
    (m k b lo hi : ℕ) (u : Free)
    → k ≢ m
    → IsPlace m u
    → IsChecked lo hi u
    → treelookup (deleted b u) k ≡ treelookup u k
unfolding deleted treelookup replaced IsPlace
deleted-treelookup_other m k b lo hi nil ne p i = refl
deleted-treelookup_other m k b lo hi (node l s bs r) ne p i = left (listdelete bs b)
  where
    away : (k == s) ≡ false
    away = ground arith

    left :
        (rest : List ℕ)
        → treelookup
            (elim rest [
              | [] ↦ unlinked (node l s bs r)
              | x ∷ xs ↦ replaced s (x ∷ xs) (node l s bs r)
            ])
            k
          ≡ treelookup (node l s bs r) k
    left [] = unlinked-treelookup_other m k lo hi (node l s bs r) p i ne
    left (x ∷ xs) = rw away refl

-- `pooladd` puts one block in, under its size,
pub held-tree_add :
    (t : Free) (m b lo hi a n : ℕ)
    → IsChecked lo hi t
    → held a n (tree_add t m b) ≡ held a n t + (if (b == a) && (m == n) then 1 else 0)
unfolding tree_add
held-tree_add t m b lo hi a n i = elim (Bool-cases (m == n)) [
  | inl e ↦
      let same : m ≡ n = ground arith in
      let now =
        ltreewalk-treelookup_self m lo hi (added m b) (λ x. listadd x b) t
          (λ c d u p j. added-treelookup_self m b u p) i in
      let counted = occurs-listadd a b (treelookup t m) in
      rw (sym same, now) (ground (arith, counted))
  | inr e ↦
      let other : n ≢ m = ground arith in
      let kept =
        ltreewalk-treelookup_other m n lo hi (added m b) t
          (λ c d u p j. added-treelookup_other m n b u other p) i in
      rw kept (ground arith)
]

-- In a tree that satisfies what checktree asserts of the sizes, taking out a block takes out one block
-- of that size and address, if there is one, and no other, whatever way the tree is put together again.
pub held-tree_del :
    (t : Free) (m b lo hi a n : ℕ)
    → IsChecked lo hi t
    → held a n (tree_del t m b) ≡ held a n t - (if (b == a) && (m == n) then 1 else 0)
unfolding tree_del
held-tree_del t m b lo hi a n i = elim (Bool-cases (m == n)) [
  | inl e ↦
      let same : m ≡ n = ground arith in
      let now =
        ltreewalk-treelookup_self m lo hi (deleted b) (λ x. listdelete x b) t
          (λ c d u p j. deleted-treelookup_self m b c d u p j) i in
      let counted = occurs-listdelete a b (treelookup t m) in
      rw (sym same, now) (ground (arith, counted))
  | inr e ↦
      let other : n ≢ m = ground arith in
      let kept =
        ltreewalk-treelookup_other m n lo hi (deleted b) t
          (λ c d u p j. deleted-treelookup_other m n b c d u other p j) i in
      rw kept (ground arith)
]
