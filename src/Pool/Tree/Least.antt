-- ===== src/Pool/Tree/Least.antt =====
-- The search for a large enough block.
use plan9_ocaml.Prelude.{
  [], none, some, ℕ, Option, List, ◌≡◌, ◌≤◌, ◌≢◌, ◌<◌, ◌⊎◌, inr, arith, inl, Bool-cases, ltb, ◌∙◌,
  ◌==◌, refl, ltb→lt, sym, ap,
}
use plan9_ocaml.Pool.Tree.{
  Free, nil, node, treelookup, treelookupgt, lookup_gt, ℕ, Option, List, ltb,
}
use plan9_ocaml.Pool.Tree.Order.{IsChecked}
use plan9_ocaml.Pool.Tree.Find.{treelookup-outside}

-- What `treelookupgt` finds for the size `n`, when `good` was found before: the least size from `n`
-- on that is in the tree, with its blocks, and `good` when there is none.
Found : Free → (n : ℕ) → (good : Option (ℕ × List ℕ)) → Option (ℕ × List ℕ) → Type 0
Found t n good none = (good ≡ none) × ((k : ℕ) → n ≤ k → treelookup t k ≡ [])
Found t n good (some (m, bs)) =
    ((n ≤ m) × (treelookup t m ≡ bs) × (bs ≢ []) × ((k : ℕ) → n ≤ k → k < m → treelookup t k ≡ []))
    ⊎ ((good ≡ some (m, bs)) × ((k : ℕ) → n ≤ k → treelookup t k ≡ []))

Found-nil : (n : ℕ) (good : Option (ℕ × List ℕ)) → Found nil n good good
unfolding Found treelookup
Found-nil n none = (refl, λ k h. refl)
Found-nil n (some (m, bs)) = inr (refl, λ k h. refl)

go_left :
    (l r : Free) (s k : ℕ) (bs : List ℕ) → k < s → treelookup (node l s bs r) k ≡ treelookup l k
unfolding treelookup
go_left l r s k bs h = ground arith

go_right :
    (l r : Free) (s k : ℕ) (bs : List ℕ) → s < k → treelookup (node l s bs r) k ≡ treelookup r k
unfolding treelookup
go_right l r s k bs h = ground arith

at_root : (l r : Free) (s : ℕ) (bs : List ℕ) → treelookup (node l s bs r) s ≡ bs
unfolding treelookup
at_root l r s bs = ground arith

-- What is found on the left, when the root was found before,
from_left :
    (l r : Free) (s n a : ℕ) (bs : List ℕ) (good : Option (ℕ × List ℕ)) (o : Option (ℕ × List ℕ))
    → n < s
    → bs ≢ []
    → IsChecked a s l
    → Found l n (some (s, bs)) o
    → Found (node l s bs r) n good o
unfolding Found
from_left l r s n a bs good none h nb i f = absurd cc
from_left l r s n a bs good (some (m, xs)) h nb i (inl (le, look, ne, least)) =
    elim (Bool-cases (ltb m s)) [
      | inl lt ↦
          let below : m < s = ltb→lt m s lt in
          inl (
            le,
            go_left l r s m bs below ∙ look,
            ne,
            λ k nk km. go_left l r s k bs (omega arith) ∙ least k nk km,
          )
      | inr lt ↦
          let empty = treelookup-outside a s m l i (inr (ground arith)) in
          absurd (ne (sym look ∙ empty))
    ]
from_left l r s n a bs good (some (m, xs)) h nb i (inr (e, least)) =
    let same : s ≡ m = cc in
    let same' : bs ≡ xs = cc in
    inl (
      omega arith,
      ap (λ (k : ℕ). treelookup (node l s bs r) k) (sym same) ∙ at_root l r s bs ∙ same',
      (λ z. nb (same' ∙ z)),
      λ k nk km. go_left l r s k bs (omega arith) ∙ least k nk,
    )

-- and what is found on the right.
from_right :
    (l r : Free) (s n : ℕ) (bs : List ℕ) (good : Option (ℕ × List ℕ)) (o : Option (ℕ × List ℕ))
    → s < n
    → Found r n good o
    → Found (node l s bs r) n good o
unfolding Found
from_right l r s n bs good none h (e, least) =
    (e, λ k nk. go_right l r s k bs (omega arith) ∙ least k nk)
from_right l r s n bs good (some (m, xs)) h (inl (le, look, ne, least)) = inl (
  le,
  go_right l r s m bs (omega arith) ∙ look,
  ne,
  λ k nk km. go_right l r s k bs (omega arith) ∙ least k nk km,
)
from_right l r s n bs good (some (m, xs)) h (inr (e, least)) =
    inr (e, λ k nk. go_right l r s k bs (omega arith) ∙ least k nk)

Found-here :
    (l r : Free) (s n : ℕ) (bs : List ℕ) (good : Option (ℕ × List ℕ))
    → n ≡ s
    → bs ≢ []
    → Found (node l s bs r) n good (some (s, bs))
unfolding Found
Found-here l r s n bs good e ne =
    inl (omega arith, at_root l r s bs, ne, λ k nk ks. absurd (omega arith))

lookup_gt-Found :
    (t : Free) (n a b : ℕ) (good : Option (ℕ × List ℕ))
    → IsChecked a b t
    → Found t n good (lookup_gt t n good)
unfolding lookup_gt IsChecked
lookup_gt-Found nil n a b good i = Found-nil n good
lookup_gt-Found (node l s bs r) n a b good (la, lb, ne, il, ir) = elim (Bool-cases (n == s)) [
  | inl e ↦ let same : n ≡ s = ground arith in rw e (Found-here l r s n bs good same ne)
  | inr e ↦ elim (Bool-cases (ltb n s)) [
    | inl lt ↦
        rw (e, lt)
          (from_left l r s n a bs good (lookup_gt l n (some (s, bs))) (ltb→lt n s lt) ne il
            (lookup_gt-Found l n a s (some (s, bs)) il))
    | inr lt ↦
        let more : s < n = ground arith in
        rw (e, lt)
          (from_right l r s n bs good (lookup_gt r n good) more (lookup_gt-Found r n s b good ir))
  ]
]

-- What `treelookupgt` has to find for the size `n`: the blocks of the least size from `n` on that has
-- any, and none when there is no such size.
unfoldable pub Ceiling : Free → (n : ℕ) → Option (ℕ × List ℕ) → Type 0
Ceiling t n none = (k : ℕ) → n ≤ k → treelookup t k ≡ []
Ceiling t n (some (m, bs)) =
    (n ≤ m) × (treelookup t m ≡ bs) × (bs ≢ []) × ((k : ℕ) → n ≤ k → k < m → treelookup t k ≡ [])

Ceiling-of_Found : (t : Free) (n : ℕ) (o : Option (ℕ × List ℕ)) → Found t n none o → Ceiling t n o
unfolding Found Ceiling
Ceiling-of_Found t n none (e, f) = f
Ceiling-of_Found t n (some (m, bs)) (inl f) = f
Ceiling-of_Found t n (some (m, bs)) (inr (e, f)) = absurd cc

-- In a tree whose sizes are in order, for every size: `treelookupgt` finds the blocks of the least size
-- of the tree that is at least that large, and nothing just when there is none.
pub treelookupgt-Ceiling : (t : Free) (a b n : ℕ) → IsChecked a b t → Ceiling t n (treelookupgt t n)
unfolding treelookupgt
treelookupgt-Ceiling t a b n i =
    Ceiling-of_Found t n (lookup_gt t n none) (lookup_gt-Found t n a b none i)
