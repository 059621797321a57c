-- ===== src/Pool/Sound/Neighbours.antt =====
-- A block that is freed, merged with its neighbours.
use mathlib.Core.Option.{Option}
use plan9_ocaml.Prelude.{
  [], none, some, ℕ, Option, List, ◌≡◌, ◌∷◌, ◌+◌, false, true, ◌<◌, arith, refl, Bool-cases, inl,
  inr,
}
use plan9_ocaml.Pool.{
  Pool, Block, Magic, Focus, unalloc_magic, taken_out, blockmerge, merge_back, merge_forward,
  is_free, joined, ℕ, List, false, true, is_alloc, is_arena, is_tail,
}
use plan9_ocaml.Pool.Total.{total}
use plan9_ocaml.Pool.Sound.{not_tail, IsSound, alloc_at, not_arena, arith}
use plan9_ocaml.Pool.Sound.Merge.{blockmerge-IsSound}

-- The block as it counts once it is no longer in use.
abbrev pub idle : Block → Block
idle b = record b { magic = unalloc_magic }

blockmerge_right :
    (p : Pool) (a b : Block) → is_free b.magic ≡ false → blockmerge p a b ≡ blockmerge p a (idle b)
unfolding blockmerge taken_out
blockmerge_right p a b h = rw h refl

blockmerge_left :
    (p : Pool) (a b : Block) → is_free a.magic ≡ false → blockmerge p a b ≡ blockmerge p (idle a) b
unfolding blockmerge taken_out
blockmerge_left p a b h = rw h refl

-- The focus is on a block that is out of the tree and out of use.
pub record IsLoose (p : Pool) (f : Focus) : Type 0 where
  pub sound : IsSound p (joined f.before (idle f.block ∷ f.after))
  pub not_free : is_free f.block.magic ≡ false
  pub filled : 0 < f.block.size

-- How much is in use besides.
abbrev pub others : (a n : ℕ) → Focus → ℕ
others a n f = total (alloc_at a n) f.before + total (alloc_at a n) f.after

-- What a merge has to give.
unfoldable pub Merges : Focus → Option (Pool × Focus) → Type 0
Merges f none = ⊥
Merges f (some (q, g)) = IsLoose q g × ((a n : ℕ) → others a n g ≡ others a n f)

pub free_weight : (a n : ℕ) (b : Block) → is_free b.magic ≡ true → alloc_at a n b ≡ 0
unfolding alloc_at
free_weight a n b h = ground arith

free_not_in_use : (m : Magic) → is_free m ≡ true → is_alloc m ≡ false
free_not_in_use m h = ground arith

abbrev pub at : List Block → Block → List Block → Focus
at xs b ys = record { before = xs; block = b; after = ys }

pub used_not_tail : (m : Magic) → is_alloc m ≡ true → is_tail m ≡ false
used_not_tail m h = ground arith

pub used_not_free : (m : Magic) → is_alloc m ≡ true → is_free m ≡ false
used_not_free m h = ground arith

pub used_not_arena : (m : Magic) → is_alloc m ≡ true → is_arena m ≡ false
used_not_arena m h = ground arith

pub merge_back-Merges :
    (p : Pool) (xs ys : List Block) (b : Block)
    → IsLoose p (at xs b ys)
    → Merges (at xs b ys) (merge_back p (at xs b ys))
unfolding merge_back Merges joined
merge_back-Merges p [] ys b l = (l, λ a n. refl)
merge_back-Merges p (x ∷ xs) ys b l = elim (Bool-cases (is_free x.magic)) [
  | inl h ↦
      let (q, e, filled, s) =
        blockmerge-IsSound p xs ys x (idle b) (free_not_in_use x.magic h) refl (not_arena x.magic h)
          refl (not_tail x.magic h) refl l.sound in
      rw (h, blockmerge_right p x b l.not_free, e)
        (
          record { sound = s; not_free = refl; filled = filled },
          λ a n. omega (arith, free_weight a n x h),
        )
  | inr h ↦ rw h (l, λ a n. refl)
]

pub merge_forward-Merges :
    (p : Pool) (xs ys : List Block) (b : Block)
    → IsLoose p (at xs b ys)
    → Merges (at xs b ys) (merge_forward p (at xs b ys))
unfolding merge_forward Merges
merge_forward-Merges p xs [] b l = (l, λ a n. refl)
merge_forward-Merges p xs (y ∷ ys) b l = elim (Bool-cases (is_free y.magic)) [
  | inl h ↦
      let (q, e, filled, s) =
        blockmerge-IsSound p xs ys (idle b) y refl (free_not_in_use y.magic h) refl
          (not_arena y.magic h) refl (not_tail y.magic h) l.sound in
      rw (h, blockmerge_left p b y l.not_free, e)
        (
          record { sound = s; not_free = refl; filled = filled },
          λ a n. omega (arith, free_weight a n y h),
        )
  | inr h ↦ rw h (l, λ a n. refl)
]
