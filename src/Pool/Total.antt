-- ===== src/Pool/Total.antt =====
-- Sums over the blocks of a pool, and the order of their addresses.
use plan9_ocaml.Prelude.{
  [], some, ℕ, List, ◌∷◌, ◌++◌, ◌≡◌, ◌≤◌, Bool-cases, ◌+◌, arith, ◌==◌, false, ◌<◌, inl, inr, ◌^◌,
  if◌then◌else◌,
}
use plan9_ocaml.Pool.{
  Block, Focus, joined, focus_from, ℕ, List, is_arena, false, is_tail, bhdr_size,
}

abbrev pub total : (Block → ℕ) → List Block → ℕ
total w [] = 0
total w (b ∷ bs) = w b + total w bs

pub total-append :
    (w : Block → ℕ) (xs ys : List Block) → total w (xs ++ ys) ≡ total w xs + total w ys
total-append w [] ys = omega arith
total-append w (x ∷ xs) ys = omega (arith, total-append w xs ys)

pub total-joined :
    (w : Block → ℕ) (xs ys : List Block) → total w (joined xs ys) ≡ total w xs + total w ys
unfolding joined
total-joined w [] ys = omega arith
total-joined w (x ∷ xs) ys = omega (arith, total-joined w xs (x ∷ ys))

-- A focus is on a block of the address, and puts together the sequence it comes from.
unfoldable pub IsFocus : (before : List Block) (a : ℕ) (bs : List Block) → Focus → Type 0
IsFocus before a bs f =
    (f.block.addr ≡ a) × (joined f.before (f.block ∷ f.after) ≡ joined before bs)

pub focus_from-IsFocus :
    (before : List Block) (a : ℕ) (bs : List Block) (f : Focus)
    → focus_from before a bs ≡ some f
    → IsFocus before a bs f
unfolding focus_from IsFocus joined
focus_from-IsFocus before a [] f e = absurd cc
focus_from-IsFocus before a (b ∷ bs) f e = elim (Bool-cases (b.addr == a)) [
  | inl h ↦ ground arith
  | inr h ↦ focus_from-IsFocus (b ∷ before) a bs f (ground arith)
]

-- How many bytes a block takes: the tail of an arena, of size 0, takes those of its header.
abbrev pub extent : Block → ℕ
extent b = if is_tail b.magic then bhdr_size else b.size

-- A block with nothing between `lo` and it, but where it begins an arena; it ends below 2 ^ 32, and
-- is not empty.
unfoldable pub IsNext : ℕ → Block → Type 0
IsNext lo b =
    (lo ≤ b.addr)
    × (is_arena b.magic ≡ false → lo ≡ b.addr)
    × (b.addr + extent b < 2 ^ 32)
    × (0 < extent b)

unfoldable pub IsRow : ℕ → List Block → Type 0
unfolding IsNext
IsRow lo [] = Unit
IsRow lo (b ∷ bs) = IsNext lo b × IsRow (b.addr + extent b) bs

-- The same for blocks of which the last comes first, and where they end.
abbrev pub end_of : List Block → ℕ
end_of [] = 0
end_of (b ∷ bs) = b.addr + extent b

pub IsBack : List Block → Type 0
unfolding IsNext
IsBack [] = Unit
IsBack (b ∷ bs) = IsNext (end_of bs) b × IsBack bs

pub IsRow-joined : (xs ys : List Block) → IsBack xs → IsRow (end_of xs) ys → IsRow 0 (joined xs ys)
unfolding joined IsBack IsRow
IsRow-joined [] ys h k = k
IsRow-joined (x ∷ xs) ys (h, hs) k = IsRow-joined xs (x ∷ ys) hs (h, k)

pub IsRow-of_joined :
    (xs ys : List Block) → IsRow 0 (joined xs ys) → IsBack xs × IsRow (end_of xs) ys
unfolding joined IsBack IsRow
IsRow-of_joined [] ys h = (tt, h)
IsRow-of_joined (x ∷ xs) ys h =
    let (back, (next, rest)) = IsRow-of_joined xs (x ∷ ys) h in ((next, back), rest)
