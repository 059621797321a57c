-- ===== src/Pool/Sound/Merge.antt =====
-- Two adjacent blocks can be merged.
use plan9_ocaml.Prelude.{
  some, if◌then◌else◌, List, ◌∷◌, ◌≡◌, Bool-cases, inl, inr, refl, add32, false, ℕ, arith, ◌<◌, ◌∙◌,
  ◌+◌, ap, ◌^◌, ◌%◌, add32_small, ◌==◌, true, sym,
}
use mathlib.Core.Path.{subst, sym}
use plan9_ocaml.Pool.{
  Pool, Block, unalloc_magic, taken_out, blockmerge, List, is_free, joined, add32, false, is_alloc,
  ℕ, is_arena, true, is_tail,
}
use plan9_ocaml.Pool.Total.{
  extent, total, total-joined, IsRow, IsRow-joined, IsRow-of_joined, IsNext, end_of,
}
use plan9_ocaml.Pool.Sound.{IsSound, free_at, free_size, alloc_size, pooldel-IsSound, arith, ap}

-- A block that is out of the tree, whether it was free or not.
abbrev pub loose : Block → Block
loose b = if is_free b.magic then record b { magic = unalloc_magic } else b

pub taken_out-IsSound :
    (p : Pool) (before after : List Block) (b : Block)
    → IsSound p (joined before (b ∷ after))
    → (q : Pool) × (taken_out p b ≡ some q) × IsSound q (joined before (loose b ∷ after))
unfolding taken_out
taken_out-IsSound p before after b s = elim (Bool-cases (is_free b.magic)) [
  | inl e ↦
      let (q, del, like, sound) = pooldel-IsSound p before after b e s in
      (q, rw (e, del) refl, rw e sound)
  | inr e ↦ (p, rw e refl, rw e s)
]

abbrev pub merged : (a b : Block) → Block
merged a b = record {
  addr = a.addr;
  size = add32 a.size b.size;
  magic = unalloc_magic;
  datasize = 0xFFFF;
}

-- A block that is neither free nor in use weighs nothing.
pub IsIdle : Block → Type 0
IsIdle b =
    (is_free b.magic ≡ false)
    × (is_alloc b.magic ≡ false)
    × (is_arena b.magic ≡ false)
    × (is_tail b.magic ≡ false)

pub loose-IsIdle :
    (b : Block)
    → is_alloc b.magic ≡ false
    → is_arena b.magic ≡ false
    → is_tail b.magic ≡ false
    → IsIdle (loose b)
unfolding IsIdle
loose-IsIdle b h k l = ground arith

IsRow-merged :
    (lo : ℕ) (a b : Block) (after : List Block)
    → is_arena a.magic ≡ false
    → is_arena b.magic ≡ false
    → is_tail a.magic ≡ false
    → is_tail b.magic ≡ false
    → IsRow lo (a ∷ b ∷ after)
    → (add32 a.addr a.size ≡ b.addr) × (0 < add32 a.size b.size) × IsRow lo (merged a b ∷ after)
unfolding IsRow IsNext
IsRow-merged lo a b after na nb ta tb ((le, adj, top, filled), ((le', adj', top', filled'), rest)) =
    let next = adj' nb in
    let ea : extent a ≡ a.size = rw ta refl in
    let eb : extent b ≡ b.size = rw tb refl in
    let sum : a.size + b.size < 2 ^ 32 = omega arith in
    let size : add32 a.size b.size ≡ a.size + b.size = add32_small a.size b.size sum in
    let end : a.addr + (a.size + b.size) ≡ b.addr + b.size = omega arith in
    (
      omega arith,
      rw size (omega arith),
      (
        (le, λ h. adj na, rw (size, end, sym eb) top', rw size (omega arith)),
        rw (size, end, sym eb) rest,
      ),
    )

lighter :
    (w : Block → ℕ) (before after : List Block) (a b c : Block)
    → w a ≡ 0
    → w b ≡ 0
    → w c ≡ 0
    → total w (joined before (a ∷ b ∷ after)) ≡ total w (joined before (c ∷ after))
lighter w before after a b c ha hb hc =
    omega (arith, total-joined w before (a ∷ b ∷ after), total-joined w before (c ∷ after))

loose-size : (b : Block) → (loose b).size ≡ b.size
loose-size b = ground arith

loose-addr : (b : Block) → (loose b).addr ≡ b.addr
loose-addr b = ground arith

-- The two blocks as one, when both are out of the tree.
merge-IsSound :
    (p : Pool) (before after : List Block) (a b : Block)
    → IsIdle a
    → IsIdle b
    → IsSound p (joined before (a ∷ b ∷ after))
    → (add32 a.addr a.size ≡ b.addr)
      × (0 < add32 a.size b.size)
      × IsSound p (joined before (merged a b ∷ after))
unfolding IsIdle
merge-IsSound p before after a b (fa, la, na, ta) (fb, lb, nb, tb) s =
    let (back, row) = IsRow-of_joined before (a ∷ b ∷ after) s.row in
    let (adjacent, filled, row') = IsRow-merged (end_of before) a b after na nb ta tb row in
    (
      adjacent,
      filled,
      record {
        row = IsRow-joined before (merged a b ∷ after) back row';
        agree = λ x n.
            s.agree x n
            ∙ lighter (free_at x n) before after a b (merged a b) (rw fa refl) (rw fb refl) refl;
        checked = s.checked;
        curfree =
            s.curfree
            ∙ ap (λ (t : ℕ). t % 2 ^ 32)
                (lighter free_size before after a b (merged a b) (rw fa refl) (rw fb refl) refl);
        curalloc =
            s.curalloc
            ∙ ap (λ (t : ℕ). t % 2 ^ 32)
                (lighter alloc_size before after a b (merged a b) (rw la refl) (rw lb refl) refl);
      },
    )

-- `blockmerge` of two blocks that follow one another, neither in use, does not panic.
pub blockmerge-IsSound :
    (p : Pool) (before after : List Block) (a b : Block)
    → is_alloc a.magic ≡ false
    → is_alloc b.magic ≡ false
    → is_arena a.magic ≡ false
    → is_arena b.magic ≡ false
    → is_tail a.magic ≡ false
    → is_tail b.magic ≡ false
    → IsSound p (joined before (a ∷ b ∷ after))
    → (q : Pool) × (blockmerge p a b ≡ some (q, merged a b))
      × (0 < (merged a b).size)
      × IsSound q (joined before (merged a b ∷ after))
unfolding blockmerge joined
blockmerge-IsSound p before after a b la lb na nb ta tb s =
    let (q, e, s₁) = taken_out-IsSound p before (b ∷ after) a s in
    let (r, e', s₂) = taken_out-IsSound q (loose a ∷ before) after b s₁ in
    let (adjacent, filled, s₃) =
      merge-IsSound r before after (loose a) (loose b) (loose-IsIdle a la na ta)
        (loose-IsIdle b lb nb tb) s₂ in
    let same : merged (loose a) (loose b) ≡ merged a b =
      ground (arith, loose-size a, loose-size b, loose-addr a) in
    let test : (add32 a.addr a.size == b.addr) ≡ true =
      ground (arith, adjacent, loose-size a, loose-addr a, loose-addr b) in
    (
      r,
      rw (test, e, e') refl,
      rw (sym (loose-size a), sym (loose-size b)) filled,
      subst (λ (c : Block). IsSound r (joined before (c ∷ after))) same s₃,
    )
