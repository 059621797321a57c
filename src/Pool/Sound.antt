-- ===== src/Pool/Sound.antt =====
-- What ties the tree and the counters of a pool to its blocks, and that a block can go into the tree
-- and come out of it.
pub mod Merge
pub mod Split
pub mod Trim
pub mod Neighbours
pub mod Align
pub mod Absent
pub mod Release
pub mod Alloc
pub mod Grow
pub mod Extend
pub mod Result
pub mod Tests
use plan9_ocaml.Prelude.{
  [], none, some, zero, suc, ℕ, List, if◌then◌else◌, ◌≡◌, ◌∷◌, ◌+◌, ◌&&◌, ◌^◌, ◌<◌, true, arith,
  ◌==◌, ◌%◌, false, ap, ◌∙◌, sym, refl, ◌||◌, sub32, Option,
}
use plan9_ocaml.Pool.Tree.{treelookup, tree_add, tree_del}
use plan9_ocaml.Pool.Tree.Order.{IsChecked, tree_add-IsChecked, tree_del-IsChecked}
use plan9_ocaml.Pool.Tree.Held.{occurs, held, held-tree_add, held-tree_del}
use plan9_ocaml.Pool.{
  Pool, Block, Magic, free_magic, alloc_magic, unalloc_magic, pooladd, pooldel, getdsize, ℕ, List,
  is_free, is_alloc, is_arena, joined, true, false, sub32, Option, is_tail,
}
use plan9_ocaml.Pool.Total.{
  total, total-joined, IsRow, IsRow-joined, IsRow-of_joined, IsNext, end_of, IsBack, extent,
}

-- Whether the block is free, at `a` and of size `n`, as a number.
abbrev pub free_at : (a n : ℕ) → Block → ℕ
free_at a n b = if is_free b.magic && ((b.addr == a) && (b.size == n)) then 1 else 0

-- Whether it is in use, at `a` with `d` bytes of data.
pub alloc_at : (a d : ℕ) → Block → ℕ
alloc_at a d b = if is_alloc b.magic && ((b.addr == a) && (getdsize b == d)) then 1 else 0

abbrev pub free_size : Block → ℕ
free_size b = if is_free b.magic then b.size else 0

abbrev pub alloc_size : Block → ℕ
alloc_size b = if is_alloc b.magic then b.size else 0

-- The pool with the blocks `bs`: they follow one another, the tree holds just the free ones, in order,
-- and the two counters are the sums of the sizes.
pub record IsSound (p : Pool) (bs : List Block) : Type 0 where
  pub row : IsRow 0 bs
  pub agree : (a n : ℕ) → held a n p.freeroot ≡ total (free_at a n) bs
  pub checked : IsChecked 0 (2 ^ 32) p.freeroot
  pub curfree : p.curfree ≡ total free_size bs % 2 ^ 32
  pub curalloc : p.curalloc ≡ total alloc_size bs % 2 ^ 32

-- The block with another magic, for one that is neither before nor after an arena's.
pub IsRow-magic :
    (lo : ℕ) (b c : Block) (bs : List Block)
    → c.addr ≡ b.addr
    → extent c ≡ extent b
    → is_arena b.magic ≡ false
    → IsRow lo (b ∷ bs)
    → IsRow lo (c ∷ bs)
unfolding IsRow IsNext
IsRow-magic lo b c bs ea es m ((le, adj, top, filled), rest) =
    ((rw ea le, λ h. adj m ∙ sym ea, rw (ea, es) top, rw es filled), rw (ea, es) rest)

pub row-size :
    (lo : ℕ) (b : Block) (bs : List Block)
    → is_tail b.magic ≡ false
    → IsRow lo (b ∷ bs)
    → b.size < 2 ^ 32
unfolding IsRow IsNext
row-size lo b bs h ((le, adj, top, filled), rest) = ground arith

pub row_filled :
    (lo : ℕ) (b : Block) (bs : List Block)
    → is_tail b.magic ≡ false
    → IsRow lo (b ∷ bs)
    → 0 < b.size
unfolding IsRow IsNext
row_filled lo b bs h ((le, adj, top, filled), rest) = ground arith

pub not_tail : (m : Magic) → is_free m ≡ true → is_tail m ≡ false
not_tail m h = ground arith

pub not_arena : (m : Magic) → is_free m ≡ true → is_arena m ≡ false
not_arena m h = ground arith

free_not_alloc : (m : Magic) (n : ℕ) → is_free m ≡ true → (if is_alloc m then n else 0) ≡ 0
free_not_alloc m n h = ground arith

-- A sum over blocks of which one is exchanged.
pub total-exchanged :
    (w : Block → ℕ) (before after : List Block) (b c : Block) (x y : ℕ)
    → w c + x ≡ w b + y
    → total w (joined before (c ∷ after)) + x ≡ total w (joined before (b ∷ after)) + y
total-exchanged w before after b c x y h =
    omega (arith, total-joined w before (c ∷ after), total-joined w before (b ∷ after))

-- The pools have the same settings.
pub IsLike : Pool → Pool → Type 0
IsLike p q =
    (q.quantum ≡ p.quantum)
    × (q.minblock ≡ p.minblock)
    × (q.minarena ≡ p.minarena)
    × (q.noreuse ≡ p.noreuse)

taken : Pool → Block → Pool
taken p b = record p {
  freeroot = tree_del p.freeroot b.size b.addr;
  curfree = sub32 p.curfree b.size;
}

pooldel-eq :
    (p : Pool) (b : Block)
    → 0 < held b.addr b.size p.freeroot
    → pooldel p b ≡ some (taken p b, record b { magic = unalloc_magic })
unfolding pooldel taken
pooldel-eq p b h = some_block (treelookup p.freeroot b.size) h
  where
    some_block :
        (xs : List ℕ)
        → 0 < occurs b.addr xs
        → ◌≡◌ {A = Option (Pool × Block)}
            (elim xs [ [] ↦ none | c ∷ cs ↦ some (taken p b, record b { magic = unalloc_magic }) ])
            (some (taken p b, record b { magic = unalloc_magic }))
    some_block [] k = absurd (omega arith)
    some_block (x ∷ xs) k = refl

module _ (p : Pool) (before after : List Block) (b : Block) where
  pub pooladd-IsSound :
      b.magic ≡ unalloc_magic
      → 0 < b.size
      → IsSound p (joined before (b ∷ after))
      → let (q, c) = pooladd p b in IsSound q (joined before (c ∷ after))
  unfolding pooladd
  pooladd-IsSound m pos_b s =
      let c : Block = record b { magic = free_magic } in
      let (back, row) = IsRow-of_joined before (b ∷ after) s.row in
      let small : b.size < 2 ^ 32 =
        omega (arith, row-size (end_of before) b after (ap (λ (g : Magic). is_tail g) m) row) in
      let old = ap (λ (g : Magic). is_free g) m in
      let old' = ap (λ (g : Magic). is_alloc g) m in
      record {
        row = IsRow-joined before (c ∷ after) back (
            IsRow-magic (end_of before) b c after refl (ground arith)
              (ap (λ (g : Magic). is_arena g) m) row);
        agree = λ a n.
            let added = held-tree_add p.freeroot b.size b.addr 0 (2 ^ 32) a n s.checked in
            let same = s.agree a n in
            let weight : free_at a n b ≡ 0 = rw old refl in
            let sums =
              total-exchanged (free_at a n) before after b c 0
                (if (b.addr == a) && (b.size == n) then 1 else 0) (omega (arith, weight)) in
            omega (arith, added, same, sums);
        checked = tree_add-IsChecked p.freeroot b.size b.addr 0 (2 ^ 32) pos_b small s.checked;
        curfree =
            let weight : free_size b ≡ 0 = rw old refl in
            let sums =
              total-exchanged free_size before after b c 0 b.size (omega (arith, weight)) in
            omega (arith, s.curfree, sums);
        curalloc =
            let weight : alloc_size b ≡ 0 = rw old' refl in
            let sums = total-exchanged alloc_size before after b c 0 0 (omega (arith, weight)) in
            omega (arith, s.curalloc, sums);
      }

  held_free :
      is_free b.magic ≡ true
      → IsSound p (joined before (b ∷ after))
      → 0 < held b.addr b.size p.freeroot
  held_free m s =
      let weight : free_at b.addr b.size b ≡ 1 = rw m (ground arith) in
      omega (
        arith,
        s.agree b.addr b.size,
        total-joined (free_at b.addr b.size) before (b ∷ after),
        weight,
      )

  -- The block out of the tree; the assertion of `pooldel` does not fail.
  pub pooldel-IsSound :
      is_free b.magic ≡ true
      → IsSound p (joined before (b ∷ after))
      → let c : Block = record b { magic = unalloc_magic } in
        (q : Pool) × (pooldel p b ≡ some (q, c))
        × IsLike p q
        × IsSound q (joined before (c ∷ after))
  unfolding taken IsLike
  pooldel-IsSound m s =
      let c : Block = record b { magic = unalloc_magic } in
      let (back, row) = IsRow-of_joined before (b ∷ after) s.row in
      let small : b.size < 2 ^ 32 =
        omega (arith, row-size (end_of before) b after (not_tail b.magic m) row) in
      let pos_b : 0 < b.size = row_filled (end_of before) b after (not_tail b.magic m) row in
      (
        taken p b,
        pooldel-eq p b (held_free m s),
        (refl, refl, refl, refl),
        record {
          row =
              IsRow-joined before (c ∷ after) back (
                IsRow-magic (end_of before) b c after refl (ground arith) (not_arena b.magic m)
                  row);
          agree = λ a n.
              let gone = held-tree_del p.freeroot b.size b.addr 0 (2 ^ 32) a n s.checked in
              let same = s.agree a n in
              let weight : free_at a n b ≡ (if (b.addr == a) && (b.size == n) then 1 else 0) =
                rw m refl in
              let sums =
                total-exchanged (free_at a n) before after b c
                  (if (b.addr == a) && (b.size == n) then 1 else 0) 0 (omega (arith, weight)) in
              omega (arith, gone, same, sums);
          checked = tree_del-IsChecked p.freeroot b.size b.addr 0 (2 ^ 32) pos_b small s.checked;
          curfree =
              let weight : free_size b ≡ b.size = rw m refl in
              let sums =
                total-exchanged free_size before after b c b.size 0 (omega (arith, weight)) in
              omega (arith, s.curfree, sums);
          curalloc =
              let weight : alloc_size b ≡ 0 = free_not_alloc b.magic b.size m in
              let sums = total-exchanged alloc_size before after b c 0 0 (omega (arith, weight)) in
              omega (arith, s.curalloc, sums);
        },
      )
