-- ===== src/Pool/Compact.antt =====
-- kernel/Libc/port/pool.c: `poolcompactl`, for a pool with `p->move`, whose blocks in use may be moved.
-- What `p->move` does with the two addresses is not modelled.
use mathlib.Core.Option as Option
use plan9_ocaml.Prelude.{
  [], some, ℕ, List, Option, ◌∷◌, add32, sub32, ltb, ◌==◌, ◌||◌, not, if◌then◌else◌, and_then,
  false, ◌≡◌, refl,
}
use plan9_ocaml.Pool.{
  Pool, Block, unalloc_magic, pooladd, pooldel, is_free, is_alloc, is_arena, is_tail,
}

-- The end of an arena, with the free block that the gap from `wb` to its tail makes.
unfoldable pub closed : Pool → (wb : ℕ) → (tail : Block) → List Block → Pool × List Block
closed p wb b bs =
    let (q, c) =
      pooladd p
        (record { addr = wb; size = sub32 b.addr wb; magic = unalloc_magic; datasize = 0 }) in
    if ltb wb b.addr then (q, c ∷ b ∷ bs) else (p, b ∷ bs)

-- The blocks of an arena up to its tail, moved down to `wb`: the free ones leave the tree, and those in
-- use follow one another. What is behind the tail stays.
unfoldable pub moved_down : Pool → (wb : ℕ) → List Block → Option (Pool × List Block)
moved_down p wb [] = some (p, [])
moved_down p wb (b ∷ bs) =
    let moved =
      Option.map {B = Pool × List Block}
        (λ (r : Pool × List Block). (r.0, record b { addr = wb } ∷ r.1))
        (moved_down p (add32 wb b.size) bs) in
    let freed =
      and_then {B = Pool × List Block} (pooldel p b) (λ (r : Pool × Block). moved_down r.0 wb bs) in
    let passed = moved_down p wb bs in
    if is_tail b.magic
    then some (closed p wb b bs)
    else if is_free b.magic
    then freed
    else if is_alloc b.magic
    then moved
    else passed

-- Every arena, the one with the highest address first.
unfoldable pub arenas_compacted : Pool → List Block → Option (Pool × List Block)
arenas_compacted p [] = some (p, [])
arenas_compacted p (b ∷ bs) =
    let rest = arenas_compacted p bs in
    if is_arena b.magic
    then and_then {B = Pool × List Block} rest (λ (r : Pool × List Block).
      Option.map {B = Pool × List Block} (λ (t : Pool × List Block). (t.0, b ∷ t.1))
        (moved_down r.0 (add32 b.addr b.size) r.1))
    else Option.map {B = Pool × List Block} (λ (r : Pool × List Block). (r.0, b ∷ r.1)) rest

unfoldable pub poolcompactl : Pool → Option Pool
poolcompactl p =
    if not p.move || (p.lastcompact == p.nfree)
    then some p
    else Option.map {B = Pool} (λ (r : Pool × List Block). record r.0 { blocks = r.1 })
        (arenas_compacted (record p { lastcompact = p.nfree }) p.blocks)

pub poolcompactl-fixed : (p : Pool) → p.move ≡ false → poolcompactl p ≡ some p
unfolding poolcompactl
poolcompactl-fixed p h = rw h refl
