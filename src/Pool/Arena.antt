-- ===== src/Pool/Arena.antt =====
-- kernel/Libc/port/pool.c: arenas, and the allocation of blocks.
-- `got` is what the coarser allocator `p->alloc` gives for the arena, and `merge` whether `p->merge`
-- joined the two arenas at these addresses.
use mathlib.Core.Option.{Option}
pub mod Tests
use plan9_ocaml.Prelude.{
  [], none, some, zero, suc, List, ℕ, Option, ◌∷◌, Bool, sub32, if◌then◌else◌, add32, ltb, leb,
  ◌++◌, ◌&&◌, and_then,
}
use mathlib.Core.Option as Option
use plan9_ocaml.Pool.Tree.{Free, treelookup, treelookupgt}
use plan9_ocaml.Pool.Compact.{poolcompactl}
use plan9_ocaml.Pool.{
  Pool, Block, Magic, Focus, Trimmed, free_magic, alloc_magic, unalloc_magic, arena_magic,
  arenatail_magic, List, pooladd, pooldel, ℕ, focus_from, dsize2bsize, blockmerge, trim, Bool,
  sub32, joined, bsize2asize, getdsize, add32, ltb, is_arena, is_free, bhdr_size, leb, arena_size,
  and_then,
}

-- The blocks of a new arena at `a` in front of the first block of the sequence behind them.
unfoldable pub place : (a : ℕ) (new : List Block) → List Block → List Block
place a new [] = new
place a new (b ∷ bs) = let rest = place a new bs in if ltb a b.addr then new ++ b ∷ bs else b ∷ rest

-- The header of the arena that a block of the sequence stands in, from the nearest one back.
pub arena_of : List Block → Option ℕ
arena_of [] = none
arena_of (b ∷ bs) = if is_arena b.magic then some b.addr else arena_of bs

-- `blockgrow` on the block with those behind it: the pool and the blocks in their place.
pub grown_free : (nsize : ℕ) → (after : List Block) → Pool × Block → Option (Pool × List Block)
grown_free nsize after (p, b) =
    Option.map {B = Pool × List Block}
      (λ (r : (Pool × Block) × List Block). let (q, c) = pooladd r.0.0 r.0.1 in (q, c ∷ r.1))
      (elim after [
        | [] ↦ some ((p, record b { size = nsize }), [])
        | n ∷ ns ↦
            if is_free n.magic
            then Option.map {B = (Pool × Block) × List Block} (λ (r : Pool × Block). (r, ns))
                (blockmerge p (record b { size = nsize }) n)
            else some ((p, record b { size = nsize }), n ∷ ns)
      ])

pub blockgrow : Pool → Block → (nsize : ℕ) → (after : List Block) → Option (Pool × List Block)
blockgrow p b nsize after =
    if is_free b.magic
    then and_then {B = Pool × List Block} (pooldel p b) (grown_free nsize after)
    else Option.map {B = Pool × List Block} (λ (t : Trimmed). (t.pool, t.block ∷ t.frag ++ after))
        (trim p (record b { size = nsize }) (getdsize b))

-- The last block before the tail, grown up to the first block behind the header in focus.
pub joined_arena : Pool → Focus → Option Pool
joined_arena p f = elim f.before [
  | [] ↦ none
  | t ∷ ts ↦ elim ts [
    | [] ↦ none
    | last ∷ bs ↦ elim f.after [
      | [] ↦ none
      | first ∷ fs ↦
          Option.map {B = Pool} (λ (r : Pool × List Block). record r.0 { blocks = joined bs r.1 })
            (blockgrow p last (sub32 first.addr last.addr) (first ∷ fs))
    ]
  ]
]

-- The arena with the header in focus joined to the one before it, if there is one.
unfoldable pub merge_down : (merge : ℕ → ℕ → Bool) → Pool → Focus → Option Pool
merge_down merge p f = elim (arena_of f.before) [
  | none ↦ some p
  | some bot ↦ if merge bot f.block.addr then joined_arena p f else some p
]

-- `top` is the address of a header.
unfoldable pub arenamerge : (merge : ℕ → ℕ → Bool) → Pool → (top : ℕ) → Option Pool
arenamerge merge p top = elim (focus_from [] top p.blocks) [
  | none ↦ none
  | some f ↦ merge_down merge p f
]

-- The header of the arena above, which follows the tail of the arena with a header at `a`.
unfoldable pub above : (a : ℕ) → List Block → Option ℕ
above a [] = none
above a (b ∷ bs) = if is_arena b.magic && ltb a b.addr then some b.addr else above a bs

-- A new arena at `a`, of `asize` bytes.
unfoldable pub new_arena : Pool → (a asize : ℕ) → Pool
new_arena p a asize =
    let tail = sub32 (add32 a asize) bhdr_size in
    let first = add32 a arena_size in
    let (q, b) =
      pooladd (record p { cursize = add32 p.cursize asize })
        (record { addr = first; size = sub32 tail first; magic = unalloc_magic; datasize = 0 }) in
    record q {
      blocks =
          place a
            (record { addr = a; size = arena_size; magic = arena_magic; datasize = 0 }
              ∷ b
              ∷ record { addr = tail; size = 0; magic = arenatail_magic; datasize = 0 }
              ∷ [])
            q.blocks;
    }

-- The two merges of a new arena at `a`, upwards first.
unfoldable pub merge_both : (merge : ℕ → ℕ → Bool) → (a : ℕ) → Pool → Option Pool
merge_both merge a p =
    and_then {B = Pool}
      (elim (above a p.blocks) [ none ↦ some p | some top ↦ arenamerge merge p top ])
      (λ (q : Pool). arenamerge merge q a)

unfoldable pub poolnewarena :
    (got : Option ℕ) → (merge : ℕ → ℕ → Bool) → Pool → (asize : ℕ) → Option Pool
poolnewarena got merge p asize =
    if ltb p.maxsize (add32 p.cursize asize)
    then poolcompactl p
    else elim got [ none ↦ some p | some a ↦ merge_both merge a (new_arena p a asize) ]

-- The block at the head of the list that the tree gave, cut to the data.
unfoldable pub take_block : Pool → (dsize : ℕ) → List ℕ → Option (Option ℕ × Pool)
take_block p dsize [] = none
take_block p dsize (a ∷ others) =
    and_then {B = Option ℕ × Pool} (focus_from [] a p.blocks) (λ (f : Focus).
      and_then {B = Option ℕ × Pool} (pooldel p f.block) (λ (r : Pool × Block).
        Option.map {B = Option ℕ × Pool}
          (λ (t : Trimmed). (
            some (add32 t.block.addr bhdr_size),
            record t.pool {
              curalloc = add32 t.pool.curalloc t.block.size;
              blocks = joined f.before (t.block ∷ t.frag ++ f.after);
            },
          ))
          (trim r.0 r.1 dsize)))

-- The second search, after the attempt to get an arena.
unfoldable pub second_try : (dsize : ℕ) → Pool → Option (Option ℕ × Pool)
second_try dsize p = elim (treelookupgt p.freeroot (dsize2bsize p dsize)) [
  | none ↦ some (none, p)
  | some (m, bs) ↦ take_block p dsize bs
]

-- The address of the data, if there is a block, and the pool.
unfoldable pub poolallocl :
    (got : Option ℕ) → (merge : ℕ → ℕ → Bool) → Pool → (dsize : ℕ) → Option (Option ℕ × Pool)
poolallocl got merge p dsize =
    if leb 0x80000000 dsize
    then some (none, p)
    else elim (treelookupgt p.freeroot (dsize2bsize p dsize)) [
      | none ↦
          and_then {B = Option ℕ × Pool}
            (poolnewarena got merge p (bsize2asize p (dsize2bsize p dsize))) (second_try dsize)
      | some (m, bs) ↦ take_block p dsize bs
    ]
