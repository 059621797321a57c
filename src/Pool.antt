-- ===== src/Pool.antt =====
-- kernel/Libc/port/pool.c: the pool allocator, its blocks and how they are split, merged and freed.
-- The memory of a pool is the sequence of its blocks in the order of their addresses: of each arena the
-- header block, the blocks, and the tail. The block after a block in the sequence is the one that B2NB
-- points to, and the block before it the one that T2HDR and B2PT point to. What is in the blocks is not
-- modelled, nor the checks and prints for debugging. `none` is a panic or a failed assertion. D2B reads
-- words in front of the data: it takes the memory, a function from addresses to words, as an argument.
-- An address or a size is a 32-bit number; a pointer has 4 bytes.
pub mod Tree
pub mod Compact
pub mod Arena
pub mod Total
pub mod Sound
use mathlib.Core.Option.{Option}
use mathlib.Core.Option as Option
use plan9_ocaml.Prelude.{
  [], none, some, zero, suc, Bool, ℕ, add32, List, Option, ◌∷◌, true, sub32, ◌-◌, if◌then◌else◌,
  ◌+◌, false, ltb, leb, ◌%◌, ◌==◌, ◌&&◌, ◌||◌, ◌/◌, and_then,
}
use plan9_ocaml.Pool.Tree.{Free, treelookup, treelookupgt, tree_add, tree_del}

pub data Magic : Type 0 where
  free_magic : Magic
  alloc_magic : Magic
  unalloc_magic : Magic
  dead_magic : Magic
  arena_magic : Magic
  arenatail_magic : Magic

abbrev pub is_free : Magic → Bool
is_free free_magic = true
is_free alloc_magic = false
is_free unalloc_magic = false
is_free dead_magic = false
is_free arena_magic = false
is_free arenatail_magic = false

abbrev pub is_alloc : Magic → Bool
is_alloc alloc_magic = true
is_alloc free_magic = false
is_alloc unalloc_magic = false
is_alloc dead_magic = false
is_alloc arena_magic = false
is_alloc arenatail_magic = false

abbrev pub is_arena : Magic → Bool
is_arena arena_magic = true
is_arena free_magic = false
is_arena alloc_magic = false
is_arena unalloc_magic = false
is_arena dead_magic = false
is_arena arenatail_magic = false

abbrev pub is_tail : Magic → Bool
is_tail arenatail_magic = true
is_tail free_magic = false
is_tail alloc_magic = false
is_tail unalloc_magic = false
is_tail dead_magic = false
is_tail arena_magic = false

-- A header, and the number `datasize` of the tail, by which the data is shorter than the block.
pub record Block : Type 0 where
  pub addr : ℕ
  pub size : ℕ
  pub magic : Magic
  pub datasize : ℕ

-- `move` tells whether there is a function `p->move`, `noreuse` whether the flag POOL_NOREUSE is set.
pub record Pool : Type 0 where
  pub maxsize : ℕ
  pub cursize : ℕ
  pub curfree : ℕ
  pub curalloc : ℕ
  pub minarena : ℕ
  pub quantum : ℕ
  pub minblock : ℕ
  pub freeroot : Free
  pub blocks : List Block
  pub nfree : ℕ
  pub lastcompact : ℕ
  pub move : Bool
  pub noreuse : Bool

-- The sizes of the structures Bhdr, Btail, Arena, and MINBLOCKSIZE.
abbrev pub bhdr_size : ℕ
bhdr_size = 8

abbrev pub btail_size : ℕ
btail_size = 8

abbrev pub arena_size : ℕ
arena_size = 24

abbrev pub minblocksize : ℕ
minblocksize = 32

-- `x & ~(quantum-1)`, for a power of two.
abbrev pub round_down : (quantum x : ℕ) → ℕ
round_down q x = x - x % q

abbrev pub at_least : ℕ → ℕ → ℕ
at_least m x = if ltb x m then m else x

pub dsize2bsize : Pool → (sz : ℕ) → ℕ
dsize2bsize p sz =
    let need = at_least minblocksize (at_least p.minblock (add32 sz (bhdr_size + btail_size))) in
    round_down p.quantum (sub32 (add32 need p.quantum) 1)

pub bsize2asize : Pool → (sz : ℕ) → ℕ
bsize2asize p sz =
    round_down p.quantum
      (add32 (at_least p.minarena (add32 sz (arena_size + btail_size))) p.quantum)

-- The size of the data that was asked for.
pub getdsize : Block → ℕ
getdsize b = sub32 b.size b.datasize

-- The pool with the block in the tree, and the block.
pub pooladd : Pool → Block → Pool × Block
pooladd p b = (
  record p { freeroot = tree_add p.freeroot b.size b.addr; curfree = add32 p.curfree b.size },
  record b { magic = free_magic },
)

pub pooldel : Pool → Block → Option (Pool × Block)
pooldel p b = elim (treelookup p.freeroot b.size) [
  | [] ↦ none
  | c ∷ cs ↦ some (
    record p { freeroot = tree_del p.freeroot b.size b.addr; curfree = sub32 p.curfree b.size },
    record b { magic = unalloc_magic },
  )
]

-- The block leaves the tree if it is free.
pub taken_out : Pool → Block → Option Pool
taken_out p b =
    if is_free b.magic
    then Option.map {B = Pool} (λ (r : Pool × Block). r.0) (pooldel p b)
    else some p

pub blockmerge : Pool → (a b : Block) → Option (Pool × Block)
blockmerge p a b =
    if add32 a.addr a.size == b.addr
    then Option.map {B = Pool × Block}
        (λ (q : Pool). (
          q,
          record {
            addr = a.addr;
            size = add32 a.size b.size;
            magic = unalloc_magic;
            datasize = 0xFFFF;
          },
        ))
        (and_then {B = Pool} (taken_out p a) (λ (q : Pool). taken_out q b))
    else none

-- The end of `trim`, and `blocksetdsize`.
pub blocksetdsize : Pool → Block → (dsize : ℕ) → Option Block
blocksetdsize p b dsize =
    if leb (dsize2bsize p dsize) b.size && ltb (sub32 b.size dsize) 0x10000
    then some (record b { datasize = sub32 b.size dsize })
    else none

-- Whether the rest of a block, behind `bsize` bytes, is worth a block of its own.
pub is_spare : Pool → Block → (dsize bsize : ℕ) → Bool
is_spare p b dsize bsize =
    let extra = sub32 b.size bsize in
    leb 0x10000 (sub32 b.size dsize)
    || (leb (bsize / 4) extra && leb minblocksize extra && leb p.minblock extra)

-- What `trim` leaves: the pool, the block in use, and the free block behind it, if any.
pub record Trimmed : Type 0 where
  pub pool : Pool
  pub block : Block
  pub frag : List Block

pub finish : Pool → (frag : List Block) → Block → (dsize : ℕ) → Option Trimmed
finish p frag b dsize =
    Option.map {B = Trimmed} (λ (c : Block). record { pool = p; block = c; frag = frag })
      (blocksetdsize p (record b { magic = alloc_magic }) dsize)

-- The block cut to `bsize` bytes, and the free block of what is behind.
pub cut : Pool → Block → (dsize bsize : ℕ) → Option Trimmed
cut p b dsize bsize =
    let (q, frag) = pooladd p (record {
      addr = add32 b.addr bsize;
      size = sub32 b.size bsize;
      magic = unalloc_magic;
      datasize = 0;
    }) in
    finish q (frag ∷ []) (record b { size = bsize }) dsize

pub trim : Pool → Block → (dsize : ℕ) → Option Trimmed
trim p b dsize =
    let bsize = dsize2bsize p dsize in
    if is_spare p b dsize bsize then cut p b dsize bsize else finish p [] b dsize

-- A block of the sequence, with those before it, the nearest first, and those after it.
pub record Focus : Type 0 where
  pub before : List Block
  pub block : Block
  pub after : List Block

pub focus_from : (before : List Block) → (addr : ℕ) → List Block → Option Focus
focus_from before a [] = none
focus_from before a (b ∷ bs) =
    if b.addr == a
    then some (record { before = before; block = b; after = bs })
    else focus_from (b ∷ before) a bs

-- The sequence that has `after` behind `before`.
pub joined : (before after : List Block) → List Block
joined [] after = after
joined (b ∷ bs) after = joined bs (b ∷ after)

abbrev pub align_magic : ℕ
align_magic = 0xA1F1D1C1

-- The start of the data, in front of the words ALIGN_MAGIC that `poolallocalignl` puts there; `none` is a
-- read below address 0, by when the rounds run out.
pub data_start : (mem : ℕ → ℕ) → (rounds u : ℕ) → Option ℕ
data_start mem zero u = none
data_start mem (suc k) u =
    let further = data_start mem k (u - 4) in
    if ltb u 4 then none else if mem (u - 4) == align_magic then further else some u

abbrev pub start_of_data : (mem : ℕ → ℕ) → (v : ℕ) → Option ℕ
start_of_data mem v = data_start mem (v / 4 + 1) (round_down 4 v)

-- D2B: the block of the data at `v`, from a multiple of 4 down. Where no block begins, `none` is the
-- panic, and also that the data there looks like a block in use, which the source then takes for one.
pub d2b : (mem : ℕ → ℕ) → Pool → (v : ℕ) → Option Focus
d2b mem p v = and_then {B = Focus} (start_of_data mem v) (λ (u : ℕ).
    and_then {B = Focus} (focus_from [] (sub32 u bhdr_size) p.blocks)
      (λ (f : Focus). if is_alloc f.block.magic then some f else none))

-- A freed block with the free block before it, if there is one,
pub merge_back : Pool → Focus → Option (Pool × Focus)
merge_back p f = elim f.before [
  | [] ↦ some (p, f)
  | b ∷ bs ↦
      if is_free b.magic
      then Option.map {B = Pool × Focus}
          (λ (r : Pool × Block). (r.0, record { before = bs; block = r.1; after = f.after }))
          (blockmerge p b f.block)
      else some (p, f)
]

-- and with the one after it.
pub merge_forward : Pool → Focus → Option (Pool × Focus)
merge_forward p f = elim f.after [
  | [] ↦ some (p, f)
  | b ∷ bs ↦
      if is_free b.magic
      then Option.map {B = Pool × Focus}
          (λ (r : Pool × Block). (r.0, record { before = f.before; block = r.1; after = bs }))
          (blockmerge p f.block b)
      else some (p, f)
]

-- The merged block goes into the tree and the sequence.
pub put_free : Pool × Focus → Pool
put_free (p, f) =
    let (q, b) = pooladd p f.block in record q { blocks = joined f.before (b ∷ f.after) }

pub release : Pool → Focus → Option Pool
release p f =
    if p.noreuse
    then some
        (record p { blocks = joined f.before (record f.block { magic = dead_magic } ∷ f.after) })
    else let q = record p { nfree = add32 p.nfree 1; curalloc = sub32 p.curalloc f.block.size } in
      Option.map {B = Pool} put_free
        (and_then {B = Pool × Focus} (merge_back q f) (λ (r : Pool × Focus). merge_forward r.0 r.1))

pub poolfreel : (mem : ℕ → ℕ) → Pool → (v : ℕ) → Option Pool
poolfreel mem p v = if v == 0 then some p else and_then {B = Pool} (d2b mem p v) (release p)
