-- ===== src/Pool/Arena/Tests.antt =====
-- A pool with one arena.
use plan9_ocaml.Prelude.{[], none, some, false, true, ℕ, ◌∷◌, ◌≡◌, refl, and_then}
use plan9_ocaml.Pool.Tree.{tree_add, tree_del, treelookup, treelookupgt, nil, node}
use plan9_ocaml.Pool.{
  dsize2bsize, bsize2asize, getdsize, pooladd, pooldel, taken_out, blockmerge, blocksetdsize,
  is_spare, finish, cut, trim, focus_from, joined, d2b, data_start, merge_back, merge_forward,
  put_free, release, Pool, Block, Magic, poolfreel, free_magic, alloc_magic, arena_magic,
  arenatail_magic, false, ℕ, and_then, dsize2bsize, bsize2asize, getdsize, pooladd, pooldel,
  taken_out, blockmerge, blocksetdsize, is_spare, finish, cut, trim,
}
use plan9_ocaml.Pool.Compact.{poolcompactl, arenas_compacted, moved_down, closed}
use plan9_ocaml.Pool.Arena.{
  place, arena_of, grown_free, blockgrow, merge_down, joined_arena, arenamerge, above, new_arena,
  merge_both, take_block, second_try, poolallocl, poolnewarena,
}

-- The main pool of the kernel, with smaller arenas.
abbrev empty : Pool
empty = record {
  maxsize = 4_194_304;
  cursize = 0;
  curfree = 0;
  curalloc = 0;
  minarena = 4096;
  quantum = 32;
  minblock = 0;
  freeroot = nil;
  blocks = [];
  nfree = 0;
  lastcompact = 0;
  move = false;
  noreuse = false;
}

abbrev at : ℕ → ℕ → Magic → ℕ → Block
at a n m d = record { addr = a; size = n; magic = m; datasize = d }

abbrev grown : Pool
grown = record empty {
  cursize = 4128;
  curfree = 4096;
  freeroot = node nil 4096 (0x1018 ∷ []) nil;
  blocks =
      at 0x1000 24 arena_magic 0 ∷ at 0x1018 4096 free_magic 0 ∷ at 0x2018 0 arenatail_magic 0 ∷ [];
}

new_arena_at_1000 : poolnewarena (some 0x1000) (λ a b. false) empty 4128 ≡ some grown
unfolding tree_add tree_del treelookup treelookupgt dsize2bsize bsize2asize getdsize pooladd pooldel
    taken_out blockmerge blocksetdsize is_spare finish cut trim focus_from joined d2b data_start
    merge_back merge_forward put_free release poolfreel place arena_of grown_free blockgrow
    merge_down joined_arena arenamerge above new_arena merge_both poolnewarena take_block second_try
    poolallocl
new_arena_at_1000 = refl

abbrev used : Pool
used = record grown {
  curfree = 3968;
  curalloc = 128;
  freeroot = node nil 3968 (0x1098 ∷ []) nil;
  blocks =
      at 0x1000 24 arena_magic 0
      ∷ at 0x1018 128 alloc_magic 28
      ∷ at 0x1098 3968 free_magic 0
      ∷ at 0x2018 0 arenatail_magic 0
      ∷ [];
}

alloc_100 : poolallocl (some 0x1000) (λ a b. false) empty 100 ≡ some (some 0x1020, used)
unfolding tree_add tree_del treelookup treelookupgt dsize2bsize bsize2asize getdsize pooladd pooldel
    taken_out blockmerge blocksetdsize is_spare finish cut trim focus_from joined d2b data_start
    merge_back merge_forward put_free release poolfreel place arena_of grown_free blockgrow
    merge_down joined_arena arenamerge above new_arena merge_both poolnewarena take_block second_try
    poolallocl
alloc_100 = refl

free_100 :
    poolfreel (λ a. 0) used 0x1020
    ≡ some (record grown {
      curalloc = 0;
      nfree = 1;
      blocks =
          at 0x1000 24 arena_magic 0
          ∷ at 0x1018 4096 free_magic 0xFFFF
          ∷ at 0x2018 0 arenatail_magic 0
          ∷ [];
    })
unfolding tree_add tree_del treelookup treelookupgt dsize2bsize bsize2asize getdsize pooladd pooldel
    taken_out blockmerge blocksetdsize is_spare finish cut trim focus_from joined d2b data_start
    merge_back merge_forward put_free release poolfreel
free_100 = refl

-- A second free of the same block is caught.
free_twice :
    and_then {B = Pool} (poolfreel (λ a. 0) used 0x1020) (λ (p : Pool). poolfreel (λ a. 0) p 0x1020)
    ≡ none
unfolding tree_add tree_del treelookup treelookupgt dsize2bsize bsize2asize getdsize pooladd pooldel
    taken_out blockmerge blocksetdsize is_spare finish cut trim focus_from joined d2b data_start
    merge_back merge_forward put_free release poolfreel
free_twice = refl

-- Two arenas side by side; the last block of the lower one is in use, with 200 bytes of data.
abbrev side_by_side : Pool
side_by_side = record empty {
  cursize = 4384;
  curfree = 3968;
  curalloc = 224;
  freeroot = node nil 3968 (0x1118 ∷ []) nil;
  blocks =
      at 0x1000 24 arena_magic 0
      ∷ at 0x1018 224 alloc_magic 24
      ∷ at 0x10F8 0 arenatail_magic 0
      ∷ at 0x1100 24 arena_magic 0
      ∷ at 0x1118 3968 free_magic 0
      ∷ at 0x2098 0 arenatail_magic 0
      ∷ [];
}

-- Joined, that block has 256 bytes, and `curalloc` still counts 224.
grown_in_use :
    arenamerge (λ a b. true) side_by_side 0x1100
    ≡ some (record side_by_side {
      blocks =
          at 0x1000 24 arena_magic 0
          ∷ at 0x1018 256 alloc_magic 56
          ∷ at 0x1118 3968 free_magic 0
          ∷ at 0x2098 0 arenatail_magic 0
          ∷ [];
    })
unfolding treelookup dsize2bsize getdsize pooladd pooldel taken_out blockmerge blocksetdsize
    is_spare finish cut trim focus_from joined arena_of grown_free blockgrow merge_down joined_arena
    arenamerge
grown_in_use = refl

-- A pool whose blocks may move, with a free block of 64 bytes in front of one in use.
abbrev movable : Pool
movable = record empty {
  cursize = 192;
  curfree = 96;
  curalloc = 64;
  freeroot = node (node nil 32 (0x1098 ∷ []) nil) 64 (0x1018 ∷ []) nil;
  blocks =
      at 0x1000 24 arena_magic 0
      ∷ at 0x1018 64 free_magic 0
      ∷ at 0x1058 64 alloc_magic 20
      ∷ at 0x1098 32 free_magic 0
      ∷ at 0x10B8 0 arenatail_magic 0
      ∷ [];
  nfree = 1;
  move = true;
}

compacted :
    poolcompactl movable
    ≡ some (record movable {
      freeroot = node nil 96 (0x1058 ∷ []) nil;
      blocks =
          at 0x1000 24 arena_magic 0
          ∷ at 0x1018 64 alloc_magic 20
          ∷ at 0x1058 96 free_magic 0
          ∷ at 0x10B8 0 arenatail_magic 0
          ∷ [];
      lastcompact = 1;
    })
unfolding poolcompactl arenas_compacted moved_down closed pooladd pooldel tree_add tree_del
    treelookup
compacted = refl
