-- ===== src/Pool/Sound/Tests.antt =====
-- The theorems on the pool, applied to a pool with a block in use and a free one.
use plan9_ocaml.Prelude.{
  [], none, ℕ, ◌∷◌, arith, false, ◌^◌, ◌≡◌, refl, ◌-◌, if◌then◌else◌, ◌==◌, ◌&&◌, leb, ltb, some,
}
use plan9_ocaml.Pool.Tree.{Free, nil, node, treelookupgt, tree_del, treelookup}
use plan9_ocaml.Pool.Tree.Order.{IsChecked, tree_del-IsChecked}
use plan9_ocaml.Pool.Tree.Held.{held, held-tree_del}
use plan9_ocaml.Pool.Tree.Least.{Ceiling, treelookupgt-Ceiling}
use plan9_ocaml.Pool.{
  Pool, Block, Magic, data_start, start_of_data, free_magic, alloc_magic, arena_magic,
  arenatail_magic, ℕ, false,
}
use plan9_ocaml.Pool.Arena.{poolallocl}
use plan9_ocaml.Pool.Total.{IsRow, IsNext}
use plan9_ocaml.Pool.Sound.{IsSound, arith}
use plan9_ocaml.Pool.Sound.Trim.{IsTuned}
use plan9_ocaml.Pool.Sound.Extend.{IsFresh}
use plan9_ocaml.Pool.Sound.Result.{Allocates, poolallocl-Allocates}

abbrev at : ℕ → ℕ → Magic → ℕ → Block
at a n m d = record { addr = a; size = n; magic = m; datasize = d }

-- 100 bytes in use at 0x1020, and 3952 bytes free behind them.
abbrev used : Pool
used = record {
  maxsize = 4_194_304;
  cursize = 4128;
  curfree = 3968;
  curalloc = 128;
  minarena = 4096;
  quantum = 32;
  minblock = 0;
  freeroot = node nil 3968 (0x1098 ∷ []) nil;
  blocks =
      at 0x1000 24 arena_magic 0
      ∷ at 0x1018 128 alloc_magic 28
      ∷ at 0x1098 3968 free_magic 0
      ∷ at 0x2018 0 arenatail_magic 0
      ∷ [];
  nfree = 0;
  lastcompact = 0;
  move = false;
  noreuse = false;
}

used-IsSound : IsSound used used.blocks
unfolding IsRow IsNext IsChecked treelookup
used-IsSound = record {
  row = (
    (omega arith, λ h. absurd cc, omega arith, omega arith),
    (
      (omega arith, λ h. refl, omega arith, omega arith),
      (
        (omega arith, λ h. refl, omega arith, omega arith),
        ((omega arith, λ h. refl, omega arith, omega arith), tt),
      ),
    ),
  );
  agree = λ a n. ground arith;
  checked = (omega arith, omega arith, (λ e. cc), tt, tt);
  curfree = refl;
  curalloc = refl;
}

used-IsTuned : IsTuned used
unfolding IsTuned
used-IsTuned = (omega arith, omega arith, omega arith, omega arith)

no_arena-IsFresh : (n : ℕ) → IsFresh none n used.blocks
unfolding IsFresh
no_arena-IsFresh n = tt

poolallocl-Allocates_example : Allocates used 1000 (poolallocl none (λ x y. false) used 1000)
poolallocl-Allocates_example =
    poolallocl-Allocates none (λ x y. false) used 1000 (λ x y. refl) refl (no_arena-IsFresh _)
      used-IsTuned used-IsSound

-- The data at 0x1020 is aligned to 0x1040, behind eight words.
abbrev aligned : ℕ → ℕ
aligned a = if leb 0x1020 a && ltb a 0x1040 then 0xA1F1D1C1 else 0

found_behind : start_of_data aligned 0x1040 ≡ some 0x1020
unfolding data_start
found_behind = refl

-- Blocks of 32, 64 and 96 bytes.
abbrev three : Free
three = node (node nil 32 (7 ∷ 8 ∷ []) nil) 64 (9 ∷ []) (node nil 96 (5 ∷ []) nil)

three-IsChecked : IsChecked 0 (2 ^ 30) three
unfolding IsChecked
three-IsChecked = (
  omega arith,
  omega arith,
  (λ e. cc),
  (omega arith, omega arith, (λ e. cc), tt, tt),
  (omega arith, omega arith, (λ e. cc), tt, tt),
)

treelookupgt-Ceiling_example : Ceiling three 40 (treelookupgt three 40)
treelookupgt-Ceiling_example = treelookupgt-Ceiling three 0 (2 ^ 30) 40 three-IsChecked

held-tree_del_example :
    held 9 64 (tree_del three 64 9) ≡ held 9 64 three - (if (9 == 9) && (64 == 64) then 1 else 0)
held-tree_del_example = held-tree_del three 64 9 0 (2 ^ 30) 9 64 three-IsChecked

tree_del-IsChecked_example : IsChecked 0 (2 ^ 30) (tree_del three 64 9)
tree_del-IsChecked_example =
    tree_del-IsChecked three 64 9 0 (2 ^ 30) (omega arith) (omega arith) three-IsChecked
