-- ===== src/Pool/Sound/Release.antt =====
-- Freeing a block: what becomes of the pool.
use mathlib.Core.Option.{Option}
use mathlib.Core.Path.{sym}
use plan9_ocaml.Prelude.{
  ◌⊎◌, ◌≢◌, none, some, ℕ, Option, List, ◌≡◌, ◌+◌, false, true, if◌then◌else◌, arith, and_then,
  add32, sub32, ◌==◌, ◌&&◌, Bool, sym,
}
use mathlib.Core.Option as Option
use plan9_ocaml.Pool.{
  round_down, Pool, Focus, d2b, start_of_data, getdsize, ℕ, List, false, true, and_then, add32,
  sub32, Bool,
}
use plan9_ocaml.Pool.Total.{total}
use plan9_ocaml.Pool.Sound.{IsSound, alloc_at, arith}
use plan9_ocaml.Pool.Sound.Absent.{NothingAt}
use plan9_ocaml.Pool.Sound.Align.{Starts}
use plan9_ocaml.Pool.Sound.Neighbours.{others}

-- What freeing the block in focus has to give: the pool is sound, and what is in use is what was in
-- use besides.
Given : Focus → Option Pool → Type 0
Given f none = ⊥
Given f (some q) = IsSound q q.blocks × ((a n : ℕ) → total (alloc_at a n) q.blocks ≡ others a n f)

-- What the rest of `poolfreel` has to give for the data at `v`: `none` only if no block in use is that of
-- this data; else a sound pool in which one block in use at that place, of its size of data, is missing, and all
-- others are in use as before.
pub Released : (mem : ℕ → ℕ) → Pool → (v : ℕ) → Option Pool → Type 0
Released mem p v none = NothingAt p (start_of_data mem v)
Released mem p v (some q) =
    (f : Focus) × (d2b mem p v ≡ some f)
    × (u : ℕ) × Starts mem (round_down 4 v) u
    × (f.block.addr ≡ sub32 u 8)
    × IsSound q q.blocks
    × ((a n : ℕ)
        → total (alloc_at a n) p.blocks
          ≡ total (alloc_at a n) q.blocks
            + (if (f.block.addr == a) && (getdsize f.block == n) then 1 else 0))

-- What `poolfreel` has to give: the same pool for nil.
pub Freed : (mem : ℕ → ℕ) → Pool → (v : ℕ) → Option Pool → Type 0
Freed mem p v o = ((v ≡ 0) × (o ≡ some p)) ⊎ (v ≢ 0) × Released mem p v o
