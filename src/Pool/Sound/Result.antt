-- ===== src/Pool/Sound/Result.antt =====
-- What an allocation gives, on a pool without `p->move` whose arenas are not joined.
use native.Mathlib.Nat.{mod-lt}
use plan9_ocaml.Prelude.{
  [], none, some, ℕ, Option, ◌≤◌, ◌<◌, ◌⊎◌, ◌^◌, arith, ◌≡◌, ◌+◌, List, and_then, add32, inr, Bool,
  false, Bool-cases, leb, inl, leb→le,
}
use plan9_ocaml.Pool.Tree.{treelookup, treelookupgt}
use plan9_ocaml.Pool.Tree.Least.{treelookupgt-Ceiling, Ceiling}
use plan9_ocaml.Pool.{
  Pool, dsize2bsize, bsize2asize, ℕ, Option, List, and_then, at_least, add32, arena_size,
  btail_size, Bool, false, leb,
}
use plan9_ocaml.Pool.Arena.{take_block, second_try, poolnewarena, poolallocl}
use plan9_ocaml.Pool.Sound.{IsSound, arith}
use plan9_ocaml.Pool.Sound.Trim.{IsTuned, dsize2bsize-bounds}
use plan9_ocaml.Pool.Sound.Alloc.{Took, take_block-Took, IsTuned-like, dsize2bsize-like}
use plan9_ocaml.Pool.Sound.Grow.{Grows}
use plan9_ocaml.Pool.Sound.Extend.{Grown, IsFresh, poolnewarena-Grown, unchanged}

-- What `poolallocl` has to give for `dsize` bytes: a block in use more, or the pool with the same
-- blocks in use, when the size is absurd or no free block is large enough.
pub Allocates : Pool → (dsize : ℕ) → Option (Option ℕ × Pool) → Type 0
Allocates p dsize none = ⊥
Allocates p dsize (some (none, q)) =
    Grows p q
    × ((0x80000000 ≤ dsize) ⊎ ((k : ℕ) → dsize2bsize p dsize ≤ k → treelookup q.freeroot k ≡ []))
Allocates p dsize (some (some v, q)) = Took p dsize (some (some v, q))

bsize2asize-bound :
    (p : Pool) (n : ℕ) → IsTuned p → 32 ≤ n → n < 2 ^ 31 + 0x3000 → 40 ≤ bsize2asize p n
unfolding bsize2asize IsTuned
bsize2asize-bound p n (hq, hq', hm, ha) low high =
    let need = at_least p.minarena (add32 n (arena_size + btail_size)) in
    let bounds : (64 ≤ need) × (need < 2 ^ 31 + 0x4000) = ground arith in
    let plain : add32 need p.quantum ≡ need + p.quantum = omega arith in
    rw plain (omega (arith, mod-lt (need + p.quantum) hq))

Took-Allocates :
    (p q : Pool) (dsize : ℕ) (o : Option (Option ℕ × Pool))
    → Grows p q
    → Took q dsize o
    → Allocates p dsize o
unfolding Took Allocates Grows
Took-Allocates p q dsize none g t = t
Took-Allocates p q dsize (some (none, r)) g t = absurd t
Took-Allocates p q dsize (some (some v, r)) (s, like, same) (b, at, asked, room, sound, more) =
    (b, at, asked, room, sound, λ a n. omega (arith, more a n, same a n))

second_try-Allocates :
    (p q : Pool) (dsize : ℕ)
    → IsTuned p
    → dsize < 2 ^ 31
    → Grows p q
    → Allocates p dsize (second_try dsize q)
unfolding second_try Grows Allocates Ceiling
second_try-Allocates p q dsize tuned low (s, like, same) =
    found (treelookupgt q.freeroot n) (treelookupgt-Ceiling q.freeroot 0 (2 ^ 32) n s.checked)
  where
    n : ℕ
    n = dsize2bsize q dsize

    found :
        (o : Option (ℕ × List ℕ))
        → Ceiling q.freeroot n o
        → Allocates p dsize
            (elim o [ none ↦ some (none, q) | some (m, bs) ↦ take_block q dsize bs ])
    found none c = ((s, like, same), inr (λ k h. c k (rw (dsize2bsize-like p q dsize like) h)))
    found (some (m, bs)) (le, look, ne, least) =
        Took-Allocates p q dsize (take_block q dsize bs) (s, like, same)
          (take_block-Took q dsize m bs s (IsTuned-like p q like tuned) low look ne le)

Grown-Allocates :
    (p : Pool) (dsize : ℕ) (o : Option Pool)
    → IsTuned p
    → dsize < 2 ^ 31
    → Grown p o
    → Allocates p dsize (and_then o (second_try dsize))
unfolding Grown Allocates
Grown-Allocates p dsize none tuned low g = g
Grown-Allocates p dsize (some q) tuned low g = second_try-Allocates p q dsize tuned low g

-- On a sound pool with small settings and without `p->move`, so that no block in use is moved, when
-- `p->alloc` gives memory that is not the pool's yet and `p->merge` joins no arenas: `poolallocl` does not
-- panic. It puts one block more in use, of the size asked for, with the pool sound and every other block
-- in use as before; or it returns nil with the blocks in use as before, and then the size was 2 ^ 31 or
-- more or no free block is large enough.
pub poolallocl-Allocates :
    (got : Option ℕ) (merge : ℕ → ℕ → Bool) (p : Pool) (dsize : ℕ)
    → ((x y : ℕ) → merge x y ≡ false)
    → p.move ≡ false
    → IsFresh got (bsize2asize p (dsize2bsize p dsize)) p.blocks
    → IsTuned p
    → IsSound p p.blocks
    → Allocates p dsize (poolallocl got merge p dsize)
unfolding poolallocl Allocates Ceiling
poolallocl-Allocates got merge p dsize never fixed fresh tuned s =
    elim (Bool-cases (leb 0x80000000 dsize)) [
      | inl e ↦ rw e (unchanged p s, inl (leb→le 0x80000000 dsize e))
      | inr e ↦
          let low : dsize < 2 ^ 31 = ground arith in
          rw e (
            first (treelookupgt p.freeroot n) low
              (treelookupgt-Ceiling p.freeroot 0 (2 ^ 32) n s.checked))
    ]
  where
    n : ℕ
    n = dsize2bsize p dsize

    first :
        (o : Option (ℕ × List ℕ))
        → dsize < 2 ^ 31
        → Ceiling p.freeroot n o
        → Allocates p dsize (elim o [
          | none ↦ and_then (poolnewarena got merge p (bsize2asize p n)) (second_try dsize)
          | some (m, bs) ↦ take_block p dsize bs
        ])
    first none low c =
        let (room, large, near) = dsize2bsize-bounds p dsize tuned low in
        Grown-Allocates p dsize (poolnewarena got merge p (bsize2asize p n)) tuned low (
          poolnewarena-Grown got merge p (bsize2asize p n) never fixed
            (bsize2asize-bound p n tuned large (omega arith)) fresh s)
    first (some (m, bs)) low (le, look, ne, least) =
        Took-Allocates p p dsize (take_block p dsize bs) (unchanged p s)
          (take_block-Took p dsize m bs s tuned low look ne le)
