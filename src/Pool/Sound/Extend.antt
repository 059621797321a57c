-- ===== src/Pool/Sound/Extend.antt =====
-- Getting a new arena, when `p->merge` joins none.
use plan9_ocaml.Prelude.{
  [], none, some, ℕ, List, Option, refl, if◌then◌else◌, ◌<◌, ◌≡◌, Bool, ◌+◌, ◌==◌, arith, ◌∷◌,
  false, ◌^◌, Bool-cases, ap, and_then, ◌≤◌, ◌∙◌, ltb, inl, inr, ◌&&◌, add32,
}
use plan9_ocaml.Pool.Compact.{poolcompactl-fixed}
use plan9_ocaml.Pool.{
  Pool, Block, Focus, focus_from, pooladd, arena_magic, ℕ, List, Option, Bool, false, arena_size,
  and_then, is_arena, ltb, add32,
}
use plan9_ocaml.Pool.Arena.{
  joined_arena, place, above, new_arena, merge_both, arenamerge, merge_down, arena_of, poolnewarena,
}
use plan9_ocaml.Pool.Total.{total, total-append}
use plan9_ocaml.Pool.Sound.{IsSound, arith, ap}
use plan9_ocaml.Pool.Sound.Grow.{Grows, new_arena-Grows, IsVacant}

-- The header of the new arena is found, and the one above it if there is one.
abbrev at_addr : ℕ → Block → ℕ
at_addr a b = if b.addr == a then 1 else 0

focus_from-present :
    (before : List Block) (a : ℕ) (bs : List Block)
    → 0 < total (at_addr a) bs
    → (f : Focus) × (focus_from before a bs ≡ some f)
unfolding focus_from
focus_from-present before a [] h = absurd (omega arith)
focus_from-present before a (b ∷ bs) h = elim (Bool-cases (b.addr == a)) [
  | inl e ↦ (record { before = before; block = b; after = bs }, rw e refl)
  | inr e ↦ let (f, eq) = focus_from-present (b ∷ before) a bs (ground arith) in (f, rw e eq)
]

total-place :
    (w : Block → ℕ) (a : ℕ) (new bs : List Block)
    → total w (place a new bs) ≡ total w new + total w bs
unfolding place
total-place w a new [] = omega arith
total-place w a new (b ∷ bs) = ground (arith, total-place w a new bs, total-append w new (b ∷ bs))

above-present : (a top : ℕ) (bs : List Block) → above a bs ≡ some top → 0 < total (at_addr top) bs
unfolding above
above-present a top [] e = absurd cc
above-present a top (b ∷ bs) e = elim (Bool-cases (is_arena b.magic && ltb a b.addr)) [
  | inl h ↦ let same : b.addr ≡ top = ground arith in ground arith
  | inr h ↦ let rest = above-present a top bs (ground arith) in omega (arith, rest)
]

-- Arenas that `p->merge` does not join stay as they are.
module _ (merge : ℕ → ℕ → Bool) (never : (x y : ℕ) → merge x y ≡ false) where
  merge_down-never : (p : Pool) (f : Focus) → merge_down merge p f ≡ some p
  unfolding merge_down
  merge_down-never p f = at_bottom (arena_of f.before)
    where
      at_bottom :
          (o : Option ℕ)
          → ◌≡◌ {A = Option Pool}
              (elim o [
                | none ↦ some p
                | some bot ↦ if merge bot f.block.addr then joined_arena p f else some p
              ])
              (some p)
      at_bottom none = refl
      at_bottom (some bot) = rw (never bot f.block.addr) refl

  arenamerge-never :
      (p : Pool) (top : ℕ) → 0 < total (at_addr top) p.blocks → arenamerge merge p top ≡ some p
  unfolding arenamerge
  arenamerge-never p top h =
      let (f, e) = focus_from-present [] top p.blocks h in
      found (focus_from [] top p.blocks) f e ∙ merge_down-never p f
    where
      found :
          (o : Option Focus) (f : Focus)
          → o ≡ some f
          → ◌≡◌ {A = Option Pool}
              (elim o [ none ↦ none | some g ↦ merge_down merge p g ])
              (merge_down merge p f)
      found none f e = absurd cc
      found (some g) f e = ap (λ (x : Focus). merge_down merge p x) (ground arith)

  merge_both-never :
      (a : ℕ) (p : Pool) → 0 < total (at_addr a) p.blocks → merge_both merge a p ≡ some p
  unfolding merge_both
  merge_both-never a p h = up (above a p.blocks) refl
    where
      up :
          (o : Option ℕ)
          → above a p.blocks ≡ o
          → and_then
              (elim o [ none ↦ some p | some top ↦ arenamerge merge p top ])
              (λ (q : Pool). arenamerge merge q a)
            ≡ some p
      up none e = arenamerge-never p a h
      up (some top) e =
          rw (arenamerge-never p top (above-present a top p.blocks e)) (arenamerge-never p a h)

-- What `poolnewarena` has to give.
unfoldable pub Grown : Pool → Option Pool → Type 0
Grown p none = ⊥
Grown p (some q) = Grows p q

new_arena-present : (p : Pool) (a n : ℕ) → 0 < total (at_addr a) (new_arena p a n).blocks
unfolding new_arena pooladd
new_arena-present p a n =
    let one : at_addr a (record { addr = a; size = arena_size; magic = arena_magic; datasize = 0 })
        ≡ 1 =
      ground arith in
    omega (arith, total-place (at_addr a) a _ p.blocks, one)

-- The memory that `p->alloc` gave for an arena, if any, is not the pool's yet.
unfoldable pub IsFresh : (got : Option ℕ) → (n : ℕ) → List Block → Type 0
unfolding IsVacant
IsFresh none n bs = Unit
IsFresh (some a) n bs = (a + n < 2 ^ 32) × IsVacant a n bs

pub unchanged : (p : Pool) → IsSound p p.blocks → Grows p p
unfolding Grows
unchanged p s = (s, (refl, refl, refl, refl), λ x k. refl)

pub poolnewarena-Grown :
    (got : Option ℕ) (merge : ℕ → ℕ → Bool) (p : Pool) (n : ℕ)
    → ((x y : ℕ) → merge x y ≡ false)
    → p.move ≡ false
    → 40 ≤ n
    → IsFresh got n p.blocks
    → IsSound p p.blocks
    → Grown p (poolnewarena got merge p n)
unfolding poolnewarena Grown IsFresh
poolnewarena-Grown none merge p n never fixed large fresh s =
    elim (Bool-cases (ltb p.maxsize (add32 p.cursize n))) [
      | inl e ↦ rw (e, poolcompactl-fixed p fixed) (unchanged p s)
      | inr e ↦ rw e (unchanged p s)
    ]
poolnewarena-Grown (some a) merge p n never fixed large (top, vacant) s =
    elim (Bool-cases (ltb p.maxsize (add32 p.cursize n))) [
      | inl e ↦ rw (e, poolcompactl-fixed p fixed) (unchanged p s)
      | inr e ↦
          rw (e, merge_both-never merge never a (new_arena p a n) (new_arena-present p a n))
            (new_arena-Grows p a n large top vacant s)
    ]
