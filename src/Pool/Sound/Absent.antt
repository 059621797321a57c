-- ===== src/Pool/Sound/Absent.antt =====
-- D2B: an address where it finds nothing is the place of no block in use.
use plan9_ocaml.Prelude.{
  none, some, ℕ, Option, List, ◌≡◌, ◌+◌, ◌<◌, arith, Bool-cases, inl, inr, ◌==◌, ◌∷◌, [], sub32,
  and_then, false, if◌then◌else◌, refl,
}
use plan9_ocaml.Pool.{Pool, Block, Focus, d2b, focus_from, start_of_data, is_alloc}
use plan9_ocaml.Pool.Total.{IsRow, IsNext, extent, total}
use plan9_ocaml.Pool.Sound.{IsSound, alloc_at}

-- No block in use stands below the place where the blocks begin.
below : (a n lo : ℕ) (bs : List Block) → IsRow lo bs → a < lo → total (alloc_at a n) bs ≡ 0
unfolding IsRow IsNext alloc_at
below a n lo [] row lt = refl
below a n lo (b ∷ bs) ((le, adj, top, filled), row) lt =
    let rest = below a n (b.addr + extent b) bs row (omega (arith, le, lt)) in
    let other : (b.addr == a) ≡ false = ground arith in
    elim (Bool-cases (is_alloc b.magic)) [
      | inl m ↦ rw (other, m) (omega (arith, rest))
      | inr m ↦ rw m (omega (arith, rest))
    ]

-- The block in use that the walk over the pool ends at.
used_of : Option Focus → Option Focus
used_of o = and_then o (λ (g : Focus). if is_alloc g.block.magic then some g else none)

absent_from :
    (before bs : List Block) (a n lo : ℕ)
    → IsRow lo bs
    → used_of (focus_from before a bs) ≡ none
    → total (alloc_at a n) bs ≡ 0
unfolding IsRow IsNext alloc_at focus_from used_of
absent_from before [] a n lo row e = refl
absent_from before (b ∷ bs) a n lo ((le, adj, top, filled), row) e =
    elim (Bool-cases (b.addr == a)) [
      | inl here ↦ elim (Bool-cases (is_alloc b.magic)) [
        | inl m ↦ absurd (ground arith)
        | inr m ↦
            let rest = below a n (b.addr + extent b) bs row (ground arith) in
            rw m (omega (arith, rest))
      ]
      | inr there ↦
          let rest = absent_from (b ∷ before) bs a n (b.addr + extent b) row (rw there at e) in
          elim (Bool-cases (is_alloc b.magic)) [
            | inl m ↦ rw (there, m) (omega (arith, rest))
            | inr m ↦ rw m (omega (arith, rest))
          ]
    ]

-- No block in use is that of the data at the address, if there is one.
pub NothingAt : Pool → Option ℕ → Type 0
NothingAt p none = Unit
NothingAt p (some u) = (n : ℕ) → total (alloc_at (sub32 u 8) n) p.blocks ≡ 0

pub d2b-none :
    (mem : ℕ → ℕ) (p : Pool) (v : ℕ)
    → IsSound p p.blocks
    → d2b mem p v ≡ none
    → NothingAt p (start_of_data mem v)
unfolding d2b NothingAt used_of
d2b-none mem p v s e = found (start_of_data mem v) e
  where
    found :
        (o : Option ℕ)
        → and_then o (λ (u : ℕ). used_of (focus_from [] (sub32 u 8) p.blocks)) ≡ none
        → NothingAt p o
    found none h = tt
    found (some u) h = λ n. absent_from [] p.blocks (sub32 u 8) n 0 s.row h
