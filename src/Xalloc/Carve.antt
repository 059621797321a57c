-- ===== src/Xalloc/Carve.antt =====
-- `xallocz`: the range that it takes from the holes.
use plan9_ocaml.Prelude.{
  ℕ, ◌+◌, ◌≤◌, ◌<◌, ◌≡◌, refl, inl, inr, ◌&&◌, not, true, false, Option, none, some, List, [], ◌∷◌,
  arith, leb, ◌==◌, Bool-cases, u32_mod, add32_small, sub32_small, ◌-◌, ap, ◌∙◌, leb→le,
}
use plan9_ocaml.Xalloc.{
  Hole, hole, Carved, carve, keep_carved, carve_loop, xhole_loop, extend_up, before, new_hole,
  released, keep,
}
use plan9_ocaml.Xalloc.Chain.{IsChain-lower, IsHole, IsChain, IsApart, in_range, is_free}

-- The range [c.at, c.at + n) was free, is free no longer, and no other byte changes.
pub record Took (lo n : ℕ) (hs us : List Hole) (c : Carved) : Type 0 where
  pub chain : IsChain lo c.sorted
  pub low : lo ≤ c.at
  pub high : c.at + n < u32_mod
  pub apart : IsApart c.at n c.sorted
  pub was_free : (a : ℕ) → in_range c.at n a ≡ true → is_free a hs ≡ true
  pub now_free : (a : ℕ) → is_free a c.sorted ≡ (is_free a hs && not (in_range c.at n a))
  pub restores : xhole_loop c.at n c.sorted c.unused ≡ released hs us false

-- No hole has room for `n` bytes.
abbrev pub IsFull : ℕ → List Hole → Type 0
IsFull n [] = Unit
IsFull n (h ∷ hs) = (h.size < n) × IsFull n hs

IsApart-below : (at n lo : ℕ) (hs : List Hole) → at + n ≤ lo → IsChain lo hs → IsApart at n hs
IsApart-below at n lo [] le c = tt
IsApart-below at n lo (h ∷ hs) le (low, ok, rest) =
    (inl (omega arith), IsApart-below at n (h.top + 1) hs (omega (arith, ok.nonempty)) rest)

not_free_below : (a lo : ℕ) (hs : List Hole) → a < lo → IsChain lo hs → is_free a hs ≡ false
not_free_below a lo [] lt c = refl
not_free_below a lo (h ∷ hs) lt (low, ok, rest) =
    ground (arith, not_free_below a (h.top + 1) hs, ok.ends)

-- A hole that ends below the range is passed by.
xhole_loop_above :
    (addr n : ℕ) (h : Hole) (hs us : List Hole)
    → h.top < addr
    → h.addr ≤ addr
    → xhole_loop addr n (h ∷ hs) us ≡ keep h (xhole_loop addr n hs us)
unfolding xhole_loop
xhole_loop_above addr n h hs us lt le = ground arith

-- What the search finds: a range that it takes, or no hole with room for `n` bytes.
abbrev pub Searched : (lo n : ℕ) → List Hole → List Hole → Option Carved → Type 0
Searched lo n hs us none = IsFull n hs
Searched lo n hs us (some c) = Took lo n hs us c

module _ (n : ℕ) (pos : 0 < n) where
  -- A hole that is used up comes back by the slot that it left.
  restores_empty :
      (h u : Hole) (hs us : List Hole)
      → IsHole h
      → n ≡ h.size
      → IsChain (h.top + 1) hs
      → xhole_loop h.addr n hs (u ∷ us) ≡ released (h ∷ hs) us false
  unfolding xhole_loop extend_up before new_hole
  restores_empty h u [] us ok e c =
      rw (add32_small h.addr n (omega (arith, ok.ends, ok.fits))) (ground (arith, ok.ends))
  restores_empty h u (c ∷ cs) us ok e (low, ok', rest) =
      rw (add32_small h.addr n (omega (arith, ok.ends, ok.fits)))
        (ground (arith, ok.ends, ok'.ends))

  -- A hole that was trimmed grows down again.
  restores_trimmed :
      (h : Hole) (hs us : List Hole)
      → IsHole h
      → n < h.size
      → xhole_loop h.addr n (hole (h.addr + n) h.top (h.size - n) ∷ hs) us
        ≡ released (h ∷ hs) us false
  unfolding xhole_loop before
  restores_trimmed h hs us ok lt =
      rw
        (
          add32_small h.addr n (omega (arith, ok.ends, ok.fits)),
          sub32_small (h.addr + n) n (omega arith) (omega (arith, ok.ends, ok.fits)),
          add32_small (h.size - n) n (omega (arith, ok.ends, ok.fits)),
        )
        (ground (arith, ok.ends))

  carve-Took :
      (lo : ℕ) (h : Hole) (hs us : List Hole)
      → lo ≤ h.addr
      → IsHole h
      → IsChain (h.top + 1) hs
      → n ≤ h.size
      → Took lo n (h ∷ hs) us (carve n h hs us)
  unfolding carve
  carve-Took lo h hs us low ok rest fit =
      rw
        (
          add32_small h.addr n (omega (arith, ok.ends, ok.fits)),
          sub32_small h.size n fit (omega (arith, ok.ends, ok.fits)),
        )
        (elim (Bool-cases (h.size - n == 0)) [
          | inl all ↦ rw all (record {
            chain = IsChain-lower hs (omega (arith, ok.ends)) rest;
            low = low;
            high = omega (arith, ok.ends, ok.fits);
            apart = IsApart-below h.addr n (h.top + 1) hs (ground (arith, ok.ends)) rest;
            was_free = λ a i. ground (arith, ok.ends);
            now_free = λ a. ground (arith, ok.ends, not_free_below a (h.top + 1) hs);
            restores = restores_empty h _ hs us ok (ground arith) rest;
          })
          | inr some_left ↦ rw some_left (record {
            chain = (
              omega arith,
              record { nonempty = ground arith; ends = omega (arith, ok.ends); fits = ok.fits },
              rest,
            );
            low = low;
            high = omega (arith, ok.ends, ok.fits);
            apart = (
              inl (omega arith),
              IsApart-below h.addr n (h.top + 1) hs (ground (arith, ok.ends)) rest,
            );
            was_free = λ a i. ground (arith, ok.ends);
            now_free = λ a. ground (arith, ok.ends, not_free_below a (h.top + 1) hs);
            restores = restores_trimmed h hs us ok (ground arith);
          })
        ])

  keep-Took :
      (lo : ℕ) (h : Hole) (hs us : List Hole) (c : Carved)
      → lo ≤ h.addr
      → IsHole h
      → Took (h.top + 1) n hs us c
      → Took lo n (h ∷ hs) us (record c { sorted = h ∷ c.sorted })
  keep-Took lo h hs us c low ok t = record {
    chain = (low, ok, t.chain);
    low = omega (arith, ok.ends, t.low);
    high = t.high;
    apart = (inr (omega (arith, t.low)), t.apart);
    was_free = λ a i. ground (arith, t.was_free a);
    now_free = λ a. ground (arith, t.now_free a, t.low);
    restores =
        xhole_loop_above c.at n h c.sorted c.unused (omega (arith, t.low))
          (omega (arith, ok.ends, t.low))
        ∙ ap (keep h) t.restores;
  }

  keep-Searched :
      (lo : ℕ) (h : Hole) (hs us : List Hole) (o : Option Carved)
      → lo ≤ h.addr
      → IsHole h
      → h.size < n
      → Searched (h.top + 1) n hs us o
      → Searched lo n (h ∷ hs) us (keep_carved h o)
  keep-Searched lo h hs us none low ok small full = (small, full)
  keep-Searched lo h hs us (some c) low ok small t = keep-Took lo h hs us c low ok t

  pub carve_loop-Searched :
      (lo : ℕ) (hs us : List Hole) → IsChain lo hs → Searched lo n hs us (carve_loop n hs us)
  unfolding carve_loop
  carve_loop-Searched lo [] us chain = tt
  carve_loop-Searched lo (h ∷ hs) us (low, ok, rest) = elim (Bool-cases (leb n h.size)) [
    | inl fit ↦ rw fit (carve-Took lo h hs us low ok rest (leb→le n h.size fit))
    | inr small ↦ rw small (
        keep-Searched lo h hs us (carve_loop n hs us) low ok (ground arith)
          (carve_loop-Searched (h.top + 1) hs us rest))
  ]
