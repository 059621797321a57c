-- ===== src/Xalloc/Chain.antt =====
-- Well-formed hole lists of xalloc.c, and the bytes that they hold free.
use plan9_ocaml.Prelude.{
  ℕ, ◌+◌, ◌≤◌, ◌<◌, ◌≡◌, ◌⊎◌, Bool, false, arith, ◌&&◌, ◌||◌, List, [], ◌∷◌, ltb, leb, u32_mod,
}
use plan9_ocaml.Xalloc.{Hole}

pub record IsHole (h : Hole) : Type 0 where
  pub nonempty : 0 < h.size
  pub ends : h.addr + h.size ≡ h.top
  pub fits : h.top < u32_mod

-- Holes from `lo` up, sorted, and no two of them touch.
abbrev pub IsChain : ℕ → List Hole → Type 0
IsChain lo [] = Unit
IsChain lo (h ∷ hs) = (lo ≤ h.addr) × IsHole h × IsChain (h.top + 1) hs

-- No byte of the range [addr, addr + size) lies in a hole.
abbrev pub IsApart : ℕ → ℕ → List Hole → Type 0
IsApart addr size [] = Unit
IsApart addr size (h ∷ hs) = ((addr + size ≤ h.addr) ⊎ (h.top ≤ addr)) × IsApart addr size hs

abbrev pub in_range : ℕ → ℕ → ℕ → Bool
in_range addr size a = leb addr a && ltb a (addr + size)

-- Whether the byte at `a` is free.
abbrev pub is_free : ℕ → List Hole → Bool
is_free a [] = false
is_free a (h ∷ hs) = (leb h.addr a && ltb a h.top) || is_free a hs

pub IsChain-lower : {a b : ℕ} (hs : List Hole) → a ≤ b → IsChain b hs → IsChain a hs
IsChain-lower [] le c = tt
IsChain-lower (h ∷ hs) le c = (omega arith, c.1, c.2)
