-- ===== src/Xalloc/Release.antt =====
-- `xhole`: the invariant of the hole list, and the bytes that become free.
use plan9_ocaml.Prelude.{
  ℕ, ◌+◌, ◌≤◌, ◌<◌, ◌≡◌, refl, inl, inr, ◌||◌, false, List, [], ◌∷◌, arith, ltb, ◌==◌, Bool-cases,
  u32_mod, add32_small, true,
}
use plan9_ocaml.Xalloc.{Hole, extend_up, new_hole, before, xhole_loop, Released}
use plan9_ocaml.Xalloc.Chain.{IsChain-lower, IsHole, IsChain, IsApart, in_range, is_free}

module _ (addr size : ℕ) (pos : 0 < size) (fits : addr + size < u32_mod) where
  new_hole-IsChain :
      (lo : ℕ) (hs us : List Hole)
      → lo ≤ addr
      → IsChain (addr + size + 1) hs
      → IsChain lo (new_hole addr size hs us).sorted
  unfolding new_hole
  new_hole-IsChain lo hs [] le c = IsChain-lower hs (omega arith) c
  new_hole-IsChain lo hs (u ∷ us) le c =
      rw (add32_small addr size fits)
        (le, record { nonempty = pos; ends = omega arith; fits = fits }, c)

  before-IsChain :
      (lo : ℕ) (h : Hole) (hs us : List Hole)
      → lo ≤ addr
      → addr + size ≤ h.addr
      → IsHole h
      → IsChain (h.top + 1) hs
      → IsChain lo (before addr size h hs us).sorted
  unfolding before
  before-IsChain lo h hs us le below ok c =
      rw (add32_small addr size fits) (elim (Bool-cases (addr + size == h.addr)) [
        | inl touch ↦ rw touch (
          ground arith,
          record { nonempty = ground arith; ends = ground arith; fits = ok.fits },
          c,
        )
        | inr gap ↦ rw gap (new_hole-IsChain lo (h ∷ hs) us le (ground arith, ok, c))
      ])

  extend_up-IsChain :
      (lo : ℕ) (h : Hole) (hs us : List Hole)
      → lo ≤ h.addr
      → h.top ≡ addr
      → IsHole h
      → IsChain (h.top + 1) hs
      → IsApart addr size hs
      → IsChain lo (extend_up size h hs us).sorted
  unfolding extend_up
  extend_up-IsChain lo h [] us le touch ok c apart =
      (le, record { nonempty = omega arith; ends = omega arith; fits = omega arith }, tt)
  extend_up-IsChain lo h (c ∷ cs) us le touch ok (low, ok', rest) apart =
      rw (add32_small h.size size (omega arith), add32_small h.addr (h.size + size) (omega arith))
        (elim (Bool-cases (h.addr + (h.size + size) == c.addr)) [
          | inl join ↦ rw join (
            le,
            record { nonempty = ground arith; ends = ground arith; fits = ground arith },
            IsChain-lower cs (ground arith) rest,
          )
          | inr gap ↦ rw gap (
            le,
            record { nonempty = omega arith; ends = omega arith; fits = omega arith },
            (ground arith, ok', rest),
          )
        ])

  -- The range may be released where the chain allows it, apart from the holes.
  pub xhole_loop-IsChain :
      (lo : ℕ) (hs us : List Hole)
      → lo ≤ addr
      → IsChain lo hs
      → IsApart addr size hs
      → IsChain lo (xhole_loop addr size hs us).sorted
  unfolding xhole_loop
  xhole_loop-IsChain lo [] us le c apart = new_hole-IsChain lo [] us le tt
  xhole_loop-IsChain lo (h ∷ hs) us le (low, ok, rest) (side, apart) =
      elim (Bool-cases (h.top == addr)) [
        | inl touch ↦ rw touch (extend_up-IsChain lo h hs us low (ground arith) ok rest apart)
        | inr off ↦ rw off (elim (Bool-cases (ltb addr h.addr)) [
          | inl up ↦
              rw up (before-IsChain lo h hs us le (ground (arith, ok.nonempty, ok.ends)) ok rest)
          | inr down ↦ rw down (
            low,
            ok,
            xhole_loop-IsChain (h.top + 1) hs us (ground (arith, ok.nonempty)) rest apart,
          )
        ])
      ]

  -- The bytes that are free afterwards: those of before and those of the range.
  new_hole-is_free :
      (a : ℕ) (hs us : List Hole)
      → (new_hole addr size hs us).leaked ≡ false
      → is_free a (new_hole addr size hs us).sorted ≡ (in_range addr size a || is_free a hs)
  unfolding new_hole
  new_hole-is_free a hs [] kept = cc
  new_hole-is_free a hs (u ∷ us) kept = rw (add32_small addr size fits) refl

  before-is_free :
      (a : ℕ) (h : Hole) (hs us : List Hole)
      → addr + size ≤ h.addr
      → IsHole h
      → (before addr size h hs us).leaked ≡ false
      → is_free a (before addr size h hs us).sorted ≡ (in_range addr size a || is_free a (h ∷ hs))
  unfolding before
  before-is_free a h hs us below ok kept =
      rw (add32_small addr size fits) (elim (Bool-cases (addr + size == h.addr)) [
        | inl touch ↦ rw touch (ground arith)
        | inr gap ↦
            rw gap (new_hole-is_free a (h ∷ hs) us (rw (add32_small addr size fits, gap) at kept))
      ])

  extend_up-is_free :
      (a : ℕ) (h : Hole) (hs us : List Hole)
      → h.top ≡ addr
      → IsHole h
      → IsChain (h.top + 1) hs
      → IsApart addr size hs
      → is_free a (extend_up size h hs us).sorted ≡ (in_range addr size a || is_free a (h ∷ hs))
  unfolding extend_up
  extend_up-is_free a h [] us touch ok c apart =
      rw (add32_small h.size size (omega arith), add32_small h.addr (h.size + size) (omega arith))
        (ground arith)
  extend_up-is_free a h (c ∷ cs) us touch ok (low, ok', rest) apart =
      rw (add32_small h.size size (omega arith), add32_small h.addr (h.size + size) (omega arith))
        (elim (Bool-cases (h.addr + (h.size + size) == c.addr)) [
          | inl join ↦
              rw (join, add32_small (h.addr + (h.size + size)) c.size (ground arith)) (ground arith)
          | inr gap ↦ rw gap (ground arith)
        ])

  pub xhole_loop-is_free :
      (a lo : ℕ) (hs us : List Hole)
      → lo ≤ addr
      → IsChain lo hs
      → IsApart addr size hs
      → (xhole_loop addr size hs us).leaked ≡ false
      → is_free a (xhole_loop addr size hs us).sorted ≡ (in_range addr size a || is_free a hs)
  unfolding xhole_loop
  xhole_loop-is_free a lo [] us le c apart kept = new_hole-is_free a [] us kept
  xhole_loop-is_free a lo (h ∷ hs) us le (low, ok, rest) (side, apart) kept =
      elim (Bool-cases (h.top == addr)) [
        | inl touch ↦ rw touch (extend_up-is_free a h hs us (ground arith) ok rest apart)
        | inr off ↦ rw off (elim (Bool-cases (ltb addr h.addr)) [
          | inl up ↦ rw up (
              before-is_free a h hs us (ground (arith, ok.nonempty, ok.ends)) ok
                (rw (off, up) at kept))
          | inr down ↦ rw down (
              let ih =
                xhole_loop-is_free a (h.top + 1) hs us (ground (arith, ok.nonempty)) rest apart
                  (rw (off, down) at kept) in
              rw ih (ground arith))
        ])
      ]

-- A range leaks only for want of a slot, and then nothing changes.
abbrev pub Lost : List Hole → List Hole → Released → Type 0
Lost hs us r = (r.sorted ≡ hs) × (r.unused ≡ us) × (us ≡ [])

extend_up-kept : (size : ℕ) (h : Hole) (hs us : List Hole) → (extend_up size h hs us).leaked ≡ false
unfolding extend_up
extend_up-kept size h [] us = refl
extend_up-kept size h (c ∷ cs) us = ground arith

new_hole-Lost :
    (addr size : ℕ) (hs us : List Hole)
    → (new_hole addr size hs us).leaked ≡ true
    → Lost hs us (new_hole addr size hs us)
unfolding new_hole
new_hole-Lost addr size hs [] e = (refl, refl, refl)
new_hole-Lost addr size hs (u ∷ us) e = cc

before-Lost :
    (addr size : ℕ) (h : Hole) (hs us : List Hole)
    → (before addr size h hs us).leaked ≡ true
    → Lost (h ∷ hs) us (before addr size h hs us)
unfolding before
before-Lost addr size h hs us e = ground (arith, new_hole-Lost addr size (h ∷ hs) us)

pub xhole_loop-Lost :
    (addr size : ℕ) (hs us : List Hole)
    → (xhole_loop addr size hs us).leaked ≡ true
    → Lost hs us (xhole_loop addr size hs us)
unfolding xhole_loop
xhole_loop-Lost addr size [] us e = new_hole-Lost addr size [] us e
xhole_loop-Lost addr size (h ∷ hs) us e = ground (
  arith,
  extend_up-kept size h hs us,
  before-Lost addr size h hs us,
  xhole_loop-Lost addr size hs us,
)
