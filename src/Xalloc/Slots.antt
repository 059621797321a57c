-- ===== src/Xalloc/Slots.antt =====
-- The 128 hole slots: every operation moves them between the two lists, and loses none.
use plan9_ocaml.Prelude.{
  ℕ, suc, ◌+◌, ◌≡◌, refl, none, some, Option, List, [], ◌∷◌, arith, length, Bool-cases, inl, inr,
  leb,
}
use plan9_ocaml.Xalloc.{
  Hole, Released, Carved, extend_up, new_hole, before, xhole_loop, carve, keep_carved, carve_loop,
}

abbrev pub released_slots : Released → ℕ
released_slots r = length r.sorted + length r.unused

extend_up-slots :
    (size : ℕ) (h : Hole) (hs us : List Hole)
    → released_slots (extend_up size h hs us) ≡ suc (length hs) + length us
unfolding extend_up
extend_up-slots size h [] us = refl
extend_up-slots size h (c ∷ cs) us = ground arith

new_hole-slots :
    (addr size : ℕ) (hs us : List Hole)
    → released_slots (new_hole addr size hs us) ≡ length hs + length us
unfolding new_hole
new_hole-slots addr size hs [] = refl
new_hole-slots addr size hs (u ∷ us) = omega arith

pub xhole_loop-slots :
    (addr size : ℕ) (hs us : List Hole)
    → released_slots (xhole_loop addr size hs us) ≡ length hs + length us
unfolding xhole_loop before
xhole_loop-slots addr size [] us = new_hole-slots addr size [] us
xhole_loop-slots addr size (h ∷ hs) us = ground (
  arith,
  extend_up-slots size h hs us,
  new_hole-slots addr size (h ∷ hs) us,
  xhole_loop-slots addr size hs us,
)

abbrev pub KeepsSlots : ℕ → Option Carved → Type 0
KeepsSlots k none = Unit
KeepsSlots k (some c) = length c.sorted + length c.unused ≡ k

carve-slots :
    (n : ℕ) (h : Hole) (hs us : List Hole)
    → length (carve n h hs us).sorted + length (carve n h hs us).unused
      ≡ suc (length hs) + length us
unfolding carve
carve-slots n h hs us = ground arith

keep_carved-slots :
    (j k : ℕ) (h : Hole) (o : Option Carved)
    → j ≡ suc k
    → KeepsSlots k o
    → KeepsSlots j (keep_carved h o)
keep_carved-slots j k h none e kept = tt
keep_carved-slots j k h (some c) e kept = omega arith

pub carve_loop-slots :
    (n : ℕ) (hs us : List Hole) → KeepsSlots (length hs + length us) (carve_loop n hs us)
unfolding carve_loop
carve_loop-slots n [] us = tt
carve_loop-slots n (h ∷ hs) us = elim (Bool-cases (leb n h.size)) [
  | inl fit ↦ rw fit (carve-slots n h hs us)
  | inr small ↦ rw small (
      keep_carved-slots _ (length hs + length us) h (carve_loop n hs us) (omega arith)
        (carve_loop-slots n hs us))
]
