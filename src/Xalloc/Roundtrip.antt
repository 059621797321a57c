-- ===== src/Xalloc/Roundtrip.antt =====
-- `xallocz` and `xfree` on the allocator's state.
use mathlib.Core.Path.{subst}
use plan9_ocaml.Prelude.{
  ℕ, ◌+◌, ◌^◌, ◌≤◌, ◌<◌, ◌≡◌, refl, ◌∙◌, ap, ◌⊎◌, ◌&&◌, ◌||◌, not, Bool, true, false, Option, none,
  some, [], arith, length, u32_mod, sub32,
}
use plan9_ocaml.Xalloc.{
  Carved, Xalloc, done, magic_hole, kaddr, paddr, block_size, allocated, xhole_loop, xallocz, xhole,
  xfree,
}
use plan9_ocaml.Xalloc.Chain.{IsChain, IsApart, in_range, is_free}
use plan9_ocaml.Xalloc.Release.{xhole_loop-IsChain, xhole_loop-Lost, xhole_loop-is_free}
use plan9_ocaml.Xalloc.Carve.{Took, IsFull, Searched, carve_loop-Searched}
use plan9_ocaml.Xalloc.Slots.{KeepsSlots, carve_loop-slots, xhole_loop-slots}
use plan9_ocaml.Xalloc.Words.{kaddr-eq, paddr-eq, paddr-kaddr, block_size_bounds}

-- Nhole slots, a well-formed chain of holes, and only memory that KADDR reaches.
pub record IsValid (s : Xalloc) : Type 0 where
  pub chain : IsChain 0 s.sorted_holes
  pub reachable : (a : ℕ) → is_free a s.sorted_holes ≡ true → a < 2 ^ 30
  pub slots : length s.sorted_holes + length s.unused_slots ≡ 128

-- The physical address of the block whose data stands at `p`.
abbrev pub block : ℕ → ℕ
block p = paddr (sub32 p 8)

pub record Allocated (zero? : Bool) (n : ℕ) (s : Xalloc) (p : ℕ) (s' : Xalloc) : Type 0 where
  pub valid : IsValid s'
  pub was_free : (a : ℕ) → in_range (block p) n a ≡ true → is_free a s.sorted_holes ≡ true
  pub now_free :
      (a : ℕ)
      → is_free a s'.sorted_holes ≡ (is_free a s.sorted_holes && not (in_range (block p) n a))
  pub apart : IsApart (block p) n s'.sorted_holes
  pub mapped : p ≡ kaddr (block p) + 8
  pub size : s'.mem (sub32 p 8) ≡ n
  pub magix : s'.mem (sub32 p 8 + 4) ≡ magic_hole
  pub zeroed : zero? ≡ true → (a : ℕ) → p ≤ a → a + 8 < p + n → s'.mem a ≡ 0
  pub elsewhere : (a : ℕ) → (a + 8 < p) ⊎ (p + n ≤ a + 8) → s'.mem a ≡ s.mem a

abbrev pub Allocates : (zero? : Bool) (n : ℕ) (s : Xalloc) → Option ℕ × Xalloc → Type 0
Allocates zero? n s (none, s') = IsFull n s.sorted_holes × (s' ≡ s)
Allocates zero? n s (some p, s') = Allocated zero? n s p s'

module _ (zero? : Bool) (n : ℕ) (room : 8 < n) (s : Xalloc) (v : IsValid s) (c : Carved)
    (t : Took 0 n s.sorted_holes s.unused_slots c) where
  at-lt : c.at < 2 ^ 30
  at-lt = v.reachable c.at (t.was_free c.at (ground arith))

  block-at : block (kaddr c.at + 8) ≡ c.at
  block-at =
      omega
        (arith, paddr-kaddr c.at at-lt, kaddr-eq c.at, paddr-eq (sub32 (kaddr c.at + 8) 8), at-lt)

  header-at : sub32 (kaddr c.at + 8) 8 ≡ kaddr c.at
  header-at = omega (arith, kaddr-eq c.at)

  allocated-Allocated :
      KeepsSlots (length s.sorted_holes + length s.unused_slots) (some c)
      → Allocates zero? n s (allocated zero? n s (some c))
  unfolding allocated
  allocated-Allocated slots = record {
    valid = record {
      chain = t.chain;
      reachable = λ a f. v.reachable a (ground (arith, t.now_free a));
      slots = omega (arith, v.slots);
    };
    was_free = λ a. rw block-at (t.was_free a);
    now_free = λ a. rw block-at (t.now_free a);
    apart = rw block-at t.apart;
    mapped = rw block-at;
    size = rw header-at (ground arith);
    magix = rw header-at (ground arith);
    zeroed = λ z a lo hi. ground arith;
    elsewhere = λ a out. ground arith;
  }

allocated-Allocates :
    (zero? : Bool) (n : ℕ) (s : Xalloc) (o : Option Carved)
    → 8 < n
    → IsValid s
    → Searched 0 n s.sorted_holes s.unused_slots o
    → KeepsSlots (length s.sorted_holes + length s.unused_slots) o
    → Allocates zero? n s (allocated zero? n s o)
unfolding allocated
allocated-Allocates zero? n s none room v full slots = (full, refl)
allocated-Allocates zero? n s (some c) room v t slots =
    allocated-Allocated zero? n room s v c t slots

-- From a valid state, and with a size that the rounding does not wrap, `xallocz` either returns nil,
-- changes nothing, and no hole has room for the block; or it takes a range all of whose bytes were
-- free and which is apart from the holes afterwards, writes its header, clears its data if asked,
-- changes no other word of memory and frees or takes no other byte, and the state is valid again.
pub xallocz-Allocates :
    (size : ℕ) (zero? : Bool) (s : Xalloc)
    → size + 16 < u32_mod
    → IsValid s
    → Allocates zero? (block_size size) s (xallocz size zero? s)
unfolding xallocz
xallocz-Allocates size zero? s small v =
    let room : 8 < block_size size = omega (arith, block_size_bounds size small) in
    allocated-Allocates zero? (block_size size) s _ room v
      (carve_loop-Searched (block_size size) (omega arith) 0 s.sorted_holes s.unused_slots v.chain)
      (carve_loop-slots (block_size size) s.sorted_holes s.unused_slots)

-- What a released range does to the state.
pub record Freed (addr size : ℕ) (s s' : Xalloc) (leaked : Bool) : Type 0 where
  pub valid : IsValid s'
  pub same_mem : s'.mem ≡ s.mem
  pub now_free :
      leaked ≡ false
      → (a : ℕ) → is_free a s'.sorted_holes ≡ (in_range addr size a || is_free a s.sorted_holes)
  pub lost : leaked ≡ true → (s' ≡ s) × (s.unused_slots ≡ [])

module _ (addr size : ℕ) (s : Xalloc) (v : IsValid s) (pos : 0 < size) (low : addr + size ≤ 2 ^ 30)
    (apart : IsApart addr size s.sorted_holes) where
  xhole-entered : xhole addr size s ≡ (
      let r = xhole_loop addr size s.sorted_holes s.unused_slots in
      (record s { sorted_holes = r.sorted; unused_slots = r.unused }, r.leaked))
  unfolding xhole
  xhole-entered = ground arith

  loop_reachable :
      (leaked : Bool)
      → (xhole_loop addr size s.sorted_holes s.unused_slots).leaked ≡ leaked
      → (a : ℕ) → is_free a (xhole_loop addr size s.sorted_holes s.unused_slots).sorted ≡ true
      → a < 2 ^ 30
  loop_reachable true e a f =
      v.reachable a (rw (xhole_loop-Lost addr size s.sorted_holes s.unused_slots e).0 at f)
  loop_reachable false e a f = ground (
    arith,
    v.reachable a,
    xhole_loop-is_free addr size pos (omega arith) a 0 s.sorted_holes s.unused_slots (omega arith)
        v.chain apart e,
  )

  loop_lost :
      (xhole_loop addr size s.sorted_holes s.unused_slots).leaked ≡ true
      → (record s {
        sorted_holes = (xhole_loop addr size s.sorted_holes s.unused_slots).sorted;
        unused_slots = (xhole_loop addr size s.sorted_holes s.unused_slots).unused;
      }
          ≡ s)
        × (s.unused_slots ≡ [])
  loop_lost e =
      let (same, kept, none_left) = xhole_loop-Lost addr size s.sorted_holes s.unused_slots e in
      (rw (same, kept), none_left)

  pub xhole-Freed : Freed addr size s (xhole addr size s).0 (xhole addr size s).1
  xhole-Freed = rw xhole-entered (record {
    valid = record {
      chain =
          xhole_loop-IsChain addr size pos (omega arith) 0 s.sorted_holes s.unused_slots
            (omega arith) v.chain apart;
      reachable = loop_reachable _ refl;
      slots = omega (arith, v.slots, xhole_loop-slots addr size s.sorted_holes s.unused_slots);
    };
    same_mem = refl;
    now_free = λ kept a.
        xhole_loop-is_free addr size pos (omega arith) a 0 s.sorted_holes s.unused_slots
          (omega arith) v.chain apart kept;
    lost = loop_lost;
  })

-- `xfree` behind an intact header.
xfree-header :
    (p n : ℕ) (s : Xalloc)
    → s.mem (sub32 p 8 + 4) ≡ magic_hole
    → s.mem (sub32 p 8) ≡ n
    → xfree p s ≡ done (xhole (block p) n s)
unfolding xfree
xfree-header p n s magix size = rw (magix, size)

-- What freeing the new block leaves: the lists of before.
abbrev GivesBack : Xalloc → Option ℕ × Xalloc → Type 0
GivesBack s (none, s') = Unit
GivesBack s (some p, s') = xfree p s' ≡ done (record s { mem = s'.mem }, false)

allocated-GivesBack :
    (zero? : Bool) (n : ℕ) (s : Xalloc) (o : Option Carved)
    → 8 < n
    → IsValid s
    → Searched 0 n s.sorted_holes s.unused_slots o
    → KeepsSlots (length s.sorted_holes + length s.unused_slots) o
    → GivesBack s (allocated zero? n s o)
unfolding allocated
allocated-GivesBack zero? n s none room v full slots = tt
allocated-GivesBack zero? n s (some c) room v t slots =
    let a = allocated-Allocated zero? n room s v c t slots in
    xfree-header (kaddr c.at + 8) n _ a.magix a.size ∙ ap done (entered ∙ rw t.restores)
  where
    s' : Xalloc
    s' = (allocated zero? n s (some c)).1

    entered : xhole (block (kaddr c.at + 8)) n s' ≡ (
        let r = xhole_loop c.at n c.sorted c.unused in
        (record s' { sorted_holes = r.sorted; unused_slots = r.unused }, r.leaked))
    entered = rw (block-at zero? n room s v c t) (unfold xhole in ground arith)

-- From a valid state, freeing the block that `xallocz` has just returned leaks nothing and gives the
-- very lists of holes and of unused slots of before.
pub xfree-xallocz :
    (size : ℕ) (zero? : Bool) (s s' : Xalloc) (p : ℕ)
    → size + 16 < u32_mod
    → IsValid s
    → xallocz size zero? s ≡ (some p, s')
    → xfree p s' ≡ done (record s { mem = s'.mem }, false)
xfree-xallocz size zero? s s' p small v e = subst (GivesBack s) e gives
  where
    gives : GivesBack s (xallocz size zero? s)
    gives =
        unfold xallocz in
        allocated-GivesBack zero? (block_size size) s _
          (omega (arith, block_size_bounds size small)) v
          (carve_loop-Searched (block_size size) (omega (arith, block_size_bounds size small)) 0
            s.sorted_holes s.unused_slots v.chain)
          (carve_loop-slots (block_size size) s.sorted_holes s.unused_slots)

-- In a valid state, at a block with an intact header that is not empty, is below 1 GiB and apart from
-- the holes, `xfree` does not panic, keeps the state valid and the memory unchanged; if the range does
-- not leak then its bytes are free afterwards and no others become so, and it leaks only when no slot
-- is unused, leaving the state as it was.
pub xfree-Freed :
    (p n : ℕ) (s : Xalloc)
    → IsValid s
    → s.mem (sub32 p 8 + 4) ≡ magic_hole
    → s.mem (sub32 p 8) ≡ n
    → 0 < n
    → block p + n ≤ 2 ^ 30
    → IsApart (block p) n s.sorted_holes
    → (s' : Xalloc) × (leaked : Bool) × (xfree p s ≡ done (s', leaked))
      × Freed (block p) n s s' leaked
xfree-Freed p n s v magix size pos low apart = (
  (xhole (block p) n s).0,
  (xhole (block p) n s).1,
  xfree-header p n s magix size,
  xhole-Freed (block p) n s v pos low apart,
)
