-- ===== src/Xalloc.antt =====
-- kernel/Port/xalloc.c: the allocator of long-lived kernel memory.
-- The linked lists `sorted_holes` and `unused_slots` are lists; a slot keeps its stale fields.
-- The memory behind the headers is a function from kernel addresses to words.
pub mod Chain
pub mod Release
pub mod Carve
pub mod Slots
pub mod Words
pub mod Roundtrip
pub mod Live
pub mod Span
pub mod Tests
use Prim.Native.Nat.{bit_and, bit_or}
use plan9_ocaml.Prelude.{
  ℕ, ◌+◌, ◌-◌, ◌^◌, ◌≤◌, ◌<◌, Bool, true, false, ◌&&◌, ◌||◌, Option, none, some, List, [], ◌∷◌, ltb,
  leb, ◌==◌, if◌then◌else◌, u32_mod, add32, sub32,
}

pub record Hole : Type 0 where
  pub addr : ℕ
  pub top : ℕ
  pub size : ℕ

abbrev pub hole : ℕ → ℕ → ℕ → Hole
hole a t n = record { addr = a; top = t; size = n }

-- Both lists after `xhole`, and whether the range was lost for want of a slot.
pub record Released : Type 0 where
  pub sorted : List Hole
  pub unused : List Hole
  pub leaked : Bool

abbrev released : List Hole → List Hole → Bool → Released
released hs us b = record { sorted = hs; unused = us; leaked = b }

-- `h` ends where the range starts; it may now touch the next hole.
extend_up : (size : ℕ) → Hole → List Hole → List Hole → Released
extend_up size h [] us =
    let n = add32 h.size size in released (hole h.addr (add32 h.addr n) n ∷ []) us false
extend_up size h (c ∷ cs) us =
    let n = add32 h.size size in
    let t = add32 h.addr n in
    if t == c.addr
    then released (hole h.addr (add32 t c.size) (add32 n c.size) ∷ cs) (c ∷ us) false
    else released (hole h.addr t n ∷ c ∷ cs) us false

-- A slot is taken for the range, in front of the holes `hs`.
new_hole : (addr size : ℕ) → List Hole → List Hole → Released
new_hole addr size hs [] = released hs [] true
new_hole addr size hs (u ∷ us) = released (hole addr (add32 addr size) size ∷ hs) us false

-- The first hole above the range.
before : (addr size : ℕ) → Hole → List Hole → List Hole → Released
unfolding new_hole
before addr size h hs us =
    if add32 addr size == h.addr
    then released (hole (sub32 h.addr size) h.top (add32 h.size size) ∷ hs) us false
    else new_hole addr size (h ∷ hs) us

abbrev keep : Hole → Released → Released
keep h r = record r { sorted = h ∷ r.sorted }

pub xhole_loop : (addr size : ℕ) → List Hole → List Hole → Released
unfolding extend_up new_hole before
xhole_loop addr size [] us = new_hole addr size [] us
xhole_loop addr size (h ∷ hs) us =
    let rest = keep h (xhole_loop addr size hs us) in
    if h.top == addr
    then extend_up size h hs us
    else if ltb addr h.addr
    then before addr size h hs us
    else rest

-- What `xallocz` takes from the lists: the physical address of the block.
pub record Carved : Type 0 where
  pub sorted : List Hole
  pub unused : List Hole
  pub at : ℕ

-- The first hole that is large enough shrinks from below; when it is empty its slot is given back.
carve : (size : ℕ) → Hole → List Hole → List Hole → Carved
carve size h hs us =
    let h' = hole (add32 h.addr size) h.top (sub32 h.size size) in
    if h'.size == 0
    then record { sorted = hs; unused = h' ∷ us; at = h.addr }
    else record { sorted = h' ∷ hs; unused = us; at = h.addr }

abbrev keep_carved : Hole → Option Carved → Option Carved
keep_carved h none = none
keep_carved h (some c) = some (record c { sorted = h ∷ c.sorted })

pub carve_loop : ℕ → List Hole → List Hole → Option Carved
unfolding carve
carve_loop size [] us = none
carve_loop size (h ∷ hs) us =
    let rest = keep_carved h (carve_loop size hs us) in
    if leb size h.size then some (carve size h hs us) else rest

-- KADDR and PADDR of kernel/Bcm/fns.h.
pub kaddr : ℕ → ℕ
kaddr pa = bit_or 0x80000000 (bit_and pa 0x3fffffff)

pub paddr : ℕ → ℕ
paddr va = bit_and va 0x3fffffff

abbrev pub magic_hole : ℕ
magic_hole = 0x484F4C45

pub record Xalloc : Type 0 where
  pub sorted_holes : List Hole
  pub unused_slots : List Hole
  pub mem : ℕ → ℕ

pub write : (ℕ → ℕ) → ℕ → ℕ → ℕ → ℕ
write m p v a = if a == p then v else m a

pub memset_zero : (ℕ → ℕ) → ℕ → ℕ → ℕ → ℕ
memset_zero m p n a = if leb p a && ltb a (p + n) then 0 else m a

-- The word `size` stands at a header's address, `magix` four bytes above, the data at eight.
put_header : (ℕ → ℕ) → ℕ → ℕ → ℕ → ℕ
unfolding write
put_header m p size = write (write m (p + 4) magic_hole) p size

-- Room for the header, rounded down to a multiple of eight.
pub block_size : ℕ → ℕ
block_size size = bit_and (add32 size 16) 0xfffffff8

allocated : Bool → ℕ → Xalloc → Option Carved → Option ℕ × Xalloc
unfolding put_header memset_zero kaddr
allocated zero? n s none = (none, s)
allocated zero? n s (some c) =
    let p = kaddr c.at in
    let m = if zero? then memset_zero s.mem p n else s.mem in
    (
      some (p + 8),
      record { sorted_holes = c.sorted; unused_slots = c.unused; mem = put_header m p n },
    )

pub xallocz : ℕ → Bool → Xalloc → Option ℕ × Xalloc
unfolding allocated carve_loop block_size
xallocz size zero? s =
    let n = block_size size in allocated zero? n s (carve_loop n s.sorted_holes s.unused_slots)

pub xalloc : ℕ → Xalloc → Option ℕ × Xalloc
unfolding xallocz
xalloc size s = xallocz size true s

-- The state after `xhole`, and whether the range leaked.
pub xhole : (addr size : ℕ) → Xalloc → Xalloc × Bool
unfolding xhole_loop
xhole addr size s =
    let r = xhole_loop addr size s.sorted_holes s.unused_slots in
    if size == 0
    then (s, false)
    else (record s { sorted_holes = r.sorted; unused_slots = r.unused }, r.leaked)

-- `panic` does not return.
pub data Outcome (A : Type 0) : Type 0 where
  done : A → Outcome A
  panic : Outcome A

pub xfree : ℕ → Xalloc → Outcome (Xalloc × Bool)
unfolding xhole paddr
xfree p s =
    let x = sub32 p 8 in
    if s.mem (x + 4) == magic_hole then done (xhole (paddr x) (s.mem x) s) else panic

pub xmerge : (vp vq : ℕ) → Xalloc → Outcome (Bool × Xalloc)
unfolding write
xmerge vp vq s =
    let p = sub32 vp 8 in
    let q = sub32 vq 8 in
    if (s.mem (p + 4) == magic_hole) && (s.mem (q + 4) == magic_hole)
    then (if add32 p (s.mem p) == q
        then done (true, record s { mem = write s.mem p (add32 (s.mem p) (s.mem q)) })
        else done (false, s))
    else panic

-- `x & ~(unit - 1)`.
pub mask_down : ℕ → ℕ → ℕ
mask_down x unit = bit_and x (u32_mod - 1 - (unit - 1))

abbrev give_back : (addr size : ℕ) → Xalloc → Xalloc
unfolding xhole
give_back addr size s = if ltb 0 size then (xhole addr size s).0 else s

-- The block `a` of `size + align + span` bytes is trimmed to a span boundary at both ends.
span_trim : (size align span a : ℕ) → Xalloc → ℕ × Xalloc
unfolding give_back paddr mask_down
span_trim size align span a s =
    let v = mask_down (add32 a span) span in
    let s₁ = give_back (paddr a) (sub32 v a) s in
    let s₂ = give_back (paddr (add32 (add32 v size) align)) (sub32 (add32 a span) v) s₁ in (v, s₂)

align_up : (align v : ℕ) → ℕ
unfolding mask_down
align_up align v = if ltb 1 align then mask_down (add32 v align) align else v

spanned : (size align span : ℕ) → Option ℕ × Xalloc → Outcome (ℕ × Xalloc)
unfolding span_trim align_up
spanned size align span (none, s) = panic
spanned size align span (some a, s) =
    let (v, s') = span_trim size align span a s in
    if ltb 2 span then done (align_up align v, s') else done (align_up align a, s)

pub xspanalloc : (size align span : ℕ) → Xalloc → Outcome (ℕ × Xalloc)
unfolding spanned xalloc
xspanalloc size align span s = spanned size align span (xalloc (add32 (add32 size align) span) s)
