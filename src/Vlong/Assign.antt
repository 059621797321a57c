-- ===== src/Vlong/Assign.antt =====
-- vlrt.c: `_vasop`, the assignment `lv op= rv` to an object of any integer type.
-- The 8 bytes from `lv` on are a pair, the lowest first, as the processor has them. `fn` is the
-- operation, one of those of vlrt.c, or `none` where it traps.
use mathlib.Core.Option as Option
use plan9_ocaml.Prelude.{
  ℕ, Option, none, some, ltb, if◌then◌else◌, ◌/◌, ◌%◌, ◌^◌, ◌+◌, ◌-◌, ◌≡◌, arith, refl, add32,
}
use plan9_ocaml.Vlong.{Vlong, vlong, addv}
use plan9_ocaml.Vlong.Value.{IsVlong, value}
use plan9_ocaml.Vlong.Sums.{addv-value}

-- The low `k` bits as a signed number, in 32 bits.
abbrev pub sign_extended : (k x : ℕ) → ℕ
sign_extended k x = if ltb (x % 2 ^ k) (2 ^ (k - 1)) then x % 2 ^ k else x % 2 ^ k + 2 ^ 32 - 2 ^ k

-- `t.hi = t.lo >> 31`: the low word is unsigned, so that the sign is not repeated in the high one.
abbrev pub signed_pair : ℕ → Vlong
signed_pair t = vlong (t / 2 ^ 31) t

-- The object with `u` in its low `k` bits, and `u`.
abbrev pub stored : (k : ℕ) → Vlong → Vlong → Vlong × Vlong
stored k lv u = (vlong lv.hi (lv.lo - lv.lo % 2 ^ k + u.lo % 2 ^ k), u)

-- The number for the type, from 1 on in this order, `int` and `uint` being 9 and 10; any other aborts.
pub data CType : Type 0 where
  schar : CType
  uchar : CType
  short : CType
  ushort : CType
  long : CType
  ulong : CType
  vlong_type : CType
  uvlong : CType
  int : CType
  uint : CType
  no_type : CType

-- The object afterwards, and what `ret` gets.
unfoldable pub vasop :
    (fn : Vlong → Vlong → Option Vlong) → CType → (lv rv : Vlong) → Option (Vlong × Vlong)
vasop fn schar lv rv =
    Option.map {B = Vlong × Vlong} (stored 8 lv) (fn (signed_pair (sign_extended 8 lv.lo)) rv)
vasop fn uchar lv rv =
    Option.map {B = Vlong × Vlong} (stored 8 lv) (fn (vlong 0 (lv.lo % 2 ^ 8)) rv)
vasop fn short lv rv =
    Option.map {B = Vlong × Vlong} (stored 16 lv) (fn (signed_pair (sign_extended 16 lv.lo)) rv)
vasop fn ushort lv rv =
    Option.map {B = Vlong × Vlong} (stored 16 lv) (fn (vlong 0 (lv.lo % 2 ^ 16)) rv)
vasop fn long lv rv = Option.map {B = Vlong × Vlong} (stored 32 lv) (fn (signed_pair lv.lo) rv)
vasop fn ulong lv rv = Option.map {B = Vlong × Vlong} (stored 32 lv) (fn (vlong 0 lv.lo) rv)
vasop fn vlong_type lv rv = Option.map {B = Vlong × Vlong} (λ u. (u, u)) (fn lv rv)
vasop fn uvlong lv rv = Option.map {B = Vlong × Vlong} (λ u. (u, u)) (fn lv rv)
vasop fn int lv rv = Option.map {B = Vlong × Vlong} (stored 32 lv) (fn (signed_pair lv.lo) rv)
vasop fn uint lv rv = Option.map {B = Vlong × Vlong} (stored 32 lv) (fn (vlong 0 lv.lo) rv)
vasop fn no_type lv rv = none

-- The bits of an object of the type.
abbrev pub bits_of_type : CType → ℕ
bits_of_type schar = 8
bits_of_type uchar = 8
bits_of_type short = 16
bits_of_type ushort = 16
bits_of_type long = 32
bits_of_type ulong = 32
bits_of_type vlong_type = 64
bits_of_type uvlong = 64
bits_of_type int = 32
bits_of_type uint = 32
bits_of_type no_type = 0

-- The object `c` holds the sum in its low `k` bits, and the bytes behind are those of `lv`.
pub HoldsSum : (k : ℕ) → (lv rv c : Vlong) → Type 0
HoldsSum k lv rv c =
    (value c % 2 ^ k ≡ (value lv + value rv) % 2 ^ k) × (value c / 2 ^ k ≡ value lv / 2 ^ k)

pub Adds : CType → (lv rv : Vlong) → Option (Vlong × Vlong) → Type 0
Adds type lv rv none = type ≡ no_type
Adds type lv rv (some (c, u)) = HoldsSum (bits_of_type type) lv rv c

module _ (lv rv : Vlong) (wl : IsVlong lv) (wr : IsVlong rv) where
  byte-HoldsSum :
      (t : ℕ)
      → t % 2 ^ 8 ≡ lv.lo % 2 ^ 8
      → HoldsSum 8 lv rv (vlong lv.hi (lv.lo - lv.lo % 2 ^ 8 + add32 t rv.lo % 2 ^ 8))
  unfolding HoldsSum
  byte-HoldsSum t h = (omega (arith, h), omega (arith, wl.lo))

  half-HoldsSum :
      (t : ℕ)
      → t % 2 ^ 16 ≡ lv.lo % 2 ^ 16
      → HoldsSum 16 lv rv (vlong lv.hi (lv.lo - lv.lo % 2 ^ 16 + add32 t rv.lo % 2 ^ 16))
  unfolding HoldsSum
  half-HoldsSum t h = (omega (arith, h), omega (arith, wl.lo))

  word-HoldsSum :
      HoldsSum 32 lv rv (vlong lv.hi (lv.lo - lv.lo % 2 ^ 32 + add32 lv.lo rv.lo % 2 ^ 32))
  unfolding HoldsSum
  word-HoldsSum = (omega arith, omega (arith, wl.lo))

  pair-HoldsSum : HoldsSum 64 lv rv (addv lv rv)
  unfolding HoldsSum
  pair-HoldsSum =
      let (e, w) = addv-value lv rv wl wr in
      (omega (arith, e), omega (arith, w.lo, w.hi, wl.lo, wl.hi))

  -- `lv += rv` for an object of every integer type: the object holds the sum, modulo its size, and the
  -- bytes behind it are as before. Only another type aborts.
  pub vasop-Adds : (type : CType) → Adds type lv rv (vasop (λ a b. some (addv a b)) type lv rv)
  unfolding vasop Adds addv
  vasop-Adds schar = byte-HoldsSum (sign_extended 8 lv.lo) (ground arith)
  vasop-Adds uchar = byte-HoldsSum (lv.lo % 2 ^ 8) (omega arith)
  vasop-Adds short = half-HoldsSum (sign_extended 16 lv.lo) (ground arith)
  vasop-Adds ushort = half-HoldsSum (lv.lo % 2 ^ 16) (omega arith)
  vasop-Adds long = word-HoldsSum
  vasop-Adds ulong = word-HoldsSum
  vasop-Adds vlong_type = pair-HoldsSum
  vasop-Adds uvlong = pair-HoldsSum
  vasop-Adds int = word-HoldsSum
  vasop-Adds uint = word-HoldsSum
  vasop-Adds no_type = refl
