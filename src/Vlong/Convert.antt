-- ===== src/Vlong/Convert.antt =====
-- The conversions of vlrt.c between pairs and the shorter integer types.
use Prim.Native.Nat.{bit_and}
use plan9_ocaml.Prelude.Int.{ℤ, pos, negsuc}
use plan9_ocaml.Prelude.Bits.{and_low_mask}
use plan9_ocaml.Vlong.{Vlong, vlong, shl32, sar32}
use plan9_ocaml.Vlong.Value.{value, signed}
use plan9_ocaml.Prelude.{ℕ, ◌≡◌, if◌then◌else◌, ◌<◌, ltb, u32_mod, arith, ◌%◌, ◌^◌, ◌*◌, refl, ◌-◌}

-- From `long` and `int`, and from `ulong`, `uint` and pointers.
pub sl2v : ℕ → Vlong
sl2v t = vlong (sar32 t 31) t

pub ul2v : ℕ → Vlong
ul2v t = vlong 0 t

-- From `short`, `ushort`, `schar` and `uchar` in a word.
pub sh2v : ℕ → Vlong
sh2v w = let t = sar32 (shl32 w 16) 16 in vlong (sar32 t 31) t

pub uh2v : ℕ → Vlong
uh2v w = vlong 0 (bit_and w 0xffff)

pub sc2v : ℕ → Vlong
sc2v w = let t = sar32 (shl32 w 24) 24 in vlong (sar32 t 31) t

pub uc2v : ℕ → Vlong
uc2v w = vlong 0 (bit_and w 0xff)

-- To `schar`, `uchar`, `short`, `ushort`, and to the word types.
pub v2sc : Vlong → ℕ
v2sc v = sar32 (shl32 (bit_and v.lo 0xff) 24) 24

pub v2uc : Vlong → ℕ
v2uc v = bit_and v.lo 0xff

pub v2sh : Vlong → ℕ
v2sh v = sar32 (shl32 (bit_and v.lo 0xffff) 16) 16

pub v2uh : Vlong → ℕ
v2uh v = bit_and v.lo 0xffff

pub v2sl : Vlong → ℕ
v2sl v = v.lo

-- The number that the low `2 * half` values of a word stand for, with a sign.
abbrev pub signed_in : (half w : ℕ) → ℤ
signed_in half w =
    if ltb (w % (2 * half)) half
    then pos (w % (2 * half))
    else negsuc (2 * half - w % (2 * half) - 1)

module _ (w : ℕ) (fits : w < u32_mod) where
  -- A conversion to a pair keeps the number that the shorter type stands for, with its sign.
  pub widen-signed :
      (signed (sl2v w) ≡ signed_in (2 ^ 31) w)
      × (signed (sh2v w) ≡ signed_in (2 ^ 15) w)
      × (signed (sc2v w) ≡ signed_in (2 ^ 7) w)
      × (value (ul2v w) ≡ w)
      × (value (uh2v w) ≡ w % 2 ^ 16)
      × (value (uc2v w) ≡ w % 2 ^ 8)
  unfolding sl2v sh2v sc2v ul2v uh2v uc2v
  widen-signed = (
    ground arith,
    ground arith,
    ground arith,
    omega arith,
    omega (arith, and_low_mask 16 w),
    omega (arith, and_low_mask 8 w),
  )

  -- Narrowing a widened value gives the value back.
  pub narrow-widen :
      (v2sl (sl2v w) ≡ w)
      × (v2sl (ul2v w) ≡ w)
      × (v2sh (sh2v w) ≡ (sh2v w).lo)
      × (v2uh (uh2v w) ≡ (uh2v w).lo)
      × (v2sc (sc2v w) ≡ (sc2v w).lo)
      × (v2uc (uc2v w) ≡ (uc2v w).lo)
  unfolding v2sl v2sh v2uh v2sc v2uc sl2v sh2v sc2v ul2v uh2v uc2v
  narrow-widen = (
    refl,
    refl,
    ground (arith, and_low_mask 16 (sar32 (shl32 w 16) 16)),
    omega (arith, and_low_mask 16 w, and_low_mask 16 (bit_and w 0xffff)),
    ground (arith, and_low_mask 8 (sar32 (shl32 w 24) 24)),
    omega (arith, and_low_mask 8 w, and_low_mask 8 (bit_and w 0xff)),
  )
