-- ===== src/Vlong/Bitwise.antt =====
-- The bitwise operations of vlrt.c are those on the numbers.
use Prim.Native.Nat.{bit_and, bit_or, bit_xor, min, max, differ}
use plan9_ocaml.Prelude.{◌≡◌, refl, sym}
use plan9_ocaml.Prelude.Bits.{and_digit, or_digit, xor_digit, fields}
use plan9_ocaml.Vlong.{Vlong}
use plan9_ocaml.Vlong.Value.{IsVlong, value}
use plan9_ocaml.Vlong.Signed.{andv, orv, xorv}

module _ (a b : Vlong) (wa : IsVlong a) (wb : IsVlong b) where
  -- The bits of the two words are those of the number of 64 bits.
  pub bitwise-value :
      (value (andv a b) ≡ bit_and (value a) (value b))
      × (value (orv a b) ≡ bit_or (value a) (value b))
      × (value (xorv a b) ≡ bit_xor (value a) (value b))
  unfolding andv orv xorv
  bitwise-value = (
    sym (fields bit_and min refl and_digit 32 a.hi a.lo b.hi b.lo wa.lo wb.lo),
    sym (fields bit_or max refl or_digit 32 a.hi a.lo b.hi b.lo wa.lo wb.lo),
    sym (fields bit_xor differ refl xor_digit 32 a.hi a.lo b.hi b.lo wa.lo wb.lo),
  )
