-- ===== src/Vlong/Signed.antt =====
-- vlrt.c: the signed division, `_divv` and `_modv`, and the bitwise operations.
-- The processor does not divide. Words are divided by `_div` and `_mod` of div.s, beside vlrt.c: the
-- magnitudes, then the sign, which wraps for -2 ^ 31 / -1. A division by 0 traps, which is `none`.
use Prim.Native.Nat.{bit_and, bit_or, bit_xor}
use plan9_ocaml.Prelude.{
  ℕ, Option, Bool, none, some, ◌==◌, ltb, ◌&&◌, not, if◌then◌else◌, ◌/◌, ◌%◌, ◌^◌,
}
use plan9_ocaml.Vlong.{Vlong, vlong, vneg, dodiv, quotient, remainder, neg32, sar32, sign_bit}

-- A word with its sign bit set.
abbrev pub is_neg32 : ℕ → Bool
is_neg32 x = not (ltb x sign_bit)

abbrev pub differ : Bool → Bool → Bool
differ a b = if a then not b else b

abbrev pub with_sign32 : (neg : Bool) → ℕ → ℕ
with_sign32 neg x = if neg then neg32 x else x

-- `(long)x / (long)y` and `(long)x % (long)y`.
abbrev pub div_signed : ℕ → ℕ → ℕ
div_signed x y =
    with_sign32 (differ (is_neg32 x) (is_neg32 y))
      (with_sign32 (is_neg32 x) x / with_sign32 (is_neg32 y) y)

abbrev pub mod_signed : ℕ → ℕ → ℕ
mod_signed x y = with_sign32 (is_neg32 x) (with_sign32 (is_neg32 x) x % with_sign32 (is_neg32 y) y)

-- A pair that is its low word, extended by the sign.
abbrev pub is_long : Vlong → Bool
is_long v = v.hi == sar32 v.lo 31

abbrev pub widened : ℕ → Vlong
widened lo = vlong (sar32 lo 31) lo

-- The sign of a pair, and the pair without or with a sign.
abbrev pub is_neg : Vlong → Bool
is_neg v = not (v.hi / 2 ^ 31 == 0)

abbrev pub with_sign : (neg : Bool) → Vlong → Vlong
with_sign neg v = if neg then vneg v else v

unfoldable pub signed_quotient : (neg : Bool) → Option Vlong → Option Vlong
signed_quotient neg none = none
signed_quotient neg (some q) = some (with_sign neg q)

unfoldable pub divv : (n d : Vlong) → Option Vlong
unfolding quotient
divv n d =
    if is_long n && is_long d
    then (if d.lo == 0 then none else some (widened (div_signed n.lo d.lo)))
    else signed_quotient (differ (is_neg n) (is_neg d))
        (quotient (dodiv (with_sign (is_neg n) n) (with_sign (is_neg d) d)))

unfoldable pub modv : (n d : Vlong) → Option Vlong
unfolding remainder
modv n d =
    if is_long n && is_long d
    then (if d.lo == 0 then none else some (widened (mod_signed n.lo d.lo)))
    else signed_quotient (is_neg n)
        (remainder (dodiv (with_sign (is_neg n) n) (with_sign (is_neg d) d)))

unfoldable pub andv : (a b : Vlong) → Vlong
andv a b = vlong (bit_and a.hi b.hi) (bit_and a.lo b.lo)

unfoldable pub orv : (a b : Vlong) → Vlong
orv a b = vlong (bit_or a.hi b.hi) (bit_or a.lo b.lo)

unfoldable pub xorv : (a b : Vlong) → Vlong
xorv a b = vlong (bit_xor a.hi b.hi) (bit_xor a.lo b.lo)
