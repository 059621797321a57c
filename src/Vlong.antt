-- ===== src/Vlong.antt =====
-- kernel/Libc/arm/vlrt.c: 64-bit arithmetic on pairs of 32-bit words, for a compiler that calls it.
-- A word is a number below 2 ^ 32; `long` is the same word read as a signed number.
pub mod Value
pub mod Sums
pub mod Shifts
pub mod Scale
pub mod Rounds
pub mod Div
pub mod Compare
pub mod Convert
pub mod Assign
pub mod Bitwise
pub mod Signed
pub mod Truncate
pub mod Tests
use Prim.Native.Nat.{bit_and, bit_or, bit_xor}
use plan9_ocaml.Prelude.{
  ℕ, zero, suc, ◌+◌, ◌-◌, ◌*◌, ◌/◌, ◌%◌, ◌^◌, ◌≤◌, ◌<◌, Bool, true, false, not, ◌&&◌, ◌||◌, Option,
  none, some, ltb, leb, ◌==◌, if◌then◌else◌, u32_mod, add32, sub32,
}
use plan9_ocaml.Prelude.Int.{ℤ, pos, negsuc}

pub record Vlong : Type 0 where
  pub lo : ℕ
  pub hi : ℕ

abbrev pub vlong : (hi lo : ℕ) → Vlong
vlong h l = record { lo = l; hi = h }

-- `1UL << 31`.
abbrev pub sign_bit : ℕ
sign_bit = 2 ^ 31

-- `-x` and `~x` of a word.
abbrev pub neg32 : ℕ → ℕ
neg32 x = sub32 0 x

abbrev pub not32 : ℕ → ℕ
not32 x = u32_mod - 1 - x

-- `x << b` and `x >> b` of an unsigned word, and `x >> b` of a signed one.
abbrev pub shl32 : ℕ → ℕ → ℕ
shl32 x b = x * 2 ^ b % u32_mod

abbrev pub shr32 : ℕ → ℕ → ℕ
shr32 x b = x / 2 ^ b

abbrev pub sar32 : ℕ → ℕ → ℕ
sar32 x b = if ltb x sign_bit then x / 2 ^ b else not32 (not32 x / 2 ^ b)

-- `(long)x < (long)y`.
abbrev pub lt_signed : ℕ → ℕ → Bool
lt_signed x y = ltb (add32 x sign_bit) (add32 y sign_bit)

pub addv : Vlong → Vlong → Vlong
addv a b =
    let lo = add32 a.lo b.lo in
    let hi = add32 a.hi b.hi in vlong (if ltb lo a.lo then add32 hi 1 else hi) lo

pub subv : Vlong → Vlong → Vlong
subv a b =
    let lo = sub32 a.lo b.lo in
    let hi = sub32 a.hi b.hi in vlong (if ltb a.lo lo then sub32 hi 1 else hi) lo

pub vneg : Vlong → Vlong
vneg v = if v.lo == 0 then vlong (neg32 v.hi) v.lo else vlong (not32 v.hi) (neg32 v.lo)

-- `hi <<= 1` with the top bit of `lo`, and `hi >>= 1` into the top bit of `lo`.
pub double : Vlong → Vlong
double v = vlong (bit_or (shl32 v.hi 1) (shr32 v.lo 31)) (shl32 v.lo 1)

pub halve : Vlong → Vlong
halve v = vlong (shr32 v.hi 1) (bit_or (shr32 v.lo 1) (shl32 v.hi 31))

-- The loop that scales the divisor up, with its count; `none` says that the rounds ran out.
pub scale : ℕ → (den quo : Vlong) → (i : ℕ) → Option (Vlong × ℕ)
scale zero den quo i = none
scale (suc rounds) den quo i =
    let rest = scale rounds (double den) quo (i + 1) in
    if ltb den.hi quo.hi || ((den.hi == quo.hi) && ltb den.lo quo.lo) then rest else some (den, i)

pub record Division : Type 0 where
  pub quo : Vlong
  pub num : Vlong
  pub den : Vlong

-- `numlo -= denlo`, with the borrow, `numhi -= denhi`.
pub minus : (num den : Vlong) → Vlong
minus num den =
    let lo = sub32 num.lo den.lo in
    let hi = if ltb num.lo lo then sub32 num.hi 1 else num.hi in vlong (sub32 hi den.hi) lo

-- One round of the second loop.
pub round : Division → Division
round s =
    let q = double s.quo in
    if ltb s.den.hi s.num.hi || ((s.num.hi == s.den.hi) && leb s.den.lo s.num.lo)
    then record { quo = vlong q.hi (bit_or q.lo 1); num = minus s.num s.den; den = halve s.den }
    else record { quo = q; num = s.num; den = halve s.den }

pub rounds : ℕ → Division → Division
unfolding round
rounds zero s = s
rounds (suc n) s = rounds n (round s)

-- What the divisor is scaled up to.
pub scale_to : Vlong → Vlong
scale_to num = if leb sign_bit num.hi then vlong sign_bit 0 else num

-- `dodiv`, quotient and remainder. `none` is the division by zero that it provokes; a vlong has
-- room for 64 doublings.
divided : Vlong → Option (Vlong × ℕ) → Option (Vlong × Vlong)
divided num none = none
divided num (some (den, i)) =
    let s = rounds (i + 1) (record { quo = vlong 0 0; num = num; den = den }) in some (s.quo, s.num)

pub dodiv : (num den : Vlong) → Option (Vlong × Vlong)
dodiv num den =
    if (den.lo == 0) && (den.hi == 0) then none else divided num (scale 65 den (scale_to num) 0)

pub quotient : Option (Vlong × Vlong) → Option Vlong
quotient none = none
quotient (some (q, r)) = some q

pub remainder : Option (Vlong × Vlong) → Option Vlong
remainder none = none
remainder (some (q, r)) = some r

pub divvu : (n d : Vlong) → Option Vlong
unfolding quotient
divvu n d =
    if (n.hi == 0) && (d.hi == 0)
    then (if d.lo == 0 then none else some (vlong 0 (n.lo / d.lo)))
    else quotient (dodiv n d)

pub modvu : (n d : Vlong) → Option Vlong
unfolding remainder
modvu n d =
    if (n.hi == 0) && (d.hi == 0)
    then (if d.lo == 0 then none else some (vlong 0 (n.lo % d.lo)))
    else remainder (dodiv n d)
