-- ===== src/Vlong/Shifts/Right.antt =====
-- `_rshlv` and `_rshav`.
use Prim.Native.Nat.{bit_or}
use native.Mathlib.Nat.{
  div-eq_of_lt, div-div-eq-div-mul, add-mul-div_right, div-add-mod', div-lt_iff_lt-mul,
  pow-le-pow_right,
}
use plan9_ocaml.Prelude.Int.{ℤ, pos, negsuc}
use plan9_ocaml.Prelude.Bits.{or_low_bits, two_pow_add, two_pow_pos, two_pow_split}
use plan9_ocaml.Vlong.{Vlong, vlong, shl32, shr32, sar32}
use plan9_ocaml.Vlong.Value.{IsVlong, value}
use plan9_ocaml.Vlong.Shifts.Left.{times_mod}
use plan9_ocaml.Prelude.{
  ℕ, ◌+◌, ◌*◌, ◌<◌, ◌≤◌, ◌≡◌, if◌then◌else◌, ◌-◌, ◌^◌, ◌/◌, leb, arith, Bool-cases, ◌%◌, ap, false,
  sym, ◌==◌, inl, inr, ◌∙◌, refl,
}

right : Vlong → ℕ → Vlong
right a b =
    if leb 32 b
    then vlong 0 (if leb 64 b then 0 else shr32 a.hi (b - 32))
    else if b == 0
    then a
    else vlong (shr32 a.hi b) (bit_or (shl32 a.hi (32 - b)) (shr32 a.lo b))

pub rshlv : Vlong → ℤ → Vlong
unfolding right
rshlv a (pos b) = right a b
rshlv a (negsuc n) = a

right_signed : Vlong → ℕ → Vlong
right_signed a b =
    if leb 32 b
    then vlong (sar32 a.hi 31) (if leb 64 b then sar32 a.hi 31 else sar32 a.hi (b - 32))
    else if b == 0
    then a
    else vlong (sar32 a.hi b) (bit_or (shl32 a.hi (32 - b)) (shr32 a.lo b))

pub rshav : Vlong → ℤ → Vlong
unfolding right_signed
rshav a (pos b) = right_signed a b
rshav a (negsuc n) = a

module _ (a : Vlong) (w : IsVlong a) where
  -- The low word takes the bits that leave the high one.
  joined :
      (b : ℕ)
      → 0 < b
      → b < 32
      → bit_or (shl32 a.hi (32 - b)) (shr32 a.lo b) ≡ a.hi % 2 ^ b * 2 ^ (32 - b) + a.lo / 2 ^ b
  joined b nonzero lt =
      let p = 2 ^ b in
      let q = 2 ^ (32 - b) in
      let e : q * p ≡ 2 ^ 32 = two_pow_split 32 b (omega arith) in
      let e' : p * q ≡ 2 ^ 32 = omega arith in
      let top : a.hi * q % 2 ^ 32 ≡ a.hi % p * q =
        ap (λ (t : ℕ). a.hi * q % t) (sym e')
        ∙ times_mod a.hi q p (two_pow_pos b) (two_pow_pos (32 - b)) in
      let carry : a.lo / p < q = (div-lt_iff_lt-mul (two_pow_pos b)).1 (omega (arith, w.lo)) in
      rw top (or_low_bits (a.lo / p) (a.hi % p) (32 - b) carry)

  -- The number divided.
  pair_div :
      (p q : ℕ)
      → q * p ≡ 2 ^ 32
      → 0 < p
      → value a / p ≡ a.hi / p * 2 ^ 32 + (a.hi % p * q + a.lo / p)
  pair_div p q e hp =
      let h : a.hi / p * p + a.hi % p ≡ a.hi = div-add-mod' a.hi p in
      let times : a.hi / p * p * q + a.hi % p * q ≡ a.hi * q =
        omega (arith, ap (λ (t : ℕ). t * q) h) in
      let whole : a.hi / p * p * q ≡ a.hi / p * 2 ^ 32 =
        omega (arith, ap (λ (t : ℕ). a.hi / p * t) e) in
      let split : value a ≡ a.lo + a.hi * q * p = omega (arith, ap (λ (t : ℕ). a.hi * t) e) in
      ap (λ (t : ℕ). t / p) split ∙ add-mul-div_right a.lo (a.hi * q) hp ∙ omega arith

  right_short : (b : ℕ) → 0 < b → b < 32 → value (right a b) ≡ value a / 2 ^ b
  unfolding right
  right_short b nonzero lt =
      let small : leb 32 b ≡ false = ground arith in
      let moves : (b == 0) ≡ false = ground arith in
      rw
        (
          small,
          moves,
          joined b nonzero lt,
          pair_div (2 ^ b) (2 ^ (32 - b)) (two_pow_split 32 b (omega arith)) (two_pow_pos b),
        )
        refl

  -- A shift by 32 or more drops the low word.
  high_div : (b : ℕ) → 32 ≤ b → value a / 2 ^ b ≡ a.hi / 2 ^ (b - 32)
  high_div b ge =
      let power : 2 ^ 32 * 2 ^ (b - 32) ≡ 2 ^ b =
        let e : 32 + (b - 32) ≡ b = omega arith in
        sym (two_pow_add 32 (b - 32)) ∙ ap (λ (t : ℕ). 2 ^ t) e in
      let drop : value a / 2 ^ 32 ≡ a.hi = omega (arith, w.lo) in
      ap (λ (t : ℕ). value a / t) (sym power)
      ∙ sym (div-div-eq-div-mul (value a) (2 ^ 32) (2 ^ (b - 32)))
      ∙ ap (λ (t : ℕ). t / 2 ^ (b - 32)) drop

  no_bits_left : (x b : ℕ) → x < 2 ^ 32 → 64 ≤ b → x / 2 ^ (b - 32) ≡ 0
  no_bits_left x b lt ge =
      div-eq_of_lt
        (omega (arith, pow-le-pow_right {n = 2} (omega arith) {i = 32} {j = b - 32} (omega arith)))

  -- Shifting a pair right, unsigned, by a count that is not negative divides its number by that power of
  -- two, rounding down; a negative count leaves the pair as it is.
  pub rshlv-value : (b : ℕ) → (value (rshlv a (pos b)) ≡ value a / 2 ^ b) × (rshlv a (negsuc b) ≡ a)
  unfolding rshlv
  rshlv-value b = (
    elim (Bool-cases (leb 32 b)) [
      | inl big ↦ elim (Bool-cases (leb 64 b)) [
        | inl huge ↦
            rw (big, huge, high_div b (ground arith), no_bits_left a.hi b w.hi (ground arith)) refl
        | inr fits ↦ rw (big, fits, high_div b (ground arith)) (omega arith)
      ]
      | inr small ↦ elim (Bool-cases (b == 0)) [
        | inl none_at_all ↦ (let e : b ≡ 0 = ground arith in rw e (omega arith))
        | inr some_bits ↦ right_short b (ground arith) (ground arith)
      ]
    ],
    refl,
  )
