-- ===== src/Vlong/Sums.antt =====
-- Sums, differences, negation, doubling and halving of pairs, as arithmetic modulo 2 ^ 64.
use plan9_ocaml.Prelude.{◌≡◌, ◌≤◌, ◌+◌, ◌-◌, ◌^◌, ◌%◌, ◌*◌, ◌/◌, arith, ◌∙◌, refl}
use Prim.Native.Nat.{bit_or}
use plan9_ocaml.Prelude.Bits.{or_low_bits, bit_or_comm}
use plan9_ocaml.Vlong.{Vlong, vlong, addv, subv, vneg, double, halve, minus}
use plan9_ocaml.Vlong.Value.{IsVlong, value}

module _ (a b : Vlong) (wa : IsVlong a) (wb : IsVlong b) where
  -- The sum of two pairs is their sum modulo 2 ^ 64.
  pub addv-value : (value (addv a b) ≡ (value a + value b) % 2 ^ 64) × IsVlong (addv a b)
  unfolding addv
  addv-value = ground (arith, wa.lo, wa.hi, wb.lo, wb.hi)

  -- The difference of two pairs is their difference modulo 2 ^ 64.
  pub subv-value : (value (subv a b) ≡ (value a + 2 ^ 64 - value b) % 2 ^ 64) × IsVlong (subv a b)
  unfolding subv
  subv-value = ground (arith, wa.lo, wa.hi, wb.lo, wb.hi)

  -- Where the second is no larger, `minus` is the difference.
  pub minus-value :
      value b ≤ value a → (value (minus a b) ≡ value a - value b) × IsVlong (minus a b)
  unfolding minus
  minus-value le = ground (arith, wa.lo, wa.hi, wb.lo, wb.hi)

module _ (v : Vlong) (w : IsVlong v) where
  pub vneg-value : (value (vneg v) ≡ (2 ^ 64 - value v) % 2 ^ 64) × IsVlong (vneg v)
  unfolding vneg
  vneg-value = ground (arith, w.lo, w.hi)

  double-hi : (double v).hi ≡ v.hi % 2 ^ 31 * 2 + v.lo / 2 ^ 31
  unfolding double
  double-hi =
      let e : v.hi * 2 % 2 ^ 32 ≡ v.hi % 2 ^ 31 * 2 = omega arith in
      rw e (or_low_bits (v.lo / 2 ^ 31) (v.hi % 2 ^ 31) 1 (omega (arith, w.lo)))

  double-lo : (double v).lo ≡ v.lo * 2 % 2 ^ 32
  unfolding double
  double-lo = refl

  pub double-value : (value (double v) ≡ 2 * value v % 2 ^ 64) × IsVlong (double v)
  double-value = (
    omega (arith, double-hi, double-lo, w.lo, w.hi),
    record { lo = omega (arith, double-lo); hi = omega (arith, double-hi, w.lo, w.hi) },
  )

  -- The bottom bit of a doubled pair is clear, so that setting it adds one.
  pub double-bit : bit_or (double v).lo 1 ≡ (double v).lo + 1
  double-bit =
      let e : v.lo * 2 % 2 ^ 32 ≡ v.lo % 2 ^ 31 * 2 = omega arith in
      rw (double-lo, e) (or_low_bits 1 (v.lo % 2 ^ 31) 1 (omega arith))

  pub double-odd :
      (value (vlong (double v).hi (bit_or (double v).lo 1)) ≡ value (double v) + 1)
      × IsVlong (vlong (double v).hi (bit_or (double v).lo 1))
  double-odd = rw double-bit (
    omega arith,
    record { lo = omega (arith, double-lo); hi = omega (arith, double-hi, w.lo, w.hi) },
  )

  halve-lo : (halve v).lo ≡ v.hi % 2 * 2 ^ 31 + v.lo / 2
  unfolding halve
  halve-lo =
      let e : v.hi * 2 ^ 31 % 2 ^ 32 ≡ v.hi % 2 * 2 ^ 31 = omega arith in
      rw e (
        bit_or_comm (v.lo / 2) (v.hi % 2 * 2 ^ 31)
        ∙ or_low_bits (v.lo / 2) (v.hi % 2) 31 (omega (arith, w.lo)))

  halve-hi : (halve v).hi ≡ v.hi / 2
  unfolding halve
  halve-hi = refl

  pub halve-value : (value (halve v) ≡ value v / 2) × IsVlong (halve v)
  halve-value = (
    omega (arith, halve-lo, halve-hi, w.lo, w.hi),
    record { lo = omega (arith, halve-lo, w.lo); hi = omega (arith, halve-hi, w.hi) },
  )
