-- ===== src/Vlong/Compare.antt =====
-- The comparisons of vlrt.c, and the increments and decrements.
use plan9_ocaml.Prelude.Int.{ltb_ℤ}
use plan9_ocaml.Vlong.{Vlong, vlong, lt_signed}
use plan9_ocaml.Vlong.Value.{IsVlong, value, signed}
use plan9_ocaml.Prelude.{
  ◌≡◌, Bool, add32, ltb, arith, not, if◌then◌else◌, leb, ◌==◌, ◌||◌, sub32, ◌&&◌, ◌+◌, ◌%◌, ◌^◌,
  ◌-◌, refl,
}

pub testv : Vlong → Bool
testv v = not (v.lo == 0) || not (v.hi == 0)

pub eqv : Vlong → Vlong → Bool
eqv a b = (a.lo == b.lo) && (a.hi == b.hi)

pub nev : Vlong → Vlong → Bool
nev a b = not (a.lo == b.lo) || not (a.hi == b.hi)

pub ltv : Vlong → Vlong → Bool
ltv a b = lt_signed a.hi b.hi || ((a.hi == b.hi) && ltb a.lo b.lo)

pub lev : Vlong → Vlong → Bool
lev a b = lt_signed a.hi b.hi || ((a.hi == b.hi) && leb a.lo b.lo)

pub gtv : Vlong → Vlong → Bool
gtv a b = lt_signed b.hi a.hi || ((a.hi == b.hi) && ltb b.lo a.lo)

pub gev : Vlong → Vlong → Bool
gev a b = lt_signed b.hi a.hi || ((a.hi == b.hi) && leb b.lo a.lo)

pub lov : Vlong → Vlong → Bool
lov a b = ltb a.hi b.hi || ((a.hi == b.hi) && ltb a.lo b.lo)

pub lsv : Vlong → Vlong → Bool
lsv a b = ltb a.hi b.hi || ((a.hi == b.hi) && leb a.lo b.lo)

pub hiv : Vlong → Vlong → Bool
hiv a b = ltb b.hi a.hi || ((a.hi == b.hi) && ltb b.lo a.lo)

pub hsv : Vlong → Vlong → Bool
hsv a b = ltb b.hi a.hi || ((a.hi == b.hi) && leb b.lo a.lo)

-- The pair after `++`, and after `--`.
up_one : Vlong → Vlong
up_one r = let lo = add32 r.lo 1 in vlong (if lo == 0 then add32 r.hi 1 else r.hi) lo

down_one : Vlong → Vlong
down_one r = vlong (if r.lo == 0 then sub32 r.hi 1 else r.hi) (sub32 r.lo 1)

-- What each returns, and the pair that it leaves: `x++`, `x--`, `++x` and `--x`.
pub vpp : Vlong → Vlong × Vlong
unfolding up_one
vpp r = (r, up_one r)

pub vmm : Vlong → Vlong × Vlong
unfolding down_one
vmm r = (r, down_one r)

pub ppv : Vlong → Vlong × Vlong
unfolding up_one
ppv r = let r' = up_one r in (r', r')

pub mmv : Vlong → Vlong × Vlong
unfolding down_one
mmv r = let r' = down_one r in (r', r')

module _ (a b : Vlong) (wa : IsVlong a) (wb : IsVlong b) where
  -- The unsigned comparisons are those of the numbers.
  pub unsigned_order :
      (lov a b ≡ ltb (value a) (value b))
      × (lsv a b ≡ leb (value a) (value b))
      × (hiv a b ≡ ltb (value b) (value a))
      × (hsv a b ≡ leb (value b) (value a))
      × (eqv a b ≡ (value a == value b))
      × (nev a b ≡ not (value a == value b))
  unfolding lov lsv hiv hsv eqv nev
  unsigned_order = (
    ground (arith, wa.lo, wb.lo),
    ground (arith, wa.lo, wb.lo),
    ground (arith, wa.lo, wb.lo),
    ground (arith, wa.lo, wb.lo),
    ground (arith, wa.lo, wb.lo),
    ground (arith, wa.lo, wb.lo),
  )

  -- The signed comparisons are those of the signed numbers.
  pub signed_order :
      (ltv a b ≡ ltb_ℤ (signed a) (signed b))
      × (lev a b ≡ not (ltb_ℤ (signed b) (signed a)))
      × (gtv a b ≡ ltb_ℤ (signed b) (signed a))
      × (gev a b ≡ not (ltb_ℤ (signed a) (signed b)))
  unfolding ltv lev gtv gev
  signed_order = (
    ground (arith, wa.lo, wb.lo, wa.hi, wb.hi),
    ground (arith, wa.lo, wb.lo, wa.hi, wb.hi),
    ground (arith, wa.lo, wb.lo, wa.hi, wb.hi),
    ground (arith, wa.lo, wb.lo, wa.hi, wb.hi),
  )

-- `x++` and `x--` return the old pair, `++x` and `--x` the new one, which is one more or one less
-- modulo 2 ^ 64.
pub steps-value :
    (r : Vlong)
    → IsVlong r
    → ((vpp r).0 ≡ r)
      × (value (vpp r).1 ≡ (value r + 1) % 2 ^ 64)
      × ((vmm r).0 ≡ r)
      × (value (vmm r).1 ≡ (value r + 2 ^ 64 - 1) % 2 ^ 64)
      × (ppv r ≡ ((vpp r).1, (vpp r).1))
      × (mmv r ≡ ((vmm r).1, (vmm r).1))
unfolding vpp vmm ppv mmv
steps-value r w = (refl, ground (arith, w.lo, w.hi), refl, ground (arith, w.lo, w.hi), refl, refl)
