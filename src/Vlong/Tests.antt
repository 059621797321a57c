-- ===== src/Vlong/Tests.antt =====
-- vlrt.c at concrete pairs, and the theorems there.
use plan9_ocaml.Vlong.{
  Vlong, vlong, addv, divvu, modvu, divided, scale, scale_to, double, halve, minus, round, rounds,
  quotient, remainder, dodiv, vneg,
}
use plan9_ocaml.Vlong.Value.{IsVlong}
use plan9_ocaml.Vlong.Div.{IsDivided, divvu-IsDivided}
use plan9_ocaml.Vlong.Assign.{vasop, Adds, vasop-Adds, short}
use plan9_ocaml.Vlong.Signed.{divv, modv, signed_quotient}
use plan9_ocaml.Vlong.Truncate.{IsTruncated, divv-IsTruncated}
use plan9_ocaml.Prelude.{◌≡◌, refl, arith, some}

abbrev x : Vlong
x = vlong 0xffff_ffff 0xffff_fffe

abbrev y : Vlong
y = vlong 0 3

x-IsVlong : IsVlong x
x-IsVlong = record { lo = omega arith; hi = omega arith }

y-IsVlong : IsVlong y
y-IsVlong = record { lo = omega arith; hi = omega arith }

wraps : addv x y ≡ vlong 0 1
unfolding addv
wraps = refl

thirds : divvu x y ≡ some (vlong 0x5555_5555 0x5555_5554)
unfolding divvu quotient dodiv divided scale scale_to double halve minus round rounds
thirds = refl

divvu-IsDivided_example :
    (q r : Vlong) × (divvu x y ≡ some q) × (modvu x y ≡ some r) × IsDivided x y q r
divvu-IsDivided_example = divvu-IsDivided x y x-IsVlong y-IsVlong (omega arith)

-- -5 / 3 and -5 % 3, on pairs that are one word extended, and -2 ^ 40 / 3.
towards_zero :
    (divv (vlong 0xffff_ffff 0xffff_fffb) y ≡ some (vlong 0xffff_ffff 0xffff_ffff))
    × (modv (vlong 0xffff_ffff 0xffff_fffb) y ≡ some (vlong 0xffff_ffff 0xffff_fffe))
unfolding divv modv quotient remainder signed_quotient
towards_zero = (refl, refl)

big_negative : divv (vlong 0xffff_ff00 0) y ≡ some (vlong 0xffff_ffaa 0xaaaa_aaab)
unfolding divv quotient remainder signed_quotient dodiv divided scale scale_to double halve minus
    round rounds vneg
big_negative = refl

-- -2 ^ 31 / -1 is 2 ^ 31, for which a pair has room; the short way gives -2 ^ 31.
smallest_long :
    divv (vlong 0xffff_ffff 0x8000_0000) (vlong 0xffff_ffff 0xffff_ffff)
    ≡ some (vlong 0xffff_ffff 0x8000_0000)
unfolding divv quotient remainder signed_quotient
smallest_long = refl

divv-IsTruncated_example :
    (q r : Vlong) × (divv x y ≡ some q) × (modv x y ≡ some r) × IsTruncated x y q r
divv-IsTruncated_example = divv-IsTruncated x y x-IsVlong y-IsVlong (omega arith) refl

-- A `short` of -2 and 3 more, with other bytes behind it.
vasop-Adds_example :
    Adds short
      (vlong 7 0x0005_fffe)
      y
      (vasop (λ a b. some (addv a b)) short (vlong 7 0x0005_fffe) y)
vasop-Adds_example =
    vasop-Adds (vlong 7 0x0005_fffe) y (record { lo = omega arith; hi = omega arith }) y-IsVlong
      short

-- The object holds 1, but what is handed back is not 1: its high word is that of a number without sign.
short_sum :
    vasop (λ a b. some (addv a b)) short (vlong 7 0x0005_fffe) y
    ≡ some (vlong 7 0x0005_0001, vlong 2 1)
unfolding vasop addv
short_sum = refl
