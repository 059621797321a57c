-- ===== src/Ifmt/Tests.antt =====
-- Runs of `_ifmt` on concrete formats, and one application of each theorem.
use plan9_ocaml.Prelude.{[], some, true, false, ◌≡◌, ◌∷◌, refl}
use plan9_ocaml.Ifmt.{
  Flags, Fmt, ifmt, handed_on, fmt_with, put_digits, fill, digits_of, put_rest, read_arg,
  base_of_verb, conv, is_sharp, is_neg_arg, magnitude_of,
}
use plan9_ocaml.Ifmt.Length.{ifmt-Fits, Fits}
use plan9_ocaml.Ifmt.Roundtrip.{ifmt-ReadsBack, ReadsBack}

abbrev no_flags : Flags
no_flags = record {
  left = false;
  prec = false;
  sharp = false;
  space = false;
  sign = false;
  zero_fill = false;
  unsigned = false;
  short = false;
  long = false;
  vlong = false;
  comma = false;
  byte = false;
}

-- %d
abbrev plain_d : Fmt
plain_d = record { r = 100; flags = no_flags; width = 0; prec = 0 }

-- %#08x
abbrev wide_hex : Fmt
wide_hex = record {
  r = 120;
  flags = record no_flags { sharp = true; zero_fill = true };
  width = 8;
  prec = 0;
}

-- %,lud
abbrev with_commas : Fmt
with_commas = record {
  r = 100;
  flags = record no_flags { comma = true; unsigned = true; long = true };
  width = 0;
  prec = 0;
}

minus_five : ifmt plain_d 4_294_967_291 ≡ some (plain_d, record { chars = 45 ∷ 53 ∷ []; n = 2 })
unfolding ifmt handed_on fmt_with put_digits fill digits_of put_rest read_arg base_of_verb conv
    is_sharp is_neg_arg magnitude_of
minus_five = refl

-- 0x0000ff
hex_255 :
    ifmt wide_hex 255
    ≡ some (
      record wide_hex { width = 0 },
      record { chars = 48 ∷ 120 ∷ 48 ∷ 48 ∷ 48 ∷ 48 ∷ 102 ∷ 102 ∷ []; n = 8 },
    )
unfolding ifmt handed_on fmt_with put_digits fill digits_of put_rest read_arg base_of_verb conv
    is_sharp is_neg_arg magnitude_of
hex_255 = refl

-- 12,345
with_commas_12345 :
    ifmt with_commas 12345
    ≡ some (with_commas, record { chars = 49 ∷ 50 ∷ 44 ∷ 51 ∷ 52 ∷ 53 ∷ []; n = 6 })
unfolding ifmt handed_on fmt_with put_digits fill digits_of put_rest read_arg base_of_verb conv
    is_sharp is_neg_arg magnitude_of
with_commas_12345 = refl

ifmt-Fits_example : Fits with_commas (ifmt with_commas 12345)
ifmt-Fits_example = ifmt-Fits with_commas 12345

verb_d : base_of_verb 100 ≡ some 10
unfolding base_of_verb
verb_d = refl

ifmt-ReadsBack_example :
    ReadsBack (read_arg plain_d.flags 4_294_967_291) 10 (ifmt plain_d 4_294_967_291)
ifmt-ReadsBack_example = ifmt-ReadsBack plain_d 4_294_967_291 10 refl refl verb_d
