-- ===== src/Rune/Utf/Tests.antt =====
-- Runes in a string, and the theorems applied to them.
use plan9_ocaml.Prelude.{ℕ, [], some, List, ◌∷◌, ◌≡◌, refl, arith}
use plan9_ocaml.Rune.{chartorune}
use plan9_ocaml.Rune.Utf.{utflen, utfrune, utflen_from, utfrune_from}
use plan9_ocaml.Rune.Utf.Runes.{encode, AreNonzero, place_of, utfrune-encode}

-- 5, a blank, the euro sign and a number that is no rune
abbrev price : List ℕ
price = 53 ∷ 32 ∷ 0x20AC ∷ 0x110000 ∷ []

price-AreNonzero : AreNonzero price
unfolding AreNonzero
price-AreNonzero = (omega arith, (omega arith, (omega arith, (omega arith, tt))))

price_sign : utfrune (53 ∷ 32 ∷ 0xE2 ∷ 0x82 ∷ 0xAC ∷ 0 ∷ []) 0x20AC ≡ some (some 2)
unfolding utfrune utfrune_from chartorune
price_sign = refl

-- A byte that is no start of a rune is found as Runeerror.
bad_byte : utfrune (53 ∷ 0x80 ∷ 0 ∷ []) 0xFFFD ≡ some (some 1)
unfolding utfrune utfrune_from chartorune
bad_byte = refl

four_runes : utflen (53 ∷ 32 ∷ 0xE2 ∷ 0x82 ∷ 0xAC ∷ 0x80 ∷ 0 ∷ []) ≡ some 4
unfolding utflen utflen_from chartorune
four_runes = refl

utfrune-encode_example : utfrune (encode price (7 ∷ [])) 0x20AC ≡ some (place_of 0x20AC 0 price)
utfrune-encode_example = utfrune-encode 0x20AC price (7 ∷ []) (omega arith) price-AreNonzero
