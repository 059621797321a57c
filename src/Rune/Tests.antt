-- ===== src/Rune/Tests.antt =====
-- Some runes, and the theorems applied to them.
use plan9_ocaml.Prelude.{
  [], zero, suc, true, false, List, arith, ◌≡◌, ◌∷◌, ◌++◌, ℕ, if◌then◌else◌, refl, ltb, ◌||◌,
  length,
}
use plan9_ocaml.Rune.{
  chartorune, runetochar, runelen, runenlen, fullrune, runemax, runeerror, is_surrogate,
}
use plan9_ocaml.Rune.Encode.{chartorune-runetochar}
use plan9_ocaml.Rune.Decode.{IsRead, IsBytes, chartorune-IsRead}

-- U+20AC
abbrev euro : List ℕ
euro = 0xE2 ∷ 0x82 ∷ 0xAC ∷ []

written_euro : runetochar 0x20AC ≡ euro
unfolding runetochar
written_euro = refl

read_euro : chartorune euro ≡ (0x20AC, 3)
unfolding chartorune
read_euro = refl

-- Two bytes for a rune of one.
read_overlong : chartorune (0xC0 ∷ 0x80 ∷ []) ≡ (runeerror, 1)
unfolding chartorune
read_overlong = refl

-- A number above Runemax is counted as four bytes, and written in three.
counted_above : (runenlen (0x110000 ∷ []) ≡ 4) × (runelen 0x110000 ≡ 3)
unfolding runenlen runelen
counted_above = (refl, refl)

partial_euro : (fullrune euro 2 ≡ false) × (fullrune euro 3 ≡ true)
unfolding fullrune
partial_euro = (refl, refl)

euro-IsBytes : IsBytes euro
unfolding IsBytes
euro-IsBytes zero = omega arith
euro-IsBytes (suc zero) = omega arith
euro-IsBytes (suc (suc zero)) = omega arith
euro-IsBytes (suc (suc (suc i))) = omega arith

chartorune-runetochar_example : chartorune (runetochar 0xD801 ++ 7 ∷ []) ≡ (
  if ltb runemax 0xD801 || is_surrogate 0xD801 then runeerror else 0xD801,
  length (runetochar 0xD801),
)
chartorune-runetochar_example = chartorune-runetochar 0xD801 (7 ∷ [])

chartorune-IsRead_example : IsRead euro (chartorune euro)
chartorune-IsRead_example = chartorune-IsRead euro euro-IsBytes
