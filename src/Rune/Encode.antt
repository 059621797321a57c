-- ===== src/Rune/Encode.antt =====
-- What runetochar writes, chartorune reads.
use plan9_ocaml.Prelude.{
  ℕ, List, ◌≤◌, ◌<◌, ◌++◌, ◌≡◌, arith, false, if◌then◌else◌, ltb, ◌||◌, length, Bool-cases, leb,
  inl, inr, ◌∷◌,
}
use plan9_ocaml.Rune.{
  chartorune, runetochar, decode, accepts, valid, encoded, tail_bytes, is_surrogate, runemax,
  runeerror,
}

one_byte : (c : ℕ) (rest : List ℕ) → c ≤ 127 → chartorune (c ∷ rest) ≡ (c, 1)
unfolding chartorune
one_byte c rest h = ground arith

two_bytes :
    (c : ℕ) (rest : List ℕ) → 127 < c → c ≤ 0x7FF → chartorune (encoded 2 c ++ rest) ≡ (c, 2)
unfolding chartorune encoded tail_bytes decode accepts
two_bytes c rest h k = ground arith

three_bytes :
    (c : ℕ) (rest : List ℕ)
    → 0x7FF < c
    → c ≤ 0xFFFF
    → is_surrogate c ≡ false
    → chartorune (encoded 3 c ++ rest) ≡ (c, 3)
unfolding chartorune encoded tail_bytes decode accepts
three_bytes c rest h k e = ground arith

four_bytes :
    (c : ℕ) (rest : List ℕ) → 0xFFFF < c → c ≤ 0x10FFFF → chartorune (encoded 4 c ++ rest) ≡ (c, 4)
unfolding chartorune encoded tail_bytes decode accepts
four_bytes c rest h k = ground arith

valid_bounds : (c : ℕ) → (valid c ≤ runemax) × (is_surrogate (valid c) ≡ false)
unfolding valid
valid_bounds c = ground arith

small_valid : (c : ℕ) → c ≤ 0x7FF → valid c ≡ c
unfolding valid
small_valid c h = ground arith

valid_large : (c : ℕ) → 0x7FF < c → 0x7FF < valid c
unfolding valid
valid_large c h = ground arith

-- For every number and whatever follows it: the bytes that `runetochar` writes are read back by
-- `chartorune`, all of them, as the same rune if it is at most Runemax and no surrogate, and as
-- Runeerror otherwise.
pub chartorune-runetochar :
    (c : ℕ) (rest : List ℕ)
    → chartorune (runetochar c ++ rest)
      ≡ ((if ltb runemax c || is_surrogate c then runeerror else c), length (runetochar c))
unfolding runetochar valid encoded tail_bytes
chartorune-runetochar c rest = elim (Bool-cases (leb c 127)) [
  | inl a ↦ let same = small_valid c (ground arith) in rw (a, same) (one_byte c rest (ground arith))
  | inr a ↦ elim (Bool-cases (leb c 0x7FF)) [
    | inl b ↦
        let same = small_valid c (ground arith) in
        rw (a, b, same) (two_bytes c rest (ground arith) (ground arith))
    | inr b ↦
        let more = valid_large c (ground arith) in
        let (most, none_half) = valid_bounds c in
        elim (Bool-cases (leb (valid c) 0xFFFF)) [
          | inl d ↦ rw (a, b, d) (three_bytes (valid c) rest more (ground arith) none_half)
          | inr d ↦ rw (a, b, d) (four_bytes (valid c) rest (ground arith) most)
        ]
  ]
]
