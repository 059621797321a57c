-- ===== src/Rune/Utf/Runes.antt =====
-- `utflen` and `utfrune` on a string of runes.
use plan9_ocaml.Prelude.{
  [], none, some, zero, suc, ℕ, List, Option, drop, length, ltb, ◌==◌, ◌+◌, if◌then◌else◌, ◌∷◌,
  ◌++◌, ◌≡◌, ◌≤◌, ◌<◌, arith, refl, Bool-cases, inl, inr, true, false, leb, ◌||◌, ap, ◌∙◌,
  length-append, ◌≢◌,
}
use plan9_ocaml.Rune.{
  chartorune, runetochar, byte, tx, encoded, tail_bytes, valid, runemax, is_surrogate, runeerror,
}
use plan9_ocaml.Rune.Encode.{chartorune-runetochar}
use plan9_ocaml.Rune.Utf.{utflen_from, utflen, utfrune_from, utfrune}

-- The string of the runes, and a 0.
unfoldable pub encode : List ℕ → (rest : List ℕ) → List ℕ
encode [] rest = 0 ∷ rest
encode (c ∷ cs) rest = runetochar c ++ encode cs rest

-- No rune is 0.
unfoldable pub AreNonzero : List ℕ → Type 0
AreNonzero [] = Unit
AreNonzero (c ∷ cs) = (c ≢ 0) × AreNonzero cs

drop-append : (xs ys : List ℕ) → drop (length xs) (xs ++ ys) ≡ ys
drop-append [] ys = refl
drop-append (x ∷ xs) ys = drop-append xs ys

ascii_char : (c : ℕ) → c ≤ 127 → runetochar c ≡ c ∷ []
unfolding runetochar
ascii_char c h = ground arith

-- A rune of several bytes starts with one that is not ASCII.
wide_head : (c : ℕ) (ys : List ℕ) → 127 < c → 128 ≤ byte (runetochar c ++ ys) 0
unfolding runetochar encoded tail_bytes valid
wide_head c ys h = elim (Bool-cases (leb c 0x7FF)) [
  | inl a ↦ let wide : leb c 127 ≡ false = ground arith in rw (wide, a) (ground arith)
  | inr a ↦
      let wide : leb c 127 ≡ false = ground arith in
      rw (wide, a)
        (elim (Bool-cases (leb (valid c) 0xFFFF)) [
          | inl b ↦ rw b (ground arith)
          | inr b ↦ rw b (ground arith)
        ])
]

-- One round over a rune of several bytes.
wide_rest :
    (c : ℕ) (ys : List ℕ) → drop (chartorune (runetochar c ++ ys)).1 (runetochar c ++ ys) ≡ ys
wide_rest c ys =
    ap (λ (n : ℕ). drop n (runetochar c ++ ys))
      (ap (λ (r : ℕ × ℕ). r.1) (chartorune-runetochar c ys))
    ∙ drop-append (runetochar c) ys

utflen_from-encode :
    (k n : ℕ) (cs rest : List ℕ)
    → AreNonzero cs
    → length cs < k
    → utflen_from k (encode cs rest) n ≡ some (n + length cs)
unfolding utflen_from encode AreNonzero
utflen_from-encode zero n cs rest h le = absurd (omega arith)
utflen_from-encode (suc k) n [] rest h le = ap (λ (x : ℕ). some x) (omega arith)
utflen_from-encode (suc k) n (c ∷ cs) rest (nz, h) le =
    let more = utflen_from-encode k (n + 1) cs rest h (omega arith) in
    let count : n + 1 + length cs ≡ n + length (c ∷ cs) = omega arith in
    elim (Bool-cases (leb c 127)) [
      | inl a ↦
          let one = ascii_char c (ground arith) in
          let ascii : ltb c tx ≡ true = ground arith in
          let some_c : (c == 0) ≡ false = ground arith in
          rw (one, ascii, some_c) (more ∙ rw count refl)
      | inr a ↦
          let head = wide_head c (encode cs rest) (ground arith) in
          let wide : ltb (byte (runetochar c ++ encode cs rest) 0) tx ≡ false =
            ground (arith, head) in
          rw (wide, wide_rest c (encode cs rest)) (more ∙ rw count refl)
    ]

runetochar-length : (c : ℕ) → 1 ≤ length (runetochar c)
unfolding runetochar encoded tail_bytes
runetochar-length c = elim (Bool-cases (leb c 127)) [
  | inl a ↦ rw a (omega arith)
  | inr a ↦ elim (Bool-cases (leb c 0x7FF)) [
    | inl b ↦ rw (a, b) (omega arith)
    | inr b ↦ elim (Bool-cases (leb (valid c) 0xFFFF)) [
      | inl d ↦ rw (a, b, d) (omega arith)
      | inr d ↦ rw (a, b, d) (omega arith)
    ]
  ]
]

encode-length : (cs rest : List ℕ) → length cs ≤ length (encode cs rest)
unfolding encode
encode-length [] rest = omega arith
encode-length (c ∷ cs) rest = omega (
  arith,
  encode-length cs rest,
  runetochar-length c,
  length-append (runetochar c) (encode cs rest),
)

-- For every sequence of runes other than 0, also invalid ones, written one after another and ended by a
-- 0, whatever follows: `utflen` ends and gives their number.
pub utflen-encode : (cs rest : List ℕ) → AreNonzero cs → utflen (encode cs rest) ≡ some (length cs)
unfolding utflen
utflen-encode cs rest h =
    utflen_from-encode (length (encode cs rest) + 1) 0 cs rest h
      (omega (arith, encode-length cs rest))
    ∙ ap (λ (x : ℕ). some x) (omega arith)

-- The rune that is read where `c` was written.
abbrev pub shown : ℕ → ℕ
shown c = if ltb runemax c || is_surrogate c then runeerror else c

-- The bytes before the first of the runes that shows as `c`, from `at` on.
unfoldable pub place_of : (c at : ℕ) → List ℕ → Option ℕ
place_of c at [] = none
place_of c at (d ∷ ds) =
    let further = place_of c (at + length (runetochar d)) ds in
    if shown d == c then some at else further

utfrune_from-encode :
    (k c at : ℕ) (cs rest : List ℕ)
    → AreNonzero cs
    → length cs < k
    → utfrune_from k (encode cs rest) c at ≡ some (place_of c at cs)
unfolding utfrune_from encode AreNonzero place_of
utfrune_from-encode zero c at cs rest h le = absurd (omega arith)
utfrune_from-encode (suc k) c at [] rest h le = refl
utfrune_from-encode (suc k) c at (d ∷ ds) rest (nz, h) le =
    let more = utfrune_from-encode k c (at + length (runetochar d)) ds rest h (omega arith) in
    elim (Bool-cases (leb d 127)) [
      | inl a ↦
          let one = ascii_char d (ground arith) in
          let ascii : ltb d tx ≡ true = ground arith in
          let some_d : (d == 0) ≡ false = ground arith in
          let plain : shown d ≡ d = ground arith in
          let further : utfrune_from k (encode ds rest) c (at + 1) ≡ some (place_of c (at + 1) ds) =
            utfrune_from-encode k c (at + 1) ds rest h (omega arith) in
          elim (Bool-cases (d == c)) [
            | inl e ↦ rw (one, ascii, some_d, plain, e) refl
            | inr e ↦ rw (one, ascii, some_d, plain, e, further) refl
          ]
      | inr a ↦
          let ys = encode ds rest in
          let head = wide_head d ys (ground arith) in
          let wide : ltb (byte (runetochar d ++ ys) 0) tx ≡ false = ground (arith, head) in
          let read = chartorune-runetochar d ys in
          elim (Bool-cases (shown d == c)) [
            | inl e ↦ rw (wide, read, e) refl
            | inr e ↦ rw (wide, read, e, drop-append (runetochar d) ys, more) refl
          ]
    ]

-- For a rune `c` that is not ASCII, in every sequence of runes other than 0, written one after another
-- and ended by a 0: `utfrune` ends and gives the place of the first of them that reads as `c`, and the
-- null pointer when there is none.
pub utfrune-encode :
    (c : ℕ) (cs rest : List ℕ)
    → 128 ≤ c
    → AreNonzero cs
    → utfrune (encode cs rest) c ≡ some (place_of c 0 cs)
unfolding utfrune
utfrune-encode c cs rest high h =
    let wide : ltb c tx ≡ false = ground arith in
    rw wide (
      utfrune_from-encode (length (encode cs rest) + 1) c 0 cs rest h
        (omega (arith, encode-length cs rest)))
