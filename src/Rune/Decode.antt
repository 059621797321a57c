-- ===== src/Rune/Decode.antt =====
-- What chartorune reads was written by runetochar, but for the bad sequences.
use plan9_ocaml.Prelude.{
  [], zero, suc, List, ℕ, ◌++◌, ◌<◌, ◌∷◌, ◌≤◌, ◌≡◌, ◌⊎◌, arith, Bool-cases, ltb, inl, inr, ltb→lt,
}
use plan9_ocaml.Rune.{chartorune, runetochar, decode, accepts, encoded, tail_bytes, runeerror, byte}

-- The first `n` bytes of a string.
unfoldable pub bytes : List ℕ → ℕ → List ℕ
bytes s zero = []
bytes s (suc n) = bytes s n ++ byte s n ∷ []

-- A bad sequence, or one that `runetochar` writes for the rune.
pub IsRead : List ℕ → ℕ × ℕ → Type 0
IsRead s (r, n) = ((r ≡ runeerror) × (n ≡ 1)) ⊎ (runetochar r ≡ bytes s n)

unfoldable pub IsBytes : List ℕ → Type 0
IsBytes s = (i : ℕ) → byte s i < 256

IsRead-one : (s : List ℕ) → byte s 0 < 128 → IsRead s (chartorune s)
unfolding chartorune IsRead bytes runetochar
IsRead-one s h = ground arith

IsRead-two : (s : List ℕ) → IsBytes s → 128 ≤ byte s 0 → byte s 0 < 0xE0 → IsRead s (chartorune s)
unfolding chartorune IsRead IsBytes bytes runetochar decode accepts encoded tail_bytes
IsRead-two s h k l = ground (arith, h 0, h 1)

IsRead-three :
    (s : List ℕ) → IsBytes s → 0xE0 ≤ byte s 0 → byte s 0 < 0xF0 → IsRead s (chartorune s)
unfolding chartorune IsRead IsBytes bytes runetochar decode accepts encoded tail_bytes
IsRead-three s h k l = ground (arith, h 0, h 1, h 2)

IsRead-four : (s : List ℕ) → IsBytes s → 0xF0 ≤ byte s 0 → IsRead s (chartorune s)
unfolding chartorune IsRead IsBytes bytes runetochar decode accepts encoded tail_bytes
IsRead-four s h k = ground (arith, h 0, h 1, h 2, h 3)

-- For every string of bytes: what `chartorune` gives is Runeerror over one byte, or it is a rune with
-- the bytes that it was read from being those that `runetochar` writes for it. So no encoding that is
-- longer than needed, no surrogate and no number above Runemax is read.
pub chartorune-IsRead : (s : List ℕ) → IsBytes s → IsRead s (chartorune s)
chartorune-IsRead s h = elim (Bool-cases (ltb (byte s 0) 128)) [
  | inl a ↦ IsRead-one s (ltb→lt (byte s 0) 128 a)
  | inr a ↦ elim (Bool-cases (ltb (byte s 0) 0xE0)) [
    | inl b ↦ IsRead-two s h (ground arith) (ground arith)
    | inr b ↦ elim (Bool-cases (ltb (byte s 0) 0xF0)) [
      | inl d ↦ IsRead-three s h (ground arith) (ground arith)
      | inr d ↦ IsRead-four s h (ground arith)
    ]
  ]
]
