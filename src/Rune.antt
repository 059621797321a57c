-- ===== src/Rune.antt =====
-- kernel/Libc/port/rune.c: runes and their UTF-8 encoding.
-- A string is the list of its bytes, numbers below 256, and the bytes after the list read as the 0
-- that ends it. A `Rune` is a 32-bit number. Each `|` of the source joins bits that do not meet and is
-- a sum here, each `&` with a mask of low bits is a remainder, and each shift a power of two.
pub mod Encode
pub mod Decode
pub mod Utf
pub mod Tests
use plan9_ocaml.Prelude.{
  [], none, some, zero, suc, ℕ, List, Option, Bool, get_or, length, ◌-◌, ◌^◌, ◌+◌, if◌then◌else◌,
  ◌∷◌, leb, ltb, ◌*◌, ◌==◌, ◌%◌, ◌/◌, not, false, ◌&&◌, ◌||◌, true,
}

abbrev pub runeerror : ℕ
runeerror = 0xFFFD

abbrev pub runemax : ℕ
runemax = 0x10FFFF

abbrev pub utfmax : ℕ
utfmax = 4

-- `T(i)`: i ones, then zeros.
abbrev pub t_mark : ℕ → ℕ
t_mark i = 256 - 2 ^ (8 - i)

-- `RuneX(i)`: the greatest rune of i bytes.
abbrev pub rune_x : ℕ → ℕ
rune_x i = 2 ^ (5 * i + 1) - 1

abbrev pub rune1 : ℕ
rune1 = 127

abbrev pub tx : ℕ
tx = 128

abbrev pub is_surrogate : ℕ → Bool
is_surrogate c = leb 0xD800 c && leb c 0xDFFF

-- The byte number `i` of the string.
abbrev pub byte : List ℕ → ℕ → ℕ
byte s i = get_or s i 0

-- The tests on a rune `l` that stands in i + 1 bytes, when the first is `c`.
accepts : (i c l : ℕ) → Bool
accepts i c l =
    (if i == 1
      then not (ltb c (t_mark 2) || leb l rune1)
      else not (leb l (rune_x i) || ltb runemax l))
    && not ((i == 2) && is_surrogate l)

-- The loop, at the byte `i`; `none` is the jump to `bad`, also at the end of the loop. `fuel` is the
-- number of rounds left.
decode : (fuel i c l : ℕ) → List ℕ → Option (ℕ × ℕ)
unfolding accepts
decode zero i c l s = none
decode (suc fuel) i c l s =
    let b = (byte s i + tx) % 256 in
    if leb 64 b
    then none
    else if ltb c (t_mark (i + 2))
    then if accepts i c ((l * 64 + b) % 2 ^ (5 * (i + 1) + 1))
      then some ((l * 64 + b) % 2 ^ (5 * (i + 1) + 1), i + 1)
      else none
    else decode fuel (i + 1) c (l * 64 + b) s

abbrev pub or_bad : Option (ℕ × ℕ) → ℕ × ℕ
or_bad none = (runeerror, 1)
or_bad (some r) = r

-- The rune and the number of bytes it takes.
pub chartorune : List ℕ → ℕ × ℕ
unfolding decode
chartorune s =
    if ltb (byte s 0) tx then (byte s 0, 1) else or_bad (decode 3 1 (byte s 0) (byte s 0) s)

-- The rune as the loop of `runetochar` has it from the third round on.
valid : ℕ → ℕ
valid c = if ltb runemax c || is_surrogate c then runeerror else c

-- The bytes of a rune of `i` bytes, after the first.
tail_bytes : (i c : ℕ) → List ℕ
tail_bytes zero c = []
tail_bytes (suc i) c = (tx + c / 2 ^ (6 * i) % 64) ∷ tail_bytes i c

encoded : (i c : ℕ) → List ℕ
unfolding tail_bytes
encoded i c = (t_mark i + c / 2 ^ (6 * (i - 1))) ∷ tail_bytes (i - 1) c

-- The bytes written.
pub runetochar : ℕ → List ℕ
unfolding encoded valid
runetochar c =
    if leb c rune1
    then c ∷ []
    else if leb c (rune_x 2)
    then encoded 2 c
    else if leb (valid c) (rune_x 3)
    then encoded 3 (valid c)
    else encoded 4 (valid c)

pub runelen : ℕ → ℕ
unfolding runetochar
runelen c = length (runetochar c)

pub runenlen : List ℕ → ℕ
runenlen [] = 0
runenlen (c ∷ cs) =
    (if leb c rune1 then 1 else if leb c (rune_x 2) then 2 else if leb c (rune_x 3) then 3 else 4)
    + runenlen cs

-- Whether the first `n` bytes hold a whole rune; `n` is not negative.
pub fullrune : List ℕ → (n : ℕ) → Bool
fullrune s n =
    if n == 0
    then false
    else if ltb (byte s 0) tx
    then true
    else if ltb (byte s 0) (t_mark 3)
    then leb 2 n
    else if ltb (byte s 0) (t_mark 4)
    then leb 3 n
    else leb utfmax n
