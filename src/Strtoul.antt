-- ===== src/Strtoul.antt =====
-- kernel/Libc/port/strtoul.c: the number at the start of a string.
-- A string is the list of its bytes, and the bytes after the list read as the 0 that ends it. A pointer
-- into it is the number of bytes before. `ulong` is a 32-bit number, whose sums and products wrap;
-- the base is a number here, since the source refuses the negative ones with 1 and those above 36.
pub mod Exact
pub mod Tests
use plan9_ocaml.Prelude.{
  [], none, some, zero, suc, ℕ, List, Bool, get_or, leb, drop, ◌==◌, ◌∷◌, if◌then◌else◌, not, sub32,
  ltb, ◌||◌, ◌&&◌, ◌*◌, false, ◌-◌, ◌%◌, ◌+◌, u32_mod, ◌/◌,
}

abbrev pub ulong_max : ℕ
ulong_max = 4_294_967_295

abbrev pub byte : List ℕ → ℕ → ℕ
byte s i = get_or s i 0

-- ' ', '\t', '\n', '\v', '\f' or '\r'.
abbrev pub is_space : ℕ → Bool
is_space c = (c == 32) || (leb 9 c && leb c 13)

-- The number of blanks in front.
unfoldable pub skip_space : List ℕ → ℕ
skip_space [] = 0
skip_space (c ∷ s) = if is_space c then suc (skip_space s) else 0

abbrev pub is_x : ℕ → Bool
is_x c = (c == 120) || (c == 88)

abbrev pub is_hex : ℕ → Bool
is_hex c = (leb 48 c && leb c 57) || (leb 97 c && leb c 102) || (leb 65 c && leb c 70)

-- The base to use, when the digits start at `s`.
unfoldable pub base_of : (base : ℕ) → List ℕ → ℕ
base_of base s =
    if base == 0
    then if not (byte s 0 == 48) then 10 else if is_x (byte s 1) then 16 else 8
    else base

-- The bytes of a "0x" in front of hexadecimal digits.
unfoldable pub prefix : (base : ℕ) → List ℕ → ℕ
prefix base s =
    if (base == 16) && (byte s 0 == 48) && is_x (byte s 1) && is_hex (byte s 2) then 2 else 0

-- The value of a digit, and the base for what is none.
unfoldable pub value_of : (base c : ℕ) → ℕ
value_of base c =
    if leb 48 c && leb c 57
    then c - 48
    else if leb 97 c && leb c 122
    then c - 97 + 10
    else if leb 65 c && leb c 90
    then c - 65 + 10
    else base

pub record Digits : Type 0 where
  pub n : ℕ
  pub ndig : ℕ
  pub ovfl : Bool

-- The loop over the digits.
unfoldable pub digits : (base : ℕ) → List ℕ → Digits → Digits
unfolding value_of
digits base [] d = d
digits base (c ∷ s) d =
    let v = value_of base c in
    let nn = (d.n * base % u32_mod + v) % u32_mod in
    let more = digits base s (record {
      n = nn;
      ndig = d.ndig + 1;
      ovfl = ltb (ulong_max / base) d.n || (d.ovfl || ltb nn d.n);
    }) in
    if leb base v then d else more

-- The number, from the sign and the digits.
unfoldable pub result : (neg : Bool) → Digits → ℕ
result neg d = if d.ovfl then ulong_max else if neg then sub32 0 d.n else d.n

-- From the digits on, with the number of bytes before them.
unfoldable pub read_from : (base at : ℕ) → (neg : Bool) → List ℕ → ℕ × ℕ
unfolding base_of prefix digits result
read_from base at neg s =
    let b = base_of base s in
    if ltb b 2 || ltb 36 b
    then (0, 0)
    else let skip = prefix b s in
      let d = digits b (drop skip s) (record { n = 0; ndig = 0; ovfl = false }) in
      (result neg d, if d.ndig == 0 then 0 else at + skip + d.ndig)

-- The number and where it ends.
unfoldable pub strtoul : List ℕ → (base : ℕ) → ℕ × ℕ
unfolding skip_space read_from
strtoul nptr base =
    let k = skip_space nptr in
    let s = drop k nptr in
    if (byte s 0 == 45) || (byte s 0 == 43)
    then read_from base (k + 1) (byte s 0 == 45) (drop 1 s)
    else read_from base k false s
