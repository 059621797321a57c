-- ===== src/Atol.antt =====
-- kernel/Libc/port/atol.c: a signed number in decimal, octal or hexadecimal digits.
-- A string is the list of its bytes, and the bytes after the list read as the 0 that ends it. A `long`
-- is a word of 32 bits; sums and products that do not fit wrap.
pub mod Value
pub mod Tests
use plan9_ocaml.Prelude.{
  [], zero, suc, ℕ, List, Bool, drop, leb, ◌==◌, ◌+◌, ◌-◌, ◌*◌, ◌%◌, ◌∷◌, ◌&&◌, ◌||◌, if◌then◌else◌,
  not, u32_mod, sub32,
}
use plan9_ocaml.Strtoul.{byte, is_x}

abbrev pub is_blank : ℕ → Bool
is_blank c = (c == 32) || (c == 9)

unfoldable pub skip_blanks : List ℕ → List ℕ
skip_blanks [] = []
skip_blanks (c ∷ s) = let rest = skip_blanks s in if is_blank c then rest else c ∷ s

-- The digits of the loop for the base 16, 8 or 10, and their values.
abbrev pub is_digit : (base c : ℕ) → Bool
is_digit base c =
    if base == 16
    then (leb 48 c && leb c 57) || ((leb 97 c && leb c 102) || (leb 65 c && leb c 70))
    else if base == 8
    then leb 48 c && leb c 55
    else leb 48 c && leb c 57

abbrev pub digit_value : ℕ → ℕ
digit_value c = if leb c 57 then c - 48 else if leb 97 c then c - 97 + 10 else c - 65 + 10

unfoldable pub read_digits : (base n : ℕ) → List ℕ → ℕ
read_digits base n [] = n
read_digits base n (c ∷ s) =
    let rest = read_digits base ((n * base + digit_value c) % u32_mod) s in
    if is_digit base c then rest else n

-- From the digits on.
unfoldable pub read_number : List ℕ → ℕ
read_number s =
    if (byte s 0 == 48) && not (byte s 1 == 0)
    then if is_x (byte s 1) then read_digits 16 0 (drop 2 s) else read_digits 8 0 s
    else read_digits 10 0 s

unfoldable pub atol : List ℕ → ℕ
atol s =
    let t = skip_blanks s in
    if byte t 0 == 45
    then sub32 0 (read_number (skip_blanks (drop 1 t)))
    else if byte t 0 == 43
    then read_number (skip_blanks (drop 1 t))
    else read_number t
