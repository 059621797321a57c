-- ===== src/Atol/Tests.antt =====
-- Numbers that `atol` reads, and the theorem applied to one.
use plan9_ocaml.Prelude.{[], ◌∷◌, ◌++◌, ◌≡◌, ◌%◌, ◌^◌, refl, arith, sub32}
use plan9_ocaml.Strtoul.Exact.{AreDigits, number}
use plan9_ocaml.Strtoul.{value_of}
use plan9_ocaml.Atol.{atol, read_number, read_digits, skip_blanks}
use plan9_ocaml.Atol.Value.{hexadecimal, radix, front, Stops, IsPlain, atol-number}

-- " - 42"
minus_42 : atol (32 ∷ 45 ∷ 32 ∷ 52 ∷ 50 ∷ []) ≡ 4_294_967_254
unfolding atol read_number read_digits skip_blanks
minus_42 = refl

-- "010;"
octal_8 : atol (48 ∷ 49 ∷ 48 ∷ 59 ∷ []) ≡ 8
unfolding atol read_number read_digits skip_blanks
octal_8 = refl

-- Nine ones are too many for 32 bits: only the last eight count.
hex_ones : atol (48 ∷ 120 ∷ 49 ∷ 49 ∷ 49 ∷ 49 ∷ 49 ∷ 49 ∷ 49 ∷ 49 ∷ 49 ∷ []) ≡ 0x11111111
unfolding atol read_number read_digits skip_blanks
hex_ones = refl

ff-AreDigits : AreDigits (radix hexadecimal) (102 ∷ 70 ∷ [])
unfolding AreDigits value_of
ff-AreDigits = (omega arith, (omega arith, tt))

semicolon-Stops : Stops (radix hexadecimal) (59 ∷ [])
unfolding Stops
semicolon-Stops = refl

ff-IsPlain : IsPlain hexadecimal (102 ∷ 70 ∷ [])
unfolding IsPlain
ff-IsPlain = tt

atol-number_example :
    let w = front hexadecimal ++ 102 ∷ 70 ∷ 59 ∷ [] in
    let n = number (radix hexadecimal) 0 (102 ∷ 70 ∷ []) % 2 ^ 32 in
    (atol w ≡ n) × (atol (43 ∷ w) ≡ n) × (atol (45 ∷ w) ≡ sub32 0 n)
atol-number_example =
    atol-number hexadecimal 102 (70 ∷ []) (59 ∷ []) ff-AreDigits semicolon-Stops ff-IsPlain
