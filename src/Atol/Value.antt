-- ===== src/Atol/Value.antt =====
-- What `atol` reads.
use plan9_ocaml.Prelude.{
  [], ℕ, List, true, false, ◌==◌, ◌+◌, ◌*◌, ◌%◌, ◌∷◌, ◌++◌, u32_mod, sub32, ◌≡◌, ◌<◌, ◌≢◌, arith,
  refl, ap, ◌∙◌, ◌^◌,
}
use plan9_ocaml.Strtoul.{byte, is_x, value_of}
use plan9_ocaml.Strtoul.Exact.{AreDigits, number}
use plan9_ocaml.Atol.{is_blank, skip_blanks, is_digit, digit_value, read_digits, read_number, atol}

-- The three notations, their bases, and what stands in front of the digits.
pub data Notation : Type 0 where
  decimal : Notation
  octal : Notation
  hexadecimal : Notation

abbrev pub radix : Notation → ℕ
radix decimal = 10
radix octal = 8
radix hexadecimal = 16

abbrev pub front : Notation → List ℕ
front decimal = []
front octal = 48 ∷ []
front hexadecimal = 48 ∷ 120 ∷ []

-- A decimal number does not start with 0.
unfoldable pub IsPlain : Notation → List ℕ → Type 0
IsPlain decimal s = byte s 0 ≢ 48
IsPlain octal s = Unit
IsPlain hexadecimal s = Unit

-- A digit of `strtoul` is one in the loop for the base, with the same value.
same_digit :
    (t : Notation) (c : ℕ)
    → value_of (radix t) c < radix t
    → (is_digit (radix t) c ≡ true) × (digit_value c ≡ value_of (radix t) c)
unfolding value_of
same_digit decimal c h = ground arith
same_digit octal c h = ground arith
same_digit hexadecimal c h = ground arith

-- The loop stops at `rest`.
unfoldable pub Stops : (base : ℕ) → (rest : List ℕ) → Type 0
Stops base rest = is_digit base (byte rest 0) ≡ false

wrapped :
    (t : Notation) (n v m : ℕ)
    → n ≡ m % 2 ^ 32
    → (n * radix t + v) % 2 ^ 32 ≡ (m * radix t + v) % 2 ^ 32
wrapped decimal n v m e = omega (arith, e)
wrapped octal n v m e = omega (arith, e)
wrapped hexadecimal n v m e = omega (arith, e)

read_digits-number :
    (t : Notation) (n m : ℕ) (s rest : List ℕ)
    → AreDigits (radix t) s
    → Stops (radix t) rest
    → n ≡ m % 2 ^ 32
    → read_digits (radix t) n (s ++ rest) ≡ number (radix t) m s % 2 ^ 32
unfolding read_digits AreDigits number Stops
read_digits-number t n m [] [] h stop e = e
read_digits-number t n m [] (r ∷ rest) h stop e = rw stop e
read_digits-number t n m (c ∷ s) rest (v, h) stop e =
    let (digit, same) = same_digit t c v in
    let w = value_of (radix t) c in
    rw (digit, same)
      (read_digits-number t ((n * radix t + w) % u32_mod) (m * radix t + w) s rest h stop
        (wrapped t n w m e))

zero_digit : (s : List ℕ) → number 8 0 (48 ∷ s) ≡ number 8 0 s
unfolding number value_of
zero_digit s = refl

read_number-front :
    (t : Notation) (c : ℕ) (s rest : List ℕ)
    → AreDigits (radix t) (c ∷ s)
    → Stops (radix t) rest
    → IsPlain t (c ∷ s)
    → read_number (front t ++ c ∷ s ++ rest) ≡ number (radix t) 0 (c ∷ s) % 2 ^ 32
unfolding read_number IsPlain AreDigits value_of
read_number-front decimal c s rest h stop plain =
    let away : (c == 48) ≡ false = ground arith in
    rw away (read_digits-number decimal 0 0 (c ∷ s) rest h stop (omega arith))
read_number-front octal c s rest h stop plain =
    let digit : (c == 0) ≡ false = ground (arith, h.0) in
    let other : is_x c ≡ false = ground (arith, h.0) in
    rw (digit, other)
      (read_digits-number octal 0 0 (48 ∷ c ∷ s) rest (omega arith, h) stop (omega arith)
        ∙ ap (λ (x : ℕ). x % 2 ^ 32) (zero_digit (c ∷ s)))
read_number-front hexadecimal c s rest h stop plain =
    read_digits-number hexadecimal 0 0 (c ∷ s) rest h stop (omega arith)

-- A byte that is neither a blank nor a sign.
front_byte :
    (t : Notation) (c : ℕ) (s rest : List ℕ)
    → AreDigits (radix t) (c ∷ s)
    → let w = front t ++ c ∷ s ++ rest in
      (skip_blanks w ≡ w) × ((byte w 0 == 45) ≡ false) × ((byte w 0 == 43) ≡ false)
unfolding skip_blanks AreDigits value_of
front_byte decimal c s rest (h, g) =
    let digit : is_blank c ≡ false = ground (arith, h) in
    (rw digit refl, ground (arith, h), ground (arith, h))
front_byte octal c s rest h = (refl, refl, refl)
front_byte hexadecimal c s rest h = (refl, refl, refl)

-- For digits, at least one, in decimal and not from 0 on, in octal behind "0" or in hexadecimal behind
-- "0x", with no digit behind them: `atol` returns their number modulo 2 ^ 32, and its negative behind a
-- minus sign.
pub atol-number :
    (t : Notation) (c : ℕ) (s rest : List ℕ)
    → AreDigits (radix t) (c ∷ s)
    → Stops (radix t) rest
    → IsPlain t (c ∷ s)
    → let w = front t ++ c ∷ s ++ rest in
      let n = number (radix t) 0 (c ∷ s) % 2 ^ 32 in
      (atol w ≡ n) × (atol (43 ∷ w) ≡ n) × (atol (45 ∷ w) ≡ sub32 0 n)
unfolding atol skip_blanks
atol-number t c s rest h stop plain =
    let (same, minus, plus) = front_byte t c s rest h in
    let read = read_number-front t c s rest h stop plain in
    (rw (same, minus, plus) read, rw (same, read) refl, rw (same, read) refl)
