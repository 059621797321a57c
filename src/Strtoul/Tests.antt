-- ===== src/Strtoul/Tests.antt =====
-- Some numbers.
use plan9_ocaml.Prelude.{[], ◌∷◌, ◌≡◌, ◌^◌, refl, ◌-◌, List, arith, if◌then◌else◌, ℕ, ltb}
use plan9_ocaml.Prelude.{false}
use plan9_ocaml.Strtoul.{strtoul, ulong_max, value_of, digits, result}
use plan9_ocaml.Strtoul.Exact.{AreDigits, number, no_digits, digits-number}

-- " -0x1F"
hexadecimal : strtoul (32 ∷ 45 ∷ 48 ∷ 120 ∷ 49 ∷ 70 ∷ []) 0 ≡ (2 ^ 32 - 31, 6)
unfolding strtoul
hexadecimal = refl

-- "0x" is the digit 0 before an x.
no_digit : strtoul (48 ∷ 120 ∷ []) 0 ≡ (0, 1)
unfolding strtoul
no_digit = refl

-- "4294967296"
too_large : strtoul (52 ∷ 50 ∷ 57 ∷ 52 ∷ 57 ∷ 54 ∷ 55 ∷ 50 ∷ 57 ∷ 54 ∷ []) 10 ≡ (ulong_max, 10)
unfolding strtoul
too_large = refl

-- "907"
abbrev nine_oh_seven : List ℕ
nine_oh_seven = 57 ∷ 48 ∷ 55 ∷ []

nine_oh_seven-AreDigits : AreDigits 10 nine_oh_seven
unfolding AreDigits value_of
nine_oh_seven-AreDigits = (omega arith, (omega arith, (omega arith, tt)))

digits-number_example :
    result false (digits 10 nine_oh_seven no_digits)
    ≡ (if ltb ulong_max (number 10 0 nine_oh_seven) then ulong_max else number 10 0 nine_oh_seven)
digits-number_example =
    digits-number 10 nine_oh_seven (omega arith) (omega arith) nine_oh_seven-AreDigits
