-- ===== src/Rune/Utf.antt =====
-- kernel/Libc/port/{utflen,utfrune}.c: the runes of a string.
-- A string is the list of its bytes, as for `chartorune`. A place in it is the number of bytes before.
-- Every round reads a byte at least, so that one round more than there are bytes is enough.
pub mod Runes
pub mod Tests
use plan9_ocaml.Prelude.{
  [], none, some, zero, suc, ℕ, List, Option, Bool, drop, length, ltb, ◌==◌, ◌+◌, if◌then◌else◌,
}
use plan9_ocaml.Rune.{chartorune, byte, tx}
use plan9_ocaml.Strings.{strchr}

-- The loop of `utflen`.
unfoldable pub utflen_from : (rounds : ℕ) → (s : List ℕ) → (n : ℕ) → Option ℕ
utflen_from zero s n = none
utflen_from (suc k) s n =
    let ascii = utflen_from k (drop 1 s) (n + 1) in
    let wide = utflen_from k (drop (chartorune s).1 s) (n + 1) in
    if ltb (byte s 0) tx then (if byte s 0 == 0 then some n else ascii) else wide

-- The number of runes.
unfoldable pub utflen : List ℕ → Option ℕ
utflen s = utflen_from (length s + 1) s 0

-- The loop of `utfrune`, `at` bytes into the string. The inner `none` is the null pointer.
unfoldable pub utfrune_from : (rounds : ℕ) → (s : List ℕ) → (c at : ℕ) → Option (Option ℕ)
utfrune_from zero s c at = none
utfrune_from (suc k) s c at =
    let ascii = utfrune_from k (drop 1 s) c (at + 1) in
    let wide = utfrune_from k (drop (chartorune s).1 s) c (at + (chartorune s).1) in
    if ltb (byte s 0) tx
    then (if byte s 0 == 0 then some none else if byte s 0 == c then some (some at) else ascii)
    else if (chartorune s).0 == c
    then some (some at)
    else wide

-- The place of the first `c`.
unfoldable pub utfrune : List ℕ → (c : ℕ) → Option (Option ℕ)
utfrune s c = if ltb c tx then strchr s c else utfrune_from (length s + 1) s c 0
