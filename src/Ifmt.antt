-- ===== src/Ifmt.antt =====
-- kernel/Libc/fmt/dofmt.c, `_ifmt`: the text of an integer. The characters in `buf` are a list, from
-- `p + 1` on, and `n` is the count that the source keeps beside. A `ulong` has 32 bits, a `uvlong` 64,
-- and so has what `va_arg` gives; `width` and `prec` are not negative. What `_fmtcpy` does with the text
-- is not modelled.
pub mod Length
pub mod Digits
pub mod Roundtrip
pub mod Tests
use mathlib.Core.Option as Option
use plan9_ocaml.Prelude.{
  ℕ, [], none, some, zero, suc, Bool, List, true, false, Option, not, if◌then◌else◌, ◌∷◌, ◌/◌, ◌&&◌,
  ltb, leb, ◌%◌, ◌==◌, ◌+◌, ◌^◌, ◌||◌, length, ◌-◌,
}

-- The flags of a format, by their names without `Fmt`.
pub record Flags : Type 0 where
  pub left : Bool
  pub prec : Bool
  pub sharp : Bool
  pub space : Bool
  pub sign : Bool
  pub zero_fill : Bool
  pub unsigned : Bool
  pub short : Bool
  pub long : Bool
  pub vlong : Bool
  pub comma : Bool
  pub byte : Bool

pub record Fmt : Type 0 where
  pub r : ℕ
  pub flags : Flags
  pub width : ℕ
  pub prec : ℕ

-- An integer as it is read from the arguments: whether it has 64 bits, and its bits.
pub record Argument : Type 0 where
  pub isv : Bool
  pub bits : ℕ

-- The low `k` bits as a signed number, in 32 bits.
abbrev pub extended : (k x : ℕ) → ℕ
extended k x = if ltb (x % 2 ^ k) (2 ^ (k - 1)) then x % 2 ^ k else x % 2 ^ k + 2 ^ 32 - 2 ^ k

pub read_arg : Flags → (arg : ℕ) → Argument
read_arg fl arg =
    if fl.vlong
    then record { isv = true; bits = arg % 2 ^ 64 }
    else if fl.long
    then record { isv = false; bits = arg % 2 ^ 32 }
    else if fl.byte
    then record { isv = false; bits = if fl.unsigned then arg % 2 ^ 8 else extended 8 arg }
    else if fl.short
    then record { isv = false; bits = if fl.unsigned then arg % 2 ^ 16 else extended 16 arg }
    else record { isv = false; bits = arg % 2 ^ 32 }

-- The base of the verb, one of d, x, X, b and o.
pub base_of_verb : (r : ℕ) → Option ℕ
base_of_verb r =
    if r == 100
    then some 10
    else if (r == 120) || (r == 88)
    then some 16
    else if r == 98
    then some 2
    else if r == 111
    then some 8
    else none

-- conv[i]
pub conv : (r i : ℕ) → ℕ
conv r i = if ltb i 10 then 48 + i else if r == 88 then 55 + i else 87 + i

pub record Text : Type 0 where
  pub chars : List ℕ
  pub n : ℕ

-- `*p-- = c; n++`
abbrev pub push : (c : ℕ) → Text → Text
push c t = record { chars = c ∷ t.chars; n = t.n + 1 }

abbrev pub commas : (comma : Bool) → Text → Text
commas comma t = if comma && (t.n % 4 == 3) then push 44 t else t

-- The loop over the digits; a number of 64 bits has at most 64.
pub put_digits : (rounds : ℕ) → (r base : ℕ) → (comma : Bool) → (u : ℕ) → Text → Text
put_digits zero r base comma u t = t
put_digits (suc k) r base comma u t =
    let rest = put_digits k r base comma (u / base) (push (conv r (u % base)) (commas comma t)) in
    if u == 0 then t else rest

-- `for(; n < w && p > buf+3; n++)`: the buffer has 89 bytes, and p starts at its last one.
pub fill : (rounds w : ℕ) → Text → Text
fill zero w t = t
fill (suc k) w t =
    let rest = fill k w (push 48 t) in if ltb t.n w && ltb (length t.chars) 85 then rest else t

abbrev pub at_least_one : Text → Text
at_least_one t = if t.n == 0 then push 48 t else t

-- The signed number, without its sign.
pub is_neg_arg : Flags → Argument → Bool
is_neg_arg fl a = not fl.unsigned && leb (if a.isv then 2 ^ 63 else 2 ^ 31) a.bits

pub magnitude_of : (neg : Bool) → Argument → ℕ
magnitude_of neg a = if neg then (if a.isv then 2 ^ 64 else 2 ^ 32) - a.bits else a.bits

-- The count for the sign and for "0x" or "0", before they are there, and whether to put the latter.
abbrev pub counted_sign : (neg : Bool) → Flags → Text → Text
counted_sign neg fl t = if neg || (fl.sign || fl.space) then record t { n = t.n + 1 } else t

abbrev pub starts_with_0 : List ℕ → Bool
starts_with_0 [] = false
starts_with_0 (c ∷ cs) = c == 48

pub is_sharp : (base : ℕ) → Flags → Text → Bool
is_sharp base fl t = fl.sharp && not ((base == 8) && starts_with_0 t.chars)

abbrev pub counted_sharp : (base : ℕ) → (sharp : Bool) → Text → Text
counted_sharp base sharp t =
    if sharp
    then (if base == 16
        then record t { n = t.n + 2 }
        else if base == 8
        then record t { n = t.n + 1 }
        else t)
    else t

-- What is put before the digits. These are counted already.
abbrev pub put_sharp : (r base : ℕ) → (sharp : Bool) → Text → Text
put_sharp r base sharp t =
    if sharp
    then (if base == 16
        then record t { chars = 48 ∷ r ∷ t.chars }
        else if base == 8
        then record t { chars = 48 ∷ t.chars }
        else t)
    else t

abbrev pub put_sign : (neg : Bool) → Flags → Text → Text
put_sign neg fl t =
    if neg
    then record t { chars = 45 ∷ t.chars }
    else if fl.sign
    then record t { chars = 43 ∷ t.chars }
    else if fl.space
    then record t { chars = 32 ∷ t.chars }
    else t

abbrev pub filled : Fmt → Text → Text
filled f t =
    if f.flags.zero_fill && not (f.flags.left || f.flags.prec) then fill 89 f.width t else t

-- The digits, at least as many as the precision says.
pub digits_of : Fmt → (base u : ℕ) → Text
digits_of f base u =
    fill 89 f.prec
      (at_least_one (put_digits 64 f.r base f.flags.comma u (record { chars = []; n = 0 })))

pub put_rest : Fmt → (base : ℕ) → (neg : Bool) → Text → Text
put_rest f base neg t =
    let sharp = is_sharp base f.flags t in
    put_sign neg f.flags
      (put_sharp f.r base sharp (filled f (counted_sharp base sharp (counted_sign neg f.flags t))))

pub fmt_with : Fmt → (neg : Bool) → Argument → (base : ℕ) → Text
fmt_with f neg a base = put_rest f base neg (digits_of f base (magnitude_of neg a))

-- What is left in the format for `_fmtcpy`: zeros have filled the width, and the precision is done with.
pub handed_on : Fmt → (r : ℕ) → Fmt
handed_on f r = record {
  r = r;
  flags = record f.flags { prec = false };
  width = if f.flags.zero_fill && not (f.flags.left || f.flags.prec) then 0 else f.width;
  prec = f.prec;
}

-- The arguments for `_fmtcpy`; `none` for a verb that is not for integers. The verb p is x, for an
-- unsigned number of 32 bits.
pub ifmt : Fmt → (arg : ℕ) → Option (Fmt × Text)
ifmt f arg =
    if f.r == 112
    then some (
      handed_on f 120,
      fmt_with (record f { r = 120; flags = record f.flags { unsigned = true } }) false
          (record { isv = false; bits = arg % 2 ^ 32 }) 16,
    )
    else let a = read_arg f.flags arg in
      Option.map {B = Fmt × Text}
        (λ base. (handed_on f f.r, fmt_with f (is_neg_arg f.flags a) a base)) (base_of_verb f.r)
