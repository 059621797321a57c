-- ===== src/Ifmt/Length.antt =====
-- The text fits the buffer, and the count beside it is right.
use mathlib.Core.Option as Option
use plan9_ocaml.Prelude.{
  ℕ, [], none, some, zero, suc, Bool, true, false, Option, ◌≡◌, ◌≤◌, length, arith, ◌+◌, Bool-cases,
  if◌then◌else◌, ◌-◌, ◌==◌, ltb, ◌/◌, ◌%◌, ◌&&◌, inl, inr, refl, ◌||◌, not, ◌^◌,
}
use plan9_ocaml.Ifmt.{
  handed_on, Flags, Fmt, Argument, Text, put_digits, fill, is_sharp, digits_of, put_rest, fmt_with,
  ifmt, base_of_verb, push, at_least_one, commas, ltb, conv, counted_sharp, filled, put_sharp,
  put_sign, counted_sign, not, magnitude_of, is_neg_arg, read_arg,
}

-- A text of `j` digits, with a comma before every third one if asked for.
HasDigits : (comma : Bool) → (j : ℕ) → Text → Type 0
HasDigits comma j t = (t.n ≡ length t.chars) × (t.n ≡ j + (if comma then (j - 1) / 3 else 0))

-- A text whose count is its length, of at most `k` characters.
unfoldable pub IsCounted : (k : ℕ) → Text → Type 0
IsCounted k t = (t.n ≡ length t.chars) × (t.n ≤ k)

HasDigits-push :
    (comma : Bool) (j c : ℕ) (t : Text)
    → HasDigits comma j t
    → HasDigits comma (j + 1) (push c (commas comma t))
unfolding HasDigits
HasDigits-push true j c t (e, f) = elim (Bool-cases (t.n % 4 == 3)) [
  | inl h ↦ rw h (omega (arith, e), ground arith)
  | inr h ↦ rw h (omega (arith, e), ground arith)
]
HasDigits-push false j c t (e, f) = (omega (arith, e), omega (arith, f))

put_digits-IsCounted :
    (k r base : ℕ) (comma : Bool) (u j : ℕ) (t : Text)
    → j + k ≤ 64
    → HasDigits comma j t
    → IsCounted 85 (put_digits k r base comma u t)
unfolding put_digits IsCounted HasDigits
put_digits-IsCounted zero r base comma u j t le (e, f) = (e, ground arith)
put_digits-IsCounted (suc k) r base comma u j t le h = elim (Bool-cases (u == 0)) [
  | inl z ↦ rw z (h.0, ground (arith, h.1))
  | inr z ↦ rw z (
      put_digits-IsCounted k r base comma (u / base) (j + 1)
        (push (conv r (u % base)) (commas comma t)) (omega arith)
        (HasDigits-push comma j (conv r (u % base)) t h))
]

-- Filling up with zeros, for a count that is ahead of the length by `d`.
fill-length :
    (k w d : ℕ) (t : Text)
    → t.n ≡ length t.chars + d
    → length t.chars ≤ 85
    → ((fill k w t).n ≡ length (fill k w t).chars + d) × (length (fill k w t).chars ≤ 85)
unfolding fill
fill-length zero w d t e le = (e, le)
fill-length (suc k) w d t e le = elim (Bool-cases (ltb t.n w && ltb (length t.chars) 85)) [
  | inl h ↦ rw h (fill-length k w d (push 48 t) (omega arith) (ground arith))
  | inr h ↦ rw h (e, le)
]

digits_of-IsCounted : (f : Fmt) (base u : ℕ) → IsCounted 85 (digits_of f base u)
unfolding digits_of IsCounted HasDigits
digits_of-IsCounted f base u =
    let t = put_digits 64 f.r base f.flags.comma u (record { chars = []; n = 0 }) in
    let start =
      put_digits-IsCounted 64 f.r base f.flags.comma u 0 (record { chars = []; n = 0 })
        (omega arith) (refl, ground arith) in
    let (e, le) =
      fill-length 89 f.prec 0 (at_least_one t) (ground (arith, start)) (ground (arith, start)) in
    (omega (arith, e), omega (arith, e, le))

pub fill_grows : (k w : ℕ) (t : Text) → length t.chars ≤ length (fill k w t).chars
unfolding fill
fill_grows zero w t = omega arith
fill_grows (suc k) w t = elim (Bool-cases (ltb t.n w && ltb (length t.chars) 85)) [
  | inl h ↦ let more = fill_grows k w (push 48 t) in rw h (omega (arith, more))
  | inr h ↦ rw h (omega arith)
]

-- There is always a digit.
pub digits_of-length : (f : Fmt) (base u : ℕ) → 1 ≤ length (digits_of f base u).chars
unfolding digits_of HasDigits IsCounted
digits_of-length f base u =
    let t = put_digits 64 f.r base f.flags.comma u (record { chars = []; n = 0 }) in
    let start =
      put_digits-IsCounted 64 f.r base f.flags.comma u 0 (record { chars = []; n = 0 })
        (omega arith) (refl, ground arith) in
    let one : 1 ≤ length (at_least_one t).chars = ground (arith, start) in
    let more = fill_grows 89 f.prec (at_least_one t) in omega (arith, one, more)

-- How many characters stand for the sign, and for "0x" or "0".
abbrev sign_count : (neg : Bool) → Flags → ℕ
sign_count neg fl = if neg || (fl.sign || fl.space) then 1 else 0

abbrev sharp_count : (base : ℕ) → (sharp : Bool) → ℕ
sharp_count base sharp = if sharp then (if base == 16 then 2 else if base == 8 then 1 else 0) else 0

pub counted_eq :
    (base : ℕ) (neg sharp : Bool) (fl : Flags) (t : Text)
    → let u = counted_sharp base sharp (counted_sign neg fl t) in
      (u.n ≡ t.n + (sign_count neg fl + sharp_count base sharp)) × (u.chars ≡ t.chars)
counted_eq base neg sharp fl t = ground arith

filled-length :
    (f : Fmt) (d : ℕ) (t : Text)
    → t.n ≡ length t.chars + d
    → length t.chars ≤ 85
    → ((filled f t).n ≡ length (filled f t).chars + d) × (length (filled f t).chars ≤ 85)
filled-length f d t e le =
    elim (Bool-cases (f.flags.zero_fill && not (f.flags.left || f.flags.prec))) [
      | inl h ↦ rw h (fill-length 89 f.width d t e le)
      | inr h ↦ rw h (e, le)
    ]

put_sharp-length :
    (r base : ℕ) (sharp : Bool) (t : Text)
    → let u = put_sharp r base sharp t in
      (u.n ≡ t.n) × (length u.chars ≡ length t.chars + sharp_count base sharp)
put_sharp-length r base sharp t = ground arith

put_sign-length :
    (neg : Bool) (fl : Flags) (t : Text)
    → let u = put_sign neg fl t in
      (u.n ≡ t.n) × (length u.chars ≡ length t.chars + sign_count neg fl)
put_sign-length neg fl t = ground arith

put_rest-IsCounted :
    (f : Fmt) (base : ℕ) (neg : Bool) (t : Text)
    → IsCounted 85 t
    → IsCounted 88 (put_rest f base neg t)
unfolding put_rest IsCounted
put_rest-IsCounted f base neg t (e, le) =
    let sharp = is_sharp base f.flags t in
    let d = sign_count neg f.flags + sharp_count base sharp in
    let u = counted_sharp base sharp (counted_sign neg f.flags t) in
    let (count, same) = counted_eq base neg sharp f.flags t in
    let shorter : length u.chars ≤ 85 = rw same (omega (arith, e)) in
    let exact : u.n ≡ length u.chars + d = rw same (omega (arith, e, count)) in
    let (full, room) = filled-length f d u exact shorter in
    let v = filled f u in
    let (n1, l1) = put_sharp-length f.r base sharp v in
    let (n2, l2) = put_sign-length neg f.flags (put_sharp f.r base sharp v) in
    let few = few_counts base neg sharp f.flags in
    (omega (arith, full, n1, l1, n2, l2), omega (arith, full, room, n1, l1, n2, l2, few))
  where
    few_counts : (b : ℕ) (m s : Bool) (fl : Flags) → sign_count m fl + sharp_count b s ≤ 3
    few_counts b m s fl = ground arith

fmt_with-IsCounted :
    (f : Fmt) (neg : Bool) (a : Argument) (base : ℕ) → IsCounted 88 (fmt_with f neg a base)
unfolding fmt_with
fmt_with-IsCounted f neg a base =
    put_rest-IsCounted f base neg (digits_of f base (magnitude_of neg a))
      (digits_of-IsCounted f base (magnitude_of neg a))

-- What `_ifmt` has to give: nothing for a verb that is not for integers; else a text with the right
-- count that fits the buffer.
pub Fits : Fmt → Option (Fmt × Text) → Type 0
Fits f none = (base_of_verb f.r ≡ none) × ((f.r == 112) ≡ false)
Fits f (some (g, t)) = IsCounted 88 t

-- For every verb, flags, width, precision and argument: the count that `_ifmt` hands on is the number of
-- characters before the end of the buffer, and these are at most 88 of its 89, so that it writes nowhere
-- in front of the buffer. Only a verb other than d, x, X, b, o and p has no text.
pub ifmt-Fits : (f : Fmt) (arg : ℕ) → Fits f (ifmt f arg)
unfolding ifmt Fits
ifmt-Fits f arg = elim (Bool-cases (f.r == 112)) [
  | inl h ↦ rw h (
      fmt_with-IsCounted (record f { r = 120; flags = record f.flags { unsigned = true } }) false
        (record { isv = false; bits = arg % 2 ^ 32 }) 16)
  | inr h ↦ rw h (of_verb h (base_of_verb f.r) refl)
]
  where
    a : Argument
    a = read_arg f.flags arg

    neg : Bool
    neg = is_neg_arg f.flags a

    of_verb :
        ((f.r == 112) ≡ false)
        → (o : Option ℕ) → base_of_verb f.r ≡ o
        → Fits f (Option.map {B = Fmt × Text} (λ base. (handed_on f f.r, fmt_with f neg a base)) o)
    of_verb h none e = (e, h)
    of_verb h (some base) e = fmt_with-IsCounted f neg a base
