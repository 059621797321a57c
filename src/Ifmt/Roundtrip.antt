-- ===== src/Ifmt/Roundtrip.antt =====
-- `strtoul` reads back the number that `_ifmt` has written.
use mathlib.Core.Path.{subst, ap}
use plan9_ocaml.Prelude.{
  not, ◌&&◌, sym, sub32, drop, ap₂, ◌∙◌, inl, inr, Bool-cases, if◌then◌else◌, ℕ, [], none, some,
  Bool, List, true, false, Option, ◌≡◌, ◌≤◌, length, ◌^◌, ◌<◌, ◌+◌, arith, ◌∷◌, leb, ◌==◌, refl,
  ltb, ◌||◌, if◌then◌else◌,
}
use plan9_ocaml.Strtoul.{
  skip_space, is_space, is_hex, value_of, digits, result, strtoul, Digits, is_x, read_from, byte,
  base_of, prefix,
}
use plan9_ocaml.Strtoul.Exact.{AreDigits, number, no_digits, digits-number_small}
use plan9_ocaml.Ifmt.{
  filled, counted_sharp, counted_sign, put_sharp, put_sign, Flags, Fmt, Argument, Text, digits_of,
  put_rest, fmt_with, ifmt, read_arg, is_neg_arg, base_of_verb, magnitude_of, is_sharp, leb, ltb,
}
use plan9_ocaml.Ifmt.Length.{fill_grows, counted_eq, digits_of-length}
use plan9_ocaml.Ifmt.Digits.{Writes, fill-Writes, digits_of-Writes, zero-Writes}

-- The loop over digits of the base reads all of them.
ndig-digits :
    (base : ℕ) (s : List ℕ) (d : Digits)
    → AreDigits base s
    → (digits base s d).ndig ≡ d.ndig + length s
unfolding digits AreDigits
ndig-digits base [] d h = omega arith
ndig-digits base (c ∷ s) d (v, h) =
    let digit : leb base (value_of base c) ≡ false = ground arith in
    rw digit (omega (arith, ndig-digits base s _ h))

no_prefix : (base : ℕ) (s : List ℕ) → base ≤ 16 → AreDigits base s → is_x (byte s 1) ≡ false
unfolding AreDigits value_of
no_prefix base [] le h = refl
no_prefix base (c ∷ []) le h = refl
no_prefix base (c ∷ e ∷ s) le (u, (v, h)) = ground arith

-- A byte that `strtoul` neither skips as a blank nor takes for a sign.
unfoldable Starts : List ℕ → Type 0
Starts s = (is_space (byte s 0) ≡ false) × ((byte s 0 == 45) ≡ false) × ((byte s 0 == 43) ≡ false)

digits-Starts : (base : ℕ) (s : List ℕ) → base ≤ 16 → AreDigits base s → Starts s
unfolding AreDigits value_of Starts
digits-Starts base [] high good = (refl, refl, refl)
digits-Starts base (c ∷ s) high (v, good) = (ground arith, ground arith, ground arith)

hex_first : (s : List ℕ) → 1 ≤ length s → AreDigits 16 s → is_hex (byte s 0) ≡ true
unfolding AreDigits value_of
hex_first [] long good = absurd (omega arith)
hex_first (c ∷ s) long (v, good) = ground arith

-- The number that `strtoul` gives.
abbrev signed : (neg : Bool) → ℕ → ℕ
signed neg u = if neg then sub32 0 u else u

fixed_base : (base : ℕ) (s : List ℕ) → 2 ≤ base → base_of base s ≡ base
unfolding base_of
fixed_base base s low = let fixed : (base == 0) ≡ false = ground arith in rw fixed refl

no_skip : (base : ℕ) (s : List ℕ) → base ≤ 16 → AreDigits base s → prefix base s ≡ 0
unfolding prefix
no_skip base s high good = let digit = no_prefix base s high good in ground (arith, digit)

end_of :
    (d : Digits) (at k : ℕ)
    → 1 ≤ k
    → d.ndig ≡ 0 + k
    → (if d.ndig == 0 then 0 else at + d.ndig) ≡ at + k
end_of d at k p e = ground (arith, e)

read_value :
    (base u : ℕ) (neg : Bool) (s : List ℕ)
    → 2 ≤ base
    → base ≤ 16
    → u < 2 ^ 32
    → Writes base u s
    → result neg (digits base s no_digits) ≡ signed neg u
unfolding Writes
read_value base u neg s low high small (good, sum) =
    let fits : number base 0 s < 2 ^ 32 = omega (arith, sum, small) in
    digits-number_small base neg s low (omega arith) good fits ∙ rw sum refl

-- From the digits on, behind `skip` bytes of a prefix.
read_behind :
    (base u at skip : ℕ) (neg : Bool) (w s : List ℕ)
    → 2 ≤ base
    → base ≤ 16
    → u < 2 ^ 32
    → Writes base u s
    → 1 ≤ length s
    → prefix base w ≡ skip
    → drop skip w ≡ s
    → read_from base at neg w ≡ (signed neg u, at + skip + length s)
unfolding read_from Writes
read_behind base u at skip neg w s low high small h long p e =
    let fine : (ltb base 2 || ltb 36 base) ≡ false = ground arith in
    rw (fixed_base base w low, fine, p, e)
      (ap₂ (λ (a b : ℕ). (a, b)) (read_value base u neg s low high small h)
        (end_of (digits base s no_digits) (at + skip) (length s) long
          (ndig-digits base s no_digits h.0)))

-- From the digits on, everything is read.
Reads : (base u : ℕ) → List ℕ → Type 0
Reads base u w =
    Starts w × ((at : ℕ) (neg : Bool) → read_from base at neg w ≡ (signed neg u, at + length w))

Reads-digits :
    (base u : ℕ) (s : List ℕ)
    → 2 ≤ base
    → base ≤ 16
    → u < 2 ^ 32
    → Writes base u s
    → 1 ≤ length s
    → Reads base u s
unfolding Reads Writes
Reads-digits base u s low high small h long = (
  digits-Starts base s high h.0,
  λ at neg.
      read_behind base u at 0 neg s s low high small h long (no_skip base s high h.0) refl
      ∙ ap (λ (k : ℕ). (signed neg u, k)) (omega arith),
)

hex_skip :
    (r : ℕ) (s : List ℕ) → is_x r ≡ true → is_hex (byte s 0) ≡ true → prefix 16 (48 ∷ r ∷ s) ≡ 2
unfolding prefix
hex_skip r s x h = rw (x, h) refl

Reads-hex :
    (r u : ℕ) (s : List ℕ)
    → is_x r ≡ true
    → u < 2 ^ 32
    → Writes 16 u s
    → 1 ≤ length s
    → Reads 16 u (48 ∷ r ∷ s)
unfolding Reads Starts Writes
Reads-hex r u s x small h long = (
  (refl, refl, refl),
  λ at neg.
      read_behind 16 u at 2 neg (48 ∷ r ∷ s) s (omega arith) (omega arith) small h long
        (hex_skip r s x (hex_first s long h.0)) refl
      ∙ ap (λ (k : ℕ). (signed neg u, k)) (omega arith),
)

Reads-put_sharp :
    (r base u : ℕ) (sharp : Bool) (t : Text)
    → 2 ≤ base
    → base ≤ 16
    → ((base == 16) ≡ true → is_x r ≡ true)
    → u < 2 ^ 32
    → Writes base u t.chars
    → 1 ≤ length t.chars
    → Reads base u (put_sharp r base sharp t).chars
Reads-put_sharp r base u false t low high x small h long =
    Reads-digits base u t.chars low high small h long
Reads-put_sharp r base u true t low high x small h long = elim (Bool-cases (base == 16)) [
  | inl e ↦
      let sixteen : base ≡ 16 = ground arith in
      rw e (
        subst (λ (b : ℕ). Reads b u (48 ∷ r ∷ t.chars)) (sym sixteen)
          (Reads-hex r u t.chars (x e) small (subst (λ (b : ℕ). Writes b u t.chars) sixteen h)
            long))
  | inr e ↦ elim (Bool-cases (base == 8)) [
    | inl o ↦
        rw (e, o)
          (Reads-digits base u (48 ∷ t.chars) low high small (zero-Writes base u t.chars low h)
            (omega arith))
    | inr o ↦ rw (e, o) (Reads-digits base u t.chars low high small h long)
  ]
]

no_blank : (s : List ℕ) → is_space (byte s 0) ≡ false → skip_space s ≡ 0
unfolding skip_space
no_blank [] h = refl
no_blank (c ∷ s) h = rw h refl

Reads-minus :
    (base u : ℕ) (w : List ℕ)
    → Reads base u w
    → strtoul (45 ∷ w) base ≡ (sub32 0 u, length (45 ∷ w))
unfolding Reads strtoul skip_space
Reads-minus base u w (h, r) = r 1 true ∙ ap (λ (k : ℕ). (sub32 0 u, k)) (omega arith)

Reads-plus :
    (base u : ℕ) (w : List ℕ) → Reads base u w → strtoul (43 ∷ w) base ≡ (u, length (43 ∷ w))
unfolding Reads strtoul skip_space
Reads-plus base u w (h, r) = r 1 false ∙ ap (λ (k : ℕ). (u, k)) (omega arith)

Reads-blank :
    (base u : ℕ) (w : List ℕ) → Reads base u w → strtoul (32 ∷ w) base ≡ (u, length (32 ∷ w))
unfolding Reads Starts strtoul skip_space
Reads-blank base u w ((b, m, p), r) =
    rw (no_blank w b, m, p) (r 1 false ∙ ap (λ (k : ℕ). (u, k)) (omega arith))

Reads-alone : (base u : ℕ) (w : List ℕ) → Reads base u w → strtoul w base ≡ (u, length w)
unfolding Reads Starts strtoul
Reads-alone base u w ((b, m, p), r) =
    rw (no_blank w b, m, p) (r 0 false ∙ ap (λ (k : ℕ). (u, k)) (omega arith))

Reads-put_sign :
    (base u : ℕ) (neg : Bool) (fl : Flags) (t : Text)
    → Reads base u t.chars
    → let s = (put_sign neg fl t).chars in strtoul s base ≡ (signed neg u, length s)
Reads-put_sign base u true fl t h = Reads-minus base u t.chars h
Reads-put_sign base u false fl t h = elim (Bool-cases fl.sign) [
  | inl e ↦ rw e (Reads-plus base u t.chars h)
  | inr e ↦ elim (Bool-cases fl.space) [
    | inl o ↦ rw (e, o) (Reads-blank base u t.chars h)
    | inr o ↦ rw (e, o) (Reads-alone base u t.chars h)
  ]
]

put_rest-Reads :
    (f : Fmt) (base u : ℕ) (neg : Bool) (t : Text)
    → 2 ≤ base
    → base ≤ 16
    → ((base == 16) ≡ true → is_x f.r ≡ true)
    → u < 2 ^ 32
    → Writes base u t.chars
    → 1 ≤ length t.chars
    → let s = (put_rest f base neg t).chars in strtoul s base ≡ (signed neg u, length s)
unfolding put_rest
put_rest-Reads f base u neg t low high x small h long =
    let sharp = is_sharp base f.flags t in
    let c = counted_sharp base sharp (counted_sign neg f.flags t) in
    let same : c.chars ≡ t.chars = (counted_eq base neg sharp f.flags t).1 in
    let (all, more) =
      filled-Writes f base u c low (subst (λ (s : List ℕ). Writes base u s) (sym same) h)
        (subst (λ (s : List ℕ). 1 ≤ length s) (sym same) long) in
    Reads-put_sign base u neg f.flags (put_sharp f.r base sharp (filled f c))
      (Reads-put_sharp f.r base u sharp (filled f c) low high x small all more)
  where
    filled-Writes :
        (f : Fmt) (b v : ℕ) (t : Text)
        → 2 ≤ b
        → Writes b v t.chars
        → 1 ≤ length t.chars
        → Writes b v (filled f t).chars × (1 ≤ length (filled f t).chars)
    filled-Writes f b v t l h long =
        elim (Bool-cases (f.flags.zero_fill && not (f.flags.left || f.flags.prec))) [
          | inl e ↦
              let more = fill_grows 89 f.width t in
              rw e (fill-Writes 89 f.width b v t l h, omega (arith, more, long))
          | inr e ↦ rw e (h, long)
        ]

-- An argument of 32 bits.
IsWord : Argument → Type 0
IsWord a = (a.isv ≡ false) × (a.bits < 2 ^ 32)

read_arg-IsWord : (fl : Flags) (arg : ℕ) → fl.vlong ≡ false → IsWord (read_arg fl arg)
unfolding IsWord read_arg
read_arg-IsWord fl arg h = rw h (ground arith)

magnitude-signed :
    (neg : Bool) (a : Argument)
    → IsWord a
    → (neg ≡ true → 1 ≤ a.bits)
    → (magnitude_of neg a < 2 ^ 32) × (signed neg (magnitude_of neg a) ≡ a.bits)
unfolding IsWord magnitude_of
magnitude-signed neg a (w, h) k = rw w (ground (arith, k))

base_of_verb_bounds :
    (r b : ℕ)
    → base_of_verb r ≡ some b
    → (2 ≤ b) × (b ≤ 16) × ((b == 16) ≡ true → is_x r ≡ true) × ((r == 112) ≡ false)
unfolding base_of_verb
base_of_verb_bounds r b h = ground arith

-- What reading a text back in the base `b` gives for the argument `a`.
pub ReadsBack : Argument → (b : ℕ) → Option (Fmt × Text) → Type 0
ReadsBack a b none = ⊥
ReadsBack a b (some (g, t)) = strtoul t.chars b ≡ (a.bits, length t.chars)

fmt_with-ReadsBack :
    (f : Fmt) (a : Argument) (b : ℕ)
    → f.flags.comma ≡ false
    → IsWord a
    → base_of_verb f.r ≡ some b
    → strtoul (fmt_with f (is_neg_arg f.flags a) a b).chars b
      ≡ (a.bits, length (fmt_with f (is_neg_arg f.flags a) a b).chars)
unfolding fmt_with is_neg_arg
fmt_with-ReadsBack f a b plain w e =
    let (low, high, x, _) = base_of_verb_bounds f.r b e in
    let neg = is_neg_arg f.flags a in
    let (small, same) = magnitude-signed neg a w (negative f.flags a) in
    let u = magnitude_of neg a in
    put_rest-Reads f b u neg (digits_of f b u) low high x small
      (digits_of-Writes f b u plain low high (omega (arith, small))) (digits_of-length f b u)
    ∙ ap (λ (k : ℕ). (k, length (put_rest f b neg (digits_of f b u)).chars)) same
  where
    negative : (fl : Flags) (a : Argument) → is_neg_arg fl a ≡ true → 1 ≤ a.bits
    negative fl a h = ground arith

-- For an integer of at most 32 bits, any of the verbs d, x, X, b and o, and any flags but the comma, with
-- any width and precision: `_ifmt` gives a text, and `strtoul` in the base of the verb reads all of it
-- and returns the bits of the number, also behind a sign, a blank, "0x", or zeros that fill the width.
pub ifmt-ReadsBack :
    (f : Fmt) (arg b : ℕ)
    → f.flags.comma ≡ false
    → f.flags.vlong ≡ false
    → base_of_verb f.r ≡ some b
    → ReadsBack (read_arg f.flags arg) b (ifmt f arg)
unfolding ifmt ReadsBack
ifmt-ReadsBack f arg b plain short e =
    let (_, _, _, verb) = base_of_verb_bounds f.r b e in
    rw (verb, e)
      (fmt_with-ReadsBack f (read_arg f.flags arg) b plain (read_arg-IsWord f.flags arg short) e)
