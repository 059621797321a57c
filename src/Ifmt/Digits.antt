-- ===== src/Ifmt/Digits.antt =====
-- `strtoul` reads back what `_ifmt` writes.
use native.Mathlib.Nat.{
  pow-zero, pow-succ', div-add-mod', mod-lt, div-lt_iff_lt-mul, mul-le-mul_left, two-pow-succ,
}
use plan9_ocaml.Prelude.{
  ℕ, [], zero, suc, List, false, ◌≡◌, ◌≤◌, length, ◌^◌, ◌<◌, arith, ◌*◌, ◌+◌, ◌∷◌, Bool-cases, ◌∙◌,
  ◌/◌, ap₂, ◌%◌, ◌==◌, sym, inl, inr, ap, ltb, ◌&&◌,
}
use plan9_ocaml.Strtoul.{value_of}
use plan9_ocaml.Strtoul.Exact.{AreDigits, number}
use plan9_ocaml.Ifmt.{Fmt, Text, conv, put_digits, fill, digits_of, push, ltb, at_least_one}

value_of-conv : (r base i : ℕ) → i < base → base ≤ 16 → value_of base (conv r i) ≡ i
unfolding conv value_of
value_of-conv r base i h k = ground arith

shift_step : (n base v p m : ℕ) → (n * base + v) * p + m ≡ n * (base * p) + ((0 * base + v) * p + m)
shift_step n base v p m = omega arith

-- The value of the digits `s` behind those of `n`.
number-eq : (base n : ℕ) (s : List ℕ) → number base n s ≡ n * base ^ length s + number base 0 s
unfolding number
number-eq base n [] = let one : base ^ 0 ≡ 1 = pow-zero base in rw one (omega arith)
number-eq base n (c ∷ s) =
    number-eq base (n * base + value_of base c) s
    ∙ shift_step n base (value_of base c) (base ^ length s) (number base 0 s)
    ∙ ap₂ (λ (a b : ℕ). n * a + b) (sym (pow-succ' base (length s)))
        (sym (number-eq base (0 * base + value_of base c) s))

-- The digits put in front of others.
Means : (base u : ℕ) (s t : List ℕ) → Type 0
Means base u s t = AreDigits base t × (number base 0 t ≡ u * base ^ length s + number base 0 s)

put_step : (u base p m : ℕ) → 0 < base → u / base * (base * p) + (u % base * p + m) ≡ u * p + m
put_step u base p m h =
    let whole = ap (λ (x : ℕ). x * p) (div-add-mod' u base) in omega (arith, whole)

small_quotient : (k u base : ℕ) → 2 ≤ base → u < 2 ^ suc k → u / base < 2 ^ k
small_quotient k u base low h =
    let wide = mul-le-mul_left (2 ^ k) low in
    (div-lt_iff_lt-mul (omega arith)).1 (omega (arith, wide, two-pow-succ k))

put_digits-Means :
    (k r base u : ℕ) (t : Text)
    → 2 ≤ base
    → base ≤ 16
    → u < 2 ^ k
    → AreDigits base t.chars
    → Means base u t.chars (put_digits k r base false u t).chars
unfolding put_digits Means AreDigits value_of number
put_digits-Means zero r base u t low high small h =
    let none_left : u ≡ 0 = omega arith in (h, rw none_left (omega arith))
put_digits-Means (suc k) r base u t low high small h = elim (Bool-cases (u == 0)) [
  | inl z ↦ let none_left : u ≡ 0 = ground arith in rw z (h, rw none_left (omega arith))
  | inr z ↦
      let c = conv r (u % base) in
      let digit : value_of base c ≡ u % base =
        value_of-conv r base (u % base) (mod-lt u (omega arith)) high in
      let front : value_of base c < base = rw digit (mod-lt u (omega arith)) in
      let (good, sum) =
        put_digits-Means k r base (u / base) (push c t) low high (small_quotient k u base low small)
          (front, h) in
      let shifted = number-eq base (0 * base + value_of base c) t.chars in
      let power = pow-succ' base (length t.chars) in
      let step = put_step u base (base ^ length t.chars) (number base 0 t.chars) (omega arith) in
      rw z (
        good,
        sum
            ∙ ap₂ (λ (x y : ℕ). u / base * x + y) power
                (shifted
                  ∙ ap (λ (x : ℕ). x * base ^ length t.chars + number base 0 t.chars)
                      (zero_times base (value_of base c) ∙ digit))
            ∙ step,
      )
]
  where
    zero_times : (b v : ℕ) → 0 * b + v ≡ v
    zero_times b v = omega arith

-- The digits of `u`.
unfoldable pub Writes : (base u : ℕ) → List ℕ → Type 0
Writes base u s = AreDigits base s × (number base 0 s ≡ u)

pub zero-Writes : (base u : ℕ) (s : List ℕ) → 2 ≤ base → Writes base u s → Writes base u (48 ∷ s)
unfolding Writes AreDigits number value_of
zero-Writes base u s low (good, sum) =
    let nothing : 0 * base + 0 ≡ 0 = omega arith in ((omega arith, good), rw nothing sum)

pub fill-Writes :
    (k w base u : ℕ) (t : Text)
    → 2 ≤ base
    → Writes base u t.chars
    → Writes base u (fill k w t).chars
unfolding fill
fill-Writes zero w base u t low h = h
fill-Writes (suc k) w base u t low h = elim (Bool-cases (ltb t.n w && ltb (length t.chars) 85)) [
  | inl e ↦ rw e (fill-Writes k w base u (push 48 t) low (zero-Writes base u t.chars low h))
  | inr e ↦ rw e h
]

pub digits_of-Writes :
    (f : Fmt) (base u : ℕ)
    → f.flags.comma ≡ false
    → 2 ≤ base
    → base ≤ 16
    → u < 2 ^ 64
    → Writes base u (digits_of f base u).chars
unfolding digits_of Means Writes AreDigits number
digits_of-Writes f base u plain low high small =
    let t = put_digits 64 f.r base false u (record { chars = []; n = 0 }) in
    let (good, sum) =
      put_digits-Means 64 f.r base u (record { chars = []; n = 0 }) low high small tt in
    let one = pow-zero base in
    rw plain (
      fill-Writes 89 f.prec base u (at_least_one t) low
        (one_or_more base u t low (good, sum ∙ (rw one (omega arith)))))
  where
    one_or_more :
        (b v : ℕ) (t : Text) → 2 ≤ b → Writes b v t.chars → Writes b v (at_least_one t).chars
    one_or_more b v t l h = elim (Bool-cases (t.n == 0)) [
      | inl e ↦ rw e (zero-Writes b v t.chars l h)
      | inr e ↦ rw e h
    ]
