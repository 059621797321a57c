-- ===== src/Strtoul/Exact.antt =====
-- The loop over the digits tells exactly when the number does not fit.
use native.Mathlib.Nat.{mul-le-mul_right, le_trans, div-lt_iff_lt-mul, div-mul-le_self}
use mathlib.Core.Path.{subst, ap}
use plan9_ocaml.Prelude.{
  [], true, false, ℕ, List, ◌<◌, ◌*◌, ◌∷◌, ◌^◌, ◌%◌, u32_mod, ◌+◌, ◌≡◌, ◌≤◌, ltb, ◌/◌, ◌||◌, arith,
  Bool-cases, inl, inr, Bool, leb, if◌then◌else◌, ◌∙◌, refl, ap, sub32,
}
use plan9_ocaml.Strtoul.{Digits, digits, result, value_of, ulong_max}

-- Every byte is a digit of the base.
unfoldable pub AreDigits : ℕ → List ℕ → Type 0
AreDigits base [] = Unit
AreDigits base (c ∷ s) = (value_of base c < base) × AreDigits base s

-- The value of digits behind those of `n`.
unfoldable pub number : ℕ → ℕ → List ℕ → ℕ
number base n [] = n
number base n (c ∷ s) = number base (n * base + value_of base c) s

pub Keeps : ℕ → Digits → Type 0
Keeps v d = (d.n < 2 ^ 32) × (d.ovfl ≡ false → d.n ≡ v) × (d.ovfl ≡ true → 2 ^ 32 ≤ v)

abbrev next : ℕ → ℕ → Digits → Digits
next base v d = record {
  n = (d.n * base % u32_mod + v) % u32_mod;
  ndig = d.ndig + 1;
  ovfl = ltb (ulong_max / base) d.n || (d.ovfl || ltb ((d.n * base % u32_mod + v) % u32_mod) d.n);
}

-- The two tests of the source, on the product `p`.
fits_or_not :
    (n p v m : ℕ)
    → n < 2 ^ 32
    → v < 36
    → 2 * n ≤ p
    → p ≤ 36 * n
    → (n ≤ m → p ≤ ulong_max)
    → (m < n → ulong_max < p)
    → ((ltb m n || ltb ((p % u32_mod + v) % u32_mod) n) ≡ false
        → (p % u32_mod + v) % u32_mod ≡ p + v)
      × ((ltb m n || ltb ((p % u32_mod + v) % u32_mod) n) ≡ true → 2 ^ 32 ≤ p + v)
fits_or_not n p v m h k a b c d = ground (arith, c, d)

quotient_fits : (n base : ℕ) → 0 < base → n ≤ ulong_max / base → n * base ≤ ulong_max
quotient_fits n base p h = le_trans (mul-le-mul_right base h) (div-mul-le_self ulong_max base)

quotient_over : (n base : ℕ) → 0 < base → ulong_max / base < n → ulong_max < n * base
quotient_over n base p h = (div-lt_iff_lt-mul p).0 h

times_bounds : (n base : ℕ) → 2 ≤ base → base ≤ 36 → (2 * n ≤ n * base) × (n * base ≤ 36 * n)
times_bounds n base h k = (grind arith, grind arith)

or_true : (x y : Bool) → (x || (true || y)) ≡ false → ⊥
or_true x y h = ground arith

Keeps-next :
    (base v w : ℕ) (d : Digits)
    → 2 ≤ base
    → base ≤ 36
    → v < base
    → Keeps w d
    → Keeps (w * base + v) (next base v d)
unfolding Keeps
Keeps-next base v w d b2 b36 hv (small, exact, over) =
    let (lo, hi) = times_bounds d.n base b2 b36 in
    let (lo', hi') = times_bounds w base b2 b36 in
    let f =
      fits_or_not d.n (d.n * base) v (ulong_max / base) small (omega arith) lo hi
        (quotient_fits d.n base (omega arith)) (quotient_over d.n base (omega arith)) in
    let x = ltb (ulong_max / base) d.n in
    let y = ltb ((d.n * base % u32_mod + v) % u32_mod) d.n in
    let short : (d.n * base % u32_mod + v) % u32_mod < 2 ^ 32 = omega arith in
    elim (Bool-cases d.ovfl) [
      | inl e ↦
          let large = over e in
          (
            short,
            λ q. absurd (or_true x y (subst (λ (o : Bool). (x || (o || y)) ≡ false) e q)),
            λ _. omega arith,
          )
      | inr e ↦
          let same = exact e in
          (
            short,
            λ q.
                f.0 (subst (λ (o : Bool). (x || (o || y)) ≡ false) e q)
                ∙ ap (λ (z : ℕ). z * base + v) same,
            λ q.
                subst (λ (z : ℕ). 2 ^ 32 ≤ z * base + v) same
                  (f.1 (subst (λ (o : Bool). (x || (o || y)) ≡ true) e q)),
          )
    ]

digits-Keeps :
    (base w : ℕ) (s : List ℕ) (d : Digits)
    → 2 ≤ base
    → base ≤ 36
    → AreDigits base s
    → Keeps w d
    → Keeps (number base w s) (digits base s d)
unfolding digits number AreDigits
digits-Keeps base w [] d b2 b36 h k = k
digits-Keeps base w (c ∷ s) d b2 b36 (hv, h) k =
    let v = value_of base c in
    let digit : leb base v ≡ false = ground arith in
    rw digit (
      digits-Keeps base (w * base + v) s (next base v d) b2 b36 h
        (Keeps-next base v w d b2 b36 hv k))

abbrev pub no_digits : Digits
no_digits = record { n = 0; ndig = 0; ovfl = false }

capped :
    (d : Digits) (w : ℕ) → Keeps w d → result false d ≡ (if ltb ulong_max w then ulong_max else w)
unfolding Keeps result
capped d w (small, exact, over) = elim (Bool-cases d.ovfl) [
  | inl e ↦ let large = over e in rw e (ground arith)
  | inr e ↦ let same = exact e in rw e (ground arith)
]

-- In a base from 2 to 36, for every sequence of its digits: the loop and the return without a sign
-- give the number that the digits write when it fits 32 bits, and ULONG_MAX when it does not.
pub digits-number :
    (base : ℕ) (s : List ℕ)
    → 2 ≤ base
    → base ≤ 36
    → AreDigits base s
    → result false (digits base s no_digits)
      ≡ (if ltb ulong_max (number base 0 s) then ulong_max else number base 0 s)
unfolding Keeps
digits-number base s b2 b36 h =
    capped (digits base s no_digits) (number base 0 s)
      (digits-Keeps base 0 s no_digits b2 b36 h (omega arith, λ _. refl, λ q. ground arith))

result_small :
    (neg : Bool) (d : Digits) (w : ℕ)
    → w < 2 ^ 32
    → Keeps w d
    → result neg d ≡ (if neg then sub32 0 w else w)
unfolding Keeps result
result_small neg d w h (small, exact, over) = elim (Bool-cases d.ovfl) [
  | inl e ↦ let large = over e in omega arith
  | inr e ↦ let same = exact e in rw (e, same) refl
]

-- A number that fits comes back as it is, or negated after a minus sign.
pub digits-number_small :
    (base : ℕ) (neg : Bool) (s : List ℕ)
    → 2 ≤ base
    → base ≤ 36
    → AreDigits base s
    → number base 0 s < 2 ^ 32
    → result neg (digits base s no_digits)
      ≡ (if neg then sub32 0 (number base 0 s) else number base 0 s)
unfolding Keeps
digits-number_small base neg s b2 b36 h small =
    result_small neg (digits base s no_digits) (number base 0 s) small
      (digits-Keeps base 0 s no_digits b2 b36 h (omega arith, λ _. refl, λ q. ground arith))
