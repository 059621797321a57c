-- ===== src/Vlong/Rounds.antt =====
-- The second loop of `dodiv`: its invariant.
use native.Mathlib.Nat.{one-le-pow}
use plan9_ocaml.Vlong.{vlong, double, minus, Division, round, rounds}
use plan9_ocaml.Vlong.Value.{IsVlong, value}
use plan9_ocaml.Vlong.Sums.{double-value, double-odd, halve-value, minus-value}
use Prim.Native.Nat.{bit_or}
use mathlib.Core.Path.{subst}
use plan9_ocaml.Vlong.Scale.{pair_le, times_two_pow}
use plan9_ocaml.Prelude.{
  ℕ, zero, suc, ◌+◌, ◌-◌, ◌*◌, ◌/◌, ◌^◌, ◌≤◌, ◌<◌, ◌≡◌, ap, ap₂, leb→le, inl, inr, ◌∙◌, arith, leb,
  Bool-cases, inl, inr,
}

-- The state with `n` rounds to go, for the dividend `total` and `m = 2 ^ n` times the divisor.
pub record Inv (total m : ℕ) (s : Division) : Type 0 where
  pub quo_word : IsVlong s.quo
  pub num_word : IsVlong s.num
  pub den_word : IsVlong s.den
  pub sum : value s.num + value s.quo * m ≡ total
  pub small : value s.num < m

quo_step :
    (num quo m total : ℕ)
    → num + quo * (2 * m) ≡ total
    → m ≤ num
    → num - m + (2 * quo + 1) * m ≡ total
quo_step num quo m total e le = omega arith

quo_same : (num quo m : ℕ) → num + 2 * quo * m ≡ num + quo * (2 * m)
quo_same num quo m = omega arith

-- A quotient that can still be doubled.
quo_room : (num quo m total : ℕ) → num + quo * (2 * m) ≡ total → 0 < m → 2 * quo ≤ total
quo_room num quo m total e pos = grind arith

round-Inv :
    (total m : ℕ) (s : Division)
    → total < 2 ^ 64
    → 0 < m
    → value s.den ≡ m
    → Inv total (2 * m) s
    → Inv total m (round s) × (value (round s).den ≡ m / 2)
unfolding round
round-Inv total m s fits pos at v =
    let room : 2 * value s.quo ≤ total = quo_room (value s.num) (value s.quo) m total v.sum pos in
    let twice : value (double s.quo) ≡ 2 * value s.quo =
      omega (arith, (double-value s.quo v.quo_word).0) in
    elim (Bool-cases (leb (value s.den) (value s.num))) [
      | inl enough ↦
          let le : value s.den ≤ value s.num = leb→le _ _ enough in
          let less_den : value (minus s.num s.den) ≡ value s.num - m =
            (minus-value s.num s.den v.num_word v.den_word le).0
            ∙ ap (λ (t : ℕ). value s.num - t) at in
          let grown : value (vlong (double s.quo).hi (bit_or (double s.quo).lo 1))
              ≡ 2 * value s.quo + 1 =
            (double-odd s.quo v.quo_word).0 ∙ ap (λ (t : ℕ). t + 1) twice in
          rw (pair_le s.den s.num v.den_word v.num_word, enough)
            (
              record {
                quo_word = (double-odd s.quo v.quo_word).1;
                num_word = (minus-value s.num s.den v.num_word v.den_word le).1;
                den_word = (halve-value s.den v.den_word).1;
                sum =
                    ap₂ (λ (x y : ℕ). x + y * m) less_den grown
                    ∙ quo_step (value s.num) (value s.quo) m total v.sum (omega arith);
                small = omega (arith, less_den, v.small);
              },
              (halve-value s.den v.den_word).0 ∙ ap (λ (t : ℕ). t / 2) at,
            )
      | inr less ↦
          rw (pair_le s.den s.num v.den_word v.num_word, less)
            (
              record {
                quo_word = (double-value s.quo v.quo_word).1;
                num_word = v.num_word;
                den_word = (halve-value s.den v.den_word).1;
                sum =
                    ap (λ (y : ℕ). value s.num + y * m) twice
                    ∙ quo_same (value s.num) (value s.quo) m
                    ∙ v.sum;
                small = ground arith;
              },
              (halve-value s.den v.den_word).0 ∙ ap (λ (t : ℕ). t / 2) at,
            )
    ]

-- With `n` rounds to go the divisor stands `n - 1` bits to the left.
abbrev pub Placed : ℕ → ℕ → Division → Type 0
Placed zero d s = Unit
Placed (suc i) d s = value s.den ≡ d * 2 ^ i

Placed-down : (n d : ℕ) (s : Division) → value s.den ≡ d * 2 ^ n / 2 → Placed n d s
Placed-down zero d s e = tt
Placed-down (suc i) d s e = omega (arith, e, times_two_pow d i)

pub rounds-Inv :
    (n total d : ℕ) (s : Division)
    → total < 2 ^ 64
    → 0 < d
    → Placed n d s
    → Inv total (d * 2 ^ n) s
    → Inv total d (rounds n s)
unfolding rounds
rounds-Inv zero total d s fits pos at v =
    let e : d * 2 ^ 0 ≡ d = omega arith in subst (λ m. Inv total m s) e v
rounds-Inv (suc n) total d s fits pos at v =
    let big : 0 < d * 2 ^ n = grind (arith, one-le-pow n 2 (omega arith)) in
    let (v', e) =
      round-Inv total (d * 2 ^ n) s fits big at
        (subst (λ m. Inv total m s) (times_two_pow d n ∙ omega arith) v) in
    rounds-Inv n total d (round s) fits pos (Placed-down n d (round s) e) v'
