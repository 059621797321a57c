-- ===== src/Vlong/Scale.antt =====
-- The first loop of `dodiv`: the divisor is scaled up, and 65 rounds are enough.
use native.Mathlib.Nat.{pow-suc}
use plan9_ocaml.Vlong.{Vlong, double, scale}
use plan9_ocaml.Vlong.Value.{IsVlong, value}
use plan9_ocaml.Vlong.Sums.{double-value}
use plan9_ocaml.Prelude.{
  ℕ, zero, suc, ◌+◌, ◌*◌, ◌^◌, ◌≤◌, ◌≡◌, ap, inl, inr, sym, ◌∙◌, some, true, false, arith, ltb, leb,
  ◌==◌, ◌||◌, ◌&&◌, Bool-cases, inl, inr,
}

-- Pairs are compared word by word, the high words first.
pub pair_lt :
    (a b : Vlong)
    → IsVlong a
    → IsVlong b
    → (ltb a.hi b.hi || ((a.hi == b.hi) && ltb a.lo b.lo)) ≡ ltb (value a) (value b)
pair_lt a b wa wb = ground (arith, wa.lo, wb.lo)

pub pair_le :
    (a b : Vlong)
    → IsVlong a
    → IsVlong b
    → (ltb a.hi b.hi || ((b.hi == a.hi) && leb a.lo b.lo)) ≡ leb (value a) (value b)
pair_le a b wa wb = ground (arith, wa.lo, wb.lo)

pub times_two_pow : (x k : ℕ) → x * 2 ^ suc k ≡ 2 * x * 2 ^ k
times_two_pow x k = omega (arith, ap (λ (t : ℕ). x * t) (pow-suc 2 k))

pub record Scaled (den quo : Vlong) (i : ℕ) (r : Vlong × ℕ) : Type 0 where
  pub word : IsVlong r.0
  pub by : ℕ
  pub count : r.1 ≡ i + by
  pub scaled : value r.0 ≡ value den * 2 ^ by
  pub reached : value quo ≤ value r.0

Scaled-double :
    (den quo : Vlong) (i : ℕ) (r : Vlong × ℕ)
    → value (double den) ≡ 2 * value den
    → Scaled (double den) quo (i + 1) r
    → Scaled den quo i r
Scaled-double den quo i r twice s = record {
  word = s.word;
  by = suc s.by;
  count = omega (arith, s.count);
  scaled = s.scaled ∙ ap (λ (t : ℕ). t * 2 ^ s.by) twice ∙ sym (times_two_pow (value den) s.by);
  reached = s.reached;
}

scale_again :
    (k : ℕ) (den quo : Vlong) (i : ℕ)
    → IsVlong den
    → IsVlong quo
    → ltb (value den) (value quo) ≡ true
    → scale (suc k) den quo i ≡ scale k (double den) quo (i + 1)
unfolding scale
scale_again k den quo i wd wq less = rw (pair_lt den quo wd wq, less)

scale_stops :
    (k : ℕ) (den quo : Vlong) (i : ℕ)
    → IsVlong den
    → IsVlong quo
    → ltb (value den) (value quo) ≡ false
    → scale (suc k) den quo i ≡ some (den, i)
unfolding scale
scale_stops k den quo i wd wq stop = rw (pair_lt den quo wd wq, stop)

abbrev pub ScalesTo : ℕ → (den quo : Vlong) → ℕ → Type 0
ScalesTo k den quo i = (r : Vlong × ℕ) × (scale (suc k) den quo i ≡ some r) × Scaled den quo i r

stopped :
    (k : ℕ) (den quo : Vlong) (i : ℕ)
    → IsVlong den
    → IsVlong quo
    → ltb (value den) (value quo) ≡ false
    → ScalesTo k den quo i
stopped k den quo i wd wq stop = (
  (den, i),
  scale_stops k den quo i wd wq stop,
  record { word = wd; by = 0; count = omega arith; scaled = omega arith; reached = ground arith },
)

-- `k + 1` rounds are enough if `2 ^ k` times the divisor reaches the bound.
pub scale-Scaled :
    (k : ℕ) (den quo : Vlong) (i : ℕ)
    → IsVlong den
    → IsVlong quo
    → value quo ≤ 2 ^ 63
    → value quo ≤ value den * 2 ^ k
    → ScalesTo k den quo i
scale-Scaled zero den quo i wd wq top enough = stopped zero den quo i wd wq (ground arith)
scale-Scaled (suc k) den quo i wd wq top enough = elim (Bool-cases (ltb (value den) (value quo))) [
  | inl less ↦
      let twice : value (double den) ≡ 2 * value den = ground (arith, (double-value den wd).0) in
      let (r, e, s) =
        scale-Scaled k (double den) quo (i + 1) (double-value den wd).1 wq top
          (omega (arith, ap (λ (t : ℕ). t * 2 ^ k) twice, times_two_pow (value den) k)) in
      (r, scale_again (suc k) den quo i wd wq less ∙ e, Scaled-double den quo i r twice s)
  | inr stop ↦ stopped (suc k) den quo i wd wq stop
]
