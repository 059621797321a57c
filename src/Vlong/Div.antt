-- ===== src/Vlong/Div.antt =====
-- `dodiv` of vlrt.c and the unsigned operations on it: they end, with quotient and remainder.
use native.Mathlib.Nat.{one-le-pow, suc-mul, div-eq_of_lt-le, div-add-mod', div-le_self, mod-le}
use plan9_ocaml.Vlong.{
  Vlong, vlong, scale_to, Division, rounds, divided, dodiv, quotient, remainder, divvu, modvu,
  sign_bit,
}
use plan9_ocaml.Vlong.Value.{IsVlong, value}
use plan9_ocaml.Vlong.Scale.{times_two_pow, Scaled, scale-Scaled}
use plan9_ocaml.Vlong.Rounds.{Inv, rounds-Inv}
use plan9_ocaml.Prelude.{
  ℕ, suc, ◌+◌, ◌*◌, ◌/◌, ◌%◌, ◌^◌, ◌≤◌, ◌<◌, ◌≡◌, refl, ap, ap₂, inl, inr, sym, ◌∙◌, some, false,
  arith, leb, ◌==◌, ◌&&◌, Bool-cases, inl, inr,
}

pub record Divides (n d : Vlong) (r : Vlong × Vlong) : Type 0 where
  pub quo_word : IsVlong r.0
  pub rem_word : IsVlong r.1
  pub sum : value n ≡ value r.0 * value d + value r.1
  pub small : value r.1 < value d

zero_word : IsVlong (vlong 0 0)
zero_word = record { lo = omega arith; hi = omega arith }

scale_to-word : (n : Vlong) → IsVlong n → IsVlong (scale_to n)
unfolding scale_to
scale_to-word n w = elim (Bool-cases (leb sign_bit n.hi)) [
  | inl big ↦ rw big (record { lo = omega arith; hi = omega arith })
  | inr small ↦ rw small w
]

scale_to-le : (n : Vlong) → IsVlong n → value (scale_to n) ≤ 2 ^ 63
unfolding scale_to
scale_to-le n w = ground (arith, w.lo)

-- A scaled divisor that reaches the bound is more than half of the dividend.
more_than_half : (n : Vlong) (x : ℕ) → IsVlong n → 0 < x → value (scale_to n) ≤ x → value n < 2 * x
unfolding scale_to
more_than_half n x w pos le = ground (arith, w.lo, w.hi)

module _ (n d : Vlong) (wn : IsVlong n) (wd : IsVlong d) (pos : 0 < value d) where
  divided-Divides :
      (r : Vlong × ℕ)
      → Scaled d (scale_to n) 0 r
      → (q : Vlong × Vlong) × (divided n (some r) ≡ some q) × Divides n d q
  unfolding divided
  divided-Divides r s =
      let den_pos : 0 < value r.0 = grind (arith, s.scaled, one-le-pow s.by 2 (omega arith)) in
      let over : value n < value d * 2 ^ suc s.by = omega (
        arith,
        more_than_half n (value r.0) wn den_pos s.reached,
        s.scaled,
        times_two_pow (value d) s.by,
      ) in
      let e : r.1 + 1 ≡ suc s.by = omega (arith, s.count) in
      let start : Division = record { quo = vlong 0 0; num = n; den = r.0 } in
      let v : Inv (value n) (value d) (rounds (suc s.by) start) =
        rounds-Inv (suc s.by) (value n) (value d) start (omega (arith, wn.lo, wn.hi)) pos s.scaled
          (record {
            quo_word = zero_word;
            num_word = wn;
            den_word = s.word;
            sum = omega arith;
            small = over;
          }) in
      let end = rounds (suc s.by) start in
      (
        (end.quo, end.num),
        rw e,
        record {
          quo_word = v.quo_word;
          rem_word = v.num_word;
          sum = omega (arith, v.sum);
          small = v.small;
        },
      )

  -- Dividing by a pair that is not zero ends, with quotient and remainder.
  pub dodiv-Divides : (q : Vlong × Vlong) × (dodiv n d ≡ some q) × Divides n d q
  unfolding dodiv
  dodiv-Divides =
      let nonzero : ((d.lo == 0) && (d.hi == 0)) ≡ false = ground arith in
      let (r, e, s) =
        scale-Scaled 64 d (scale_to n) 0 wd (scale_to-word n wn) (scale_to-le n wn)
          (omega (arith, scale_to-le n wn)) in
      rw (nonzero, e) (divided-Divides r s)

pub quotient_of_sum : (n q d r : ℕ) → n ≡ q * d + r → r < d → (q ≡ n / d) × (r ≡ n % d)
quotient_of_sum n q d r e lt =
    let over : suc q * d ≡ q * d + d = suc-mul q d in
    let quo : n / d ≡ q =
      div-eq_of_lt-le d (omega arith) (omega (arith, over, ap (λ t. t * d) (succ q))) in
    (sym quo, mod_part quo)
  where
    succ : (q : ℕ) → q + 1 ≡ suc q
    succ q = omega arith

    mod_part : n / d ≡ q → r ≡ n % d
    mod_part quo = omega (arith, div-add-mod' n d, ap (λ (t : ℕ). t * d) quo)

pub record IsDivided (n d q r : Vlong) : Type 0 where
  pub quo_word : IsVlong q
  pub rem_word : IsVlong r
  pub quo : value q ≡ value n / value d
  pub rem : value r ≡ value n % value d

module _ (n d : Vlong) (wn : IsVlong n) (wd : IsVlong d) where
  long_way : (q : Vlong × Vlong) → 0 < value d → Divides n d q → IsDivided n d q.0 q.1
  long_way q pos v =
      let (e, e') = quotient_of_sum (value n) (value q.0) (value d) (value q.1) v.sum v.small in
      record { quo_word = v.quo_word; rem_word = v.rem_word; quo = e; rem = e' }

  short_way : n.hi ≡ 0 → d.hi ≡ 0 → IsDivided n d (vlong 0 (n.lo / d.lo)) (vlong 0 (n.lo % d.lo))
  short_way e e' =
      let vn : value n ≡ n.lo = omega arith in
      let vd : value d ≡ d.lo = omega arith in
      let whole : value (vlong 0 (n.lo / d.lo)) ≡ n.lo / d.lo = omega arith in
      let left : value (vlong 0 (n.lo % d.lo)) ≡ n.lo % d.lo = omega arith in
      record {
        quo_word = record { lo = omega (arith, div-le_self n.lo d.lo, wn.lo); hi = omega arith };
        rem_word = record { lo = omega (arith, mod-le n.lo d.lo, wn.lo); hi = omega arith };
        quo = whole ∙ ap₂ (λ (x y : ℕ). x / y) (sym vn) (sym vd);
        rem = left ∙ ap₂ (λ (x y : ℕ). x % y) (sym vn) (sym vd);
      }

  -- Unsigned division and remainder of pairs, by a divisor that is not zero, end with the quotient and
  -- the remainder of the numbers.
  pub divvu-IsDivided :
      0 < value d → (q r : Vlong) × (divvu n d ≡ some q) × (modvu n d ≡ some r) × IsDivided n d q r
  unfolding divvu modvu quotient remainder
  divvu-IsDivided pos = elim (Bool-cases ((n.hi == 0) && (d.hi == 0))) [
    | inl short ↦
        let lo_pos : (d.lo == 0) ≡ false = ground arith in
        rw (short, lo_pos)
          (
            vlong 0 (n.lo / d.lo),
            vlong 0 (n.lo % d.lo),
            refl,
            refl,
            short_way (ground arith) (ground arith),
          )
    | inr long ↦
        let (q, e, v) = dodiv-Divides n d wn wd pos in
        rw (long, e) (q.0, q.1, refl, refl, long_way q pos v)
  ]
