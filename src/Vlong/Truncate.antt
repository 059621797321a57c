-- ===== src/Vlong/Truncate.antt =====
-- What the signed division of pairs is on the numbers: it rounds towards zero.
use mathlib.Core.Path.{subst}
use native.Mathlib.Nat.{mod-lt, div-add-mod', div-le_self, mod-le}
use plan9_ocaml.Prelude.{
  ℕ, Bool, some, true, false, ◌==◌, ltb, ◌&&◌, not, if◌then◌else◌, ◌/◌, ◌%◌, ◌^◌, ◌*◌, ◌-◌, ◌<◌,
  ◌≤◌, ◌≡◌, refl, arith, Bool-cases, inl, inr, ap₂, ap, ◌∙◌, sym,
}
use plan9_ocaml.Vlong.{Vlong, quotient, remainder}
use plan9_ocaml.Vlong.Value.{IsVlong, value}
use plan9_ocaml.Vlong.Sums.{vneg-value}
use plan9_ocaml.Vlong.Div.{Divides, dodiv-Divides, quotient_of_sum}
use plan9_ocaml.Vlong.Signed.{
  divv, modv, is_neg, is_neg32, with_sign, with_sign32, widened, differ, div_signed, mod_signed,
  signed_quotient, is_long,
}

-- The magnitude of a signed pair, and a magnitude with a sign, in 64 bits.
abbrev pub magnitude : Vlong → ℕ
magnitude v = if ltb (value v) (2 ^ 63) then value v else 2 ^ 64 - value v

abbrev pub signed_value : (neg : Bool) → ℕ → ℕ
signed_value neg m = if neg then (2 ^ 64 - m) % 2 ^ 64 else m

-- The low words are -2 ^ 31 and -1.
abbrev pub overflows : (n d : Vlong) → Bool
overflows n d = (value n == 2 ^ 64 - 2 ^ 31) && (value d == 2 ^ 64 - 1)

widened-value :
    (neg : Bool) (m : ℕ)
    → m ≤ 2 ^ 31
    → (m ≡ 2 ^ 31 → neg ≡ true)
    → (value (widened (with_sign32 neg m)) ≡ signed_value neg m)
      × IsVlong (widened (with_sign32 neg m))
widened-value neg m le h = ground (arith, h)

long_magnitude :
    (v : Vlong)
    → IsVlong v
    → is_long v ≡ true
    → (with_sign32 (is_neg32 v.lo) v.lo ≡ magnitude v)
      × (is_neg32 v.lo ≡ is_neg v)
      × (magnitude v ≤ 2 ^ 31)
long_magnitude v w h = ground (arith, w.lo, w.hi)

with_sign-magnitude :
    (v : Vlong)
    → IsVlong v
    → (value (with_sign (is_neg v) v) ≡ magnitude v) × IsVlong (with_sign (is_neg v) v)
with_sign-magnitude v w = let e = vneg-value v w in ground (arith, e, w.lo, w.hi)

with_sign-value :
    (neg : Bool) (v : Vlong)
    → IsVlong v
    → (value (with_sign neg v) ≡ signed_value neg (value v)) × IsVlong (with_sign neg v)
with_sign-value neg v w = let e = vneg-value v w in ground (arith, e, w.lo, w.hi)

-- The signed number of the pair is below 0.
abbrev pub below_zero : Vlong → Bool
below_zero v = not (ltb (value v) (2 ^ 63))

is_neg-below_zero : (v : Vlong) → IsVlong v → is_neg v ≡ below_zero v
is_neg-below_zero v w = ground (arith, w.lo, w.hi)

-- Quotient and remainder as C has them: of the magnitudes, the quotient negative when the signs differ,
-- the remainder with the sign of the dividend.
pub record IsTruncated (n d q r : Vlong) : Type 0 where
  pub quo_word : IsVlong q
  pub rem_word : IsVlong r
  pub quo :
      value q ≡ signed_value (differ (below_zero n) (below_zero d)) (magnitude n / magnitude d)
  pub rem : value r ≡ signed_value (below_zero n) (magnitude n % magnitude d)

full_quotient : (a b : ℕ) → 0 < b → a ≤ 2 ^ 31 → a / b ≡ 2 ^ 31 → (a ≡ 2 ^ 31) × (b ≡ 1)
full_quotient a b pos le e =
    let whole = div-add-mod' a b in
    elim (Bool-cases (b == 1)) [
      | inl one ↦
          let unit : b ≡ 1 = ground arith in
          (omega (arith, whole, e, ap (λ (x : ℕ). x * b) e), unit)
      | inr more ↦
          let large : 2 ≤ b = ground arith in
          absurd (omega (arith, whole, ap (λ (x : ℕ). x * b) e, large))
    ]

magnitude_pos : (d : Vlong) → IsVlong d → 0 < value d → 0 < magnitude d
magnitude_pos d w pos = ground (arith, w.lo, w.hi)

-- Only the one division of words overflows.
opposite :
    (n d : Vlong)
    → IsVlong n
    → IsVlong d
    → overflows n d ≡ false
    → is_long d ≡ true
    → magnitude n ≡ 2 ^ 31
    → magnitude d ≡ 1
    → is_long n ≡ true
    → differ (is_neg n) (is_neg d) ≡ true
opposite n d wn wd safe ld a b ln = ground (arith, wn.lo, wn.hi, wd.lo, wd.hi)

same_quotient :
    (s s' t t' : Bool) (a a' b b' : ℕ)
    → s ≡ s'
    → t ≡ t'
    → a ≡ a'
    → b ≡ b'
    → with_sign32 (differ s t) (a / b) ≡ with_sign32 (differ s' t') (a' / b')
same_quotient s s' t t' a a' b b' e f g h = cc

same_remainder :
    (s s' : Bool) (a a' b b' : ℕ)
    → s ≡ s'
    → a ≡ a'
    → b ≡ b'
    → with_sign32 s (a % b) ≡ with_sign32 s' (a' % b')
same_remainder s s' a a' b b' e g h = cc

-- The record from a quotient and a remainder that are equal to those with the signs of `vlrt.c`.
truncated :
    (n d q r : Vlong)
    → IsVlong n
    → IsVlong d
    → (value q ≡ signed_value (differ (is_neg n) (is_neg d)) (magnitude n / magnitude d))
      × IsVlong q
    → (value r ≡ signed_value (is_neg n) (magnitude n % magnitude d)) × IsVlong r
    → IsTruncated n d q r
truncated n d q r wn wd (e, wq) (f, wr) =
    let sn = is_neg-below_zero n wn in
    let sd = is_neg-below_zero d wd in
    record {
      quo_word = wq;
      rem_word = wr;
      quo = e ∙ ap₂ (λ (s t : Bool). signed_value (differ s t) (magnitude n / magnitude d)) sn sd;
      rem = f ∙ ap (λ (s : Bool). signed_value s (magnitude n % magnitude d)) sn;
    }

module _ (n d : Vlong) (wn : IsVlong n) (wd : IsVlong d) (pos : 0 < value d) where
  short_way :
      overflows n d ≡ false
      → is_long n ≡ true
      → is_long d ≡ true
      → IsTruncated n d (widened (div_signed n.lo d.lo)) (widened (mod_signed n.lo d.lo))
  short_way safe ln ld =
      let (mn, sn, small) = long_magnitude n wn ln in
      let (md, sd, small') = long_magnitude d wd ld in
      let low = magnitude_pos d wd pos in
      let q =
        widened-value (differ (is_neg n) (is_neg d)) (magnitude n / magnitude d)
          (omega (arith, div-le_self (magnitude n) (magnitude d), small))
          (λ e.
            let (a, b) = full_quotient (magnitude n) (magnitude d) low small e in
            opposite n d wn wd safe ld a b ln) in
      let r =
        widened-value (is_neg n) (magnitude n % magnitude d)
          (omega (arith, mod-le (magnitude n) (magnitude d), small))
          (λ e. absurd (omega (arith, mod-lt (magnitude n) low, small', e))) in
      let eq = same_quotient _ _ _ _ _ _ _ _ sn sd mn md in
      let er = same_remainder _ _ _ _ _ _ sn mn md in
      truncated n d (widened (div_signed n.lo d.lo)) (widened (mod_signed n.lo d.lo)) wn wd
        (subst
          (λ (x : ℕ).
            (value (widened x)
              ≡ signed_value (differ (is_neg n) (is_neg d)) (magnitude n / magnitude d))
            × IsVlong (widened x))
          (sym eq) q)
        (subst
          (λ (x : ℕ).
            (value (widened x) ≡ signed_value (is_neg n) (magnitude n % magnitude d))
            × IsVlong (widened x))
          (sym er) r)

  abbrev bare_n : Vlong
  bare_n = with_sign (is_neg n) n

  abbrev bare_d : Vlong
  bare_d = with_sign (is_neg d) d

  long_way :
      (q : Vlong × Vlong)
      → Divides bare_n bare_d q
      → IsTruncated n d (with_sign (differ (is_neg n) (is_neg d)) q.0) (with_sign (is_neg n) q.1)
  long_way q v =
      let (vn, _) = with_sign-magnitude n wn in
      let (vd, _) = with_sign-magnitude d wd in
      let (e, f) =
        quotient_of_sum (value bare_n) (value q.0) (value bare_d) (value q.1) v.sum v.small in
      let (sq, wq) = with_sign-value (differ (is_neg n) (is_neg d)) q.0 v.quo_word in
      let (sr, wr) = with_sign-value (is_neg n) q.1 v.rem_word in
      truncated n d _ _ wn wd
        (
          sq
              ∙ ap (λ (x : ℕ). signed_value (differ (is_neg n) (is_neg d)) x)
                  (e ∙ ap₂ (λ (x y : ℕ). x / y) vn vd),
          wq,
        )
        (sr ∙ ap (λ (x : ℕ). signed_value (is_neg n) x) (f ∙ ap₂ (λ (x y : ℕ). x % y) vn vd), wr)

  -- Signed division and remainder of pairs, by a divisor that is not zero, end with the quotient rounded
  -- towards zero and the remainder with the sign of the dividend, modulo 2 ^ 64, for all pairs but
  -- -2 ^ 31 and -1.
  pub divv-IsTruncated :
      overflows n d ≡ false
      → (q r : Vlong) × (divv n d ≡ some q) × (modv n d ≡ some r) × IsTruncated n d q r
  unfolding divv modv quotient remainder signed_quotient
  divv-IsTruncated safe = elim (Bool-cases (is_long n && is_long d)) [
    | inl short ↦
        let ln : is_long n ≡ true = ground arith in
        let ld : is_long d ≡ true = ground arith in
        let lo_pos : (d.lo == 0) ≡ false = low_pos d ld pos in
        rw (short, lo_pos)
          (
            widened (div_signed n.lo d.lo),
            widened (mod_signed n.lo d.lo),
            refl,
            refl,
            short_way safe ln ld,
          )
    | inr long ↦
        let (vd, word_d) = with_sign-magnitude d wd in
        let (q, e, v) =
          dodiv-Divides bare_n bare_d (with_sign-magnitude n wn).1 word_d
            (rw vd (magnitude_pos d wd pos)) in
        rw (long, e)
          (
            with_sign (differ (is_neg n) (is_neg d)) q.0,
            with_sign (is_neg n) q.1,
            refl,
            refl,
            long_way q v,
          )
  ]
    where
      low_pos : (d : Vlong) → is_long d ≡ true → 0 < value d → (d.lo == 0) ≡ false
      low_pos d ld p = ground arith
