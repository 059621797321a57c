-- ===== src/Vlong/Shifts/Left.antt =====
-- `_lshv`.
use Prim.Native.Nat.{bit_or}
use native.Mathlib.Nat.{
  mul-mod_left, add-mul-mod_self_right, mod-eq_of_lt, mod-lt, div-add-mod', div-lt_iff_lt-mul,
}
use plan9_ocaml.Prelude.Int.{ℤ, pos, negsuc}
use plan9_ocaml.Prelude.Bits.{or_low_bits, bit_or_comm, two_pow_add, two_pow_pos, two_pow_split}
use plan9_ocaml.Vlong.{Vlong, vlong, shl32, shr32}
use plan9_ocaml.Vlong.Value.{IsVlong, value}
use plan9_ocaml.Prelude.{
  ℕ, ◌+◌, ◌*◌, ◌<◌, ◌≤◌, ◌≡◌, if◌then◌else◌, ◌%◌, leb, ◌/◌, arith, ◌-◌, ap, ◌==◌, sym, ◌∙◌, ◌^◌,
  false, true, Bool-cases, inl, inr, refl,
}

left : Vlong → ℕ → Vlong
left a b =
    if leb 32 b
    then (if leb 64 b then vlong 0 0 else vlong (shl32 a.lo (b - 32)) 0)
    else if b == 0
    then a
    else vlong (bit_or (shr32 a.lo (32 - b)) (shl32 a.hi b)) (shl32 a.lo b)

pub lshv : Vlong → ℤ → Vlong
unfolding left
lshv a (pos b) = left a b
lshv a (negsuc n) = a

-- With `q * p` the modulus, multiplying by `p` drops all but the low part.
pub times_mod : (x p q : ℕ) → 0 < q → 0 < p → x * p % (q * p) ≡ x % q * p
times_mod x p q hq hp =
    let whole : x / q * q + x % q ≡ x = div-add-mod' x q in
    let small : x % q < q = mod-lt x hq in
    let split : x % q * p + x / q * (q * p) ≡ x * p = omega (arith, ap (λ (t : ℕ). t * p) whole) in
    let fits : x % q * p < q * p = grind arith in
    ap (λ (t : ℕ). t % (q * p)) (sym split)
    ∙ add-mul-mod_self_right (x % q * p) (x / q) (q * p)
    ∙ mod-eq_of_lt fits

room_above : (x p q m : ℕ) → q * p ≡ m → 0 < q → x % q * p + p ≤ m
room_above x p q m e hq =
    let small : x % q < q = mod-lt x hq in
    let le : (x % q + 1) * p ≤ q * p = grind arith in omega arith

-- The digits of a pair times `p`, where `q * p` is the modulus of a word.
middle :
    (lo hi p q : ℕ)
    → q * p ≡ 2 ^ 32
    → 0 < p
    → 0 < q
    → lo < 2 ^ 32
    → (hi * 2 ^ 32 + lo) * p % 2 ^ 64 ≡ (hi % q * p + lo / q) * 2 ^ 32 + lo % q * p
middle lo hi p q e hp hq fit =
    let h : hi / q * q + hi % q ≡ hi = div-add-mod' hi q in
    let l : lo / q * q + lo % q ≡ lo = div-add-mod' lo q in
    let h₁ = hi / q in
    let hp' : h₁ * q * p + hi % q * p ≡ hi * p = omega (arith, ap (λ (t : ℕ). t * p) h) in
    let lp' : lo / q * q * p + lo % q * p ≡ lo * p = omega (arith, ap (λ (t : ℕ). t * p) l) in
    let wrap : h₁ * q * p ≡ h₁ * 2 ^ 32 = omega (arith, ap (λ (t : ℕ). h₁ * t) e) in
    let carry : lo / q * q * p ≡ lo / q * 2 ^ 32 = omega (arith, ap (λ (t : ℕ). lo / q * t) e) in
    let split : (hi % q * p + lo / q) * 2 ^ 32 + lo % q * p + h₁ * 2 ^ 64 ≡ (hi * 2 ^ 32 + lo) * p =
      omega arith in
    let small_lo : lo % q * p + p ≤ 2 ^ 32 = room_above lo p q (2 ^ 32) e hq in
    let small_hi : hi % q * p + p ≤ 2 ^ 32 = room_above hi p q (2 ^ 32) e hq in
    let small_carry : lo / q < p = (div-lt_iff_lt-mul hq).1 (omega arith) in
    ap (λ (t : ℕ). t % 2 ^ 64) (sym split)
    ∙ add-mul-mod_self_right ((hi % q * p + lo / q) * 2 ^ 32 + lo % q * p) h₁ (2 ^ 64)
    ∙ mod-eq_of_lt (omega arith)

module _ (a : Vlong) (w : IsVlong a) where
  left_short : (b : ℕ) → 0 < b → b < 32 → value (left a b) ≡ value a * 2 ^ b % 2 ^ 64
  unfolding left
  left_short b nonneg lt =
      let p = 2 ^ b in
      let q = 2 ^ (32 - b) in
      let e : q * p ≡ 2 ^ 32 = two_pow_split 32 b (omega arith) in
      let small : leb 32 b ≡ false = ground arith in
      let nonzero : (b == 0) ≡ false = ground arith in
      let top : a.hi * p % 2 ^ 32 ≡ a.hi % q * p =
        ap (λ (t : ℕ). a.hi * p % t) (sym e)
        ∙ times_mod a.hi p q (two_pow_pos (32 - b)) (two_pow_pos b) in
      let bottom : a.lo * p % 2 ^ 32 ≡ a.lo % q * p =
        ap (λ (t : ℕ). a.lo * p % t) (sym e)
        ∙ times_mod a.lo p q (two_pow_pos (32 - b)) (two_pow_pos b) in
      let carry : a.lo / q < p =
        (div-lt_iff_lt-mul (two_pow_pos (32 - b))).1 (omega (arith, w.lo)) in
      rw
        (
          small,
          nonzero,
          top,
          bottom,
          bit_or_comm (a.lo / q) (a.hi % q * p),
          or_low_bits (a.lo / q) (a.hi % q) b carry,
        )
        (sym (middle a.lo a.hi p q e (two_pow_pos b) (two_pow_pos (32 - b)) w.lo))

  left_long : (b : ℕ) → 32 ≤ b → b < 64 → value (left a b) ≡ value a * 2 ^ b % 2 ^ 64
  unfolding left
  left_long b ge lt =
      let c = b - 32 in
      let v = value a in
      let power : 2 ^ c * 2 ^ 32 ≡ 2 ^ b =
        let e : c + 32 ≡ b = omega arith in sym (two_pow_add c 32) ∙ ap (λ (t : ℕ). 2 ^ t) e in
      let times : v * 2 ^ b ≡ v * 2 ^ c * 2 ^ 32 = omega (arith, ap (λ (t : ℕ). v * t) power) in
      let apart : v * 2 ^ c ≡ a.lo * 2 ^ c + a.hi * 2 ^ c * 2 ^ 32 = omega arith in
      let low : v * 2 ^ c % 2 ^ 32 ≡ a.lo * 2 ^ c % 2 ^ 32 =
        ap (λ (t : ℕ). t % 2 ^ 32) apart
        ∙ add-mul-mod_self_right (a.lo * 2 ^ c) (a.hi * 2 ^ c) (2 ^ 32) in
      let big : leb 32 b ≡ true = ground arith in
      let fits : leb 64 b ≡ false = ground arith in
      rw
        (big, fits, times, times_mod (v * 2 ^ c) (2 ^ 32) (2 ^ 32) (omega arith) (omega arith), low)
        (omega arith)

  left_over : (b : ℕ) → 64 ≤ b → value (left a b) ≡ value a * 2 ^ b % 2 ^ 64
  unfolding left
  left_over b ge =
      let c = b - 64 in
      let power : 2 ^ c * 2 ^ 64 ≡ 2 ^ b =
        let e : c + 64 ≡ b = omega arith in sym (two_pow_add c 64) ∙ ap (λ (t : ℕ). 2 ^ t) e in
      let times : value a * 2 ^ b ≡ value a * 2 ^ c * 2 ^ 64 =
        omega (arith, ap (λ (t : ℕ). value a * t) power) in
      let big : leb 32 b ≡ true = ground arith in
      let huge : leb 64 b ≡ true = ground arith in
      rw (big, huge, times, mul-mod_left (value a * 2 ^ c) (2 ^ 64)) refl

  left_nothing : value (left a 0) ≡ value a * 2 ^ 0 % 2 ^ 64
  unfolding left
  left_nothing = omega (arith, w.lo, w.hi)

  -- Shifting a pair left by a count that is not negative multiplies its number by that power of two,
  -- modulo 2 ^ 64; a negative count leaves the pair as it is.
  pub lshv-value :
      (b : ℕ) → (value (lshv a (pos b)) ≡ value a * 2 ^ b % 2 ^ 64) × (lshv a (negsuc b) ≡ a)
  unfolding lshv
  lshv-value b = (amount b, refl)
    where
      amount : (b : ℕ) → value (left a b) ≡ value a * 2 ^ b % 2 ^ 64
      amount b = elim (Bool-cases (leb 32 b)) [
        | inl big ↦ elim (Bool-cases (leb 64 b)) [
          | inl huge ↦ left_over b (ground arith)
          | inr fits ↦ left_long b (ground arith) (ground arith)
        ]
        | inr small ↦ elim (Bool-cases (b == 0)) [
          | inl none_at_all ↦ (let e : b ≡ 0 = ground arith in rw e left_nothing)
          | inr some_bits ↦ left_short b (ground arith) (ground arith)
        ]
      ]
