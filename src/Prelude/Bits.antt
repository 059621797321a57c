-- ===== src/Prelude/Bits.antt =====
-- Words as digits: what `|` of disjoint fields and `&` with a low mask are as arithmetic.
use Prim.Native.Nat.{
  min, max, bit_and, bit_or, bit_xor, differ, digits, bitwise, bit_and-bitwise, bit_or-bitwise,
  bit_xor-bitwise,
}
use Prim.Native.Nat.{ℕ, zero, suc, ◌+◌, ◌-◌, ◌*◌, ◌/◌, ◌%◌, ◌^◌, ◌≤◌, ◌<◌}
use mathlib.Core.Path.{◌≡◌, refl, ap, ◌∙◌, sym}
use native.Mathlib.Nat.{
  pow-suc, one-le-pow, add-mul-mod_self_right, mod-eq_of_lt, div-add-mod', mod-lt,
}
use native.Mathlib.Omega.{arith}

-- `j` more than `n`, by constructors.
abbrev raise : ℕ → ℕ → ℕ
raise zero n = n
raise (suc j) n = suc (raise j n)

raise-eq-add : (j n : ℕ) → raise j n ≡ j + n
raise-eq-add zero n = omega arith
raise-eq-add (suc j) n = omega (arith, raise-eq-add j n)

module _ (rest : ℕ → ℕ) (op : ℕ → ℕ → ℕ) where
  -- A digit more than the first number has changes nothing.
  one_more : (n x y : ℕ) → x ≤ n → digits rest op (suc n) x y ≡ digits rest op n x y
  one_more zero zero y le = refl
  one_more zero (suc x) y le = absurd (omega arith)
  one_more (suc n) zero y le = refl
  one_more (suc n) (suc x) y le =
      ap (λ t. t * 2 + op (suc x % 2) (y % 2)) (one_more n (suc x / 2) (y / 2) (omega arith))

  many_more : (j n x y : ℕ) → x ≤ n → digits rest op (raise j n) x y ≡ digits rest op n x y
  many_more zero n x y le = refl
  many_more (suc j) n x y le =
      one_more (raise j n) x y (omega (arith, raise-eq-add j n)) ∙ many_more j n x y le

  lowest_digit :
      (x y : ℕ)
      → bitwise rest op (suc x) y ≡ bitwise rest op (suc x / 2) (y / 2) * 2 + op (suc x % 2) (y % 2)
  lowest_digit x y =
      let half = suc x / 2 in
      let all : raise (x - half) half ≡ x = omega (arith, raise-eq-add (x - half) half) in
      ap (λ n. digits rest op n half (y / 2) * 2 + op (suc x % 2) (y % 2)) (sym all)
      ∙ ap (λ t. t * 2 + op (suc x % 2) (y % 2))
          (many_more (x - half) half half (y / 2) (omega arith))

pub or_digit : (x y : ℕ) → bit_or x y ≡ bit_or (x / 2) (y / 2) * 2 + max (x % 2) (y % 2)
or_digit zero y = simp bit_or-bitwise (omega arith)
or_digit (suc x) y = simp bit_or-bitwise (lowest_digit (λ b. b) max x y)

pub and_digit : (x y : ℕ) → bit_and x y ≡ bit_and (x / 2) (y / 2) * 2 + min (x % 2) (y % 2)
and_digit zero y = simp bit_and-bitwise (omega arith)
and_digit (suc x) y = simp bit_and-bitwise (lowest_digit (λ b. zero) min x y)

pub xor_digit : (x y : ℕ) → bit_xor x y ≡ bit_xor (x / 2) (y / 2) * 2 + differ (x % 2) (y % 2)
xor_digit zero y = simp bit_xor-bitwise (omega arith)
xor_digit (suc x) y = simp bit_xor-bitwise (lowest_digit (λ b. b) differ x y)

-- `n` bounds the number of halvings.
or_nothing : (n x : ℕ) → x ≤ n → bit_or x 0 ≡ x
or_nothing n zero le = refl
or_nothing zero (suc x) le = absurd (omega arith)
or_nothing (suc n) (suc x) le =
    let half : bit_or (suc x / 2) 0 ≡ suc x / 2 = or_nothing n (suc x / 2) (omega arith) in
    omega (arith, or_digit (suc x) 0)

and_nothing : (n x : ℕ) → x ≤ n → bit_and x 0 ≡ 0
and_nothing n zero le = refl
and_nothing zero (suc x) le = absurd (omega arith)
and_nothing (suc n) (suc x) le =
    let half : bit_and (suc x / 2) 0 ≡ 0 = and_nothing n (suc x / 2) (omega arith) in
    omega (arith, and_digit (suc x) 0)

pub bit_or-zero : (x : ℕ) → bit_or x 0 ≡ x
bit_or-zero x = or_nothing x x (omega arith)

pub bit_and-zero : (x : ℕ) → bit_and x 0 ≡ 0
bit_and-zero x = and_nothing x x (omega arith)

or_even : (x r y : ℕ) → bit_or x (r / 2) ≡ y → bit_or (2 * x) r ≡ 2 * y + r % 2
or_even x r y h =
    let e : 2 * x / 2 ≡ x = omega arith in
    let e' : 2 * x % 2 ≡ 0 = omega arith in or_digit (2 * x) r ∙ rw (e, e') (omega (arith, h))

and_odd : (x p y : ℕ) → 1 ≤ p → bit_and (x / 2) (p - 1) ≡ y → bit_and x (2 * p - 1) ≡ 2 * y + x % 2
and_odd x p y pos h =
    let e : (2 * p - 1) / 2 ≡ p - 1 = omega arith in
    let e' : (2 * p - 1) % 2 ≡ 1 = omega arith in
    and_digit x (2 * p - 1) ∙ rw (e, e') (omega (arith, h))

-- The low digits of a number are those of its half and its last one.
mod-double : (p x : ℕ) → 1 ≤ p → 2 * (x / 2 % p) + x % 2 ≡ x % (2 * p)
mod-double p x pos =
    let whole : x / 2 / p * p + x / 2 % p ≡ x / 2 = div-add-mod' (x / 2) p in
    let small : x / 2 % p < p = mod-lt (x / 2) pos in
    let split : 2 * (x / 2 % p) + x % 2 + x / 2 / p * (2 * p) ≡ x = omega (arith, whole) in
    sym (mod-eq_of_lt (omega arith))
    ∙ sym (add-mul-mod_self_right (2 * (x / 2 % p) + x % 2) (x / 2 / p) (2 * p))
    ∙ ap (λ t. t % (2 * p)) split

-- A number below `2 ^ k` fills the low `k` bits of a multiple of `2 ^ k`.
pub or_low_bits : (r q k : ℕ) → r < 2 ^ k → bit_or (q * 2 ^ k) r ≡ q * 2 ^ k + r
or_low_bits r q zero fit =
    let e : q * 2 ^ 0 ≡ q = omega arith in
    let e' : r ≡ 0 = omega arith in rw (e, e', bit_or-zero) (omega arith)
or_low_bits r q (suc k) fit =
    let twice : q * 2 ^ suc k ≡ 2 * (q * 2 ^ k) =
      omega (arith, ap (λ (t : ℕ). q * t) (pow-suc 2 k)) in
    let halves : bit_or (q * 2 ^ k) (r / 2) ≡ q * 2 ^ k + r / 2 =
      or_low_bits (r / 2) q k (omega (arith, pow-suc 2 k)) in
    rw twice (or_even (q * 2 ^ k) r (q * 2 ^ k + r / 2) halves ∙ omega arith)

pub and_low_mask : (k x : ℕ) → bit_and x (2 ^ k - 1) ≡ x % 2 ^ k
and_low_mask zero x = bit_and-zero x ∙ omega arith
and_low_mask (suc k) x =
    let twice : 2 ^ suc k ≡ 2 * 2 ^ k = omega (arith, pow-suc 2 k) in
    let pos : 1 ≤ 2 ^ k = one-le-pow k 2 (omega arith) in
    rw twice (and_odd x (2 ^ k) _ pos (and_low_mask k (x / 2)) ∙ mod-double (2 ^ k) x pos)

or_sides : (n x y : ℕ) → x ≤ n → bit_or x y ≡ bit_or y x
or_sides n zero y le = bit_or-bitwise 0 y ∙ sym (bit_or-zero y)
or_sides zero (suc x) y le = absurd (omega arith)
or_sides (suc n) (suc x) y le =
    let half : bit_or (suc x / 2) (y / 2) ≡ bit_or (y / 2) (suc x / 2) =
      or_sides n (suc x / 2) (y / 2) (omega arith) in
    omega (arith, or_digit (suc x) y, or_digit y (suc x))

pub bit_or_comm : (x y : ℕ) → bit_or x y ≡ bit_or y x
bit_or_comm x y = or_sides x x y (omega arith)

pub two_pow_pos : (k : ℕ) → 1 ≤ 2 ^ k
two_pow_pos k = one-le-pow k 2 (omega arith)

pub two_pow_add : (j k : ℕ) → 2 ^ (j + k) ≡ 2 ^ j * 2 ^ k
two_pow_add j zero = let e : j + 0 ≡ j = omega arith in rw e (omega arith)
two_pow_add j (suc k) =
    let e : j + suc k ≡ suc (j + k) = omega arith in
    rw e
      (omega (arith, pow-suc 2 (j + k), two_pow_add j k, ap (λ (t : ℕ). 2 ^ j * t) (pow-suc 2 k)))

-- `2 ^ k` and its complement in `2 ^ n`.
pub two_pow_split : (n k : ℕ) → k ≤ n → 2 ^ (n - k) * 2 ^ k ≡ 2 ^ n
two_pow_split n k le =
    let e : n - k + k ≡ n = omega arith in sym (two_pow_add (n - k) k) ∙ ap (λ (t : ℕ). 2 ^ t) e

-- An operation on the digits works on fields of `k` digits by themselves.
module _ (op last : ℕ → ℕ → ℕ) (nothing : op 0 0 ≡ 0)
    (digit : (x y : ℕ) → op x y ≡ op (x / 2) (y / 2) * 2 + last (x % 2) (y % 2)) where
  pub fields :
      (k q r s t : ℕ)
      → r < 2 ^ k
      → t < 2 ^ k
      → op (q * 2 ^ k + r) (s * 2 ^ k + t) ≡ op q s * 2 ^ k + op r t
  fields zero q r s t fit fit' =
      let e : q * 2 ^ 0 + r ≡ q = omega arith in
      let e' : s * 2 ^ 0 + t ≡ s = omega arith in
      let r0 : r ≡ 0 = omega arith in
      let t0 : t ≡ 0 = omega arith in rw (e, e', r0, t0, nothing) (omega arith)
  fields (suc k) q r s t fit fit' =
      let p = pow-suc 2 k in
      let twice : q * 2 ^ suc k ≡ 2 * (q * 2 ^ k) = omega (arith, ap (λ (x : ℕ). q * x) p) in
      let twice' : s * 2 ^ suc k ≡ 2 * (s * 2 ^ k) = omega (arith, ap (λ (x : ℕ). s * x) p) in
      let both : op q s * 2 ^ suc k ≡ 2 * (op q s * 2 ^ k) =
        omega (arith, ap (λ (x : ℕ). op q s * x) p) in
      let e : (q * 2 ^ suc k + r) / 2 ≡ q * 2 ^ k + r / 2 = omega (arith, twice) in
      let e' : (s * 2 ^ suc k + t) / 2 ≡ s * 2 ^ k + t / 2 = omega (arith, twice') in
      let f : (q * 2 ^ suc k + r) % 2 ≡ r % 2 = omega (arith, twice) in
      let f' : (s * 2 ^ suc k + t) % 2 ≡ t % 2 = omega (arith, twice') in
      let rest = fields k q (r / 2) s (t / 2) (omega (arith, p)) (omega (arith, p)) in
      digit (q * 2 ^ suc k + r) (s * 2 ^ suc k + t)
      ∙ rw (e, e', f, f', rest) (omega (arith, both, digit r t))
