-- ===== src/Xalloc/Span.antt =====
-- `xspanalloc`: rounding by masks, and where the aligned block lies.
use plan9_ocaml.Xalloc.{Xalloc, done, mask_down, align_up, span_trim, xspanalloc, xalloc}
use plan9_ocaml.Prelude.Bits.{and_low_mask, and_digit}
use native.Mathlib.Nat.{
  pow-suc, one-le-pow, div-div-eq-div-mul, div-mul-le_self, pow-le-pow_right, div-lt_iff_lt-mul,
}
use Prim.Native.Nat.{bit_and}
use Prim.Native.Nat.{min}
use native.Mathlib.Nat.{mod-eq_of_lt, div-add-mod', mod-lt, mul-mod_left}
use native.Mathlib.Nat.{suc-mul, add-mul, div-eq_of_lt-le}
use plan9_ocaml.Prelude.{
  sym, ◌∙◌, inl, inr, true, ℕ, zero, suc, ◌+◌, ◌-◌, ◌*◌, ◌/◌, ◌%◌, ◌^◌, ◌≤◌, ◌<◌, ◌≡◌, refl, arith,
  ap, u32_mod, some, add32, add32_small, Bool-cases, ltb, lt→ltb,
}

pow-add : (j k : ℕ) → 2 ^ (j + k) ≡ 2 ^ j * 2 ^ k
pow-add j zero = let e : j + 0 ≡ j = omega arith in rw e (omega arith)
pow-add j (suc k) =
    let e : j + suc k ≡ suc (j + k) = omega arith in
    rw e (omega (arith, pow-suc 2 (j + k), pow-add j k, ap (λ (t : ℕ). 2 ^ j * t) (pow-suc 2 k)))

-- A mask with `k` low zeros.
bit_and_high : (k a m : ℕ) → bit_and a (m * 2 ^ k) ≡ bit_and (a / 2 ^ k) m * 2 ^ k
bit_and_high zero a m =
    let e : m * 2 ^ 0 ≡ m = omega arith in
    let e' : a / 2 ^ 0 ≡ a = omega arith in rw (e, e') (omega arith)
bit_and_high (suc k) a m =
    let e : m * 2 ^ suc k ≡ m * 2 ^ k * 2 = omega (arith, ap (λ (t : ℕ). m * t) (pow-suc 2 k)) in
    let d : a / 2 / 2 ^ k ≡ a / 2 ^ suc k =
      div-div-eq-div-mul a 2 (2 ^ k) ∙ ap (λ t. a / t) (omega (arith, pow-suc 2 k)) in
    let ih : bit_and (a / 2) (m * 2 ^ k) ≡ bit_and (a / 2 ^ suc k) m * 2 ^ k =
      bit_and_high k (a / 2) m ∙ ap (λ t. bit_and t m * 2 ^ k) d in
    rw e (
      and_digit a (m * 2 ^ k * 2)
      ∙ halves (m * 2 ^ k)
      ∙ omega (arith, ih, ap (λ (t : ℕ). bit_and (a / 2 ^ suc k) m * t) (pow-suc 2 k)))
  where
    halves :
        (t : ℕ) → bit_and (a / 2) (t * 2 / 2) * 2 + min (a % 2) (t * 2 % 2) ≡ bit_and (a / 2) t * 2
    halves t =
        let e₁ : t * 2 / 2 ≡ t = omega arith in
        let e₂ : t * 2 % 2 ≡ 0 = omega arith in rw (e₁, e₂) (omega arith)

high_mask : (p q : ℕ) → 1 ≤ p → 1 ≤ q → q * p ≡ 2 ^ 32 → u32_mod - 1 - (p - 1) ≡ (q - 1) * p
high_mask p zero hp hq e = absurd (omega arith)
high_mask p (suc q) hp hq e =
    let d : suc q * p ≡ q * p + p = suc-mul q p in
    let e₁ : suc q - 1 ≡ q = omega arith in rw e₁ (omega (arith, d, e))

two_pow_pos : (k : ℕ) → 1 ≤ 2 ^ k
two_pow_pos k = one-le-pow k 2 (omega arith)

-- Rounding down to a multiple of a power of two.
pub mask_down-eq : (k x : ℕ) → k ≤ 32 → x < u32_mod → mask_down x (2 ^ k) ≡ x / 2 ^ k * 2 ^ k
unfolding mask_down
mask_down-eq k x le lt =
    let sum : 32 - k + k ≡ 32 = omega arith in
    let word : 2 ^ (32 - k) * 2 ^ k ≡ 2 ^ 32 =
      sym (pow-add (32 - k) k) ∙ ap (λ (t : ℕ). 2 ^ t) sum in
    let mask : u32_mod - 1 - (2 ^ k - 1) ≡ (2 ^ (32 - k) - 1) * 2 ^ k =
      high_mask (2 ^ k) (2 ^ (32 - k)) (two_pow_pos k) (two_pow_pos (32 - k)) word in
    let small : x / 2 ^ k < 2 ^ (32 - k) =
      (div-lt_iff_lt-mul (two_pow_pos k)).1 (omega (arith, word)) in
    rw mask (
      bit_and_high k x (2 ^ (32 - k) - 1)
      ∙ ap (λ t. t * 2 ^ k) (and_low_mask (32 - k) (x / 2 ^ k) ∙ mod-eq_of_lt small))

module _ (k x : ℕ) (le : k ≤ 32) (lt : x < u32_mod) where
  mask_down_bounds :
      (mask_down x (2 ^ k) ≤ x)
      × (x < mask_down x (2 ^ k) + 2 ^ k)
      × (mask_down x (2 ^ k) % 2 ^ k ≡ 0)
  mask_down_bounds = rw (mask_down-eq k x le lt) (
    div-mul-le_self x (2 ^ k),
    omega (arith, div-add-mod' x (2 ^ k), mod-lt x (two_pow_pos k)),
    mul-mod_left (x / 2 ^ k) (2 ^ k),
  )

-- The block at `v` stands in the block that `xalloc` gave at `a`, at a multiple of `align`; and if
-- `size + align` is at most `span` then no multiple of `span` lies inside it.
pub record IsSpanned (size align span a v : ℕ) : Type 0 where
  pub low : a ≤ v
  pub high : v + size ≤ a + size + align + span
  pub aligned : v % align ≡ 0
  pub one_span : 0 < size → size + align ≤ span → v / span ≡ (v + size - 1) / span

-- Two numbers between the same multiples have one quotient.
one_quotient :
    (d v x y : ℕ) → 0 < d → v % d ≡ 0 → v ≤ x → x < v + d → v ≤ y → y < v + d → x / d ≡ y / d
one_quotient d v x y pos z lx hx ly hy = at x lx hx ∙ sym (at y ly hy)
  where
    whole : v / d * d ≡ v
    whole = omega (arith, div-add-mod' v d)

    at : (w : ℕ) → v ≤ w → w < v + d → w / d ≡ v / d
    at w lo hi =
        let next : (v / d + 1) * d ≡ v / d * d + d = add-mul (v / d) 1 d ∙ omega arith in
        div-eq_of_lt-le d (omega (arith, whole)) (omega (arith, whole, next))

module _ (size j k a : ℕ) (hj : j ≤ 31) (hk : k ≤ 31)
    (fits : a + size + 2 ^ j + 2 ^ k < u32_mod) where
  trimmed : ℕ
  trimmed = mask_down (add32 a (2 ^ k)) (2 ^ k)

  trimmed_bounds : (a ≤ trimmed) × (trimmed ≤ a + 2 ^ k) × (trimmed % 2 ^ k ≡ 0)
  unfolding trimmed
  trimmed_bounds = rw (add32_small a (2 ^ k) (omega arith)) (
      let (le, lt, z) = mask_down_bounds k (a + 2 ^ k) (omega arith) (omega arith) in
      (omega arith, omega arith, z))

  aligned_bounds :
      (trimmed ≤ align_up (2 ^ j) trimmed)
      × (align_up (2 ^ j) trimmed ≤ trimmed + 2 ^ j)
      × (align_up (2 ^ j) trimmed % 2 ^ j ≡ 0)
  unfolding align_up
  aligned_bounds = elim (Bool-cases (ltb 1 (2 ^ j))) [
    | inl more ↦
        rw (more, add32_small trimmed (2 ^ j) (omega (arith, trimmed_bounds)))
          (let (le, lt, z) =
              mask_down_bounds j (trimmed + 2 ^ j) (omega arith) (omega (arith, trimmed_bounds)) in
            (omega arith, omega arith, z))
    | inr unit ↦
        let e : 2 ^ j ≡ 1 = ground (arith, two_pow_pos j) in
        rw unit (omega arith, omega arith, let z : trimmed % 2 ^ j ≡ 0 = rw e (omega arith) in z)
  ]

-- With `align` and `span` powers of two below 2 ^ 32, `span` at least 4, and a block at `a` from
-- `xalloc` that does not wrap, `xspanalloc` returns an address at a multiple of `align` with `size`
-- bytes inside the block, which cross no multiple of `span` if `size + align` is at most `span`.
pub xspanalloc-IsSpanned :
    (size j k : ℕ) (s t : Xalloc) (a : ℕ)
    → j ≤ 31
    → 2 ≤ k
    → k ≤ 31
    → a + size + 2 ^ j + 2 ^ k < u32_mod
    → xalloc (size + 2 ^ j + 2 ^ k) s ≡ (some a, t)
    → (v : ℕ) × (s' : Xalloc) × (xspanalloc size (2 ^ j) (2 ^ k) s ≡ done (v, s'))
      × IsSpanned size (2 ^ j) (2 ^ k) a v
unfolding xspanalloc trimmed
xspanalloc-IsSpanned size j k s t a hj hk hk' fits e =
    let (lo, hi, z) = trimmed_bounds size j k a hj hk' fits in
    let (lo', hi', z') = aligned_bounds size j k a hj hk' fits in
    let v₁ = trimmed size j k a hj hk' fits in
    let v = align_up (2 ^ j) v₁ in
    let two_lt : ltb 2 (2 ^ k) ≡ true =
      lt→ltb 2 (2 ^ k) (omega (arith, pow-le-pow_right {n = 2} (omega arith) hk)) in
    (
      v,
      (span_trim size (2 ^ j) (2 ^ k) a t).1,
      rw
          (
            add32_small size (2 ^ j) (omega arith),
            add32_small (size + 2 ^ j) (2 ^ k) (omega arith),
            e,
            two_lt,
          )
          refl,
      record {
        low = omega arith;
        high = omega arith;
        aligned = z';
        one_span = λ pos fit.
            one_quotient (2 ^ k) v₁ v (v + size - 1) (two_pow_pos k) z lo' (omega arith)
              (omega arith) (omega arith);
      },
    )
