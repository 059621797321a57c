-- ===== src/Tod/Fract.antt =====
-- Fixed-point products: the middle of the product, and how close the conversions come.
use native.Mathlib.Nat.{div-add-mod', div-mul-le_self, div-le_self, mod-eq_of_lt, mul-le-mul_left}
use plan9_ocaml.Tod.{
  Tod, Clock, todinit, fastticks_of, mul64fract, tod_freq, micro_freq, todsetfreq, fastticks2us,
  ns2fastticks,
}
use plan9_ocaml.Prelude.{
  ℕ, ◌≡◌, ◌*◌, ◌<◌, ◌%◌, ◌^◌, arith, ◌+◌, ◌/◌, ◌∙◌, ◌≤◌, ap, sym, ap₂, suc, some, true, refl,
}

halves_product :
    (ah al bh bl : ℕ)
    → (ah * 2 ^ 32 + al) * (bh * 2 ^ 32 + bl)
      ≡ (ah * bh * 2 ^ 32 + al * bh + ah * bl) * 2 ^ 32 + al * bl
halves_product ah al bh bl = omega arith

-- The product of two halves fits a uvlong.
half_fits : (x y : ℕ) → x < 2 ^ 32 → y < 2 ^ 32 → x * y < 2 ^ 64
half_fits x y hx hy = grind arith

sum_mod :
    (p q r t : ℕ)
    → p < 2 ^ 64
    → (((p % 2 ^ 64 / 2 ^ 32 + q % 2 ^ 64) % 2 ^ 64 + r % 2 ^ 64) % 2 ^ 64
          + t % 2 ^ 64 * 2 ^ 32 % 2 ^ 64)
        % 2 ^ 64
      ≡ (t * 2 ^ 32 + q + r + p / 2 ^ 32) % 2 ^ 64
sum_mod p q r t h = omega arith

middle_of_sum : (x p : ℕ) → (x * 2 ^ 32 + p) / 2 ^ 32 ≡ x + p / 2 ^ 32
middle_of_sum x p = omega arith

-- For two 64-bit numbers, the sum of partial products is the product without its 32 lowest bits,
-- modulo 2 ^ 64.
pub mul64fract-eq : (a b : ℕ) → a < 2 ^ 64 → b < 2 ^ 64 → mul64fract a b ≡ a * b / 2 ^ 32 % 2 ^ 64
unfolding mul64fract
mul64fract-eq a b ha hb =
    let ah = a / 2 ^ 32 in
    let al = a % 2 ^ 32 in
    let bh = b / 2 ^ 32 in
    let bl = b % 2 ^ 32 in
    let ea : ah * 2 ^ 32 + al ≡ a = div-add-mod' a (2 ^ 32) in
    let eb : bh * 2 ^ 32 + bl ≡ b = div-add-mod' b (2 ^ 32) in
    let low : al * bl < 2 ^ 64 = half_fits al bl (omega arith) (omega arith) in
    sum_mod (al * bl) (al * bh) (ah * bl) (ah * bh) low
    ∙ ap (λ (t : ℕ). t % 2 ^ 64)
        (sym (middle_of_sum (ah * bh * 2 ^ 32 + al * bh + ah * bl) (al * bl))
          ∙ ap (λ (t : ℕ). t / 2 ^ 32)
              (sym (halves_product ah al bh bl) ∙ ap₂ (λ (x y : ℕ). x * y) ea eb))

times_le : (a b c : ℕ) → a ≤ b → a * c ≤ b * c
times_le a b c h = grind arith

-- A product with a factor that is too small, rounded down, is too small.
scaled_down : (x g f n r : ℕ) → g * f ≤ n * 2 ^ 32 → r * 2 ^ 32 ≤ x * g → r * f ≤ x * n
scaled_down x g f n r hg hr =
    omega (arith, times_le (r * 2 ^ 32) (x * g) f hr, times_le (g * f) (n * 2 ^ 32) x hg)

-- A product with a factor that is too large, rounded down, misses less than one unit.
scaled_up :
    (x g f n r : ℕ) → 0 < n → f * 2 ^ 32 < g * n → x * g < (r + 1) * 2 ^ 32 → x * f < (r + 1) * n
scaled_up x g f n r pos_n hg hr = omega (
  arith,
  times_le (suc (x * g)) ((r + 1) * 2 ^ 32) n hr,
  times_le (f * 2 ^ 32) (g * n) x (omega arith),
)

cancel_lt : (r f m : ℕ) → r * f < f * m → r < m
cancel_lt r f m h = grind arith

module _ (f x : ℕ) (s t : Tod) (pos_f : 0 < f) (small_f : f < 2 ^ 32)
    (set : todsetfreq f s ≡ some t) where
  set_fields : (t.umultiplier ≡ micro_freq * 2 ^ 32 / f) × (t.divider ≡ f * 2 ^ 32 / tod_freq + 1)
  unfolding todsetfreq
  set_fields = ground arith

  initialized : s.init ≡ true → t.init ≡ true
  unfolding todsetfreq
  initialized h = ground arith

  -- With a frequency below 2 ^ 32 that was set once initialized, and a number of ticks whose microseconds
  -- fit 64 bits, `fastticks2us` leaves the state as it is, and its microseconds are never ahead of the
  -- ticks.
  pub fastticks2us-le :
      (c : Clock)
      → s.init ≡ true
      → x < 2 ^ 64
      → x * micro_freq < f * 2 ^ 64
      → (r : ℕ) × (fastticks2us c t x ≡ some (r, t)) × (r * f ≤ x * micro_freq)
  unfolding fastticks2us todinit
  fastticks2us-le c started word fits =
      let g = t.umultiplier in
      let r = x * g / 2 ^ 32 in
      let factor : g * f ≤ micro_freq * 2 ^ 32 =
        rw set_fields.0 (div-mul-le_self (micro_freq * 2 ^ 32) f) in
      let g_fits : g < 2 ^ 64 = omega (arith, set_fields.0, div-le_self (micro_freq * 2 ^ 32) f) in
      let bound : r * f ≤ x * micro_freq =
        scaled_down x g f micro_freq r factor (div-mul-le_self (x * g) (2 ^ 32)) in
      let fits' : r < 2 ^ 64 = cancel_lt r f (2 ^ 64) (omega arith) in
      let eq : mul64fract x g ≡ r = mul64fract-eq x g word g_fits ∙ mod-eq_of_lt fits' in
      rw (initialized started) (mul64fract x g, refl, rw eq bound)

  -- With a frequency below 2 ^ 32 that was set once initialized, and a delay below 2 ^ 61 ns,
  -- `ns2fastticks` leaves the state as it is, and its ticks last at least as long as the delay, to within
  -- one tick.
  pub ns2fastticks-lt :
      (c : Clock)
      → s.init ≡ true
      → x < 2 ^ 61
      → (r : ℕ) × (ns2fastticks c t x ≡ some (r, t)) × (x * f < (r + 1) * tod_freq)
  unfolding ns2fastticks fastticks_of todinit
  ns2fastticks-lt c started word =
      let g = t.divider in
      let r = x * g / 2 ^ 32 in
      let factor : f * 2 ^ 32 < g * tod_freq = omega (arith, set_fields.1) in
      let g_fits : g ≤ 2 ^ 35 = omega (arith, set_fields.1) in
      let product : x * g ≤ x * 2 ^ 35 = mul-le-mul_left x g_fits in
      let next : x * g < (r + 1) * 2 ^ 32 = omega arith in
      let fits' : r < 2 ^ 64 = omega arith in
      let eq : mul64fract x g ≡ r =
        mul64fract-eq x g (omega arith) (omega arith) ∙ mod-eq_of_lt fits' in
      rw (initialized started)
        (mul64fract x g, refl, rw eq (scaled_up x g f tod_freq r (omega arith) factor next))
