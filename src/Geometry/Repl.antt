-- ===== src/Geometry/Repl.antt =====
-- The coordinate of a replicated image.
use native.Mathlib.Nat.{mod-lt, mod_self, zero-mod}
use plan9_ocaml.Prelude.{
  ℕ, ◌<◌, ◌^◌, ◌+◌, ◌≤◌, sub32, ◌≡◌, ◌-◌, add32, arith, ◌%◌, if◌then◌else◌, refl, ap, Bool-cases,
  ◌==◌, leb, inl, inr, leb→le, sym, ◌∙◌,
}
use plan9_ocaml.Geometry.{drawreplxy, bias, rem, magnitude, ℕ, sub32, add32, is_neg, leb}

-- The numbers that the two patterns of a distance give.
distance_up :
    (m x : ℕ)
    → m < 2 ^ 32
    → x < 2 ^ 32
    → bias m ≤ bias x
    → bias x < bias m + 2 ^ 31
    → sub32 x m ≡ bias x - bias m
unfolding bias
distance_up m x h k l b = omega arith

distance_down :
    (m x : ℕ)
    → m < 2 ^ 32
    → x < 2 ^ 32
    → bias x < bias m
    → bias m ≤ bias x + 2 ^ 31
    → sub32 x m ≡ 2 ^ 32 - (bias m - bias x)
unfolding bias
distance_down m x h k l b = omega arith

rem_up : (a w : ℕ) → a < 2 ^ 31 → w < 2 ^ 31 → rem a w ≡ a % w
unfolding rem magnitude
rem_up a w h k = ground arith

rem_down : (a w : ℕ) → 0 < a → a ≤ 2 ^ 31 → w < 2 ^ 31 → rem (2 ^ 32 - a) w ≡ sub32 0 (a % w)
unfolding rem magnitude
rem_down a w p h k =
    let e : magnitude (2 ^ 32 - a) ≡ a = ground arith in
    let e' : magnitude w ≡ w = ground arith in ground arith

shifted : (m k : ℕ) → m < 2 ^ 32 → k < 2 ^ 32 → bias m + k < 2 ^ 32 → bias (add32 k m) ≡ bias m + k
unfolding bias
shifted m k h l b = omega arith

-- The last lines of the source, on the two forms of the remainder.
settled_up : (k w : ℕ) → k < w → w < 2 ^ 31 → (if is_neg k then add32 k w else k) ≡ k
settled_up k w h l = ground arith

settled_down :
    (k w : ℕ)
    → 0 < k
    → k < w
    → w < 2 ^ 31
    → (if is_neg (sub32 0 k) then add32 (sub32 0 k) w else sub32 0 k) ≡ w - k
settled_down k w p h l = ground arith

settled_zero : (w : ℕ) → (if is_neg (sub32 0 0) then add32 (sub32 0 0) w else sub32 0 0) ≡ 0
settled_zero w = refl

settle : (d w m : ℕ) → ℕ
settle d w m = add32 (if is_neg (rem d w) then add32 (rem d w) w else rem d w) m

settle_up : (d w m : ℕ) → d < 2 ^ 31 → 0 < w → w < 2 ^ 31 → settle d w m ≡ add32 (d % w) m
unfolding settle
settle_up d w m h p k =
    rw (rem_up d w h k) (ap (λ (y : ℕ). add32 y m) (settled_up (d % w) w (mod-lt d p) k))

settle_down :
    (d w m : ℕ)
    → 0 < d
    → d ≤ 2 ^ 31
    → 0 < w
    → w < 2 ^ 31
    → settle (2 ^ 32 - d) w m ≡ add32 (if 0 == d % w then 0 else w - d % w) m
unfolding settle
settle_down d w m q h p k = rw (rem_down d w q h k) (elim (Bool-cases (0 == d % w)) [
  | inl e ↦ let z : d % w ≡ 0 = ground arith in rw (z) (ap (λ (y : ℕ). add32 y m) (settled_zero w))
  | inr e ↦
      let nz : 0 < d % w = ground arith in
      rw (e) (ap (λ (y : ℕ). add32 y m) (settled_down (d % w) w nz (mod-lt d p) k))
])

bias_lt : (x : ℕ) → bias x < 2 ^ 32
unfolding bias
bias_lt x = omega arith

placed : (m w r : ℕ) → 0 < w → (m + (if 0 == r then 0 else w - r) - m) % w ≡ (w - r) % w
placed m w r p = elim (Bool-cases (0 == r)) [
  | inl e ↦
      let z : r ≡ 0 = ground arith in
      let back : m + 0 - m ≡ 0 = omega arith in
      let whole : w - 0 ≡ w = omega arith in rw (e, z, back, whole) (zero-mod w ∙ sym (mod_self w))
  | inr e ↦ let back : m + (w - r) - m ≡ w - r = omega arith in rw (e, back) refl
]

-- What a coordinate `r` of the image is to `x`, when the image starts at `m` and is `w` wide: at the
-- place in the image that `x` has, counted up or down from `m`.
pub Replicated : (m w x r : ℕ) → Type 0
Replicated m w x r =
    (m ≤ r)
    × (r < m + w)
    × (m ≤ x → r - m ≡ (x - m) % w)
    × (x < m → (r - m) % w ≡ (w - (m - x) % w) % w)

-- For 32-bit words with `min` below `max` and both distances, from `min` to `max` and to `x`, those
-- of the numbers: the result is in the range, at the place that `x` has modulo the width.
pub drawreplxy-Replicated :
    (min max x : ℕ)
    → min < 2 ^ 32
    → max < 2 ^ 32
    → x < 2 ^ 32
    → bias min < bias max
    → bias max < bias min + 2 ^ 31
    → bias x < bias min + 2 ^ 31
    → bias min ≤ bias x + 2 ^ 31
    → Replicated (bias min) (bias max - bias min) (bias x) (bias (drawreplxy min max x))
unfolding drawreplxy Replicated settle
drawreplxy-Replicated min max x hm hM hx lt a b c =
    let w = bias max - bias min in
    let w_pos : 0 < w = omega arith in
    let ew : sub32 max min ≡ w = distance_up min max hm hM (omega (arith, bias_lt)) a in
    elim (Bool-cases (leb (bias min) (bias x))) [
      | inl t ↦
          let h : bias min ≤ bias x = leb→le (bias min) (bias x) t in
          let d = bias x - bias min in
          let k_lt : d % w < w = mod-lt d w_pos in
          let e : drawreplxy min max x ≡ add32 (d % w) min =
            rw (distance_up min x hm hx h b, ew)
              (settle_up d w min (omega (arith, bias_lt)) w_pos (omega (arith, bias_lt))) in
          let e' = shifted min (d % w) hm (omega (arith, bias_lt)) (omega (arith, bias_lt)) in
          rw (e, e') (omega arith, omega arith, λ _. omega arith, λ l. omega arith)
      | inr t ↦
          let h : bias x < bias min = ground arith in
          let d = bias min - bias x in
          let k_lt : d % w < w = mod-lt d w_pos in
          let k = if 0 == d % w then 0 else w - d % w in
          let e : drawreplxy min max x ≡ add32 k min =
            rw (distance_down min x hm hx h c, ew)
              (settle_down d w min (omega (arith, bias_lt)) (omega (arith, bias_lt)) w_pos
                (omega (arith, bias_lt))) in
          let e' : bias (add32 k min) ≡ bias min + k =
            shifted min k hm (ground (arith, bias_lt min, bias_lt max, bias_lt x))
              (ground (arith, bias_lt min, bias_lt max, bias_lt x)) in
          rw (e, e')
            (ground arith, ground arith, λ l. omega arith, λ l. placed (bias min) w (d % w) w_pos)
    ]
