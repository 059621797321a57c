-- ===== src/Qsort/Partition.antt =====
-- A round of quicksort: the elements up to `pj` are no greater than that of `pj`, and the rest are no
-- less.
use mathlib.Core.Logic.{Lift}
use mathlib.Core.Option as Option
use plan9_ocaml.Prelude.{
  ℕ, none, some, zero, suc, true, false, ◌≡◌, ◌≤◌, ◌<◌, ◌+◌, Option, ◌⊎◌, inl, inr, Bool-cases, ltb,
  ◌==◌, arith, sym, ◌∙◌, ◌-◌, leb, if◌then◌else◌, ◌/◌,
}
use plan9_ocaml.Qsort.{
  Comparison, is_negative, is_positive, swap, pivot, scan_up, scan_down, part, qsorts_round,
}
use plan9_ocaml.Qsort.Shuffle.{
  IsShuffle, IsShuffle-refl, IsShuffle-trans, swap-IsShuffle, swap-left, swap-right, swap-other,
}

-- `cmp` is a total order of the elements, in which different ones may be equal.
pub record IsOrder {ℓ} {A : Type ℓ} (cmp : A → A → Comparison) : Type ℓ where
  pub flip : (x y : A) → is_positive (cmp x y) ≡ is_negative (cmp y x)
  pub trans :
      (x y z : A)
      → is_positive (cmp x y) ≡ false
      → is_positive (cmp y z) ≡ false
      → is_positive (cmp x z) ≡ false

module _ {ℓ} {A : Type ℓ} (cmp : A → A → Comparison) (o : IsOrder cmp) where
  -- `x` is no greater than `y`.
  abbrev pub Le : A → A → Type 0
  Le x y = is_positive (cmp x y) ≡ false

  negative-Le : (x y : A) → is_negative (cmp x y) ≡ true → Le x y
  negative-Le x y h = apart (cmp x y) h
    where
      apart : (s : Comparison) → is_negative s ≡ true → is_positive s ≡ false
      apart s k = ground arith

  positive-Le : (x y : A) → is_positive (cmp x y) ≡ true → Le y x
  positive-Le x y h = negative-Le y x (sym (o.flip x y) ∙ h)

  not_negative-Le : (x y : A) → is_negative (cmp x y) ≡ false → Le y x
  not_negative-Le x y h = o.flip y x ∙ h

  refl-Le : (x : A) → Le x x
  refl-Le x = elim (Bool-cases (is_positive (cmp x x))) [ inl e ↦ positive-Le x x e | inr e ↦ e ]

  -- Where a scan upward from `pi` stops.
  record StopsUp (m : ℕ → A) (a pn pi q : ℕ) : Type 0 where
    later : pi < q
    inside : q ≤ pn
    passed : (k : ℕ) → pi < k → k < q → Le (m k) (m a)
    stop : (q ≡ pn) ⊎ Le (m a) (m q)

  scan_up-StopsUp :
      (fuel : ℕ) (m : ℕ → A) (a pn pi : ℕ)
      → pn ≡ pi + fuel
      → pi < pn
      → StopsUp m a pn pi (scan_up cmp fuel m a pn pi)
  unfolding scan_up
  scan_up-StopsUp zero m a pn pi e h = absurd (omega arith)
  scan_up-StopsUp (suc k) m a pn pi e h = elim (Bool-cases (ltb (pi + 1) pn)) [
    | inl t ↦ elim (Bool-cases (is_negative (cmp (m (pi + 1)) (m a)))) [
      | inl u ↦
          let r = scan_up-StopsUp k m a pn (pi + 1) (omega arith) (ground arith) in
          rw (t, u)
            (record {
              later = omega (arith, r.later);
              inside = r.inside;
              passed = λ j b c. at_or_after r j b c u;
              stop = r.stop;
            })
      | inr u ↦ rw (t, u) (just (inr (not_negative-Le (m (pi + 1)) (m a) u)))
    ]
    | inr t ↦ rw t (just (inl (ground arith)))
  ]
    where
      just : ((pi + 1 ≡ pn) ⊎ Le (m a) (m (pi + 1))) → StopsUp m a pn pi (pi + 1)
      just s = record {
        later = omega arith;
        inside = omega arith;
        passed = λ j b c. absurd (omega arith);
        stop = s;
      }

      at_or_after :
          {q : ℕ}
          → StopsUp m a pn (pi + 1) q
          → (j : ℕ) → pi < j
          → j < q
          → is_negative (cmp (m (pi + 1)) (m a)) ≡ true
          → Le (m j) (m a)
      at_or_after r j b c u = elim (Bool-cases (j == pi + 1)) [
        | inl e ↦ let same : j ≡ pi + 1 = ground arith in rw same (negative-Le (m (pi + 1)) (m a) u)
        | inr e ↦ r.passed j (ground arith) c
      ]

  -- Where a scan downward from `pj` stops.
  record StopsDown (m : ℕ → A) (a pj q : ℕ) : Type 0 where
    earlier : q < pj
    inside : a ≤ q
    passed : (k : ℕ) → q < k → k < pj → Le (m a) (m k)
    stop : (q ≡ a) ⊎ Le (m q) (m a)

  scan_down-StopsDown :
      (fuel : ℕ) (m : ℕ → A) (a pj : ℕ)
      → pj ≡ a + fuel
      → a < pj
      → StopsDown m a pj (scan_down cmp fuel m a pj)
  unfolding scan_down
  scan_down-StopsDown zero m a pj e h = absurd (omega arith)
  scan_down-StopsDown (suc k) m a pj e h = elim (Bool-cases (ltb a (pj - 1))) [
    | inl t ↦ elim (Bool-cases (is_positive (cmp (m (pj - 1)) (m a)))) [
      | inl u ↦
          let r = scan_down-StopsDown k m a (pj - 1) (omega arith) (ground arith) in
          rw (t, u)
            (record {
              earlier = omega (arith, r.earlier);
              inside = r.inside;
              passed = λ j b c. at_or_before r j b c u;
              stop = r.stop;
            })
      | inr u ↦ rw (t, u) (just (inr u))
    ]
    | inr t ↦ rw t (just (inl (ground arith)))
  ]
    where
      just : ((pj - 1 ≡ a) ⊎ Le (m (pj - 1)) (m a)) → StopsDown m a pj (pj - 1)
      just s = record {
        earlier = omega arith;
        inside = omega arith;
        passed = λ j b c. absurd (omega arith);
        stop = s;
      }

      at_or_before :
          {q : ℕ}
          → StopsDown m a (pj - 1) q
          → (j : ℕ) → q < j
          → j < pj
          → is_positive (cmp (m (pj - 1)) (m a)) ≡ true
          → Le (m a) (m j)
      at_or_before r j b c u = elim (Bool-cases (j == pj - 1)) [
        | inl e ↦ let same : j ≡ pj - 1 = ground arith in rw same (positive-Le (m (pj - 1)) (m a) u)
        | inr e ↦ r.passed j b (ground arith)
      ]

  -- The elements up to `j` are no greater than the first one, and the rest no less.
  pub record IsParted (m : ℕ → A) (a n j : ℕ) : Type 0 where
    pub from : a ≤ j
    pub to : j < a + n
    pub low : (k : ℕ) → a < k → k ≤ j → Le (m k) (m a)
    pub high : (k : ℕ) → j < k → k < a + n → Le (m a) (m k)

  unfoldable pub Parts : (m : ℕ → A) (a n : ℕ) → Option ((ℕ → A) × ℕ) → Type ℓ
  Parts m a n none = Lift {0, ℓ} ⊥
  Parts m a n (some (m', j)) = IsShuffle a n m m' × IsParted m' a n j

  Parts-after :
      (m m' : ℕ → A) (a n : ℕ) (x : Option ((ℕ → A) × ℕ))
      → IsShuffle a n m m'
      → Parts m' a n x
      → Parts m a n x
  unfolding Parts
  Parts-after m m' a n none s h = h
  Parts-after m m' a n (some (m'', j)) s (t, h) = (IsShuffle-trans a n m m' m'' s t, h)

  part-Parts :
      (fuel : ℕ) (m : ℕ → A) (a n pi pj : ℕ)
      → a + n ≤ pi + fuel
      → a ≤ pi
      → pi < a + n
      → a < pj
      → pj ≤ a + n
      → ((k : ℕ) → a < k → k ≤ pi → Le (m k) (m a))
      → ((k : ℕ) → pj ≤ k → k < a + n → Le (m a) (m k))
      → Parts m a n (part cmp fuel m a (a + n) pi pj)
  unfolding part Parts
  part-Parts zero m a n pi pj f b c d e low high = absurd (omega arith)
  part-Parts (suc k) m a n pi pj f b c d e low high = elim (Bool-cases (ltb q p)) [
    | inl t ↦ rw t (
      IsShuffle-refl a n m,
      record {
        from = down.inside;
        to = omega (arith, down.earlier);
        low = λ j x y. below j x (ground arith);
        high = λ j x y. beyond j x y;
      },
    )
    | inr t ↦
        let order : p ≤ q = ground arith in
        let first = swap-other p q a m (first_not_left order) (first_not_right order) in
        rw t (
          Parts-after m (swap p q m) a n (part cmp k (swap p q m) a (a + n) p q)
            (swap-IsShuffle a n p q m (omega (arith, up.later)) (omega (arith, down.earlier))
              (omega (arith, up.later)) (omega (arith, down.earlier)))
            (part-Parts k (swap p q m) a n p q (omega (arith, up.later)) (omega (arith, up.later))
              (omega (arith, down.earlier)) (omega (arith, up.later)) (omega (arith, down.earlier))
              (λ j x y. rw first (lower_part order j x y))
              (λ j x y. rw first (upper_part order j x y))))
  ]
    where
      p : ℕ
      p = scan_up cmp (a + n - pi) m a (a + n) pi

      q : ℕ
      q = scan_down cmp (pj - a) m a pj

      up : StopsUp m a (a + n) pi p
      up = scan_up-StopsUp (a + n - pi) m a (a + n) pi (omega arith) c

      down : StopsDown m a pj q
      down = scan_down-StopsDown (pj - a) m a pj (omega arith) d

      below : (j : ℕ) → a < j → j < p → Le (m j) (m a)
      below j x y = elim (Bool-cases (leb j pi)) [
        | inl t ↦ low j x (ground arith)
        | inr t ↦ up.passed j (ground arith) y
      ]

      beyond : (j : ℕ) → q < j → j < a + n → Le (m a) (m j)
      beyond j x y = elim (Bool-cases (leb pj j)) [
        | inl t ↦ high j (ground arith) y
        | inr t ↦ down.passed j x (ground arith)
      ]

      first_not_left : p ≤ q → (a == p) ≡ false
      first_not_left h = let l = up.later in ground arith

      first_not_right : p ≤ q → (a == q) ≡ false
      first_not_right h = let l = up.later in ground arith

      lower_part : p ≤ q → (j : ℕ) → a < j → j ≤ p → Le (swap p q m j) (m a)
      lower_part h j x y = elim (Bool-cases (j == p)) [
        | inl t ↦
            let same : j ≡ p = ground arith in
            rw (same, swap-left p q m)
              (elim down.stop [ inl z ↦ absurd (omega (arith, up.later)) | inr z ↦ z ])
        | inr t ↦
            let ne : (j == q) ≡ false = ground arith in
            rw (swap-other p q j m t ne) (below j x (ground arith))
      ]

      upper_part : p ≤ q → (j : ℕ) → q ≤ j → j < a + n → Le (m a) (swap p q m j)
      upper_part h j x y = elim (Bool-cases (j == q)) [
        | inl t ↦
            let same : j ≡ q = ground arith in
            rw (same, swap-right p q m)
              (elim up.stop [ inl z ↦ absurd (omega (arith, down.earlier)) | inr z ↦ z ])
        | inr t ↦
            let ne : (j == p) ≡ false = ground arith in
            rw (swap-other p q j m ne t) (beyond j (ground arith) y)
      ]

  -- The element at `j` is no less than those before it and no greater than those after it.
  pub record IsSplit (m : ℕ → A) (a n j : ℕ) : Type 0 where
    pub from : a ≤ j
    pub to : j < a + n
    pub low : (k : ℕ) → a ≤ k → k < j → Le (m k) (m j)
    pub high : (k : ℕ) → j < k → k < a + n → Le (m j) (m k)

  unfoldable pub Splits : (m : ℕ → A) (a n : ℕ) → Option ((ℕ → A) × ℕ) → Type ℓ
  Splits m a n none = Lift {0, ℓ} ⊥
  Splits m a n (some (m', j)) = IsShuffle a n m m' × IsSplit m' a n j

  swapped-Splits :
      (m : ℕ → A) (a n : ℕ) (x : Option ((ℕ → A) × ℕ))
      → Parts m a n x
      → Splits m a n (Option.map (λ (r : (ℕ → A) × ℕ). (swap a r.1 r.0, r.1)) x)
  unfolding Parts Splits
  swapped-Splits m a n none h = h
  swapped-Splits m a n (some (m', j)) (s, q) = (
    IsShuffle-trans a n m m' (swap a j m') s
        (swap-IsShuffle a n a j m' (omega arith) (omega (arith, q.from, q.to)) q.from q.to),
    record {
      from = q.from;
      to = q.to;
      low = λ k x y. rw (swap-right a j m') (elim (Bool-cases (k == a)) [
        | inl t ↦
            let same : k ≡ a = ground arith in
            rw (same, swap-left a j m') (q.low j (omega arith) (omega arith))
        | inr t ↦
            let ne : (k == j) ≡ false = ground arith in
            rw (swap-other a j k m' t ne) (q.low k (ground arith) (omega arith))
      ]);
      high = λ k x y.
          let from = q.from in
          let ne : (k == a) ≡ false = ground arith in
          let ne' : (k == j) ≡ false = ground arith in
          rw (swap-right a j m', swap-other a j k m' ne ne') (q.high k x y);
    },
  )

  pivot-range : (m : ℕ → A) (a n : ℕ) → 0 < n → (a ≤ pivot cmp m a n) × (pivot cmp m a n < a + n)
  unfolding pivot
  pivot-range m a n h = ground arith

  pub qsorts_round-Splits : (m : ℕ → A) (a n : ℕ) → 0 < n → Splits m a n (qsorts_round cmp m a n)
  unfolding qsorts_round
  qsorts_round-Splits m a n h =
      let (from, to) = chosen (Bool-cases (ltb 10 n)) in
      swapped-Splits m a n (part cmp n (swap a p m) a (a + n) a (a + n)) (
        Parts-after m (swap a p m) a n (part cmp n (swap a p m) a (a + n) a (a + n))
          (swap-IsShuffle a n a p m (omega arith) (omega arith) from to)
          (part-Parts n (swap a p m) a n a (a + n) (omega arith) (omega arith) (omega arith)
            (omega arith) (omega arith) (λ k x y. absurd (omega arith))
            (λ k x y. absurd (omega arith))))
    where
      p : ℕ
      p = if ltb 10 n then pivot cmp m a n else a + n / 2

      chosen : ((ltb 10 n ≡ true) ⊎ (ltb 10 n ≡ false)) → (a ≤ p) × (p < a + n)
      chosen (inl e) = rw e (pivot-range m a n h)
      chosen (inr e) = rw e (omega arith, omega arith)
