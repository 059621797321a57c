-- ===== src/Qsort/Sorted.antt =====
-- `qsort` sorts.
use mathlib.Core.Logic.{Lift}
use plan9_ocaml.Prelude.{
  ℕ, none, some, zero, suc, Bool, true, false, ◌≡◌, ◌≤◌, ◌<◌, ◌+◌, Option, ◌⊎◌, inl, inr,
  Bool-cases, ltb, ◌==◌, arith, if◌then◌else◌, ◌-◌, ◌∙◌, refl,
}
use plan9_ocaml.Qsort.{Comparison, is_positive}
use plan9_ocaml.Qsort.Shuffle.{sum, sum-eq, sum-append, IsShuffle}
use plan9_ocaml.Qsort.Partition.{IsOrder, Le, IsSplit}

module _ {ℓ} {A : Type ℓ} where
  all_zero :
      (w : A → ℕ) (m : ℕ → A) (a n : ℕ)
      → ((k : ℕ) → a ≤ k → k < a + n → w (m k) ≡ 0)
      → sum w m a n ≡ 0
  all_zero w m a zero h = refl
  all_zero w m a (suc n) h =
      let rest = all_zero w m a n (λ k x y. h k x (omega arith)) in
      omega (arith, rest, h (a + n) (omega arith) (omega arith))

  zero_all :
      (w : A → ℕ) (m : ℕ → A) (a n : ℕ)
      → sum w m a n ≡ 0
      → (k : ℕ) → a ≤ k
      → k < a + n
      → w (m k) ≡ 0
  zero_all w m a zero e k x y = absurd (omega arith)
  zero_all w m a (suc n) e k x y = elim (Bool-cases (k == a + n)) [
    | inl t ↦ let same : k ≡ a + n = ground arith in rw same (omega arith)
    | inr t ↦ zero_all w m a n (omega arith) k x (ground arith)
  ]

  -- What every element of the range satisfies still holds of every one when they are shuffled.
  IsShuffle-all :
      (P : A → Bool) (a n : ℕ) (m m' : ℕ → A)
      → IsShuffle a n m m'
      → ((k : ℕ) → a ≤ k → k < a + n → P (m k) ≡ false)
      → (k : ℕ) → a ≤ k
      → k < a + n
      → P (m' k) ≡ false
  IsShuffle-all P a n m m' s h k x y =
      let w : A → ℕ = λ z. if P z then 1 else 0 in
      let before = all_zero w m a n (λ j u v. rw (h j u v) refl) in
      let after = zero_all w m' a n (s.weight w ∙ before) k x y in no_weight (P (m' k)) after
    where
      no_weight : (b : Bool) → ◌≡◌ {A = ℕ} (if b then 1 else 0) 0 → b ≡ false
      no_weight b e = ground arith

  IsShuffle-wider :
      (a x n y : ℕ) (m m' : ℕ → A) → IsShuffle (a + x) n m m' → IsShuffle a (x + (n + y)) m m'
  IsShuffle-wider a x n y m m' s = record {
    below = λ k h. s.below k (omega arith);
    above = λ k h. s.above k (omega arith);
    weight = λ w.
        let same = sum-eq w m m' a x (λ k u v. s.below k v) in
        let same' = sum-eq w m m' (a + x + n) y (λ k u v. s.above k u) in
        omega (
          arith,
          s.weight w,
          same,
          same',
          sum-append w m a x (n + y),
          sum-append w m' a x (n + y),
          sum-append w m (a + x) n y,
          sum-append w m' (a + x) n y,
        );
  }

module _ {ℓ} {A : Type ℓ} (cmp : A → A → Comparison) (o : IsOrder cmp) where
  -- No element comes before one that is less.
  unfoldable pub IsSorted : (m : ℕ → A) (a n : ℕ) → Type 0
  IsSorted m a n = (i k : ℕ) → a ≤ i → i < k → k < a + n → Le cmp o (m i) (m k)

  -- The outcome of sorting: there is one, the elements are sorted, and they are those of before.
  unfoldable pub Sorts : (m : ℕ → A) (a n : ℕ) → Option (ℕ → A) → Type ℓ
  Sorts m a n none = Lift {0, ℓ} ⊥
  Sorts m a n (some m') = IsShuffle a n m m' × IsSorted m' a n

  pub IsSorted-eq :
      (m m' : ℕ → A) (a n : ℕ)
      → ((k : ℕ) → a ≤ k → k < a + n → m' k ≡ m k)
      → IsSorted m a n
      → IsSorted m' a n
  unfolding IsSorted
  IsSorted-eq m m' a n h s i k x y z = rw (h i x (omega arith), h k (omega arith) z) (s i k x y z)

  module _ (a n d : ℕ) (inside : d < n) where
    -- Two sorted parts around an element that is between them.
    pub parts-IsSorted :
        (m : ℕ → A)
        → IsSplit cmp o m a n (a + d)
        → IsSorted m a d
        → IsSorted m (a + (d + 1)) (n - d - 1)
        → IsSorted m a n
    unfolding IsSorted
    parts-IsSorted m s l r i k x y z = elim (Bool-cases (ltb k (a + d))) [
      | inl t ↦ l i k x y (ground arith)
      | inr t ↦ elim (Bool-cases (ltb (a + d) i)) [
        | inl u ↦ r i k (ground arith) y (omega arith)
        | inr u ↦
            around (Bool-cases (k == a + d)) (Bool-cases (i == a + d)) (ground arith) (ground arith)
      ]
    ]
      where
        around :
            ((k == a + d) ≡ true) ⊎ ((k == a + d) ≡ false)
            → ((i == a + d) ≡ true) ⊎ ((i == a + d) ≡ false)
            → a + d ≤ k
            → i ≤ a + d
            → Le cmp o (m i) (m k)
        around (inl e) f g h =
            let same : k ≡ a + d = ground arith in rw same (s.low i x (omega arith))
        around (inr e) (inl f) g h =
            let same : i ≡ a + d = ground arith in rw same (s.high k (ground arith) z)
        around (inr e) (inr f) g h =
            o.trans (m i) (m (a + d)) (m k) (s.low i x (ground arith)) (s.high k (ground arith) z)

    -- The element stays between the parts when one of them is shuffled.
    pub left-IsSplit :
        (m m' : ℕ → A)
        → IsSplit cmp o m a n (a + d)
        → IsShuffle a d m m'
        → IsSplit cmp o m' a n (a + d)
    left-IsSplit m m' s t =
        let mid = t.above (a + d) (omega arith) in
        record {
          from = s.from;
          to = s.to;
          low = λ k x y. rw mid (
              IsShuffle-all (λ z. is_positive (cmp z (m (a + d)))) a d m m' t (λ j u v. s.low j u v)
                k x y);
          high = λ k x y. rw (mid, t.above k (omega arith)) (s.high k x y);
        }

    pub right-IsSplit :
        (m m' : ℕ → A)
        → IsSplit cmp o m a n (a + d)
        → IsShuffle (a + (d + 1)) (n - d - 1) m m'
        → IsSplit cmp o m' a n (a + d)
    right-IsSplit m m' s t =
        let mid = t.below (a + d) (omega arith) in
        record {
          from = s.from;
          to = s.to;
          low = λ k x y. rw (mid, t.below k (omega arith)) (s.low k x y);
          high = λ k x y. rw mid (
              IsShuffle-all (λ z. is_positive (cmp (m (a + d)) z)) (a + (d + 1)) (n - d - 1) m m' t
                (λ j u v. s.high j (omega arith) (omega arith)) k (omega arith) (omega arith));
        }

    pub left-IsShuffle : (m m' : ℕ → A) → IsShuffle a d m m' → IsShuffle a n m m'
    left-IsShuffle m m' t =
        let e : a + 0 ≡ a = omega arith in
        let f : 0 + (d + (n - d)) ≡ n = omega arith in
        rw f at (IsShuffle-wider a 0 d (n - d) m m' (rw e t))

    pub right-IsShuffle :
        (m m' : ℕ → A) → IsShuffle (a + (d + 1)) (n - d - 1) m m' → IsShuffle a n m m'
    right-IsShuffle m m' t =
        let f : d + 1 + (n - d - 1 + 0) ≡ n = omega arith in
        rw f at (IsShuffle-wider a (d + 1) (n - d - 1) 0 m m' t)
