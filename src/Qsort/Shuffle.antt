-- ===== src/Qsort/Shuffle.antt =====
-- Memories that differ by the order of the elements of a range.
use plan9_ocaml.Prelude.{
  ap, ◌⊎◌, inl, inr, Bool-cases, ℕ, zero, suc, true, false, ◌≡◌, ◌≤◌, ◌<◌, ◌+◌, arith, ◌∙◌, ◌==◌,
  refl, Bool-cases, inl, inr,
}
use plan9_ocaml.Qsort.{put, swap}

module _ {ℓ} {A : Type ℓ} where
  -- The sum of the weights of `n` elements from `lo` on.
  abbrev pub sum : (A → ℕ) → (ℕ → A) → (lo n : ℕ) → ℕ
  sum w m lo zero = 0
  sum w m lo (suc n) = sum w m lo n + w (m (lo + n))

  pub sum-eq :
      (w : A → ℕ) (m m' : ℕ → A) (lo n : ℕ)
      → ((k : ℕ) → lo ≤ k → k < lo + n → m' k ≡ m k)
      → sum w m' lo n ≡ sum w m lo n
  sum-eq w m m' lo zero h = refl
  sum-eq w m m' lo (suc n) h =
      rw (h (lo + n) (omega arith) (omega arith), sum-eq w m m' lo n (λ k a b. h k a (omega arith)))
        refl

  pub sum-put :
      (w : A → ℕ) (m : ℕ → A) (i : ℕ) (x : A) (lo n : ℕ)
      → lo ≤ i
      → i < lo + n
      → sum w (put i x m) lo n + w (m i) ≡ sum w m lo n + w x
  sum-put w m i x lo zero a b = absurd (omega arith)
  sum-put w m i x lo (suc n) a b = elim (Bool-cases (i == lo + n)) [
    | inl e ↦
        let same : i ≡ lo + n = ground arith in
        let here : (lo + n == i) ≡ true = ground arith in
        let rest = sum-eq w m (put i x m) lo n (λ k c d. apart k (ground arith)) in
        rw (here, rest, same) (omega arith)
    | inr e ↦
        let here : (lo + n == i) ≡ false = ground arith in
        let less : i < lo + n = ground arith in rw here (omega (arith, sum-put w m i x lo n a less))
  ]
    where
      apart : (k : ℕ) → (k == i) ≡ false → put i x m k ≡ m k
      apart k h = rw h refl

  pub sum-append :
      (w : A → ℕ) (m : ℕ → A) (lo x y : ℕ) → sum w m lo (x + y) ≡ sum w m lo x + sum w m (lo + x) y
  sum-append w m lo x zero = let e : x + zero ≡ x = omega arith in rw e (omega arith)
  sum-append w m lo x (suc y) =
      let e : x + suc y ≡ suc (x + y) = omega arith in
      let f : lo + (x + y) ≡ lo + x + y = omega arith in
      rw (e, f) (omega (arith, sum-append w m lo x y))

  -- The elements outside the range are the same, and those in it the same up to their order: every
  -- weight has the same sum.
  pub record IsShuffle (lo n : ℕ) (m m' : ℕ → A) : Type ℓ where
    pub below : (k : ℕ) → k < lo → m' k ≡ m k
    pub above : (k : ℕ) → lo + n ≤ k → m' k ≡ m k
    pub weight : (w : A → ℕ) → sum w m' lo n ≡ sum w m lo n

  pub IsShuffle-refl : (lo n : ℕ) (m : ℕ → A) → IsShuffle lo n m m
  IsShuffle-refl lo n m = record { below = λ k h. refl; above = λ k h. refl; weight = λ w. refl }

  pub IsShuffle-trans :
      (lo n : ℕ) (m m' m'' : ℕ → A)
      → IsShuffle lo n m m'
      → IsShuffle lo n m' m''
      → IsShuffle lo n m m''
  IsShuffle-trans lo n m m' m'' s t = record {
    below = λ k h. t.below k h ∙ s.below k h;
    above = λ k h. t.above k h ∙ s.above k h;
    weight = λ w. t.weight w ∙ s.weight w;
  }

  pub swap-IsShuffle :
      (lo n i j : ℕ) (m : ℕ → A)
      → lo ≤ i
      → i < lo + n
      → lo ≤ j
      → j < lo + n
      → IsShuffle lo n m (swap i j m)
  unfolding swap
  swap-IsShuffle lo n i j m a b c d = record {
    below = λ k h.
        let e : (k == j) ≡ false = ground arith in
        let f : (k == i) ≡ false = ground arith in rw (e, f) refl;
    above = λ k h.
        let e : (k == j) ≡ false = ground arith in
        let f : (k == i) ≡ false = ground arith in rw (e, f) refl;
    weight = λ w.
        let first = sum-put w m i (m j) lo n a b in
        let second = sum-put w (put i (m j) m) j (m i) lo n c d in
        omega (arith, first, rw (kept (Bool-cases (j == i))) at second);
  }
    where
      kept : ((j == i) ≡ true) ⊎ ((j == i) ≡ false) → put i (m j) m j ≡ m j
      kept (inl e) = rw e refl
      kept (inr e) = rw e refl

  pub swap-left : (i j : ℕ) (m : ℕ → A) → swap i j m i ≡ m j
  unfolding swap
  swap-left i j m = elim (Bool-cases (i == j)) [
    | inl e ↦ let same : i ≡ j = ground arith in rw e (ap m same)
    | inr e ↦ let here : (i == i) ≡ true = ground arith in rw (e, here) refl
  ]

  pub swap-right : (i j : ℕ) (m : ℕ → A) → swap i j m j ≡ m i
  unfolding swap
  swap-right i j m = let here : (j == j) ≡ true = ground arith in rw here refl

  pub swap-other :
      (i j k : ℕ) (m : ℕ → A) → (k == i) ≡ false → (k == j) ≡ false → swap i j m k ≡ m k
  unfolding swap
  swap-other i j k m e f = rw (e, f) refl
