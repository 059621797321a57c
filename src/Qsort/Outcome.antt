-- ===== src/Qsort/Outcome.antt =====
-- The outcome of `qsort`.
use plan9_ocaml.Prelude.{
  ℕ, none, some, zero, suc, Bool, true, false, ◌≡◌, ◌≤◌, ◌<◌, ◌+◌, Option, inl, inr, Bool-cases,
  ltb, leb, and_then, arith, ◌-◌, refl,
}
use plan9_ocaml.Qsort.{Comparison, qsorts_round, qsorts_halves, qsorts, qsort}
use plan9_ocaml.Qsort.Shuffle.{IsShuffle, IsShuffle-refl, IsShuffle-trans}
use plan9_ocaml.Qsort.Partition.{IsOrder, IsSplit, Splits, qsorts_round-Splits}
use plan9_ocaml.Qsort.Sorted.{
  IsSorted, Sorts, IsSorted-eq, parts-IsSorted, left-IsSplit, right-IsSplit, left-IsShuffle,
  right-IsShuffle,
}

module _ {ℓ} {A : Type ℓ} (cmp : A → A → Comparison) (o : IsOrder cmp) where
  -- `sort` sorts up to `most` elements.
  abbrev Sorter : (sort : (ℕ → A) → (a n : ℕ) → Option (ℕ → A)) → (most : ℕ) → Type ℓ
  Sorter sort most = (m : ℕ → A) (a n : ℕ) → n ≤ most → Sorts cmp o m a n (sort m a n)

  module _ (sort : (ℕ → A) → (a n : ℕ) → Option (ℕ → A)) (m0 : ℕ → A) (a n d : ℕ) (inside : d < n)
      (h : Sorter sort (n - 1)) where
    -- The left part first,
    left_first :
        (m : ℕ → A)
        → IsShuffle a n m0 m
        → IsSplit cmp o m a n (a + d)
        → Sorts cmp o m0 a n
            (and_then (sort m a d) (λ (m' : ℕ → A). sort m' (a + (d + 1)) (n - d - 1)))
    unfolding Sorts
    left_first m t s = first (sort m a d) (h m a d (omega arith))
      where
        second :
            (m' : ℕ → A)
            → IsShuffle a d m m'
            → IsSorted cmp o m' a d
            → (x : Option (ℕ → A)) → Sorts cmp o m' (a + (d + 1)) (n - d - 1) x
            → Sorts cmp o m0 a n x
        second m' u r none v = v
        second m' u r (some m'') (v, r') = (
          IsShuffle-trans a n m0 m m'' t (
              IsShuffle-trans a n m m' m'' (left-IsShuffle cmp o a n d inside m m' u)
                (right-IsShuffle cmp o a n d inside m' m'' v)),
          parts-IsSorted cmp o a n d inside m''
              (right-IsSplit cmp o a n d inside m' m'' (left-IsSplit cmp o a n d inside m m' s u) v)
              (IsSorted-eq cmp o m' m'' a d (λ k x y. v.below k (omega arith)) r) r',
        )

        first :
            (x : Option (ℕ → A))
            → Sorts cmp o m a d x
            → Sorts cmp o m0 a n (and_then x (λ (m' : ℕ → A). sort m' (a + (d + 1)) (n - d - 1)))
        first none v = v
        first (some m') (u, r) =
            second m' u r (sort m' (a + (d + 1)) (n - d - 1))
              (h m' (a + (d + 1)) (n - d - 1) (omega arith))

    -- or the right one.
    right_first :
        (m : ℕ → A)
        → IsShuffle a n m0 m
        → IsSplit cmp o m a n (a + d)
        → Sorts cmp o m0 a n
            (and_then (sort m (a + (d + 1)) (n - d - 1)) (λ (m' : ℕ → A). sort m' a d))
    unfolding Sorts
    right_first m t s =
        first (sort m (a + (d + 1)) (n - d - 1)) (h m (a + (d + 1)) (n - d - 1) (omega arith))
      where
        second :
            (m' : ℕ → A)
            → IsShuffle (a + (d + 1)) (n - d - 1) m m'
            → IsSorted cmp o m' (a + (d + 1)) (n - d - 1)
            → (x : Option (ℕ → A)) → Sorts cmp o m' a d x
            → Sorts cmp o m0 a n x
        second m' u r none v = v
        second m' u r (some m'') (v, r') = (
          IsShuffle-trans a n m0 m m'' t (
              IsShuffle-trans a n m m' m'' (right-IsShuffle cmp o a n d inside m m' u)
                (left-IsShuffle cmp o a n d inside m' m'' v)),
          parts-IsSorted cmp o a n d inside m''
              (left-IsSplit cmp o a n d inside m' m'' (right-IsSplit cmp o a n d inside m m' s u) v)
              r'
              (IsSorted-eq cmp o m' m'' (a + (d + 1)) (n - d - 1) (λ k x y. v.above k (omega arith))
                r),
        )

        first :
            (x : Option (ℕ → A))
            → Sorts cmp o m (a + (d + 1)) (n - d - 1) x
            → Sorts cmp o m0 a n (and_then x (λ (m' : ℕ → A). sort m' a d))
        first none v = v
        first (some m') (u, r) = second m' u r (sort m' a d) (h m' a d (omega arith))

  qsorts_halves-Sorts :
      (sort : (ℕ → A) → (a n : ℕ) → Option (ℕ → A)) (m0 : ℕ → A) (a n : ℕ)
      → 0 < n
      → Sorter sort (n - 1)
      → (x : Option ((ℕ → A) × ℕ)) → Splits cmp o m0 a n x
      → Sorts cmp o m0 a n (and_then x (qsorts_halves cmp sort a n))
  unfolding qsorts_halves Splits Sorts
  qsorts_halves-Sorts sort m0 a n pos h none s = s
  qsorts_halves-Sorts sort m0 a n pos h (some (m, j)) (t, s) =
      let d = j - a in
      let at_d : a + (j - a) ≡ j = omega (arith, s.from) in
      let inside : j - a < n = omega (arith, s.from, s.to) in
      let s' : IsSplit cmp o m a n (a + (j - a)) = rw at_d s in
      elim (Bool-cases (leb (n - (j - a) - 1) (j - a))) [
        | inl e ↦ rw e (left_first sort m0 a n (j - a) inside h m t s')
        | inr e ↦ rw e (right_first sort m0 a n (j - a) inside h m t s')
      ]

  few-Sorts : (m : ℕ → A) (a n : ℕ) → n ≤ 1 → Sorts cmp o m a n (some m)
  unfolding Sorts IsSorted
  few-Sorts m a n le = (IsShuffle-refl a n m, λ i k x y z. absurd (omega arith))

  qsorts-Sorts : (fuel : ℕ) → Sorter (qsorts cmp fuel) fuel
  unfolding qsorts
  qsorts-Sorts zero m a n le =
      let e : ltb 1 n ≡ false = ground arith in rw e (few-Sorts m a n (omega arith))
  qsorts-Sorts (suc k) m a n le =
      chosen (ltb 1 n) refl (λ m' a' n' le'. qsorts-Sorts k m' a' n' (omega arith))
    where
      chosen :
          (b : Bool)
          → ltb 1 n ≡ b
          → Sorter (qsorts cmp k) (n - 1)
          → Sorts cmp o m a n (elim b [
            | true ↦ and_then (qsorts_round cmp m a n) (qsorts_halves cmp (qsorts cmp k) a n)
            | false ↦ some m
          ])
      chosen true e h =
          qsorts_halves-Sorts (qsorts cmp k) m a n (ground arith) h (qsorts_round cmp m a n)
            (qsorts_round-Splits cmp o m a n (ground arith))
      chosen false e h = few-Sorts m a n (ground arith)

  -- For every order of the elements, every memory, and every range of it: `qsort` ends, with the
  -- elements of the range sorted, the same as before up to their order, and all others in place.
  pub qsort-Sorts : (m : ℕ → A) (va n : ℕ) → Sorts cmp o m va n (qsort cmp m va n)
  unfolding qsort
  qsort-Sorts m va n = qsorts-Sorts n m va n (omega arith)
