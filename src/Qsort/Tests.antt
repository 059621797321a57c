-- ===== src/Qsort/Tests.antt =====
-- Sorting numbers, and the theorem applied to them.
use plan9_ocaml.Prelude.{
  ℕ, [], none, some, zero, suc, ◌≡◌, Option, List, ◌∷◌, ltb, if◌then◌else◌, arith, ◌*◌, ◌+◌, ◌%◌,
  refl,
}
use plan9_ocaml.Qsort.{
  Comparison, negative, null, positive, qsort, qsorts, qsorts_round, qsorts_halves, part, scan_up,
  scan_down, pivot, swap,
}
use plan9_ocaml.Qsort.Partition.{IsOrder}
use plan9_ocaml.Qsort.Sorted.{Sorts}
use plan9_ocaml.Qsort.Outcome.{qsort-Sorts}

abbrev minus : ℕ → ℕ → Comparison
minus x y = if ltb x y then negative else if ltb y x then positive else null

minus-IsOrder : IsOrder minus
minus-IsOrder = record { flip = λ x y. ground arith; trans = λ x y z. ground arith }

-- Twelve numbers, so that the pivot is taken of three.
abbrev numbers : ℕ → ℕ
numbers k = (k * 7 + 5) % 12

abbrev listed : (n : ℕ) → (ℕ → ℕ) → List ℕ
listed zero m = []
listed (suc n) m = m 0 ∷ listed n (λ k. m (k + 1))

abbrev listed_from : Option (ℕ → ℕ) → List ℕ
listed_from none = []
listed_from (some m) = listed 13 m

sorted_numbers :
    listed_from (qsort minus numbers 0 12)
    ≡ 0 ∷ 1 ∷ 2 ∷ 3 ∷ 4 ∷ 5 ∷ 6 ∷ 7 ∷ 8 ∷ 9 ∷ 10 ∷ 11 ∷ 5 ∷ []
unfolding qsort qsorts qsorts_round qsorts_halves part scan_up scan_down pivot swap
sorted_numbers = refl

qsort-Sorts_example : Sorts minus minus-IsOrder numbers 0 12 (qsort minus numbers 0 12)
qsort-Sorts_example = qsort-Sorts minus minus-IsOrder numbers 0 12
