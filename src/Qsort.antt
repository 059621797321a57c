-- ===== src/Qsort.antt =====
-- kernel/Libc/port/qsort.c: quicksort. The memory is a function from the number of an element to the
-- element, so that a pointer is a number and `es` is 1; swapping byte by byte or word by word is one
-- step. `cmp` gives the sign of the integer of the source. Loops run on fuel; `none` is the end of it.
pub mod Shuffle
pub mod Partition
pub mod Sorted
pub mod Outcome
pub mod Tests
use mathlib.Core.Option as Option
use plan9_ocaml.Prelude.{
  if◌then◌else◌, ◌/◌, ◌+◌, ◌-◌, ltb, leb, ◌==◌, ◌&&◌, ℕ, [], none, some, zero, suc, Bool, true,
  false, Option, and_then,
}

pub data Comparison : Type 0 where
  negative : Comparison
  null : Comparison
  positive : Comparison

abbrev pub is_negative : Comparison → Bool
is_negative negative = true
is_negative null = false
is_negative positive = false

abbrev pub is_positive : Comparison → Bool
is_positive positive = true
is_positive null = false
is_positive negative = false

abbrev pub put {ℓ} : {A : Type ℓ} → ℕ → A → (ℕ → A) → ℕ → A
put i x m k = if k == i then x else m k

-- swapb and swapi
pub swap {ℓ} : {A : Type ℓ} → (i j : ℕ) → (ℕ → A) → ℕ → A
swap i j m = put j (m i) (put i (m j) m)

module _ {ℓ} {A : Type ℓ} (cmp : A → A → Comparison) where
  pub pivot : (ℕ → A) → (a n : ℕ) → ℕ
  pivot m a n =
      let j = n / 6 in
      let pi = a + j in
      let pj = pi + (j + j) in
      let pk = pj + (j + j) in
      if is_negative (cmp (m pi) (m pj))
      then (if is_negative (cmp (m pi) (m pk))
          then (if is_negative (cmp (m pj) (m pk)) then pj else pk)
          else pi)
      else (if is_negative (cmp (m pj) (m pk))
          then (if is_negative (cmp (m pi) (m pk)) then pi else pk)
          else pj)

  -- `do pi += es; while(pi < pn && p->cmp(pi, a) < 0)`
  pub scan_up : (fuel : ℕ) → (ℕ → A) → (a pn pi : ℕ) → ℕ
  scan_up zero m a pn pi = pi
  scan_up (suc k) m a pn pi =
      let rest = scan_up k m a pn (pi + 1) in
      if ltb (pi + 1) pn && is_negative (cmp (m (pi + 1)) (m a)) then rest else pi + 1

  -- `do pj -= es; while(pj > a && p->cmp(pj, a) > 0)`
  pub scan_down : (fuel : ℕ) → (ℕ → A) → (a pj : ℕ) → ℕ
  scan_down zero m a pj = pj
  scan_down (suc k) m a pj =
      let rest = scan_down k m a (pj - 1) in
      if ltb a (pj - 1) && is_positive (cmp (m (pj - 1)) (m a)) then rest else pj - 1

  -- `for(;;)`: the memory and `pj`
  pub part : (fuel : ℕ) → (ℕ → A) → (a pn pi pj : ℕ) → Option ((ℕ → A) × ℕ)
  part zero m a pn pi pj = none
  part (suc k) m a pn pi pj =
      let pi' = scan_up (pn - pi) m a pn pi in
      let pj' = scan_down (pj - a) m a pj in
      let rest = part k (swap pi' pj' m) a pn pi' pj' in if ltb pj' pi' then some (m, pj') else rest

  -- A round of `while(n > 1)` up to `p->swap(a, pj, es)`
  pub qsorts_round : (ℕ → A) → (a n : ℕ) → Option ((ℕ → A) × ℕ)
  qsorts_round m a n =
      let pi = if ltb 10 n then pivot m a n else a + n / 2 in
      Option.map {B = (ℕ → A) × ℕ} (λ (r : (ℕ → A) × ℕ). (swap a r.1 r.0, r.1))
        (part n (swap a pi m) a (a + n) a (a + n))

  -- The two parts: the one that the function calls itself for, and the one that the loop goes on with.
  pub qsorts_halves :
      (sort : (ℕ → A) → (a n : ℕ) → Option (ℕ → A)) → (a n : ℕ) → (ℕ → A) × ℕ → Option (ℕ → A)
  qsorts_halves sort a n (m, pj) =
      let j = pj - a in
      let n' = n - j - 1 in
      if leb n' j
      then and_then {B = ℕ → A} (sort m a j) (λ (m' : ℕ → A). sort m' (a + (j + 1)) n')
      else and_then {B = ℕ → A} (sort m (a + (j + 1)) n') (λ (m' : ℕ → A). sort m' a j)

  pub qsorts : (fuel : ℕ) → (ℕ → A) → (a n : ℕ) → Option (ℕ → A)
  qsorts zero m a n = if ltb 1 n then none else some m
  qsorts (suc k) m a n = elim (ltb 1 n) [
    | true ↦ and_then {B = ℕ → A} (qsorts_round m a n) (qsorts_halves (qsorts k) a n)
    | false ↦ some m
  ]

  pub qsort : (ℕ → A) → (va n : ℕ) → Option (ℕ → A)
  qsort m va n = qsorts n m va n
