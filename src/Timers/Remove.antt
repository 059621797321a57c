-- ===== src/Timers/Remove.antt =====
-- Taking a timer out of the queue.
use plan9_ocaml.Prelude.{
  [], true, ℕ, List, ◌∷◌, ◌≡◌, ◌≢◌, Bool-cases, if◌then◌else◌, ◌==◌, inl, inr, arith, ap, refl, ◌≤◌,
  ◌⊎◌, ◌++◌,
}
use plan9_ocaml.Timers.{rank, Timer, tdel, remove, is_head, head_when}
use plan9_ocaml.Timers.Insert.{IsSorted}

pub IsSorted-lower : (m n : ℕ) (q : List Timer) → m ≤ n → IsSorted n q → IsSorted m q
unfolding IsSorted
IsSorted-lower m n [] h s = tt
IsSorted-lower m n (t ∷ q) h (k, s) = (omega arith, s)

pub remove-IsSorted : (n lo : ℕ) (q : List Timer) → IsSorted lo q → IsSorted lo (remove n q)
unfolding remove IsSorted
remove-IsSorted n lo [] s = tt
remove-IsSorted n lo (t ∷ q) (k, s) = elim (Bool-cases (t.name == n)) [
  | inl e ↦ rw e (IsSorted-lower lo (rank t.twhen) q k s)
  | inr e ↦ rw e (k, remove-IsSorted n (rank t.twhen) q s)
]

-- No timer of the queue has the name.
pub IsAbsent : (name : ℕ) → List Timer → Type 0
IsAbsent n [] = Unit
IsAbsent n (t ∷ q) = (t.name ≢ n) × IsAbsent n q

-- The time of the first timer of `r` when nothing stood in front of the one taken, 0 otherwise.
abbrev pub next_time : (l r : List Timer) → ℕ
next_time [] [] = 0
next_time [] (u ∷ r) = u.twhen
next_time (t ∷ l) r = 0

-- What taking the timer of that name gives: it is not there, or it is cut out where it first stands.
pub Removed : (name : ℕ) → List Timer → ℕ × List Timer → Type 0
unfolding IsAbsent
Removed n q (w, q') =
    (IsAbsent n q × (q' ≡ q) × (w ≡ 0))
    ⊎ ((l : List Timer) × (t : Timer) × (r : List Timer) × (q ≡ l ++ t ∷ r)
        × (t.name ≡ n)
        × IsAbsent n l
        × (q' ≡ l ++ r)
        × (w ≡ next_time l r))

head_when-next : (r : List Timer) → head_when r ≡ next_time [] r
unfolding head_when
head_when-next [] = refl
head_when-next (u ∷ r) = refl

-- A timer that is not the first stays there, and the value is 0.
remove-Removed :
    (n : ℕ) (q : List Timer)
    → Removed n q (if is_head n q then head_when (remove n q) else 0, remove n q)
unfolding Removed IsAbsent is_head remove
remove-Removed n [] = inl (tt, refl, head_when_nil)
  where
    head_when_nil : head_when [] ≡ 0
    head_when_nil = head_when-next []
remove-Removed n (t ∷ q) = elim (Bool-cases (t.name == n)) [
  | inl e ↦
      let same : t.name ≡ n = ground arith in
      rw e (inr ([], t, q, refl, same, tt, refl, head_when-next q))
  | inr e ↦ let other : t.name ≢ n = ground arith in rw e (further other (remove-Removed n q))
]
  where
    further :
        t.name ≢ n
        → Removed n q (if is_head n q then head_when (remove n q) else 0, remove n q)
        → Removed n (t ∷ q) (0, t ∷ remove n q)
    further other (inl (absent, same, w)) =
        inl ((other, absent), ap (λ (x : List Timer). t ∷ x) same, refl)
    further other (inr (l, u, r, same, it, absent, left, w)) = inr (
      t ∷ l,
      u,
      r,
      ap (λ (x : List Timer). t ∷ x) same,
      it,
      (other, absent),
      ap (λ (x : List Timer). t ∷ x) left,
      refl,
    )

-- For every timer marked as queued and every queue in order: `tdel` leaves the queue in order. If the
-- timer is not there it changes nothing and gives 0; else just the first timer of that name is missing
-- afterwards, and the value is the time of the one behind it when it was the first, or 0 when it was
-- not, or when the queue is empty now.
pub tdel-Removed :
    (dt : Timer) (q : List Timer)
    → dt.queued ≡ true
    → IsSorted 0 q
    → Removed dt.name q (tdel dt q) × IsSorted 0 (tdel dt q).1
unfolding tdel
tdel-Removed dt q e h = rw e (remove-Removed dt.name q, remove-IsSorted dt.name 0 q h)
