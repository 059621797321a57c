-- ===== src/Taslock/Safety.antt =====
-- What the users of a lock rely on, in every state that the processors reach.
use mathlib.Core.Path.{subst, sym}
use plan9_ocaml.Prelude.{
  ℕ, none, some, true, false, ◌≡◌, inl, inr, Bool-cases, arith, ◌≢◌, ◌==◌, sym, refl,
}
use plan9_ocaml.Taslock.{
  first, again, can, int, is_int, away, inside, Way, Own, Place, advance, complains,
  unlock_complains, iunlock_complains,
}
use plan9_ocaml.Taslock.Run.{IsLocal, IsLocalAt, IsHolder, holds, System, Reach, IsStart, cpu_of}
use plan9_ocaml.Taslock.Moves.{After, Passes, Tries, Goes, busy-Passes, free-Tries, holder-Goes}
use plan9_ocaml.Taslock.Invariant.{IsValid, IsFree, IsHeld, IsHolder-key, Reach-IsValid}

the_holder :
    (home : ℕ → Own) (t : System) (i : ℕ)
    → IsValid home t
    → holds (t.own i).place ≡ true
    → (k : ℕ) × (i ≡ k) × IsHeld home t k
unfolding IsFree IsHeld
the_holder home t i v h = elim v.held [
  | inl (k, c, none_holds) ↦ let no = none_holds i in absurd cc
  | inr (k, (own, others)) ↦ elim (Bool-cases (i == k)) [
    | inl q ↦ (k, ground arith, (own, others))
    | inr q ↦ let no = others i (ground arith) in absurd cc
  ]
]

-- In every state that is reached from a free lock, by any number of processors that call lock,
-- canlock and ilock, interleaved in any way: no two of them have the lock, from arch_tas to the reset
-- of the key.
pub mutual_exclusion :
    (s t : System) (i j : ℕ)
    → IsStart s
    → Reach s t
    → holds (t.own i).place ≡ true
    → holds (t.own j).place ≡ true
    → i ≡ j
unfolding IsHeld
mutual_exclusion s t i j b r hi hj =
    let v = Reach-IsValid s t b r in
    let (k, at_i, held) = the_holder s.own t i v hi in
    elim (Bool-cases (k == j)) [
      | inl q ↦ ground arith
      | inr q ↦ let no = held.1 j (ground arith) in absurd cc
    ]

-- In every such state, a processor that is in none of these functions has its interrupts as before,
-- and its counts of locks, as they were at the start.
pub away-restored :
    (s t : System) (i : ℕ)
    → IsStart s
    → Reach s t
    → (t.own i).place ≡ away
    → ((t.own i).islo ≡ (s.own i).islo)
      × ((t.own i).nlocks ≡ (s.own i).nlocks)
      × ((t.own i).ilockdepth ≡ (s.own i).ilockdepth)
unfolding IsLocal IsLocalAt
away-restored s t i b r e =
    let a = (Reach-IsValid s t b r).local i in
    let (n, lo, d, z) = subst (λ (x : Place). IsLocalAt (s.own i) (t.own i) x) e a in
    (lo, omega (arith, n), omega (arith, d))

-- In every such state, the processor that has the lock finds itself in it: `p` is its process and
-- `isilock` tells how it was taken, `unlock` and `iunlock` have nothing to complain of, and `cpu` is
-- its number, but when `lock` got the lock by a later attempt.
pub inside-Owned :
    (s t : System) (i : ℕ) (w : Way)
    → IsStart s
    → Reach s t
    → (t.own i).place ≡ inside w
    → (complains w i t.lock (t.own i) ≡ false)
      × (t.lock.p ≡ some i)
      × (t.lock.isilock ≡ is_int w)
      × (t.lock.cpu ≡ cpu_of i w)
unfolding complains unlock_complains iunlock_complains IsHolder IsHeld IsLocal IsLocalAt
inside-Owned s t i w b r e =
    let v = Reach-IsValid s t b r in
    let (k, same, (own, others)) = the_holder s.own t i v (rw e refl) in
    let own' : IsHolder i (s.own i) t.lock (inside w) =
      subst (λ (x : Place). IsHolder i (s.own i) t.lock x) e
        (subst (λ (x : ℕ). IsHolder x (s.own x) t.lock (t.own x).place) (sym same) own) in
    let local = subst (λ (x : Place). IsLocalAt (s.own i) (t.own i) x) e (v.local i) in
    by_way w own' local
  where
    by_way :
        (u : Way)
        → IsHolder i (s.own i) t.lock (inside u)
        → IsLocalAt (s.own i) (t.own i) (inside u)
        → (complains u i t.lock (t.own i) ≡ false)
          × (t.lock.p ≡ some i)
          × (t.lock.isilock ≡ is_int u)
          × (t.lock.cpu ≡ cpu_of i u)
    by_way first (k, c, l, q, m) a = (rw (k, m, q) (ground arith), q, m, c)
    by_way again (k, c, l, q, m) a = (rw (k, m, q) (ground arith), q, m, c)
    by_way can (k, c, l, q, m) a = (rw (k, m, q) (ground arith), q, m, c)
    by_way int (k, c, l, q, m) (n, lo, d, z) = (rw (k, m, lo) (ground arith), q, m, c)

-- In every such state, no step of a processor is a panic.
pub no_panic : (s t : System) (i : ℕ) → IsStart s → Reach s t → advance i t.lock (t.own i) ≢ none
unfolding IsFree IsHeld IsLocal advance After
no_panic s t i b r e =
    let v = Reach-IsValid s t b r in
    elim v.held [
      | inl (k, c, none_holds) ↦
          subst (λ x. After (Tries i (s.own i) t.lock) x) e
            (free-Tries i (s.own i) t.lock (t.own i) (t.own i).place k c (none_holds i) (v.local i))
      | inr (k, (own, others)) ↦ elim (Bool-cases (i == k)) [
        | inl q ↦
            let same : k ≡ i = ground arith in
            subst (λ x. After (Goes i (s.own i)) x) e
              (holder-Goes i (s.own i) t.lock (t.own i) (t.own i).place
                (subst (λ (x : ℕ). IsHolder x (s.own x) t.lock (t.own x).place) same own)
                (v.local i))
        | inr q ↦
            subst (λ x. After (Passes (s.own i) t.lock) x) e
              (busy-Passes i (s.own i) t.lock (t.own i) (t.own i).place
                (IsHolder-key k (s.own k) t.lock (t.own k).place own)
                (others i (λ g. absurd (ground arith))) (v.local i))
      ]
    ]
