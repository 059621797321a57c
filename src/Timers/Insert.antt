-- ===== src/Timers/Insert.antt =====
-- Adding a timer: the queue stays in order, and the new timer follows those due at the same time.
use plan9_ocaml.Prelude.{
  [], none, some, true, false, List, ℕ, Bool, Option, ◌∷◌, ◌≤◌, ◌<◌, ◌≡◌, if◌then◌else◌, arith,
  Bool-cases, ◌++◌, ltb, inl, inr, ap, refl, ◌||◌, ◌&&◌, not, leb, ◌≢◌, ◌⊎◌, ◌==◌,
}
use plan9_ocaml.Timers.{
  rank, companion, start, add64, fastticks_of, relative, periodic, Timer, Mode, tadd, insert,
  is_first, schedule, enqueue, Tod, is_periodic, is_neg,
}

abbrev pub is_nil : List Timer → Bool
is_nil [] = true
is_nil (t ∷ q) = false

-- The queue goes off in its order, that of signed numbers, from `lo` in it on.
unfoldable pub IsSorted : (lo : ℕ) → List Timer → Type 0
IsSorted lo [] = Unit
IsSorted lo (t ∷ q) = (lo ≤ rank t.twhen) × IsSorted (rank t.twhen) q

-- All of the timers go off at the time with the rank `n` at the latest, or all later.
pub AllBefore : (n : ℕ) → List Timer → Type 0
AllBefore n [] = Unit
AllBefore n (t ∷ q) = (rank t.twhen ≤ n) × AllBefore n q

unfoldable pub AllAfter : (n : ℕ) → List Timer → Type 0
AllAfter n [] = Unit
AllAfter n (t ∷ q) = (n < rank t.twhen) × AllAfter n q

pub insert-IsSorted :
    (t : Timer) (lo : ℕ) (q : List Timer)
    → lo ≤ rank t.twhen
    → IsSorted lo q
    → IsSorted lo (insert t q)
unfolding insert IsSorted
insert-IsSorted t lo [] h s = (h, tt)
insert-IsSorted t lo (u ∷ q) h (k, s) = elim (Bool-cases (ltb (rank t.twhen) (rank u.twhen))) [
  | inl e ↦ rw e (h, (ground arith, s))
  | inr e ↦ rw e (k, insert-IsSorted t (rank u.twhen) q (ground arith) s)
]

pub AllAfter-IsSorted : (n lo : ℕ) (q : List Timer) → n < lo → IsSorted lo q → AllAfter n q
unfolding IsSorted AllAfter
AllAfter-IsSorted n lo [] h s = tt
AllAfter-IsSorted n lo (t ∷ q) h (k, s) =
    (omega arith, AllAfter-IsSorted n (rank t.twhen) q (omega arith) s)

-- The timer `t` stands between those of `q` that go off no later and those that go off later, and
-- `w` is its time when it is the first, 0 otherwise.
pub Placed : Timer → ℕ → List Timer → List Timer → Type 0
Placed t w q q' =
    (l : List Timer) × (r : List Timer) × (q ≡ l ++ r)
    × (q' ≡ l ++ t ∷ r)
    × AllBefore (rank t.twhen) l
    × AllAfter (rank t.twhen) r
    × (w ≡ (if is_nil l then t.twhen else 0))

insert-Placed :
    (t : Timer) (lo : ℕ) (q : List Timer)
    → IsSorted lo q
    → Placed t (if is_first t q then t.twhen else 0) q (insert t q)
unfolding insert is_first IsSorted Placed AllBefore AllAfter
insert-Placed t lo [] s = ([], [], refl, refl, tt, tt, refl)
insert-Placed t lo (u ∷ q) (k, s) = elim (Bool-cases (ltb (rank t.twhen) (rank u.twhen))) [
  | inl e ↦
      let rest = AllAfter-IsSorted (rank t.twhen) (rank u.twhen) q (ground arith) s in
      rw e ([], u ∷ q, refl, refl, tt, (ground arith, rest), refl)
  | inr e ↦
      let p = insert-Placed t (rank u.twhen) q s in
      rw e (
        u ∷ p.0,
        p.1,
        ap (λ (x : List Timer). u ∷ x) p.2,
        ap (λ (x : List Timer). u ∷ x) p.3,
        (ground arith, p.4),
        p.5,
        refl,
      )
]

-- The timer is in a queue, or periodic with a period below 100 microseconds.
pub is_refused : Timer → Bool
is_refused t = t.queued || (is_periodic t.tmode && not (leb 100_000 t.tns && not (is_neg t.tns)))

-- A periodic timer with the period `tns`.
abbrev pub has_period : (tns : ℕ) → Timer → Bool
has_period tns t = is_periodic t.tmode && (t.tns == tns)

pub NonePeriodic : (tns : ℕ) → List Timer → Type 0
NonePeriodic tns [] = Unit
NonePeriodic tns (t ∷ q) = (has_period tns t ≡ false) × NonePeriodic tns q

-- `w` is the time of the first timer of the queue with that period, if there is one.
pub FirstPeriodic : (tns : ℕ) → List Timer → Option ℕ → Type 0
unfolding NonePeriodic
FirstPeriodic tns q none = NonePeriodic tns q
FirstPeriodic tns q (some w) =
    (l : List Timer) × (u : Timer) × (r : List Timer) × (q ≡ l ++ u ∷ r)
    × NonePeriodic tns l
    × (has_period tns u ≡ true)
    × (u.twhen ≡ w)

companion-FirstPeriodic : (tns : ℕ) (q : List Timer) → FirstPeriodic tns q (companion tns q)
unfolding FirstPeriodic companion
companion-FirstPeriodic tns [] = tt
companion-FirstPeriodic tns (t ∷ q) = elim (Bool-cases (has_period tns t)) [
  | inl e ↦ rw e ([], t, q, refl, tt, e, refl)
  | inr e ↦ rw e (further (companion tns q) e (companion-FirstPeriodic tns q))
]
  where
    further :
        (o : Option ℕ)
        → has_period tns t ≡ false
        → FirstPeriodic tns q o
        → FirstPeriodic tns (t ∷ q) o
    further none e h = (e, h)
    further (some w) e (l, u, r, same, before, it, at) =
        (t ∷ l, u, r, ap (λ (x : List Timer). t ∷ x) same, (e, before), it, at)

-- What the time of a periodic timer counts from: its last one; or for a new one, whose time is 0, the
-- time of the first timer in the queue with that period, or now.
pub StartsFrom : (now : ℕ) → List Timer → Timer → ℕ → Type 0
unfolding FirstPeriodic
StartsFrom now q nt from =
    ((nt.twhen ≢ 0) × (from ≡ nt.twhen))
    ⊎ ((nt.twhen ≡ 0)
        × (o : Option ℕ) × FirstPeriodic nt.tns q o
        × (from ≡ (elim o [ none ↦ now | some w ↦ w ])))

-- When the timer goes off, by its mode, and the `tns` that it has then.
pub DueAt : Tod → (now : ℕ) → List Timer → Mode → Timer → (tns : ℕ) → (twhen : ℕ) → Type 0
unfolding StartsFrom
DueAt s now q relative nt tns w =
    (tns ≡ (if (nt.tns == 0) || is_neg nt.tns then 1 else nt.tns))
    × (w ≡ add64 now (fastticks_of s tns))
DueAt s now q periodic nt tns w =
    (tns ≡ nt.tns)
    × (from : ℕ) × StartsFrom now q nt from
    × (w ≡ add64 from (fastticks_of s nt.tns))

-- The timer `nt` as it stands in the queue.
pub record IsScheduled (s : Tod) (now : ℕ) (q : List Timer) (nt t : Timer) : Type 0 where
  pub name : t.name ≡ nt.name
  pub tmode : t.tmode ≡ nt.tmode
  pub tf : t.tf ≡ nt.tf
  pub queued : t.queued ≡ true
  pub due : DueAt s now q nt.tmode nt t.tns t.twhen

-- What a call of `tadd` for `nt` on the queue `q` gives: none just when it is refused, and else a queue
-- still in order, with the timer in its place.
pub Added : Tod → (now : ℕ) → Timer → List Timer → Option (ℕ × List Timer) → Type 0
unfolding Placed
Added s now nt q none = is_refused nt ≡ true
Added s now nt q (some (w, q')) =
    (is_refused nt ≡ false)
    × IsSorted 0 q'
    × (t : Timer) × IsScheduled s now q nt t
    × Placed t w q q'

abbrev is_short : Mode → Timer → Bool
is_short m t = is_periodic m && not (leb 100_000 t.tns && not (is_neg t.tns))

-- The timer that `schedule` gives, before it is marked.
Scheduled : Tod → (now : ℕ) → List Timer → Mode → Timer → Option Timer → Type 0
Scheduled s now q m nt none = is_short m nt ≡ true
Scheduled s now q m nt (some t) =
    (is_short m nt ≡ false)
    × (t.name ≡ nt.name)
    × (t.tmode ≡ nt.tmode)
    × (t.tf ≡ nt.tf)
    × DueAt s now q m nt t.tns t.twhen

start-StartsFrom : (now : ℕ) (q : List Timer) (nt : Timer) → StartsFrom now q nt (start now q nt)
unfolding StartsFrom start
start-StartsFrom now q nt = elim (Bool-cases (nt.twhen == 0)) [
  | inl e ↦
      let zero_time : nt.twhen ≡ 0 = ground arith in
      rw e (inr (zero_time, companion nt.tns q, companion-FirstPeriodic nt.tns q, refl))
  | inr e ↦ let other : nt.twhen ≢ 0 = ground arith in rw e (inl (other, refl))
]

schedule-Scheduled :
    (s : Tod) (now : ℕ) (q : List Timer) (m : Mode) (nt : Timer)
    → Scheduled s now q m nt (schedule s now q m nt)
unfolding schedule Scheduled DueAt
schedule-Scheduled s now q relative nt = (refl, refl, refl, refl, (refl, refl))
schedule-Scheduled s now q periodic nt =
    elim (Bool-cases (leb 100_000 nt.tns && not (is_neg nt.tns))) [
      | inl e ↦
          let long : is_short periodic nt ≡ false = rw e refl in
          rw e (long, refl, refl, refl, (refl, start now q nt, start-StartsFrom now q nt, refl))
      | inr e ↦ let short : is_short periodic nt ≡ true = rw e refl in rw e short
    ]

enqueue-Added :
    (s : Tod) (now : ℕ) (q : List Timer) (nt : Timer) (o : Option Timer)
    → nt.queued ≡ false
    → Scheduled s now q nt.tmode nt o
    → IsSorted 0 q
    → Added s now nt q (enqueue q o)
unfolding enqueue Added is_refused is_first insert Scheduled
enqueue-Added s now q nt none e k h = rw e k
enqueue-Added s now q nt (some t) e (long, name, tmode, tf, due) h =
    let u = record t { queued = true } in
    (
      rw e long,
      insert-IsSorted u 0 q (omega arith) h,
      u,
      record { name = name; tmode = tmode; tf = tf; queued = refl; due = due },
      insert-Placed u 0 q h,
    )

chosen :
    (s : Tod) (now : ℕ) (q : List Timer) (nt : Timer) (o : Option Timer) (b : Bool)
    → nt.queued ≡ b
    → (nt.queued ≡ false → Added s now nt q (enqueue q o))
    → Added s now nt q (if b then none else enqueue q o)
unfolding Added is_refused
chosen s now q nt o true e h = rw e refl
chosen s now q nt o false e h = h e

-- For every reading of the counter, every timer and every queue in order: the call fails an assertion
-- just when the timer is in a queue or is periodic with a period below 100 microseconds. Otherwise the
-- queue is still in order, the timer stands behind those that go off no later and before the others,
-- which are all still there, and the value is its time when it is the first and 0 when not. The timer
-- keeps its name, mode and handler. It goes off its delay, at least 1 ns, from now on; or one period
-- after it last did, a new one after the first timer of the queue with its period, or after now.
pub tadd-Added :
    (s : Tod) (now : ℕ) (q : List Timer) (nt : Timer)
    → IsSorted 0 q
    → Added s now nt q (tadd s now q nt)
unfolding tadd
tadd-Added s now q nt h = chosen s now q nt (schedule s now q nt.tmode nt) nt.queued refl (λ e.
    enqueue-Added s now q nt (schedule s now q nt.tmode nt) e
      (schedule-Scheduled s now q nt.tmode nt) h)
