-- ===== src/Timers/Interrupt.antt =====
-- The clock interrupt comes to an end, and leaves no timer that is due.
use plan9_ocaml.Prelude.{
  [], none, some, true, false, zero, suc, ℕ, List, Option, ◌≡◌, ◌<◌, ◌∷◌, ◌+◌, Bool-cases, ◌≤◌, ◌-◌,
  ltb, ◌^◌, inl, inr, arith, refl, Bool, ◌==◌, ltb→lt, ◌||◌, not, ◌&&◌, if◌then◌else◌, ◌∙◌,
}
use mathlib.Core.Option as Option
use plan9_ocaml.Timers.Remove.{IsSorted-lower}
use plan9_ocaml.Timers.{
  relative, periodic, Timer, Outcome, timerintr, service, again, lateness, fire, tadd, Tod, insert,
  rank, schedule, enqueue, start, is_periodic, fastticks_of, Mode,
}
use plan9_ocaml.Timers.Insert.{IsSorted, insert-IsSorted}

-- A queued timer with a positive time, and a period of at least 100 microseconds and one fast tick,
-- after which the counter is still a positive `vlong`.
unfoldable pub IsReady : Tod → ℕ → Timer → Type 0
IsReady s now t =
    (t.queued ≡ true)
    × (0 < t.twhen)
    × (t.twhen < 2 ^ 63)
    × (is_periodic t.tmode ≡ true
        → (100_000 ≤ t.tns)
          × (t.tns < 2 ^ 63)
          × (0 < fastticks_of s t.tns)
          × (now + fastticks_of s t.tns < 2 ^ 63))

unfoldable pub AllReady : Tod → ℕ → List Timer → Type 0
unfolding IsReady
AllReady s now [] = Unit
AllReady s now (t ∷ q) = IsReady s now t × AllReady s now q

-- All of the timers went off at `now` or before, or all will later.
pub AllDue : ℕ → List Timer → Type 0
AllDue now [] = Unit
AllDue now (t ∷ q) = (t.twhen ≤ now) × AllDue now q

pub AllLater : ℕ → List Timer → Type 0
AllLater now [] = Unit
AllLater now (t ∷ q) = (now < t.twhen) × AllLater now q

-- How many periodic timers there are with the name and the period, and how many others with the name.
abbrev pub is_tick : (name tns : ℕ) → Timer → ℕ
is_tick n k t = if is_periodic t.tmode && ((t.name == n) && (t.tns == k)) then 1 else 0

abbrev pub is_once : (name : ℕ) → Timer → ℕ
is_once n t = if not (is_periodic t.tmode) && (t.name == n) then 1 else 0

pub amount : (Timer → ℕ) → List Timer → ℕ
amount w [] = 0
amount w (t ∷ q) = w t + amount w q

-- What is left: a queue in order, of timers that go off later; the timers taken were due; and the
-- hardware timer is set to the first of the queue, if any. Every periodic timer is in the queue again,
-- and every other one is there still or was taken.
pub Served : ℕ → List Timer → Option Outcome → Type 0
Served now q none = ⊥
Served now q (some o) =
    IsSorted 0 o.queue
    × AllLater now o.queue
    × AllDue now o.fired
    × (o.timerset ≡ (elim o.queue [ [] ↦ none | t ∷ r ↦ some t.twhen ]))
    × ((n k : ℕ) → amount (is_tick n k) o.queue ≡ amount (is_tick n k) q)
    × ((n : ℕ) → amount (is_once n) o.queue + amount (is_once n) o.fired ≡ amount (is_once n) q)

-- What `again` gives for a timer that is due.
Requeued : Tod → ℕ → Timer → List Timer → Option (List Timer) → Type 0
Requeued s now t q none = ⊥
Requeued s now t q (some q') =
    IsSorted 0 q'
    × AllReady s now q'
    × (lateness now q' < (now + 1 - t.twhen) + lateness now q)
    × ((n k : ℕ) → amount (is_tick n k) q' ≡ is_tick n k t + amount (is_tick n k) q)
    × ((n : ℕ) → amount (is_once n) q' ≡ amount (is_once n) q)

lateness-insert :
    (now : ℕ) (t : Timer) (q : List Timer)
    → lateness now (insert t q) ≡ (now + 1 - t.twhen) + lateness now q
unfolding lateness insert
lateness-insert now t [] = refl
lateness-insert now t (u ∷ q) = elim (Bool-cases (ltb (rank t.twhen) (rank u.twhen))) [
  | inl e ↦ rw e refl
  | inr e ↦ rw e (omega (arith, lateness-insert now t q))
]

amount-insert :
    (w : Timer → ℕ) (t : Timer) (q : List Timer) → amount w (insert t q) ≡ w t + amount w q
unfolding amount insert
amount-insert w t [] = refl
amount-insert w t (u ∷ q) = elim (Bool-cases (ltb (rank t.twhen) (rank u.twhen))) [
  | inl e ↦ rw e refl
  | inr e ↦ rw e (omega (arith, amount-insert w t q))
]

AllReady-insert :
    (s : Tod) (now : ℕ) (t : Timer) (q : List Timer)
    → IsReady s now t
    → AllReady s now q
    → AllReady s now (insert t q)
unfolding AllReady insert
AllReady-insert s now t [] r rs = (r, tt)
AllReady-insert s now t (u ∷ q) r (p, rs) = elim (Bool-cases (ltb (rank t.twhen) (rank u.twhen))) [
  | inl e ↦ rw e (r, (p, rs))
  | inr e ↦ rw e (p, AllReady-insert s now t q r rs)
]

schedule_next :
    (s : Tod) (now : ℕ) (q : List Timer) (m : Mode) (t : Timer)
    → is_periodic m ≡ true
    → 100_000 ≤ t.tns
    → t.tns < 2 ^ 63
    → 0 < t.twhen
    → t.twhen + fastticks_of s t.tns < 2 ^ 64
    → schedule s now q m t ≡ some (record t { twhen = t.twhen + fastticks_of s t.tns })
unfolding schedule start
schedule_next s now q relative t e a b c d = ground arith
schedule_next s now q periodic t e a b c d = ground arith

again-eq :
    (s : Tod) (now : ℕ) (t : Timer) (q : List Timer)
    → is_periodic t.tmode ≡ true
    → 100_000 ≤ t.tns
    → t.tns < 2 ^ 63
    → 0 < t.twhen
    → t.twhen + fastticks_of s t.tns < 2 ^ 64
    → again s now t q
      ≡ some (insert (record t { twhen = t.twhen + fastticks_of s t.tns; queued = true }) q)
unfolding again tadd enqueue
again-eq s now t q e a b c d =
    rw (e, schedule_next s now q t.tmode (record t { queued = false }) e a b c d) refl

-- A timer that is not periodic is no tick, and the other way round.
not_once : (n : ℕ) (t : Timer) → is_periodic t.tmode ≡ true → is_once n t ≡ 0
not_once n t m = rw m refl

not_tick : (n k : ℕ) (t : Timer) → is_periodic t.tmode ≡ false → is_tick n k t ≡ 0
not_tick n k t m = rw m refl

again-Requeued :
    (s : Tod) (now : ℕ) (t : Timer) (q : List Timer)
    → t.twhen ≤ now
    → IsReady s now t
    → IsSorted (rank t.twhen) q
    → AllReady s now q
    → Requeued s now t q (again s now t q)
unfolding again Requeued IsReady
again-Requeued s now t q due (e, p, word, period) h rs = elim (Bool-cases (is_periodic t.tmode)) [
  | inl m ↦
      let (long, short, step, fits) = period m in
      let u = record t { twhen = t.twhen + fastticks_of s t.tns; queued = true } in
      rw (again-eq s now t q m long short p (omega arith)) (
        insert-IsSorted u 0 q (omega arith) (IsSorted-lower 0 (rank t.twhen) q (omega arith) h),
        AllReady-insert s now u q (refl, omega arith, omega arith, period) rs,
        omega (arith, lateness-insert now u q),
        λ n k. amount-insert (is_tick n k) u q,
        λ n. amount-insert (is_once n) u q ∙ omega (arith, not_once n t m),
      )
  | inr m ↦ rw m (
    IsSorted-lower 0 (rank t.twhen) q (omega arith) h,
    rs,
    omega arith,
    λ n k. omega (arith, not_tick n k t m),
    λ n. refl,
  )
]

-- The timer is counted by its own two weights.
Served-fire :
    (now : ℕ) (t : Timer) (q q' : List Timer) (o : Option Outcome)
    → t.twhen ≤ now
    → ((n k : ℕ) → amount (is_tick n k) q' ≡ is_tick n k t + amount (is_tick n k) q)
    → ((n : ℕ) → amount (is_once n) q' ≡ amount (is_once n) q)
    → Served now q' o
    → Served now (t ∷ q) (Option.map (fire t) o)
unfolding Served fire AllDue amount
Served-fire now t q q' none d ticks onces h = h
Served-fire now t q q' (some o) d ticks onces (a, b, c, e, f, g) =
    (a, b, (d, c), e, λ n k. f n k ∙ ticks n k, λ n. omega (arith, g n, onces n))

went_on :
    (fuel : ℕ) (s : Tod) (now : ℕ) (c : Bool) (t : Timer) (q : List Timer) (o : Option (List Timer))
    → t.twhen ≤ now
    → (now + 1 - t.twhen) + lateness now q ≤ fuel
    → Requeued s now t q o
    → ((q' : List Timer)
        → lateness now q' < fuel
        → IsSorted 0 q'
        → AllReady s now q'
        → Served now q' (service fuel s now c q'))
    → Served now
        (t ∷ q)
        (elim o [ none ↦ none | some q' ↦ Option.map (fire t) (service fuel s now c q') ])
unfolding Requeued Served
went_on fuel s now c t q none due f r ih = r
went_on fuel s now c t q (some q') due f (h, rs, less, ticks, onces) ih =
    Served-fire now t q q' (service fuel s now c q') due ticks onces (ih q' (omega arith) h rs)

-- Positive times keep their order without the sign.
later_all :
    (s : Tod) (now : ℕ) (t : Timer) (q : List Timer)
    → now < t.twhen
    → t.twhen < 2 ^ 63
    → IsSorted (rank t.twhen) q
    → AllReady s now q
    → AllLater now q
unfolding IsSorted AllReady AllLater
later_all s now t [] less word h r = tt
later_all s now t (u ∷ q) less word (h, hs) ((e, p, w, x), rs) =
    (omega arith, later_all s now u q (omega arith) w hs rs)

service-Served :
    (fuel : ℕ) (s : Tod) (now : ℕ) (c : Bool) (q : List Timer)
    → lateness now q < fuel
    → IsSorted 0 q
    → AllReady s now q
    → Served now q (service fuel s now c q)
unfolding service lateness IsSorted Served AllLater AllReady AllDue amount
service-Served fuel s now c [] f h r = (tt, tt, tt, refl, λ n k. refl, λ n. refl)
service-Served zero s now c (t ∷ q) f h r = absurd (omega arith)
service-Served (suc fuel) s now c (t ∷ q) f (h, hs) (r, rs) = elim (Bool-cases (ltb now t.twhen)) [
  | inl e ↦
      let later : now < t.twhen = ltb→lt now t.twhen e in
      rw e (
        (h, hs),
        (later, later_all s now t q later r.2 hs rs),
        tt,
        refl,
        λ n k. refl,
        λ n. omega arith,
      )
  | inr e ↦
      let due : t.twhen ≤ now = ground arith in
      rw (e, r.0)
        (went_on fuel s now (c || not t.tf) t q (again s now t q) due (omega arith)
          (again-Requeued s now t q due r hs rs)
          (λ q' l k ks. service-Served fuel s now (c || not t.tf) q' l k ks))
]

-- At a reading above 0, with the queue in order and every timer ready (queued, its time a positive
-- `vlong`, and if periodic with a period of at least 100 microseconds and one fast tick after which the
-- counter is one too), `timerintr` returns: the timers it took were all due, those left are in order and
-- go off later, and the hardware timer is set to the first of them, if there is one. Every periodic
-- timer is in the queue afterwards, with its period, and every other one either is or was taken.
pub timerintr-Served :
    (s : Tod) (now : ℕ) (q : List Timer)
    → 0 < now
    → IsSorted 0 q
    → AllReady s now q
    → Served now q (timerintr s now q)
unfolding timerintr
timerintr-Served s now q p h r =
    let e : (now == 0) ≡ false = ground arith in
    rw e (service-Served (lateness now q + 1) s now false q (omega arith) h r)
