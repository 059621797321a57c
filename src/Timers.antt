-- ===== src/Timers.antt =====
-- kernel/Port/portclock.c: the queue of timers of one processor.
-- A timer is a record with a name, its address, in the place of the link `tnext`; the queue of the
-- processor is a list of them. `tns` and `twhen` are `vlong`s, 64-bit patterns: `tadd` compares them
-- with their signs, and `timerintr` without. The reading of the fast counter and the time of day that
-- `ns2fastticks` converts with, which `timersinit` has initialized, are arguments; `none` is a failed assertion. The locks are not modelled, and a handler is a mark in the
-- list of the handlers called: it does not call the timer functions itself.
pub mod Insert
pub mod Remove
pub mod Interrupt
pub mod Tests
use mathlib.Core.Option.{Option, none, some}
use plan9_ocaml.Prelude.{
  ℕ, Bool, List, ◌∷◌, false, true, Option, if◌then◌else◌, ◌+◌, ◌*◌, [], ltb, leb, none, ◌==◌, some,
  ◌-◌, ◌%◌, ◌&&◌, ◌||◌, ◌/◌, not, u32_mod, add32, ◌^◌,
}
use plan9_ocaml.Prelude.{suc, zero}
use mathlib.Core.Option as Option
use plan9_ocaml.Tod.{Tod, add64, is_neg, u64_mod, fastticks_of, arch_hz}

pub data Mode : Type 0 where
  relative : Mode
  periodic : Mode

-- `tf` tells whether there is a handler, `queued` whether `tt` is not nil.
pub record Timer : Type 0 where
  pub name : ℕ
  pub tmode : Mode
  pub tns : ℕ
  pub tf : Bool
  pub twhen : ℕ
  pub queued : Bool

abbrev pub is_periodic : Mode → Bool
is_periodic relative = false
is_periodic periodic = true

-- The time of the first timer at the same frequency.
companion : ℕ → List Timer → Option ℕ
companion tns [] = none
companion tns (t ∷ q) =
    if is_periodic t.tmode && (t.tns == tns) then some t.twhen else companion tns q

-- Where a periodic timer starts from.
start : (now : ℕ) → List Timer → Timer → ℕ
unfolding companion
start now q t =
    if t.twhen == 0 then elim (companion t.tns q) [ none ↦ now | some w ↦ w ] else t.twhen

-- The timer with the time it goes off.
pub schedule : Tod → (now : ℕ) → List Timer → Mode → Timer → Option Timer
unfolding start
schedule s now q relative t =
    let ns = if (t.tns == 0) || is_neg t.tns then 1 else t.tns in
    some (record t { tns = ns; twhen = add64 now (fastticks_of s ns) })
schedule s now q periodic t =
    if leb 100_000 t.tns && not (is_neg t.tns)
    then some (record t { twhen = add64 (start now q t) (fastticks_of s t.tns) })
    else none

-- The place of a `vlong` in the order of the signed numbers, which puts negative times first.
abbrev pub rank : ℕ → ℕ
rank x = add64 x (2 ^ 63)

-- In front of the first timer that goes off later.
pub insert : Timer → List Timer → List Timer
insert nt [] = nt ∷ []
insert nt (t ∷ q) = if ltb (rank nt.twhen) (rank t.twhen) then nt ∷ t ∷ q else t ∷ insert nt q

-- Whether `insert` puts the timer first.
is_first : Timer → List Timer → Bool
is_first nt [] = true
is_first nt (t ∷ q) = ltb (rank nt.twhen) (rank t.twhen)

enqueue : List Timer → Option Timer → Option (ℕ × List Timer)
unfolding insert is_first
enqueue q none = none
enqueue q (some t) =
    let nt = record t { queued = true } in some (if is_first t q then t.twhen else 0, insert nt q)

-- The time of the timer when it is the first, 0 otherwise, and the queue.
pub tadd : Tod → (now : ℕ) → List Timer → Timer → Option (ℕ × List Timer)
unfolding schedule enqueue
tadd s now q nt = if nt.queued then none else enqueue q (schedule s now q nt.tmode nt)

pub remove : (name : ℕ) → List Timer → List Timer
remove n [] = []
remove n (t ∷ q) = if t.name == n then q else t ∷ remove n q

pub head_when : List Timer → ℕ
head_when [] = 0
head_when (t ∷ q) = t.twhen

pub is_head : (name : ℕ) → List Timer → Bool
is_head n [] = true
is_head n (t ∷ q) = t.name == n

-- The time of the new first timer when the first was removed, 0 otherwise.
pub tdel : Timer → List Timer → ℕ × List Timer
unfolding remove head_when is_head
tdel dt q =
    if dt.queued
    then (if is_head dt.name q then head_when (remove dt.name q) else 0, remove dt.name q)
    else (0, q)

-- The time the hardware timer is set to, if it is set, and the queue.
pub timeradd : Tod → (now : ℕ) → List Timer → Timer → Option (Option ℕ × List Timer)
unfolding tadd tdel
timeradd s now q nt =
    let q' = (tdel nt q).1 in
    Option.map {B = Option ℕ × List Timer}
      (λ (r : ℕ × List Timer). (if r.0 == 0 then none else some r.0, r.1))
      (tadd s now q' (record nt { queued = false }))

pub timerdel : Timer → List Timer → Option ℕ × List Timer
unfolding tdel
timerdel dt q = let r = tdel dt q in (if r.0 == 0 then none else some (head_when r.1), r.1)

-- What the interrupt does: the timers taken, in order, whose handler or, for want of one, the clock
-- was due; the time the hardware timer is set to; whether `hzclock` is called; the queue.
pub record Outcome : Type 0 where
  pub fired : List Timer
  pub timerset : Option ℕ
  pub hzclock : Bool
  pub queue : List Timer

fire : Timer → Outcome → Outcome
fire t o = record o { fired = t ∷ o.fired }

-- A periodic timer goes back into the queue.
again : Tod → (now : ℕ) → Timer → List Timer → Option (List Timer)
unfolding tadd
again s now t q =
    if is_periodic t.tmode
    then Option.map {B = List Timer} (λ (r : ℕ × List Timer). r.1)
        (tadd s now q (record t { queued = false }))
    else some q

-- The loop of `timerintr`; `callhzclock` tells whether a timer without a handler was taken.
service : (fuel : ℕ) → Tod → (now : ℕ) → (callhzclock : Bool) → List Timer → Option Outcome
unfolding again fire
service fuel s now c [] = some (record { fired = []; timerset = none; hzclock = false; queue = [] })
service zero s now c (t ∷ q) = none
service (suc fuel) s now c (t ∷ q) =
    if ltb now t.twhen
    then some (record { fired = []; timerset = some t.twhen; hzclock = c; queue = t ∷ q })
    else if t.queued
    then elim (again s now t q) [
      | none ↦ none
      | some q' ↦ Option.map (fire t) (service fuel s now (c || not t.tf) q')
    ]
    else none

-- An upper bound on the rounds: each puts off a timer that is due, or takes it away.
pub lateness : (now : ℕ) → List Timer → ℕ
lateness now [] = 0
lateness now (t ∷ q) = (now + 1 - t.twhen) + lateness now q

pub timerintr : Tod → (now : ℕ) → List Timer → Option Outcome
unfolding service lateness
timerintr s now q = if now == 0 then none else service (lateness now q + 1) s now false q

-- Milliseconds and clock ticks, 32-bit words.
pub tk2ms : ℕ → ℕ
tk2ms ticks = ticks * 1000 % u64_mod / arch_hz % u32_mod

pub ms2tk : ℕ → ℕ
ms2tk ms =
    if leb (1_000_000_000 / arch_hz) ms
    then ms / 1000 * arch_hz % u32_mod
    else add32 (ms * arch_hz % u32_mod) 500 / 1000
