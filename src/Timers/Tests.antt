-- ===== src/Timers/Tests.antt =====
-- A queue of three timers, and the theorems applied to it.
use plan9_ocaml.Prelude.{[], some, true, false, ℕ, List, arith, ◌≡◌, ◌∷◌, ◌^◌, refl}
use plan9_ocaml.Tod.{Tod, fastticks_of, mul64fract}
use plan9_ocaml.Timers.{Timer, relative, periodic, tadd, tdel, timerintr, insert}
use plan9_ocaml.Timers.Insert.{IsSorted, Added, tadd-Added}
use plan9_ocaml.Timers.Remove.{Removed, tdel-Removed}
use plan9_ocaml.Timers.Interrupt.{IsReady, AllReady, Served, timerintr-Served}

-- The time of day with a counter of 1 MHz.
abbrev tod : Tod
tod = record {
  init = true;
  cnt = 0;
  multiplier = 4_294_967_296_000;
  divider = 4_294_968;
  umultiplier = 4_294_967_296;
  udivider = 4_294_967_297;
  hz = 1_000_000;
  last = 5;
  off = 0;
  lasttime = 0;
  delta = 0;
  sstart = 0;
  send = 0;
}

abbrev clock : Timer
clock = record { name = 1; tmode = periodic; tns = 100_000; tf = false; twhen = 50; queued = true }

abbrev alarm : ℕ → ℕ → Timer
alarm n w = record { name = n; tmode = relative; tns = 7; tf = true; twhen = w; queued = true }

abbrev waiting : List Timer
waiting = clock ∷ alarm 2 300 ∷ alarm 3 400 ∷ []

abbrev fresh : Timer
fresh = record { name = 4; tmode = relative; tns = 20_000; tf = true; twhen = 0; queued = false }

-- 50, 150 and 250 are past: the clock has gone off three times.
interrupt_at_260 :
    timerintr tod 260 waiting
    ≡ some (record {
      fired = clock ∷ record clock { twhen = 150 } ∷ record clock { twhen = 250 } ∷ [];
      timerset = some 300;
      hzclock = true;
      queue = alarm 2 300 ∷ record clock { twhen = 350 } ∷ alarm 3 400 ∷ [];
    })
unfolding timerintr fastticks_of
interrupt_at_260 = refl

waiting-IsSorted : IsSorted 0 waiting
unfolding IsSorted
waiting-IsSorted = (omega arith, (omega arith, (omega arith, tt)))

waiting-AllReady : AllReady tod 260 waiting
unfolding AllReady IsReady fastticks_of mul64fract
waiting-AllReady = (
  (refl, omega arith, omega arith, λ _. (omega arith, omega arith, omega arith, omega arith)),
  (
    (refl, omega arith, omega arith, λ e. ground arith),
    ((refl, omega arith, omega arith, λ e. ground arith), tt),
  ),
)

timerintr-Served_example : Served 260 waiting (timerintr tod 260 waiting)
timerintr-Served_example =
    timerintr-Served tod 260 waiting (omega arith) waiting-IsSorted waiting-AllReady

tadd-Added_example : Added tod 290 fresh waiting (tadd tod 290 waiting fresh)
tadd-Added_example = tadd-Added tod 290 waiting fresh waiting-IsSorted

tdel-Removed_example : Removed 1 waiting (tdel clock waiting) × IsSorted 0 (tdel clock waiting).1
tdel-Removed_example = tdel-Removed clock waiting refl waiting-IsSorted

first_taken : tdel clock waiting ≡ (300, alarm 2 300 ∷ alarm 3 400 ∷ [])
unfolding tdel
first_taken = refl

-- A time of 2 ^ 63 stands in front of one of 300 in the queue, since it is negative there, and the
-- interrupt, which has it as a positive number, leaves the timer behind it that is due.
due_behind :
    (insert (alarm 2 300) (alarm 5 (2 ^ 63) ∷ []) ≡ alarm 5 (2 ^ 63) ∷ alarm 2 300 ∷ [])
    × (timerintr tod 400 (alarm 5 (2 ^ 63) ∷ alarm 2 300 ∷ [])
        ≡ some (record {
          fired = [];
          timerset = some (2 ^ 63);
          hzclock = false;
          queue = alarm 5 (2 ^ 63) ∷ alarm 2 300 ∷ [];
        }))
unfolding insert timerintr
due_behind = (refl, refl)
