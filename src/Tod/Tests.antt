-- ===== src/Tod/Tests.antt =====
-- Runs of the time of day on concrete states, and the theorems applied to them.
use mathlib.Core.Option.{some}
use plan9_ocaml.Prelude.{
  List, ℕ, false, true, ◌≡◌, ◌^◌, ◌∷◌, ◌*◌, [], arith, some, ◌-◌, ◌+◌, ◌<◌, refl,
}
use plan9_ocaml.Tod.{Tod, Clock, todget, todset, todsetfreq, ns2fastticks, corrected, ℕ, true}
use plan9_ocaml.Tod.Fract.{ns2fastticks-lt}
use mathlib.Core.Option as Option
use plan9_ocaml.Tod.Monotone.{Run-IsAscending, IsAscending, AreDates, done, step, get}
use plan9_ocaml.Tod.Adjust.{corrected-corrected}

-- A counter of 1 MHz.
abbrev clock_at : ℕ → ℕ → Clock
clock_at ticks slow = record { freq = 1_000_000; fastticks = ticks; cpu_ticks = slow }

abbrev blank : Tod
blank = record {
  init = false;
  cnt = 0;
  multiplier = 0;
  divider = 0;
  umultiplier = 0;
  udivider = 0;
  hz = 0;
  last = 0;
  off = 0;
  lasttime = 0;
  delta = 0;
  sstart = 0;
  send = 0;
}

-- A counter of 1 MHz, read first at 5.
abbrev started : Tod
started = record {
  init = true;
  cnt = 0;
  multiplier = 4_294_967_296_000;
  divider = 4_294_968;
  umultiplier = 4_294_967_296;
  udivider = 4_294_967_297;
  hz = 1_000_000;
  last = 5;
  off = 0;
  lasttime = 0;
  delta = 0;
  sstart = 0;
  send = 0;
}

-- The same after a reading at 12: 7000 ns.
abbrev read_once : Tod
read_once = record started { cnt = 1; lasttime = 7000 }

todget_first : todget (clock_at 5 0) blank ≡ some (0, record started { cnt = 1 })
unfolding todget
todget_first = refl

todget_at_12 : todget (clock_at 12 0) started ≡ some (7000, read_once)
unfolding todget
todget_at_12 = refl

-- The counter went back.
todget_back : todget (clock_at 3 0) read_once ≡ some (7000, record read_once { cnt = 2 })
unfolding todget
todget_back = refl

set_freq : todsetfreq 1_000_000 started ≡ some started
unfolding todsetfreq
set_freq = refl

-- By 100 ns over 10 slow ticks.
adjusting :
    Option.map {B = ℕ × ℕ × ℕ}
      (λ (s : Tod). (s.delta, s.sstart, s.send))
      (todset (clock_at 12 40) (2 ^ 64 - 1) 100 10 read_once)
    ≡ some (10, 40, 50)
unfolding todset
adjusting = refl

abbrev under_way : Tod
under_way = record read_once { delta = 10; sstart = 40; send = 50 }

abbrev times : List ℕ
times = 7000 ∷ 7000 ∷ []

times-AreDates : AreDates times
unfolding AreDates
times-AreDates = (omega arith, (omega arith, tt))

Run-IsAscending_example : IsAscending 0 times
Run-IsAscending_example =
    Run-IsAscending started (record read_once { cnt = 2 }) times
      (step (get (clock_at 12 0) todget_at_12) (step (get (clock_at 3 0) todget_back) done))
      times-AreDates

-- An adjustment by -100000 ns within one slow tick: the time after 7000 is -92000.
negative_time :
    Option.map {B = ℕ}
      (λ (r : ℕ × Tod). r.0)
      (todget
        (clock_at 13 41)
        (record read_once { delta = 2 ^ 64 - 100_000; sstart = 40; send = 41 }))
    ≡ some (2 ^ 64 - 92_000)
unfolding todget
negative_time = refl

corrected-corrected_example : corrected 60 (corrected 44 under_way) ≡ corrected 60 under_way
corrected-corrected_example =
    corrected-corrected under_way 44 60 (omega arith) (omega arith) (omega arith) (omega arith)
      (omega arith)

ns2fastticks-lt_example :
    (r : ℕ) × (ns2fastticks (clock_at 9 0) started 5000 ≡ some (r, started))
    × (5000 * 1_000_000 < (r + 1) * 1_000_000_000)
ns2fastticks-lt_example =
    ns2fastticks-lt 1_000_000 5000 started started (omega arith) (omega arith) set_freq
      (clock_at 9 0) refl (omega arith)
