-- ===== src/Taslock/Tests.antt =====
-- Runs of two processors, and the theorems applied to them.
use plan9_ocaml.Prelude.{ℕ, none, some, true, false, ◌≡◌, refl, ◌≢◌, ◌≤◌}
use plan9_ocaml.Taslock.{
  first, away, lock, ilock, Own, advance, complains, Call, advance_at, enter, try_lock, inccnt,
  try_ilock, deccnt, give_up, unlock_start, unlock_end,
}
use plan9_ocaml.Taslock.Run.{System, Reach, IsStart, start, later, call, move, update}
use plan9_ocaml.Taslock.Safety.{mutual_exclusion, away-restored, inside-Owned, no_panic}
use plan9_ocaml.Taslock.Liveness.{lock_reachable, both, Leads, IsIn}

abbrev idle : Own
idle = record {
  nlocks = 3;
  islo = true;
  ilockdepth = 0;
  lastlock = false;
  lastilock = false;
  callerpc = 0;
  place = away;
}

-- A free lock, with what its last holder left in it.
abbrev initial : System
initial = record {
  lock = record { key = 0; isilock = false; sr = false; pc = 7; p = some 5; cpu = none };
  own = λ i. idle;
}

initial-IsStart : IsStart initial
unfolding IsStart
initial-IsStart = ((λ i. refl), refl, refl)

-- The system after a step of processor `i`, and after a call of `lock` or `ilock`.
abbrev stepped : ℕ → System → System
stepped i s = elim (advance i s.lock (s.own i)) [
  | none ↦ s
  | some (l, o) ↦ record { lock = l; own = update s.own i o }
]

abbrev called : ℕ → Call → System → System
called i c s = record s { own = update s.own i (enter c 0x100 (s.own i)) }

-- Processor 0 gets the lock,
abbrev taken : System
taken = stepped 0 (stepped 0 (stepped 0 (stepped 0 (stepped 0 (called 0 lock initial)))))

-- and processor 1 waits for it in `ilock`.
abbrev contended : System
contended = stepped 1 (stepped 1 (called 1 ilock taken))

-- Later it gets it, too.
abbrev passed : System
passed = stepped 0 (stepped 0 (stepped 0 (stepped 0 contended)))

taken-Reach : Reach initial taken
unfolding advance advance_at try_lock enter inccnt
taken-Reach =
    later
      (later
        (later (later (later (later start (call 0 lock 0x100 refl)) (move 0 refl)) (move 0 refl))
          (move 0 refl))
        (move 0 refl))
      (move 0 refl)

contended-Reach : Reach initial contended
unfolding advance advance_at try_lock try_ilock enter inccnt
contended-Reach =
    later (later (later taken-Reach (call 1 ilock 0x100 refl)) (move 1 refl)) (move 1 refl)

passed-Reach : Reach initial passed
unfolding advance advance_at try_lock try_ilock enter inccnt deccnt give_up unlock_start unlock_end
passed-Reach =
    later (later (later (later contended-Reach (move 0 refl)) (move 0 refl)) (move 0 refl))
      (move 0 refl)

mutual_exclusion_example : ◌≡◌ {A = ℕ} 0 0
unfolding advance advance_at try_lock try_ilock enter inccnt
mutual_exclusion_example =
    mutual_exclusion initial contended 0 0 initial-IsStart contended-Reach refl refl

away-restored_example :
    ((passed.own 0).islo ≡ true) × ((passed.own 0).nlocks ≡ 3) × ((passed.own 0).ilockdepth ≡ 0)
unfolding advance advance_at try_lock try_ilock enter inccnt deccnt give_up unlock_start unlock_end
away-restored_example = away-restored initial passed 0 initial-IsStart passed-Reach refl

inside-Owned_example :
    (complains first 0 contended.lock (contended.own 0) ≡ false)
    × (contended.lock.p ≡ some 0)
    × (contended.lock.isilock ≡ false)
    × (contended.lock.cpu ≡ some 0)
unfolding advance advance_at try_lock try_ilock enter inccnt
inside-Owned_example = inside-Owned initial contended 0 first initial-IsStart contended-Reach refl

no_panic_example : advance 1 contended.lock (contended.own 1) ≢ none
no_panic_example = no_panic initial contended 1 initial-IsStart contended-Reach

lock_reachable_example :
    (n : ℕ) × (k : ℕ) × (m : ℕ) × (n ≤ 8)
    × (m ≤ 7)
    × Leads (λ (u : System). IsIn u.lock (u.own 1)) (both n k m 1 contended)
unfolding advance advance_at try_lock try_ilock enter inccnt
lock_reachable_example = lock_reachable initial contended 1 initial-IsStart contended-Reach refl
