-- ===== src/Tod/Monotone.antt =====
-- The times that todget gives, over runs of every operation but setting the time.
use plan9_ocaml.Prelude.{
  List, ℕ, ◌≡◌, ◌≤◌, some, [], arith, ◌∷◌, ◌++◌, true, sym, Bool, add32, Option, if◌then◌else◌,
  refl, ap, ◌∙◌, ltb, ◌-◌, ◌^◌, ◌<◌,
}
use mathlib.Core.Path.{subst, ap}
use plan9_ocaml.Prelude.{true, false, none}
use plan9_ocaml.Prelude.Int.{ℤ, pos, negsuc, ◌≤ℤ◌}
use plan9_ocaml.Tod.{
  Tod, Clock, todget, todfix, todsetfreq, todinit, adjust, read_tod, reading, corrected, and_read,
  ℕ, add64, mul64fract, elapsed,
}

-- The operations between two settings of the time: `todget` with the time it gives, `todfix`,
-- `todsetfreq` and the gradual adjustment of `todset`.
pub data Step : Tod → List ℕ → Tod → Type 0 where
  get : (c : Clock) {s t : Tod} {n : ℕ} → todget c s ≡ some (n, t) → Step s (n ∷ []) t
  fix : (c : Clock) {s : Tod} → Step s [] (todfix c s)
  setfreq : (f : ℕ) {s t : Tod} → todsetfreq f s ≡ some t → Step s [] t
  adjusted : (c : Clock) (d n : ℕ) {s t : Tod} → todinit c s ≡ some t → Step s [] (adjust c d n t)

-- A run, with the times given, in order.
pub data Run : Tod → List ℕ → Tod → Type 0 where
  done : {s : Tod} → Run s [] s
  step : {s t u : Tod} {ns ms : List ℕ} → Step s ns t → Run t ms u → Run s (ns ++ ms) u

-- A `vlong` as a signed number.
abbrev pub signed : ℕ → ℤ
signed x = if ltb x (2 ^ 63) then pos x else negsuc (2 ^ 64 - x - 1)

-- Each time, a `vlong`, is at least the one before it, the first at least `n`.
pub IsAscending : ℕ → List ℕ → Type 0
IsAscending n [] = Unit
IsAscending n (x ∷ xs) = (signed n ≤ℤ signed x) × IsAscending x xs

-- No time is negative.
unfoldable pub AreDates : List ℕ → Type 0
AreDates [] = Unit
AreDates (x ∷ xs) = (x < 2 ^ 63) × AreDates xs

ascending : (m n : ℕ) → m ≤ n → n < 2 ^ 63 → signed m ≤ℤ signed n
ascending m n le h = ground arith

todfix-lasttime : (c : Clock) (s : Tod) → (todfix c s).lasttime ≡ s.lasttime
unfolding todfix
todfix-lasttime c s = ground arith

todsetfreq-lasttime : (f : ℕ) (s t : Tod) → todsetfreq f s ≡ some t → t.lasttime ≡ s.lasttime
unfolding todsetfreq
todsetfreq-lasttime f s t h = ground arith

chosen_lasttime :
    (b : Bool) (o : Option Tod) (s t : Tod)
    → ((u : Tod) → o ≡ some u → u.lasttime ≡ s.lasttime)
    → (if b then some s else o) ≡ some t
    → t.lasttime ≡ s.lasttime
chosen_lasttime true o s t k h = ground arith
chosen_lasttime false o s t k h = k t h

todinit-lasttime : (c : Clock) (s t : Tod) → todinit c s ≡ some t → t.lasttime ≡ s.lasttime
unfolding todinit
todinit-lasttime c s t h =
    let s' = record s { init = true; last = c.fastticks; hz = c.freq } in
    chosen_lasttime s.init (todsetfreq c.freq s') s t (todsetfreq-lasttime c.freq s') h

corrected-lasttime : (n : ℕ) (s : Tod) → (corrected n s).lasttime ≡ s.lasttime
unfolding corrected
corrected-lasttime n s = ground arith

reading-lasttime :
    (x : ℕ) (s : Tod)
    → (s.lasttime ≤ (reading x s).0) × ((reading x s).1.lasttime ≡ (reading x s).0)
unfolding reading
reading-lasttime x s = ground arith

read_tod-lasttime :
    (c : Clock) (s : Tod)
    → (s.lasttime ≤ (read_tod c s).0) × ((read_tod c s).1.lasttime ≡ (read_tod c s).0)
unfolding read_tod
read_tod-lasttime c s =
    let s' = record s { cnt = add32 s.cnt 1 } in
    let u = corrected c.cpu_ticks s' in
    let p = reading-lasttime (add64 (mul64fract (elapsed c.fastticks u) u.multiplier) u.off) u in
    (subst (λ (n : ℕ). n ≤ (read_tod c s).0) (corrected-lasttime c.cpu_ticks s') p.0, p.1)

and_read-lasttime :
    (c : Clock) (o : Option Tod) (s t : Tod) (n : ℕ)
    → ((u : Tod) → o ≡ some u → u.lasttime ≡ s.lasttime)
    → and_read c o ≡ some (n, t)
    → (s.lasttime ≤ n) × (t.lasttime ≡ n)
unfolding and_read
and_read-lasttime c none s t n k h = ground arith
and_read-lasttime c (some u) s t n k h =
    let same = k u refl in
    let p = read_tod-lasttime c u in
    let e : read_tod c u ≡ (n, t) = cc in
    let e₀ : (read_tod c u).0 ≡ n = ap (λ (r : ℕ × Tod). r.0) e in
    let e₁ : (read_tod c u).1.lasttime ≡ t.lasttime = ap (λ (r : ℕ × Tod). r.1.lasttime) e in
    (omega (arith, p.0, same, e₀), sym e₁ ∙ p.1 ∙ e₀)

todget-lasttime :
    (c : Clock) (s t : Tod) (n : ℕ) → todget c s ≡ some (n, t) → (s.lasttime ≤ n) × (t.lasttime ≡ n)
unfolding todget
todget-lasttime c s t n h = and_read-lasttime c (todinit c s) s t n (todinit-lasttime c s) h

-- A run in which the time is never set, of any length and with any readings of the two counters, and in
-- which no time is negative, gives times that never go back, the first at least the last time given
-- before it.
pub Run-IsAscending :
    (s t : Tod) (ns : List ℕ) → Run s ns t → AreDates ns → IsAscending s.lasttime ns
unfolding IsAscending AreDates adjust
Run-IsAscending s t ns done dates = tt
Run-IsAscending s t ns (step {ms = ms} (get c {n} h) r) dates =
    let p = todget-lasttime c s _ n h in
    (
      ascending s.lasttime n p.0 dates.0,
      subst (λ (m : ℕ). IsAscending m ms) p.1 (Run-IsAscending _ t _ r dates.1),
    )
Run-IsAscending s t ns (step {ms = ms} (fix c) r) dates =
    subst (λ (m : ℕ). IsAscending m ms) (todfix-lasttime c s) (Run-IsAscending _ t _ r dates)
Run-IsAscending s t ns (step {ms = ms} (setfreq f h) r) dates =
    subst (λ (m : ℕ). IsAscending m ms) (todsetfreq-lasttime f s _ h)
      (Run-IsAscending _ t _ r dates)
Run-IsAscending s t ns (step {ms = ms} (adjusted c d n h) r) dates =
    subst (λ (m : ℕ). IsAscending m ms) (todinit-lasttime c s _ h) (Run-IsAscending _ t _ r dates)
