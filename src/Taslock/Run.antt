-- ===== src/Taslock/Run.antt =====
-- The processors on one lock, interleaved in any order, and what holds at every place of the code.
use plan9_ocaml.Prelude.{ℕ, Bool, Option, if◌then◌else◌, ◌≡◌, false, some, true, ◌==◌, ◌+◌, none}
use plan9_ocaml.Taslock.{
  first, again, can, int, is_int, away, lock_tas, lock_back, can_tas, can_back, ilock_tas,
  ilock_splx, set_sr, set_pc, set_p, set_isilock, set_cpu, inside, clear_cpu, clear_key, cleared,
  Lock, Own, Place, Way, Call, advance, enter, away, is_int,
}

abbrev pub update {ℓ} : {A : Type ℓ} → (ℕ → A) → ℕ → A → ℕ → A
update f i a j = if i == j then a else f j

pub record System : Type 0 where
  pub lock : Lock
  pub own : ℕ → Own

pub data Step (s : System) : System → Type 0 where
  call :
      (i : ℕ) (c : Call) (pc : ℕ)
      → (s.own i).place ≡ away
      → Step s (record s { own = update s.own i (enter c pc (s.own i)) })
  move :
      (i : ℕ) {l : Lock} {o : Own}
      → advance i s.lock (s.own i) ≡ some (l, o)
      → Step s (record { lock = l; own = update s.own i o })

-- No processor is in the code, and the lock is free.
unfoldable pub IsStart : System → Type 0
IsStart s = ((i : ℕ) → (s.own i).place ≡ away) × (s.lock.key ≡ 0) × (s.lock.cpu ≡ none)

pub data Reach (s : System) : System → Type 0 where
  start : Reach s s
  later : {t u : System} → Reach s t → Step t u → Reach s u

abbrev by_way : Way → ℕ
by_way w = if is_int w then 0 else 1

-- How much larger than elsewhere the counts `nlocks` and `ilockdepth` are, whether interrupts are on,
-- and what the local variable is, given whether they are on elsewhere.
abbrev pub more : Place → ℕ
more (lock_tas retry) = 1
more lock_back = 1
more can_tas = 1
more can_back = 1
more (set_pc w) = by_way w
more (set_p w) = by_way w
more (set_isilock w) = by_way w
more (set_cpu w) = by_way w
more (inside w) = by_way w
more (clear_cpu w sr) = by_way w
more (clear_key w sr) = by_way w
more (cleared w sr) = by_way w
more _ = 0

-- Whether a processor at the place has won arch_tas, and has not reset the key.
abbrev pub holds : Place → Bool
holds (set_sr x) = true
holds (set_pc w) = true
holds (set_p w) = true
holds (set_isilock w) = true
holds (set_cpu w) = true
holds (inside w) = true
holds (clear_cpu w sr) = true
holds (clear_key w sr) = true
holds _ = false

-- Whether it is between arch_splhi and arch_splx, and whether it is in the count of `ilockdepth`.
abbrev pub is_masked : Place → Bool
is_masked (ilock_tas x) = true
is_masked (ilock_splx x) = true
is_masked (set_sr x) = true
is_masked (set_pc w) = is_int w
is_masked (set_p w) = is_int w
is_masked (set_isilock w) = is_int w
is_masked (set_cpu w) = is_int w
is_masked (inside w) = is_int w
is_masked (clear_cpu w sr) = is_int w
is_masked (clear_key w sr) = is_int w
is_masked (cleared w sr) = is_int w
is_masked _ = false

abbrev pub is_deep : Place → Bool
is_deep (set_sr x) = true
is_deep (set_pc w) = is_int w
is_deep (set_p w) = is_int w
is_deep (set_isilock w) = is_int w
is_deep (set_cpu w) = is_int w
is_deep (inside w) = is_int w
is_deep (clear_cpu w sr) = is_int w
is_deep (clear_key w sr) = is_int w
is_deep (cleared w sr) = is_int w
is_deep _ = false

-- The local variable, or `lo` where there is none.
abbrev pub saved : Place → (lo : Bool) → Bool
saved (ilock_tas x) lo = x
saved (ilock_splx x) lo = x
saved (set_sr x) lo = x
saved (clear_cpu w sr) lo = sr
saved (clear_key w sr) lo = sr
saved (cleared w sr) lo = sr
saved _ lo = lo

-- The state of a processor at a place, by its state outside, `h`.
unfoldable pub IsLocalAt : (h o : Own) → Place → Type 0
IsLocalAt h o p =
    (o.nlocks ≡ h.nlocks + more p)
    × (o.islo ≡ (if is_masked p then false else h.islo))
    × (o.ilockdepth ≡ h.ilockdepth + (if is_deep p then 1 else 0))
    × (saved p h.islo ≡ h.islo)

unfoldable pub IsLocal : (h o : Own) → Type 0
IsLocal h o = IsLocalAt h o o.place

-- What is in the lock for its holder `i` at a place: `canlock` has set `cpu` before `isilock`, and a
-- later attempt of `lock` leaves it unset.
abbrev pub cpu_of : (i : ℕ) → Way → Option ℕ
cpu_of i first = some i
cpu_of i can = some i
cpu_of i int = some i
cpu_of i again = none

abbrev early_cpu : (i : ℕ) → Way → Option ℕ
early_cpu i can = some i
early_cpu i first = none
early_cpu i int = none
early_cpu i again = none

abbrev is_can : Way → Bool
is_can can = true
is_can first = false
is_can again = false
is_can int = false

unfoldable pub HasLevel : (h : Own) → Way → Lock → Type 0
HasLevel h w l = (if is_int w then l.sr else h.islo) ≡ h.islo

unfoldable pub IsHolder : (i : ℕ) (h : Own) → Lock → Place → Type 0
unfolding HasLevel
IsHolder i h l (set_sr x) = (l.key ≡ 1) × (l.cpu ≡ none)
IsHolder i h l (set_pc w) = (l.key ≡ 1) × (l.cpu ≡ none) × HasLevel h w l
IsHolder i h l (set_p w) = (l.key ≡ 1) × (l.cpu ≡ none) × HasLevel h w l
IsHolder i h l (set_isilock w) =
    (l.key ≡ 1) × (l.cpu ≡ early_cpu i w) × HasLevel h w l × (l.p ≡ some i)
IsHolder i h l (set_cpu w) =
    (l.key ≡ 1)
    × (l.cpu ≡ none)
    × HasLevel h w l
    × (l.p ≡ some i)
    × ((if is_can w then false else l.isilock) ≡ is_int w)
    × (cpu_of i w ≡ some i)
IsHolder i h l (inside w) =
    (l.key ≡ 1) × (l.cpu ≡ cpu_of i w) × HasLevel h w l × (l.p ≡ some i) × (l.isilock ≡ is_int w)
IsHolder i h l (clear_cpu w sr) = l.key ≡ 1
IsHolder i h l (clear_key w sr) = (l.key ≡ 1) × (l.cpu ≡ none)
IsHolder i h l _ = ⊥
