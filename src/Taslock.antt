-- ===== src/Taslock.antt =====
-- kernel/Port/taslock.c: the spin locks of the kernel. One lock, and any number of processors, each
-- with its process. A processor is at one place of the code, and a step of it is one access to the
-- lock with what it does to its own state up to the next one. A processor that has the lock calls
-- `unlock` if it got it by `lock` or `canlock`, and `iunlock` if by `ilock`. `none` is a panic.
-- The statistics, the counts of cycles, the detection of long loops and of inversion, and the call
-- of `sched` at the end of `unlock` are not modelled. Every processor has a process (`up` is not
-- nil), and the counters do not wrap.
use mathlib.Core.Option.{Option}
pub mod Run
pub mod Moves
pub mod Invariant
pub mod Safety
pub mod Liveness
pub mod Tests
use mathlib.Core.Option as Option
use plan9_ocaml.Prelude.{
  ℕ, [], none, some, zero, suc, Bool, false, if◌then◌else◌, ◌+◌, Option, true, ◌==◌, ◌-◌, ◌||◌, not,
}

-- By which way a processor got the lock: the first attempt of `lock`, a later one, `canlock`, `ilock`.
pub data Way : Type 0 where
  first : Way
  again : Way
  can : Way
  int : Way

abbrev pub is_int : Way → Bool
is_int int = true
is_int first = false
is_int again = false
is_int can = false

pub record Lock : Type 0 where
  pub key : ℕ
  pub isilock : Bool
  pub sr : Bool
  pub pc : ℕ
  pub p : Option ℕ
  pub cpu : Option ℕ

-- Before which access to the lock a processor is; `x` and `sr` are the local variables of `ilock` and
-- `iunlock`.
pub data Place : Type 0 where
  away : Place
  lock_tas : (retry : Bool) → Place
  lock_back : Place
  lock_wait : Place
  can_tas : Place
  can_back : Place
  ilock_tas : (x : Bool) → Place
  ilock_splx : (x : Bool) → Place
  ilock_wait : Place
  set_sr : (x : Bool) → Place
  set_pc : Way → Place
  set_p : Way → Place
  set_isilock : Way → Place
  set_cpu : Way → Place
  inside : Way → Place
  clear_cpu : Way → (sr : Bool) → Place
  clear_key : Way → (sr : Bool) → Place
  cleared : Way → (sr : Bool) → Place

-- A processor and its process: `islo` is whether interrupts are on, `lastlock` and `lastilock` whether
-- these fields point to the lock, `callerpc` where the function was called.
pub record Own : Type 0 where
  pub nlocks : ℕ
  pub islo : Bool
  pub ilockdepth : ℕ
  pub lastlock : Bool
  pub lastilock : Bool
  pub callerpc : ℕ
  pub place : Place

-- arch_tas: the old value, and the lock with the new one.
abbrev pub tas : Lock → ℕ × Lock
tas l = if l.key == 0 then (0, record l { key = 1 }) else (l.key, l)

pub inccnt : Own → Own
inccnt o = record o { nlocks = o.nlocks + 1 }

pub deccnt : Own → Option Own
deccnt o = if o.nlocks == 0 then none else some (record o { nlocks = o.nlocks - 1 })

-- What follows arch_tas in `lock` and `canlock`, with where to go when the lock is held.
pub try_lock : Way → (busy : Place) → Lock → Own → Lock × Own
try_lock w busy l o =
    let (old, l') = tas l in
    if old == 0
    then (l', record o { lastlock = true; place = set_pc w })
    else (l', record o { place = busy })

-- `while(l->key)` in `lock`
pub spin : Lock → Own → Lock × Own
spin l o =
    if l.key == 0
    then (l, record (inccnt o) { place = lock_tas true })
    else (l, record o { place = lock_wait })

-- A failed attempt of `lock` or `canlock` takes back its count.
pub give_up : (next : Place) → Lock → Own → Option (Lock × Own)
give_up next l o =
    Option.map {B = Lock × Own} (λ (r : Own). (l, record r { place = next })) (deccnt o)

pub try_ilock : (x : Bool) → Lock → Own → Lock × Own
try_ilock x l o =
    let (old, l') = tas l in
    if old == 0
    then (l', record o { ilockdepth = o.ilockdepth + 1; lastilock = true; place = set_sr x })
    else (l', record o { place = ilock_splx x })

-- `while(l->key)` in `ilock`, and the call of arch_splhi behind it
pub ispin : Lock → Own → Lock × Own
ispin l o =
    if l.key == 0
    then (l, record o { islo = false; place = ilock_tas o.islo })
    else (l, record o { place = ilock_wait })

-- The order of the assignments: `canlock` sets `isilock` last, and a later attempt of `lock` does not
-- set `cpu`.
abbrev pub after_p : Way → Place
after_p can = set_cpu can
after_p first = set_isilock first
after_p again = set_isilock again
after_p int = set_isilock int

abbrev pub after_isilock : Way → Place
after_isilock first = set_cpu first
after_isilock int = set_cpu int
after_isilock again = inside again
after_isilock can = inside can

abbrev pub after_cpu : Way → Place
after_cpu can = set_isilock can
after_cpu first = inside first
after_cpu again = inside again
after_cpu int = inside int

-- `unlock`, or `iunlock`, which reads `sr`
pub unlock_start : Way → Lock → Own → Lock × Own
unlock_start w l o = (l, record o { place = clear_cpu w (if is_int w then l.sr else o.islo) })

-- The ends of the two, behind `l->key = 0`
pub unlock_end : Way → (sr : Bool) → Lock → Own → Option (Lock × Own)
unlock_end w sr l o =
    if is_int w
    then some
        (l, record o { ilockdepth = o.ilockdepth - 1; lastilock = false; islo = sr; place = away })
    else give_up away l o

-- The next step of processor `i`.
pub advance_at : (i : ℕ) → Lock → Own → Place → Option (Lock × Own)
advance_at i l o away = some (l, record o { place = away })
advance_at i l o (lock_tas retry) = some (try_lock (if retry then again else first) lock_back l o)
advance_at i l o lock_back = give_up lock_wait l o
advance_at i l o lock_wait = some (spin l o)
advance_at i l o can_tas = some (try_lock can can_back l o)
advance_at i l o can_back = give_up away l o
advance_at i l o (ilock_tas x) = some (try_ilock x l o)
advance_at i l o (ilock_splx x) = some (l, record o { islo = x; place = ilock_wait })
advance_at i l o ilock_wait = some (ispin l o)
advance_at i l o (set_sr x) = some (record l { sr = x }, record o { place = set_pc int })
advance_at i l o (set_pc w) = some (record l { pc = o.callerpc }, record o { place = set_p w })
advance_at i l o (set_p w) = some (record l { p = some i }, record o { place = after_p w })
advance_at i l o (set_isilock w) =
    some (record l { isilock = is_int w }, record o { place = after_isilock w })
advance_at i l o (set_cpu w) = some (record l { cpu = some i }, record o { place = after_cpu w })
advance_at i l o (inside w) = some (unlock_start w l o)
advance_at i l o (clear_cpu w sr) =
    some (record l { cpu = none }, record o { place = clear_key w sr })
advance_at i l o (clear_key w sr) = some (record l { key = 0 }, record o { place = cleared w sr })
advance_at i l o (cleared w sr) = unlock_end w sr l o

pub advance : (i : ℕ) → Lock → Own → Option (Lock × Own)
advance i l o = advance_at i l o o.place

-- The start of `lock`, `canlock` and `ilock`, called from `pc`.
pub data Call : Type 0 where
  lock : Call
  canlock : Call
  ilock : Call

pub enter : Call → (pc : ℕ) → Own → Own
enter lock pc o = record (inccnt o) { callerpc = pc; place = lock_tas false }
enter canlock pc o = record (inccnt o) { callerpc = pc; place = can_tas }
enter ilock pc o = record o { islo = false; callerpc = pc; place = ilock_tas o.islo }

-- Whether `l->p` is the process of processor `i`.
abbrev pub is_owner : (i : ℕ) → Option ℕ → Bool
is_owner i none = false
is_owner i (some j) = i == j

-- When `unlock` and `iunlock` print that something is wrong.
pub unlock_complains : (i : ℕ) → Lock → Bool
unlock_complains i l = (l.key == 0) || (l.isilock || not (is_owner i l.p))

pub iunlock_complains : Lock → Own → Bool
iunlock_complains l o = (l.key == 0) || (not l.isilock || o.islo)

-- The function that a processor calls which got the lock this way.
pub complains : Way → (i : ℕ) → Lock → Own → Bool
complains w i l o = if is_int w then iunlock_complains l o else unlock_complains i l
