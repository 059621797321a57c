-- ===== src/Tod.antt =====
-- kernel/Port/tod.c and kernel/Port/mul64fract.c: the time of day from a counter of fast ticks.
-- A `uvlong` or `vlong` is a number below 2 ^ 64, the bit pattern; sums wrap. The reading of the
-- counter and of the clock ticks of processor 0 are arguments. The lock is not modelled.
pub mod Fract
pub mod Monotone
pub mod Adjust
pub mod Tests
use mathlib.Core.Option as Option
use plan9_ocaml.Prelude.{
  ℕ, Bool, Option, add32, ◌^◌, ◌+◌, ◌%◌, ◌*◌, if◌then◌else◌, leb, some, ltb, ◌-◌, ◌/◌, ◌==◌, true,
  sub32, ◌||◌, none, ◌&&◌, u32_mod,
}

abbrev pub u64_mod : ℕ
u64_mod = 2 ^ 64

abbrev pub add64 : ℕ → ℕ → ℕ
add64 a b = (a + b) % u64_mod

abbrev pub sub64 : ℕ → ℕ → ℕ
sub64 a b = (a + u64_mod - b) % u64_mod

-- `Arch_HZ` of kernel/Bcm/dat_time.h, slow ticks a second.
abbrev pub arch_hz : ℕ
arch_hz = 1

-- Whether the `vlong` is negative.
abbrev pub is_neg : ℕ → Bool
is_neg x = leb (2 ^ 63) x

-- The middle 64 bits of the product.
unfoldable pub mul64fract : (a b : ℕ) → ℕ
mul64fract a b =
    let bl = b % 2 ^ 32 in
    let bh = b / 2 ^ 32 in
    let al = a % 2 ^ 32 in
    let ah = a / 2 ^ 32 in
    let res = al * bl % u64_mod / 2 ^ 32 in
    let res₁ = add64 res (al * bh % u64_mod) in
    let res₂ = add64 res₁ (ah * bl % u64_mod) in add64 res₂ (ah * bh % u64_mod * 2 ^ 32 % u64_mod)

-- `(to << 32) / from`, where the caller's `from` is not zero.
pub mk64fract : (to from : ℕ) → ℕ
mk64fract to from = to * 2 ^ 32 % u64_mod / from

abbrev pub tod_freq : ℕ
tod_freq = 1_000_000_000

abbrev pub micro_freq : ℕ
micro_freq = 1_000_000

pub record Tod : Type 0 where
  pub init : Bool
  pub cnt : ℕ
  pub multiplier : ℕ
  pub divider : ℕ
  pub umultiplier : ℕ
  pub udivider : ℕ
  pub hz : ℕ
  pub last : ℕ
  pub off : ℕ
  pub lasttime : ℕ
  pub delta : ℕ
  pub sstart : ℕ
  pub send : ℕ

-- What the hardware gives: the frequency and the reading of the fast counter, and the ticks of
-- processor 0.
pub record Clock : Type 0 where
  pub freq : ℕ
  pub fastticks : ℕ
  pub cpu_ticks : ℕ

-- `none` is the panic at a frequency that is not positive.
pub todsetfreq : ℕ → Tod → Option Tod
unfolding mk64fract
todsetfreq f s =
    if (f == 0) || is_neg f
    then none
    else some (record s {
      hz = f;
      multiplier = mk64fract tod_freq f;
      divider = add64 (mk64fract f tod_freq) 1;
      umultiplier = mk64fract micro_freq f;
      udivider = add64 (mk64fract f micro_freq) 1;
    })

pub todinit : Clock → Tod → Option Tod
unfolding todsetfreq
todinit c s =
    if s.init
    then some s
    else todsetfreq c.freq (record s { init = true; last = c.fastticks; hz = c.freq })

-- The correction still due, up to the clock tick `t`.
pub corrected : ℕ → Tod → Tod
corrected ticks s =
    let t = if leb s.send ticks then s.send else ticks in
    if s.sstart == s.send
    then s
    else record s { off = add64 s.off (s.delta * sub32 t s.sstart % u64_mod); sstart = t }

-- The ticks since the last reading, none if the counter went back.
elapsed : ℕ → Tod → ℕ
elapsed ticks s = let diff = sub64 ticks s.last in if is_neg diff then 0 else diff

reading : ℕ → Tod → ℕ × Tod
reading x s = if ltb x s.lasttime then (s.lasttime, s) else (x, record s { lasttime = x })

-- `todget` once initialized.
read_tod : Clock → Tod → ℕ × Tod
unfolding corrected elapsed reading mul64fract
read_tod c s =
    let s' = corrected c.cpu_ticks (record s { cnt = add32 s.cnt 1 }) in
    reading (add64 (mul64fract (elapsed c.fastticks s') s'.multiplier) s'.off) s'

and_read : Clock → Option Tod → Option (ℕ × Tod)
unfolding read_tod
and_read c none = none
and_read c (some s) = some (read_tod c s)

pub todget : Clock → Tod → Option (ℕ × Tod)
unfolding and_read todinit
todget c s = and_read c (todinit c s)

-- The regular call against overflow.
pub todfix : Clock → Tod → Tod
unfolding mul64fract
todfix c s =
    let diff = sub64 c.fastticks s.last in
    if ltb (add64 s.hz (2 ^ 63)) (add64 diff (2 ^ 63))
    then record s { last = c.fastticks; off = add64 (mul64fract diff s.multiplier) s.off }
    else s

-- The conversions, with the state that they leave: they initialize it first if need be.
pub fastticks2us : Clock → Tod → (ticks : ℕ) → Option (ℕ × Tod)
unfolding mul64fract todinit
fastticks2us c s ticks =
    Option.map {B = ℕ × Tod} (λ (s' : Tod). (mul64fract ticks s'.umultiplier, s')) (todinit c s)

-- `ns2fastticks` once initialized.
unfoldable pub fastticks_of : Tod → (ns : ℕ) → ℕ
unfolding mul64fract
fastticks_of s ns = mul64fract ns s.divider

pub ns2fastticks : Clock → Tod → (ns : ℕ) → Option (ℕ × Tod)
unfolding fastticks_of todinit
ns2fastticks c s ns =
    Option.map {B = ℕ × Tod} (λ (s' : Tod). (fastticks_of s' ns, s')) (todinit c s)

pub seconds : Clock → Tod → Option (ℕ × Tod)
unfolding todget
seconds c s = Option.map (λ (r : ℕ × Tod). (r.0 / tod_freq, r.1)) (todget c s)

neg64 : ℕ → ℕ
neg64 x = (u64_mod - x) % u64_mod

-- `a < b` of two `vlong`s.
signed_lt : ℕ → ℕ → Bool
signed_lt a b = ltb (add64 a (2 ^ 63)) (add64 b (2 ^ 63))

-- A `vlong` divided by a positive `int`, toward zero.
div64 : ℕ → ℕ → ℕ
unfolding neg64
div64 d n = if is_neg d then neg64 (neg64 d / n) else d / n

-- The number of slow ticks of an adjustment of `n` seconds, an `int`, at least 1: at most as many ticks
-- as there are units in `delta`.
slow_ticks : (delta n : ℕ) → ℕ
unfolding neg64 signed_lt
slow_ticks delta n =
    let n₁ = (if (n == 0) || leb (2 ^ 31) n then 1 else n) * arch_hz % u32_mod in
    let n₂ = if is_neg delta && signed_lt (neg64 delta) n₁ then neg64 delta % u32_mod else n₁ in
    if signed_lt 0 delta && signed_lt delta n₂ then delta % u32_mod else n₂

-- The two uses of `todset` once initialized: to set the time,
set_time : Clock → ℕ → Tod → Tod
set_time c t s = record s { off = t; last = c.fastticks; lasttime = 0; delta = 0; sstart = s.send }

-- and to adjust it by and by.
pub adjust : Clock → (delta n : ℕ) → Tod → Tod
unfolding slow_ticks div64
adjust c delta n s =
    let k = slow_ticks delta n in
    record s {
      sstart = c.cpu_ticks;
      send = add32 c.cpu_ticks k;
      delta = if k == 0 then 0 else div64 delta k;
    }

pub todset : Clock → (t delta n : ℕ) → Tod → Option Tod
unfolding todinit set_time adjust
todset c t delta n s =
    Option.map (λ (s' : Tod). if is_neg t then adjust c delta n s' else set_time c t s')
      (todinit c s)
