-- ===== src/Strings.antt =====
-- kernel/Libc/port/{strchr,strlen,strncmp,strncpy,memccpy,memcmp,toupper}.c: strings and memory.
-- Memory is the list of the bytes from a pointer on, of which none is read that is not there: `none`
-- is a read or a write past the end of the list. A pointer that a function returns is the number of
-- bytes from its argument. A byte is a number below 256; to widen a `char` keeps their order.
pub mod Search
pub mod Copy
pub mod Compare
pub mod Tests
use mathlib.Core.Option.{Option}
use plan9_ocaml.Prelude.{
  [], none, some, zero, suc, ℕ, List, Option, ◌∷◌, if◌then◌else◌, ◌%◌, not, ltb, ◌==◌, ◌||◌, ◌-◌,
  ◌+◌,
}
use mathlib.Core.Option as Option

-- The loop over the string for the byte `c`; `some none` is the null pointer.
find : (c : ℕ) → List ℕ → Option (Option ℕ)
find c [] = none
find c (b ∷ bs) =
    if b == 0
    then some none
    else if b == c
    then some (some 0)
    else Option.map {B = Option ℕ} (Option.map {B = ℕ} suc) (find c bs)

-- The loop to the end of the string.
find_end : List ℕ → Option ℕ
find_end [] = none
find_end (b ∷ bs) = if b == 0 then some 0 else Option.map {B = ℕ} suc (find_end bs)

-- `c` is an `int`, compared as a byte but to 0 as it is.
pub strchr : List ℕ → (c : ℕ) → Option (Option ℕ)
unfolding find find_end
strchr s c = if c == 0 then Option.map {B = Option ℕ} some (find_end s) else find (c % 256) s

abbrev pub start_of : Option (Option ℕ) → Option ℕ
start_of none = none
start_of (some none) = none
start_of (some (some n)) = some n

pub strlen : List ℕ → Option ℕ
unfolding strchr
strlen s = start_of (strchr s 0)

-- 1, 0 and -1.
pub data Sign : Type 0 where
  above : Sign
  same : Sign
  below : Sign

pub strncmp : List ℕ → List ℕ → (n : ℕ) → Option Sign
strncmp s t zero = some same
strncmp [] t (suc n) = none
strncmp (a ∷ s) [] (suc n) = none
strncmp (a ∷ s) (b ∷ t) (suc n) =
    if not (a == b)
    then some (if ltb b a then above else below)
    else if a == 0
    then some same
    else strncmp s t n

pub memcmp : List ℕ → List ℕ → (n : ℕ) → Option Sign
memcmp s t zero = some same
memcmp [] t (suc n) = none
memcmp (a ∷ s) [] (suc n) = none
memcmp (a ∷ s) (b ∷ t) (suc n) =
    if not (a == b) then some (if ltb b a then above else below) else memcmp s t n

-- Zeros over the first `n` bytes.
pad : List ℕ → (n : ℕ) → Option (List ℕ)
pad s zero = some s
pad [] (suc n) = none
pad (a ∷ s) (suc n) = Option.map {B = List ℕ} (λ (r : List ℕ). 0 ∷ r) (pad s n)

-- The destination afterwards; the two do not overlap.
pub strncpy : (s1 s2 : List ℕ) → (n : ℕ) → Option (List ℕ)
unfolding pad
strncpy s t zero = some s
strncpy [] t (suc n) = none
strncpy (a ∷ s) [] (suc n) = none
strncpy (a ∷ s) (b ∷ t) (suc n) =
    Option.map {B = List ℕ} (λ (r : List ℕ). b ∷ r) (if b == 0 then pad s n else strncpy s t n)

-- The number of bytes copied up to the byte `c`, if it was met, and the destination.
copy_to : (c : ℕ) → (s1 s2 : List ℕ) → (n : ℕ) → Option (Option ℕ × List ℕ)
copy_to c s t zero = some (none, s)
copy_to c [] t (suc n) = none
copy_to c (a ∷ s) [] (suc n) = none
copy_to c (a ∷ s) (b ∷ t) (suc n) =
    if b == c
    then some (some 1, b ∷ s)
    else Option.map {B = Option ℕ × List ℕ}
        (λ (r : Option ℕ × List ℕ). (Option.map {B = ℕ} suc r.0, b ∷ r.1)) (copy_to c s t n)

pub memccpy : (a1 a2 : List ℕ) → (c n : ℕ) → Option (Option ℕ × List ℕ)
unfolding copy_to
memccpy s t c n = copy_to (c % 256) s t n

-- ASCII letters; an `int` is a 32-bit pattern, and the negative ones are not letters.
pub toupper : ℕ → ℕ
toupper c = if ltb c 97 || ltb 122 c then c else c - 97 + 65

pub tolower : ℕ → ℕ
tolower c = if ltb c 65 || ltb 90 c then c else c - 65 + 97
