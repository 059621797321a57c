-- ===== src/Strings/Search.antt =====
-- Looking for a byte in a string, and for its end.
use mathlib.Core.Option.{Option}
use plan9_ocaml.Prelude.{
  [], none, some, suc, ℕ, List, ◌∷◌, Option, ◌≢◌, ◌%◌, ◌++◌, ap, ◌≡◌, ◌==◌, length, false, arith,
  refl, Bool-cases, inl, inr,
}
use mathlib.Core.Option as Option
use plan9_ocaml.Strings.{find, find_end, strchr, strlen}

-- The byte is nowhere in the list.
unfoldable pub IsAbsent : ℕ → List ℕ → Type 0
IsAbsent c [] = Unit
IsAbsent c (b ∷ bs) = (b ≢ c) × IsAbsent c bs

-- What `strchr` gives for the byte `c` in the string `bs`: the null pointer when it is not there, and
-- else where it is first.
pub Found : ℕ → List ℕ → Option (Option ℕ) → Type 0
Found c bs none = ⊥
Found c bs (some none) = IsAbsent c bs
Found c bs (some (some n)) =
    (l : List ℕ) × (r : List ℕ) × (bs ≡ l ++ c ∷ r) × IsAbsent c l × (length l ≡ n)

Found-further :
    (c b : ℕ) (bs : List ℕ) (o : Option (Option ℕ))
    → b ≢ c
    → Found c bs o
    → Found c (b ∷ bs) (Option.map {B = Option ℕ} (Option.map {B = ℕ} suc) o)
unfolding Found IsAbsent
Found-further c b bs none ne f = f
Found-further c b bs (some none) ne f = (ne, f)
Found-further c b bs (some (some n)) ne (l, r, e, a, k) =
    (b ∷ l, r, ap (λ (x : List ℕ). b ∷ x) e, (ne, a), ap suc k)

find-Found :
    (c : ℕ) (bs rest : List ℕ) → c ≢ 0 → IsAbsent 0 bs → Found c bs (find c (bs ++ 0 ∷ rest))
unfolding find Found IsAbsent
find-Found c [] rest nz h = tt
find-Found c (b ∷ bs) rest nz (ne, h) =
    let away : (b == 0) ≡ false = ground arith in
    elim (Bool-cases (b == c)) [
      | inl e ↦
          let same : b ≡ c = ground arith in
          rw (away, e) ([], bs, ap (λ (x : ℕ). x ∷ bs) same, tt, refl)
      | inr e ↦
          let other : b ≢ c = ground arith in
          rw (away, e)
            (Found-further c b bs (find c (bs ++ 0 ∷ rest)) other (find-Found c bs rest nz h))
    ]

-- In a string, bytes that are not 0 before a 0, and for a character whose byte is not 0: `strchr`
-- gives the place where the byte first is, and the null pointer just when it is nowhere.
pub strchr-Found :
    (c : ℕ) (bs rest : List ℕ)
    → c % 256 ≢ 0
    → IsAbsent 0 bs
    → Found (c % 256) bs (strchr (bs ++ 0 ∷ rest) c)
unfolding strchr
strchr-Found c bs rest nz h =
    let away : (c == 0) ≡ false = ground (arith, nz) in rw away (find-Found (c % 256) bs rest nz h)

find_end-eq : (bs rest : List ℕ) → IsAbsent 0 bs → find_end (bs ++ 0 ∷ rest) ≡ some (length bs)
unfolding find_end IsAbsent
find_end-eq [] rest h = refl
find_end-eq (b ∷ bs) rest (ne, h) =
    let away : (b == 0) ≡ false = ground arith in rw (away, find_end-eq bs rest h) refl

-- In a string, bytes that are not 0 before a 0, `strlen` counts them.
pub strlen-eq : (bs rest : List ℕ) → IsAbsent 0 bs → strlen (bs ++ 0 ∷ rest) ≡ some (length bs)
unfolding strlen strchr
strlen-eq bs rest h = rw (find_end-eq bs rest h) refl
