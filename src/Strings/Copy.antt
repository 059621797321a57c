-- ===== src/Strings/Copy.antt =====
-- Copying a string into a buffer of a fixed size.
use plan9_ocaml.Prelude.{
  [], some, zero, suc, List, ℕ, ◌≤◌, length, ◌≡◌, ◌++◌, replicate, ◌∷◌, drop, take, arith, refl, ap,
  ◌==◌, false, ◌∙◌, sym,
}
use plan9_ocaml.Strings.{strncpy, pad}
use plan9_ocaml.Strings.Search.{IsAbsent}

pad-eq : (s : List ℕ) (n : ℕ) → n ≤ length s → pad s n ≡ some (replicate n 0 ++ drop n s)
unfolding pad
pad-eq s zero h = refl
pad-eq [] (suc n) h = absurd (omega arith)
pad-eq (a ∷ s) (suc n) h = rw (pad-eq s n (omega arith)) refl

-- More zeros behind than are taken make no difference.
take-padded :
    (n m : ℕ) (bs : List ℕ) → n ≤ m → take n (bs ++ replicate m 0) ≡ take n (bs ++ replicate n 0)
take-padded zero m bs h = refl
take-padded (suc n) zero bs h = absurd (omega arith)
take-padded (suc n) (suc m) [] h = ap (λ (x : List ℕ). 0 ∷ x) (take-padded n m [] (omega arith))
take-padded (suc n) (suc m) (b ∷ bs) h =
    ap (λ (x : List ℕ). b ∷ x)
      (take-padded n (suc m) bs (omega arith) ∙ sym (take-padded n (suc n) bs (omega arith)))

take-replicate : (n : ℕ) → take n (replicate {A = ℕ} n 0) ≡ replicate n 0
take-replicate zero = refl
take-replicate (suc n) = ap (λ (x : List ℕ). 0 ∷ x) (take-replicate n)

-- For a string, bytes that are not 0 before a 0, and a buffer of at least `n` bytes: `strncpy` writes
-- the first `n` of the bytes of the string and then zeros, and leaves the rest of the buffer.
pub strncpy-eq :
    (s bs rest : List ℕ) (n : ℕ)
    → n ≤ length s
    → IsAbsent 0 bs
    → strncpy s (bs ++ 0 ∷ rest) n ≡ some (take n (bs ++ replicate n 0) ++ drop n s)
unfolding strncpy IsAbsent
strncpy-eq s bs rest zero h a = refl
strncpy-eq [] bs rest (suc n) h a = absurd (omega arith)
strncpy-eq (c ∷ s) [] rest (suc n) h a = rw (pad-eq s n (omega arith), take-replicate n) refl
strncpy-eq (c ∷ s) (b ∷ bs) rest (suc n) h (ne, a) =
    let away : (b == 0) ≡ false = ground arith in
    rw (away, strncpy-eq s bs rest n (omega arith) a, take-padded n (suc n) bs (omega arith)) refl
