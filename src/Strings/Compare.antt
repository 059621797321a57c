-- ===== src/Strings/Compare.antt =====
-- Comparing strings and memory.
use plan9_ocaml.Prelude.{
  [], none, some, zero, suc, Option, List, ℕ, ◌≡◌, ◌≤◌, length, ◌++◌, ◌∷◌, ap₂, take, arith, ◌<◌,
  ap, Bool-cases, refl, sym, ◌==◌, inl, inr, ltb, ltb→lt,
}
use plan9_ocaml.Strings.{Sign, above, same, below, memcmp, strncmp}

abbrev pub flipped : Option Sign → Option Sign
flipped none = none
flipped (some above) = some below
flipped (some same) = some same
flipped (some below) = some above

-- What `memcmp` has to give for two lists of bytes: the sign of the first difference, and `same` when
-- there is none.
pub Compared : List ℕ → List ℕ → Option Sign → Type 0
Compared s t none = ⊥
Compared s t (some same) = s ≡ t
Compared s t (some above) =
    (l : List ℕ) × (a : ℕ) × (b : ℕ) × (u : List ℕ) × (v : List ℕ) × (s ≡ l ++ a ∷ u)
    × (t ≡ l ++ b ∷ v)
    × (b < a)
Compared s t (some below) =
    (l : List ℕ) × (a : ℕ) × (b : ℕ) × (u : List ℕ) × (v : List ℕ) × (s ≡ l ++ a ∷ u)
    × (t ≡ l ++ b ∷ v)
    × (a < b)

Compared-further :
    (c d : ℕ) (s t : List ℕ) (o : Option Sign) → c ≡ d → Compared s t o → Compared (c ∷ s) (d ∷ t) o
unfolding Compared
Compared-further c d s t none e h = h
Compared-further c d s t (some same) e h = ap₂ (λ (x : ℕ) (y : List ℕ). x ∷ y) e h
Compared-further c d s t (some above) e (l, a, b, u, v, p, q, k) = (
  c ∷ l,
  a,
  b,
  u,
  v,
  ap (λ (x : List ℕ). c ∷ x) p,
  ap₂ (λ (x : ℕ) (y : List ℕ). x ∷ y) (sym e) q,
  k,
)
Compared-further c d s t (some below) e (l, a, b, u, v, p, q, k) = (
  c ∷ l,
  a,
  b,
  u,
  v,
  ap (λ (x : List ℕ). c ∷ x) p,
  ap₂ (λ (x : ℕ) (y : List ℕ). x ∷ y) (sym e) q,
  k,
)

-- On two areas of at least `n` bytes, `memcmp` compares the first `n`: it gives `same` just for equal
-- ones, and else the order of the first two that differ.
pub memcmp-Compared :
    (s t : List ℕ) (n : ℕ)
    → n ≤ length s
    → n ≤ length t
    → Compared (take n s) (take n t) (memcmp s t n)
unfolding memcmp Compared
memcmp-Compared s t zero h k = refl
memcmp-Compared [] t (suc n) h k = absurd (omega arith)
memcmp-Compared (a ∷ s) [] (suc n) h k = absurd (omega arith)
memcmp-Compared (a ∷ s) (b ∷ t) (suc n) h k = elim (Bool-cases (a == b)) [
  | inl e ↦
      let eq : a ≡ b = ground arith in
      rw e (
        Compared-further a b (take n s) (take n t) (memcmp s t n) eq
          (memcmp-Compared s t n (omega arith) (omega arith)))
  | inr e ↦ elim (Bool-cases (ltb b a)) [
    | inl l ↦ rw (e, l) ([], a, b, take n s, take n t, refl, refl, ltb→lt b a l)
    | inr l ↦
        let less : a < b = ground arith in
        rw (e, l) ([], a, b, take n s, take n t, refl, refl, less)
  ]
]

-- For all contents and lengths, to compare two strings the other way round gives the opposite sign,
-- as long as both can be read.
pub strncmp-flipped :
    (s t : List ℕ) (n : ℕ) → n ≤ length s → n ≤ length t → strncmp t s n ≡ flipped (strncmp s t n)
unfolding strncmp
strncmp-flipped s t zero h k = refl
strncmp-flipped [] t (suc n) h k = absurd (omega arith)
strncmp-flipped (a ∷ s) [] (suc n) h k = absurd (omega arith)
strncmp-flipped (a ∷ s) (b ∷ t) (suc n) h k =
    ground (arith, strncmp-flipped s t n (omega arith) (omega arith))
