-- ===== src/Pool/Sound/Align.antt =====
-- D2B: where the data begins that a pointer into a pool is for, in front of words of alignment, and the
-- block that it belongs to.
use mathlib.Core.Path.{subst}
use plan9_ocaml.Prelude.{
  none, some, ℕ, Option, ◌≡◌, ◌+◌, ◌<◌, arith, Bool-cases, inl, inr, ◌==◌, zero, suc, ◌*◌, ◌-◌, ◌≢◌,
  ltb, ◌/◌, ◌∷◌, [], sub32, and_then, true, if◌then◌else◌, refl,
}
use plan9_ocaml.Pool.{
  data_start, align_magic, Pool, Focus, d2b, focus_from, joined, round_down, start_of_data,
  is_alloc,
}
use plan9_ocaml.Pool.Total.{IsFocus, focus_from-IsFocus}

-- One word further back.
further_back :
    (mem : ℕ → ℕ) (u v k : ℕ)
    → mem (v - 4) ≡ align_magic
    → u + 4 * k ≡ v - 4
    → ((j : ℕ) → j < k → mem (u + 4 * j) ≡ align_magic)
    → (j : ℕ) → j < k + 1
    → mem (u + 4 * j) ≡ align_magic
further_back mem u v k last e h j lt = elim (Bool-cases (j == k)) [
  | inl same ↦ let at_last : u + 4 * j ≡ v - 4 = ground (arith, e) in rw at_last last
  | inr less ↦ h j (ground arith)
]

-- The data that `v` points to starts at `u`: the words from there to `v` are ALIGN_MAGIC, `k` of them, and
-- the word before is another.
pub Starts : (mem : ℕ → ℕ) (v u : ℕ) → Type 0
Starts mem v u =
    (k : ℕ) × (u + 4 * k ≡ v)
    × ((j : ℕ) → j < k → mem (u + 4 * j) ≡ align_magic)
    × (mem (u - 4) ≢ align_magic)

pub data_start-Starts : (mem : ℕ → ℕ) (n v u : ℕ) → data_start mem n v ≡ some u → Starts mem v u
unfolding data_start Starts
data_start-Starts mem zero v u e = absurd cc
data_start-Starts mem (suc n) v u e = elim (Bool-cases (ltb v 4)) [
  | inl low ↦ absurd (ground arith)
  | inr high ↦ elim (Bool-cases (mem (v - 4) == align_magic)) [
    | inl more ↦
        let rest : data_start mem n (v - 4) ≡ some u = ground arith in
        let (k, d, marked, other) = data_start-Starts mem n (v - 4) u rest in
        let last : mem (v - 4) ≡ align_magic = ground arith in
        (k + 1, ground (arith, d), further_back mem u v k last d marked, other)
    | inr stop ↦
        let same : v ≡ u = ground arith in
        let other : mem (v - 4) ≢ align_magic = ground arith in
        (
          0,
          omega arith,
          λ j lt. absurd (omega arith),
          subst (λ (x : ℕ). mem (x - 4) ≢ align_magic) same other,
        )
  ]
]

pub IsFocus-parts :
    (p : Pool) (u : ℕ) (f : Focus)
    → IsFocus [] (sub32 u 8) p.blocks f
    → (f.block.addr ≡ sub32 u 8) × (joined f.before (f.block ∷ f.after) ≡ p.blocks)
unfolding IsFocus joined
IsFocus-parts p u f i = i

-- What D2B has found.
unfoldable pub IsFound : (mem : ℕ → ℕ) → Pool → (v : ℕ) → Focus → Type 0
IsFound mem p v f =
    (u : ℕ) × Starts mem (round_down 4 v) u
    × (is_alloc f.block.magic ≡ true)
    × IsFocus [] (sub32 u 8) p.blocks f

pub d2b-some :
    (mem : ℕ → ℕ) (p : Pool) (v : ℕ) (f : Focus) → d2b mem p v ≡ some f → IsFound mem p v f
unfolding d2b IsFound
d2b-some mem p v f e = begun (start_of_data mem v) refl e
  where
    found :
        (u : ℕ)
        → Starts mem (round_down 4 v) u
        → (o : Option Focus) → focus_from [] (sub32 u 8) p.blocks ≡ o
        → and_then o (λ (g : Focus). if is_alloc g.block.magic then some g else none) ≡ some f
        → IsFound mem p v f
    found u b none eo h = absurd cc
    found u b (some g) eo h = elim (Bool-cases (is_alloc g.block.magic)) [
      | inl m ↦
          let same : g ≡ f = ground arith in
          subst (λ (x : Focus). IsFound mem p v x) same
            (u, b, m, focus_from-IsFocus [] (sub32 u 8) p.blocks g eo)
      | inr m ↦ absurd (ground arith)
    ]

    begun :
        (o : Option ℕ)
        → start_of_data mem v ≡ o
        → and_then o (λ (u : ℕ).
          and_then
            (focus_from [] (sub32 u 8) p.blocks)
            (λ (g : Focus). if is_alloc g.block.magic then some g else none))
          ≡ some f
        → IsFound mem p v f
    begun none eo h = absurd cc
    begun (some u) eo h =
        found u (data_start-Starts mem (v / 4 + 1) (round_down 4 v) u eo)
          (focus_from [] (sub32 u 8) p.blocks) refl h
