-- ===== src/Tod/Adjust.antt =====
-- The gradual adjustment: what the clock is corrected by does not depend on how often it is read.
use plan9_ocaml.Prelude.{
  ℕ, ◌+◌, ◌≤◌, ◌*◌, ◌<◌, ◌%◌, ◌^◌, ◌≡◌, arith, Bool-cases, if◌then◌else◌, leb, ◌==◌, sub32, inl,
  inr, false, true, ap, ◌∙◌, refl, sym,
}
use plan9_ocaml.Tod.{Tod, corrected, ℕ, add64, u64_mod}

spread :
    (off d a b : ℕ)
    → ((off + d * a % 2 ^ 64) % 2 ^ 64 + d * b % 2 ^ 64) % 2 ^ 64
      ≡ (off + d * (a + b) % 2 ^ 64) % 2 ^ 64
spread off d a b = omega arith

-- The ticks from `a` over `m` to `n`, each reading stopped at the end `e`.
stops :
    (a m n e : ℕ)
    → a ≤ m
    → m ≤ n
    → n < 2 ^ 32
    → a ≤ e
    → e < 2 ^ 32
    → let t = if leb e m then e else m in
      let u = if leb e n then e else n in sub32 t a + sub32 u t ≡ sub32 u a
stops a m n e h k b l b' = ground arith

abbrev moved : Tod → ℕ → Tod
moved s t = record s { off = add64 s.off (s.delta * sub32 t s.sstart % u64_mod); sstart = t }

corrected-due :
    (n : ℕ) (s : Tod)
    → (s.sstart == s.send) ≡ false
    → corrected n s ≡ moved s (if leb s.send n then s.send else n)
unfolding corrected
corrected-due n s h = rw h refl

corrected-over : (n : ℕ) (s : Tod) → (s.sstart == s.send) ≡ true → corrected n s ≡ s
unfolding corrected
corrected-over n s h = rw h refl

moved-moved :
    (s : Tod) (t u : ℕ)
    → sub32 t s.sstart + sub32 u t ≡ sub32 u s.sstart
    → moved (moved s t) u ≡ moved s u
moved-moved s t u h =
    ap (λ (x : ℕ). record s { off = x; sstart = u })
      (spread s.off s.delta (sub32 t s.sstart) (sub32 u t)
        ∙ ap (λ (x : ℕ). add64 s.off (s.delta * x % u64_mod)) h)

-- With the adjustment under way, and two clock ticks in order, 32-bit words not before its start: to
-- correct at the first and then at the second leaves the same state as to correct at the second only.
pub corrected-corrected :
    (s : Tod) (m n : ℕ)
    → s.sstart ≤ m
    → m ≤ n
    → n < 2 ^ 32
    → s.sstart ≤ s.send
    → s.send < 2 ^ 32
    → corrected n (corrected m s) ≡ corrected n s
unfolding corrected
corrected-corrected s m n h k b l b' =
    let t = if leb s.send m then s.send else m in
    let u = if leb s.send n then s.send else n in
    elim (Bool-cases (s.sstart == s.send)) [
      | inl e ↦ ap (λ (x : Tod). corrected n x) (corrected-over m s e)
      | inr e ↦
          let first = corrected-due m s e in
          let last = corrected-due n s e in
          let stop : moved (moved s t) u ≡ moved s u =
            moved-moved s t u (stops s.sstart m n s.send h k b l b') in
          ap (λ (x : Tod). corrected n x) first ∙ elim (Bool-cases (t == s.send)) [
            | inl d ↦
                let same : t ≡ u = ground arith in
                corrected-over n (moved s t) d ∙ ap (λ (x : ℕ). moved s x) same ∙ sym last
            | inr d ↦ corrected-due n (moved s t) d ∙ stop ∙ sym last
          ]
    ]
