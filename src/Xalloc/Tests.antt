-- ===== src/Xalloc/Tests.antt =====
-- xalloc.c at a concrete state: one hole of 32 KiB, and the theorems there.
use plan9_ocaml.Prelude.{
  ℕ, ◌≡◌, refl, ◌+◌, ◌^◌, true, false, some, [], ◌∷◌, arith, replicate, Bool, inl,
}
use plan9_ocaml.Xalloc.{hole, Xalloc, done, block_size, xallocz, xfree, xalloc, xspanalloc, paddr}
use plan9_ocaml.Xalloc.Roundtrip.{
  IsValid, Allocates, Freed, xallocz-Allocates, xfree-xallocz, xfree-Freed,
}
use plan9_ocaml.Xalloc.Live.{
  Block, IsSound, Run, AllFitting, start, later, allocates, holders, Run-IsSound, Run-holders,
}
use plan9_ocaml.Xalloc.Span.{IsSpanned, xspanalloc-IsSpanned}

abbrev s₀ : Xalloc
s₀ = record {
  sorted_holes = hole 0x8000 0x10000 0x8000 ∷ [];
  unused_slots = replicate 127 (hole 0 0 0);
  mem = λ _. 0;
}

s₀-IsValid : IsValid s₀
s₀-IsValid = record {
  chain = (omega arith, record { nonempty = omega arith; ends = refl; fits = omega arith }, tt);
  reachable = λ a f. ground arith;
  slots = refl;
}

abbrev s₁ : Xalloc
unfolding xallocz
s₁ = (xallocz 100 true s₀).1

takes_first : (xallocz 100 true s₀).0 ≡ some 0x80008008
unfolding xallocz
takes_first = refl

xallocz-Allocates_example : Allocates true (block_size 100) s₀ (xallocz 100 true s₀)
xallocz-Allocates_example = xallocz-Allocates 100 true s₀ (omega arith) s₀-IsValid

allocates_100 : xallocz 100 true s₀ ≡ (some 0x80008008, s₁)
unfolding s₁ xallocz
allocates_100 = refl

xfree-xallocz_example : xfree 0x80008008 s₁ ≡ done (record s₀ { mem = s₁.mem }, false)
xfree-xallocz_example =
    xfree-xallocz 100 true s₀ s₁ 0x80008008 (omega arith) s₀-IsValid allocates_100

-- The block is freed again, from the state that holds it.
abbrev b₁ : Block
b₁ = record { data_at = 0x80008008; size = 112 }

one_step : Run s₀ [] s₁ (b₁ ∷ [])
unfolding block_size
one_step = later false start (allocates 100 true 0x80008008 allocates_100)

s₀-IsSound : IsSound s₀ []
s₀-IsSound = record { valid = s₀-IsValid; live = tt; held_once = λ a. ground arith }

one_step-AllFitting : AllFitting one_step
unfolding one_step
one_step-AllFitting = (tt, omega arith)

-- A size whose rounding wraps to a block of no bytes: the next block is at the same place.
wrapped_size :
    ((xallocz 0xffff_fff0 false s₀).0 ≡ some 0x80008008)
    × ((xallocz 100 false (xallocz 0xffff_fff0 false s₀).1).0 ≡ some 0x80008008)
unfolding xallocz
wrapped_size = (refl, refl)

s₁-IsSound : IsSound s₁ (b₁ ∷ [])
unfolding block_size
s₁-IsSound = Run-IsSound s₀-IsSound one_step one_step-AllFitting

xfree-Freed_example :
    (s' : Xalloc) × (leaked : Bool) × (xfree 0x80008008 s₁ ≡ done (s', leaked))
    × Freed 0x8000 112 s₁ s' leaked
unfolding xallocz paddr
xfree-Freed_example =
    xfree-Freed 0x80008008 112 s₁ s₁-IsSound.valid refl refl (omega arith) (omega arith)
      (inl (omega arith), tt)

Run-IsSound_example : IsSound s₁ (b₁ ∷ [])
Run-IsSound_example = Run-IsSound s₀-IsSound one_step one_step-AllFitting

Run-holders_example : holders 0x8070 s₁ (b₁ ∷ []) ≡ holders 0x8070 s₀ []
unfolding one_step
Run-holders_example = Run-holders s₀-IsSound one_step one_step-AllFitting (tt, refl) 0x8070

abbrev t₁ : Xalloc
unfolding xalloc
t₁ = (xalloc (100 + 2 ^ 4 + 2 ^ 8) s₀).1

allocates_span : xalloc (100 + 2 ^ 4 + 2 ^ 8) s₀ ≡ (some 0x80008008, t₁)
unfolding t₁ xalloc
allocates_span = refl

xspanalloc-IsSpanned_example :
    (v : ℕ) × (s' : Xalloc) × (xspanalloc 100 (2 ^ 4) (2 ^ 8) s₀ ≡ done (v, s'))
    × IsSpanned 100 (2 ^ 4) (2 ^ 8) 0x80008008 v
xspanalloc-IsSpanned_example =
    xspanalloc-IsSpanned 100 4 8 s₀ t₁ 0x80008008 (omega arith) (omega arith) (omega arith)
      (omega arith) allocates_span
