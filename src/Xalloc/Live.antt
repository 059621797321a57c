-- ===== src/Xalloc/Live.antt =====
-- A client of xalloc.c: a run of allocations and frees, and who holds each byte.
use mathlib.Core.Path.{subst, sym}
use plan9_ocaml.Prelude.{
  ℕ, Bool, List, ◌<◌, if◌then◌else◌, ◌∷◌, ◌+◌, ◌≤◌, ◌≡◌, true, u32_mod, ◌^◌, sub32, false, some,
  arith, none, ◌++◌, [], ap, ◌-◌, ◌∙◌, refl, sym,
}
use plan9_ocaml.Xalloc.{
  Xalloc, Outcome, done, panic, magic_hole, block_size, xallocz, xfree, Hole, kaddr,
}
use plan9_ocaml.Xalloc.Words.{kaddr-eq, block_size_bounds}
use plan9_ocaml.Xalloc.Chain.{IsChain, IsApart, in_range, is_free}
use plan9_ocaml.Xalloc.Roundtrip.{
  IsValid, block, Allocated, Allocates, Freed, xallocz-Allocates, xfree-Freed,
}

-- A block in use: its data's address, and its size with the header.
pub record Block : Type 0 where
  pub data_at : ℕ
  pub size : ℕ

abbrev pub one : Bool → ℕ
one b = if b then 1 else 0

-- In how many of the blocks the byte at `a` lies.
abbrev pub owners : ℕ → List Block → ℕ
owners a [] = 0
owners a (b ∷ bs) = one (in_range (block b.data_at) b.size a) + owners a bs

abbrev pub holders : ℕ → Xalloc → List Block → ℕ
holders a s bs = one (is_free a s.sorted_holes) + owners a bs

-- The header that `xallocz` wrote is intact, and the block lies in reachable memory.
pub record IsLive (s : Xalloc) (b : Block) : Type 0 where
  pub nonempty : 8 < b.size
  pub low : block b.data_at + b.size ≤ 2 ^ 30
  pub mapped : b.data_at ≡ kaddr (block b.data_at) + 8
  pub size : s.mem (sub32 b.data_at 8) ≡ b.size
  pub magix : s.mem (sub32 b.data_at 8 + 4) ≡ magic_hole

abbrev pub AllLive : Xalloc → List Block → Type 0
AllLive s [] = Unit
AllLive s (b ∷ bs) = IsLive s b × AllLive s bs

pub record IsSound (s : Xalloc) (bs : List Block) : Type 0 where
  pub valid : IsValid s
  pub live : AllLive s bs
  pub held_once : (a : ℕ) → holders a s bs ≤ 1

-- A range none of whose bytes is free is apart from the holes.
IsApart-of_bytes :
    (lo at n : ℕ) (hs : List Hole)
    → 0 < n
    → IsChain lo hs
    → ((a : ℕ) → in_range at n a ≡ true → is_free a hs ≡ false)
    → IsApart at n hs
IsApart-of_bytes lo at n [] pos c h = tt
IsApart-of_bytes lo at n (k ∷ ks) pos (low, ok, rest) h = (
  ground (arith, h at, h k.addr, ok.ends, ok.nonempty),
  IsApart-of_bytes (k.top + 1) at n ks pos rest (λ a i. ground (arith, h a)),
)

-- Steps of the client, which frees any block in use. The flag says that the freed range leaked.
pub data Step : Bool → Xalloc → List Block → Xalloc → List Block → Type 0 where
  allocates :
      {s s' : Xalloc} {bs : List Block} (size : ℕ) (zero? : Bool) (p : ℕ)
      → xallocz size zero? s ≡ (some p, s')
      → Step false s bs s' (record { data_at = p; size = block_size size } ∷ bs)
  fails :
      {s s' : Xalloc} {bs : List Block} (size : ℕ) (zero? : Bool)
      → xallocz size zero? s ≡ (none, s')
      → Step false s bs s' bs
  frees :
      {s s' : Xalloc} {leaked : Bool} (b : Block) (pre post : List Block)
      → xfree b.data_at s ≡ done (s', leaked)
      → Step leaked s (pre ++ b ∷ post) s' (pre ++ post)

-- A run of steps; `lossless` of those that leak nothing.
pub data Run (s : Xalloc) (bs : List Block) : Xalloc → List Block → Type 0 where
  start : Run s bs s bs
  later :
      {t u : Xalloc} {cs ds : List Block} (leaked : Bool)
      → Run s bs t cs
      → Step leaked t cs u ds
      → Run s bs u ds

abbrev pub IsLossless :
    {s : Xalloc} {bs : List Block} {t : Xalloc} {cs : List Block} → Run s bs t cs → Type 0
IsLossless start = Unit
IsLossless (later leaked r st) = IsLossless r × (leaked ≡ false)

-- Whether `xallocz` rounds the size up without wrapping.
abbrev pub IsFitting :
    {l : Bool} {s : Xalloc} {bs : List Block} {t : Xalloc} {cs : List Block}
    → Step l s bs t cs
    → Type 0
IsFitting (allocates size zero? p e) = size + 16 < u32_mod
IsFitting (fails size zero? e) = size + 16 < u32_mod
IsFitting (frees b pre post e) = Unit

-- All sizes asked for in the run are below 2 ^ 32 - 16.
abbrev pub AllFitting :
    {s : Xalloc} {bs : List Block} {t : Xalloc} {cs : List Block} → Run s bs t cs → Type 0
AllFitting start = Unit
AllFitting (later leaked r st) = AllFitting r × IsFitting st

module _ (s s' : Xalloc) (p n : ℕ) (zero? : Bool) (room : 8 < n) (v : IsValid s)
    (done_it : Allocated zero? n s p s') where
  allocated-holders :
      (a : ℕ) (bs : List Block)
      → holders a s' (record { data_at = p; size = n } ∷ bs) ≡ holders a s bs
  allocated-holders a bs = ground (arith, done_it.was_free a, done_it.now_free a)

  -- The bytes of a block that was live before are no part of the new block.
  other-apart :
      (b : Block) (bs : List Block)
      → IsLive s b
      → ((a : ℕ) → holders a s (b ∷ bs) ≤ 1)
      → (a : ℕ) → in_range (block b.data_at) b.size a ≡ true
      → in_range (block p) n a ≡ false
  other-apart b bs live once a i = ground (arith, once a, done_it.was_free a)

  -- Where the two headers stand.
  new-header : (block p < 2 ^ 30) × (p ≡ 2 ^ 31 + block p + 8)
  new-header =
      let low : block p < 2 ^ 30 =
        v.reachable (block p) (done_it.was_free (block p) (ground arith)) in
      (low, omega (arith, done_it.mapped, kaddr-eq (block p)))

  new_low : block p + n ≤ 2 ^ 30
  new_low =
      let last : block p + (n - 1) < 2 ^ 30 =
        v.reachable (block p + (n - 1)) (done_it.was_free (block p + (n - 1)) (ground arith)) in
      omega arith

  old-header : (b : Block) → IsLive s b → sub32 b.data_at 8 ≡ 2 ^ 31 + block b.data_at
  old-header b live =
      omega (arith, live.mapped, live.low, live.nonempty, kaddr-eq (block b.data_at))

  unchanged :
      (b : Block) (bs : List Block) (k : ℕ)
      → IsLive s b
      → ((a : ℕ) → holders a s (b ∷ bs) ≤ 1)
      → k < b.size
      → s'.mem (sub32 b.data_at 8 + k) ≡ s.mem (sub32 b.data_at 8 + k)
  unchanged b bs k live once lt = done_it.elsewhere (sub32 b.data_at 8 + k) (
      ground
        (arith, old-header b live, new-header, other-apart b bs live once (block b.data_at + k)))

  other-IsLive :
      (b : Block) (bs : List Block)
      → IsLive s b
      → ((a : ℕ) → holders a s (b ∷ bs) ≤ 1)
      → IsLive s' b
  other-IsLive b bs live once = record {
    nonempty = live.nonempty;
    low = live.low;
    mapped = live.mapped;
    size =
        ap s'.mem (omega arith)
        ∙ unchanged b bs 0 live once (omega (arith, live.nonempty))
        ∙ ap s.mem (omega arith)
        ∙ live.size;
    magix = unchanged b bs 4 live once (omega (arith, live.nonempty)) ∙ live.magix;
  }

  others-AllLive : (bs : List Block) → AllLive s bs → ((a : ℕ) → holders a s bs ≤ 1) → AllLive s' bs
  others-AllLive [] live once = tt
  others-AllLive (b ∷ bs) (now, rest) once =
      (other-IsLive b bs now once, others-AllLive bs rest (λ a. omega (arith, once a)))

  new-IsLive : IsLive s' (record { data_at = p; size = n })
  new-IsLive = record {
    nonempty = room;
    low = new_low;
    mapped = done_it.mapped;
    size = done_it.size;
    magix = done_it.magix;
  }

  allocated-IsSound :
      (bs : List Block) → IsSound s bs → IsSound s' (record { data_at = p; size = n } ∷ bs)
  allocated-IsSound bs sound = record {
    valid = done_it.valid;
    live = (new-IsLive, others-AllLive bs sound.live sound.held_once);
    held_once = λ a. omega (arith, allocated-holders a bs, sound.held_once a);
  }

owners-append :
    (a : ℕ) (pre : List Block) (b : Block) (post : List Block)
    → owners a (pre ++ b ∷ post)
      ≡ one (in_range (block b.data_at) b.size a) + owners a (pre ++ post)
owners-append a [] b post = refl
owners-append a (c ∷ pre) b post = omega (arith, owners-append a pre b post)

AllLive-middle :
    (s : Xalloc) (pre : List Block) (b : Block) (post : List Block)
    → AllLive s (pre ++ b ∷ post)
    → IsLive s b × AllLive s (pre ++ post)
AllLive-middle s [] b post live = live
AllLive-middle s (c ∷ pre) b post (now, rest) =
    let (it, others) = AllLive-middle s pre b post rest in (it, (now, others))

IsLive-same_mem : (s s' : Xalloc) (b : Block) → s'.mem ≡ s.mem → IsLive s b → IsLive s' b
IsLive-same_mem s s' b e live = record {
  nonempty = live.nonempty;
  low = live.low;
  mapped = live.mapped;
  size = rw e live.size;
  magix = rw e live.magix;
}

AllLive-same_mem : (s s' : Xalloc) (bs : List Block) → s'.mem ≡ s.mem → AllLive s bs → AllLive s' bs
AllLive-same_mem s s' [] e live = tt
AllLive-same_mem s s' (b ∷ bs) e (now, rest) =
    (IsLive-same_mem s s' b e now, AllLive-same_mem s s' bs e rest)

module _ (s : Xalloc) (b : Block) (bs : List Block) (v : IsValid s) (live : IsLive s b)
    (once : (a : ℕ) → holders a s (b ∷ bs) ≤ 1) where
  -- Freeing a live block succeeds.
  live-Freed :
      (s' : Xalloc) × (leaked : Bool) × (xfree b.data_at s ≡ done (s', leaked))
      × Freed (block b.data_at) b.size s s' leaked
  live-Freed =
      xfree-Freed b.data_at b.size s v live.magix live.size (omega (arith, live.nonempty)) live.low
        (IsApart-of_bytes 0 (block b.data_at) b.size s.sorted_holes (omega (arith, live.nonempty))
          v.chain (λ a i. ground (arith, once a)))

  -- A byte held once stays so; if nothing leaked every byte keeps its holder.
  holders-xfree :
      (s' : Xalloc) (leaked : Bool)
      → Freed (block b.data_at) b.size s s' leaked
      → (a : ℕ)
      → (holders a s' bs ≤ holders a s (b ∷ bs))
        × (leaked ≡ false → holders a s' bs ≡ holders a s (b ∷ bs))
  holders-xfree s' true f a = (rw (f.lost refl).0 (omega arith), λ e. cc)
  holders-xfree s' false f a =
      let eq : holders a s' bs ≡ holders a s (b ∷ bs) = ground (arith, f.now_free refl a, once a) in
      (omega arith, λ e. eq)

abbrev FreedBy : (b : Block) (s : Xalloc) → Outcome (Xalloc × Bool) → Type 0
FreedBy b s panic = ⊥
FreedBy b s (done (s', leaked)) = Freed (block b.data_at) b.size s s' leaked

freed-IsSound :
    (s s' : Xalloc) (b : Block) (pre post : List Block) (leaked : Bool)
    → IsSound s (pre ++ b ∷ post)
    → xfree b.data_at s ≡ done (s', leaked)
    → IsSound s' (pre ++ post)
      × ((a : ℕ) → leaked ≡ false → holders a s' (pre ++ post) ≡ holders a s (pre ++ b ∷ post))
freed-IsSound s s' b pre post leaked sound e = (
  record {
    valid = f.valid;
    live = AllLive-same_mem s s' (pre ++ post) f.same_mem parts.1;
    held_once = λ a. omega (arith, (change a).0, once a);
  },
  λ a kept. (change a).1 kept ∙ omega (arith, owners-append a pre b post),
)
  where
    parts : IsLive s b × AllLive s (pre ++ post)
    parts = AllLive-middle s pre b post sound.live

    once : (a : ℕ) → holders a s (b ∷ pre ++ post) ≤ 1
    once a = omega (arith, owners-append a pre b post, sound.held_once a)

    f : Freed (block b.data_at) b.size s s' leaked
    f =
        let (t, l, e', freed) = live-Freed s b (pre ++ post) sound.valid parts.0 once in
        subst (FreedBy b s) (sym e' ∙ e) freed

    change :
        (a : ℕ)
        → (holders a s' (pre ++ post) ≤ holders a s (b ∷ pre ++ post))
          × (leaked ≡ false → holders a s' (pre ++ post) ≡ holders a s (b ∷ pre ++ post))
    change = holders-xfree s b (pre ++ post) sound.valid parts.0 once s' leaked f

Step-IsSound :
    {leaked : Bool} {s s' : Xalloc} {bs bs' : List Block}
    → (st : Step leaked s bs s' bs') → IsFitting st
    → IsSound s bs
    → IsSound s' bs' × ((a : ℕ) → leaked ≡ false → holders a s' bs' ≡ holders a s bs)
Step-IsSound {s} {s'} {bs} (allocates size zero? p e) small sound =
    let got : Allocated zero? (block_size size) s p s' =
      subst (Allocates zero? (block_size size) s) e
        (xallocz-Allocates size zero? s small sound.valid) in
    let room : 8 < block_size size = omega (arith, block_size_bounds size small) in
    (
      allocated-IsSound s s' p (block_size size) zero? room sound.valid got bs sound,
      λ a kept. allocated-holders s s' p (block_size size) zero? room sound.valid got a bs,
    )
Step-IsSound {s} {s'} {bs} (fails size zero? e) small sound =
    let (full, same) =
      subst (Allocates zero? (block_size size) s) e
        (xallocz-Allocates size zero? s small sound.valid) in
    rw same (sound, λ a kept. refl)
Step-IsSound {s} {s'} (frees {leaked} b pre post e) small sound =
    freed-IsSound s s' b pre post leaked sound e

-- From a sound state, every run of frees of blocks in use and allocations of sizes below 2 ^ 32 - 16
-- leads to a sound state: the hole lists are valid, blocks in use keep their headers and lie below
-- 1 GiB, and no byte is held twice, by two blocks or by a block and a hole.
pub Run-IsSound :
    {s : Xalloc} {bs : List Block} {t : Xalloc} {cs : List Block}
    → IsSound s bs
    → (r : Run s bs t cs) → AllFitting r
    → IsSound t cs
Run-IsSound sound start fits = sound
Run-IsSound sound (later leaked r st) (fits, fit) =
    (Step-IsSound st fit (Run-IsSound sound r fits)).0

-- In a run from a sound state, of frees of blocks in use and allocations of sizes below 2 ^ 32 - 16, in
-- which no freed range leaked, each byte is held at the end as often as at the start, by holes and blocks
-- together: memory is neither lost nor made up.
pub Run-holders :
    {s : Xalloc} {bs : List Block} {t : Xalloc} {cs : List Block}
    → IsSound s bs
    → (r : Run s bs t cs) → AllFitting r
    → IsLossless r
    → (a : ℕ) → holders a t cs ≡ holders a s bs
Run-holders sound start fits l a = refl
Run-holders sound (later leaked r st) (fits, fit) (l, kept) a =
    (Step-IsSound st fit (Run-IsSound sound r fits)).1 a kept ∙ Run-holders sound r fits l a
