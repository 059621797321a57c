-- ===== src/Pool/Sound/Trim.antt =====
-- Cutting a block to the data that was asked for.
use mathlib.Core.Option.{Option}
use mathlib.Core.Path.{ap}
use native.Mathlib.Nat.{mod-lt}
use plan9_ocaml.Prelude.{
  [], none, some, ◌<◌, ℕ, List, ◌≤◌, ◌^◌, Option, ◌≡◌, ◌+◌, sub32, ◌-◌, true, ◌∷◌, arith, add32,
  ◌++◌, ap, refl, false, Bool-cases, inl, inr,
}
use plan9_ocaml.Pool.{
  Pool, Block, Magic, Trimmed, alloc_magic, unalloc_magic, dsize2bsize, is_spare, blocksetdsize,
  finish, cut, trim, pooladd, getdsize, ℕ, List, round_down, is_alloc, joined, sub32, at_least,
  true, minblocksize, add32, bhdr_size, btail_size, is_free, is_arena, false, is_tail,
}
use plan9_ocaml.Pool.Total.{total, IsRow-joined, IsRow-of_joined, end_of}
use plan9_ocaml.Pool.Sound.{
  row-size, IsSound, free_at, alloc_at, free_size, alloc_size, pooladd-IsSound, total-exchanged,
  IsRow-magic, arith,
}
use plan9_ocaml.Pool.Sound.Split.{behind, split-IsSound, dsize2bsize-pooladd}

-- The quantum and the smallest block of a pool are small, and the smallest arena is not huge.
unfoldable pub IsTuned : Pool → Type 0
IsTuned p = (0 < p.quantum) × (p.quantum ≤ 0x1000) × (p.minblock ≤ 0x1000) × (p.minarena ≤ 2 ^ 31)

rounded :
    (need q : ℕ)
    → 0 < q
    → (need ≤ round_down q (need + q - 1)) × (round_down q (need + q - 1) < need + q)
rounded need q h = (omega (arith, mod-lt (need + q - 1) h), omega (arith, mod-lt (need + q - 1) h))

-- The block is large enough for the data with header and tail, and not much larger.
pub dsize2bsize-bounds :
    (p : Pool) (n : ℕ)
    → IsTuned p
    → n < 2 ^ 31
    → (n + 16 ≤ dsize2bsize p n) × (32 ≤ dsize2bsize p n) × (dsize2bsize p n < n + 0x3000)
unfolding dsize2bsize IsTuned
dsize2bsize-bounds p n (hq, hq', hm, ha) h =
    let need = at_least minblocksize (at_least p.minblock (add32 n (bhdr_size + btail_size))) in
    let bounds : (n + 16 ≤ need) × (32 ≤ need) × (need < n + 0x2000) = ground arith in
    let plain : sub32 (add32 need p.quantum) 1 ≡ need + p.quantum - 1 = omega arith in
    let (low, high) = rounded need p.quantum hq in
    rw plain (omega (arith, low), omega (arith, low), omega (arith, high))

-- What `trim` has to give for the block `b`: the block in use at its place, with room for the data and
-- its size recorded, and a sound pool once its size is counted.
unfoldable pub Trims : (before after : List Block) → Block → (dsize : ℕ) → Option Trimmed → Type 0
Trims before after b dsize none = ⊥
Trims before after b dsize (some t) =
    (t.block.addr ≡ b.addr)
    × (getdsize t.block ≡ dsize)
    × (is_alloc t.block.magic ≡ true)
    × (dsize + 16 ≤ t.block.size)
    × ((a n : ℕ) → total (alloc_at a n) t.frag ≡ 0)
    × IsSound (record t.pool { curalloc = add32 t.pool.curalloc t.block.size })
        (joined before (t.block ∷ t.frag ++ after))

-- A block that is out of the tree comes into use.
use-IsSound :
    (p : Pool) (before after : List Block) (b : Block) (x : ℕ)
    → b.magic ≡ unalloc_magic
    → 0 < b.size
    → IsSound p (joined before (b ∷ after))
    → IsSound
        (record p { curalloc = add32 p.curalloc b.size })
        (joined before (record b { magic = alloc_magic; datasize = x } ∷ after))
use-IsSound p before after b x m pos_b s =
    let c : Block = record b { magic = alloc_magic; datasize = x } in
    let (back, row) = IsRow-of_joined before (b ∷ after) s.row in
    let not_free = ap (λ (g : Magic). is_free g) m in
    let not_used = ap (λ (g : Magic). is_alloc g) m in
    record {
      row = IsRow-joined before (c ∷ after) back (
          IsRow-magic (end_of before) b c after refl (ground arith)
            (ap (λ (g : Magic). is_arena g) m) row);
      agree = λ a n.
          let weight : free_at a n b ≡ 0 = rw not_free refl in
          omega (
            arith,
            s.agree a n,
            total-exchanged (free_at a n) before after b c 0 0 (omega (arith, weight)),
          );
      checked = s.checked;
      curfree =
          let weight : free_size b ≡ 0 = rw not_free refl in
          omega (
            arith,
            s.curfree,
            total-exchanged free_size before after b c 0 0 (omega (arith, weight)),
          );
      curalloc =
          let weight : alloc_size b ≡ 0 = rw not_used refl in
          omega (
            arith,
            s.curalloc,
            total-exchanged alloc_size before after b c 0 b.size (omega (arith, weight)),
          );
    }

blocksetdsize-eq :
    (p : Pool) (b : Block) (n : ℕ)
    → dsize2bsize p n ≤ b.size
    → sub32 b.size n < 0x10000
    → blocksetdsize p b n ≡ some (record b { datasize = sub32 b.size n })
unfolding blocksetdsize
blocksetdsize-eq p b n h k = ground arith

finish-Trims :
    (p : Pool) (before after : List Block) (b : Block) (dsize : ℕ) (frag : List Block)
    → b.magic ≡ unalloc_magic
    → dsize + 16 ≤ b.size
    → dsize2bsize p dsize ≤ b.size
    → sub32 b.size dsize < 0x10000
    → ((a n : ℕ) → total (alloc_at a n) frag ≡ 0)
    → IsSound p (joined before (b ∷ frag ++ after))
    → Trims before after b dsize (finish p frag b dsize)
unfolding finish Trims getdsize
finish-Trims p before after b dsize frag m room fits short idle s =
    let (back, row) = IsRow-of_joined before (b ∷ frag ++ after) s.row in
    let small : b.size < 2 ^ 32 =
      omega
        (arith, row-size (end_of before) b (frag ++ after) (ap (λ (g : Magic). is_tail g) m) row) in
    let e = blocksetdsize-eq p (record b { magic = alloc_magic }) dsize fits short in
    rw e (
      refl,
      omega arith,
      refl,
      room,
      idle,
      use-IsSound p before (frag ++ after) b (sub32 b.size dsize) m (omega arith) s,
    )

free_frag : (p : Pool) (b : Block) (a k : ℕ) → total (alloc_at a k) ((pooladd p b).1 ∷ []) ≡ 0
unfolding pooladd alloc_at
free_frag p b a k = refl

cut-Trims :
    (p : Pool) (before after : List Block) (b : Block) (dsize : ℕ)
    → IsTuned p
    → dsize < 2 ^ 31
    → b.magic ≡ unalloc_magic
    → dsize2bsize p dsize < b.size
    → IsSound p (joined before (b ∷ after))
    → Trims before after b dsize (cut p b dsize (dsize2bsize p dsize))
unfolding cut joined Trims
cut-Trims p before after b dsize tuned low m less s =
    let n = dsize2bsize p dsize in
    let (room, large, near) = dsize2bsize-bounds p dsize tuned low in
    let (back, row) = IsRow-of_joined before (b ∷ after) s.row in
    let small : b.size < 2 ^ 32 =
      omega (arith, row-size (end_of before) b after (ap (λ (g : Magic). is_tail g) m) row) in
    let s₁ = split-IsSound p before after b n m (omega arith) less s in
    let s₂ =
      pooladd-IsSound p (record b { size = n } ∷ before) after (behind b n) refl (omega arith) s₁ in
    let same = dsize2bsize-pooladd p (behind b n) dsize in
    finish-Trims (pooladd p (behind b n)).0 before after (record b { size = n }) dsize
      ((pooladd p (behind b n)).1 ∷ []) m room (rw same (omega arith)) (omega arith)
      (λ a k. free_frag p (behind b n) a k) s₂

spare_less :
    (p : Pool) (b : Block) (dsize n : ℕ)
    → is_spare p b dsize n ≡ true
    → n ≤ b.size
    → b.size < 2 ^ 32
    → n < dsize + 0x3000
    → dsize ≤ n
    → n < b.size
unfolding is_spare
spare_less p b dsize n e fits small near le = ground arith

not_spare :
    (p : Pool) (b : Block) (dsize n : ℕ)
    → is_spare p b dsize n ≡ false
    → sub32 b.size dsize < 0x10000
unfolding is_spare
not_spare p b dsize n e = ground arith

-- `trim` on a block that is out of the tree and large enough.
pub trim-Trims :
    (p : Pool) (before after : List Block) (b : Block) (dsize : ℕ)
    → IsTuned p
    → dsize < 2 ^ 31
    → b.magic ≡ unalloc_magic
    → dsize2bsize p dsize ≤ b.size
    → IsSound p (joined before (b ∷ after))
    → Trims before after b dsize (trim p b dsize)
unfolding trim
trim-Trims p before after b dsize tuned low m fits s =
    let n = dsize2bsize p dsize in
    let (room, large, near) = dsize2bsize-bounds p dsize tuned low in
    let (back, row) = IsRow-of_joined before (b ∷ after) s.row in
    let small : b.size < 2 ^ 32 =
      omega (arith, row-size (end_of before) b after (ap (λ (g : Magic). is_tail g) m) row) in
    elim (Bool-cases (is_spare p b dsize n)) [
      | inl e ↦
          let less : n < b.size = spare_less p b dsize n e fits small near (omega arith) in
          rw e (cut-Trims p before after b dsize tuned low m less s)
      | inr e ↦
          let short = not_spare p b dsize n e in
          rw e (finish-Trims p before after b dsize [] m (omega arith) fits short (λ a k. refl) s)
    ]
