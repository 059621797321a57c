-- ===== src/Pool/Sound/Grow.antt =====
-- A new arena in its place among the blocks.
use mathlib.Core.Path.{subst, ap, sym}
use mathlib.Core.List.{append-nil}
use plan9_ocaml.Prelude.{
  [], ℕ, List, ◌∷◌, ◌≡◌, ◌<◌, ◌+◌, true, ◌++◌, false, ◌≤◌, Bool-cases, ◌⊎◌, arith, ltb, inl, inr,
  ltb→lt, refl, ap, add32, sub32, ◌^◌, sym, ◌∙◌, ◌-◌, ◌%◌,
}
use plan9_ocaml.Pool.{
  Pool, Block, Magic, pooladd, unalloc_magic, arena_magic, arenatail_magic, free_magic, ℕ, joined,
  List, is_arena, true, false, ltb, arena_size, add32, sub32, bhdr_size,
}
use plan9_ocaml.Pool.Arena.{place, new_arena}
use plan9_ocaml.Pool.Total.{
  extent, total, total-joined, IsRow, IsRow-joined, IsRow-of_joined, IsNext, end_of,
}
use plan9_ocaml.Pool.Sound.{
  IsSound, IsLike, free_at, alloc_at, free_size, alloc_size, pooladd-IsSound, arith,
}

-- No block has a byte among the `n` from `a` on.
unfoldable pub IsVacant : (a n : ℕ) → List Block → Type 0
IsVacant a n [] = Unit
IsVacant a n (b ∷ bs) = ((b.addr + extent b ≤ a) ⊎ (a + n ≤ b.addr)) × IsVacant a n bs

-- The row goes on at `hi` or later, with a new arena.
IsLater : (hi : ℕ) → List Block → Type 0
IsLater hi [] = Unit
IsLater hi (b ∷ bs) = (is_arena b.magic ≡ true) × (hi ≤ b.addr)

-- Where the new blocks come between.
Split : (a n : ℕ) (new acc bs : List Block) → Type 0
Split a n new acc bs =
    (xs : List Block) × (ys : List Block) × (joined acc bs ≡ joined xs ys)
    × (joined acc (place a new bs) ≡ joined xs (new ++ ys))
    × (end_of xs ≤ a)
    × IsRow (end_of xs) ys
    × IsLater (a + n) ys

not_next : (m : Magic) (lo at : ℕ) → (is_arena m ≡ false → lo ≡ at) → lo < at → is_arena m ≡ true
not_next m lo at adj h = ground (arith, adj)

place-Split :
    (a n : ℕ) (new acc bs : List Block)
    → 0 < n
    → end_of acc ≤ a
    → IsRow (end_of acc) bs
    → IsVacant a n bs
    → Split a n new acc bs
unfolding place Split IsRow IsNext IsVacant IsLater joined
place-Split a n new acc [] pos_n low r v =
    (acc, [], refl, ap (λ (x : List Block). joined acc x) (sym (append-nil new)), low, tt, tt)
place-Split a n new acc (b ∷ bs) pos_n low ((le, adj, top, filled), rest) (h, v) =
    elim (Bool-cases (ltb a b.addr)) [
      | inl e ↦
          let lt : a < b.addr = ltb→lt a b.addr e in
          let far : a + n ≤ b.addr = omega arith in
          let arena : is_arena b.magic ≡ true =
            not_next b.magic (end_of acc) b.addr adj (omega arith) in
          (acc, b ∷ bs, refl, rw e refl, low, ((le, adj, top, filled), rest), (arena, far))
      | inr e ↦
          let le' : b.addr ≤ a = ground arith in
          rw e (place-Split a n new (b ∷ acc) bs pos_n (omega arith) rest v)
    ]

IsRow-later : (lo hi : ℕ) (ys : List Block) → IsRow lo ys → IsLater hi ys → IsRow hi ys
unfolding IsRow IsNext IsLater
IsRow-later lo hi [] r l = tt
IsRow-later lo hi (y ∷ ys) ((le, adj, top, filled), rest) (arena, far) =
    ((far, λ h. absurd cc, top, filled), rest)

-- The three blocks of an arena of `n` bytes at `a`, its free block not yet in the tree.
pub header : ℕ → Block
header a = record { addr = a; size = arena_size; magic = arena_magic; datasize = 0 }

pub body : (a n : ℕ) → Block
body a n = record {
  addr = add32 a arena_size;
  size = sub32 (sub32 (add32 a n) bhdr_size) (add32 a arena_size);
  magic = unalloc_magic;
  datasize = 0;
}

pub tail : (a n : ℕ) → Block
tail a n = record {
  addr = sub32 (add32 a n) bhdr_size;
  size = 0;
  magic = arenatail_magic;
  datasize = 0;
}

IsRow-arena :
    (lo a n : ℕ) (ys : List Block)
    → lo ≤ a
    → 40 ≤ n
    → a + n < 2 ^ 32
    → IsRow (a + n) ys
    → (0 < (body a n).size) × IsRow lo (header a ∷ body a n ∷ tail a n ∷ ys)
unfolding IsRow IsNext header body tail
IsRow-arena lo a n ys low large top r =
    let at : add32 a arena_size ≡ a + 24 = omega arith in
    let end : sub32 (add32 a n) bhdr_size ≡ a + n - 8 = omega arith in
    let size : sub32 (a + n - 8) (a + 24) ≡ n - 32 = omega arith in
    let next : a + 24 + (n - 32) ≡ a + n - 8 = omega arith in
    let last : a + n - 8 + 8 ≡ a + n = omega arith in
    rw (end, at, size)
      (
        omega arith,
        (
          (low, λ h. absurd cc, omega arith, omega arith),
          (
            (omega arith, λ h. refl, omega arith, omega arith),
            ((omega arith, λ h. next, omega arith, omega arith), rw last r),
          ),
        ),
      )

-- What growing a pool has to give: it is sound, with the same settings and the same blocks in use.
unfoldable pub Grows : Pool → Pool → Type 0
unfolding IsLike
Grows p q =
    IsSound q q.blocks
    × IsLike p q
    × ((a n : ℕ) → total (alloc_at a n) q.blocks ≡ total (alloc_at a n) p.blocks)

weightless :
    (w : Block → ℕ) (xs ys : List Block) (a b c : Block)
    → w a ≡ 0
    → w b ≡ 0
    → w c ≡ 0
    → total w (joined xs ys) ≡ total w (joined xs (a ∷ b ∷ c ∷ ys))
weightless w xs ys a b c ha hb hc =
    omega (arith, total-joined w xs ys, total-joined w xs (a ∷ b ∷ c ∷ ys))

arena-IsSound :
    (p : Pool) (xs ys : List Block) (a n : ℕ)
    → end_of xs ≤ a
    → 40 ≤ n
    → a + n < 2 ^ 32
    → IsRow (a + n) ys
    → IsSound p (joined xs ys)
    → IsSound p (joined xs (header a ∷ body a n ∷ tail a n ∷ ys))
unfolding header body tail
arena-IsSound p xs ys a n low large top r s =
    let (back, row) = IsRow-of_joined xs ys s.row in
    let new = IsRow-arena (end_of xs) a n ys low large top r in
    record {
      row = IsRow-joined xs (header a ∷ body a n ∷ tail a n ∷ ys) back new.1;
      agree = λ x k.
          s.agree x k
          ∙ weightless (free_at x k) xs ys (header a) (body a n) (tail a n) refl refl refl;
      checked = s.checked;
      curfree =
          s.curfree
          ∙ ap (λ (t : ℕ). t % 2 ^ 32)
              (weightless free_size xs ys (header a) (body a n) (tail a n) refl refl refl);
      curalloc =
          s.curalloc
          ∙ ap (λ (t : ℕ). t % 2 ^ 32)
              (weightless alloc_size xs ys (header a) (body a n) (tail a n) refl refl refl);
    }

IsSound-cursize :
    (p : Pool) (bs : List Block) (n : ℕ) → IsSound p bs → IsSound (record p { cursize = n }) bs
IsSound-cursize p bs n s = record {
  row = s.row;
  agree = s.agree;
  checked = s.checked;
  curfree = s.curfree;
  curalloc = s.curalloc;
}

pub new_arena-Grows :
    (p : Pool) (a n : ℕ)
    → 40 ≤ n
    → a + n < 2 ^ 32
    → IsVacant a n p.blocks
    → IsSound p p.blocks
    → Grows p (new_arena p a n)
unfolding new_arena Grows IsLike pooladd joined body header tail Split alloc_at
new_arena-Grows p a n large top v s =
    let b = record (body a n) { magic = free_magic } in
    let new = header a ∷ b ∷ tail a n ∷ [] in
    let p₀ = record p { cursize = add32 p.cursize n } in
    let (xs, ys, old, now, low, row, later) =
      place-Split a n new [] p.blocks (omega arith) (omega arith) s.row v in
    let (pos_b, unused) =
      IsRow-arena (end_of xs) a n ys low large top (IsRow-later (end_of xs) (a + n) ys row later) in
    let s₁ =
      arena-IsSound p₀ xs ys a n low large top (IsRow-later (end_of xs) (a + n) ys row later) (
        IsSound-cursize p (joined xs ys) (add32 p.cursize n)
          (subst (λ (x : List Block). IsSound p x) old s)) in
    let s₂ = pooladd-IsSound p₀ (header a ∷ xs) (tail a n ∷ ys) (body a n) refl pos_b s₁ in
    let s₃ = subst (λ (x : List Block). IsSound (pooladd p₀ (body a n)).0 x) (sym now) s₂ in
    (
      record {
        row = s₃.row;
        agree = s₃.agree;
        checked = s₃.checked;
        curfree = s₃.curfree;
        curalloc = s₃.curalloc;
      },
      (refl, refl, refl, refl),
      λ x k.
          ap (λ (t : List Block). total (alloc_at x k) t) now
          ∙ sym (weightless (alloc_at x k) xs ys (header a) b (tail a n) refl refl refl)
          ∙ ap (λ (t : List Block). total (alloc_at x k) t) (sym old),
    )
