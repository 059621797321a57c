-- ===== src/Pool/Sound/Split.antt =====
-- A block cut in two: the second part is free.
use mathlib.Core.Path.{ap, sym}
use plan9_ocaml.Prelude.{
  ◌<◌, ℕ, List, ◌^◌, ◌≡◌, ◌+◌, sub32, ◌-◌, ◌∷◌, arith, add32, ap, refl, sym, ◌∙◌, ◌%◌,
}
use plan9_ocaml.Pool.{
  Pool, Block, Magic, unalloc_magic, dsize2bsize, pooladd, ℕ, List, is_alloc, joined, sub32, add32,
  is_free, is_tail,
}
use plan9_ocaml.Pool.Total.{
  extent, total, total-joined, IsRow, IsRow-joined, IsRow-of_joined, IsNext, end_of,
}
use plan9_ocaml.Pool.Sound.{IsSound, free_at, free_size, alloc_size, arith}

-- What is behind the first `n` bytes.
abbrev pub behind : Block → ℕ → Block
behind b n = record {
  addr = add32 b.addr n;
  size = sub32 b.size n;
  magic = unalloc_magic;
  datasize = 0;
}

IsRow-split :
    (lo : ℕ) (b : Block) (n : ℕ) (after : List Block)
    → b.magic ≡ unalloc_magic
    → 0 < n
    → n < b.size
    → IsRow lo (b ∷ after)
    → IsRow lo (record b { size = n } ∷ behind b n ∷ after)
unfolding IsRow IsNext
IsRow-split lo b n after m pos_n less ((le, adj, top, filled), rest) =
    let body = ap (λ (g : Magic). is_tail g) m in
    let eb : extent b ≡ b.size = rw body refl in
    let en : extent (record b { size = n }) ≡ n = rw body refl in
    let at : add32 b.addr n ≡ b.addr + n = omega arith in
    let size : sub32 b.size n ≡ b.size - n = omega arith in
    let end : b.addr + n + (b.size - n) ≡ b.addr + b.size = omega arith in
    (
      (le, adj, rw en (omega arith), rw en pos_n),
      (
        (
          rw (en, at) (omega arith),
          λ h. rw (en, at) refl,
          rw (at, size, end, sym eb) top,
          rw size (omega arith),
        ),
        rw (at, size, end, sym eb) rest,
      ),
    )

heavier :
    (w : Block → ℕ) (before after : List Block) (b : Block) (n : ℕ)
    → w b ≡ 0
    → w (record b { size = n }) ≡ 0
    → w (behind b n) ≡ 0
    → total w (joined before (record b { size = n } ∷ behind b n ∷ after))
      ≡ total w (joined before (b ∷ after))
heavier w before after b n ha hb hc = omega (
  arith,
  total-joined w before (record b { size = n } ∷ behind b n ∷ after),
  total-joined w before (b ∷ after),
)

pub split-IsSound :
    (p : Pool) (before after : List Block) (b : Block) (n : ℕ)
    → b.magic ≡ unalloc_magic
    → 0 < n
    → n < b.size
    → IsSound p (joined before (b ∷ after))
    → IsSound p (joined before (record b { size = n } ∷ behind b n ∷ after))
split-IsSound p before after b n m pos_n less s =
    let (back, row) = IsRow-of_joined before (b ∷ after) s.row in
    let not_free = ap (λ (g : Magic). is_free g) m in
    let not_used = ap (λ (g : Magic). is_alloc g) m in
    record {
      row =
          IsRow-joined before (record b { size = n } ∷ behind b n ∷ after) back
            (IsRow-split (end_of before) b n after m pos_n less row);
      agree = λ a k.
          s.agree a k
          ∙ sym (heavier (free_at a k) before after b n (rw not_free refl) (rw not_free refl) refl);
      checked = s.checked;
      curfree =
          s.curfree
          ∙ ap (λ (t : ℕ). t % 2 ^ 32)
              (sym (heavier free_size before after b n (rw not_free refl) (rw not_free refl) refl));
      curalloc =
          s.curalloc
          ∙ ap (λ (t : ℕ). t % 2 ^ 32)
              (sym
                (heavier alloc_size before after b n (rw not_used refl) (rw not_used refl) refl));
    }

pub dsize2bsize-pooladd :
    (p : Pool) (b : Block) (n : ℕ) → dsize2bsize (pooladd p b).0 n ≡ dsize2bsize p n
unfolding dsize2bsize pooladd
dsize2bsize-pooladd p b n = refl
