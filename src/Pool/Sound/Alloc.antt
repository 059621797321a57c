-- ===== src/Pool/Sound/Alloc.antt =====
-- Taking a block that the tree gives.
use mathlib.Core.Option.{Option}
use mathlib.Core.Path.{subst, sym}
use plan9_ocaml.Prelude.{
  [], none, some, ℕ, List, Option, ◌<◌, ◌≡◌, add32, if◌then◌else◌, ◌∷◌, ◌+◌, true, ◌==◌, refl,
  arith, ◌≤◌, ◌++◌, ◌&&◌, Bool-cases, inl, inr, sym, ◌^◌, ◌≢◌,
}
use mathlib.Core.Option as Option
use plan9_ocaml.Pool.Tree.{treelookup}
use plan9_ocaml.Pool.Tree.Held.{held}
use plan9_ocaml.Pool.{
  Pool, Block, Focus, Trimmed, dsize2bsize, focus_from, trim, getdsize, unalloc_magic, ℕ, List,
  joined, add32, is_alloc, is_free, bhdr_size, true,
}
use plan9_ocaml.Pool.Arena.{take_block}
use plan9_ocaml.Pool.Total.{
  extent, total, total-joined, total-append, IsRow, IsNext, focus_from-IsFocus, IsFocus,
}
use plan9_ocaml.Pool.Sound.{IsLike, IsSound, free_at, alloc_at, pooldel-IsSound, arith}
use plan9_ocaml.Pool.Sound.Neighbours.{free_weight}
use plan9_ocaml.Pool.Sound.Trim.{IsTuned, Trims, trim-Trims}

-- No block is before the place where the row begins.
free_at-before : (lo a n : ℕ) (bs : List Block) → IsRow lo bs → a < lo → total (free_at a n) bs ≡ 0
unfolding IsRow IsNext
free_at-before lo a n [] r h = refl
free_at-before lo a n (b ∷ bs) ((le, adj, top, filled), rest) h =
    ground (arith, free_at-before (b.addr + extent b) a n bs rest)

-- The block that is looked for by the address of a free block is that one.
focus_from-free :
    (before : List Block) (lo a n : ℕ) (bs : List Block)
    → IsRow lo bs
    → 0 < total (free_at a n) bs
    → (f : Focus) × (focus_from before a bs ≡ some f)
      × (is_free f.block.magic ≡ true)
      × (f.block.addr ≡ a)
      × (f.block.size ≡ n)
unfolding focus_from IsRow IsNext
focus_from-free before lo a n [] r h = absurd (omega arith)
focus_from-free before lo a n (b ∷ bs) ((le, adj, top, filled), rest) h =
    elim (Bool-cases (b.addr == a)) [
      | inl e ↦
          let same : b.addr ≡ a = ground arith in
          let none_after : total (free_at a n) bs ≡ 0 =
            free_at-before (b.addr + extent b) a n bs rest (omega arith) in
          let free : is_free b.magic ≡ true = ground arith in
          let size : b.size ≡ n = ground arith in
          (record { before = before; block = b; after = bs }, rw e refl, free, same, size)
      | inr e ↦
          let (f, eq, free, same, size) =
            focus_from-free (b ∷ before) (b.addr + extent b) a n bs rest (ground arith) in
          (f, rw e eq, free, same, size)
    ]

-- What taking a block for `dsize` bytes has to give: a sound pool in which one block more is in use,
-- with that size of data, and whose data is at the address returned.
unfoldable pub Took : Pool → (dsize : ℕ) → Option (Option ℕ × Pool) → Type 0
Took p dsize none = ⊥
Took p dsize (some (none, q)) = ⊥
Took p dsize (some (some v, q)) =
    (b : Block) × (v ≡ add32 b.addr 8)
    × (getdsize b ≡ dsize)
    × (dsize + 16 ≤ b.size)
    × IsSound q q.blocks
    × ((a n : ℕ)
        → total (alloc_at a n) q.blocks
          ≡ total (alloc_at a n) p.blocks + (if (b.addr == a) && (dsize == n) then 1 else 0))

trimmed : Focus → Trimmed → Option ℕ × Pool
trimmed f t = (
  some (add32 t.block.addr bhdr_size),
  record t.pool {
    curalloc = add32 t.pool.curalloc t.block.size;
    blocks = joined f.before (t.block ∷ t.frag ++ f.after);
  },
)

used_weight :
    (b : Block) (a n d : ℕ)
    → is_alloc b.magic ≡ true
    → getdsize b ≡ d
    → alloc_at a n b ≡ (if (b.addr == a) && (d == n) then 1 else 0)
unfolding alloc_at
used_weight b a n d h e = rw (h, e) refl

trimmed-Took :
    (p : Pool) (f : Focus) (b : Block) (dsize : ℕ) (o : Option Trimmed)
    → is_free f.block.magic ≡ true
    → joined f.before (f.block ∷ f.after) ≡ p.blocks
    → Trims f.before f.after b dsize o
    → Took p dsize (Option.map {B = Option ℕ × Pool} (trimmed f) o)
unfolding Trims Took trimmed
trimmed-Took p f b dsize none free whole t = t
trimmed-Took p f b dsize (some t) free whole (at, asked, used, room, idle, s) = (
  t.block,
  refl,
  asked,
  room,
  record {
    row = s.row;
    agree = s.agree;
    checked = s.checked;
    curfree = s.curfree;
    curalloc = s.curalloc;
  },
  λ a n. rw (sym whole) (
      omega (
        arith,
        total-joined (alloc_at a n) f.before (f.block ∷ f.after),
        total-joined (alloc_at a n) f.before (t.block ∷ t.frag ++ f.after),
        total-append (alloc_at a n) t.frag f.after,
        idle a n,
        used_weight t.block a n dsize used asked,
        free_weight a n f.block free,
      )),
)

self_test : (c : ℕ) → ◌≡◌ {A = ℕ} (if c == c then 1 else 0) 1
self_test c = ground arith

focus_whole :
    (c : ℕ) (bs : List Block) (f : Focus)
    → focus_from [] c bs ≡ some f
    → joined f.before (f.block ∷ f.after) ≡ bs
unfolding IsFocus joined
focus_whole c bs f e = (focus_from-IsFocus [] c bs f e).1

pub dsize2bsize-like : (p q : Pool) (n : ℕ) → IsLike p q → dsize2bsize q n ≡ dsize2bsize p n
unfolding dsize2bsize IsLike
dsize2bsize-like p q n (eq, em, ea, en) = rw (eq, em) refl

pub IsTuned-like : (p q : Pool) → IsLike p q → IsTuned p → IsTuned q
unfolding IsTuned IsLike
IsTuned-like p q (eq, em, ea, en) t = rw (eq, em, ea) t

pub take_block-Took :
    (p : Pool) (dsize m : ℕ) (bs : List ℕ)
    → IsSound p p.blocks
    → IsTuned p
    → dsize < 2 ^ 31
    → treelookup p.freeroot m ≡ bs
    → bs ≢ []
    → dsize2bsize p dsize ≤ m
    → Took p dsize (take_block p dsize bs)
unfolding take_block trimmed
take_block-Took p dsize m [] s tuned low look ne fits = absurd (ne refl)
take_block-Took p dsize m (c ∷ cs) s tuned low look ne fits =
    let held_c : 0 < held c m p.freeroot = rw look (omega (arith, self_test c)) in
    let (f, eq, free, at, size) =
      focus_from-free [] 0 c m p.blocks s.row (omega (arith, held_c, s.agree c m)) in
    let whole = focus_whole c p.blocks f eq in
    let (q, del, like, s₁) =
      pooldel-IsSound p f.before f.after f.block free
        (subst (λ (x : List Block). IsSound p x) (sym whole) s) in
    let cut =
      trim-Trims q f.before f.after (record f.block { magic = unalloc_magic }) dsize
        (IsTuned-like p q like tuned) low refl (rw (dsize2bsize-like p q dsize like, size) fits)
        s₁ in
    rw (eq, del)
      (trimmed-Took p f (record f.block { magic = unalloc_magic }) dsize
        (trim q (record f.block { magic = unalloc_magic }) dsize) free whole cut)
