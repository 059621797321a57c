-- ===== src/Xalloc/Words.antt =====
-- Address and size arithmetic of xalloc.c, from the masks of the source.
use Prim.Native.Nat.{bit_and}
use plan9_ocaml.Prelude.{ℕ, ◌+◌, ◌*◌, ◌/◌, ◌%◌, ◌^◌, ◌≤◌, ◌<◌, ◌≡◌, arith, u32_mod, add32}
use plan9_ocaml.Prelude.Bits.{or_low_bits, and_low_mask, and_digit}
use plan9_ocaml.Xalloc.{kaddr, paddr, block_size}

pub paddr-eq : (va : ℕ) → paddr va ≡ va % 2 ^ 30
unfolding paddr
paddr-eq va = and_low_mask 30 va

pub kaddr-eq : (pa : ℕ) → kaddr pa ≡ 2 ^ 31 + pa % 2 ^ 30
unfolding kaddr
kaddr-eq pa = omega (
  arith,
  and_low_mask 30 pa,
  or_low_bits (bit_and pa 0x3fffffff) 1 31 (omega (arith, and_low_mask 30 pa)),
)

pub paddr-kaddr : (pa : ℕ) → pa < 2 ^ 30 → paddr (kaddr pa) ≡ pa
paddr-kaddr pa h = omega (arith, paddr-eq (kaddr pa), kaddr-eq pa)

and_eights : (x : ℕ) → bit_and x 0xfffffff8 ≡ x / 8 % 2 ^ 29 * 8
and_eights x = omega (
  arith,
  and_digit x 0xfffffff8,
  and_digit (x / 2) 0x7ffffffc,
  and_digit (x / 2 / 2) 0x3ffffffe,
  and_low_mask 29 (x / 2 / 2 / 2),
)

pub block_size-eq : (n : ℕ) → block_size n ≡ add32 n 16 / 8 * 8
unfolding block_size
block_size-eq n = omega (arith, and_eights (add32 n 16))

-- The block has room for the header and the data, in whole double words.
pub block_size_bounds :
    (n : ℕ)
    → n + 16 < u32_mod
    → (n + 8 < block_size n) × (block_size n ≤ n + 16) × (block_size n % 8 ≡ 0)
block_size_bounds n h = omega (arith, block_size-eq n)
