-- ===== src/Vlong/Value.antt =====
-- The numbers that the pairs of vlrt.c stand for, unsigned and signed.
use plan9_ocaml.Prelude.{ℕ, ◌+◌, ◌-◌, ◌*◌, ◌^◌, ◌<◌, ltb, if◌then◌else◌, u32_mod}
use plan9_ocaml.Prelude.Int.{ℤ, pos, negsuc}
use plan9_ocaml.Vlong.{Vlong}

-- Both words are words.
pub record IsVlong (v : Vlong) : Type 0 where
  pub lo : v.lo < u32_mod
  pub hi : v.hi < u32_mod

abbrev pub value : Vlong → ℕ
value v = v.hi * 2 ^ 32 + v.lo

abbrev pub signed : Vlong → ℤ
signed v = if ltb (value v) (2 ^ 63) then pos (value v) else negsuc (2 ^ 64 - value v - 1)
