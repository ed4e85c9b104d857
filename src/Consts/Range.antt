-- ===== src/Consts/Range.antt =====
-- Which constants convert to which integer type.
use crack.Consts.Convert.{
  Target, to_int64, to_uint64, to_int32, to_int16, to_float, to_uint32, to_uint16, to_byte, to_pdnt,
  to_other, blocks, above, below,
}
use crack.Consts.Signed.{ℤ, word_mod, is_negative}
use crack.Consts.{IntConst, sval, meaning, IsWell}
use crack.Prelude.{ℕ, ◌-◌, ◌^◌, ◌<◌, Bool, true, false, not, ◌&&◌, ◌≡◌, refl, arith}

-- From -`low` to `high`.
abbrev pub between : ℕ → ℕ → ℤ → Bool
between low high z = not (above high z) && not (below low z)

-- The numbers of an integer type; the other targets take all.
abbrev pub holds : Target → ℤ → Bool
holds to_int64 z = between (2 ^ 63) (2 ^ 63 - 1) z
holds to_uint64 z = between 0 (2 ^ 64 - 1) z
holds to_int32 z = between (2 ^ 31) (2 ^ 31 - 1) z
holds to_int16 z = between (2 ^ 15) (2 ^ 15 - 1) z
holds to_uint32 z = between 0 (2 ^ 32 - 1) z
holds to_uint16 z = between 0 (2 ^ 16 - 1) z
holds to_byte z = between 0 (2 ^ 8 - 1) z
holds _ z = true

-- A constant of 64 bits that is no complement, and that needs an unsigned type only from 2 to the 63
-- on, is refused by the branch of an integer type exactly if the number that it stands for is none of
-- the type's; the other branches refuse nothing.
pub blocks-holds :
    (k : Target) (c : IntConst) → IsWell c → c.uneg ≡ false → blocks k c ≡ not (holds k (meaning c))
unfolding blocks
blocks-holds to_int64 c w u = ground (arith, w.fits, w.needs)
blocks-holds to_uint64 c w u = ground (arith, w.fits, w.needs)
blocks-holds to_int32 c w u = ground (arith, w.fits, w.needs)
blocks-holds to_int16 c w u = ground (arith, w.fits, w.needs)
blocks-holds to_uint32 c w u = ground (arith, w.fits, w.needs)
blocks-holds to_uint16 c w u = ground (arith, w.fits, w.needs)
blocks-holds to_byte c w u = ground (arith, w.fits, w.needs)
blocks-holds to_float c w u = refl
blocks-holds to_pdnt c w u = refl
blocks-holds to_other c w u = refl

-- A complement of 64 bits converts to a byte from -256 on and to a uint16 from -65536 on, below 0 both,
-- but to a uint32 whenever it is negative: its branch knows no lower bound.
pub blocks_uneg :
    (c : IntConst)
    → c.val < word_mod
    → c.uneg ≡ true
    → (blocks to_byte c ≡ not (between 256 0 (sval c) && is_negative (sval c)))
      × (blocks to_uint16 c ≡ not (between 65536 0 (sval c) && is_negative (sval c)))
      × (blocks to_uint32 c ≡ not (is_negative (sval c)))
unfolding blocks
blocks_uneg c w u = (ground arith, ground arith, ground arith)
