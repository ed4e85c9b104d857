-- ===== src/Consts/Unmarked.antt =====
-- foldBitNot (model/IntConst.cc) applied twice, and the mark that it keeps.
use crack.Consts.Fold.{fold_bit_not}
use crack.Consts.{IntConst, IsWell}
use crack.Prelude.{ℕ, Bool, true, false, not, ◌≡◌, refl, arith}

not-not : (b : Bool) → not (not b) ≡ b
not-not true = refl
not-not false = refl

remade :
    (c : IntConst) (v : ℕ) (u : Bool)
    → v ≡ c.val
    → u ≡ c.uneg
    → record { val = v; req_unsigned = c.req_unsigned; uneg = u } ≡ c
remade c v u h k = rw (h, k) refl

-- The complement of the complement of a constant of 64 bits that is marked as needing an unsigned type
-- only when it has the high bit is the constant; and the complement of one with the mark still has the
-- mark but not the high bit.
pub bit_not-bit_not :
    (c : IntConst)
    → IsWell c
    → (fold_bit_not (fold_bit_not c) ≡ c) × (c.req_unsigned ≡ true → ¬ IsWell (fold_bit_not c))
unfolding fold_bit_not
bit_not-bit_not c w = (
  remade c _ _ (omega (arith, w.fits)) (not-not c.uneg),
  λ e z. omega (arith, w.needs e, z.needs e, w.fits),
)
