-- ===== src/Emv/Hang.antt =====
-- A negative length keeps the loop where it is.
use biocodetechpay.Prelude.{ℕ, zero, suc, ◌≡◌, refl, false, Text, codes, ◌++◌, ◌∷◌, arith}
use biocodetechpay.Emv.Tlv.{walk_tlv, scan}

-- A payload whose first length reads `-4` is never read to its end: with any fuel, the loop of
-- `_walk_tlv` has not ended.
pub walk_hangs :
    (fuel a b : ℕ) (rest : Text) → (walk_tlv fuel (a ∷ b ∷ codes "-4" ++ rest)).ended ≡ false
unfolding scan
walk_hangs zero a b rest = refl
walk_hangs (suc fuel) a b rest = ground (arith, walk_hangs fuel a b rest)
