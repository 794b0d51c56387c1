-- ===== src/Handler/Compare.antt =====
-- The branch conditions against the instruction set manual.
use yeti_vm.Base.{ℕ, ◌^◌, ◌<◌, ◌≡◌, arith, Bool}
use yeti_vm.Base.{ltb, leb, ◌==◌, ◌!=◌}
use yeti_vm.BitTools.{to_signed}
use yeti_vm.Handler.Kinds.{Branch, beq, bne, blt, bge, bltu, bgeu}
use yeti_vm.Handler.Rv32i.{compare}
use yeti_vm.Handler.Alu.{biased}

abbrev pub taken : Branch → ℕ → ℕ → Bool
taken beq l r = l == r
taken bne l r = l != r
taken blt l r = ltb (biased l) (biased r)
taken bge l r = leb (biased r) (biased l)
taken bltu l r = ltb l r
taken bgeu l r = leb r l

-- On words each branch is taken when its operands compare as the manual says: by their bits, by
-- the signed order, or by the unsigned order.
pub compare-taken :
    (kind : Branch) (l r : ℕ) → l < 2 ^ 32 → r < 2 ^ 32 → compare kind l r ≡ taken kind l r
unfolding compare to_signed
compare-taken beq l r hl hr = ground arith
compare-taken _ l r hl hr = ground arith
