-- ===== src/Handler/Alu.antt =====
-- The register operations of RV32I against the instruction set manual: the signed readings, the
-- remainders by 2 ^ 32 and the floor of a quotient.
use yeti_vm.Base.{
  ℕ, suc, ◌+◌, ◌-◌, ◌*◌, ◌/◌, ◌%◌, ◌^◌, ◌≤◌, ◌<◌, ◌≡◌, refl, arith, ap, sym, bit_and, bit_or,
  bit_xor, Bool, true, false, ◌&&◌, none, some,
}
use yeti_vm.Base.{ltb, leb, if◌then◌else◌, ltb→lt, Bool-cases, inl, inr}
use yeti_vm.BitTools.{to_signed, arithmetic_shift, extend_sign_msb}
use yeti_vm.BitTools.Fields.{bit_and_mask}
use yeti_vm.BitTools.SignExtend.{extend_sign_msb-shr}
use yeti_vm.Opcode.{extend_sign}
use yeti_vm.Handler.Kinds.{
  IntR, add_r, sub_r, sll_r, slt_r, sltu_r, xor_r, srl_r, sra_r, or_r, and_r,
}
use yeti_vm.Handler.Rv32i.{calculate}
use native.Mathlib.Nat.{mod-eq_of_lt, div-le_self}

-- The sign of the word decides: the shifted word is filled from its own top bit.
extend_sign_negative :
    (value v : ℕ) → v < 2 ^ 32 → 2 ^ 31 ≤ v → extend_sign value v ≡ extend_sign_msb 32 value
unfolding extend_sign
extend_sign_negative value v hv h =
    let e : bit_and v (2 ^ 31) ≡ 2 ^ 31 = omega (arith, bit_and_mask 31 1 v) in rw e refl

extend_sign_positive : (value v : ℕ) → v < 2 ^ 31 → extend_sign value v ≡ value
unfolding extend_sign
extend_sign_positive value v h =
    let e : bit_and v (2 ^ 31) ≡ 0 = omega (arith, bit_and_mask 31 1 v) in rw e refl

-- Filling the shifted word from its own top bit, which is what `srai` and `sra` do, is the
-- arithmetic shift, for every word and every amount below 32.
pub extend_sign-shr :
    (v s : ℕ) → v < 2 ^ 32 → s < 32 → extend_sign (v / 2 ^ s) v ≡ arithmetic_shift 32 v s
extend_sign-shr v s hv hs = elim (Bool-cases (ltb v (2 ^ 31))) [
  | inl below ↦ rw (extend_sign_positive (v / 2 ^ s) v (ltb→lt _ _ below)) (positive below)
  | inr above ↦ rw (extend_sign_negative (v / 2 ^ s) v hv (ground arith)) (negative (ground arith))
]
  where
    positive : ltb v (2 ^ 31) ≡ true → v / 2 ^ s ≡ arithmetic_shift 32 v s
    positive below =
        unfold arithmetic_shift in
        rw below (sym (mod-eq_of_lt (omega (arith, div-le_self v (2 ^ s)))))

    negative : 2 ^ 31 ≤ v → extend_sign_msb 32 (v / 2 ^ s) ≡ arithmetic_shift 32 v s
    negative high =
        let width : 31 - s + suc s ≡ 32 = omega arith in
        let exponent : 31 - s + s ≡ 31 = omega arith in
        let top : 2 ^ (31 - s + s) ≡ 2 ^ 31 = ap (λ (n : ℕ). 2 ^ n) exponent in
        rw width at (extend_sign_msb-shr (31 - s) s v (omega arith) (rw top high) (rw width hv))

abbrev pub is_shift : IntR → Bool
is_shift sll_r = true
is_shift srl_r = true
is_shift sra_r = true
is_shift _ = false

-- A word with its sign bit turned over: the signed order is the order of these.
abbrev pub biased : ℕ → ℕ
biased v = (v + 2 ^ 31) % 2 ^ 32

-- What the manual says of each operation; an amount is below 32.
abbrev pub alu : IntR → ℕ → ℕ → ℕ
alu add_r l r = (l + r) % 2 ^ 32
alu sub_r l r = if leb r l then l - r else 2 ^ 32 - (r - l)
alu sll_r l r = l * 2 ^ r % 2 ^ 32
alu slt_r l r = if ltb (biased l) (biased r) then 1 else 0
alu sltu_r l r = if ltb l r then 1 else 0
alu xor_r l r = bit_xor l r
alu srl_r l r = l / 2 ^ r
alu sra_r l r = arithmetic_shift 32 l r
alu or_r l r = bit_or l r
alu and_r l r = bit_and l r

-- On words each register operation of RV32I computes what the manual says of it; a shift by 32 or
-- more is undefined.
pub calculate-alu :
    (op : IntR) (l r : ℕ)
    → l < 2 ^ 32
    → r < 2 ^ 32
    → calculate op l r ≡ (if is_shift op && leb 32 r then none else some (alu op l r))
unfolding calculate
calculate-alu add_r l r hl hr = refl
calculate-alu sub_r l r hl hr = ground arith
calculate-alu sll_r l r hl hr = ground arith
calculate-alu slt_r l r hl hr = unfold to_signed in ground arith
calculate-alu sltu_r l r hl hr = ground arith
calculate-alu xor_r l r hl hr = refl
calculate-alu srl_r l r hl hr = ground arith
calculate-alu sra_r l r hl hr = ground (arith, extend_sign-shr l r hl)
calculate-alu or_r l r hl hr = refl
calculate-alu and_r l r hl hr = refl
