-- ===== src/Handler/Immediate.antt =====
-- The operations of RV32I on an immediate against those on registers: vm_handlers_rv32i.hxx.
use yeti_vm.Base.{ℕ, ◌/◌, ◌%◌, ◌^◌, ◌<◌, ◌≡◌, refl, arith}
use yeti_vm.BitTools.{to_signed, to_unsigned, make_mask}
use yeti_vm.BitTools.Fields.{bit_and_ones}
use yeti_vm.Opcode.Decoder.{decode_i_u}
use yeti_vm.Opcode.Fields.{decode_i_u_lem}
use yeti_vm.Handler.Kinds.{
  IntImm, addi, slti, sltiu, xori, ori, andi, ShiftImm, slli, srli, srai, IntR, add_r, slt_r,
  sltu_r, xor_r, or_r, and_r, sll_r, srl_r, sra_r,
}
use yeti_vm.Handler.Rv32i.{calculate_imm, calculate_shift, shift_amount}
use yeti_vm.Handler.Alu.{alu, extend_sign-shr}

abbrev pub imm_op : IntImm → IntR
imm_op addi = add_r
imm_op slti = slt_r
imm_op sltiu = sltu_r
imm_op xori = xor_r
imm_op ori = or_r
imm_op andi = and_r

abbrev pub shift_op : ShiftImm → IntR
shift_op slli = sll_r
shift_op srli = srl_r
shift_op srai = sra_r

-- A word read as signed and converted back is itself.
pub to_unsigned-to_signed : (w : ℕ) → w < 2 ^ 32 → to_unsigned 32 (to_signed 32 w) ≡ w
unfolding to_unsigned to_signed
to_unsigned-to_signed w h = ground arith

pub calculate_imm-alu :
    (kind : IntImm) (value imm : ℕ)
    → value < 2 ^ 32
    → imm < 2 ^ 32
    → calculate_imm kind value imm ≡ alu (imm_op kind) value imm
unfolding calculate_imm
calculate_imm-alu addi value imm hv hi = rw (to_unsigned-to_signed imm hi) refl
calculate_imm-alu slti value imm hv hi = unfold to_signed in ground arith
calculate_imm-alu sltiu value imm hv hi = ground arith
calculate_imm-alu xori value imm hv hi = rw (to_unsigned-to_signed imm hi) refl
calculate_imm-alu ori value imm hv hi = rw (to_unsigned-to_signed imm hi) refl
calculate_imm-alu andi value imm hv hi = rw (to_unsigned-to_signed imm hi) refl

pub calculate_shift-alu :
    (kind : ShiftImm) (value amount : ℕ)
    → value < 2 ^ 32
    → amount < 32
    → calculate_shift kind value amount ≡ alu (shift_op kind) value amount
unfolding calculate_shift
calculate_shift-alu slli value amount hv ha = refl
calculate_shift-alu srli value amount hv ha = refl
calculate_shift-alu srai value amount hv ha = extend_sign-shr value amount hv ha

pub shift_amount_lem : (code : ℕ) → shift_amount code ≡ code / 2 ^ 20 % 2 ^ 5
unfolding shift_amount make_mask
shift_amount_lem code = omega (arith, bit_and_ones 5 (decode_i_u code), decode_i_u_lem code)
