-- ===== src/Handler/Rv32i.antt =====
-- The handlers of vm_handlers_rv32i.hxx, over any machine. `undefined_behaviour` is what C++ leaves
-- undefined: a shift by 32 or more.
use yeti_vm.Base.{
  ℕ, ◌+◌, ◌-◌, ◌*◌, ◌/◌, ◌%◌, ◌^◌, bit_and, bit_or, bit_xor, Bool, true, false, not, Option, none,
  some,
}
use yeti_vm.Base.{ltb, leb, ◌!=◌, if◌then◌else◌}
use yeti_vm.Base.Int.{ℤ, ltb_ℤ, eqb_ℤ}
use yeti_vm.Base.Exec.{Exec, pure, lift_option, ◌>>=◌, ◌>>◌, undefined_behaviour}
use yeti_vm.BitTools.{complement, to_signed, to_unsigned, make_mask}
use yeti_vm.Opcode.{extend_sign}
use yeti_vm.Opcode.Decoder.{
  get_rd, get_rs1, get_rs2, decode_i_u, decode_i, decode_s, decode_b, decode_u, decode_j,
}
use yeti_vm.Machine.{Machine}
use yeti_vm.Handler.Kinds.{
  Branch, beq, bne, blt, bge, bltu, bgeu, Load, lb, lh, lw, lbu, lhu, Store, sb, sh, sw,
}
use yeti_vm.Handler.Kinds.{IntImm, addi, slti, sltiu, xori, ori, andi, ShiftImm, slli, srli, srai}
use yeti_vm.Handler.Kinds.{
  IntR, add_r, sub_r, sll_r, slt_r, sltu_r, xor_r, srl_r, sra_r, or_r, and_r, MiscMem, fence,
  fence_i,
}

abbrev pub signed : ℕ → ℤ
signed = to_signed 32

-- An unsigned word plus a signed number: C converts the number to unsigned.
abbrev pub add_signed : ℕ → ℤ → ℕ
add_signed word offset = (word + to_unsigned 32 offset) % 2 ^ 32

-- A `bool` as a register value.
abbrev pub bool_value : Bool → ℕ
bool_value true = 1
bool_value false = 0

-- `branch::compare`
unfoldable pub compare : Branch → ℕ → ℕ → Bool
compare beq lhs rhs = eqb_ℤ (signed lhs) (signed rhs)
compare bne lhs rhs = not (eqb_ℤ (signed lhs) (signed rhs))
compare blt lhs rhs = ltb_ℤ (signed lhs) (signed rhs)
compare bge lhs rhs = not (ltb_ℤ (signed lhs) (signed rhs))
compare bltu lhs rhs = ltb lhs rhs
compare bgeu lhs rhs = leb rhs lhs

-- `int_r::calculate`; `none` where C++ leaves the shift undefined.
unfoldable pub calculate : IntR → ℕ → ℕ → Option ℕ
calculate add_r lhs rhs = some ((lhs + rhs) % 2 ^ 32)
calculate sub_r lhs rhs = some ((lhs + 2 ^ 32 - rhs) % 2 ^ 32)
calculate sll_r lhs rhs = if ltb rhs 32 then some (lhs * 2 ^ rhs % 2 ^ 32) else none
calculate slt_r lhs rhs = some (bool_value (ltb_ℤ (signed lhs) (signed rhs)))
calculate sltu_r lhs rhs = some (bool_value (ltb lhs rhs))
calculate xor_r lhs rhs = some (bit_xor lhs rhs)
calculate srl_r lhs rhs = if ltb rhs 32 then some (lhs / 2 ^ rhs) else none
calculate sra_r lhs rhs = if ltb rhs 32 then some (extend_sign (lhs / 2 ^ rhs) lhs) else none
calculate or_r lhs rhs = some (bit_or lhs rhs)
calculate and_r lhs rhs = some (bit_and lhs rhs)

-- What `addi` to `andi` store, from the register and the decoded immediate.
unfoldable pub calculate_imm : IntImm → ℕ → ℕ → ℕ
calculate_imm addi value immediate = add_signed value (signed immediate)
calculate_imm slti value immediate = bool_value (ltb_ℤ (signed value) (signed immediate))
calculate_imm sltiu value immediate = bool_value (ltb value immediate)
calculate_imm xori value immediate = bit_xor value (to_unsigned 32 (signed immediate))
calculate_imm ori value immediate = bit_or value (to_unsigned 32 (signed immediate))
calculate_imm andi value immediate = bit_and value (to_unsigned 32 (signed immediate))

-- `shift_imm::get_data`
unfoldable pub shift_amount : ℕ → ℕ
shift_amount code = bit_and (decode_i_u code) (make_mask 32 0 5)

unfoldable pub calculate_shift : ShiftImm → ℕ → ℕ → ℕ
calculate_shift slli value amount = value * 2 ^ amount % 2 ^ 32
calculate_shift srli value amount = value / 2 ^ amount
calculate_shift srai value amount = extend_sign (value / 2 ^ amount) value

-- What `lb` and `lh` do with the value that was read.
unfoldable pub extend_loaded : Load → ℕ → ℕ
extend_loaded lb value =
    if bit_and value (make_mask 32 7 1) != 0 then bit_or (make_mask 32 8 24) value else value
extend_loaded lh value =
    if bit_and value (make_mask 32 15 1) != 0 then bit_or (make_mask 32 16 16) value else value
extend_loaded _ value = value

abbrev pub load_size : Load → ℕ
load_size lb = 1
load_size lh = 2
load_size lw = 4
load_size lbu = 1
load_size lhu = 2

abbrev pub store_size : Store → ℕ
store_size sb = 1
store_size sh = 2
store_size sw = 4

module _ {S : Type 0} (m : Machine S) where
  unfoldable pub exec_lui : ℕ → Exec S (Unit {0})
  exec_lui code = m.set_register (get_rd code) (decode_u code)

  unfoldable pub exec_auipc : ℕ → Exec S (Unit {0})
  exec_auipc code = do
    pc_value ← m.get_pc
    m.set_register (get_rd code) ((decode_u code + pc_value) % 2 ^ 32)

  unfoldable pub exec_jal : ℕ → Exec S (Unit {0})
  exec_jal code = do
    pc_value ← m.get_pc
    m.set_register (get_rd code) ((pc_value + 4) % 2 ^ 32)
    m.jump_to (signed (decode_j code))

  unfoldable pub exec_jalr : ℕ → Exec S (Unit {0})
  exec_jalr code = do
    pc_value ← m.get_pc
    base ← m.get_register (get_rs1 code)
    m.set_register (get_rd code) ((pc_value + 4) % 2 ^ 32)
    m.jump_abs (bit_and (add_signed base (signed (decode_i code))) (complement 32 1))

  unfoldable pub exec_branch : Branch → ℕ → Exec S (Unit {0})
  exec_branch kind code = do
    lhs ← m.get_register (get_rs1 code)
    rhs ← m.get_register (get_rs2 code)
    m.jump_if (compare kind lhs rhs) (signed (decode_b code))

  -- The overridden `read_memory` of the load classes.
  unfoldable pub read_value : Load → ℕ → Exec S ℕ
  read_value kind address = do
    value ← m.read_memory address (load_size kind) 0
    pure (extend_loaded kind value)

  unfoldable pub exec_load : Load → ℕ → Exec S (Unit {0})
  exec_load kind code = do
    base ← m.get_register (get_rs1 code)
    value ← read_value kind (add_signed base (signed (decode_i code)))
    m.set_register (get_rd code) value

  unfoldable pub exec_store : Store → ℕ → Exec S (Unit {0})
  exec_store kind code = do
    value ← m.get_register (get_rs2 code)
    base ← m.get_register (get_rs1 code)
    m.write_memory (add_signed base (signed (decode_s code))) (store_size kind) value

  unfoldable pub exec_int_imm : IntImm → ℕ → Exec S (Unit {0})
  exec_int_imm kind code = do
    value ← m.get_register (get_rs1 code)
    m.set_register (get_rd code) (calculate_imm kind value (decode_i code))

  unfoldable pub exec_shift_imm : ShiftImm → ℕ → Exec S (Unit {0})
  exec_shift_imm kind code = do
    value ← m.get_register (get_rs1 code)
    m.set_register (get_rd code) (calculate_shift kind value (shift_amount code))

  unfoldable pub exec_int_r : IntR → ℕ → Exec S (Unit {0})
  exec_int_r kind code = do
    lhs ← m.get_register (get_rs1 code)
    rhs ← m.get_register (get_rs2 code)
    result ← lift_option undefined_behaviour (calculate kind lhs rhs)
    m.set_register (get_rd code) result

  unfoldable pub exec_misc_mem : MiscMem → ℕ → Exec S (Unit {0})
  exec_misc_mem fence code = m.barrier
  exec_misc_mem fence_i code = m.barrier

  unfoldable pub exec_env_call : ℕ → Exec S (Unit {0})
  exec_env_call code = if decode_i_u code != 0 then m.debug else m.syscall
