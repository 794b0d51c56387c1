-- ===== src/Handler/Kinds.antt =====
-- The handler classes. A class template is a constructor over the classes that derive from it.
use yeti_vm.Base.{ℕ, Bool, true, false, ◌*◌, ◌^◌}
use yeti_vm.Opcode.{BaseFormat, r_type, i_type, s_type, b_type, u_type, j_type}
use yeti_vm.Opcode.Groups

pub data Branch : Type 0 where
  beq bne blt bge bltu bgeu : Branch

pub data Load : Type 0 where
  lb lh lw lbu lhu : Load

pub data Store : Type 0 where
  sb sh sw : Store

pub data IntImm : Type 0 where
  addi slti sltiu xori ori andi : IntImm

pub data ShiftImm : Type 0 where
  slli srli srai : ShiftImm

pub data IntR : Type 0 where
  add_r sub_r sll_r slt_r sltu_r xor_r srl_r sra_r or_r and_r : IntR

pub data MiscMem : Type 0 where
  fence fence_i : MiscMem

pub data Csr : Type 0 where
  csrrw csrrs csrrc csrrwi csrrsi csrrci : Csr

pub data Math : Type 0 where
  mul mulh mulhsu mulhu div divu rem remu : Math

pub data Handler : Type 0 where
  lui auipc jal jalr env_call : Handler
  branch : Branch → Handler
  load : Load → Handler
  store : Store → Handler
  int_imm : IntImm → Handler
  shift_imm : ShiftImm → Handler
  int_r : IntR → Handler
  misc_mem : MiscMem → Handler
  csr : Csr → Handler
  math : Math → Handler

-- `InstructionId::NoFuncA` and `NoFuncB`
abbrev pub no_func_a : ℕ
no_func_a = 16

abbrev pub no_func_b : ℕ
no_func_b = 256

-- `getGroupId`: the first argument of `GenericHandler`
unfoldable pub get_group_id : Handler → ℕ
get_group_id lui = Groups.lui
get_group_id auipc = Groups.auipc
get_group_id jal = Groups.jal
get_group_id jalr = Groups.jalr
get_group_id env_call = Groups.system
get_group_id (branch k) = Groups.branch
get_group_id (load k) = Groups.load
get_group_id (store k) = Groups.store
get_group_id (int_imm k) = Groups.op_imm
get_group_id (shift_imm k) = Groups.op_imm
get_group_id (int_r k) = Groups.op
get_group_id (misc_mem k) = Groups.misc_mem
get_group_id (csr k) = Groups.system
get_group_id (math k) = Groups.op

-- `getEncodingFormat`
unfoldable pub get_encoding_format : Handler → BaseFormat
get_encoding_format lui = u_type
get_encoding_format auipc = u_type
get_encoding_format jal = j_type
get_encoding_format jalr = i_type
get_encoding_format env_call = i_type
get_encoding_format (branch k) = b_type
get_encoding_format (load k) = i_type
get_encoding_format (store k) = s_type
get_encoding_format (int_imm k) = i_type
get_encoding_format (shift_imm k) = r_type
get_encoding_format (int_r k) = r_type
get_encoding_format (misc_mem k) = i_type
get_encoding_format (csr k) = i_type
get_encoding_format (math k) = r_type

abbrev pub branch_type : Branch → ℕ
branch_type beq = 0b000
branch_type bne = 0b001
branch_type blt = 0b100
branch_type bge = 0b101
branch_type bltu = 0b110
branch_type bgeu = 0b111

abbrev pub load_type : Load → ℕ
load_type lb = 0b000
load_type lh = 0b001
load_type lw = 0b010
load_type lbu = 0b100
load_type lhu = 0b101

abbrev pub store_type : Store → ℕ
store_type sb = 0b000
store_type sh = 0b001
store_type sw = 0b010

abbrev pub int_imm_type : IntImm → ℕ
int_imm_type addi = 0b000
int_imm_type slti = 0b010
int_imm_type sltiu = 0b011
int_imm_type xori = 0b100
int_imm_type ori = 0b110
int_imm_type andi = 0b111

abbrev pub shift_imm_type : ShiftImm → ℕ × ℕ
shift_imm_type slli = (0b001, 0)
shift_imm_type srli = (0b101, 0)
shift_imm_type srai = (0b101, 1)

abbrev pub int_r_type : IntR → ℕ × ℕ
int_r_type add_r = (0b000, 0)
int_r_type sub_r = (0b000, 1)
int_r_type sll_r = (0b001, 0)
int_r_type slt_r = (0b010, 0)
int_r_type sltu_r = (0b011, 0)
int_r_type xor_r = (0b100, 0)
int_r_type srl_r = (0b101, 0)
int_r_type sra_r = (0b101, 1)
int_r_type or_r = (0b110, 0)
int_r_type and_r = (0b111, 0)

abbrev pub misc_mem_type : MiscMem → ℕ
misc_mem_type fence = 0b000
misc_mem_type fence_i = 0b001

abbrev pub csr_type : Csr → ℕ
csr_type csrrw = 0b001
csr_type csrrs = 0b010
csr_type csrrc = 0b011
csr_type csrrwi = 0b101
csr_type csrrsi = 0b110
csr_type csrrci = 0b111

abbrev pub math_type : Math → ℕ
math_type mul = 0b000
math_type mulh = 0b001
math_type mulhsu = 0b010
math_type mulhu = 0b011
math_type div = 0b100
math_type divu = 0b101
math_type rem = 0b110
math_type remu = 0b111

-- `getFuncA`
unfoldable pub get_func_a : Handler → ℕ
get_func_a lui = no_func_a
get_func_a auipc = no_func_a
get_func_a jal = no_func_a
get_func_a jalr = 0b000
get_func_a env_call = 0b000
get_func_a (branch k) = branch_type k
get_func_a (load k) = load_type k
get_func_a (store k) = store_type k
get_func_a (int_imm k) = int_imm_type k
get_func_a (shift_imm k) = (shift_imm_type k).0
get_func_a (int_r k) = (int_r_type k).0
get_func_a (misc_mem k) = misc_mem_type k
get_func_a (csr k) = csr_type k
get_func_a (math k) = math_type k

-- `getFuncB`; the shifts and the register operations pass `Variant << 5`.
unfoldable pub get_func_b : Handler → ℕ
get_func_b (shift_imm k) = (shift_imm_type k).1 * 2 ^ 5
get_func_b (int_r k) = (int_r_type k).1 * 2 ^ 5
get_func_b (math k) = 0b0000001
get_func_b _ = no_func_b

-- `skip`: the handler has set the program counter itself.
unfoldable pub skip : Handler → Bool
skip jal = true
skip jalr = true
skip (branch k) = true
skip _ = false
