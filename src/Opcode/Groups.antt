-- ===== src/Opcode/Groups.antt =====
-- The opcode groups of vm_opcode.hxx (`OpcodeType`) and their names (`get_op_id`).
use yeti_vm.Base.{ℕ, ◌*◌, ◌%◌, ◌^◌, bit_and, bit_or, String}
use yeti_vm.Base.{◌==◌, if◌then◌else◌}

abbrev pub make_opcode : ℕ → ℕ → ℕ
make_opcode i65 i42 = bit_or (bit_or (i65 * 2 ^ 5 % 2 ^ 32) (i42 * 2 ^ 2 % 2 ^ 32)) 0b011

abbrev pub load : ℕ
load = make_opcode 0b00 0b000

abbrev pub store : ℕ
store = make_opcode 0b01 0b000

abbrev pub madd : ℕ
madd = make_opcode 0b10 0b000

abbrev pub branch : ℕ
branch = make_opcode 0b11 0b000

abbrev pub load_fp : ℕ
load_fp = make_opcode 0b00 0b001

abbrev pub store_fp : ℕ
store_fp = make_opcode 0b01 0b001

abbrev pub msub : ℕ
msub = make_opcode 0b10 0b001

abbrev pub jalr : ℕ
jalr = make_opcode 0b11 0b001

abbrev pub custom_0 : ℕ
custom_0 = make_opcode 0b00 0b010

abbrev pub custom_1 : ℕ
custom_1 = make_opcode 0b01 0b010

abbrev pub nmsub : ℕ
nmsub = make_opcode 0b10 0b010

abbrev pub r_11_010 : ℕ
r_11_010 = make_opcode 0b11 0b010

abbrev pub misc_mem : ℕ
misc_mem = make_opcode 0b00 0b011

abbrev pub amo : ℕ
amo = make_opcode 0b01 0b011

abbrev pub nmadd : ℕ
nmadd = make_opcode 0b10 0b011

abbrev pub jal : ℕ
jal = make_opcode 0b11 0b011

abbrev pub op_imm : ℕ
op_imm = make_opcode 0b00 0b100

abbrev pub op : ℕ
op = make_opcode 0b01 0b100

abbrev pub op_fp : ℕ
op_fp = make_opcode 0b10 0b100

abbrev pub system : ℕ
system = make_opcode 0b11 0b100

abbrev pub auipc : ℕ
auipc = make_opcode 0b00 0b101

abbrev pub lui : ℕ
lui = make_opcode 0b01 0b101

abbrev pub r_10_101 : ℕ
r_10_101 = make_opcode 0b10 0b101

abbrev pub r_11_101 : ℕ
r_11_101 = make_opcode 0b11 0b101

abbrev pub op_imm_32 : ℕ
op_imm_32 = make_opcode 0b00 0b110

abbrev pub op_32 : ℕ
op_32 = make_opcode 0b01 0b110

abbrev pub custom_2 : ℕ
custom_2 = make_opcode 0b10 0b110

abbrev pub custom_3 : ℕ
custom_3 = make_opcode 0b11 0b110

-- `get_op_id`
unfoldable pub get_op_id : ℕ → String
get_op_id code =
    if code == load
    then "LOAD"
    else if code == store
    then "STORE"
    else if code == madd
    then "MADD"
    else if code == branch
    then "BRANCH"
    else if code == load_fp
    then "LOAD_FP"
    else if code == store_fp
    then "STORE_FP"
    else if code == msub
    then "MSUB"
    else if code == jalr
    then "JALR"
    else if code == custom_0
    then "CUSTOM_0"
    else if code == custom_1
    then "CUSTOM_1"
    else if code == misc_mem
    then "MISC_MEM"
    else if code == amo
    then "AMO"
    else if code == jal
    then "JAL"
    else if code == op_imm
    then "OP_IMM"
    else if code == op
    then "OP"
    else if code == system
    then "SYSTEM"
    else if code == auipc
    then "AUIPC"
    else if code == lui
    then "LUI"
    else if code == op_imm_32
    then "OP_IMM_32"
    else if code == op_32
    then "OP_32"
    else if code == custom_3
    then "CUSTOM_3"
    else if code == custom_2
    then "CUSTOM_2"
    else if code == nmsub
    then "NMSUB"
    else if code == nmadd
    then "NMADD"
    else if code == op_fp
    then "OP_FP"
    else if code == r_11_010
    then "R_11_010"
    else if code == r_10_101
    then "R_10_101"
    else if code == r_11_101
    then "R_11_101"
    else "UNKNOWN"

unfoldable pub get_code_id : ℕ → String
unfolding get_op_id
get_code_id code = get_op_id (bit_and code 0b1111111)
