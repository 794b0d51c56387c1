-- ===== src/Isa/Encoding.antt =====
-- The encodings of RV32IM as the manual lists them: the opcode of each instruction and its function
-- fields, and the fields of a word.
use yeti_vm.Base.{ℕ, ◌/◌, ◌%◌, ◌^◌, ◌≡◌, Option, none, some}
use yeti_vm.Handler.Kinds
use yeti_vm.Handler.Kinds.{Handler}

abbrev pub rd : ℕ → ℕ
rd code = code / 2 ^ 7 % 2 ^ 5

abbrev pub rs1 : ℕ → ℕ
rs1 code = code / 2 ^ 15 % 2 ^ 5

abbrev pub rs2 : ℕ → ℕ
rs2 code = code / 2 ^ 20 % 2 ^ 5

abbrev pub opcode_of : Handler → ℕ
opcode_of Kinds.lui = 0b0110111
opcode_of Kinds.auipc = 0b0010111
opcode_of Kinds.jal = 0b1101111
opcode_of Kinds.jalr = 0b1100111
opcode_of Kinds.env_call = 0b1110011
opcode_of (Kinds.branch k) = 0b1100011
opcode_of (Kinds.load k) = 0b0000011
opcode_of (Kinds.store k) = 0b0100011
opcode_of (Kinds.int_imm k) = 0b0010011
opcode_of (Kinds.shift_imm k) = 0b0010011
opcode_of (Kinds.int_r op) = 0b0110011
opcode_of (Kinds.misc_mem k) = 0b0001111
opcode_of (Kinds.csr k) = 0b1110011
opcode_of (Kinds.math op) = 0b0110011

abbrev pub func3_of : Handler → Option ℕ
func3_of Kinds.lui = none
func3_of Kinds.auipc = none
func3_of Kinds.jal = none
func3_of Kinds.jalr = some 0b000
func3_of Kinds.env_call = some 0b000
func3_of (Kinds.branch Kinds.beq) = some 0b000
func3_of (Kinds.branch Kinds.bne) = some 0b001
func3_of (Kinds.branch Kinds.blt) = some 0b100
func3_of (Kinds.branch Kinds.bge) = some 0b101
func3_of (Kinds.branch Kinds.bltu) = some 0b110
func3_of (Kinds.branch Kinds.bgeu) = some 0b111
func3_of (Kinds.load Kinds.lb) = some 0b000
func3_of (Kinds.load Kinds.lh) = some 0b001
func3_of (Kinds.load Kinds.lw) = some 0b010
func3_of (Kinds.load Kinds.lbu) = some 0b100
func3_of (Kinds.load Kinds.lhu) = some 0b101
func3_of (Kinds.store Kinds.sb) = some 0b000
func3_of (Kinds.store Kinds.sh) = some 0b001
func3_of (Kinds.store Kinds.sw) = some 0b010
func3_of (Kinds.int_imm Kinds.addi) = some 0b000
func3_of (Kinds.int_imm Kinds.slti) = some 0b010
func3_of (Kinds.int_imm Kinds.sltiu) = some 0b011
func3_of (Kinds.int_imm Kinds.xori) = some 0b100
func3_of (Kinds.int_imm Kinds.ori) = some 0b110
func3_of (Kinds.int_imm Kinds.andi) = some 0b111
func3_of (Kinds.shift_imm Kinds.slli) = some 0b001
func3_of (Kinds.shift_imm Kinds.srli) = some 0b101
func3_of (Kinds.shift_imm Kinds.srai) = some 0b101
func3_of (Kinds.int_r Kinds.add_r) = some 0b000
func3_of (Kinds.int_r Kinds.sub_r) = some 0b000
func3_of (Kinds.int_r Kinds.sll_r) = some 0b001
func3_of (Kinds.int_r Kinds.slt_r) = some 0b010
func3_of (Kinds.int_r Kinds.sltu_r) = some 0b011
func3_of (Kinds.int_r Kinds.xor_r) = some 0b100
func3_of (Kinds.int_r Kinds.srl_r) = some 0b101
func3_of (Kinds.int_r Kinds.sra_r) = some 0b101
func3_of (Kinds.int_r Kinds.or_r) = some 0b110
func3_of (Kinds.int_r Kinds.and_r) = some 0b111
func3_of (Kinds.misc_mem Kinds.fence) = some 0b000
func3_of (Kinds.misc_mem Kinds.fence_i) = some 0b001
func3_of (Kinds.csr Kinds.csrrw) = some 0b001
func3_of (Kinds.csr Kinds.csrrs) = some 0b010
func3_of (Kinds.csr Kinds.csrrc) = some 0b011
func3_of (Kinds.csr Kinds.csrrwi) = some 0b101
func3_of (Kinds.csr Kinds.csrrsi) = some 0b110
func3_of (Kinds.csr Kinds.csrrci) = some 0b111
func3_of (Kinds.math Kinds.mul) = some 0b000
func3_of (Kinds.math Kinds.mulh) = some 0b001
func3_of (Kinds.math Kinds.mulhsu) = some 0b010
func3_of (Kinds.math Kinds.mulhu) = some 0b011
func3_of (Kinds.math Kinds.div) = some 0b100
func3_of (Kinds.math Kinds.divu) = some 0b101
func3_of (Kinds.math Kinds.rem) = some 0b110
func3_of (Kinds.math Kinds.remu) = some 0b111

abbrev pub func7_of : Handler → Option ℕ
func7_of (Kinds.shift_imm Kinds.slli) = some 0b0000000
func7_of (Kinds.shift_imm Kinds.srli) = some 0b0000000
func7_of (Kinds.shift_imm Kinds.srai) = some 0b0100000
func7_of (Kinds.int_r Kinds.sub_r) = some 0b0100000
func7_of (Kinds.int_r Kinds.sra_r) = some 0b0100000
func7_of (Kinds.int_r _) = some 0b0000000
func7_of (Kinds.math op) = some 0b0000001
func7_of _ = none

-- A field that an instruction asks for, or any value.
abbrev pub Field : Option ℕ → ℕ → Type 0
Field none x = Unit
Field (some f) x = x ≡ f

-- The word is the instruction.
pub record Encodes (h : Handler) (code : ℕ) : Type 0 where
  pub opcode : code % 2 ^ 7 ≡ opcode_of h
  pub func3 : Field (func3_of h) (code / 2 ^ 12 % 2 ^ 3)
  pub func7 : Field (func7_of h) (code / 2 ^ 25 % 2 ^ 7)
