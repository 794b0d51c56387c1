-- ===== src/Isa/Manual.antt =====
-- What the instruction set manual says of each instruction, on a file of registers: the general
-- ones at 0 to 31, the program counter at 32.
use yeti_vm.Base.{ℕ, ◌+◌, ◌*◌, ◌/◌, ◌%◌, ◌^◌, ◌&&◌, Option, none, some}
use yeti_vm.Base.{ltb, leb, if◌then◌else◌}
use yeti_vm.Opcode.Fields.{sign_extended}
use yeti_vm.Handler.Kinds.{
  Handler, Load, Store, lb, lh, lw, lbu, lhu, sb, sh, sw, lui, auipc, int_imm, shift_imm, int_r,
  math, branch, jal, jalr, load, store,
}
use yeti_vm.Handler.Alu.{alu, is_shift}
use yeti_vm.Handler.Compare.{taken}
use yeti_vm.Handler.Immediate.{imm_op, shift_op}
use yeti_vm.Handler.Muldiv.{muldiv, overflows}
use yeti_vm.Isa.Encoding.{rd, rs1, rs2}
use yeti_vm.Vm.State.{register_count, write_register}

abbrev pub imm_i : ℕ → ℕ
imm_i code = sign_extended 12 (code / 2 ^ 20 % 2 ^ 12)

abbrev pub imm_s : ℕ → ℕ
imm_s code = sign_extended 12 (code / 2 ^ 25 % 2 ^ 7 * 2 ^ 5 + code / 2 ^ 7 % 2 ^ 5)

abbrev pub imm_u : ℕ → ℕ
imm_u code = code / 2 ^ 12 * 2 ^ 12

abbrev pub imm_b : ℕ → ℕ
imm_b code = sign_extended 13 (
    code / 2 ^ 31 % 2 * 2 ^ 12
    + code / 2 ^ 7 % 2 * 2 ^ 11
    + code / 2 ^ 25 % 2 ^ 6 * 2 ^ 5
    + code / 2 ^ 8 % 2 ^ 4 * 2)

abbrev pub imm_j : ℕ → ℕ
imm_j code = sign_extended 21 (
    code / 2 ^ 31 % 2 * 2 ^ 20
    + code / 2 ^ 12 % 2 ^ 8 * 2 ^ 12
    + code / 2 ^ 20 % 2 * 2 ^ 11
    + code / 2 ^ 21 % 2 ^ 10 * 2)

-- x0 reads as 0 and is not written.
abbrev pub read : (ℕ → ℕ) → ℕ → ℕ
read regs r = if ltb 0 r then regs r else 0

abbrev pub write : (ℕ → ℕ) → ℕ → ℕ → ℕ → ℕ
write regs r v = if ltb 0 r then write_register regs r v else regs

abbrev pub next_pc : (ℕ → ℕ) → ℕ
next_pc regs = (regs register_count + 4) % 2 ^ 32

-- The registers with the program counter at an address.
abbrev pub at_pc : (ℕ → ℕ) → ℕ → ℕ → ℕ
at_pc regs t = write_register regs register_count t

-- The registers that a word names are arguments here.
--
-- What is stored in the destination; `none` for an instruction that does more than that, and for a
-- shift or a product that C++ leaves undefined.
abbrev pub computed_with : Handler → (ℕ → ℕ) → ℕ → ℕ → ℕ → Option ℕ
computed_with lui regs code r1 r2 = some (imm_u code)
computed_with auipc regs code r1 r2 = some ((imm_u code + regs register_count) % 2 ^ 32)
computed_with (int_imm k) regs code r1 r2 = some (alu (imm_op k) (read regs r1) (imm_i code))
computed_with (shift_imm k) regs code r1 r2 =
    some (alu (shift_op k) (read regs r1) (code / 2 ^ 20 % 2 ^ 5))
computed_with (int_r op) regs code r1 r2 =
    let l = read regs r1 in
    let r = read regs r2 in if is_shift op && leb 32 r then none else some (alu op l r)
computed_with (math op) regs code r1 r2 =
    let l = read regs r1 in
    let r = read regs r2 in if overflows op l r then none else some (muldiv op l r)
computed_with _ regs code r1 r2 = none

-- The registers of an instruction that jumps, with its return address, and the address it goes to.
abbrev pub destination_with : Handler → (ℕ → ℕ) → ℕ → ℕ → ℕ → ℕ → Option ((ℕ → ℕ) × ℕ)
destination_with (branch k) regs code d r1 r2 = some (
  regs,
  if taken k (read regs r1) (read regs r2)
      then (regs register_count + imm_b code) % 2 ^ 32
      else next_pc regs,
)
destination_with jal regs code d r1 r2 =
    some (write regs d (next_pc regs), (regs register_count + imm_j code) % 2 ^ 32)
destination_with jalr regs code d r1 r2 =
    some (write regs d (next_pc regs), (read regs r1 + imm_i code) % 2 ^ 32 / 2 * 2)
destination_with _ regs code d r1 r2 = none

-- The number of bytes that an instruction accesses.
abbrev pub load_width : Load → ℕ
load_width lb = 1
load_width lh = 2
load_width lw = 4
load_width lbu = 1
load_width lhu = 2

abbrev pub store_width : Store → ℕ
store_width sb = 1
store_width sh = 2
store_width sw = 4

-- What is loaded of a value of the size of the load.
abbrev pub extended : Load → ℕ → ℕ
extended lb v = sign_extended 8 v
extended lh v = sign_extended 16 v
extended _ v = v

-- The address that a load or a store accesses, and the number of bytes.
abbrev pub access_with : Handler → (ℕ → ℕ) → ℕ → ℕ → Option (ℕ × ℕ)
access_with (load k) regs code r1 = some ((read regs r1 + imm_i code) % 2 ^ 32, load_width k)
access_with (store k) regs code r1 = some ((read regs r1 + imm_s code) % 2 ^ 32, store_width k)
access_with _ regs code r1 = none

-- With the registers of the manual's fields.
abbrev pub computed_by : Handler → (ℕ → ℕ) → ℕ → Option ℕ
computed_by h regs code = computed_with h regs code (rs1 code) (rs2 code)

abbrev pub destination_by : Handler → (ℕ → ℕ) → ℕ → Option ((ℕ → ℕ) × ℕ)
destination_by h regs code = destination_with h regs code (rd code) (rs1 code) (rs2 code)

abbrev pub access_by : Handler → (ℕ → ℕ) → ℕ → Option (ℕ × ℕ)
access_by h regs code = access_with h regs code (rs1 code)
