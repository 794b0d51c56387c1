-- ===== src/Disasm/Args.antt =====
-- `disassemblyArgs` of the handlers: vm_handler.hxx, vm_handlers_rv32i.hxx, vm_handlers_rv32m.hxx.
use yeti_vm.Base.{ℕ, ◌==◌, if◌then◌else◌, List, [], ◌∷◌, ◌++◌}
use yeti_vm.Base.Int.{pos}
use yeti_vm.BitTools.{get_bits_of}
use yeti_vm.Opcode.Decoder.{
  get_rd, get_rs1, get_rs2, decode_i, decode_s, decode_b, decode_u, decode_j,
}
use yeti_vm.Handler.Kinds
use yeti_vm.Handler.Kinds.{Handler}
use yeti_vm.Handler.Rv32i.{signed, shift_amount}
use yeti_vm.Disasm.Numbers.{to_hex, to_string}
use yeti_vm.Disasm.Alias.{get_register_alias}

-- `lhs + ", " + rhs`
abbrev pub joined : List ℕ → List ℕ → List ℕ
joined lhs rhs = lhs ++ (b',' ∷ b' ' ∷ rhs)

-- A register and what follows, two registers and what follows.
abbrev pub after_one : ℕ → List ℕ → List ℕ
after_one r rest = joined (get_register_alias r) rest

abbrev pub after_two : ℕ → ℕ → List ℕ → List ℕ
after_two r q rest = after_one r (after_one q rest)

-- `GenericHandler::disassemblyArgs`
unfoldable pub generic_args : ℕ → List ℕ
generic_args code = to_hex (get_bits_of 32 code 8 32)

unfoldable pub env_args : ℕ → List ℕ
env_args code =
    let args = get_bits_of 32 code 20 12 in
    if args == 0
    then b'c' ∷ b'a' ∷ b'l' ∷ b'l' ∷ []
    else if args == 1
    then b'b' ∷ b'r' ∷ b'e' ∷ b'a' ∷ b'k' ∷ []
    else to_hex args

module _ (code : ℕ) where
  abbrev pub upper_args : List ℕ
  upper_args = after_one (get_rd code) (to_hex (decode_u code))

  abbrev pub jal_args : List ℕ
  jal_args = after_one (get_rd code) (to_string (signed (decode_j code)))

  abbrev pub jalr_args : List ℕ
  jalr_args = after_two (get_rd code) (get_rs1 code) (to_string (signed (decode_i code)))

  abbrev pub branch_args : List ℕ
  branch_args = after_two (get_rs1 code) (get_rs2 code) (to_string (signed (decode_b code)))

  abbrev pub load_args : List ℕ
  load_args = after_two (get_rd code) (get_rs1 code) (to_string (signed (decode_i code)))

  abbrev pub store_args : List ℕ
  store_args = after_two (get_rs2 code) (get_rs1 code) (to_string (signed (decode_s code)))

  abbrev pub int_imm_args : List ℕ
  int_imm_args = after_two (get_rd code) (get_rs1 code) (to_string (signed (decode_i code)))

  abbrev pub sltiu_args : List ℕ
  sltiu_args = after_two (get_rd code) (get_rs1 code) (to_hex (decode_i code))

  abbrev pub shift_imm_args : List ℕ
  shift_imm_args = after_two (get_rd code) (get_rs1 code) (to_string (pos (shift_amount code)))

  abbrev pub int_r_args : List ℕ
  int_r_args = after_two (get_rd code) (get_rs1 code) (get_register_alias (get_rs2 code))

  abbrev pub math_args : List ℕ
  math_args = after_two (get_rd code) (get_rs1 code) (get_register_alias (get_rs2 code))

-- The virtual call.
unfoldable pub disassembly_args : Handler → ℕ → List ℕ
disassembly_args Kinds.lui code = upper_args code
disassembly_args Kinds.auipc code = upper_args code
disassembly_args Kinds.jal code = jal_args code
disassembly_args Kinds.jalr code = jalr_args code
disassembly_args Kinds.env_call code = env_args code
disassembly_args (Kinds.branch k) code = branch_args code
disassembly_args (Kinds.load k) code = load_args code
disassembly_args (Kinds.store k) code = store_args code
disassembly_args (Kinds.int_imm Kinds.sltiu) code = sltiu_args code
disassembly_args (Kinds.int_imm k) code = int_imm_args code
disassembly_args (Kinds.shift_imm k) code = shift_imm_args code
disassembly_args (Kinds.int_r k) code = int_r_args code
disassembly_args (Kinds.misc_mem k) code = generic_args code
disassembly_args (Kinds.csr k) code = generic_args code
disassembly_args (Kinds.math k) code = math_args code
