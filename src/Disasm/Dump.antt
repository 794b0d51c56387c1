-- ===== src/Disasm/Dump.antt =====
-- `dump_state` of vm_basic.cxx: what it writes, without labels and padding. Numbers are shown by
-- their hexadecimal digits.
use yeti_vm.Base.{ℕ, zero, suc, ◌≡◌, refl, Option, none, some, List, [], ◌∷◌, ◌++◌, String}
use yeti_vm.Base.Exec.{Result, ok, err, unknown_instruction}
use yeti_vm.Opcode.Decoder.{
  get_code, get_rd, get_rs1, get_rs2, decode_i_u, decode_b_u, decode_j_u, decode_s_u, decode_u,
}
use yeti_vm.Opcode.Groups.{get_op_id}
use yeti_vm.Handler.Kinds.{Handler}
use yeti_vm.Handler.Registry.{find_handler}
use yeti_vm.Vm.State.{Vm, register_count}
use yeti_vm.Vm.Access.{get_register}
use yeti_vm.Vm.Step.{get_current}
use yeti_vm.Vm.Invariant.{IsVm}
use yeti_vm.Vm.Safety.{get_current_lem}
use yeti_vm.Disasm.Alias.{get_register_alias}
use yeti_vm.Disasm.Mnemonic.{mnemonic}
use yeti_vm.Disasm.Args.{disassembly_args}

-- The part on the current word.
pub record CurrentDump : Type 0 where
  pub current : String
  pub code : ℕ
  pub rd : List ℕ
  pub rs1 : List ℕ
  pub rs2 : List ℕ
  pub i : ℕ
  pub b : ℕ
  pub j : ℕ
  pub s : ℕ
  pub u : ℕ
  pub decoded : Option (String × List ℕ)

-- A register: its number, its name and its value.
pub record RegisterDump : Type 0 where
  pub number : ℕ
  pub name : List ℕ
  pub value : Result ℕ

-- `none` where the fetch gives no word.
pub record StateDump : Type 0 where
  pub word : Option CurrentDump
  pub pc : ℕ
  pub register_dumps : List RegisterDump

unfoldable pub decoded_of : Option Handler → ℕ → Option (String × List ℕ)
decoded_of none code = none
decoded_of (some handler) code = some (mnemonic handler, disassembly_args handler code)

unfoldable pub dump_current : Vm → ℕ → CurrentDump
dump_current vm code = record {
  current = get_op_id (get_code code);
  code = code;
  rd = get_register_alias (get_rd code);
  rs1 = get_register_alias (get_rs1 code);
  rs2 = get_register_alias (get_rs2 code);
  i = decode_i_u code;
  b = decode_b_u code;
  j = decode_j_u code;
  s = decode_s_u code;
  u = decode_u code;
  decoded = decoded_of (find_handler vm.opcodes code) code;
}

-- The first registers, as many as said.
unfoldable pub dump_registers : Vm → ℕ → List RegisterDump
dump_registers vm zero = []
dump_registers vm (suc r) =
    dump_registers vm r
    ++ (record { number = r; name = get_register_alias r; value = (get_register r vm).0 } ∷ [])

abbrev pub dump_with : Vm → Option CurrentDump → StateDump
dump_with vm word = record {
  word = word;
  pc = vm.registers register_count;
  register_dumps = dump_registers vm register_count;
}

-- A fetch that throws ends the dump, but for the one that gives no word.
unfoldable pub dump_word : Vm → Result ℕ → Result StateDump
dump_word vm (ok code) = ok (dump_with vm (some (dump_current vm code)))
dump_word vm (err unknown_instruction) = ok (dump_with vm none)
dump_word vm (err e) = err e

unfoldable pub dump_state : Vm → Result StateDump
dump_state vm = dump_word vm (get_current vm).0

-- A machine that is well formed is dumped, with the word at its program counter.
pub dump_state-IsVm :
    (vm : Vm)
    → IsVm vm
    → (code : ℕ) × (get_current vm ≡ (ok code, vm))
      × (dump_state vm ≡ ok (dump_with vm (some (dump_current vm code))))
unfolding dump_state dump_word
dump_state-IsVm vm i = let e = get_current_lem vm i in (_, e, rw e refl)
