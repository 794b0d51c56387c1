-- ===== src/Vm/Target.antt =====
-- Where an instruction goes: `set_pc`, `inc_pc` and the jumps of vm_basic.cxx against the manual.
use yeti_vm.Base.{ℕ, ◌+◌, ◌%◌, ◌^◌, ◌<◌, ◌≡◌, refl, arith, Bool, true, false, Option, none, some}
use yeti_vm.Base.{◌==◌, if◌then◌else◌, Bool-cases, Option-cases, inl, inr}
use yeti_vm.Base.Exec.{Result, ok, err, code_access_error}
use yeti_vm.BitTools.{to_signed}
use yeti_vm.Opcode.Decoder.{get_rd, get_rs1, get_rs2}
use yeti_vm.Memory.Block.{Block}
use yeti_vm.Memory.Mmu.{find_block}
use yeti_vm.Handler.Kinds.{Handler}
use yeti_vm.Handler.Immediate.{to_unsigned-to_signed}
use yeti_vm.Isa.Manual.{destination_with}
use yeti_vm.Vm.State.{Vm, register_count, write_register}
use yeti_vm.Vm.Access.{get_pc, set_pc, inc_pc, jump_abs, jump_to, jump_if}

-- The machine with its program counter at an address that must be aligned and in a block.
abbrev pub land : Vm → ℕ → Option Block → Result (Unit {0}) × Vm
land vm t none = (err code_access_error, vm)
land vm t (some b) = (ok tt, record vm { registers = write_register vm.registers register_count t })

abbrev pub arrive : Vm → ℕ → Result (Unit {0}) × Vm
arrive vm t = if t % 4 == 0 then land vm t (find_block vm.mmu t 4) else (err code_access_error, vm)

-- The machine with its return address, and the address that it goes to.
abbrev pub with_registers : Vm → Option ((ℕ → ℕ) × ℕ) → Option (Vm × ℕ)
with_registers vm none = none
with_registers vm (some (regs, t)) = some (record vm { registers = regs }, t)

-- What the manual says of an instruction that jumps.
abbrev pub destination : Handler → Vm → ℕ → Option (Vm × ℕ)
destination h vm code =
    with_registers vm
      (destination_with h vm.registers code (get_rd code) (get_rs1 code) (get_rs2 code))

set_pc_lem : (t : ℕ) (vm : Vm) → set_pc t vm ≡ land vm t (find_block vm.mmu t 4)
unfolding set_pc
set_pc_lem t vm = elim (Option-cases (find_block vm.mmu t 4)) [
  | inl e ↦ rw e refl
  | inr (b, e) ↦ rw e refl
]

pub jump_abs_lem : (t : ℕ) (vm : Vm) → jump_abs t vm ≡ arrive vm t
unfolding jump_abs
jump_abs_lem t vm = elim (Bool-cases (t % 4 == 0)) [
  | inl e ↦ rw e (set_pc_lem t vm)
  | inr e ↦ rw e refl
]

-- The next word needs no test of its address.
pub inc_pc_lem :
    (vm : Vm)
    → vm.registers register_count % 4 ≡ 0
    → inc_pc vm ≡ arrive vm ((vm.registers register_count + 4) % 2 ^ 32)
unfolding inc_pc get_pc
inc_pc_lem vm al =
    let t = (vm.registers register_count + 4) % 2 ^ 32 in
    let e : (t % 4 == 0) ≡ true = ground (arith, al) in rw e (set_pc_lem t vm)

pub jump_to_lem :
    (imm : ℕ) (vm : Vm)
    → imm < 2 ^ 32
    → jump_to (to_signed 32 imm) vm ≡ arrive vm ((vm.registers register_count + imm) % 2 ^ 32)
unfolding jump_to get_pc
jump_to_lem imm vm lt = rw (to_unsigned-to_signed imm lt) (jump_abs_lem _ vm)

pub jump_if_lem :
    (c : Bool) (imm : ℕ) (vm : Vm)
    → imm < 2 ^ 32
    → vm.registers register_count % 4 ≡ 0
    → jump_if c (to_signed 32 imm) vm
      ≡ arrive vm (
          if c
          then (vm.registers register_count + imm) % 2 ^ 32
          else (vm.registers register_count + 4) % 2 ^ 32)
unfolding jump_if
jump_if_lem true imm vm lt al = jump_to_lem imm vm lt
jump_if_lem false imm vm lt al = inc_pc_lem vm al
